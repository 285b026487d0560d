-- ===== src/Filter.antt =====
-- internal/adapter/capture/filter.go: capture filters compiled by an external command, and the cache
-- of its programs. The command, dumpcap, is a parameter; the lock is not modelled, a call is a step.
pub mod Cache
pub mod Programs
pub mod Tests
use cap_mesh.Prelude.{
  ℕ, zero, suc, ◌+◌, ◌-◌, ◌/◌, ◌%◌, ◌^◌, ◌≡◌, Bool, true, false, not, List, [], ◌∷◌, ◌++◌, length,
  Option, none, some, if◌then◌else◌, Result, ok, err, ◌>>=◌, ◌>>◌, fail_if, ◌==◌, ltb, leb, ◌&&◌,
  ◌||◌, all,
}
use cap_mesh.Text.{Text, text_eq, is_space, trim_space, is_empty}
use cap_mesh.Map.{Map, lookup, insert}
use cap_mesh.Recording.{is_digit, value}

-- bpf.RawInstruction
pub record RawInstruction : Type 0 where
  op : ℕ
  jt : ℕ
  jf : ℕ
  k : ℕ

pub data FilterError : Type 0 where
  bad_snaplen no_bytecode : FilterError
  command_failed : Text → FilterError
  bad_count : Text → FilterError
  count_mismatch : ℕ → ℕ → FilterError
  bad_fields : ℕ → ℕ → FilterError
  bad_integer : ℕ → FilterError

-- strings.Split by one byte that passes the test.
unfoldable pub split : (ℕ → Bool) → Text → List Text
split p [] = [] ∷ []
split p (c ∷ s) =
    let rest = split p s in
    if p c then [] ∷ rest else elim rest [ [] ↦ (c ∷ []) ∷ [] | w ∷ ws ↦ (c ∷ w) ∷ ws ]

unfoldable pub nonempty : List Text → List Text
nonempty [] = []
nonempty (w ∷ ws) = let rest = nonempty ws in if is_empty w then rest else w ∷ rest

-- strings.Fields
unfoldable pub fields : Text → List Text
unfolding split nonempty is_space
fields s = nonempty (split is_space s)

-- strconv.ParseUint in base 10
unfoldable pub parse_uint : ℕ → Text → Option ℕ
unfolding value is_digit
parse_uint bits s =
    if not (is_empty s) && (all is_digit s && ltb (value 0 s) (2 ^ bits))
    then some (value 0 s)
    else none

unfoldable pub integers :
    ℕ → Option ℕ → Option ℕ → Option ℕ → Option ℕ → Result FilterError RawInstruction
integers index (some code) (some jt) (some jf) (some k) =
    ok (record { op = code % 2 ^ 16; jt = jt % 2 ^ 8; jf = jf % 2 ^ 8; k = k % 2 ^ 32 })
integers index none jt jf k = err (bad_integer index)
integers index (some code) none jf k = err (bad_integer index)
integers index (some code) (some jt) none k = err (bad_integer index)
integers index (some code) (some jt) (some jf) none = err (bad_integer index)

unfoldable pub instruction : ℕ → List Text → Result FilterError RawInstruction
unfolding integers parse_uint
instruction index (code ∷ jt ∷ jf ∷ k ∷ []) =
    integers index (parse_uint 16 code) (parse_uint 8 jt) (parse_uint 8 jf) (parse_uint 32 k)
instruction index found = err (bad_fields index (length found))

unfoldable pub instructions : ℕ → List Text → Result FilterError (List RawInstruction)
unfolding instruction fields
instructions index [] = ok []
instructions index (line ∷ lines) = do
  x ← instruction index (fields line)
  xs ← instructions (suc index) lines
  ok (x ∷ xs)

-- The count of the first line against the lines that follow it.
unfoldable pub counted : Text → List Text → Option ℕ → Result FilterError (List RawInstruction)
unfolding instructions
counted line lines none = err (bad_count line)
counted line lines (some count) = do
  fail_if (count == 0) (bad_count line)
  fail_if (not (length lines == count)) (count_mismatch count (length lines))
  instructions 0 lines

unfoldable pub parse_lines : List Text → Result FilterError (List RawInstruction)
unfolding counted parse_uint trim_space
parse_lines [] = err no_bytecode
parse_lines (line ∷ lines) = do
  fail_if (ltb (suc (length lines)) 2) no_bytecode
  counted (trim_space line) lines (parse_uint 16 (trim_space line))

unfoldable pub parse_decimal_bpf : Text → Result FilterError (List RawInstruction)
unfolding parse_lines split trim_space
parse_decimal_bpf output = parse_lines (split (λ c. c == 10) (trim_space output))

abbrev pub max_filter_cache_entries : ℕ
max_filter_cache_entries = 256

-- strconv.FormatUint in base 10; the fuel is the number of digits allowed for.
unfoldable pub format_uint : ℕ → ℕ → Text
format_uint zero n = []
format_uint (suc fuel) n =
    let rest = format_uint fuel (n / 10) in
    if ltb n 10 then (48 + n) ∷ [] else rest ++ ((48 + n % 10) ∷ [])

-- A snapshot length has at most five digits.
unfoldable pub cache_key : Text → ℕ → Text → Text
unfolding format_uint
cache_key interface_name snaplen filter =
    interface_name ++ (0 ∷ (format_uint 5 snaplen ++ (0 ∷ filter)))

-- The cache is started over when it is full.
unfoldable pub remember :
    Text → List RawInstruction → Map (List RawInstruction) → Map (List RawInstruction)
unfolding insert
remember key program cache =
    if leb max_filter_cache_entries (length cache)
    then insert key program []
    else insert key program cache

abbrev pub Compiled : Type 0
Compiled = Result FilterError (List RawInstruction) × Map (List RawInstruction)

-- What the command printed is parsed, and kept where it is a program.
unfoldable pub store :
    Text → Map (List RawInstruction) → Result FilterError (List RawInstruction) → Compiled
unfolding remember
store key cache (err e) = (err e, cache)
store key cache (ok program) = (ok program, remember key program cache)

-- What the command's output is compiled to.
unfoldable pub printed : Result Text Text → Result FilterError (List RawInstruction)
unfolding parse_decimal_bpf
printed (ok output) = parse_decimal_bpf output
printed (err e) = err (command_failed e)

unfoldable pub missed :
    (Text → Text → ℕ → Result Text Text)
    → Text
    → Text
    → ℕ
    → Map (List RawInstruction)
    → Option (List RawInstruction)
    → Compiled
unfolding store cache_key printed
missed command interface_name filter snaplen cache (some cached) = (ok cached, cache)
missed command interface_name filter snaplen cache none =
    store (cache_key interface_name snaplen filter) cache
      (printed (command interface_name filter snaplen))

-- BPF_RET | BPF_K
unfoldable pub accept_all : ℕ → List RawInstruction
accept_all snaplen = (record { op = 6; jt = 0; jf = 0; k = snaplen }) ∷ []

unfoldable pub compile :
    (Text → Text → ℕ → Result Text Text) → Text → Text → ℕ → Map (List RawInstruction) → Compiled
unfolding trim_space missed lookup cache_key accept_all
compile command interface_name given snaplen cache =
    let filter = trim_space given in
    if ltb snaplen 1 || ltb 65535 snaplen
    then (err bad_snaplen, cache)
    else if is_empty filter
    then (ok (accept_all snaplen), cache)
    else missed command interface_name filter snaplen cache
        (lookup (cache_key interface_name snaplen filter) cache)
