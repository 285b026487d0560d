-- ===== src/Filter/Programs.antt =====
-- internal/adapter/capture/filter.go: what the compiler returns and what its cache holds.
use cap_mesh.Prelude.{
  ℕ, suc, ◌%◌, ◌^◌, ◌≡◌, ◌≤◌, ◌<◌, refl, ap, not, List, [], ◌∷◌, length, Option, none, some, Result,
  ok, err, OkThen, OkThen-bind, OkThen-fail_if, ◌==◌, ltb, arith,
}
use cap_mesh.Text.{Text, trim_space}
use cap_mesh.Map.{Map, lookup, insert}
use cap_mesh.Filter.{
  RawInstruction, FilterError, bad_count, count_mismatch, no_bytecode, integers, instruction,
  instructions, fields, counted, parse_lines, parse_decimal_bpf, split, printed, parse_uint,
  max_filter_cache_entries, cache_key, remember, Compiled, store, missed, accept_all, compile,
}

abbrev pub IsInstruction : RawInstruction → Type 0
IsInstruction i = (i.op < 2 ^ 16) × (i.jt < 2 ^ 8) × (i.jf < 2 ^ 8) × (i.k < 2 ^ 32)

abbrev pub AreInstructions : List RawInstruction → Type 0
AreInstructions [] = Unit
AreInstructions (i ∷ is) = IsInstruction i × AreInstructions is

-- One to 65535 instructions, each of whose fields fits its width.
abbrev pub IsProgram : List RawInstruction → Type 0
IsProgram is = (1 ≤ length is) × (length is < 2 ^ 16) × AreInstructions is

abbrev pub ArePrograms : Map (List RawInstruction) → Type 0
ArePrograms [] = Unit
ArePrograms ((key, is) ∷ m) = IsProgram is × ArePrograms m

-- At most 256 programs.
abbrev pub IsCache : Map (List RawInstruction) → Type 0
IsCache m = (length m ≤ max_filter_cache_entries) × ArePrograms m

mod_lt : (n : ℕ) → (n % 2 ^ 16 < 2 ^ 16) × (n % 2 ^ 8 < 2 ^ 8) × (n % 2 ^ 32 < 2 ^ 32)
mod_lt n = (omega arith, omega arith, omega arith)

integers-IsInstruction :
    (index : ℕ) (a b c d : Option ℕ) → OkThen IsInstruction (integers index a b c d)
unfolding integers
integers-IsInstruction index (some a) (some b) (some c) (some d) =
    ((mod_lt a).0, (mod_lt b).1, (mod_lt c).1, (mod_lt d).2)
integers-IsInstruction index none b c d = tt
integers-IsInstruction index (some a) none c d = tt
integers-IsInstruction index (some a) (some b) none d = tt
integers-IsInstruction index (some a) (some b) (some c) none = tt

instruction-IsInstruction :
    (index : ℕ) (ws : List Text) → OkThen IsInstruction (instruction index ws)
unfolding instruction
instruction-IsInstruction index [] = tt
instruction-IsInstruction index (a ∷ []) = tt
instruction-IsInstruction index (a ∷ b ∷ []) = tt
instruction-IsInstruction index (a ∷ b ∷ c ∷ []) = tt
instruction-IsInstruction index (a ∷ b ∷ c ∷ d ∷ []) = integers-IsInstruction index _ _ _ _
instruction-IsInstruction index (a ∷ b ∷ c ∷ d ∷ e ∷ ws) = tt

-- As many instructions as lines, each of which fits.
abbrev Reads : List Text → List RawInstruction → Type 0
Reads lines is = (length is ≡ length lines) × AreInstructions is

OkThen-map :
    {A : Type 0} (P Q : A → Type 0) (r : Result FilterError A)
    → OkThen P r
    → ((a : A) → P a → Q a)
    → OkThen Q r
OkThen-map P Q (ok a) p f = f a p
OkThen-map P Q (err e) p f = tt

instructions-Reads :
    (index : ℕ) (lines : List Text) → OkThen (Reads lines) (instructions index lines)
unfolding instructions
instructions-Reads index [] = (refl, tt)
instructions-Reads index (line ∷ lines) =
    OkThen-bind IsInstruction (Reads (line ∷ lines)) (instruction index (fields line)) _
      (instruction-IsInstruction index (fields line))
      (λ x hx.
        OkThen-bind (Reads lines) (Reads (line ∷ lines)) (instructions (suc index) lines) _
          (instructions-Reads (suc index) lines) (λ xs (n, hxs). (ap suc n, (hx, hxs))))

parse_uint_lt : (bits : ℕ) (t : Text) (n : ℕ) → parse_uint bits t ≡ some n → n < 2 ^ bits
unfolding parse_uint
parse_uint_lt bits t n e = ground arith

counted-IsProgram :
    (line : Text) (lines : List Text) (r : Option ℕ)
    → ((n : ℕ) → r ≡ some n → n < 2 ^ 16)
    → OkThen IsProgram (counted line lines r)
unfolding counted
counted-IsProgram line lines none small = tt
counted-IsProgram line lines (some n) small =
    OkThen-fail_if IsProgram (n == 0) (bad_count line) _ (λ positive.
      OkThen-fail_if IsProgram (not (length lines == n)) (count_mismatch n (length lines)) _
        (λ same.
          OkThen-map (Reads lines) IsProgram (instructions 0 lines) (instructions-Reads 0 lines)
            (λ is (counts, fit).
              (ground (arith, counts), ground (arith, counts, small n refl), fit))))

parse_lines-IsProgram : (lines : List Text) → OkThen IsProgram (parse_lines lines)
unfolding parse_lines
parse_lines-IsProgram [] = tt
parse_lines-IsProgram (line ∷ lines) =
    OkThen-fail_if IsProgram (ltb (suc (length lines)) 2) no_bytecode _ (λ _.
      counted-IsProgram (trim_space line) lines (parse_uint 16 (trim_space line))
        (parse_uint_lt 16 (trim_space line)))

insert-ArePrograms :
    (key : Text) (is : List RawInstruction) (m : Map (List RawInstruction))
    → IsProgram is
    → ArePrograms m
    → ArePrograms (insert key is m) × (length (insert key is m) ≤ suc (length m))
unfolding insert
insert-ArePrograms key is [] h hs = ((h, tt), omega arith)
insert-ArePrograms key is ((j, x) ∷ m) h (hx, hs) = ground (arith, insert-ArePrograms key is m h hs)

remember-IsCache :
    (key : Text) (is : List RawInstruction) (m : Map (List RawInstruction))
    → IsProgram is
    → IsCache m
    → IsCache (remember key is m)
unfolding remember
remember-IsCache key is m h (n, hs) =
    ground (arith, insert-ArePrograms key is m h hs, insert-ArePrograms key is [] h tt)

lookup-IsProgram :
    (key : Text) (m : Map (List RawInstruction))
    → ArePrograms m
    → (is : List RawInstruction) → lookup key m ≡ some is
    → IsProgram is
unfolding lookup
lookup-IsProgram key [] hs is e = absurd (ground arith)
lookup-IsProgram key ((j, x) ∷ m) (hx, hs) is e = ground (arith, lookup-IsProgram key m hs is)

-- What a call of the compiler gives: a program or an error, and a cache.
abbrev pub IsCompiled : Compiled → Type 0
IsCompiled (r, m) = OkThen IsProgram r × IsCache m

store-IsCompiled :
    (key : Text) (m : Map (List RawInstruction)) (r : Result FilterError (List RawInstruction))
    → IsCache m
    → OkThen IsProgram r
    → IsCompiled (store key m r)
unfolding store
store-IsCompiled key m (ok is) c h = (h, remember-IsCache key is m h c)
store-IsCompiled key m (err e) c h = (tt, c)

printed-IsProgram : (output : Result Text Text) → OkThen IsProgram (printed output)
unfolding printed parse_decimal_bpf
printed-IsProgram (ok output) = parse_lines-IsProgram (split (λ c. c == 10) (trim_space output))
printed-IsProgram (err e) = tt

missed-IsCompiled :
    (command : Text → Text → ℕ → Result Text Text) (interface_name filter : Text) (snaplen : ℕ)
    (m : Map (List RawInstruction)) (found : Option (List RawInstruction))
    → IsCache m
    → ((is : List RawInstruction) → found ≡ some is → IsProgram is)
    → IsCompiled (missed command interface_name filter snaplen m found)
unfolding missed
missed-IsCompiled command interface_name filter snaplen m (some is) c h = (h is refl, c)
missed-IsCompiled command interface_name filter snaplen m none c h =
    store-IsCompiled _ m _ c (printed-IsProgram (command interface_name filter snaplen))

-- Whatever the command prints, a call of Compile on a cache of at most 256 programs gives such a
-- cache, and an error or a program: 1 to 65535 instructions whose fields fit their widths.
pub compile-IsCompiled :
    (command : Text → Text → ℕ → Result Text Text) (interface_name given : Text) (snaplen : ℕ)
    (m : Map (List RawInstruction))
    → IsCache m
    → IsCompiled (compile command interface_name given snaplen m)
unfolding compile accept_all
compile-IsCompiled command interface_name given snaplen m c = ground (
  arith,
  missed-IsCompiled command interface_name (trim_space given) snaplen m
      (lookup (cache_key interface_name snaplen (trim_space given)) m) c
      (lookup-IsProgram (cache_key interface_name snaplen (trim_space given)) m c.1),
)
