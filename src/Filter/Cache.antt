-- ===== src/Filter/Cache.antt =====
-- internal/adapter/capture/filter.go: the keys of the cache, and what the cache changes of a result.
use cap_mesh.Prelude.{
  ℕ, zero, suc, ◌+◌, ◌-◌, ◌*◌, ◌/◌, ◌%◌, ◌^◌, ◌≡◌, ◌<◌, refl, sym, ap, ◌∙◌, Bool, true, false, List,
  [], ◌∷◌, ◌++◌, length, Option, none, some, Result, ok, err, ltb, leb, arith, if◌then◌else◌, ◌||◌,
}
use cap_mesh.Text.{Text, text_eq, text_eq_iff, is_empty, trim_space}
use cap_mesh.Map.{Map, lookup, insert, lookup-insert}
use cap_mesh.Recording.{value}
use cap_mesh.Filter.{
  RawInstruction, FilterError, format_uint, cache_key, remember, Compiled, store, printed, missed,
  accept_all, compile, bad_snaplen, max_filter_cache_entries,
}

-- No byte of the text is zero.
abbrev pub HasNoNul : Text → Type 0
HasNoNul [] = Unit
HasNoNul (c ∷ s) = (0 < c) × HasNoNul s

cons_eq : (a b : ℕ) (s t : Text) → a ∷ s ≡ b ∷ t → (a ≡ b) × (s ≡ t)
cons_eq a b s t e = (ground arith, ground arith)

-- Texts without zero bytes can be read off what they are joined by a zero byte.
split_unique :
    (a b s t : Text) → HasNoNul a → HasNoNul b → a ++ (0 ∷ s) ≡ b ++ (0 ∷ t) → (a ≡ b) × (s ≡ t)
split_unique [] [] s t p q e = (refl, (cons_eq 0 0 s t e).1)
split_unique [] (y ∷ b) s t p (q, qs) e = absurd (ground arith)
split_unique (x ∷ a) [] s t (p, ps) q e = absurd (ground arith)
split_unique (x ∷ a) (y ∷ b) s t (p, ps) (q, qs) e =
    let (h, es) = cons_eq x y (a ++ (0 ∷ s)) (b ++ (0 ∷ t)) e in
    let (i, j) = split_unique a b s t ps qs es in (cc, j)

value_append : (n : ℕ) (s : Text) (c : ℕ) → value n (s ++ (c ∷ [])) ≡ value n s * 10 + (c - 48)
unfolding value
value_append n [] c = refl
value_append n (d ∷ s) c = value_append (n * 10 + (d - 48)) s c

append-HasNoNul : (s : Text) (c : ℕ) → HasNoNul s → 0 < c → HasNoNul (s ++ (c ∷ []))
append-HasNoNul [] c h p = (p, tt)
append-HasNoNul (d ∷ s) c (h, hs) p = (h, append-HasNoNul s c hs p)

format_uint-HasNoNul : (fuel n : ℕ) → HasNoNul (format_uint fuel n)
unfolding format_uint
format_uint-HasNoNul zero n = tt
format_uint-HasNoNul (suc fuel) n = ground (
  arith,
  append-HasNoNul (format_uint fuel (n / 10)) (48 + n % 10) (format_uint-HasNoNul fuel (n / 10)),
)

shorter : (fuel n : ℕ) → n < 10 ^ suc fuel → n / 10 < 10 ^ fuel
shorter fuel n h = omega (arith, h)

digit : (n : ℕ) → n / 10 * 10 + (48 + n % 10 - 48) ≡ n
digit n = omega arith

-- With a digit for each power of ten, the number can be read back.
value-format_uint : (fuel n : ℕ) → n < 10 ^ fuel → value 0 (format_uint fuel n) ≡ n
unfolding format_uint value
value-format_uint zero n h = omega (arith, h)
value-format_uint (suc fuel) n h = ground (
  arith,
  value_append 0 (format_uint fuel (n / 10)) (48 + n % 10),
  value-format_uint fuel (n / 10) (shorter fuel n h),
  digit n,
)

format_uint_unique : (n m : ℕ) → n < 10 ^ 5 → m < 10 ^ 5 → format_uint 5 n ≡ format_uint 5 m → n ≡ m
format_uint_unique n m hn hm e =
    sym (value-format_uint 5 n hn) ∙ ap (value 0) e ∙ value-format_uint 5 m hm

cache_key_unique :
    (i j f g : Text) (n m : ℕ)
    → HasNoNul i
    → HasNoNul j
    → n < 10 ^ 5
    → m < 10 ^ 5
    → cache_key i n f ≡ cache_key j m g
    → (i ≡ j) × (n ≡ m) × (f ≡ g)
unfolding cache_key
cache_key_unique i j f g n m hi hj hn hm e =
    let (names, rest) =
      split_unique i j (format_uint 5 n ++ (0 ∷ f)) (format_uint 5 m ++ (0 ∷ g)) hi hj e in
    let (lengths, filters) =
      split_unique (format_uint 5 n) (format_uint 5 m) f g (format_uint-HasNoNul 5 n)
        (format_uint-HasNoNul 5 m) rest in
    (names, format_uint_unique n m hn hm lengths, filters)

module _ (command : Text → Text → ℕ → Result Text Text) where
  -- Under the key of a call stands what the command gives that call.
  abbrev pub IsFaithful : Map (List RawInstruction) → Type 0
  IsFaithful cache =
      (i f : Text) (n : ℕ) (program : List RawInstruction)
      → HasNoNul i
      → n < 10 ^ 5
      → lookup (cache_key i n f) cache ≡ some program
      → printed (command i f n) ≡ ok program

  empty-IsFaithful : IsFaithful []
  unfolding lookup
  empty-IsFaithful i f n program hi hn e = absurd (ground arith)

  insert-IsFaithful :
      (i f : Text) (n : ℕ) (program : List RawInstruction) (cache : Map (List RawInstruction))
      → HasNoNul i
      → n < 10 ^ 5
      → printed (command i f n) ≡ ok program
      → IsFaithful cache
      → IsFaithful (insert (cache_key i n f) program cache)
  insert-IsFaithful i f n program cache hi hn p h j g m other hj hm e =
      picked (text_eq (cache_key i n f) (cache_key j m g)) refl
        (sym (lookup-insert (cache_key i n f) (cache_key j m g) program cache) ∙ e)
    where
      picked :
          (b : Bool)
          → text_eq (cache_key i n f) (cache_key j m g) ≡ b
          → (if b then some program else lookup (cache_key j m g) cache) ≡ some other
          → printed (command j g m) ≡ ok other
      picked true same e =
          let (names, lengths, filters) =
            cache_key_unique i j f g n m hi hj hn hm
              ((text_eq_iff (cache_key i n f) (cache_key j m g)).0 same) in
          cc
      picked false differs e = h j g m other hj hm e

  remember-IsFaithful :
      (i f : Text) (n : ℕ) (program : List RawInstruction) (cache : Map (List RawInstruction))
      → HasNoNul i
      → n < 10 ^ 5
      → printed (command i f n) ≡ ok program
      → IsFaithful cache
      → IsFaithful (remember (cache_key i n f) program cache)
  unfolding remember
  remember-IsFaithful i f n program cache hi hn p h =
      elim (leb max_filter_cache_entries (length cache))
        as (λ (b : Bool). IsFaithful (
          if b
          then insert (cache_key i n f) program []
          else insert (cache_key i n f) program cache)) [
            | true ↦ insert-IsFaithful i f n program [] hi hn p empty-IsFaithful
            | false ↦ insert-IsFaithful i f n program cache hi hn p h
          ]

  -- The answer is the command's, and the cache stays faithful.
  abbrev Answers : Text → Text → ℕ → Compiled → Type 0
  Answers i f n (r, cache) = (r ≡ printed (command i f n)) × IsFaithful cache

  store-Answers :
      (i f : Text) (n : ℕ) (cache : Map (List RawInstruction))
      (r : Result FilterError (List RawInstruction))
      → HasNoNul i
      → n < 10 ^ 5
      → printed (command i f n) ≡ r
      → IsFaithful cache
      → Answers i f n (store (cache_key i n f) cache r)
  unfolding store
  store-Answers i f n cache (ok program) hi hn p h =
      (sym p, remember-IsFaithful i f n program cache hi hn p h)
  store-Answers i f n cache (err e) hi hn p h = (sym p, h)

  missed-Answers :
      (i f : Text) (n : ℕ) (cache : Map (List RawInstruction))
      (found : Option (List RawInstruction))
      → HasNoNul i
      → n < 10 ^ 5
      → lookup (cache_key i n f) cache ≡ found
      → IsFaithful cache
      → Answers i f n (missed command i f n cache found)
  unfolding missed
  missed-Answers i f n cache (some program) hi hn l h = (sym (h i f n program hi hn l), h)
  missed-Answers i f n cache none hi hn l h = store-Answers i f n cache _ hi hn refl h

  -- What Compile returns, read off the call alone.
  unfoldable pub compile_directly : Text → Text → ℕ → Result FilterError (List RawInstruction)
  unfolding accept_all printed trim_space
  compile_directly i given n =
      if ltb n 1 || ltb 65535 n
      then err bad_snaplen
      else if is_empty (trim_space given)
      then ok (accept_all n)
      else printed (command i (trim_space given) n)

  compile-IsFaithful :
      (i given : Text) (n : ℕ) (cache : Map (List RawInstruction))
      → HasNoNul i
      → IsFaithful cache
      → ((compile command i given n cache).0 ≡ compile_directly i given n)
        × IsFaithful (compile command i given n cache).1
  unfolding compile compile_directly
  compile-IsFaithful i given n cache hi h =
      go (ltb n 1 || ltb 65535 n) (is_empty (trim_space given)) refl
    where
      looked_up : Compiled
      looked_up =
          missed command i (trim_space given) n cache
            (lookup (cache_key i n (trim_space given)) cache)

      go :
          (outside blank : Bool)
          → (ltb n 1 || ltb 65535 n) ≡ outside
          → ((if outside
                then (err bad_snaplen, cache)
                else if blank
                then (ok (accept_all n), cache)
                else looked_up).0
              ≡ (if outside
                  then err bad_snaplen
                  else if blank
                  then ok (accept_all n)
                  else printed (command i (trim_space given) n)))
            × IsFaithful
                (if outside
                  then (err bad_snaplen, cache)
                  else if blank
                  then (ok (accept_all n), cache)
                  else looked_up).1
      go true blank e = (refl, h)
      go false true e = (refl, h)
      go false false e = missed-Answers i (trim_space given) n cache _ hi (ground arith) refl h

  -- The caches that calls of Compile make from an empty one.
  pub data Cached : Map (List RawInstruction) → Type 0 where
    fresh : Cached []
    called :
        {cache : Map (List RawInstruction)} (i given : Text) (n : ℕ)
        → HasNoNul i
        → Cached cache
        → Cached (compile command i given n cache).1

  Cached-IsFaithful : {cache : Map (List RawInstruction)} → Cached cache → IsFaithful cache
  Cached-IsFaithful fresh = empty-IsFaithful
  Cached-IsFaithful (called i given n hi c) =
      (compile-IsFaithful i given n _ hi (Cached-IsFaithful c)).1

  -- The cache changes no answer: after any calls with one command, for interfaces whose names hold no
  -- zero byte, Compile returns what it returns without the cache: an error for a snapshot length out
  -- of range, the program that accepts all for a blank filter, and else the parsed output.
  pub compile-transparent :
      {cache : Map (List RawInstruction)} (i given : Text) (n : ℕ)
      → HasNoNul i
      → Cached cache
      → (compile command i given n cache).0 ≡ compile_directly i given n
  compile-transparent i given n hi c = (compile-IsFaithful i given n _ hi (Cached-IsFaithful c)).0
