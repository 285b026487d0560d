-- ===== src/Map.antt =====
-- Go maps keyed by strings, as association lists. A loop over a map visits the entries in the order
-- of the list: the order of a Go map is arbitrary, and so is the list that a theorem starts from.
use cap_mesh.Prelude.{
  ◌≡◌, refl, subst, Bool, List, [], ◌∷◌, Option, none, some, arith, if◌then◌else◌, if_elim, ◌||◌,
  true, false,
}
use cap_mesh.Text.{Text, text_eq, text_eq_iff, text_eq_refl, contains, IsDistinct}

abbrev pub Map {ℓ} : Type ℓ → Type ℓ
Map V = List (Text × V)

module _ {ℓ} {V : Type ℓ} where
  unfoldable pub lookup : Text → Map V → Option V
  lookup k [] = none
  lookup k ((j, v) ∷ m) = if text_eq j k then some v else lookup k m

  -- `m[k] = v`
  unfoldable pub insert : Text → V → Map V → Map V
  insert k v [] = (k, v) ∷ []
  insert k v ((j, w) ∷ m) = if text_eq j k then (k, v) ∷ m else (j, w) ∷ insert k v m

  -- `delete(m, k)`
  unfoldable pub delete : Text → Map V → Map V
  delete k [] = []
  delete k ((j, w) ∷ m) = if text_eq j k then delete k m else (j, w) ∷ delete k m

  -- `for k := range m`, `for _, v := range m`
  unfoldable pub keys : Map V → List Text
  keys [] = []
  keys ((j, w) ∷ m) = j ∷ keys m

  unfoldable pub values : Map V → List V
  values [] = []
  values ((j, w) ∷ m) = w ∷ values m

  pub lookup-insert :
      (k j : Text) (v : V) (m : Map V)
      → lookup j (insert k v m) ≡ (if text_eq k j then some v else lookup j m)
  unfolding lookup insert
  lookup-insert k j v [] = refl
  lookup-insert k j v ((i, w) ∷ m) =
      ground (arith, text_eq_iff k j, text_eq_iff i k, text_eq_iff i j, lookup-insert k j v m)

  pub lookup-delete :
      (k j : Text) (m : Map V) → lookup j (delete k m) ≡ (if text_eq k j then none else lookup j m)
  unfolding lookup delete
  lookup-delete k j [] = ground arith
  lookup-delete k j ((i, w) ∷ m) =
      ground (arith, text_eq_iff k j, text_eq_iff i k, text_eq_iff i j, lookup-delete k j m)

  pub lookup-insert_self : (k : Text) (v : V) (m : Map V) → lookup k (insert k v m) ≡ some v
  lookup-insert_self k v m = simp (lookup-insert, text_eq_refl)

  pub lookup-delete_self : (k : Text) (m : Map V) → lookup k (delete k m) ≡ none
  lookup-delete_self k m = simp (lookup-delete, text_eq_refl)

  contains-keys-insert :
      (k j : Text) (v : V) (m : Map V)
      → contains (keys (insert k v m)) j ≡ (text_eq k j || contains (keys m) j)
  unfolding keys insert contains
  contains-keys-insert k j v [] = refl
  contains-keys-insert k j v ((i, w) ∷ m) =
      ground
        (arith, text_eq_iff i k, text_eq_iff k j, text_eq_iff i j, contains-keys-insert k j v m)

  pub insert-IsDistinct :
      (k : Text) (v : V) (m : Map V) → IsDistinct (keys m) → IsDistinct (keys (insert k v m))
  unfolding keys insert contains
  insert-IsDistinct k v [] d = (refl, tt)
  insert-IsDistinct k v ((i, w) ∷ m) (h, d) = ground (
    arith,
    text_eq_iff i k,
    text_eq_iff k i,
    contains-keys-insert k i v m,
    insert-IsDistinct k v m d,
  )

  pub lookup-contains :
      (k : Text) (v : V) (m : Map V) → lookup k m ≡ some v → contains (keys m) k ≡ true
  unfolding keys lookup contains
  lookup-contains k v [] h = absurd (ground arith)
  lookup-contains k v ((i, w) ∷ m) h = ground (arith, lookup-contains k v m)

  pub lookup_head : (k : Text) (v : V) (m : Map V) → lookup k ((k, v) ∷ m) ≡ some v
  unfolding lookup
  lookup_head k v m = ground (arith, text_eq_refl k)

  pub lookup_tail :
      (k j : Text) (v : V) (m : Map V) → text_eq k j ≡ false → lookup j ((k, v) ∷ m) ≡ lookup j m
  unfolding lookup
  lookup_tail k j v m h = ground arith

some-injective {ℓ} : {V : Type ℓ} (v w : V) → some v ≡ some w → v ≡ w
some-injective v w e = cc

-- Every value of the map satisfies the predicate.
abbrev pub AllValues {ℓ κ} : {V : Type ℓ} → (V → Type κ) → Map V → Type κ
AllValues P [] = Unit
AllValues P ((k, v) ∷ m) = P v × AllValues P m

module _ {ℓ κ} {V : Type ℓ} (P : V → Type κ) where
  pub insert-AllValues :
      (k : Text) (v : V) (m : Map V) → P v → AllValues P m → AllValues P (insert k v m)
  unfolding insert
  insert-AllValues k v [] p h = (p, tt)
  insert-AllValues k v ((j, w) ∷ m) p (q, h) =
      if_elim (AllValues P) (text_eq j k) (λ _. (p, h)) (λ _. (q, insert-AllValues k v m p h))

  pub delete-AllValues : (k : Text) (m : Map V) → AllValues P m → AllValues P (delete k m)
  unfolding delete
  delete-AllValues k [] h = tt
  delete-AllValues k ((j, w) ∷ m) (q, h) =
      if_elim (AllValues P) (text_eq j k) (λ _. delete-AllValues k m h)
        (λ _. (q, delete-AllValues k m h))

  pub lookup-AllValues : (k : Text) (v : V) (m : Map V) → AllValues P m → lookup k m ≡ some v → P v
  unfolding lookup
  lookup-AllValues k v [] h e = absurd (ground (arith, e))
  lookup-AllValues k v ((j, w) ∷ m) (q, h) e = found (text_eq j k) e (lookup-AllValues k v m h)
    where
      found :
          (b : Bool)
          → (if b then some w else lookup k m) ≡ some v
          → (lookup k m ≡ some v → P v)
          → P v
      found true e later = subst P (some-injective w v e) q
      found false e later = later e
