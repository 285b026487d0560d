-- ===== src/Stream/Heap/Swap.antt =====
-- container/heap only moves items: what push, pop, up and down leave is a permutation.
use mathlib.Core.List.{Perm, Permᴰ, perm_middle, append-nil}
use mathlib.Core.List.Perm
use mathlib.Core.Logic.{∥∥₁_elim}
use native.Mathlib.Nat.{ℕ_set}
use cap_mesh.Prelude.{
  ℕ, zero, suc, ◌+◌, ◌-◌, ◌*◌, ◌<◌, ◌≡◌, refl, ap, sym, ◌∙◌, ◌≤◌, ◌⊎◌, inl, inr, List, [], ◌∷◌,
  ◌++◌, some, Bool-cases, Option-cases, arith, if◌then◌else◌, ◌==◌, ltb, length, get_elem?, set,
  take, not, ◌||◌,
}
use cap_mesh.Stream.Heap.{PacketItem, swap, up, down, child, parent, less, heap_push, heap_rest}

module _ {ℓ} {A : Type ℓ} where
  -- A write trades the old entry for the new one.
  set-perm : (h : List A) (i : ℕ) (x v : A) → get_elem? h i ≡ some x → Perm (x ∷ set h i v) (v ∷ h)
  set-perm [] i x v e = cc
  set-perm (y ∷ h) zero x v e = let same : x ≡ y = ground arith in rw same (Perm.swap v y h)
  set-perm (y ∷ h) (suc i) x v e =
      Perm.trans (Perm.swap y x (set h i v))
        (Perm.trans (Perm.cons y (set-perm h i x v e)) (Perm.swap v y h))

  pub get_elem?-set :
      (h : List A) (i j : ℕ) (x v : A)
      → get_elem? h i ≡ some x
      → get_elem? (set h i v) j ≡ (if i == j then some v else get_elem? h j)
  get_elem?-set [] i j x v e = cc
  get_elem?-set (y ∷ h) zero zero x v e = refl
  get_elem?-set (y ∷ h) zero (suc j) x v e = ground arith
  get_elem?-set (y ∷ h) (suc i) zero x v e = ground arith
  get_elem?-set (y ∷ h) (suc i) (suc j) x v e = ground (arith, get_elem?-set h i j x v)

  pub length-set : (h : List A) (i : ℕ) (v : A) → length (set h i v) ≡ length h
  length-set [] i v = refl
  length-set (x ∷ h) zero v = refl
  length-set (x ∷ h) (suc i) v = ap suc (length-set h i v)

  pub get_elem?-some : (h : List A) (i : ℕ) → i < length h → (x : A) × (get_elem? h i ≡ some x)
  get_elem?-some [] i p = absurd (omega arith)
  get_elem?-some (x ∷ h) zero p = (x, refl)
  get_elem?-some (x ∷ h) (suc i) p = get_elem?-some h i (omega arith)

  pub get_elem?-lt : (h : List A) (i : ℕ) {x : A} → get_elem? h i ≡ some x → i < length h
  get_elem?-lt [] i e = cc
  get_elem?-lt (y ∷ h) zero e = omega arith
  get_elem?-lt (y ∷ h) (suc i) e = omega (arith, get_elem?-lt h i e)

same_length {ℓ} : {X : Type ℓ} {h k : List X} → Permᴰ h k → length k ≡ length h
same_length (Permᴰ.trans s t) = omega (arith, same_length s, same_length t)
same_length (Permᴰ.cons x s) = omega (arith, same_length s)
same_length (Permᴰ.swap x y) = refl
same_length Permᴰ.nil = refl

-- A permutation has the same length.
pub length-perm {ℓ} : {X : Type ℓ} {h k : List X} → Perm h k → length h ≡ length k
length-perm s = sym (∥∥₁_elim s (ℕ_set _ _) same_length)

-- Swap does nothing, or exchanges two items that are there.
swap_cases :
    (h : List PacketItem) (i j : ℕ)
    → (swap h i j ≡ h)
      ⊎ ((a : PacketItem) × (b : PacketItem) × (get_elem? h i ≡ some a)
          × (get_elem? h j ≡ some b)
          × (swap h i j ≡ set (set h i b) j a))
unfolding swap
swap_cases h i j = elim (Option-cases (get_elem? h i)) [
  | inl e ↦ inl (rw (e, swap))
  | inr (a, e) ↦ elim (Option-cases (get_elem? h j)) [
    | inl e' ↦ inl (rw (e, e', swap))
    | inr (b, e') ↦ inr (a, b, e, e', rw (e, e', swap))
  ]
]

pub length-swap : (h : List PacketItem) (i j : ℕ) → length (swap h i j) ≡ length h
length-swap h i j = elim (swap_cases h i j) [
  | inl e ↦ rw e
  | inr (a, b, p, q, e) ↦ rw e (length-set (set h i b) j a ∙ length-set h i b)
]

pub get_elem?-swap :
    (h : List PacketItem) (i j c : ℕ)
    → i < length h
    → j < length h
    → get_elem? (swap h i j) c
      ≡ (if j == c then get_elem? h i else if i == c then get_elem? h j else get_elem? h c)
unfolding swap
get_elem?-swap h i j c p q =
    let (a, ea) = get_elem?-some h i p in
    let (b, eb) = get_elem?-some h j q in
    ground (
      arith,
      get_elem?-set h i j a b,
      get_elem?-set h i c a b,
      get_elem?-set (set h i b) j c (if i == j then b else b) a,
      ea,
      eb,
    )

pub swap-perm : (h : List PacketItem) (i j : ℕ) → Perm (swap h i j) h
swap-perm h i j = elim (swap_cases h i j) [
  | inl e ↦ rw e (Perm.refl h)
  | inr (a, b, p, q, e) ↦
      let kept : get_elem? (set h i b) j ≡ some b = ground (arith, get_elem?-set h i j a b) in
      let second : Perm (b ∷ set (set h i b) j a) (a ∷ set h i b) =
        set-perm (set h i b) j b a kept in
      rw e (Perm.cons_inv (Perm.trans second (set-perm h i a b p)))
]

pub up-perm : (f : ℕ) (h : List PacketItem) (j : ℕ) → Perm (up f h j) h
unfolding up
up-perm zero h j = Perm.refl h
up-perm (suc f) h j = elim (Bool-cases ((parent j == j) || not (less h j (parent j)))) [
  | inl e ↦ rw e (Perm.refl h)
  | inr e ↦ rw e (Perm.trans (up-perm f _ _) (swap-perm h (parent j) j))
]

pub down-perm : (f : ℕ) (h : List PacketItem) (i n : ℕ) → Perm (down f h i n) h
unfolding down
down-perm zero h i n = Perm.refl h
down-perm (suc f) h i n =
    elim (Bool-cases (not (ltb (2 * i + 1) n) || not (less h (child h i n) i))) [
      | inl e ↦ rw e (Perm.refl h)
      | inr e ↦ rw e (Perm.trans (down-perm f _ _ n) (swap-perm h i (child h i n)))
    ]

concat-perm {ℓ} : {A : Type ℓ} (h : List A) (x : A) → Perm (h ++ x ∷ []) (x ∷ h)
concat-perm h x = rw (append-nil h) at (perm_middle {a = x} h [])

-- heap.Push adds exactly the item.
pub heap_push-perm : (x : PacketItem) (h : List PacketItem) → Perm (heap_push x h) (x ∷ h)
unfolding heap_push
heap_push-perm x h = Perm.trans (up-perm (length h + 1) (h ++ x ∷ []) (length h)) (concat-perm h x)

pub child-lt :
    (h : List PacketItem) (i n : ℕ) → 2 * i + 1 < n → (child h i n < n) × (i < child h i n)
unfolding child
child-lt h i n p = ground arith

pub length-down : (f : ℕ) (h : List PacketItem) (i n : ℕ) → length (down f h i n) ≡ length h
unfolding down
length-down zero h i n = refl
length-down (suc f) h i n =
    ground
      (arith, length-down f (swap h i (child h i n)) (child h i n) n, length-swap h i (child h i n))

-- down over the first n items leaves the later ones where they are.
pub get_elem?-down :
    (f : ℕ) (h : List PacketItem) (i n c : ℕ)
    → n ≤ length h
    → n ≤ c
    → get_elem? (down f h i n) c ≡ get_elem? h c
unfolding down
get_elem?-down zero h i n c p q = refl
get_elem?-down (suc f) h i n c p q = ground (
  arith,
  get_elem?-down f (swap h i (child h i n)) (child h i n) n c,
  length-swap h i (child h i n),
  child-lt h i n,
  get_elem?-swap h i (child h i n) c,
)

take_last {ℓ} :
    {A : Type ℓ} (n : ℕ) (h : List A) (x : A)
    → length h ≡ suc n
    → get_elem? h n ≡ some x
    → take n h ++ x ∷ [] ≡ h
take_last zero (y ∷ []) x e g = ground arith
take_last (suc n) (y ∷ h) x e g = ap (◌∷◌ y) (take_last n h x (omega arith) g)
take_last n h x e g = absurd (omega arith)

-- heap.Pop takes out exactly the first item.
pub heap_rest-perm : (x : PacketItem) (h : List PacketItem) → Perm (heap_rest (x ∷ h)) h
unfolding heap_rest
heap_rest-perm x h = Perm.cons_inv (Perm.trans (Perm.symm (concat-perm _ x)) (rw whole moved))
  where
    n : ℕ
    n = length (x ∷ h) - 1

    s : List PacketItem
    s = swap (x ∷ h) 0 n

    d : List PacketItem
    d = down (length (x ∷ h)) s 0 n

    whole : take n d ++ x ∷ [] ≡ d
    whole =
        take_last n d x (omega (arith, length-down (length (x ∷ h)) s 0 n, length-swap (x ∷ h) 0 n))
          (ground (
            arith,
            get_elem?-down (length (x ∷ h)) s 0 n n,
            length-swap (x ∷ h) 0 n,
            get_elem?-swap (x ∷ h) 0 n n,
          ))

    moved : Perm d (x ∷ h)
    moved = Perm.trans (down-perm (length (x ∷ h)) s 0 n) (swap-perm (x ∷ h) 0 n)

-- heap.Pop leaves one item less.
pub length-heap_rest :
    (x : PacketItem) (h : List PacketItem) → length (heap_rest (x ∷ h)) ≡ length h
length-heap_rest x h = length-perm (heap_rest-perm x h)
