-- ===== src/Stream/Heap/Order.antt =====
-- The heap order: push and pop keep it, so the first item is a least one.
use cap_mesh.Prelude.{
  ℕ, zero, suc, ◌+◌, ◌-◌, ◌*◌, ◌<◌, ◌≤◌, ◌≡◌, refl, sym, subst, ◌∙◌, ◌≢◌, inl, inr, true, false,
  List, [], ◌∷◌, ◌++◌, Option, none, some, Bool-cases, arith, ◌==◌, ltb, length, get_elem?, take,
  length-append, not, ◌||◌,
}
use cap_mesh.Stream.Heap.{
  PacketItem, swap, up, down, child, parent, less, item_before, before, heap_push, heap_rest,
}
use cap_mesh.Stream.Heap.Swap.{get_elem?-swap, length-swap, child-lt, get_elem?-some}

-- Every item among the first n is not before its parent.
abbrev pub IsHeap : ℕ → List PacketItem → Type 0
IsHeap n h = (c : ℕ) → 0 < c → c < n → less h c (parent c) ≡ false

pub item_before_asym : (a b : Option PacketItem) → item_before a b ≡ true → item_before b a ≡ false
unfolding item_before before
item_before_asym none b h = cc
item_before_asym (some a) none h = refl
item_before_asym (some a) (some b) h = ground arith

pub item_before_trans :
    (a b c : Option PacketItem)
    → b ≢ none
    → item_before b a ≡ false
    → item_before c b ≡ false
    → item_before c a ≡ false
unfolding item_before before
item_before_trans a none c p h k = absurd (p refl)
item_before_trans none (some b) none p h k = refl
item_before_trans (some a) (some b) none p h k = refl
item_before_trans none (some b) (some c) p h k = refl
item_before_trans (some a) (some b) (some c) p h k = ground arith

in_range : (h : List PacketItem) (i : ℕ) → i < length h → get_elem? h i ≢ none
in_range h i p e = let (x, q) = get_elem?-some h i p in ground arith

-- The heap order but for the edge above j.
record UpInv (h : List PacketItem) (j : ℕ) : Type 0 where
  edges : (c : ℕ) → 0 < c → c < length h → c ≢ j → less h c (parent c) ≡ false
  bridged : (c : ℕ) → 0 < c → c < length h → parent c ≡ j → 0 < j → less h c (parent j) ≡ false

module _ (h : List PacketItem) (j : ℕ) (inside : j < length h) (pos : 0 < j) (v : UpInv h j)
    (rise : less h j (parent j) ≡ true) where
  up_step : UpInv (swap h (parent j) j) (parent j)
  unfolding less
  up_step = record {
    edges = λ c p q r. ground (
      arith,
      get_elem?-swap h (parent j) j c,
      get_elem?-swap h (parent j) j (parent c),
      length-swap h (parent j) j,
      item_before_asym (get_elem? h j) (get_elem? h (parent j)),
      v.edges c,
      v.bridged c,
      item_before_trans (get_elem? h j) (get_elem? h (parent j)) (get_elem? h c),
      in_range h (parent j),
    );
    bridged = λ c p q r s. ground (
      arith,
      get_elem?-swap h (parent j) j c,
      get_elem?-swap h (parent j) j (parent (parent j)),
      length-swap h (parent j) j,
      v.edges c,
      v.edges (parent j),
      item_before_trans (get_elem? h (parent (parent j))) (get_elem? h (parent j)) (get_elem? h c),
      in_range h (parent j),
    );
  }

up_restores :
    (f : ℕ) (h : List PacketItem) (j : ℕ)
    → j < f
    → j < length h
    → UpInv h j
    → IsHeap (length h) (up f h j)
unfolding up
up_restores zero h j p q v = absurd (omega arith)
up_restores (suc f) h j p q v = elim (Bool-cases ((parent j == j) || not (less h j (parent j)))) [
  | inl e ↦ rw e λ c p' q'. ground (arith, v.edges c)
  | inr e ↦
      let w : UpInv (swap h (parent j) j) (parent j) =
        up_step h j q (ground arith) v (ground arith) in
      let ih =
        up_restores f (swap h (parent j) j) (parent j) (ground arith)
          (rw (length-swap h (parent j) j) (omega arith)) w in
      rw e (
        subst (λ (n : ℕ). IsHeap n (up f (swap h (parent j) j) (parent j)))
          (length-swap h (parent j) j) ih)
]

get_elem?-append :
    {A : Type 0} (h : List A) (x : A) (i : ℕ)
    → i < length h
    → get_elem? (h ++ x ∷ []) i ≡ get_elem? h i
get_elem?-append [] x i p = absurd (omega arith)
get_elem?-append (y ∷ h) x zero p = refl
get_elem?-append (y ∷ h) x (suc i) p = get_elem?-append h x i (omega arith)

push_start :
    (x : PacketItem) (h : List PacketItem) → IsHeap (length h) h → UpInv (h ++ x ∷ []) (length h)
unfolding less
push_start x h v = record {
  edges = λ c p q r. ground (
    arith,
    length-append h (x ∷ []),
    get_elem?-append h x c,
    get_elem?-append h x (parent c),
    v c,
  );
  bridged = λ c p q r s. absurd (omega (arith, length-append h (x ∷ [])));
}

-- heap.Push keeps the order of the heap.
pub heap_push-IsHeap :
    (x : PacketItem) (h : List PacketItem)
    → IsHeap (length h) h
    → IsHeap (length h + 1) (heap_push x h)
unfolding heap_push
heap_push-IsHeap x h v =
    subst (λ (n : ℕ). IsHeap n (up (length h + 1) (h ++ x ∷ []) (length h)))
      (length-append h (x ∷ []))
      (up_restores (length h + 1) (h ++ x ∷ []) (length h) (omega arith)
        (omega (arith, length-append h (x ∷ []))) (push_start x h v))

-- The heap order of the first n items but for the edges below i.
record DownInv (n : ℕ) (h : List PacketItem) (i : ℕ) : Type 0 where
  edges : (c : ℕ) → 0 < c → c < n → parent c ≢ i → less h c (parent c) ≡ false
  bridged : (c : ℕ) → 0 < c → c < n → parent c ≡ i → 0 < i → less h c (parent i) ≡ false

-- child picks a child of i that is not after the other one.
child_least :
    (h : List PacketItem) (i n c : ℕ)
    → 2 * i + 1 < n
    → n ≤ length h
    → 0 < c
    → c < n
    → parent c ≡ i
    → less h c (child h i n) ≡ false
unfolding child less
child_least h i n c p q r s e = ground (
  arith,
  item_before_asym (get_elem? h (2 * i + 2)) (get_elem? h (2 * i + 1)),
  item_before_asym (get_elem? h c) (get_elem? h c),
)

parent-child : (h : List PacketItem) (i n : ℕ) → parent (child h i n) ≡ i
unfolding child
parent-child h i n = ground arith

-- One round of down, for any child k of i that is not after its sibling.
module _ (n : ℕ) (h : List PacketItem) (i k : ℕ) (fits : n ≤ length h) (below : k < n) (pos : 0 < k)
    (up_k : parent k ≡ i) (sink : less h k i ≡ true)
    (least : (c : ℕ) → 0 < c → c < n → parent c ≡ i → less h c k ≡ false) (v : DownInv n h i) where
  down_step : DownInv n (swap h i k) k
  unfolding less
  down_step = record {
    edges = λ c p q r. ground (
      arith,
      get_elem?-swap h i k c,
      get_elem?-swap h i k (parent c),
      item_before_asym (get_elem? h k) (get_elem? h i),
      v.edges c,
      v.bridged k,
      least c,
    );
    bridged = λ c p q r s.
        ground (arith, get_elem?-swap h i k c, get_elem?-swap h i k (parent k), v.edges c);
  }

down_stop :
    (h : List PacketItem) (i n : ℕ)
    → n ≤ length h
    → DownInv n h i
    → not (ltb (2 * i + 1) n) || not (less h (child h i n) i) ≡ true
    → IsHeap n h
unfolding less
down_stop h i n fits v e c p q = ground (
  arith,
  v.edges c,
  child_least h i n c,
  child-lt h i n,
  item_before_trans (get_elem? h i) (get_elem? h (child h i n)) (get_elem? h c),
  in_range h (child h i n),
)

down_restores :
    (f : ℕ) (h : List PacketItem) (i n : ℕ)
    → n < f + i
    → n ≤ length h
    → DownInv n h i
    → IsHeap n (down f h i n)
unfolding down
down_restores zero h i n m fits v = λ c p q. v.edges c p q (λ e. omega arith)
down_restores (suc f) h i n m fits v =
    elim (Bool-cases (not (ltb (2 * i + 1) n) || not (less h (child h i n) i))) [
      | inl e ↦ rw e (down_stop h i n fits v e)
      | inr e ↦
          let k = child h i n in
          let inside : 2 * i + 1 < n = ground arith in
          let (below, later) = child-lt h i n inside in
          let w : DownInv n (swap h i k) k =
            down_step n h i k fits below (omega arith) (parent-child h i n) (ground arith)
              (λ c. child_least h i n c inside fits) v in
          rw e (down_restores f (swap h i k) k n (omega arith) (rw (length-swap h i k) fits) w)
    ]

rest_start :
    (x : PacketItem) (h : List PacketItem)
    → IsHeap (length (x ∷ h)) (x ∷ h)
    → DownInv (length h) (swap (x ∷ h) 0 (length h)) 0
unfolding less
rest_start x h v = record {
  edges = λ c p q r. ground (
    arith,
    get_elem?-swap (x ∷ h) 0 (length h) c,
    get_elem?-swap (x ∷ h) 0 (length h) (parent c),
    v c,
  );
  bridged = λ c p q r s. absurd (omega arith);
}

get_elem?-take :
    {A : Type 0} (n : ℕ) (h : List A) (i : ℕ) → i < n → get_elem? (take n h) i ≡ get_elem? h i
get_elem?-take zero h i p = absurd (omega arith)
get_elem?-take (suc n) [] i p = refl
get_elem?-take (suc n) (x ∷ h) zero p = refl
get_elem?-take (suc n) (x ∷ h) (suc i) p = get_elem?-take n h i (omega arith)

less-take :
    (n : ℕ) (h : List PacketItem) (i j : ℕ) → i < n → j < n → less (take n h) i j ≡ less h i j
unfolding less
less-take n h i j p q = rw (get_elem?-take n h i p, get_elem?-take n h j q)

-- heap.Pop keeps the order of the heap.
pub heap_rest-IsHeap :
    (x : PacketItem) (h : List PacketItem)
    → IsHeap (length (x ∷ h)) (x ∷ h)
    → IsHeap (length h) (heap_rest (x ∷ h))
unfolding heap_rest
heap_rest-IsHeap x h v c p q =
    let n = length (x ∷ h) - 1 in
    let same : n ≡ length h = omega arith in
    let d = down (length (x ∷ h)) (swap (x ∷ h) 0 n) 0 n in
    less-take n d c (parent c) (omega arith) (omega arith)
    ∙ down_restores (length (x ∷ h)) (swap (x ∷ h) 0 n) 0 n (omega arith)
        (omega (arith, length-swap (x ∷ h) 0 n))
        (subst (λ (m : ℕ). DownInv m (swap (x ∷ h) 0 m) 0) (sym same) (rest_start x h v)) c p
        (omega arith)

root_below :
    (k : ℕ) (h : List PacketItem) (i : ℕ)
    → IsHeap (length h) h
    → i < k
    → i < length h
    → less h i 0 ≡ false
unfolding less
root_below zero h i v f p = absurd (omega arith)
root_below (suc k) h i v f p = ground (
  arith,
  v i,
  root_below k h (parent i),
  item_before_asym (get_elem? h 0) (get_elem? h 0),
  item_before_trans (get_elem? h 0) (get_elem? h (parent i)) (get_elem? h i),
  in_range h (parent i),
)

-- No packet in the heap is before the first one.
pub root_least :
    (h : List PacketItem) (i : ℕ) → IsHeap (length h) h → i < length h → less h i 0 ≡ false
root_least h i v p = root_below (suc i) h i v (omega arith) p
