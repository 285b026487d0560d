-- ===== src/Stream/Emit.antt =====
-- The two loops of emitUntil, as rules for the proofs about it.
pub mod Conserve
pub mod Limits
pub mod Order
pub mod Subscribers
use cap_mesh.Prelude.{
  ℕ, zero, suc, ◌+◌, ◌-◌, ◌<◌, ◌≤◌, ◌≡◌, refl, sym, ap, ◌∙◌, subst, ◌⊎◌, inl, inr, Bool, true,
  false, not, ◌&&◌, ◌||◌, List, [], ◌∷◌, ◌++◌, Option, none, some, ltb, leb, ◌==◌, if◌then◌else◌,
  length, length-append, Progress, done, more, iterate, iterate_rule, iterate_keeps,
  iterate_keeps_after, Keeps, Holds, arith, Bool-cases,
}
use native.Mathlib.Numerals.{add-one}
use cap_mesh.Text.{text_eq_refl}
use cap_mesh.Domain.{PacketBatch, CaptureSource, source_eq}
use cap_mesh.Stream.Heap.{PacketItem, heap_rest}
use cap_mesh.Stream.Heap.Swap.{length-heap_rest}
use cap_mesh.Stream.{
  RebatchConfig, Cutoffs, Gather, Emission, FlushReason, Pipeline, gather, gather_on, gather_step,
  take_item, overflows, is_full, limit_reason, waits, same_batch_stream, emit_on, emit_step,
  emit_until, send_batch, start_gather,
}

pub same_batch_stream_refl : (b : PacketBatch) → same_batch_stream b b ≡ true
unfolding same_batch_stream
same_batch_stream_refl b = simp text_eq_refl

module _ {κ} (c : RebatchConfig) (cut : Cutoffs) (template : PacketBatch) (P : Gather → Type κ)
    (keep : (g : Gather) (item : PacketItem) (rest : List PacketItem)
      → g.heap ≡ item ∷ rest
      → waits cut item ≡ false
      → same_batch_stream template item.template ≡ true
      → overflows c g item ≡ false
      → P g
      → P (take_item g item))
    (relabel : (g : Gather) (r : FlushReason) → P g → P (record g { reason = r })) where
  gather_on_keeps :
      (g : Gather) (h : List PacketItem) → g.heap ≡ h → P g → Holds P (gather_on c cut template g h)
  unfolding gather_on
  gather_on_keeps g [] e p = p
  gather_on_keeps g (item ∷ rest) e p =
      elim (Bool-cases (waits cut item || not (same_batch_stream template item.template))) [
        | inl q ↦ rw q p
        | inr q ↦ elim (Bool-cases (overflows c g item)) [
          | inl o ↦ rw (q, o) (relabel g _ p)
          | inr o ↦
              let t : P (take_item g item) = keep g item rest e (ground arith) (ground arith) o p in
              elim (Bool-cases (is_full c (take_item g item))) [
                | inl f ↦ rw (q, o, f) (relabel (take_item g item) _ t)
                | inr f ↦ rw (q, o, f) t
              ]
        ]
      ]

  -- What taking one packet keeps holds of the whole batch.
  pub gather_induction : (g : Gather) → P g → P (gather c cut template g)
  unfolding gather gather_step
  gather_induction g p =
      iterate_keeps P (gather_step c cut template) (λ a q. gather_on_keeps a a.heap refl q)
        (length g.heap + 1) g p

abbrev Advanced : ℕ → Gather → Type 0
Advanced n g = (length g.heap ≤ n) × (1 ≤ length g.packets)

take_item-Advanced :
    (n : ℕ) (g : Gather) (item : PacketItem) (rest : List PacketItem)
    → g.heap ≡ item ∷ rest
    → length rest ≤ n
    → Advanced n (take_item g item)
unfolding take_item
take_item-Advanced n g item rest e p = (
  rw e (omega (arith, length-heap_rest item rest)),
  omega (arith, length-append g.packets (item.packet ∷ [])),
)

shorter :
    {n : ℕ} (g : Gather) (item : PacketItem) (rest : List PacketItem)
    → g.heap ≡ item ∷ rest
    → length g.heap ≤ n
    → length rest ≤ n
shorter g item rest e p = let q : length g.heap ≡ suc (length rest) = rw e in omega arith

overflows-empty :
    (c : RebatchConfig) (g : Gather) (item : PacketItem)
    → g.packets ≡ []
    → overflows c g item ≡ false
unfolding overflows
overflows-empty c g item e = rw e

starts :
    (cut : Cutoffs) (item : PacketItem)
    → waits cut item ≡ false
    → waits cut item || not (same_batch_stream item.template item.template) ≡ false
starts cut item w = ground (arith, same_batch_stream_refl item.template)

gather_on-first :
    (c : RebatchConfig) (cut : Cutoffs) (g : Gather) (item : PacketItem) (rest : List PacketItem)
    → g.heap ≡ item ∷ rest
    → g.packets ≡ []
    → waits cut item ≡ false
    → Holds (Advanced (length rest)) (gather_on c cut item.template g (item ∷ rest))
unfolding gather_on
gather_on-first c cut g item rest e none_yet w =
    let t = take_item-Advanced (length rest) g item rest e (omega arith) in
    elim (Bool-cases (is_full c (take_item g item))) [
      | inl f ↦ rw (starts cut item w, overflows-empty c g item none_yet, f) t
      | inr f ↦ rw (starts cut item w, overflows-empty c g item none_yet, f) t
    ]

-- The first packet of a batch is always taken, so that every round of the outer loop makes progress.
pub gather-progress :
    (c : RebatchConfig) (cut : Cutoffs) (g : Gather) (item : PacketItem) (rest : List PacketItem)
    → g.heap ≡ item ∷ rest
    → g.packets ≡ []
    → waits cut item ≡ false
    → (length (gather c cut item.template g).heap ≤ length rest)
      × (1 ≤ length (gather c cut item.template g).packets)
unfolding gather gather_step
gather-progress c cut g item rest e none_yet w = rw (add-one (length g.heap)) (
    iterate_keeps_after (Advanced (length rest)) (gather_step c cut item.template)
      (λ a q.
        gather_on_keeps c cut item.template (Advanced (length rest)) go (λ a' r q'. q') a a.heap
          refl q)
      (length g.heap) g
      (subst (λ h. Holds (Advanced (length rest)) (gather_on c cut item.template g h)) (sym e)
        (gather_on-first c cut g item rest e none_yet w)))
  where
    go :
        (g' : Gather) (item' : PacketItem) (rest' : List PacketItem)
        → g'.heap ≡ item' ∷ rest'
        → waits cut item' ≡ false
        → same_batch_stream item.template item'.template ≡ true
        → overflows c g' item' ≡ false
        → Advanced (length rest) g'
        → Advanced (length rest) (take_item g' item')
    go g' item' rest' e' w' s o a =
        take_item-Advanced (length rest) g' item' rest' e' (shorter g' item' rest' e' a.0)

gather_on-shrinks :
    (c : RebatchConfig) (cut : Cutoffs) (template : PacketBatch) (g : Gather) (h : List PacketItem)
    → g.heap ≡ h
    → Keeps (λ _. Unit {0}) (λ a. length a.heap) g (gather_on c cut template g h)
unfolding gather_on
gather_on-shrinks c cut template g [] e = tt
gather_on-shrinks c cut template g (item ∷ rest) e =
    let less : length (take_item g item).heap < length g.heap =
      unfold take_item in rw e (omega (arith, length-heap_rest item rest)) in
    elim (Bool-cases (waits cut item || not (same_batch_stream template item.template))) [
      | inl q ↦ rw q tt
      | inr q ↦ elim (Bool-cases (overflows c g item)) [
        | inl o ↦ rw (q, o) tt
        | inr o ↦ elim (Bool-cases (is_full c (take_item g item))) [
          | inl f ↦ rw (q, o, f) tt
          | inr f ↦ rw (q, o, f) (tt, less)
        ]
      ]
    ]

-- The inner loop leaves by one of its tests: its fuel is enough.
pub gather-ends :
    (c : RebatchConfig) (cut : Cutoffs) (template : PacketBatch) (g : Gather)
    → (last : Gather) × (gather_step c cut template last ≡ done (gather c cut template g))
unfolding gather gather_step
gather-ends c cut template g =
    let (last, _, e) =
      iterate_rule (λ _. Unit {0}) (λ a. length a.heap) (gather_step c cut template)
        (λ a _. gather_on-shrinks c cut template a a.heap refl) (length g.heap + 1) g (omega arith)
        tt in
    (last, e)

-- Nothing that is left in the heap is due.
abbrev pub NoneDue : Cutoffs → List PacketItem → Type 0
NoneDue cut [] = Unit
NoneDue cut (first ∷ rest) = waits cut first ≡ true

-- The batch and the pipeline after one round of the outer loop.
abbrev pub next_emission : Cutoffs → Emission → PacketItem → Emission
next_emission cut e first =
    send_batch cut first.template
      (gather e.pipeline.rebatch cut first.template (start_gather e.pipeline)) e

next_emission-shrinks :
    (cut : Cutoffs) (e : Emission) (first : PacketItem) (rest : List PacketItem)
    → e.pipeline.heap ≡ first ∷ rest
    → waits cut first ≡ false
    → length (next_emission cut e first).pipeline.heap < length e.pipeline.heap
unfolding send_batch
next_emission-shrinks cut e first rest q w =
    let size : length e.pipeline.heap ≡ suc (length rest) = rw q in
    omega
      (arith, gather-progress e.pipeline.rebatch cut (start_gather e.pipeline) first rest q refl w)

module _ {κ} (cut : Cutoffs) (P : Emission → Type κ)
    (keep : (e : Emission) (first : PacketItem) (rest : List PacketItem)
      → e.pipeline.heap ≡ first ∷ rest
      → waits cut first ≡ false
      → P e
      → P (next_emission cut e first)) where
  emit_on-Keeps :
      (e : Emission) (h : List PacketItem)
      → e.pipeline.heap ≡ h
      → P e
      → Keeps P (λ a. length a.pipeline.heap) e (emit_on cut e h)
  unfolding emit_on
  emit_on-Keeps e [] q p = tt
  emit_on-Keeps e (first ∷ rest) q p = elim (Bool-cases (waits cut first)) [
    | inl w ↦ rw w tt
    | inr w ↦ rw w (keep e first rest q w p, next_emission-shrinks cut e first rest q w)
  ]

  emit_on-done :
      (e : Emission) (h : List PacketItem) {r : Emission}
      → e.pipeline.heap ≡ h
      → emit_on cut e h ≡ done r
      → (r ≡ e) × NoneDue cut h
  unfolding emit_on
  emit_on-done e [] q d = (ground arith, tt)
  emit_on-done e (first ∷ rest) q d = ground arith

  -- What every batch keeps holds of the whole of emitUntil, which ends when nothing is due.
  pub emit_rule :
      (p : Pipeline)
      → P (record { pipeline = p; batches = []; reasons = [] })
      → P (emit_until cut p) × NoneDue cut (emit_until cut p).pipeline.heap
  unfolding emit_until emit_step
  emit_rule p start =
      let e0 : Emission = record { pipeline = p; batches = []; reasons = [] } in
      let (last, q, d) =
        iterate_rule P (λ a. length a.pipeline.heap) (emit_step cut)
          (λ a r. emit_on-Keeps a a.pipeline.heap refl r) (length p.heap + 1) e0 (omega arith)
          start in
      let (same, none_due) = emit_on-done last last.pipeline.heap refl d in
      (rw same q, rw same none_due)
