-- ===== src/Stream/Emit/Order.antt =====
-- emitUntil sends the packets in order of time, those of the same time by their sequence numbers.
use mathlib.Core.List.{
  Mem, Pairwise, Pairwise-append, append_assoc, mem-append, mem-cons, mem-cons_self,
  mem-cons_of_mem, not-mem-nil, forall_mem-cons, append-nil,
}
use mathlib.Core.List.Perm
use mathlib.Core.Logic.Or
use cap_mesh.Prelude.{
  ℕ, suc, ◌≡◌, ◌<◌, sym, subst, false, List, [], ◌∷◌, ◌++◌, arith, length, get_elem?, some,
}
use cap_mesh.Domain.{Packet, PacketBatch}
use cap_mesh.Stream.Heap.{PacketItem, heap_rest, less, before, item_before}
use cap_mesh.Stream.Heap.Swap.{heap_rest-perm, length-heap_rest}
use cap_mesh.Stream.Heap.Order.{IsHeap, heap_rest-IsHeap, root_least}
use cap_mesh.Stream.{
  RebatchConfig, Cutoffs, Gather, Emission, Pipeline, gather, take_item, emit_until, send_batch,
  start_gather,
}
use cap_mesh.Stream.Emit.{gather_induction, emit_rule, next_emission}

-- `a` may be sent ahead of `b`.
abbrev pub NotAfter : Packet → Packet → Type 0
NotAfter a b = before b a ≡ false

NotAfter-prop : (a b : Packet) → IsProp (NotAfter a b)
NotAfter-prop a b = hlevel

abbrev pub IsOrdered : List Packet → Type 0
IsOrdered = Pairwise NotAfter

-- Each of the packets may be sent ahead of everything in the heap.
abbrev pub IsAhead : List Packet → List PacketItem → Type 0
IsAhead ps h = (p : Packet) → Mem p ps → (i : PacketItem) → Mem i h → NotAfter p i.packet

least_of_mem :
    (x : PacketItem) (h : List PacketItem)
    → ((j : ℕ) → j < length h → item_before (get_elem? h j) (some x) ≡ false)
    → (i : PacketItem) → Mem i h
    → NotAfter x.packet i.packet
unfolding item_before
least_of_mem x [] q = λ i m. absurd (not-mem-nil m)
least_of_mem x (y ∷ h) q =
    (forall_mem-cons (λ i. NotAfter-prop x.packet i.packet)).1
      (q 0 (omega arith), least_of_mem x h (λ j p. q (suc j) (omega arith)))

-- The first packet of the heap may be sent ahead of all.
pub first_least :
    (x : PacketItem) (h : List PacketItem)
    → IsHeap (length (x ∷ h)) (x ∷ h)
    → (i : PacketItem) → Mem i (x ∷ h)
    → NotAfter x.packet i.packet
unfolding less
first_least x h v = least_of_mem x (x ∷ h) (λ j p. root_least (x ∷ h) j v p)

-- After the packets `pre`: the heap is in order, so are the packets taken, and they are ahead of it.
record Ordered (pre : List Packet) (g : Gather) : Type 0 where
  heaped : IsHeap (length g.heap) g.heap
  ordered : IsOrdered (pre ++ g.packets)
  ahead : IsAhead (pre ++ g.packets) g.heap

snoc-IsOrdered :
    (ps : List Packet) (x : PacketItem) (h : List PacketItem)
    → IsOrdered ps
    → IsAhead ps (x ∷ h)
    → IsOrdered (ps ++ x.packet ∷ [])
snoc-IsOrdered ps x h o a = (Pairwise-append NotAfter-prop).1 (
  o,
  Pairwise.cons (λ y m. absurd (not-mem-nil m)) Pairwise.nil,
  λ p m b n.
      Or.elim (NotAfter-prop p b) (mem-cons.0 n)
        (λ e. subst (NotAfter p) (sym e) (a p m x mem-cons_self)) (λ n'. absurd (not-mem-nil n')),
)

snoc-IsAhead :
    (ps : List Packet) (x : PacketItem) (h : List PacketItem)
    → IsHeap (length (x ∷ h)) (x ∷ h)
    → IsAhead ps (x ∷ h)
    → IsAhead (ps ++ x.packet ∷ []) (heap_rest (x ∷ h))
snoc-IsAhead ps x h v a p m i n =
    let later : Mem i (x ∷ h) = mem-cons_of_mem x ((Perm.mem_iff (heap_rest-perm x h)).0 n) in
    Or.elim (NotAfter-prop p i.packet) (mem-append.0 m) (λ q. a p q i later)
      (λ q.
        Or.elim (NotAfter-prop p i.packet) (mem-cons.0 q)
          (λ e. subst (λ k. NotAfter k i.packet) (sym e) (first_least x h v i later))
          (λ q'. absurd (not-mem-nil q')))

take_item-Ordered :
    (pre : List Packet) (g : Gather) (x : PacketItem) (h : List PacketItem)
    → g.heap ≡ x ∷ h
    → Ordered pre g
    → Ordered pre (take_item g x)
unfolding take_item
take_item-Ordered pre g x h e o =
    let v : IsHeap (length (x ∷ h)) (x ∷ h) = subst (λ k. IsHeap (length k) k) e o.heaped in
    let a : IsAhead (pre ++ g.packets) (x ∷ h) = subst (IsAhead (pre ++ g.packets)) e o.ahead in
    let size : length (heap_rest (x ∷ h)) ≡ length h = length-heap_rest x h in
    record {
      heaped =
          rw e
            (subst (λ (n : ℕ). IsHeap n (heap_rest (x ∷ h))) (sym size) (heap_rest-IsHeap x h v));
      ordered = rw (← append_assoc) (snoc-IsOrdered (pre ++ g.packets) x h o.ordered a);
      ahead = rw (← append_assoc, e) (snoc-IsAhead (pre ++ g.packets) x h v a);
    }

gather-Ordered :
    (pre : List Packet) (c : RebatchConfig) (cut : Cutoffs) (template : PacketBatch) (g : Gather)
    → Ordered pre g
    → Ordered pre (gather c cut template g)
gather-Ordered pre c cut template g =
    gather_induction c cut template (Ordered pre)
      (λ a item rest e w s o l. take_item-Ordered pre a item rest e l)
      (λ a r l. record { heaped = l.heaped; ordered = l.ordered; ahead = l.ahead }) g

-- The packets of the batches, in the order in which they are sent.
abbrev pub sequence : List PacketBatch → List Packet
sequence [] = []
sequence (b ∷ bs) = b.packets ++ sequence bs

sequence-append :
    (bs : List PacketBatch) (b : PacketBatch) → sequence (bs ++ b ∷ []) ≡ sequence bs ++ b.packets
sequence-append [] b = append-nil _
sequence-append (c ∷ bs) b = rw (sequence-append bs b, append_assoc)

record InOrder (e : Emission) : Type 0 where
  heaped : IsHeap (length e.pipeline.heap) e.pipeline.heap
  ordered : IsOrdered (sequence e.batches)
  ahead : IsAhead (sequence e.batches) e.pipeline.heap

next_emission-InOrder :
    (cut : Cutoffs) (e : Emission) (first : PacketItem)
    → InOrder e
    → InOrder (next_emission cut e first)
unfolding send_batch
next_emission-InOrder cut e first o =
    let t = first.template in
    let g = gather e.pipeline.rebatch cut t (start_gather e.pipeline) in
    let start : Ordered (sequence e.batches) (start_gather e.pipeline) = record {
      heaped = o.heaped;
      ordered = rw append-nil o.ordered;
      ahead = rw append-nil o.ahead;
    } in
    let k : Ordered (sequence e.batches) g =
      gather-Ordered (sequence e.batches) e.pipeline.rebatch cut t (start_gather e.pipeline)
        start in
    record {
      heaped = k.heaped;
      ordered = rw (sequence-append e.batches (record t { packets = g.packets })) k.ordered;
      ahead = rw (sequence-append e.batches (record t { packets = g.packets })) k.ahead;
    }

-- From a heap in order, emitUntil sends the packets of all its batches in ascending order of time
-- and, at the same time, of sequence number; no packet that it leaves in the heap is before one that it
-- has sent, and the heap is in order again.
pub emit_until-IsOrdered :
    (cut : Cutoffs) (p : Pipeline)
    → IsHeap (length p.heap) p.heap
    → IsOrdered (sequence (emit_until cut p).batches)
      × IsAhead (sequence (emit_until cut p).batches) (emit_until cut p).pipeline.heap
      × IsHeap (length (emit_until cut p).pipeline.heap) (emit_until cut p).pipeline.heap
emit_until-IsOrdered cut p v =
    let (o, _) =
      emit_rule cut InOrder (λ e first rest q w k. next_emission-InOrder cut e first k) p
        (record { heaped = v; ordered = Pairwise.nil; ahead = λ k m. absurd (not-mem-nil m) }) in
    (o.ordered, o.ahead, o.heaped)
