-- ===== src/Stream/Invariant.antt =====
-- What holds of a pipeline between two calls, whatever the calls are.
use cap_mesh.Prelude.{
  ℕ, suc, ◌≡◌, ◌≤◌, ◌+◌, ◌-◌, refl, sym, ap, ◌∙◌, subst, Bool, true, false, List, [], ◌∷◌, ◌++◌,
  arith, length, length-append, All, if_elim, OkThen,
}
use native.Mathlib.Numerals.{add-one}
use cap_mesh.Domain.{Packet, PacketBatch, Time}
use cap_mesh.Stream.Heap.{PacketItem, push_packet}
use cap_mesh.Stream.Heap.Swap.{length-heap_rest, heap_push-perm, length-perm}
use cap_mesh.Stream.Heap.Order.{IsHeap, heap_push-IsHeap}
use cap_mesh.Stream.{
  RebatchConfig, Cutoffs, Gather, Emission, Pipeline, Subscriber, gather, fan_out, take_item,
  emit_until, send_batch, start_gather,
}
use cap_mesh.Stream.Emit.{emit_rule, next_emission, gather_induction}
use cap_mesh.Stream.Emit.Order.{emit_until-IsOrdered}
use cap_mesh.Stream.Service.{
  publish_packets, publish_to, subscribe_to, remove_by_id, remove_subscriber, close_all, close,
}

-- An open channel whose queue fits its capacity.
abbrev pub IsOpen : Subscriber → Type 0
IsOpen s = (length s.queue ≤ s.capacity) × (s.closed ≡ false)

-- The heap is in order, the two gauges of the metrics tell the truth, and the queues fit.
pub record IsSound (p : Pipeline) : Type 0 where
  pub heaped : IsHeap (length p.heap) p.heap
  pub buffered : p.metrics.buffered ≡ length p.heap
  pub counted : p.metrics.subscribers ≡ length p.subscribers
  pub opened : All IsOpen p.subscribers

fan_out_sound :
    (b : PacketBatch) (subs : List Subscriber)
    → All IsOpen subs
    → All IsOpen (fan_out b subs).live
      × (length (fan_out b subs).live + length (fan_out b subs).gone ≡ length subs)
unfolding fan_out
fan_out_sound b [] o = (tt, omega arith)
fan_out_sound b (s ∷ subs) o =
    let ih = fan_out_sound b subs o.1 in ground (arith, ih, length-append s.queue (b ∷ []))

abbrev Counted : Gather → Type 0
Counted g = g.buffered ≡ length g.heap

take_item-Counted :
    (g : Gather) (x : PacketItem) (h : List PacketItem)
    → g.heap ≡ x ∷ h
    → Counted g
    → Counted (take_item g x)
unfolding take_item
take_item-Counted g x h e c =
    let now : g.buffered ≡ suc (length h) = rw e at c in rw e (omega (arith, length-heap_rest x h))

gather-Counted :
    (c : RebatchConfig) (cut : Cutoffs) (template : PacketBatch) (g : Gather)
    → Counted g
    → Counted (gather c cut template g)
gather-Counted c cut template g =
    gather_induction c cut template Counted
      (λ a item rest e w s o l. take_item-Counted a item rest e l) (λ a r l. l) g

-- The part of the invariant that the heap order is not in.
record Gauged (p : Pipeline) : Type 0 where
  buffered : p.metrics.buffered ≡ length p.heap
  counted : p.metrics.subscribers ≡ length p.subscribers
  opened : All IsOpen p.subscribers

next_emission-Gauged :
    (cut : Cutoffs) (e : Emission) (first : PacketItem)
    → Gauged e.pipeline
    → Gauged (next_emission cut e first).pipeline
unfolding send_batch
next_emission-Gauged cut e first s =
    let g = gather e.pipeline.rebatch cut first.template (start_gather e.pipeline) in
    let f =
      fan_out_sound (record (first.template) { packets = g.packets }) e.pipeline.subscribers
        s.opened in
    record {
      buffered =
          gather-Counted e.pipeline.rebatch cut first.template (start_gather e.pipeline) s.buffered;
      counted = omega (arith, f.1, s.counted);
      opened = f.0;
    }

-- emitUntil keeps the invariant.
pub emit_until-IsSound :
    (cut : Cutoffs) (p : Pipeline) → IsSound p → IsSound (emit_until cut p).pipeline
emit_until-IsSound cut p s =
    let (g, _) =
      emit_rule cut (λ e. Gauged e.pipeline)
        (λ e first rest q w k. next_emission-Gauged cut e first k) p
        (record { buffered = s.buffered; counted = s.counted; opened = s.opened }) in
    record {
      heaped = (emit_until-IsOrdered cut p s.heaped).2;
      buffered = g.buffered;
      counted = g.counted;
      opened = g.opened;
    }

push_packet-IsHeap :
    (b : PacketBatch) (k : Packet) (now : Time) (h : List PacketItem)
    → IsHeap (length h) h
    → IsHeap (length h + 1) (push_packet b k now h)
unfolding push_packet
push_packet-IsHeap b k now h v = heap_push-IsHeap _ h v

length-push_packet :
    (b : PacketBatch) (k : Packet) (now : Time) (h : List PacketItem)
    → length (push_packet b k now h) ≡ length h + 1
unfolding push_packet
length-push_packet b k now h = length-perm (heap_push-perm _ h) ∙ sym (add-one (length h))

-- What Publish changes of a pipeline when it has taken in n packets.
record Added (p : Pipeline) (n : ℕ) (q : Pipeline) : Type 0 where
  heaped : IsHeap (length q.heap) q.heap
  grown : length q.heap ≡ length p.heap + n
  buffered : q.metrics.buffered ≡ p.metrics.buffered
  counted : q.metrics.subscribers ≡ p.metrics.subscribers
  same : q.subscribers ≡ p.subscribers

publish_packets-Added :
    (b : PacketBatch) (now : Time) (ks : List Packet) (p : Pipeline)
    → IsHeap (length p.heap) p.heap
    → Added p (length ks) (publish_packets b now ks p)
unfolding publish_packets
publish_packets-Added b now [] p v = record {
  heaped = v;
  grown = omega arith;
  buffered = refl;
  counted = refl;
  same = refl;
}
publish_packets-Added b now (k ∷ ks) p v =
    let size = length-push_packet b k now p.heap in
    let w : IsHeap (length (push_packet b k now p.heap)) (push_packet b k now p.heap) =
      subst (λ (n : ℕ). IsHeap n (push_packet b k now p.heap)) (sym size)
        (push_packet-IsHeap b k now p.heap v) in
    let a = publish_packets-Added b now ks _ w in
    record {
      heaped = a.heaped;
      grown = omega (arith, a.grown, size);
      buffered = a.buffered;
      counted = a.counted;
      same = a.same;
    }

pub publish_to-IsSound :
    (b : PacketBatch) (now : Time) (p : Pipeline) → IsSound p → IsSound (publish_to b now p)
unfolding publish_to
publish_to-IsSound b now p s =
    if_elim IsSound p.closed (λ c. s)
      (λ c.
        let a = publish_packets-Added b now b.packets p s.heaped in
        record {
          heaped = a.heaped;
          buffered = omega (arith, a.grown, a.buffered, s.buffered);
          counted = a.counted ∙ s.counted ∙ ap (λ l. length l) (sym a.same);
          opened = subst (All IsOpen) (sym a.same) s.opened;
        })

pub subscribe_to-IsSound :
    (n : ℕ) (d : Bool) (p : Pipeline) → IsSound p → OkThen (λ r. IsSound r.1) (subscribe_to n d p)
unfolding subscribe_to
subscribe_to-IsSound n d p s =
    if_elim (OkThen (λ r. IsSound r.1)) p.closed (λ c. tt)
      (λ c. record {
        heaped = s.heaped;
        buffered = s.buffered;
        counted = omega (arith, s.counted);
        opened = ((omega arith, refl), s.opened);
      })

remove_by_id_sound :
    (id : ℕ) (subs : List Subscriber)
    → All IsOpen subs
    → All IsOpen (remove_by_id id subs).0
      × (length (remove_by_id id subs).0 + length (remove_by_id id subs).1 ≡ length subs)
unfolding remove_by_id
remove_by_id_sound id [] o = (tt, omega arith)
remove_by_id_sound id (s ∷ subs) o = ground (arith, remove_by_id_sound id subs o.1)

pub remove_subscriber-IsSound :
    (id : ℕ) (p : Pipeline) → IsSound p → IsSound (remove_subscriber id p)
unfolding remove_subscriber
remove_subscriber-IsSound id p s =
    let r = remove_by_id_sound id p.subscribers s.opened in
    record {
      heaped = s.heaped;
      buffered = s.buffered;
      counted = omega (arith, r.1, s.counted);
      opened = r.0;
    }

closed-IsSound :
    (e : Emission)
    → IsSound e.pipeline
    → IsSound (record (e.pipeline) {
      closed = true;
      subscribers = [];
      gone = close_all e.pipeline.subscribers ++ e.pipeline.gone;
      metrics = record (e.pipeline.metrics) {
        subscribers = e.pipeline.metrics.subscribers - length e.pipeline.subscribers;
      };
    })
closed-IsSound e k = record {
  heaped = k.heaped;
  buffered = k.buffered;
  counted = omega (arith, k.counted);
  opened = tt;
}

pub close-IsSound : (p : Pipeline) → IsSound p → IsSound (close p).pipeline
unfolding close
close-IsSound p s =
    let cut : Cutoffs = record { timestamp = 0; received = 0; all = true } in
    let k : IsSound (emit_until cut p).pipeline = emit_until-IsSound cut p s in
    if_elim (λ (r : Emission). IsSound r.pipeline) (emit_until cut p).pipeline.closed (λ c. k)
      (λ c. closed-IsSound (emit_until cut p) k)
