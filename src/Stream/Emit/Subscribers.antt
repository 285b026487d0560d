-- ===== src/Stream/Emit/Subscribers.antt =====
-- What the subscribers get of the batches that emitUntil sends.
use mathlib.Core.List.{append_assoc, append-nil}
use cap_mesh.Prelude.{
  ◌≡◌, ◌≤◌, refl, ap, ◌∙◌, inl, inr, true, List, [], ◌∷◌, ◌++◌, map, arith, length, length-append,
  Option, none, some, ltb, Option-cases, if◌then◌else◌,
}
use cap_mesh.Domain.{PacketBatch}
use cap_mesh.Stream.Heap.{PacketItem}
use cap_mesh.Stream.{
  Cutoffs, Emission, Pipeline, Subscriber, gather, fan_out, emit_until, send_batch, start_gather,
}
use cap_mesh.Stream.Emit.{emit_rule, next_emission}

-- One subscriber's own view of a batch: it stays connected with a new queue, or it is cut off.
unfoldable pub receive : PacketBatch → Subscriber → Option Subscriber
receive b s =
    if ltb (length s.queue) s.capacity
    then some (record s { queue = s.queue ++ b ∷ [] })
    else if s.disconnect_on_drop
    then none
    else some s

unfoldable pub receive_all : List PacketBatch → Subscriber → Option Subscriber
receive_all [] s = some s
receive_all (b ∷ bs) s = elim (receive b s) [ none ↦ none | some s' ↦ receive_all bs s' ]

abbrev pub keep_live : List (Option Subscriber) → List Subscriber
keep_live [] = []
keep_live (none ∷ os) = keep_live os
keep_live (some s ∷ os) = s ∷ keep_live os

fan_out-live :
    (b : PacketBatch) (subs : List Subscriber)
    → (fan_out b subs).live ≡ keep_live (map (receive b) subs)
unfolding fan_out receive
fan_out-live b [] = refl
fan_out-live b (s ∷ subs) = ground (arith, fan_out-live b subs)

receive_all-snoc :
    (bs : List PacketBatch) (b : PacketBatch) (s : Subscriber)
    → receive_all (bs ++ b ∷ []) s
      ≡ elim (receive_all bs s) [ none ↦ none | some s' ↦ receive b s' ]
unfolding receive_all
receive_all-snoc [] b s = elim (Option-cases (receive b s)) [
  | inl e ↦ rw (e, receive_all)
  | inr (s', e) ↦ rw (e, receive_all)
]
receive_all-snoc (c ∷ bs) b s = elim (Option-cases (receive c s)) [
  | inl e ↦ rw (e, receive_all)
  | inr (s', e) ↦ rw (e, receive_all) (receive_all-snoc bs b s')
]

keep_live-snoc :
    (bs : List PacketBatch) (b : PacketBatch) (subs : List Subscriber)
    → keep_live (map (receive b) (keep_live (map (receive_all bs) subs)))
      ≡ keep_live (map (receive_all (bs ++ b ∷ [])) subs)
keep_live-snoc bs b [] = refl
keep_live-snoc bs b (s ∷ subs) = elim (Option-cases (receive_all bs s)) [
  | inl e ↦ rw (receive_all-snoc bs b s, e) (keep_live-snoc bs b subs)
  | inr (s', e) ↦
      rw (receive_all-snoc bs b s, e)
        (elim (Option-cases (receive b s')) [
          | inl e' ↦ rw e' (keep_live-snoc bs b subs)
          | inr (s'', e') ↦ rw e' (ap (◌∷◌ s'') (keep_live-snoc bs b subs))
        ])
]

keep_live_start : (subs : List Subscriber) → subs ≡ keep_live (map (receive_all []) subs)
unfolding receive_all
keep_live_start [] = refl
keep_live_start (s ∷ subs) = ap (◌∷◌ s) (keep_live_start subs)

abbrev Served : List Subscriber → Emission → Type 0
Served subs e = e.pipeline.subscribers ≡ keep_live (map (receive_all e.batches) subs)

next_emission-Served :
    (subs : List Subscriber) (cut : Cutoffs) (e : Emission) (first : PacketItem)
    → Served subs e
    → Served subs (next_emission cut e first)
unfolding send_batch
next_emission-Served subs cut e first k =
    let batch : PacketBatch = record (first.template) {
      packets = (gather e.pipeline.rebatch cut first.template (start_gather e.pipeline)).packets;
    } in
    fan_out-live batch e.pipeline.subscribers
    ∙ ap (λ l. keep_live (map (receive batch) l)) k
    ∙ keep_live-snoc e.batches batch subs

-- The subscribers are independent of one another: after emitUntil those connected are the old ones, in
-- their order, each as its own queue and capacity make it when it is given the batches one by one, and
-- those whose queue overflows while they ask to be told of losses are gone.
pub emit_until-serves :
    (cut : Cutoffs) (p : Pipeline)
    → (emit_until cut p).pipeline.subscribers
      ≡ keep_live (map (receive_all (emit_until cut p).batches) p.subscribers)
emit_until-serves cut p =
    (emit_rule cut (Served p.subscribers)
      (λ e first rest q w k. next_emission-Served p.subscribers cut e first k) p
      (keep_live_start p.subscribers)).0

receive-lossless :
    (b : PacketBatch) (s : Subscriber) {s' : Subscriber}
    → s.disconnect_on_drop ≡ true
    → receive b s ≡ some s'
    → (s'.queue ≡ s.queue ++ b ∷ []) × (s'.disconnect_on_drop ≡ true) × (s'.capacity ≡ s.capacity)
unfolding receive
receive-lossless b s d e = ground arith

-- A subscriber that asks to be told of losses and is still connected has every batch in its queue, in
-- the order of sending and behind what was there: it never misses a batch silently.
receive_all-lossless :
    (bs : List PacketBatch) (s : Subscriber) {s' : Subscriber}
    → s.disconnect_on_drop ≡ true
    → receive_all bs s ≡ some s'
    → s'.queue ≡ s.queue ++ bs
unfolding receive_all
receive_all-lossless [] s d e = ground (arith, append-nil s.queue)
receive_all-lossless (b ∷ bs) s {s'} d e = elim (Option-cases (receive b s)) [
  | inl q ↦ cc (rw (q, receive_all) at e)
  | inr (t, q) ↦
      let (queue, still, _) = receive-lossless b s d q in
      receive_all-lossless bs t {s' = s'} still (rw (q, receive_all) at e)
      ∙ rw (queue, append_assoc)
]

receive_capacity :
    (b : PacketBatch) (s : Subscriber) {s' : Subscriber}
    → length s.queue ≤ s.capacity
    → receive b s ≡ some s'
    → (length s'.queue ≤ s'.capacity) × (s'.capacity ≡ s.capacity)
unfolding receive
receive_capacity b s h e = ground (arith, length-append s.queue (b ∷ []))
