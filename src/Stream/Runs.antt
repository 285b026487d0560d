-- ===== src/Stream/Runs.antt =====
-- Every sequence of calls of internal/application/stream/service.go on one pipeline.
use cap_mesh.Prelude.{
  ℕ, suc, ◌≡◌, refl, sym, ap, ◌∙◌, subst, inl, inr, Bool, List, [], ◌∷◌, arith, length, All, ◌==◌,
  Bool-cases, OkThen, if◌then◌else◌, ok,
}
use cap_mesh.Domain.{PacketBatch, Time}
use cap_mesh.Stream.{RebatchConfig, Pipeline, Subscriber}
use cap_mesh.Stream.Emit.Order.{emit_until-IsOrdered, IsOrdered, IsAhead, sequence}
use cap_mesh.Stream.Service.{
  tick_cutoffs, new_pipeline, publish_to, subscribe_to, remove_subscriber, close, run_tick,
}
use cap_mesh.Stream.Invariant.{
  IsOpen, IsSound, emit_until-IsSound, publish_to-IsSound, subscribe_to-IsSound,
  remove_subscriber-IsSound, close-IsSound,
}

-- The reader of a channel takes the oldest batch.
take_oldest : Subscriber → Subscriber
take_oldest s = elim s.queue [ [] ↦ s | b ∷ bs ↦ record s { queue = bs } ]

pub read_channel : ℕ → List Subscriber → List Subscriber
unfolding take_oldest
read_channel id [] = []
read_channel id (s ∷ subs) =
    if s.id == id then take_oldest s ∷ read_channel id subs else s ∷ read_channel id subs

-- Everything that can happen to a pipeline: calls of its methods, ticks of its loop, the end of a
-- subscriber's context, and reads of its channels.
pub data Step : Pipeline → Pipeline → Type 0 where
  published : (b : PacketBatch) (now : Time) (p : Pipeline) → Step p (publish_to b now p)
  subscribed :
      (n : ℕ) (d : Bool) (p : Pipeline) (r : ℕ × Pipeline) → subscribe_to n d p ≡ ok r → Step p r.1
  left : (id : ℕ) (p : Pipeline) → Step p (remove_subscriber id p)
  ticked : (now : Time) (p : Pipeline) → Step p (run_tick now p).pipeline
  ended : (p : Pipeline) → Step p (close p).pipeline
  read : (id : ℕ) (p : Pipeline) → Step p (record p { subscribers = read_channel id p.subscribers })

pub data Reach (p : Pipeline) : Pipeline → Type 0 where
  here : Reach p p
  next : {q r : Pipeline} → Reach p q → Step q r → Reach p r

take_oldest-IsOpen :
    (s : Subscriber) (q : List PacketBatch) → s.queue ≡ q → IsOpen s → IsOpen (take_oldest s)
unfolding take_oldest
take_oldest-IsOpen s [] e o = rw (e, take_oldest) o
take_oldest-IsOpen s (b ∷ bs) e o =
    let size : length s.queue ≡ suc (length bs) = rw e in
    rw (e, take_oldest) (omega (arith, o.0), o.1)

read_channel_sound :
    (id : ℕ) (subs : List Subscriber)
    → All IsOpen subs
    → All IsOpen (read_channel id subs) × (length (read_channel id subs) ≡ length subs)
unfolding read_channel
read_channel_sound id [] o = (tt, refl)
read_channel_sound id (s ∷ subs) o =
    let ih = read_channel_sound id subs o.1 in
    elim (Bool-cases (s.id == id)) [
      | inl e ↦ rw e ((take_oldest-IsOpen s s.queue refl o.0, ih.0), ap suc ih.1)
      | inr e ↦ rw e ((o.0, ih.0), ap suc ih.1)
    ]

run_tick-IsSound : (now : Time) (p : Pipeline) → IsSound p → IsSound (run_tick now p).pipeline
unfolding run_tick
run_tick-IsSound now p s = emit_until-IsSound (tick_cutoffs now p) p s

Step-IsSound : {p q : Pipeline} → Step p q → IsSound p → IsSound q
Step-IsSound (published b now p) s = publish_to-IsSound b now p s
Step-IsSound (subscribed n d p r e) s =
    subst (OkThen (λ a. IsSound a.1)) e (subscribe_to-IsSound n d p s)
Step-IsSound (left id p) s = remove_subscriber-IsSound id p s
Step-IsSound (ticked now p) s = run_tick-IsSound now p s
Step-IsSound (ended p) s = close-IsSound p s
Step-IsSound (read id p) s =
    let r = read_channel_sound id p.subscribers s.opened in
    record { heaped = s.heaped; buffered = s.buffered; counted = s.counted ∙ sym r.1; opened = r.0 }

new_pipeline-IsSound : (w n : ℕ) (c : RebatchConfig) → IsSound (new_pipeline w n c)
unfolding new_pipeline
new_pipeline-IsSound w n c = record {
  heaped = λ c p q. absurd (omega arith);
  buffered = refl;
  counted = refl;
  opened = tt;
}

-- Whatever happens to a new pipeline, its heap stays in order, the gauges of buffered packets and of
-- subscribers are exact, and each connected subscriber has an open channel that is not over its
-- capacity.
pub Reach-IsSound :
    (w n : ℕ) (c : RebatchConfig) {p : Pipeline} → Reach (new_pipeline w n c) p → IsSound p
Reach-IsSound w n c here = new_pipeline-IsSound w n c
Reach-IsSound w n c (next r s) = Step-IsSound s (Reach-IsSound w n c r)

-- Whatever has happened to a pipeline, a tick of its loop sends the packets of all its batches in
-- ascending order of time and sequence number, and none that stays in the buffer is before one sent.
pub tick-IsOrdered :
    (w n : ℕ) (c : RebatchConfig) (now : Time) {p : Pipeline}
    → Reach (new_pipeline w n c) p
    → IsOrdered (sequence (run_tick now p).batches)
      × IsAhead (sequence (run_tick now p).batches) (run_tick now p).pipeline.heap
unfolding run_tick
tick-IsOrdered w n c now {p} r =
    let (o, a, _) = emit_until-IsOrdered (tick_cutoffs now p) p (Reach-IsSound w n c r).heaped in
    (o, a)
