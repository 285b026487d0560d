-- ===== src/Agent/Totals.antt =====
-- The batches of forwardBatches in internal/application/agent/service.go against its totals.
use cap_mesh.Prelude.{
  ℕ, zero, suc, ◌≢◌, ◌+◌, ◌%◌, ◌^◌, ◌≡◌, refl, sym, subst, Bool, true, false, not, ◌&&◌, List, [],
  ◌∷◌, ◌++◌, Option, none, some, is_some, if◌then◌else◌, ◌==◌, length, arith, if_elim,
}
use cap_mesh.Text.{Text}
use cap_mesh.Domain.{Packet, Time}
use cap_mesh.Agent.Forward.{
  CapturedBatch, Forwarding, Forwarded, Event, context_done, batch_ready, batches_closed,
  progress_tick, engine_failed, report_progress, finish, observe, count_batch, forward_batch,
  on_event, forward, out_batch, captured_length, batch_bytes,
}
use cap_mesh.Agent.Counts.{sum_of, IsCounted, forward-stays}

-- The batches that the loop takes: those before the first event that ends it, with the first one that
-- cannot be sent. An empty batch is not sent.
abbrev pub refuses : Forwarding → CapturedBatch → Bool
refuses f b = not (length b.packets == 0) && is_some (f.send (out_batch f b))

unfoldable pub taken : Forwarding → List Event → List CapturedBatch
taken f [] = []
taken f (batch_ready now b ∷ es) = let rest = taken f es in b ∷ (if refuses f b then [] else rest)
taken f (progress_tick ∷ es) = taken f es
taken f (e ∷ es) = []

-- The packets of a batch, and its bytes: what the engine tells, or else the lengths of the packets.
abbrev pub packets_of : CapturedBatch → ℕ
packets_of b = length b.packets

abbrev bytes_in : List Packet → ℕ → ℕ
bytes_in [] n = 0
bytes_in (p ∷ ps) zero = sum_of (λ (p : Packet). p.captured_length) (p ∷ ps)
bytes_in (p ∷ ps) (suc n) = suc n

abbrev pub bytes_of : CapturedBatch → ℕ
bytes_of b = bytes_in b.packets b.captured_bytes

-- The totals have grown by so many packets and bytes, as uint64 counters.
abbrev pub Grows : ℕ → ℕ → Forwarded → Forwarded → Type 0
Grows n m s t =
    (t.packets_total % 2 ^ 64 ≡ (s.packets_total + n) % 2 ^ 64)
    × (t.bytes_total % 2 ^ 64 ≡ (s.bytes_total + m) % 2 ^ 64)

abbrev GrowsBy : List CapturedBatch → Forwarded → Forwarded → Type 0
GrowsBy bs s t = Grows (sum_of packets_of bs) (sum_of bytes_of bs) s t

Grows-trans :
    (a b c d : ℕ) (s t u : Forwarded) → Grows a b s t → Grows c d t u → Grows (a + c) (b + d) s u
Grows-trans a b c d s t u (h, h') (k, k') = (omega (arith, h, k), omega (arith, h', k'))

report_progress-totals :
    (f : Forwarding) (final : Bool) (s : Forwarded)
    → ((report_progress f final s).packets_total ≡ s.packets_total)
      × ((report_progress f final s).bytes_total ≡ s.bytes_total)
      × ((report_progress f final s).finished ≡ s.finished)
unfolding report_progress
report_progress-totals f final s =
    if_elim
      (λ (t : Forwarded).
        (t.packets_total ≡ s.packets_total)
        × (t.bytes_total ≡ s.bytes_total)
        × (t.finished ≡ s.finished))
      f.has_progress (λ _. (refl, refl, refl)) (λ _. (refl, refl, refl))

report_progress-Grows :
    (f : Forwarding) (final : Bool) (s : Forwarded) → Grows 0 0 s (report_progress f final s)
report_progress-Grows f final s =
    let (p, b, _) = report_progress-totals f final s in (omega (arith, p), omega (arith, b))

finish-Grows : (f : Forwarding) (e : Option Text) (s : Forwarded) → Grows 0 0 s (finish f e s)
unfolding finish
finish-Grows f none s = report_progress-Grows f true s
finish-Grows f (some t) s =
    report_progress-Grows f true (record s { failures = s.failures ++ t ∷ [] })

captured_length-sum :
    (ps : List Packet) → captured_length ps ≡ sum_of (λ (p : Packet). p.captured_length) ps
unfolding captured_length sum_of
captured_length-sum [] = refl
captured_length-sum (p ∷ ps) = omega (arith, captured_length-sum ps)

bytes_in-empty : (ps : List Packet) (n : ℕ) → length ps ≡ 0 → bytes_in ps n ≡ 0
bytes_in-empty [] n h = refl
bytes_in-empty (p ∷ ps) n h = absurd (omega (arith, h))

bytes_in-counted :
    (ps : List Packet) (n : ℕ)
    → (length ps ≢ 0)
    → (if n == 0 then captured_length ps else n) ≡ bytes_in ps n
bytes_in-counted [] n h = absurd (h refl)
bytes_in-counted (p ∷ ps) zero h = captured_length-sum (p ∷ ps)
bytes_in-counted (p ∷ ps) (suc n) h = ground arith

observe-Grows :
    (f : Forwarding) (now : Time) (b : CapturedBatch) (s : Forwarded)
    → (length b.packets ≢ 0)
    → Grows (packets_of b) (bytes_of b) s (observe f now b (count_batch b s))
unfolding observe
observe-Grows f now b s h =
    if_elim (Grows (packets_of b) (bytes_of b) s) f.has_metrics (λ _. counted) (λ _. counted)
  where
    bytes : batch_bytes b ≡ bytes_of b
    bytes = unfold batch_bytes in bytes_in-counted b.packets b.captured_bytes h

    counted : Grows (packets_of b) (bytes_of b) s (count_batch b s)
    counted = unfold count_batch in (omega arith, omega (arith, bytes))

forward_batch-Grows :
    (f : Forwarding) (now : Time) (b : CapturedBatch) (s : Forwarded)
    → Grows (packets_of b) (bytes_of b) s (forward_batch f now b s)
unfolding forward_batch
forward_batch-Grows f now b s =
    if_elim (Grows (packets_of b) (bytes_of b) s) (length b.packets == 0)
      (λ h.
        let none_left : length b.packets ≡ 0 = ground (arith, h) in
        (
          omega (arith, none_left),
          omega (arith, bytes_in-empty b.packets b.captured_bytes none_left),
        ))
      (λ h. sent (observe-Grows f now b s (λ e. ground (arith, h, e))) (f.send (out_batch f b)))
  where
    s' : Forwarded
    s' = observe f now b (count_batch b s)

    sent :
        Grows (packets_of b) (bytes_of b) s s'
        → (o : Option Text)
        → Grows (packets_of b) (bytes_of b) s (elim o as (λ _. Forwarded) [
          | some e ↦ finish f (some e) s'
          | none ↦ record s' { sent = s'.sent ++ out_batch f b ∷ [] }
        ])
    sent g none = g
    sent (g, g') (some e) =
        let (k, k') = finish-Grows f (some e) s' in (omega (arith, g, k), omega (arith, g', k'))

observe-finished :
    (f : Forwarding) (now : Time) (b : CapturedBatch) (s : Forwarded)
    → (observe f now b (count_batch b s)).finished ≡ s.finished
unfolding observe count_batch
observe-finished f now b s =
    if_elim (λ (t : Forwarded). t.finished ≡ s.finished) f.has_metrics (λ _. refl) (λ _. refl)

forward_batch-finished :
    (f : Forwarding) (now : Time) (b : CapturedBatch) (s : Forwarded)
    → s.finished ≡ false
    → (forward_batch f now b s).finished ≡ refuses f b
unfolding forward_batch
forward_batch-finished f now b s off = empty (length b.packets == 0)
  where
    s' : Forwarded
    s' = observe f now b (count_batch b s)

    after : Option Text → Forwarded
    after o = elim o [
      | some e ↦ finish f (some e) s'
      | none ↦ record s' { sent = s'.sent ++ out_batch f b ∷ [] }
    ]

    sent : (o : Option Text) → (after o).finished ≡ is_some o
    sent none = cc (observe-finished f now b s, off)
    sent (some e) = unfold finish in refl

    empty :
        (q : Bool)
        → (if q then s else after (f.send (out_batch f b))).finished
          ≡ (not q && is_some (f.send (out_batch f b)))
    empty true = off
    empty false = sent (f.send (out_batch f b))

forward-finished :
    (f : Forwarding) (es : List Event) (s : Forwarded) → s.finished ≡ true → forward f es s ≡ s
unfolding forward
forward-finished f [] s h = refl
forward-finished f (e ∷ es) s h = if_elim (λ t. t ≡ s) s.finished (λ _. refl) (λ off. absurd (cc))

-- After an event that ends the loop, or does not.
rest-Grows :
    (f : Forwarding) (es : List Event) (s : Forwarded) (ends : Bool)
    → s.finished ≡ ends
    → (s.finished ≡ false → GrowsBy (taken f es) s (forward f es s))
    → GrowsBy (if ends then [] else taken f es) s (forward f es s)
unfolding sum_of
rest-Grows f es s true h k =
    subst (λ t. Grows 0 0 s t) (sym (forward-finished f es s h)) (omega arith, omega arith)
rest-Grows f es s false h k = k h

finish-rest :
    (f : Forwarding) (e : Option Text) (es : List Event) (s : Forwarded)
    → Grows 0 0 s (forward f es (finish f e s))
finish-rest f e es s =
    subst (λ t. Grows 0 0 s t) (sym (forward-finished f es (finish f e s) (unfold finish in refl)))
      (finish-Grows f e s)

on_event-Grows :
    (f : Forwarding) (e : Event) (es : List Event) (s : Forwarded)
    → s.finished ≡ false
    → ((t : Forwarded) → t.finished ≡ false → GrowsBy (taken f es) t (forward f es t))
    → GrowsBy (taken f (e ∷ es)) s (forward f es (on_event f e s))
unfolding on_event taken sum_of
on_event-Grows f context_done es s off more = finish-rest f none es s
on_event-Grows f (batches_closed e) es s off more = finish-rest f e es s
on_event-Grows f (engine_failed e) es s off more = finish-rest f e es s
on_event-Grows f progress_tick es s off more =
    let t = report_progress f false s in
    let (p, b, q) = report_progress-totals f false s in
    let (g, g') = more t (cc (q, off)) in (omega (arith, p, g), omega (arith, b, g'))
on_event-Grows f (batch_ready now b) es s off more =
    let t = forward_batch f now b s in
    let rest = if refuses f b then [] else taken f es in
    Grows-trans (packets_of b) (bytes_of b) (sum_of packets_of rest) (sum_of bytes_of rest) s t
      (forward f es t) (forward_batch-Grows f now b s)
      (rest-Grows f es t (refuses f b) (forward_batch-finished f now b s off) (more t))

forward-Grows :
    (f : Forwarding) (es : List Event) (s : Forwarded)
    → s.finished ≡ false
    → GrowsBy (taken f es) s (forward f es s)
unfolding forward
forward-Grows f [] s off = unfold taken sum_of in (omega arith, omega arith)
forward-Grows f (e ∷ es) s off =
    if_elim (GrowsBy (taken f (e ∷ es)) s) s.finished (λ on. absurd (cc))
      (λ _. on_event-Grows f e es s off (λ t o. forward-Grows f es t o))

-- Whatever events the loop meets: it adds to its totals the packets and bytes of each batch that it
-- takes, once, up to the event that ends it, that is the packets in the batch, and the bytes that the
-- engine tells or else the lengths of its packets. And where the totals are the intervals of all
-- progress reports and what is not yet reported, they are so afterwards. All of it is modulo 2^64, of
-- a loop that has not ended.
pub forward-IsCounted :
    (f : Forwarding) (es : List Event) (s : Forwarded)
    → s.finished ≡ false
    → IsCounted s
    → IsCounted (forward f es s)
      × Grows (sum_of packets_of (taken f es)) (sum_of bytes_of (taken f es)) s (forward f es s)
forward-IsCounted f es s off h = (forward-stays f es s h, forward-Grows f es s off)
