-- ===== src/Agent/Counts.antt =====
-- The progress reports of forwardBatches in internal/application/agent/service.go against its totals.
use cap_mesh.Prelude.{
  ℕ, ◌+◌, ◌%◌, ◌^◌, ◌≡◌, Bool, true, false, List, [], ◌∷◌, ◌++◌, Option, none, some, ◌==◌, length,
  arith, if_elim,
}
use cap_mesh.Text.{Text}
use cap_mesh.Domain.{Time}
use cap_mesh.Agent.Forward.{
  CapturedBatch, Forwarding, Report, Forwarded, Event, context_done, batch_ready, batches_closed,
  progress_tick, engine_failed, add64, report_progress, finish, observe, count_batch, forward_batch,
  on_event, forward, out_batch, batch_bytes,
}

unfoldable pub sum_of {ℓ} : {A : Type ℓ} → (A → ℕ) → List A → ℕ
sum_of m [] = 0
sum_of m (x ∷ xs) = m x + sum_of m xs

sum_of-snoc {ℓ} :
    {A : Type ℓ} (m : A → ℕ) (xs : List A) (x : A) → sum_of m (xs ++ x ∷ []) ≡ sum_of m xs + m x
unfolding sum_of
sum_of-snoc m [] x = omega arith
sum_of-snoc m (y ∷ xs) x = omega (arith, sum_of-snoc m xs x)

-- What the reports have counted.
abbrev pub reported : List Report → ℕ
reported rs = sum_of (λ (r : Report). r.packets_interval) rs

abbrev pub reported_bytes : List Report → ℕ
reported_bytes rs = sum_of (λ (r : Report). r.bytes_interval) rs

-- The totals are the reports and what is not yet reported.
abbrev pub IsCounted : Forwarded → Type 0
IsCounted s =
    ((reported s.reports + s.packets_interval) % 2 ^ 64 ≡ s.packets_total % 2 ^ 64)
    × ((reported_bytes s.reports + s.bytes_interval) % 2 ^ 64 ≡ s.bytes_total % 2 ^ 64)

count_lem :
    (r i t n : ℕ) → (r + i) % 2 ^ 64 ≡ t % 2 ^ 64 → (r + add64 i n) % 2 ^ 64 ≡ add64 t n % 2 ^ 64
count_lem r i t n h = omega (arith, h)

report_progress-IsCounted :
    (f : Forwarding) (final : Bool) (s : Forwarded)
    → IsCounted s
    → IsCounted (report_progress f final s)
unfolding report_progress
report_progress-IsCounted f final s (h, k) =
    if_elim IsCounted f.has_progress
      (λ _. (
        omega (arith, h, sum_of-snoc (λ (r : Report). r.packets_interval) s.reports now),
        omega (arith, k, sum_of-snoc (λ (r : Report). r.bytes_interval) s.reports now),
      ))
      (λ _. (h, k))
  where
    now : Report
    now = record {
      packets_total = s.packets_total;
      bytes_total = s.bytes_total;
      packets_interval = s.packets_interval;
      bytes_interval = s.bytes_interval;
      final = final;
    }

finish-IsCounted :
    (f : Forwarding) (e : Option Text) (s : Forwarded) → IsCounted s → IsCounted (finish f e s)
unfolding finish
finish-IsCounted f none s h = report_progress-IsCounted f true s h
finish-IsCounted f (some t) s h =
    report_progress-IsCounted f true (record s { failures = s.failures ++ t ∷ [] }) h

observe-IsCounted :
    (f : Forwarding) (now : Time) (b : CapturedBatch) (s : Forwarded)
    → IsCounted s
    → IsCounted (observe f now b (count_batch b s))
unfolding observe count_batch
observe-IsCounted f now b s (h, k) = if_elim IsCounted f.has_metrics (λ _. counted) (λ _. counted)
  where
    counted : IsCounted (count_batch b s)
    counted =
        unfold count_batch in
        (
          count_lem (reported s.reports) s.packets_interval s.packets_total (length b.packets) h,
          count_lem (reported_bytes s.reports) s.bytes_interval s.bytes_total (batch_bytes b) k,
        )

forward_batch-IsCounted :
    (f : Forwarding) (now : Time) (b : CapturedBatch) (s : Forwarded)
    → IsCounted s
    → IsCounted (forward_batch f now b s)
unfolding forward_batch
forward_batch-IsCounted f now b s h =
    if_elim IsCounted (length b.packets == 0) (λ _. h) (λ _. sent (f.send (out_batch f b)))
  where
    s' : Forwarded
    s' = observe f now b (count_batch b s)

    counted : IsCounted s'
    counted = observe-IsCounted f now b s h

    after : Option Text → Forwarded
    after o = elim o [
      | some e ↦ finish f (some e) s'
      | none ↦ record s' { sent = s'.sent ++ out_batch f b ∷ [] }
    ]

    sent : (o : Option Text) → IsCounted (after o)
    sent none = counted
    sent (some e) = finish-IsCounted f (some e) s' counted

on_event-IsCounted :
    (f : Forwarding) (e : Event) (s : Forwarded) → IsCounted s → IsCounted (on_event f e s)
unfolding on_event
on_event-IsCounted f context_done s h = finish-IsCounted f none s h
on_event-IsCounted f (batch_ready now b) s h = forward_batch-IsCounted f now b s h
on_event-IsCounted f (batches_closed e) s h = finish-IsCounted f e s h
on_event-IsCounted f progress_tick s h = report_progress-IsCounted f false s h
on_event-IsCounted f (engine_failed e) s h = finish-IsCounted f e s h

pub forward-stays :
    (f : Forwarding) (es : List Event) (s : Forwarded) → IsCounted s → IsCounted (forward f es s)
unfolding forward
forward-stays f [] s h = h
forward-stays f (e ∷ es) s h =
    if_elim IsCounted s.finished (λ _. h)
      (λ _. forward-stays f es (on_event f e s) (on_event-IsCounted f e s h))
