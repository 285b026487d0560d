-- ===== src/Recorder/Rounds.antt =====
-- internal/adapter/recording/manager.go: what holds in every round of the loop of run.
use cap_mesh.Prelude.{
  ℕ, ◌≡◌, refl, Bool, true, false, not, ◌&&◌, ◌||◌, List, [], ◌∷◌, Option, none, some, Result, ok,
  err, if_elim, is_some, subst,
}
use cap_mesh.Text.{Text, text}
use cap_mesh.Domain.{Packet}
use cap_mesh.Recorder.{
  OpenFile, Recorder, Io, Stepped, reached_segment_limit, reached_session_limit, rotate,
}
use cap_mesh.Recorder.Run.{
  Written, all_written, limit_reached, nil_writer, write_failed, Packeted, return, next, rotated,
  go_on, count_packet, packet_counted, write_packet, is_last, write_packets, Ending, or_failed,
  record_ending, complete, Event, received, dropped, flush_tick, sync_tick, interrupted, Loop,
  Round, running, ended, panicked, fail_or_run, rotate_full, truncate, batch_written, flush, sync,
  flushed, end_of_batches, on_event, shutdown, Runs, no_rounds, one_more,
}
use cap_mesh.Recorder.Run
use cap_mesh.Recorder.Keeps.{rotate-Kept, Kept, Guides, WrittenHolds, PacketHolds, StepHolds}

-- What holds of a round: of a loop that goes on, and of a recorder that is complete. None panics.
abbrev pub RoundHolds : (P R Q : Recorder → Type 0) → Round → Type 0
RoundHolds P R Q (running l) = P l.recorder × R l.recorder
RoundHolds P R Q (ended r) = Q r
RoundHolds P R Q panicked = ⊥

module _ (P R Q : Recorder → Type 0) (k : Kept P) (g : Guides P R Q) where
  rotate-Guided : (io : Io) (r : Recorder) → P r → StepHolds P R (rotate io r)
  rotate-Guided io r p = ((rotate-Kept P k io r p).0, g.rotates io r p)

  rotated-Kept : (s : Stepped) → StepHolds P R s → PacketHolds P R (rotated s)
  rotated-Kept (none, r) (p, one) = (p, one refl)
  rotated-Kept (some e, r) (p, one) = p

  packet_counted-Kept :
      (io : Io) (last : Bool) (r : Recorder)
      → P r
      → R r
      → PacketHolds P R (packet_counted io last r)
  unfolding packet_counted
  packet_counted-Kept io last r p one =
      if_elim (PacketHolds P R) (not r.rolling && reached_session_limit r) (λ _. p)
        (λ _.
          if_elim (PacketHolds P R) (not last && reached_segment_limit r)
            (λ _. rotated-Kept (rotate io r) (rotate-Guided io r p)) (λ _. (p, one)))

  write_packet-Kept :
      (io : Io) (last : Bool) (p : Packet) (r : Recorder)
      → P r
      → R r
      → PacketHolds P R (write_packet io last p r)
  unfolding write_packet count_packet
  write_packet-Kept io last p r h one = opened r.file refl (g.has_file r one)
    where
      wrote :
          (f : OpenFile) (w : Result Text ℕ)
          → r.file ≡ some f
          → io.write_packet r.sequence f.written p ≡ w
          → PacketHolds P R (write_packet io last p r)
      wrote f (err e) o q = rw (o, q, write_packet) h
      wrote f (ok n) o q =
          rw (o, q, write_packet)
            (packet_counted-Kept io last (count_packet p f n r) (k.counts p f n r o h)
              (g.counted p f n r h one))

      opened :
          (o : Option OpenFile)
          → r.file ≡ o
          → is_some o ≡ true
          → PacketHolds P R (write_packet io last p r)
      opened none o some_file = absurd (cc)
      opened (some f) o some_file = wrote f (io.write_packet r.sequence f.written p) o refl

  go_on-Kept :
      (f : Recorder → Written × Recorder) (q : Packeted)
      → PacketHolds P R q
      → ((r : Recorder) → P r → R r → WrittenHolds P R (f r))
      → WrittenHolds P R (go_on f q)
  go_on-Kept f (return w r) h rest = h
  go_on-Kept f (next r) (p, one) rest = rest r p one

  write_packets-Kept :
      (io : Io) (ps : List Packet) (r : Recorder)
      → P r
      → R r
      → WrittenHolds P R (write_packets io ps r)
  unfolding write_packets
  write_packets-Kept io [] r h one = (h, one)
  write_packets-Kept io (p ∷ ps) r h one =
      go_on-Kept (write_packets io ps) (write_packet io (is_last ps) p r)
        (write_packet-Kept io (is_last ps) p r h one) (write_packets-Kept io ps)

  fail_or_run-Kept :
      (last : Io) (l : Loop) (s : Stepped)
      → StepHolds P R s
      → RoundHolds P R Q (fail_or_run last l s)
  unfolding fail_or_run
  fail_or_run-Kept last l (none, r) (p, one) = (p, one refl)
  fail_or_run-Kept last l (some e, r) (p, one) = g.completes last (text "FAILED") e true r p

  rotate_full-Kept :
      (io last : Io) (l : Loop) (r : Recorder)
      → P r
      → R r
      → RoundHolds P R Q (rotate_full io last l r)
  unfolding rotate_full
  rotate_full-Kept io last l r p one =
      if_elim (RoundHolds P R Q) (reached_segment_limit r)
        (λ _. fail_or_run-Kept last l (rotate io r) (rotate-Guided io r p)) (λ _. (p, one))

  truncate-Kept : (last : Io) (r : Recorder) → P r → Q (truncate last r)
  unfolding truncate
  truncate-Kept last r p =
      g.completes last (text "TRUNCATED") (text "max_session_size_reached") false _
        (k.truncates r p)

  batch_written-Kept :
      (io last : Io) (l : Loop) (w : Written × Recorder)
      → WrittenHolds P R w
      → RoundHolds P R Q (batch_written io last l w)
  unfolding batch_written
  batch_written-Kept io last l (all_written, r) (p, one) = rotate_full-Kept io last l r p one
  batch_written-Kept io last l (limit_reached, r) p = truncate-Kept last r p
  batch_written-Kept io last l (write_failed e, r) p = g.completes last (text "FAILED") e true r p
  batch_written-Kept io last l (nil_writer, r) p = p

  flushed-Kept :
      (io last : Io) (l : Loop) (e : Option Text)
      → P l.recorder
      → R l.recorder
      → RoundHolds P R Q (flushed io last l e)
  unfolding flushed
  flushed-Kept io last l (some e) p one = g.completes last (text "FAILED") e true l.recorder p
  flushed-Kept io last l none p one =
      if_elim (RoundHolds P R Q) (not l.recorder.rolling && reached_session_limit l.recorder)
        (λ _. truncate-Kept last l.recorder p) (λ _. rotate_full-Kept io last l l.recorder p one)

  end_of_batches-Kept :
      (last : Io) (cancelled lost : Bool) (r : Recorder)
      → P r
      → Q (end_of_batches last cancelled lost r)
  unfolding end_of_batches
  end_of_batches-Kept last cancelled lost r p =
      if_elim Q cancelled (λ _. g.completes last (text "PARTIAL") shutdown true r p)
        (λ _.
          if_elim Q lost
            (λ _. g.completes last (text "PARTIAL") (text "recording queue overflow") true r p)
            (λ _. g.completes last (text "COMPLETED") [] false r p))

  pub on_event-Kept :
      (io last : Io) (e : Event) (l : Loop)
      → P l.recorder
      → R l.recorder
      → RoundHolds P R Q (on_event io last e l)
  unfolding on_event
  on_event-Kept io last (received b) l p one =
      batch_written-Kept io last l (write_packets io b.packets l.recorder)
        (write_packets-Kept io b.packets l.recorder p one)
  on_event-Kept io last (Run.closed cancelled pending) l p one =
      end_of_batches-Kept last cancelled (l.dropped || (l.listens && pending)) l.recorder p
  on_event-Kept io last dropped l p one = (p, one)
  on_event-Kept io last flush_tick l p one = flushed-Kept io last l (flush io l.recorder) p one
  on_event-Kept io last sync_tick l p one =
      fail_or_run-Kept last l (sync io l.recorder, l.recorder) (p, λ _. one)
  on_event-Kept io last interrupted l p one =
      g.completes last (text "PARTIAL") shutdown true l.recorder p

  -- From a recorder with its file open, every round of its loop.
  pub Runs-Kept :
      {l m : Loop} (io last : Io) (e : Event)
      → P l.recorder
      → R l.recorder
      → Runs l m
      → RoundHolds P R Q (on_event io last e m)
  Runs-Kept {l} io last e p one no_rounds = on_event-Kept io last e l p one
  Runs-Kept {l} {m} io last e p one (one_more io' last' e' runs went) =
      let (p', one') = subst (RoundHolds P R Q) went (Runs-Kept io' last' e' p one runs) in
      on_event-Kept io last e m p' one'
