-- ===== src/Recorder/Outcome.antt =====
-- internal/adapter/recording/manager.go: the status with which a recording ends.
use cap_mesh.Prelude.{
  ℕ, ◌≡◌, refl, subst, ◌⊎◌, inl, inr, if◌then◌else◌, Bool, true, false, not, ◌&&◌, ◌||◌, List, [],
  ◌∷◌, Option, none, some, Result, ok, err, arith, if_elim,
}
use cap_mesh.Text.{Text, text}
use cap_mesh.Domain.{Packet}
use cap_mesh.Recorder.{
  OpenFile, keep_segment, open_segment, Recorder, Io, Stepped, finish_segment, prune_rolling,
  rotate, reached_segment_limit, reached_session_limit,
}
use cap_mesh.Recorder.Run.{
  count_packet, packet_counted, write_packet, is_last, Packeted, go_on, rotated, return, next,
  Written, all_written, limit_reached, nil_writer, write_failed, write_packets, Ending, or_failed,
  record_ending, complete, Event, received, dropped, flush_tick, sync_tick, interrupted, Loop,
  Round, running, ended, panicked, fail_or_run, rotate_full, truncate, batch_written, flush, sync,
  flushed, end_of_batches, on_event, shutdown,
}
use cap_mesh.Recorder.Run
use cap_mesh.Recorder.Keeps.{Kept, complete-Kept}

-- The status that is asked for, or FAILED.
abbrev HasStatus : Text → Recorder → Type 0
HasStatus status r = (r.final_status ≡ status) ⊎ (r.final_status ≡ text "FAILED")

or_failed-status :
    (status : Text) (e : Option Text) (ending : Ending)
    → (ending.0 ≡ status) ⊎ (ending.0 ≡ text "FAILED")
    → ((or_failed e ending).0 ≡ status) ⊎ ((or_failed e ending).0 ≡ text "FAILED")
unfolding or_failed
or_failed-status status none ending h = h
or_failed-status status (some e) ending h = inr refl

complete-HasStatus :
    (io : Io) (status message : Text) (partial : Bool) (r : Recorder)
    → HasStatus status (complete io status message partial r)
unfolding complete record_ending
complete-HasStatus io status message partial r =
    or_failed-status status (prune_rolling io 0 (finish_segment io partial r).1).0 _
      (or_failed-status status (finish_segment io partial r).0 (status, message) (inl refl))

-- The recorder does not roll, and its recording is truncated.
abbrev IsTruncated : Recorder → Type 0
IsTruncated r = (r.final_status ≡ text "TRUNCATED") × (r.rolling ≡ false)

-- The statuses with which an event can end the loop.
abbrev pub Ends : Event → Loop → Recorder → Type 0
Ends (received b) l r = IsTruncated r ⊎ (r.final_status ≡ text "FAILED")
Ends flush_tick l r = IsTruncated r ⊎ (r.final_status ≡ text "FAILED")
Ends sync_tick l r = r.final_status ≡ text "FAILED"
Ends interrupted l r = HasStatus (text "PARTIAL") r
Ends dropped l r = ⊥
Ends (Run.closed true pending) l r = HasStatus (text "PARTIAL") r
Ends (Run.closed false pending) l r =
    if l.dropped || (l.listens && pending)
    then HasStatus (text "PARTIAL") r
    else HasStatus (text "COMPLETED") r

-- What holds of the recorder, where the round ends the loop.
abbrev EndsWith : (Recorder → Type 0) → Round → Type 0
EndsWith Q (running l) = Unit
EndsWith Q (ended r) = Q r
EndsWith Q panicked = Unit

abbrev OrFailed : (Recorder → Type 0) → Recorder → Type 0
OrFailed Q r = Q r ⊎ (r.final_status ≡ text "FAILED")

complete-failed :
    (io : Io) (message : Text) (partial : Bool) (r : Recorder)
    → (complete io (text "FAILED") message partial r).final_status ≡ text "FAILED"
complete-failed io message partial r =
    same (complete-HasStatus io (text "FAILED") message partial r)
  where
    same :
        HasStatus (text "FAILED") (complete io (text "FAILED") message partial r)
        → (complete io (text "FAILED") message partial r).final_status ≡ text "FAILED"
    same (inl h) = h
    same (inr h) = h

pub FixedSize-Kept : Kept (λ r. r.rolling ≡ false)
unfolding count_packet record_ending keep_segment open_segment
FixedSize-Kept = record {
  counts = λ p f written r o h. h;
  keeps = λ io partial size f r o h. h;
  empties = λ f r o z h. h;
  drops = λ s ss r rolls l h. h;
  stores = λ r h. h;
  opens = λ io r o h. ground arith;
  truncates = λ r h. h;
  ends = λ now e r h. h;
}

IsTruncated-OrFailed :
    (r : Recorder) → HasStatus (text "TRUNCATED") r → r.rolling ≡ false → OrFailed IsTruncated r
IsTruncated-OrFailed r (inl h) fixed = inl (h, fixed)
IsTruncated-OrFailed r (inr h) fixed = inr h

truncate-IsTruncated :
    (io : Io) (r : Recorder) → r.rolling ≡ false → OrFailed IsTruncated (truncate io r)
unfolding truncate
truncate-IsTruncated io r h =
    let marked = record r { metadata = record r.metadata { truncated = true } } in
    let message = text "max_session_size_reached" in
    IsTruncated-OrFailed (complete io (text "TRUNCATED") message false marked)
      (complete-HasStatus io (text "TRUNCATED") message false marked)
      (complete-Kept (λ r. r.rolling ≡ false) FixedSize-Kept io (text "TRUNCATED") message false
        marked h)

fail_or_run-fails :
    (last : Io) (l : Loop) (s : Stepped)
    → EndsWith (λ r. r.final_status ≡ text "FAILED") (fail_or_run last l s)
unfolding fail_or_run
fail_or_run-fails last l (none, r) = tt
fail_or_run-fails last l (some e, r) = complete-failed last e true r

rotate_full-fails :
    (Q : Recorder → Type 0) (io last : Io) (l : Loop) (r : Recorder)
    → EndsWith (OrFailed Q) (rotate_full io last l r)
unfolding rotate_full
rotate_full-fails Q io last l r =
    if_elim (EndsWith (OrFailed Q)) (reached_segment_limit r)
      (λ _. weaken (fail_or_run last l (rotate io r)) (fail_or_run-fails last l (rotate io r)))
      (λ _. tt)
  where
    weaken :
        (q : Round) → EndsWith (λ r. r.final_status ≡ text "FAILED") q → EndsWith (OrFailed Q) q
    weaken (running m) h = tt
    weaken (ended r) h = inr h
    weaken panicked h = tt

-- Only a recorder that does not roll reaches the limit of a session.
abbrev LimitFixed : Written × Recorder → Type 0
LimitFixed (limit_reached, r) = r.rolling ≡ false
LimitFixed (all_written, r) = Unit
LimitFixed (write_failed e, r) = Unit
LimitFixed (nil_writer, r) = Unit

abbrev PacketFixed : Packeted → Type 0
PacketFixed (return w r) = LimitFixed (w, r)
PacketFixed (next r) = Unit

rotated-fixed : (s : Stepped) → PacketFixed (rotated s)
rotated-fixed (none, r) = tt
rotated-fixed (some e, r) = tt

packet_counted-fixed :
    (io : Io) (last : Bool) (r : Recorder) → PacketFixed (packet_counted io last r)
unfolding packet_counted
packet_counted-fixed io last r =
    if_elim PacketFixed (not r.rolling && reached_session_limit r) (λ h. ground (arith, h))
      (λ _.
        if_elim PacketFixed (not last && reached_segment_limit r) (λ _. rotated-fixed (rotate io r))
          (λ _. tt))

write_packet-fixed :
    (io : Io) (last : Bool) (p : Packet) (r : Recorder) → PacketFixed (write_packet io last p r)
unfolding write_packet
write_packet-fixed io last p r = opened r.file refl
  where
    wrote :
        (f : OpenFile) (w : Result Text ℕ)
        → r.file ≡ some f
        → io.write_packet r.sequence f.written p ≡ w
        → PacketFixed (write_packet io last p r)
    wrote f (err e) o q = rw (o, q, write_packet) tt
    wrote f (ok n) o q =
        rw (o, q, write_packet) (packet_counted-fixed io last (count_packet p f n r))

    opened : (o : Option OpenFile) → r.file ≡ o → PacketFixed (write_packet io last p r)
    opened none o = rw (o, write_packet) tt
    opened (some f) o = wrote f (io.write_packet r.sequence f.written p) o refl

go_on-fixed :
    (f : Recorder → Written × Recorder) (q : Packeted)
    → PacketFixed q
    → ((r : Recorder) → LimitFixed (f r))
    → LimitFixed (go_on f q)
go_on-fixed f (return w r) h rest = h
go_on-fixed f (next r) h rest = rest r

write_packets-fixed :
    (io : Io) (ps : List Packet) (r : Recorder) → LimitFixed (write_packets io ps r)
unfolding write_packets
write_packets-fixed io [] r = tt
write_packets-fixed io (p ∷ ps) r =
    go_on-fixed (write_packets io ps) (write_packet io (is_last ps) p r)
      (write_packet-fixed io (is_last ps) p r) (write_packets-fixed io ps)

batch_written-Ends :
    (io last : Io) (l : Loop) (w : Written × Recorder)
    → LimitFixed w
    → EndsWith (OrFailed IsTruncated) (batch_written io last l w)
unfolding batch_written
batch_written-Ends io last l (all_written, r) h = rotate_full-fails IsTruncated io last l r
batch_written-Ends io last l (limit_reached, r) h = truncate-IsTruncated last r h
batch_written-Ends io last l (write_failed e, r) h = inr (complete-failed last e true r)
batch_written-Ends io last l (nil_writer, r) h = tt

flushed-Ends :
    (io last : Io) (l : Loop) (e : Option Text)
    → EndsWith (OrFailed IsTruncated) (flushed io last l e)
unfolding flushed
flushed-Ends io last l (some e) = inr (complete-failed last e true l.recorder)
flushed-Ends io last l none =
    if_elim (EndsWith (OrFailed IsTruncated))
      (not l.recorder.rolling && reached_session_limit l.recorder)
      (λ h. truncate-IsTruncated last l.recorder (ground (arith, h)))
      (λ _. rotate_full-fails IsTruncated io last l l.recorder)

end_of_batches-status :
    (last : Io) (r : Recorder) (lost : Bool)
    → if lost
      then HasStatus (text "PARTIAL") (end_of_batches last false lost r)
      else HasStatus (text "COMPLETED") (end_of_batches last false lost r)
unfolding end_of_batches
end_of_batches-status last r true =
    complete-HasStatus last (text "PARTIAL") (text "recording queue overflow") true r
end_of_batches-status last r false = complete-HasStatus last (text "COMPLETED") [] false r

on_event-EndsWith :
    (io last : Io) (e : Event) (l : Loop) → EndsWith (Ends e l) (on_event io last e l)
unfolding on_event end_of_batches
on_event-EndsWith io last (received b) l =
    batch_written-Ends io last l (write_packets io b.packets l.recorder)
      (write_packets-fixed io b.packets l.recorder)
on_event-EndsWith io last flush_tick l = flushed-Ends io last l (flush io l.recorder)
on_event-EndsWith io last sync_tick l = fail_or_run-fails last l (sync io l.recorder, l.recorder)
on_event-EndsWith io last interrupted l =
    complete-HasStatus last (text "PARTIAL") shutdown true l.recorder
on_event-EndsWith io last dropped l = tt
on_event-EndsWith io last (Run.closed true pending) l =
    complete-HasStatus last (text "PARTIAL") shutdown true l.recorder
on_event-EndsWith io last (Run.closed false pending) l =
    end_of_batches-status last l.recorder (l.dropped || (l.listens && pending))

-- The status with which an event ends a recording is FAILED, or else: at the end of the batches,
-- COMPLETED if the context is alive and no loss was seen or is pending, and PARTIAL otherwise; PARTIAL
-- at a shutdown; at a batch or a flush, TRUNCATED, and the recorder does not roll. A sync can end it
-- only as FAILED, and a loss does not end it.
pub on_event-Ends :
    (io last : Io) (e : Event) (l : Loop) (r : Recorder)
    → on_event io last e l ≡ ended r
    → Ends e l r
on_event-Ends io last e l r h = subst (EndsWith (Ends e l)) h (on_event-EndsWith io last e l)
