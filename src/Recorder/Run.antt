-- ===== src/Recorder/Run.antt =====
-- internal/adapter/recording/manager.go: writeBatch, complete, and the loop of run as a step on the
-- events of its select.
use cap_mesh.Prelude.{
  ℕ, ◌≡◌, Bool, true, false, not, ◌&&◌, ◌||◌, List, [], ◌∷◌, ◌++◌, Option, none, some,
  if◌then◌else◌, ok, err,
}
use cap_mesh.Text.{Text, text, is_empty}
use cap_mesh.Domain.{Packet, PacketBatch, Time}
use cap_mesh.Recorder.{
  OpenFile, Recorder, Io, Stepped, add64, reached_segment_limit, reached_session_limit,
  finish_segment, prune_rolling, rotate,
}

-- What writeBatch returns. A packet without a writer dereferences nil.
pub data Written : Type 0 where
  all_written limit_reached nil_writer : Written
  write_failed : Text → Written

-- What the loop of writeBatch does after a packet.
pub data Packeted : Type 0 where
  return : Written → Recorder → Packeted
  next : Recorder → Packeted

-- The counters after a packet, and BytesWritten.
unfoldable pub count_packet : Packet → OpenFile → ℕ → Recorder → Recorder
unfolding add64
count_packet p f written r = record r {
  file = some (record f { written = written });
  segment_pkts = add64 r.segment_pkts 1;
  segment_bytes = add64 r.segment_bytes p.captured_length;
  metadata = record r.metadata {
    packet_count = add64 r.metadata.packet_count 1;
    captured_bytes = add64 r.metadata.captured_bytes p.captured_length;
  };
}

abbrev pub rotated : Stepped → Packeted
rotated (some e, r) = return (write_failed e) r
rotated (none, r) = next r

unfoldable pub packet_counted : Io → Bool → Recorder → Packeted
unfolding reached_session_limit reached_segment_limit rotate
packet_counted io last r =
    if not r.rolling && reached_session_limit r
    then return limit_reached r
    else if not last && reached_segment_limit r
    then rotated (rotate io r)
    else next r

unfoldable pub write_packet : Io → Bool → Packet → Recorder → Packeted
unfolding packet_counted count_packet
write_packet io last p r = elim r.file [
  | none ↦ return nil_writer r
  | some f ↦ elim (io.write_packet r.sequence f.written p) [
    | err e ↦ return (write_failed e) r
    | ok written ↦ packet_counted io last (count_packet p f written r)
  ]
]

abbrev pub is_last : List Packet → Bool
is_last [] = true
is_last (p ∷ ps) = false

abbrev pub go_on : (Recorder → Written × Recorder) → Packeted → Written × Recorder
go_on f (return w r) = (w, r)
go_on f (next r) = f r

unfoldable pub write_packets : Io → List Packet → Recorder → Written × Recorder
unfolding write_packet
write_packets io [] r = (all_written, r)
write_packets io (p ∷ ps) r = go_on (write_packets io ps) (write_packet io (is_last ps) p r)

-- The status and the message of complete: an error makes FAILED of any status.
abbrev pub Ending : Type 0
Ending = Text × Text

unfoldable pub or_failed : Option Text → Ending → Ending
or_failed none ending = ending
or_failed (some e) (status, message) =
    (text "FAILED", if is_empty message then e else message ++ (text "; " ++ e))

unfoldable pub record_ending : Time → Ending → Recorder → Recorder
record_ending now (status, message) r = record r {
  metadata = record r.metadata { status = status; error = message; finished_at = some now };
  final_status = status;
  final_error = message;
}

-- That the last writeMetadata fails is only logged.
unfoldable pub complete : Io → Text → Text → Bool → Recorder → Recorder
unfolding finish_segment prune_rolling or_failed record_ending
complete io status message partial r =
    let (finish_error, closed) = finish_segment io partial r in
    let (prune_error, pruned) = prune_rolling io 0 closed in
    record_ending io.now (or_failed prune_error (or_failed finish_error (status, message))) pruned

-- The events of the select. `closed` is the end of the batches, with whether the context is done and
-- whether a loss is pending.
pub data Event : Type 0 where
  received : PacketBatch → Event
  closed : Bool → Bool → Event
  dropped : Event
  flush_tick sync_tick interrupted : Event

-- `dropped`, and whether droppedChannel is not nil.
pub record Loop : Type 0 where
  pub recorder : Recorder
  pub dropped : Bool
  pub listens : Bool

-- A round: the loop goes on, the recorder is complete, or the goroutine panics.
pub data Round : Type 0 where
  running : Loop → Round
  ended : Recorder → Round
  panicked : Round

abbrev pub shutdown : Text
shutdown = text "recording interrupted by server shutdown"

abbrev keep : Loop → Recorder → Loop
keep l r = record l { recorder = r }

-- `last` is what the calls of complete meet.
unfoldable pub fail_or_run : Io → Loop → Stepped → Round
unfolding complete
fail_or_run last l (some e, r) = ended (complete last (text "FAILED") e true r)
fail_or_run last l (none, r) = running (keep l r)

unfoldable pub rotate_full : Io → Io → Loop → Recorder → Round
unfolding fail_or_run rotate reached_segment_limit
rotate_full io last l r =
    if reached_segment_limit r then fail_or_run last l (rotate io r) else running (keep l r)

unfoldable pub truncate : Io → Recorder → Recorder
unfolding complete
truncate last r =
    complete last (text "TRUNCATED") (text "max_session_size_reached") false
      (record r { metadata = record r.metadata { truncated = true } })

unfoldable pub batch_written : Io → Io → Loop → Written × Recorder → Round
unfolding complete truncate rotate_full
batch_written io last l (write_failed e, r) = ended (complete last (text "FAILED") e true r)
batch_written io last l (limit_reached, r) = ended (truncate last r)
batch_written io last l (nil_writer, r) = panicked
batch_written io last l (all_written, r) = rotate_full io last l r

-- The method flush does nothing without a writer.
unfoldable pub flush : Io → Recorder → Option Text
flush io r = elim r.file [ none ↦ none | some f ↦ io.tick_flush ]

unfoldable pub sync : Io → Recorder → Option Text
unfolding flush
sync io r = elim (flush io r) [
  | some e ↦ some e
  | none ↦ elim r.file [ none ↦ none | some f ↦ io.tick_sync ]
]

unfoldable pub flushed : Io → Io → Loop → Option Text → Round
unfolding complete truncate rotate_full reached_session_limit
flushed io last l (some e) = ended (complete last (text "FAILED") e true l.recorder)
flushed io last l none =
    if not l.recorder.rolling && reached_session_limit l.recorder
    then ended (truncate last l.recorder)
    else rotate_full io last l l.recorder

unfoldable pub end_of_batches : Io → Bool → Bool → Recorder → Recorder
unfolding complete
end_of_batches last cancelled lost r =
    if cancelled
    then complete last (text "PARTIAL") shutdown true r
    else if lost
    then complete last (text "PARTIAL") (text "recording queue overflow") true r
    else complete last (text "COMPLETED") [] false r

unfoldable pub on_event : Io → Io → Event → Loop → Round
unfolding write_packets batch_written end_of_batches flushed flush sync fail_or_run complete
on_event io last (received b) l = batch_written io last l (write_packets io b.packets l.recorder)
on_event io last (closed cancelled pending) l =
    ended (end_of_batches last cancelled (l.dropped || (l.listens && pending)) l.recorder)
on_event io last dropped l = running (record l { dropped = true; listens = false })
on_event io last flush_tick l = flushed io last l (flush io l.recorder)
on_event io last sync_tick l = fail_or_run last l (sync io l.recorder, l.recorder)
on_event io last interrupted l = ended (complete last (text "PARTIAL") shutdown true l.recorder)

-- The rounds of a loop that goes on.
pub data Runs (l : Loop) : Loop → Type 0 where
  no_rounds : Runs l l
  one_more :
      {m n : Loop} (io last : Io) (e : Event)
      → Runs l m
      → on_event io last e m ≡ running n
      → Runs l n
