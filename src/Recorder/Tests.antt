-- ===== src/Recorder/Tests.antt =====
-- internal/adapter/recording/manager.go: tests of sessionRecorder, with a file system of fixed sizes.
use cap_mesh.Prelude.{
  ◌+◌, ◌≡◌, refl, true, false, List, [], ◌∷◌, some, none, ok, inr, is_some, arith,
}
use cap_mesh.Text.{Text, text}
use cap_mesh.Domain.{Packet, no_source}
use cap_mesh.Recorder.{Segment, Metadata, Recorder, Io, segment_name}
use cap_mesh.Recorder.Run.{
  Event, received, closed, flush_tick, Loop, ended, on_event, Runs, one_more, no_rounds,
}
use cap_mesh.Recorder.Run
use cap_mesh.Recorder.Rounds.{RoundHolds}
use cap_mesh.Recorder.Counts.{IsAccounted, Runs-IsAccounted}
use cap_mesh.Recorder.Retained.{IsRolling, HasRoom, IsWithin, Runs-IsWithin}
use cap_mesh.Recorder.Outcome.{Ends, on_event-Ends}

-- A packet takes 100 bytes, and a file has 210 when it is closed. Every other call has no error.
abbrev pub disk : Io
disk = record {
  now = 9;
  write_packet = λ n written p. ok (written + 100);
  flush = λ n. none;
  sync = λ n. none;
  close = λ n. none;
  rename = λ n. none;
  stat = λ n. ok 210;
  open_file = λ n. none;
  remove = λ name. none;
  write_metadata = λ n. none;
  tick_flush = none;
  tick_sync = none;
}

-- A disk on which nothing can be removed.
abbrev stuck : Io
stuck = record disk { remove = λ name. some (text "busy") }

abbrev metadata : Metadata
metadata = record {
  session_id = text "s";
  status = text "RECORDING";
  nodes = [];
  interface_alias = [];
  targets = [];
  filter = [];
  snaplen = 0;
  started_at = 1;
  finished_at = none;
  total_file_size = 0;
  packet_count = 0;
  captured_bytes = 0;
  truncated = false;
  error = [];
  segments = [];
}

abbrev fixed : Recorder
fixed = record {
  segment_size = 200;
  max_session_size = 500;
  rolling = false;
  run_id = text "run";
  metadata = metadata;
  sequence = 1;
  file = some (record { name = text "capture-000001.pcapng.part"; written = 0 });
  segment_start = 1;
  segment_pkts = 0;
  segment_bytes = 0;
  retained_size = 0;
  segment_count = 0;
  final_status = [];
  final_error = [];
}

abbrev rolling : Recorder
rolling = record fixed { rolling = true }

abbrev loop : Recorder → Loop
loop r = record { recorder = r; dropped = false; listens = true }

abbrev packet : Packet
packet = record {
  timestamp = 1;
  captured_length = 60;
  original_length = 60;
  link_type = 1;
  sequence_number = 1;
  payload = [];
}

abbrev pub batch : List Packet → Event
batch ps = received (record {
  session_id = text "s";
  node_name = text "n";
  interface_name = text "eth0";
  source = no_source;
  packets = ps;
})

abbrev pub five : List Packet
five = packet ∷ packet ∷ packet ∷ packet ∷ packet ∷ []

-- The names of the segments of a recorder.
abbrev files : List Segment → List Text
files [] = []
files (s ∷ ss) = s.file ∷ files ss

name_padded : segment_name true true fixed ≡ text "capture-000001.partial.pcapng.part"
unfolding segment_name
name_padded = refl

fixed-IsAccounted : IsAccounted fixed
fixed-IsAccounted = ((refl, omega arith, omega arith), inr refl)

rolling-IsRolling : IsRolling rolling
rolling-IsRolling = ((refl, omega arith, omega arith), refl, omega arith, omega arith)

flushes : (r : Recorder) → Runs (loop r) (loop r)
flushes r = no_rounds

-- After five packets, whose segments are full at two: the session's limit is reached at the fifth.
abbrev ended_truncated : Recorder
unfolding on_event
ended_truncated = elim (on_event disk disk (batch five) (loop fixed)) [
  | ended r ↦ r
  | Run.running l ↦ fixed
  | Run.panicked ↦ fixed
]

truncated_at : ended_truncated.final_status ≡ text "TRUNCATED"
unfolding on_event
truncated_at = refl

Runs-IsAccounted_example :
    RoundHolds IsAccounted
      (λ r. is_some r.file ≡ true)
      IsAccounted
      (on_event disk stuck (batch five) (loop fixed))
Runs-IsAccounted_example =
    Runs-IsAccounted disk stuck (batch five) fixed-IsAccounted refl (flushes fixed)

Runs-IsWithin_example :
    RoundHolds IsRolling HasRoom IsWithin (on_event stuck stuck (batch five) (loop rolling))
Runs-IsWithin_example =
    Runs-IsWithin stuck stuck (batch five) rolling-IsRolling (refl, omega arith) (flushes rolling)

on_event-Ends_example : Ends (batch five) (loop fixed) ended_truncated
unfolding on_event
on_event-Ends_example = on_event-Ends disk disk (batch five) (loop fixed) ended_truncated refl
