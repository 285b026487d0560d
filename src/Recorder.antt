-- ===== src/Recorder.antt =====
-- internal/adapter/recording/manager.go: sessionRecorder, which writes the batches of one session to
-- a row of segment files. The file system is the record Io; the metrics and the log are not modelled.
-- The sizes of files are sums that stay far below 2 ^ 63; the counters of packets and bytes wrap.
pub mod Segments
pub mod Load
pub mod Run
pub mod Keeps
pub mod Rounds
pub mod Counts
pub mod Retained
pub mod Outcome
pub mod Tests
use cap_mesh.Prelude.{
  ℕ, zero, suc, ◌+◌, ◌-◌, ◌%◌, ◌^◌, ◌≡◌, Bool, true, false, not, ◌&&◌, ◌||◌, List, [], ◌∷◌, ◌++◌,
  Option, none, some, if◌then◌else◌, Result, ok, err, ltb, leb, ◌==◌, is_some, length,
}
use cap_mesh.Text.{Text, text, decimal}
use cap_mesh.Domain.{CaptureTarget, Packet, Time}

-- segmentMetadata
pub record Segment : Type 0 where
  pub sequence : ℕ
  pub file : Text
  pub size : ℕ
  pub packet_count : ℕ
  pub captured_bytes : ℕ
  pub started_at : Time
  pub finished_at : Time

pub record Metadata : Type 0 where
  pub session_id : Text
  pub status : Text
  pub nodes : List Text
  pub interface_alias : Text
  pub targets : List CaptureTarget
  pub filter : Text
  pub snaplen : ℕ
  pub started_at : Time
  pub finished_at : Option Time
  pub total_file_size : ℕ
  pub packet_count : ℕ
  pub captured_bytes : ℕ
  pub truncated : Bool
  pub error : Text
  pub segments : List Segment

-- The file of the segment that is written, with BytesWritten of its writer. The fields file, writer
-- and counter of the source are set and reset together.
pub record OpenFile : Type 0 where
  pub name : Text
  pub written : ℕ

pub record Recorder : Type 0 where
  pub segment_size : ℕ
  pub max_session_size : ℕ
  pub rolling : Bool
  pub run_id : Text
  pub metadata : Metadata
  pub sequence : ℕ
  pub file : Option OpenFile
  pub segment_start : Time
  pub segment_pkts : ℕ
  pub segment_bytes : ℕ
  pub retained_size : ℕ
  pub segment_count : ℕ
  pub final_status : Text
  pub final_error : Text

-- What the calls of one event meet, by the sequence number of the segment. `write_packet` gives the
-- bytes written after a packet, from those before it; a missing file is no error of `remove`. The
-- calls of the two tickers are apart from those of finishSegment.
pub record Io : Type 0 where
  pub now : Time
  pub write_packet : ℕ → ℕ → Packet → Result Text ℕ
  pub flush : ℕ → Option Text
  pub sync : ℕ → Option Text
  pub close : ℕ → Option Text
  pub rename : ℕ → Option Text
  pub stat : ℕ → Result Text ℕ
  pub open_file : ℕ → Option Text
  pub remove : Text → Option Text
  pub write_metadata : ℕ → Option Text
  pub tick_flush : Option Text
  pub tick_sync : Option Text

-- A method's error, and the recorder after it.
abbrev pub Stepped : Type 0
Stepped = Option Text × Recorder

-- `if err := ...; err != nil { return err }`
abbrev pub and_then : Stepped → (Recorder → Stepped) → Stepped
and_then (some e, r) f = (some e, r)
and_then (none, r) f = f r

unfoldable pub zeros : ℕ → Text
zeros zero = []
zeros (suc n) = 48 ∷ zeros n

-- `%06d`
unfoldable pub padded : ℕ → Text
unfolding zeros decimal
padded n = zeros (6 - length (decimal n)) ++ decimal n

unfoldable pub segment_name : Bool → Bool → Recorder → Text
unfolding padded
segment_name part partial r =
    (if r.rolling
      then text "trace-" ++ (r.run_id ++ (text "-" ++ padded r.sequence))
      else text "capture-" ++ padded r.sequence)
    ++ ((if partial then text ".partial" else [])
        ++ (text ".pcapng" ++ (if part then text ".part" else [])))

-- `x + y` of a uint64
unfoldable pub add64 : ℕ → ℕ → ℕ
add64 x y = (x + y) % 2 ^ 64

unfoldable pub reached_segment_limit : Recorder → Bool
reached_segment_limit r = elim r.file [
  | none ↦ false
  | some f ↦ ltb 0 r.segment_size && leb r.segment_size f.written
]

unfoldable pub reached_session_limit : Recorder → Bool
reached_session_limit r = elim r.file [
  | none ↦ false
  | some f ↦
      ltb 0 r.max_session_size && leb r.max_session_size (r.metadata.total_file_size + f.written)
]

unfoldable pub open_segment : Io → Recorder → Stepped
unfolding segment_name
open_segment io r =
    let s = record r { sequence = suc r.sequence } in
    elim (io.open_file s.sequence) [
      | some e ↦ (some (text "create recording segment: " ++ e), s)
      | none ↦ (
        none,
        record s {
          file = some (record { name = segment_name true false s; written = 0 });
          segment_start = io.now;
          segment_pkts = 0;
          segment_bytes = 0;
        },
      )
    ]

abbrev pub closed : Recorder → Recorder
closed r = record r { file = none }

abbrev pub store_usage : Recorder → Recorder
store_usage r = record r {
  retained_size = r.metadata.total_file_size;
  segment_count = length r.metadata.segments;
}

-- The segment that finishSegment adds to the metadata, of the size that Stat gives.
unfoldable pub finished : Io → Bool → ℕ → Recorder → Segment
unfolding segment_name
finished io partial size r = record {
  sequence = r.sequence;
  file = segment_name false partial r;
  size = size;
  packet_count = r.segment_pkts;
  captured_bytes = r.segment_bytes;
  started_at = r.segment_start;
  finished_at = io.now;
}

unfoldable pub keep_segment : Io → Bool → ℕ → Recorder → Recorder
unfolding finished
keep_segment io partial size r =
    let added = record r {
      metadata = record r.metadata {
        total_file_size = r.metadata.total_file_size + size;
        segments = r.metadata.segments ++ (finished io partial size r ∷ []);
      };
    } in
    closed (store_usage added)

-- A failing call's error, with what the source puts before it.
abbrev pub failing : Text → Option Text → Recorder → Stepped
failing prefix none r = (none, r)
failing prefix (some e) r = (some (prefix ++ e), r)

unfoldable pub stat_segment : Io → Bool → Recorder → Stepped
unfolding keep_segment
stat_segment io partial r = elim (io.stat r.sequence) [
  | err e ↦ (some (text "stat recording segment: " ++ e), r)
  | ok size ↦ (none, keep_segment io partial size r)
]

unfoldable pub finish_written : Io → Bool → Recorder → Stepped
unfolding stat_segment
finish_written io partial r = and_then (failing [] (io.flush r.sequence) r) (λ r.
    and_then (failing (text "sync recording segment: ") (io.sync r.sequence) r) (λ r.
      and_then (failing (text "close recording segment: ") (io.close r.sequence) r) (λ r.
        and_then (failing (text "finalize recording segment: ") (io.rename r.sequence) r)
          (stat_segment io partial))))

-- A segment without a packet is removed.
unfoldable pub finish_segment : Io → Bool → Recorder → Stepped
unfolding finish_written
finish_segment io partial r = elim r.file [
  | none ↦ (none, r)
  | some f ↦
      if r.segment_pkts == 0
      then failing (text "remove empty recording segment: ") (io.remove f.name) (closed r)
      else finish_written io partial r
]

abbrev pub drop_oldest : Segment → List Segment → Recorder → Recorder
drop_oldest oldest rest r = record r {
  metadata = record r.metadata {
    total_file_size = r.metadata.total_file_size - oldest.size;
    segments = rest;
  };
}

-- The loop of pruneOldest over the segments, oldest first; its last round stores the usage.
unfoldable pub prune_segments : Io → ℕ → List Segment → Recorder → Stepped
prune_segments io reserve [] r = (none, store_usage r)
prune_segments io reserve (oldest ∷ rest) r =
    elim (leb (r.metadata.total_file_size + reserve) r.max_session_size) [
      | true ↦ (none, store_usage r)
      | false ↦ elim (io.remove oldest.file) [
        | some e ↦ (
          some (text "delete oldest continuous segment " ++ (oldest.file ++ (text ": " ++ e))),
          r,
        )
        | none ↦ prune_segments io reserve rest (drop_oldest oldest rest r)
      ]
    ]

unfoldable pub prune_oldest : Io → ℕ → Recorder → Stepped
unfolding prune_segments
prune_oldest io reserve r =
    if not r.rolling || (r.max_session_size == 0)
    then (none, r)
    else prune_segments io reserve r.metadata.segments r

unfoldable pub prune_rolling : Io → ℕ → Recorder → Stepped
unfolding prune_oldest
prune_rolling io reserve r = if r.rolling then prune_oldest io reserve r else (none, r)

unfoldable pub rotate : Io → Recorder → Stepped
unfolding finish_segment prune_rolling open_segment
rotate io r = and_then (finish_segment io false r) (λ r.
    and_then (prune_rolling io r.segment_size r)
      (λ r. and_then (failing [] (io.write_metadata r.sequence) r) (open_segment io)))
