-- ===== src/Recorder/Counts.antt =====
-- internal/adapter/recording/manager.go: the sizes and the counters of a sessionRecorder.
use cap_mesh.Prelude.{
  ℕ, ◌+◌, ◌%◌, ◌^◌, ◌≡◌, ◌≤◌, refl, ap, ◌⊎◌, inl, inr, Bool, true, List, [], ◌∷◌, ◌++◌, Option,
  none, some, is_some, length, arith,
}
use cap_mesh.Domain.{Packet}
use cap_mesh.Recorder.{
  Segment, OpenFile, Recorder, Io, closed, drop_oldest, open_segment, finished, keep_segment,
}
use cap_mesh.Recorder.Run.{count_packet, record_ending, Loop, Event, Runs, on_event}
use cap_mesh.Recorder.Keeps.{Kept, Guides, rotate-Kept, complete-Kept}
use cap_mesh.Recorder.Rounds.{Runs-Kept, RoundHolds}
use cap_mesh.Recorder.Segments.{sizes, sizes-append}

-- The total is that of the segments, and the usage that is shown is not less.
abbrev pub IsExact : Recorder → Type 0
IsExact r =
    (r.metadata.total_file_size ≡ sizes r.metadata.segments)
    × (r.metadata.total_file_size ≤ r.retained_size)
    × (length r.metadata.segments ≤ r.segment_count)

pub keep_segment-IsExact :
    (io : Io) (partial : Bool) (size : ℕ) (r : Recorder)
    → IsExact r
    → IsExact (keep_segment io partial size r)
unfolding keep_segment finished
keep_segment-IsExact io partial size r (exact, shown, counted) = (
  omega (arith, exact, sizes-append r.metadata.segments (finished io partial size r ∷ [])),
  omega arith,
  omega arith,
)

pub drop_oldest-IsExact :
    (s : Segment) (ss : List Segment) (r : Recorder)
    → r.metadata.segments ≡ s ∷ ss
    → IsExact r
    → IsExact (drop_oldest s ss r)
drop_oldest-IsExact s ss r e (exact, shown, counted) =
    let total = ap sizes e in
    let count = ap (λ (l : List Segment). length l) e in
    (omega (arith, exact, total), omega (arith, shown), omega (arith, counted, count))

-- The packets of the segments.
abbrev pub packets : List Segment → ℕ
packets [] = 0
packets (s ∷ ss) = s.packet_count + packets ss

packets-append : (ss ts : List Segment) → packets (ss ++ ts) ≡ packets ss + packets ts
packets-append [] ts = omega arith
packets-append (s ∷ ss) ts = omega (arith, packets-append ss ts)

-- What the open file adds.
abbrev pub pending : Option OpenFile → ℕ → ℕ
pending none n = 0
pending (some f) n = n

-- A recorder that never prunes counts the packets in its segments and in the open file.
abbrev pub IsCounted : Recorder → Type 0
IsCounted r =
    (r.rolling ≡ true)
    ⊎ (r.metadata.packet_count
        ≡ (packets r.metadata.segments + pending r.file r.segment_pkts) % 2 ^ 64)

abbrev pub IsAccounted : Recorder → Type 0
IsAccounted r = IsExact r × IsCounted r

pending_some :
    (f : OpenFile) (r : Recorder) → r.file ≡ some f → pending r.file r.segment_pkts ≡ r.segment_pkts
pending_some f r o = rw o refl

count_packet-IsCounted :
    (p : Packet) (f : OpenFile) (written : ℕ) (r : Recorder)
    → r.file ≡ some f
    → IsCounted r
    → IsCounted (count_packet p f written r)
unfolding count_packet
count_packet-IsCounted p f written r o (inl rolls) = inl rolls
count_packet-IsCounted p f written r o (inr h) = inr (omega (arith, h, pending_some f r o))

keep_segment-IsCounted :
    (io : Io) (partial : Bool) (size : ℕ) (f : OpenFile) (r : Recorder)
    → r.file ≡ some f
    → IsCounted r
    → IsCounted (keep_segment io partial size r)
unfolding keep_segment finished
keep_segment-IsCounted io partial size f r o (inl rolls) = inl rolls
keep_segment-IsCounted io partial size f r o (inr h) = inr (
    omega (
      arith,
      h,
      pending_some f r o,
      packets-append r.metadata.segments (finished io partial size r ∷ []),
    ))

closed-IsCounted :
    (f : OpenFile) (r : Recorder)
    → r.file ≡ some f
    → r.segment_pkts ≡ 0
    → IsCounted r
    → IsCounted (closed r)
closed-IsCounted f r o z (inl rolls) = inl rolls
closed-IsCounted f r o z (inr h) = inr (omega (arith, h, z, pending_some f r o))

pending_none : (r : Recorder) → r.file ≡ none → pending r.file r.segment_pkts ≡ 0
pending_none r o = rw o refl

open_segment-IsCounted :
    (io : Io) (r : Recorder) → r.file ≡ none → IsCounted r → IsCounted (open_segment io r).1
unfolding open_segment
open_segment-IsCounted io r o (inl rolls) = ground (arith, rolls)
open_segment-IsCounted io r o (inr h) = ground (arith, h, pending_none r o)

pub open_segment-IsExact : (io : Io) (r : Recorder) → IsExact r → IsExact (open_segment io r).1
unfolding open_segment
open_segment-IsExact io r h = ground arith

pub IsAccounted-Kept : Kept IsAccounted
unfolding count_packet record_ending
IsAccounted-Kept = record {
  counts = λ p f written r o (e, c). (e, count_packet-IsCounted p f written r o c);
  keeps = λ io partial size f r o (e, c).
      (keep_segment-IsExact io partial size r e, keep_segment-IsCounted io partial size f r o c);
  empties = λ f r o z (e, c). (e, closed-IsCounted f r o z c);
  drops = λ s ss r rolls l (e, c). (drop_oldest-IsExact s ss r l e, inl rolls);
  stores = λ r (e, c). ((e.0, omega arith, omega arith), c);
  opens = λ io r o (e, c). (open_segment-IsExact io r e, open_segment-IsCounted io r o c);
  truncates = λ r h. h;
  ends = λ now e r h. h;
}

pub IsAccounted-Guides : Guides IsAccounted (λ r. is_some r.file ≡ true) IsAccounted
unfolding count_packet
IsAccounted-Guides = record {
  has_file = λ r one. one;
  counted = λ p f written r h one. refl;
  rotates = λ io r h. (rotate-Kept IsAccounted IsAccounted-Kept io r h).1;
  completes = complete-Kept IsAccounted IsAccounted-Kept;
}

-- In every round of the loop, from a recorder whose file is open and that is in order, with any
-- failures of the file system: no packet meets a nil writer, and a recorder that goes on has its file
-- open. Whether it goes on or is complete, its total size is that of its segments, the usage that it
-- shows is not less, and one that does not roll has counted the packets of its segments and of the
-- open file.
pub Runs-IsAccounted :
    {l m : Loop} (io last : Io) (e : Event)
    → IsAccounted l.recorder
    → is_some l.recorder.file ≡ true
    → Runs l m
    → RoundHolds IsAccounted (λ r. is_some r.file ≡ true) IsAccounted (on_event io last e m)
Runs-IsAccounted =
    Runs-Kept IsAccounted (λ r. is_some r.file ≡ true) IsAccounted IsAccounted-Kept
      IsAccounted-Guides
