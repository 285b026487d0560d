-- ===== src/Recorder/Retained.antt =====
-- internal/adapter/recording/manager.go: the size that a continuous recording keeps.
use cap_mesh.Prelude.{
  ℕ, ◌+◌, ◌≡◌, ◌≤◌, refl, ◌⊎◌, inl, inr, Bool, true, false, List, [], Option, none, some, is_some,
  arith, if_elim,
}
use cap_mesh.Text.{Text, text}
use cap_mesh.Recorder.{
  Segment, Recorder, Io, Stepped, and_then, failing, open_segment, keep_segment, finish_segment,
  prune_rolling, rotate,
}
use cap_mesh.Recorder.Segments.{sizes, finish_segment_rule, prune_oldest_rule, failing_rule}
use cap_mesh.Recorder.Run.{
  count_packet, or_failed, record_ending, Loop, Event, Runs, on_event, complete,
}
use cap_mesh.Recorder.Keeps.{Kept, Guides}
use cap_mesh.Recorder.Rounds.{Runs-Kept, RoundHolds}
use cap_mesh.Recorder.Counts.{IsExact, keep_segment-IsExact, drop_oldest-IsExact}

-- A continuous recorder: Start has checked its limits.
abbrev pub IsRolling : Recorder → Type 0
IsRolling r =
    IsExact r
    × (r.rolling ≡ true)
    × (1 ≤ r.max_session_size)
    × (r.segment_size ≤ r.max_session_size)

-- Its file is open, and a full segment still fits.
abbrev pub HasRoom : Recorder → Type 0
HasRoom r =
    (is_some r.file ≡ true) × (r.metadata.total_file_size + r.segment_size ≤ r.max_session_size)

abbrev pub IsWithin : Recorder → Type 0
IsWithin r = (r.metadata.total_file_size ≤ r.max_session_size) ⊎ (r.final_status ≡ text "FAILED")

pub IsRolling-Kept : Kept IsRolling
unfolding count_packet record_ending keep_segment open_segment
IsRolling-Kept = record {
  counts = λ p f written r o h. h;
  keeps = λ io partial size f r o (e, rolls, h, j).
      (keep_segment-IsExact io partial size r e, rolls, h, j);
  empties = λ f r o z h. h;
  drops = λ s ss r _ l (e, rolls, h, j). (drop_oldest-IsExact s ss r l e, rolls, h, j);
  stores = λ r (e, rolls, h, j). ((e.0, omega arith, omega arith), rolls, h, j);
  opens = λ io r o h. ground arith;
  truncates = λ r h. h;
  ends = λ now e r h. h;
}

-- The room that a successful pruneOldest makes. The size of a segment stays `n`.
abbrev pub Makes : ℕ → ℕ → Stepped → Type 0
Makes n reserve (e, r) =
    (IsRolling r × (r.segment_size ≡ n))
    × (e ≡ none
        → reserve ≤ r.max_session_size
        → r.metadata.total_file_size + reserve ≤ r.max_session_size)

sizes_none : (ss : List Segment) → ss ≡ [] → sizes ss ≡ 0
sizes_none ss e = rw e refl

pub prune_rolling-Makes :
    (io : Io) (n reserve : ℕ) (r : Recorder)
    → IsRolling r
    → r.segment_size ≡ n
    → Makes n reserve (prune_rolling io reserve r)
unfolding prune_rolling
prune_rolling-Makes io n reserve r h same =
    if_elim (Makes n reserve) r.rolling
      (λ _.
        prune_oldest_rule io reserve (λ q. IsRolling q × (q.segment_size ≡ n)) (Makes n reserve)
          (λ s ss q l ((e, rolls, h, j), k). ((drop_oldest-IsExact s ss q l e, rolls, h, j), k))
          (λ e q hq. (hq, λ f. absurd (cc)))
          (λ q ((e, rolls, h, j), k) fits.
            ((((e.0, omega arith, omega arith), rolls, h, j), k), λ f small. roomy q e fits small))
          r (h, same) (λ idle. absurd (ground (arith, h.1, h.2, idle))))
      (λ fixed. absurd (ground (arith, fixed, h.1)))
  where
    roomy :
        (q : Recorder)
        → IsExact q
        → (q.metadata.segments ≡ []) ⊎ (q.metadata.total_file_size + reserve ≤ q.max_session_size)
        → reserve ≤ q.max_session_size
        → q.metadata.total_file_size + reserve ≤ q.max_session_size
    roomy q e (inl none_left) small =
        omega (arith, e.0, sizes_none q.metadata.segments none_left, small)
    roomy q e (inr fits) small = fits

-- What a rotation makes, where it succeeds.
abbrev pub Rotated : Stepped → Type 0
Rotated (e, r) = e ≡ none → HasRoom r

pub open_segment-Rotated :
    (io : Io) (r : Recorder)
    → r.metadata.total_file_size + r.segment_size ≤ r.max_session_size
    → Rotated (open_segment io r)
unfolding open_segment
open_segment-Rotated io r fits h = ground (arith, fits)

-- The parts of rotate after pruneOldest, and after finishSegment.
pruned-Rotated :
    (io : Io) (n : ℕ) (s : Stepped)
    → Makes n n s
    → Rotated
        (and_then s (λ r. and_then (failing [] (io.write_metadata r.sequence) r) (open_segment io)))
pruned-Rotated io n (some e, r) makes = λ f. absurd (cc)
pruned-Rotated io n (none, r) ((h, same), makes) =
    failing_rule Rotated [] (io.write_metadata r.sequence) r (open_segment io) (λ e f. absurd (cc))
      (open_segment-Rotated io r (omega (arith, same, h.3, makes refl (omega (arith, same, h.3)))))

rotate-HasRoom :
    (io : Io) (r : Recorder) → IsRolling r → (rotate io r).0 ≡ none → HasRoom (rotate io r).1
unfolding rotate
rotate-HasRoom io r h = finished_ (finish_segment io false r) (
    finish_segment_rule io false r (λ s. IsRolling s.1) (λ e. h)
      (λ f size o. IsRolling-Kept.keeps io false size f r o h) (λ o. h) (λ f e o z. h))
  where
    finished_ :
        (s : Stepped)
        → IsRolling s.1
        → Rotated (
            and_then s (λ r.
              and_then
                (prune_rolling io r.segment_size r)
                (λ r. and_then (failing [] (io.write_metadata r.sequence) r) (open_segment io))))
    finished_ (some e, q) hq = λ f. absurd (cc)
    finished_ (none, q) hq =
        pruned-Rotated io q.segment_size (prune_rolling io q.segment_size q)
          (prune_rolling-Makes io q.segment_size q.segment_size q hq refl)

-- Of the two errors of complete, the one of pruneOldest comes last.
record_ending-IsWithin :
    (io : Io) (status message : Text) (e : Option Text) (n : ℕ) (s : Stepped)
    → Makes n 0 s
    → IsWithin (record_ending io.now (or_failed s.0 (or_failed e (status, message))) s.1)
unfolding record_ending or_failed
record_ending-IsWithin io status message e n (none, r) (h, makes) =
    inl (omega (arith, makes refl (omega arith)))
record_ending-IsWithin io status message e n (some f, r) (h, makes) = inr refl

complete-IsWithin :
    (io : Io) (status message : Text) (partial : Bool) (r : Recorder)
    → IsRolling r
    → IsWithin (complete io status message partial r)
unfolding complete
complete-IsWithin io status message partial r h =
    let s = finish_segment io partial r in
    record_ending-IsWithin io status message s.0 s.1.segment_size (prune_rolling io 0 s.1) (
      prune_rolling-Makes io s.1.segment_size 0 s.1
        (finish_segment_rule io partial r (λ s. IsRolling s.1) (λ e. h)
          (λ f size o. IsRolling-Kept.keeps io partial size f r o h) (λ o. h) (λ f e o z. h))
        refl)

pub HasRoom-Guides : Guides IsRolling HasRoom IsWithin
unfolding count_packet
HasRoom-Guides = record {
  has_file = λ r room. room.0;
  counted = λ p f written r h room. (refl, room.1);
  rotates = rotate-HasRoom;
  completes = complete-IsWithin;
}

-- A continuous recording, in every round of its loop and with any failures of the file system: while
-- it goes on, its file is open, and the segments that it keeps leave room for a full one within the
-- maximum. When it is complete, what it keeps is within the maximum, or its status is FAILED.
pub Runs-IsWithin :
    {l m : Loop} (io last : Io) (e : Event)
    → IsRolling l.recorder
    → HasRoom l.recorder
    → Runs l m
    → RoundHolds IsRolling HasRoom IsWithin (on_event io last e m)
Runs-IsWithin = Runs-Kept IsRolling HasRoom IsWithin IsRolling-Kept HasRoom-Guides
