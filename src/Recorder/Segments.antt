-- ===== src/Recorder/Segments.antt =====
-- internal/adapter/recording/manager.go: the segments and the sizes in the metadata, and what the
-- methods that finish, prune and open segments keep of them.
use cap_mesh.Prelude.{
  ℕ, ◌+◌, ◌≡◌, ◌≤◌, refl, ◌⊎◌, inl, inr, Bool, true, false, not, ◌||◌, List, [], ◌∷◌, ◌++◌, Option,
  none, some, Result, ok, err, leb, ◌==◌, arith, if_elim,
}
use cap_mesh.Text.{Text, text}
use cap_mesh.Recorder.{
  Segment, OpenFile, Recorder, Io, Stepped, and_then, failing, closed, store_usage, drop_oldest,
  stat_segment, keep_segment, finish_written, finish_segment, prune_segments, prune_oldest,
}

abbrev pub sizes : List Segment → ℕ
sizes [] = 0
sizes (s ∷ ss) = s.size + sizes ss

pub sizes-append : (ss ts : List Segment) → sizes (ss ++ ts) ≡ sizes ss + sizes ts
sizes-append [] ts = omega arith
sizes-append (s ∷ ss) ts = omega (arith, sizes-append ss ts)

-- What holds of the recorder after a method.
abbrev pub After {κ} : (Recorder → Type κ) → Stepped → Type κ
After P (e, r) = P r

pub failing_rule {κ} :
    (Q : Stepped → Type κ) (prefix : Text) (o : Option Text) (r : Recorder) (f : Recorder → Stepped)
    → ((e : Text) → Q (some e, r))
    → Q (f r)
    → Q (and_then (failing prefix o r) f)
failing_rule Q prefix none r f failed rest = rest
failing_rule Q prefix (some e) r f failed rest = failed (prefix ++ e)

failing_any {κ} :
    (Q : Stepped → Type κ) (prefix : Text) (o : Option Text) (r : Recorder)
    → ((e : Option Text) → Q (e, r))
    → Q (failing prefix o r)
failing_any Q prefix none r q = q none
failing_any Q prefix (some e) r q = q (some (prefix ++ e))

-- After finishSegment the recorder is as it was, or its file is gone, empty or kept as a segment.
-- Without an error the file is gone.
module _ {κ} (io : Io) (partial : Bool) (r : Recorder) (Q : Stepped → Type κ)
    (failed : (e : Text) → Q (some e, r))
    (kept : (f : OpenFile) (size : ℕ)
      → r.file ≡ some f
      → Q (none, keep_segment io partial size r)) where
  finish_written_rule : (f : OpenFile) → r.file ≡ some f → Q (finish_written io partial r)
  unfolding finish_written stat_segment
  finish_written_rule f open_ = failing_rule Q [] (io.flush r.sequence) r _ failed (
      failing_rule Q (text "sync recording segment: ") (io.sync r.sequence) r _ failed (
        failing_rule Q (text "close recording segment: ") (io.close r.sequence) r _ failed (
          failing_rule Q (text "finalize recording segment: ") (io.rename r.sequence) r _ failed
            (stated (io.stat r.sequence) refl))))
    where
      stated : (s : Result Text ℕ) → io.stat r.sequence ≡ s → Q (stat_segment io partial r)
      stated (err e) h = rw (h, stat_segment) (failed (text "stat recording segment: " ++ e))
      stated (ok size) h = rw (h, stat_segment) (kept f size open_)

  pub finish_segment_rule :
      (r.file ≡ none → Q (none, r))
      → ((f : OpenFile) (e : Option Text) → r.file ≡ some f → r.segment_pkts ≡ 0 → Q (e, closed r))
      → Q (finish_segment io partial r)
  unfolding finish_segment
  finish_segment_rule idle emptied = opened r.file refl
    where
      opened : (o : Option OpenFile) → r.file ≡ o → Q (finish_segment io partial r)
      opened none h = rw (h, finish_segment) (idle h)
      opened (some f) h =
          rw (h, finish_segment)
            (if_elim Q (r.segment_pkts == 0)
              (λ z.
                failing_any Q (text "remove empty recording segment: ") (io.remove f.name)
                  (closed r) (λ e. emptied f e h (ground (arith, z))))
              (λ _. finish_written_rule f h))

-- The loop of pruneOldest: what dropping the oldest segment keeps holds where it stops, because a
-- file could not be removed, because the total fits, or because no segment is left.
module _ {κ ι} (io : Io) (reserve : ℕ) (P : Recorder → Type κ) (Q : Stepped → Type ι)
    (drops : (s : Segment) (ss : List Segment) (r : Recorder)
      → r.metadata.segments ≡ s ∷ ss
      → P r
      → P (drop_oldest s ss r))
    (failed : (e : Text) (r : Recorder) → P r → Q (some e, r))
    (fits : (r : Recorder)
      → P r
      → (r.metadata.segments ≡ []) ⊎ (r.metadata.total_file_size + reserve ≤ r.max_session_size)
      → Q (none, store_usage r)) where
  prune_segments_rule :
      (ss : List Segment) (r : Recorder)
      → r.metadata.segments ≡ ss
      → P r
      → Q (prune_segments io reserve ss r)
  unfolding prune_segments
  prune_segments_rule [] r e p = fits r p (inl e)
  prune_segments_rule (s ∷ ss) r e p =
      fitting (leb (r.metadata.total_file_size + reserve) r.max_session_size) refl
        (prune_segments_rule ss (drop_oldest s ss r) refl (drops s ss r e p))
    where
      removing :
          (o : Option Text)
          → io.remove s.file ≡ o
          → Q (prune_segments io reserve ss (drop_oldest s ss r))
          → leb (r.metadata.total_file_size + reserve) r.max_session_size ≡ false
          → Q (prune_segments io reserve (s ∷ ss) r)
      removing none h q f = rw (f, h, prune_segments) q
      removing (some e) h q f = rw (f, h, prune_segments) (failed _ r p)

      fitting :
          (b : Bool)
          → leb (r.metadata.total_file_size + reserve) r.max_session_size ≡ b
          → Q (prune_segments io reserve ss (drop_oldest s ss r))
          → Q (prune_segments io reserve (s ∷ ss) r)
      fitting true f q = rw (f, prune_segments) (fits r p (inr (ground (arith, f))))
      fitting false f q = removing (io.remove s.file) refl q f

  pub prune_oldest_rule :
      (r : Recorder)
      → P r
      → ((not r.rolling || (r.max_session_size == 0)) ≡ true → Q (none, r))
      → Q (prune_oldest io reserve r)
  unfolding prune_oldest
  prune_oldest_rule r p idle =
      if_elim Q (not r.rolling || (r.max_session_size == 0)) idle
        (λ _. prune_segments_rule r.metadata.segments r refl p)
