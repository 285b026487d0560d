-- ===== src/Recorder/Keeps.antt =====
-- internal/adapter/recording/manager.go: what every round of the loop of a sessionRecorder keeps, for
-- a predicate that the changes of its methods keep.
use cap_mesh.Prelude.{
  ℕ, ◌≡◌, refl, Bool, true, false, List, [], ◌∷◌, none, some, if_elim, is_some, arith,
}
use cap_mesh.Text.{Text}
use cap_mesh.Domain.{Packet, Time}
use cap_mesh.Recorder.{
  Segment, OpenFile, Recorder, Io, Stepped, and_then, closed, store_usage, drop_oldest,
  open_segment, keep_segment, finish_segment, prune_rolling, rotate,
}
use cap_mesh.Recorder.Segments.{finish_segment_rule, prune_oldest_rule, failing_rule}
use cap_mesh.Recorder.Run.{
  Written, all_written, limit_reached, nil_writer, write_failed, Packeted, return, next,
  count_packet, Ending, record_ending, complete,
}

-- The changes that the methods make to a recorder, and that they keep P.
pub record Kept (P : Recorder → Type 0) : Type 0 where
  pub counts :
      (p : Packet) (f : OpenFile) (written : ℕ) (r : Recorder)
      → r.file ≡ some f
      → P r
      → P (count_packet p f written r)
  pub keeps :
      (io : Io) (partial : Bool) (size : ℕ) (f : OpenFile) (r : Recorder)
      → r.file ≡ some f
      → P r
      → P (keep_segment io partial size r)
  pub empties :
      (f : OpenFile) (r : Recorder) → r.file ≡ some f → r.segment_pkts ≡ 0 → P r → P (closed r)
  pub drops :
      (s : Segment) (ss : List Segment) (r : Recorder)
      → r.rolling ≡ true
      → r.metadata.segments ≡ s ∷ ss
      → P r
      → P (drop_oldest s ss r)
  pub stores : (r : Recorder) → P r → P (store_usage r)
  pub opens : (io : Io) (r : Recorder) → r.file ≡ none → P r → P (open_segment io r).1
  pub truncates :
      (r : Recorder) → P r → P (record r { metadata = record r.metadata { truncated = true } })
  pub ends : (now : Time) (e : Ending) (r : Recorder) → P r → P (record_ending now e r)

-- What holds after a method that, without an error, leaves no file, or one.
abbrev pub LeavesNone : (Recorder → Type 0) → Stepped → Type 0
LeavesNone P (e, r) = P r × (e ≡ none → r.file ≡ none)

abbrev pub LeavesOne : (Recorder → Type 0) → Stepped → Type 0
LeavesOne P (e, r) = P r × (e ≡ none → is_some r.file ≡ true)

none-and_then :
    (P : Recorder → Type 0) (s : Stepped) (f : Recorder → Stepped)
    → LeavesNone P s
    → ((r : Recorder) → P r → r.file ≡ none → LeavesOne P (f r))
    → LeavesOne P (and_then s f)
none-and_then P (none, r) f (p, gone) q = q r p (gone refl)
none-and_then P (some e, r) f (p, gone) q = (p, λ h. absurd (cc))

module _ (P : Recorder → Type 0) (k : Kept P) where
  finish_segment-Kept :
      (io : Io) (partial : Bool) (r : Recorder) → P r → LeavesNone P (finish_segment io partial r)
  unfolding keep_segment
  finish_segment-Kept io partial r p =
      finish_segment_rule io partial r (LeavesNone P) (λ e. (p, λ h. absurd (cc)))
        (λ f size o. (k.keeps io partial size f r o p, λ _. refl)) (λ o. (p, λ _. o))
        (λ f e o z. (k.empties f r o z p, λ _. refl))

  pub prune_rolling-Kept :
      (io : Io) (reserve : ℕ) (r : Recorder)
      → P r
      → r.file ≡ none
      → LeavesNone P (prune_rolling io reserve r)
  unfolding prune_rolling
  prune_rolling-Kept io reserve r p gone =
      if_elim (LeavesNone P) r.rolling
        (λ rolls.
          prune_oldest_rule io reserve (λ q. P q × (q.file ≡ none) × (q.rolling ≡ true))
            (LeavesNone P) (λ s ss q e (pq, g, rq). (k.drops s ss q rq e pq, g, rq))
            (λ e q (pq, g, rq). (pq, λ _. g)) (λ q (pq, g, rq) fits. (k.stores q pq, λ _. g)) r
            (p, gone, rolls) (λ _. (p, λ _. gone)))
        (λ _. (p, λ _. gone))

  pub open_segment-opens :
      (io : Io) (r : Recorder)
      → (open_segment io r).0 ≡ none
      → is_some (open_segment io r).1.file ≡ true
  unfolding open_segment
  open_segment-opens io r h = ground arith

  pub rotate-Kept : (io : Io) (r : Recorder) → P r → LeavesOne P (rotate io r)
  unfolding rotate
  rotate-Kept io r p =
      none-and_then P (finish_segment io false r) _ (finish_segment-Kept io false r p) (λ q pq gone.
        none-and_then P (prune_rolling io q.segment_size q) _
          (prune_rolling-Kept io q.segment_size q pq gone)
          (λ u pu closed_.
            failing_rule (LeavesOne P) [] (io.write_metadata u.sequence) u (open_segment io)
              (λ e. (pu, λ h. absurd (cc))) (k.opens io u closed_ pu, open_segment-opens io u)))

  pub prune_rolling-keeps :
      (io : Io) (reserve : ℕ) (r : Recorder) → P r → P (prune_rolling io reserve r).1
  unfolding prune_rolling
  prune_rolling-keeps io reserve r p =
      if_elim (λ (s : Stepped). P s.1) r.rolling
        (λ rolls.
          prune_oldest_rule io reserve (λ q. P q × (q.rolling ≡ true)) (λ s. P s.1)
            (λ s ss q e (pq, rq). (k.drops s ss q rq e pq, rq)) (λ e q (pq, rq). pq)
            (λ q (pq, rq) fits. k.stores q pq) r (p, rolls) (λ _. p))
        (λ _. p)

  pub complete-Kept :
      (io : Io) (status message : Text) (partial : Bool) (r : Recorder)
      → P r
      → P (complete io status message partial r)
  unfolding complete
  complete-Kept io status message partial r p = k.ends io.now _ _ (
      prune_rolling-keeps io 0 (finish_segment io partial r).1
        (finish_segment-Kept io partial r p).0)

-- Beside P, which every change keeps: what holds of a recorder while its loop goes on, and when it is
-- complete.
pub record Guides (P R Q : Recorder → Type 0) : Type 0 where
  pub has_file : (r : Recorder) → R r → is_some r.file ≡ true
  pub counted :
      (p : Packet) (f : OpenFile) (written : ℕ) (r : Recorder)
      → P r
      → R r
      → R (count_packet p f written r)
  pub rotates : (io : Io) (r : Recorder) → P r → (rotate io r).0 ≡ none → R (rotate io r).1
  pub completes :
      (io : Io) (status message : Text) (partial : Bool) (r : Recorder)
      → P r
      → Q (complete io status message partial r)

-- What holds of writeBatch: P, and R where all is written. No packet meets a nil writer.
abbrev pub WrittenHolds : (P R : Recorder → Type 0) → Written × Recorder → Type 0
WrittenHolds P R (all_written, r) = P r × R r
WrittenHolds P R (limit_reached, r) = P r
WrittenHolds P R (write_failed e, r) = P r
WrittenHolds P R (nil_writer, r) = ⊥

abbrev pub PacketHolds : (P R : Recorder → Type 0) → Packeted → Type 0
PacketHolds P R (return w r) = WrittenHolds P R (w, r)
PacketHolds P R (next r) = P r × R r

abbrev pub StepHolds : (P R : Recorder → Type 0) → Stepped → Type 0
StepHolds P R (e, r) = P r × (e ≡ none → R r)
