-- ===== src/Manager/Starts.antt =====
-- internal/adapter/recording/manager.go: the recorder that Start makes, and what a Start that fails
-- leaves.
use cap_mesh.Prelude.{
  ◌+◌, ◌≡◌, ◌≤◌, refl, ◌∙◌, ◌⊎◌, inl, inr, Bool, true, false, not, ◌||◌, Option, none, some,
  is_some, Result, ok, err, ◌>>◌, map_err, OkThen, OkThen-bind, OkThen-fail_if, ltb, arith, if_elim,
}
use cap_mesh.Text.{Text, text}
use cap_mesh.Domain.{Session}
use cap_mesh.Recorder.{Recorder, Stepped, Io, open_segment, prune_rolling}
use cap_mesh.Recorder.Keeps.{prune_rolling-Kept, prune_rolling-keeps, open_segment-opens}
use cap_mesh.Recorder.Counts.{IsAccounted, IsAccounted-Kept}
use cap_mesh.Recorder.Retained.{
  IsRolling, HasRoom, IsRolling-Kept, prune_rolling-Makes, open_segment-Rotated,
}
use cap_mesh.Recorder.Outcome.{FixedSize-Kept}
use cap_mesh.Recorder.Load.{load_existing_segments}
use cap_mesh.Recorder.Load.Existing.{IsFresh, Loads, load_existing_segments-Loads}
use cap_mesh.Manager.{
  Config, ManagerError, StartIo, joined, rolls, no_rolling_sizes, segment_too_large, mkdir_failed,
  subscribe_failed, recorder_failed,
}
use cap_mesh.Manager.Start.{
  call, rolling_directory, normal_directory, session_directory, new_recorder, stepped, set_up,
}

-- A recorder that goes on: its file is open and it is in order; if it rolls, a full segment fits.
abbrev pub IsSound : Recorder → Type 0
IsSound r =
    IsAccounted r × (is_some r.file ≡ true) × ((r.rolling ≡ false) ⊎ (IsRolling r × HasRoom r))

-- The limits that Start checks for a recorder that rolls.
abbrev pub HasLimits : Config → Bool → Type 0
HasLimits c rolling =
    (rolling ≡ false) ⊎ ((1 ≤ c.max_session_size) × (c.segment_size ≤ c.max_session_size))

call_rule :
    {A : Type 0} (P : A → Type 0) (f : Text → ManagerError) (o : Option Text)
    (r : Result ManagerError A)
    → OkThen P r
    → OkThen P (call f o >> r)
call_rule P f none r h = h
call_rule P f (some e) r h = tt

rolling_directory-limits :
    (c : Config) (env : StartIo)
    → OkThen
        (λ (t : Text). (1 ≤ c.max_session_size) × (c.segment_size ≤ c.max_session_size))
        (rolling_directory c env)
unfolding rolling_directory
rolling_directory-limits c env =
    let P = λ (t : Text). (1 ≤ c.max_session_size) × (c.segment_size ≤ c.max_session_size) in
    let directory = joined c.directory (text "continuous") in
    OkThen-fail_if P (not (ltb 0 c.segment_size) || not (ltb 0 c.max_session_size)) no_rolling_sizes
      _
      (λ sized.
        OkThen-fail_if P (ltb c.max_session_size c.segment_size) segment_too_large _ (λ small.
          call_rule P mkdir_failed (env.mkdir directory) (ok directory)
            (ground (arith, sized), ground (arith, small))))

pub session_directory-HasLimits :
    (c : Config) (env : StartIo) (s : Session)
    → OkThen (λ (t : Text). HasLimits c (rolls s)) (session_directory c env s)
unfolding session_directory
session_directory-HasLimits c env s =
    if_elim (OkThen (λ (t : Text). HasLimits c (rolls s))) (rolls s)
      (λ _. limited (rolling_directory c env) (rolling_directory-limits c env))
      (λ fixed. weaken (normal_directory c env s) fixed)
  where
    limited :
        (r : Result ManagerError Text)
        → OkThen (λ (t : Text). (1 ≤ c.max_session_size) × (c.segment_size ≤ c.max_session_size)) r
        → OkThen (λ (t : Text). HasLimits c (rolls s)) r
    limited (ok t) h = inr h
    limited (err e) h = tt

    weaken :
        (r : Result ManagerError Text)
        → rolls s ≡ false
        → OkThen (λ (t : Text). HasLimits c (rolls s)) r
    weaken (ok t) fixed = inl fixed
    weaken (err e) fixed = tt

stepped_rule : (P : Recorder → Type 0) (s : Stepped) → (s.0 ≡ none → P s.1) → OkThen P (stepped s)
stepped_rule P (none, r) h = h refl
stepped_rule P (some e, r) h = tt

-- Before its first segment is open.
abbrev IsReady : Recorder → Type 0
IsReady r =
    IsAccounted r
    × (r.file ≡ none)
    × ((r.rolling ≡ false)
        ⊎ (IsRolling r × (r.metadata.total_file_size + r.segment_size ≤ r.max_session_size)))

new_recorder-IsFresh : (c : Config) (env : StartIo) (s : Session) → IsFresh (new_recorder c env s)
unfolding new_recorder
new_recorder-IsFresh c env s = (refl, refl, refl)

-- What the loaded recorder has of the session and the limits.
loaded-limits :
    (c : Config) (env : StartIo) (s : Session) (r : Recorder)
    → HasLimits c (rolls s)
    → Loads (new_recorder c env s) r
    → (r.segment_size ≡ c.segment_size) × ((r.rolling ≡ false) ⊎ IsRolling r)
unfolding new_recorder
loaded-limits c env s r (inl fixed) (h, n, rolling, size, most, file) =
    (size, inl (rolling ∙ fixed))
loaded-limits c env s r (inr (some_most, small)) (h, n, rolling, size, most, file) =
    (size, which r.rolling refl)
  where
    which : (b : Bool) → r.rolling ≡ b → (r.rolling ≡ false) ⊎ IsRolling r
    which false e = inl e
    which true e = inr (h.0, e, omega (arith, most, some_most), omega (arith, most, size, small))

pruned-IsReady :
    (c : Config) (env : StartIo) (s : Session) (r : Recorder)
    → HasLimits c (rolls s)
    → Loads (new_recorder c env s) r
    → OkThen IsReady (stepped (prune_rolling env.io c.segment_size r))
unfolding new_recorder
pruned-IsReady c env s r limits loads =
    let (h, n, rolling, size, most, file) = loads in
    let (same, cases) = loaded-limits c env s r limits loads in
    let (accounted, closed) =
      prune_rolling-Kept IsAccounted IsAccounted-Kept env.io c.segment_size r h file in
    stepped_rule IsReady (prune_rolling env.io c.segment_size r)
      (λ done. (accounted, closed done, either cases same done))
  where
    either :
        (r.rolling ≡ false) ⊎ IsRolling r
        → r.segment_size ≡ c.segment_size
        → (prune_rolling env.io c.segment_size r).0 ≡ none
        → ((prune_rolling env.io c.segment_size r).1.rolling ≡ false)
          ⊎ (IsRolling (prune_rolling env.io c.segment_size r).1
              × ((prune_rolling env.io c.segment_size r).1.metadata.total_file_size
                    + (prune_rolling env.io c.segment_size r).1.segment_size
                  ≤ (prune_rolling env.io c.segment_size r).1.max_session_size))
    either (inl fixed) same done =
        inl (
          prune_rolling-keeps (λ r. r.rolling ≡ false) FixedSize-Kept env.io c.segment_size r fixed)
    either (inr rolls_) same done =
        let ((kept, size), makes) =
          prune_rolling-Makes env.io c.segment_size c.segment_size r rolls_ same in
        inr (kept, omega (arith, size, makes done (omega (arith, size, kept.3))))

opened-IsSound : (io : Io) (r : Recorder) → IsReady r → OkThen IsSound (stepped (open_segment io r))
opened-IsSound io r (accounted, closed, cases) = stepped_rule IsSound (open_segment io r) (λ done. (
  IsAccounted-Kept.opens io r closed accounted,
  open_segment-opens IsAccounted IsAccounted-Kept io r done,
  either cases done,
))
  where
    either :
        ((r.rolling ≡ false)
          ⊎ (IsRolling r × (r.metadata.total_file_size + r.segment_size ≤ r.max_session_size)))
        → (open_segment io r).0 ≡ none
        → ((open_segment io r).1.rolling ≡ false)
          ⊎ (IsRolling (open_segment io r).1 × HasRoom (open_segment io r).1)
    either (inl fixed) done = inl (FixedSize-Kept.opens io r closed fixed)
    either (inr (rolls_, room)) done =
        inr (IsRolling-Kept.opens io r closed rolls_, open_segment-Rotated io r room done)

pub set_up-IsSound :
    (c : Config) (env : StartIo) (s : Session) (directory : Text)
    → HasLimits c (rolls s)
    → OkThen IsSound (set_up c env s directory)
unfolding set_up
set_up-IsSound c env s directory limits =
    call_rule IsSound subscribe_failed (env.subscribe s.id) _ (
      OkThen-bind (Loads (new_recorder c env s)) IsSound _ _
        (mapped (load_existing_segments env.io (env.entries directory) (new_recorder c env s)) (
          load_existing_segments-Loads env.io (env.entries directory) (new_recorder c env s)
            (new_recorder-IsFresh c env s)))
        (λ loaded loads.
          OkThen-bind IsReady IsSound _ _ (pruned-IsReady c env s loaded limits loads)
            (λ pruned ready.
              call_rule IsSound recorder_failed (env.io.write_metadata pruned.sequence) _
                (opened-IsSound env.io pruned ready))))
  where
    mapped :
        (r : Result Text Recorder)
        → OkThen (Loads (new_recorder c env s)) r
        → OkThen (Loads (new_recorder c env s)) (map_err recorder_failed r)
    mapped (ok a) h = h
    mapped (err e) h = tt
