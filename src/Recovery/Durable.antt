-- ===== src/Recovery/Durable.antt =====
-- readRecovery and writeRecovery of internal/adapter/recording/manager.go: what is read after a
-- write, a write that fails, and a crash in the middle of one.
use cap_mesh.Prelude.{◌≡◌, ◌<◌, ◌⊎◌, inl, inr, refl, Option, none, ok, arith, if_elim, ◌&&◌, not}
use cap_mesh.Recovery.{
  RecoveryState, Content, garbage, holds, Disk, RecoveryError, read_recovery, WriteIo, replace_file,
  write_recovery, Crash, untouched, torn, written, removed, renamed, is_absent,
}

module _ {ℓ} {A : Type ℓ} where
  -- The file alone has the state that is read.
  abbrev pub IsSettled : RecoveryState A → Disk A → Type ℓ
  IsSettled s d = (d.file ≡ holds s) × (read_recovery d ≡ ok s)

  -- Between the generations: what is read is the old state or the new one.
  abbrev pub IsOneOf : RecoveryState A → RecoveryState A → Disk A → Type ℓ
  IsOneOf old new d = (read_recovery d ≡ ok old) ⊎ (read_recovery d ≡ ok new)

  torn-old :
      (old : RecoveryState A) (d : Disk A)
      → d.file ≡ holds old
      → read_recovery (record d { part = garbage }) ≡ ok old
  unfolding read_recovery
  torn-old old d e = ground (arith, e)

  written-new :
      (old new : RecoveryState A) (f : Content A)
      → f ≡ holds old
      → old.generation < new.generation
      → read_recovery (record { file = f; part = holds new }) ≡ ok new
  unfolding read_recovery
  written-new old new f e h = ground (arith, e)

  -- A crash anywhere in a writeRecovery of a later generation, where the file itself has the state
  -- that is read: what is read afterwards is the old state or the new one.
  pub write_recovery-atomic :
      (old new : RecoveryState A) (d : Disk A) {after : Disk A}
      → IsSettled old d
      → old.generation < new.generation
      → Crash new d after
      → IsOneOf old new after
  unfolding read_recovery
  write_recovery-atomic old new d (e, r) h untouched = inl r
  write_recovery-atomic old new d (e, r) h torn = inl (torn-old old d e)
  write_recovery-atomic old new d (e, r) h written = inr (written-new old new d.file e h)
  write_recovery-atomic old new d (e, r) h removed = inr refl
  write_recovery-atomic old new d (e, r) h renamed = inr refl

  -- What a writeRecovery leaves is what a crash may leave, and without an error the new state.
  abbrev Outcome : RecoveryState A → Disk A → Option RecoveryError × Disk A → Type ℓ
  Outcome new d (e, after) = (e ≡ none → IsSettled new after) × Crash new d after

  replace_file-Outcome :
      (io : WriteIo) (new : RecoveryState A) (d : Disk A)
      → Outcome new d (replace_file io (record d { part = holds new }))
  unfolding replace_file read_recovery
  replace_file-Outcome io new d =
      if_elim (Outcome new d) (not io.removes && not (is_absent d.file))
        (λ _. ((λ e. absurd (ground (arith, e))), written))
        (λ _.
          if_elim (Outcome new d) (not io.renames)
            (λ _. ((λ e. absurd (ground (arith, e))), removed))
            (λ _. ((λ _. (refl, refl)), renamed)))

  write_recovery-Outcome :
      (io : WriteIo) (new : RecoveryState A) (d : Disk A) → Outcome new d (write_recovery io new d)
  unfolding write_recovery
  write_recovery-Outcome io new d =
      if_elim (Outcome new d) (not io.encodes) (λ _. ((λ e. absurd (ground (arith, e))), untouched))
        (λ _.
          if_elim (Outcome new d) (not io.writes)
            (λ _. (
              (λ e. absurd (ground (arith, e))),
              if_elim (Crash new d) io.tears (λ _. torn) (λ _. untouched),
            ))
            (λ _. replace_file-Outcome io new d))

  -- A writeRecovery of a later generation, where the file itself has the state that is read. Where it
  -- reports no error, the file has the new state, and that is what is read. In any case what is read
  -- is the old state or the new one.
  pub write_recovery-outcome :
      (io : WriteIo) (old new : RecoveryState A) (d : Disk A)
      → IsSettled old d
      → old.generation < new.generation
      → ((write_recovery io new d).0 ≡ none → IsSettled new (write_recovery io new d).1)
        × IsOneOf old new (write_recovery io new d).1
  unfolding write_recovery
  write_recovery-outcome io old new d (e, r) h =
      let (settles, crashed) = write_recovery-Outcome io new d in
      (settles, write_recovery-atomic old new d (e, r) h crashed)
