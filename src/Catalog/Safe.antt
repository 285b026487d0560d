-- ===== src/Catalog/Safe.antt =====
-- internal/adapter/recording/catalog.go: what CleanSessionRecordings deletes.
use cap_mesh.Prelude.{
  ℕ, ◌+◌, ◌-◌, ◌≡◌, ◌≤◌, ◌<◌, refl, sym, ◌∙◌, ◌⊎◌, inl, inr, Bool, true, false, not, List, [], ◌∷◌,
  ◌++◌, Option, none, some, Result, ok, err, leb, if_elim, Bool-cases, arith, ap, subst,
}
use mathlib.Core.List.{append-nil, append_assoc}
use cap_mesh.Text.{Text, text, text_eq, text_eq_iff}
use cap_mesh.Manager.{joined}
use cap_mesh.Catalog.Refuses.{Refuses, removal_error-Refuses}
use cap_mesh.Domain.{Session}
use cap_mesh.Recovery.{RecoveryState, RecoveryError, not_exist, read_recovery}
use cap_mesh.Catalog.{RecordingInfo, Scanned}
use cap_mesh.Catalog.Scan.{total}
use cap_mesh.Catalog.Cleanup.{
  DeleteIo, CleanupResult, recovery_refuses, validate_deletion_candidate, removal_error,
  remove_item, delete_item, fail_item, clean_item, clean_items,
}

-- The state to recover does not ask for the session.
abbrev pub DoesNotRun : Result RecoveryError (RecoveryState Session) → Type 0
DoesNotRun (ok s) = text_eq s.desired_state (text "RUNNING") ≡ false
DoesNotRun (err e) = e ≡ not_exist

-- When it is deleted, the directory lies in the root, and the session is not active and does not wait
-- for its recovery.
abbrev pub IsRemoved : Text → DeleteIo → Scanned → Type 0
IsRemoved root io s =
    (io.active s.info.session_id ≡ false)
    × (s.path ≡ root ++ (b'/' ∷ s.info.directory))
    × DoesNotRun (read_recovery (io.recovery s.path))
    × (io.remove_all s.path ≡ none)

-- A cleanup of recordings in an order, `n` bytes in all: it stops at the target or at the end, passes
-- over what is not deletable or, where it does delete, is refused, and deletes all else.
pub data Cleans (root : Text) (io : DeleteIo) (dry : Bool) (target : ℕ)
    : ℕ → List Scanned → List RecordingInfo → Type 0 where
  reached : {n : ℕ} {ss : List Scanned} → n ≤ target → Cleans root io dry target n ss []
  finished : {n : ℕ} → target < n → Cleans root io dry target n [] []
  passed :
      {n : ℕ} {s : Scanned} {ss : List Scanned} {is : List RecordingInfo}
      → target < n
      → (s.info.deletable ≡ false) ⊎ ((dry ≡ false) × Refuses root io s)
      → Cleans root io dry target n ss is
      → Cleans root io dry target n (s ∷ ss) is
  deleted :
      {n : ℕ} {s : Scanned} {ss : List Scanned} {is : List RecordingInfo}
      → target < n
      → s.info.deletable ≡ true
      → (dry ≡ true) ⊎ IsRemoved root io s
      → Cleans root io dry target (n - s.info.size_bytes) ss is
      → Cleans root io dry target n (s ∷ ss) (s.info ∷ is)

recovery_refuses-none :
    (r : Result RecoveryError (RecoveryState Session)) → recovery_refuses r ≡ none → DoesNotRun r
unfolding recovery_refuses
recovery_refuses-none (ok s) h = ground arith
recovery_refuses-none (err not_exist) h = refl
recovery_refuses-none (err e) h = cc

removal_error-none :
    (root : Text) (io : DeleteIo) (s : Scanned)
    → removal_error root io s ≡ none
    → IsRemoved root io s
unfolding removal_error validate_deletion_candidate
removal_error-none root io s h =
    let active : io.active s.info.session_id ≡ false = ground arith in
    let inside : text_eq (joined root s.info.directory) s.path ≡ true = ground arith in
    let refuses : recovery_refuses (read_recovery (io.recovery s.path)) ≡ none = ground arith in
    let removed : io.remove_all s.path ≡ none = ground arith in
    (
      active,
      sym ((text_eq_iff (joined root s.info.directory) s.path).0 inside),
      recovery_refuses-none (read_recovery (io.recovery s.path)) refuses,
      removed,
    )

abbrev pub sum_sizes : List RecordingInfo → ℕ
sum_sizes [] = 0
sum_sizes (i ∷ is) = i.size_bytes + sum_sizes is

-- What the loop adds to its result.
abbrev Adds : Text → DeleteIo → List Scanned → CleanupResult → CleanupResult → Type 0
Adds root io ss r q =
    (is : List RecordingInfo) × Cleans root io r.dry_run r.target_size r.size_after ss is
    × (q.deleted ≡ r.deleted ++ is)
    × (q.deleted_size ≡ r.deleted_size + sum_sizes is)
    × (total ss ≤ r.size_after → q.size_after + sum_sizes is ≡ r.size_after)
    × (q.dry_run ≡ r.dry_run)
    × (q.target_size ≡ r.target_size)

-- What a round leaves: nothing but failures, or the item deleted.
abbrev Rounds : Text → DeleteIo → Scanned → CleanupResult → CleanupResult → Type 0
Rounds root io s r q =
    (((s.info.deletable ≡ false) ⊎ ((r.dry_run ≡ false) × Refuses root io s))
      × (q.deleted ≡ r.deleted)
      × (q.deleted_size ≡ r.deleted_size)
      × (q.size_after ≡ r.size_after)
      × (q.dry_run ≡ r.dry_run)
      × (q.target_size ≡ r.target_size))
    ⊎ ((s.info.deletable ≡ true)
        × ((r.dry_run ≡ true) ⊎ IsRemoved root io s)
        × (q ≡ delete_item s r))

clean_item-Rounds :
    (root : Text) (io : DeleteIo) (s : Scanned) (r : CleanupResult)
    → Rounds root io s r (clean_item root io s r)
unfolding clean_item
clean_item-Rounds root io s r =
    if_elim (Rounds root io s r) (not s.info.deletable)
      (λ fixed. inl (inl (ground (arith, fixed)), refl, refl, refl, refl, refl))
      (λ deletable.
        if_elim (Rounds root io s r) r.dry_run
          (λ dry. inr (ground (arith, deletable), inl dry, refl))
          (λ wet. tried (removal_error root io s) refl (ground (arith, deletable)) wet))
  where
    tried :
        (o : Option Text)
        → removal_error root io s ≡ o
        → s.info.deletable ≡ true
        → r.dry_run ≡ false
        → Rounds root io s r (remove_item s o r)
    tried none e deletable wet =
        unfold remove_item in inr (deletable, inr (removal_error-none root io s e), refl)
    tried (some f) e deletable wet =
        unfold remove_item in
        unfold fail_item in
        inl (inr (wet, removal_error-Refuses root io s f e), refl, refl, refl, refl, refl)

pub Cleans-same :
    {root : Text} {io : DeleteIo} {d d' : Bool} {t t' n n' : ℕ} {ss : List Scanned}
    {is : List RecordingInfo}
    → d' ≡ d
    → t' ≡ t
    → n' ≡ n
    → Cleans root io d' t' n' ss is
    → Cleans root io d t n ss is
Cleans-same {root} {io} {d} {t = t} {t'} {n' = n'} {ss} {is} e f g c =
    subst (λ x. Cleans root io d t x ss is) g
      (subst (λ x. Cleans root io d x n' ss is) f (subst (λ x. Cleans root io x t' n' ss is) e c))

pub clean_items-Adds :
    (root : Text) (io : DeleteIo) (ss : List Scanned) (r : CleanupResult)
    → Adds root io ss r (clean_items root io ss r)
unfolding clean_items delete_item
clean_items-Adds root io [] r = elim (Bool-cases (leb r.size_after r.target_size)) [
  | inl low ↦ (
    [],
    reached (ground (arith, low)),
    sym (append-nil r.deleted),
    omega arith,
    (λ h. omega arith),
    refl,
    refl,
  )
  | inr high ↦ (
    [],
    finished (ground (arith, high)),
    sym (append-nil r.deleted),
    omega arith,
    (λ h. omega arith),
    refl,
    refl,
  )
]
clean_items-Adds root io (s ∷ ss) r =
    if_elim (Adds root io (s ∷ ss) r) (leb r.size_after r.target_size)
      (λ low. (
        [],
        reached (ground (arith, low)),
        sym (append-nil r.deleted),
        omega arith,
        (λ h. omega arith),
        refl,
        refl,
      ))
      (λ high.
        went (clean_item root io s r) (clean_item-Rounds root io s r) (ground (arith, high))
          (clean_items-Adds root io ss (clean_item root io s r)))
  where
    went :
        (q : CleanupResult)
        → Rounds root io s r q
        → r.target_size < r.size_after
        → Adds root io ss q (clean_items root io ss q)
        → Adds root io (s ∷ ss) r (clean_items root io ss q)
    went q (inl (why, deleted_, size, after, dry, target)) high
          (is, cleans, d, n, left, dry', target') =
        (
          is,
          passed high why (Cleans-same dry target after cleans),
          d ∙ ap (λ l. l ++ is) deleted_,
          omega (arith, n, size),
          (λ h. omega (arith, after, left (omega (arith, h, after)))),
          dry' ∙ dry,
          target' ∙ target,
        )
    went q (inr (deletable, why, same)) high (is, cleans, d, n, left, dry', target') =
        let dry : q.dry_run ≡ r.dry_run = ap (λ (x : CleanupResult). x.dry_run) same in
        let target : q.target_size ≡ r.target_size =
          ap (λ (x : CleanupResult). x.target_size) same in
        let after : q.size_after ≡ r.size_after - s.info.size_bytes =
          ap (λ (x : CleanupResult). x.size_after) same in
        let size : q.deleted_size ≡ r.deleted_size + s.info.size_bytes =
          ap (λ (x : CleanupResult). x.deleted_size) same in
        let more : q.deleted ≡ r.deleted ++ (s.info ∷ []) =
          ap (λ (x : CleanupResult). x.deleted) same in
        (
          s.info ∷ is,
          deleted high deletable why (Cleans-same dry target after cleans),
          d ∙ ap (λ l. l ++ is) more ∙ append_assoc r.deleted (s.info ∷ []) is,
          omega (arith, n, size),
          (λ h. omega (arith, h, after, left (omega (arith, h, after)))),
          dry' ∙ dry,
          target' ∙ target,
        )
