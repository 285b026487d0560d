-- ===== src/Session/Create/Prepared.antt =====
-- Create of internal/application/session/service.go: what is true of a session before anything starts.
use cap_mesh.Prelude.{
  ℕ, ◌+◌, ◌*◌, ◌≤◌, ◌≡◌, refl, ◌⊎◌, true, List, [], arith, Result, ok, err, OkThen, OkThen-bind,
  OkThen-self, All, length, is_ok,
}
use cap_mesh.Domain.{
  CaptureTarget, CaptureSource, Session, SessionStatus, SessionMode, normal, continuous,
}
use cap_mesh.Domain
use cap_mesh.Session.Targets.Shaped.{IsShaped, normalize_targets-IsShaped}
use cap_mesh.Session.Targets.Accepted.{IsAccepted, validate-IsAccepted}
use cap_mesh.Session.Targets.{
  Normalized, CreateInput, SessionError, normalize_targets, validate, second,
}
use cap_mesh.Session.Targets.Normal.{AreNormal, normalize_targets-AreNormal}
use cap_mesh.Session.Targets.Bounds.{IsBounded, validate-IsBounded}
use cap_mesh.Session.Sources.{Env, resolve_initial_sources}
use cap_mesh.Session.Sources.Resolve.{IsResolved, resolve_initial_sources-IsResolved}
use cap_mesh.Session.Sources.Nodes.{Increases, source_nodes-Increases}
use cap_mesh.Session.Create.{prepare, check_capacity, new_session}

-- The length of a session that is not continuous is between a second and a day.
abbrev pub EndsInTime : ℕ → Session → Type 0
EndsInTime now s =
    ((s.mode ≡ continuous) × (s.expires_at ≡ 0))
    ⊎ ((s.mode ≡ normal)
        × (now + second ≤ s.expires_at)
        × (s.expires_at ≤ now + 24 * 3600 * second))

abbrev pub IsPrepared : Env → (Session × List CaptureSource) → Type 0
IsPrepared env (s, sources) =
    (s.id ≡ env.new_id)
    × (s.status ≡ Domain.starting)
    × (1 ≤ s.snaplen)
    × (s.snaplen ≤ 65535)
    × (length s.filter ≤ 4096)
    × (1 ≤ length s.targets)
    × (length s.targets ≤ 110)
    × AreNormal [] s.targets
    × All IsAccepted s.targets
    × (s.reorder_window ≤ 5 * second)
    × EndsInTime env.now s
    × Increases s.nodes
    × IsResolved sources

new_session-IsPrepared :
    (env : Env) (input : CreateInput)
    → IsBounded input
    → AreNormal [] input.targets
    → All IsAccepted input.targets
    → (sources : List CaptureSource) → IsResolved sources
    → IsPrepared env (new_session env input sources, sources)
new_session-IsPrepared env input (b1, b2, b3, b4, b5, b6, b7, b8) targets accepted sources
      resolved =
    (
      refl,
      refl,
      b1,
      b2,
      b3,
      b4,
      b5,
      targets,
      accepted,
      b7,
      ground arith,
      source_nodes-Increases sources,
      resolved,
    )

-- A session that passes the checks of Create is STARTING under the new ID, has parameters within
-- their bounds and an end in time, lists its nodes in increasing order, and has sources that are
-- within the limits. Its targets have distinct nonempty IDs. Each is either an interface with a
-- canonical alias and at most 100 nodes, or a workload whose namespace and name are trimmed and not
-- empty, of kind statefulset or deployment, in direction egress, ingress or both, of 1 to 100 pods.
pub prepare-IsPrepared :
    (env : Env) (given : CreateInput) → OkThen (IsPrepared env) (prepare env given)
unfolding prepare
prepare-IsPrepared env given =
    OkThen-bind IsNormalized (IsPrepared env) (normalize_targets given) _
      (both (normalize_targets given) (normalize_targets-AreNormal given)
        (normalize_targets-IsShaped given))
      (λ n (normal_targets, shaped).
        let input : CreateInput = record given {
          targets = n.targets;
          logical_interface = n.logical_interface;
        } in
        OkThen-bind (λ u. is_ok (validate input) ≡ true) (IsPrepared env) (validate input) _
          (OkThen-self (validate input))
          (λ u valid.
            OkThen-bind (λ u. Unit {0}) (IsPrepared env) (check_capacity env input) _
              (any_ok (check_capacity env input))
              (λ u' always.
                OkThen-bind IsResolved (IsPrepared env) (resolve_initial_sources env n.targets) _
                  (resolve_initial_sources-IsResolved env n.targets)
                  (λ sources resolved.
                    new_session-IsPrepared env input (validate-IsBounded input valid) normal_targets
                      (validate-IsAccepted input normal_targets shaped valid) sources resolved))))
  where
    IsNormalized : Normalized → Type 0
    IsNormalized n = AreNormal [] n.targets × All IsShaped n.targets

    both :
        (r : Result SessionError Normalized)
        → OkThen (λ n. AreNormal [] n.targets) r
        → OkThen (λ n. All IsShaped n.targets) r
        → OkThen IsNormalized r
    both (ok n) a b = (a, b)
    both (err e) a b = tt

    any_ok : (r : Result SessionError (Unit {0})) → OkThen (λ u. Unit {0}) r
    any_ok (ok u) = tt
    any_ok (err e) = tt
