-- ===== src/Session/Targets.antt =====
-- internal/application/session/service.go: the input of Create, normalizeTargets and validate.
-- The Go code writes the normalized fields through pointers that the caller's input shares; here the
-- normalized targets are new values.
pub mod Normal
pub mod Bounds
pub mod Shaped
pub mod Accepted
use cap_mesh.Prelude.{
  ℕ, zero, suc, ◌+◌, ◌-◌, ◌*◌, ◌/◌, ◌%◌, ◌≡◌, Bool, true, false, not, ◌&&◌, ◌||◌, List, [], ◌∷◌,
  ◌++◌, Option, none, some, ltb, leb, ◌==◌, if◌then◌else◌, length, is_some, Result, ok, err, ◌>>=◌,
  ◌>>◌, fail_if, map_err, ℤ, below, above,
}
use cap_mesh.Text.{Text, text, text_eq, is_empty, trim_space, to_lower, decimal, contains}
use cap_mesh.Ports.{PortError}
use cap_mesh.Domain.{CaptureTarget, InterfaceTarget, WorkloadTarget}
use cap_mesh.Alias

abbrev pub default_max_pods : ℕ
default_max_pods = 100

abbrev pub max_targets_per_session : ℕ
max_targets_per_session = 110

abbrev pub max_sources_per_node : ℕ
max_sources_per_node = 50

abbrev pub second : ℕ
second = 1000000000

pub record CreateInput : Type 0 where
  pub nodes : List Text
  pub logical_interface : Text
  pub targets : List CaptureTarget
  pub filter : Text
  pub snaplen : ℕ
  pub ttl : ℤ
  pub reorder_window : ℤ
  pub continuous : Bool

-- The errors of the service, one for each place that makes one. `nil_pointer` stands for the panic
-- of a nil dereference.
pub data SessionError : Type 0 where
  bad_alias bad_snaplen bad_ttl bad_reorder_window filter_too_long : SessionError
  no_targets too_many_targets no_resolver invalid_persisted expired : SessionError
  no_agents bad_status bad_mode bad_transition nil_pointer : SessionError
  duplicate_target not_one_type too_many_nodes no_namespace_or_name : Text → SessionError
  bad_kind bad_direction too_many_pods : Text → SessionError
  not_connected missing_target node_full too_many_resolved : Text → SessionError
  too_many_session_pods : ℕ → SessionError
  resolve_failed send_failed recorder_failed capacity_failed store_failed : Text → SessionError
  port : PortError → SessionError

pub record Normalized : Type 0 where
  pub targets : List CaptureTarget
  pub logical_interface : Text

unfoldable pub default_id : ℕ → CaptureTarget → CaptureTarget
unfolding decimal
default_id i t = if is_empty t.id then record t { id = text "target-" ++ decimal (i + 1) } else t

unfoldable pub normalize_workload : WorkloadTarget → WorkloadTarget
unfolding trim_space to_lower
normalize_workload w =
    let direction = to_lower (trim_space w.direction) in
    record {
      namespace = trim_space w.namespace;
      kind = to_lower (trim_space w.kind);
      name = trim_space w.name;
      direction = if is_empty direction then text "egress" else direction;
      follow = w.follow;
      max_pods = if w.max_pods == 0 then default_max_pods else w.max_pods;
    }

-- The body of the loop after the checks of the ID and the type: the target, and the session's
-- logical interface, which is the first one.
unfoldable pub normalize_target : Text → CaptureTarget → Result SessionError (CaptureTarget × Text)
unfolding normalize_workload Alias.normalize
normalize_target logical t = elim t.interface [
  | none ↦ ok (
    record t { workload = elim t.workload [ none ↦ none | some w ↦ some (normalize_workload w) ] },
    logical,
  )
  | some i ↦ map_err (λ _. bad_alias) (Alias.normalize i.logical_interface) >>= λ alias. ok (
    record t {
      interface = some (record i { logical_interface = alias });
      workload = elim t.workload [ none ↦ none | some w ↦ some (normalize_workload w) ];
    },
    if is_empty logical then alias else logical,
  )
]

abbrev add_target : CaptureTarget → Normalized → Normalized
add_target t n = record n { targets = t ∷ n.targets }

-- The loop over the targets, with its index and the IDs seen so far.
unfoldable pub normalize_loop :
    ℕ → List Text → Text → List CaptureTarget → Result SessionError Normalized
unfolding default_id contains normalize_target
normalize_loop i ids logical [] = ok (record { targets = []; logical_interface = logical })
normalize_loop i ids logical (given ∷ rest) = do
  let t = default_id i given
  fail_if (contains ids t.id) (duplicate_target t.id)
  fail_if
      (not (is_some t.interface) && not (is_some t.workload)
        || is_some t.interface && is_some t.workload)
      (not_one_type t.id)
  (t', logical') ← normalize_target logical t
  n ← normalize_loop (i + 1) (t.id ∷ ids) logical' rest
  ok (add_target t' n)

unfoldable pub normalize_targets : CreateInput → Result SessionError Normalized
unfolding normalize_loop Alias.normalize
normalize_targets input = elim input.targets [
  | [] ↦ map_err (λ _. bad_alias) (Alias.normalize input.logical_interface) >>= λ logical.
      ok (record {
        targets =
            record {
              id = text "legacy-interface";
              interface = some (record { nodes = input.nodes; logical_interface = logical });
              workload = none;
            }
            ∷ [];
        logical_interface = logical;
      })
  | _ ↦ normalize_loop 0 [] [] input.targets
]

unfoldable pub is_kind : Text → Bool
is_kind k = text_eq k (text "statefulset") || text_eq k (text "deployment")

unfoldable pub is_direction : Text → Bool
is_direction d = text_eq d (text "egress") || text_eq d (text "ingress") || text_eq d (text "both")

unfoldable pub validate_workload : Text → WorkloadTarget → Result SessionError (Unit {0})
unfolding is_kind is_direction
validate_workload id w = do
  fail_if (is_empty w.namespace || is_empty w.name) (no_namespace_or_name id)
  fail_if (not (is_kind w.kind)) (bad_kind id)
  fail_if (not (is_direction w.direction)) (bad_direction id)
  fail_if (ltb default_max_pods w.max_pods) (too_many_pods id)

-- The body of validate's loop.
unfoldable pub validate_target : CaptureTarget → Result SessionError (Unit {0})
unfolding validate_workload
validate_target t = elim t.interface [
  | some i ↦ fail_if (ltb 100 (length i.nodes)) (too_many_nodes t.id)
  | none ↦ elim t.workload [ none ↦ err nil_pointer | some w ↦ validate_workload t.id w ]
]

unfoldable pub validate_all : List CaptureTarget → Result SessionError (Unit {0})
unfolding validate_target
validate_all [] = ok tt
validate_all (t ∷ ts) = validate_target t >> validate_all ts

unfoldable pub validate : CreateInput → Result SessionError (Unit {0})
unfolding validate_all
validate input = do
  fail_if (ltb input.snaplen 1 || ltb 65535 input.snaplen) bad_snaplen
  fail_if (not input.continuous && (below input.ttl second || above input.ttl (24 * 3600 * second)))
      bad_ttl
  fail_if (below input.reorder_window 0 || above input.reorder_window (5 * second))
      bad_reorder_window
  fail_if (ltb 4096 (length input.filter)) filter_too_long
  fail_if (length input.targets == 0) no_targets
  fail_if (ltb max_targets_per_session (length input.targets)) too_many_targets
  validate_all input.targets
