-- ===== src/Domain.antt =====
-- internal/core/domain: the session and packet records, and the session's state machine.
-- Times are nanoseconds from Go's zero time, so IsZero is `0`. A Go pointer that may be nil is an
-- Option. Values are never shared between two owners here, so Clone has no counterpart.
pub mod Lifecycle
pub mod Tests
use cap_mesh.Prelude.{
  ℕ, ◌≡◌, Bool, true, false, List, [], ◌∷◌, ◌&&◌, Option, none, some, Result, ok, err,
  if◌then◌else◌,
}
use cap_mesh.Text.{Text, text_eq}

pub data SessionStatus : Type 0 where
  starting running stopping stopped failed : SessionStatus

pub data SessionMode : Type 0 where
  normal continuous : SessionMode

abbrev pub Time : Type 0
Time = ℕ

pub record InterfaceTarget : Type 0 where
  pub nodes : List Text
  pub logical_interface : Text

pub record WorkloadTarget : Type 0 where
  pub namespace : Text
  pub kind : Text
  pub name : Text
  pub direction : Text
  pub follow : Bool
  pub max_pods : ℕ

pub record CaptureTarget : Type 0 where
  pub id : Text
  pub interface : Option InterfaceTarget
  pub workload : Option WorkloadTarget

pub record CaptureSource : Type 0 where
  pub id : Text
  pub target_id : Text
  pub target_type : Text
  pub node_name : Text
  pub logical_interface : Text
  pub interface_name : Text
  pub namespace : Text
  pub pod_name : Text
  pub pod_uid : Text
  pub pod_ip : Text

-- `CaptureSource{}`
abbrev pub no_source : CaptureSource
no_source = record {
  id = [];
  target_id = [];
  target_type = [];
  node_name = [];
  logical_interface = [];
  interface_name = [];
  namespace = [];
  pod_name = [];
  pod_uid = [];
  pod_ip = [];
}

pub record Session : Type 0 where
  pub id : Text
  pub nodes : List Text
  pub logical_interface : Text
  pub filter : Text
  pub snaplen : ℕ
  pub reorder_window : ℕ
  pub created_at : Time
  pub expires_at : Time
  pub status : SessionStatus
  pub message : Text
  pub targets : List CaptureTarget
  pub mode : SessionMode

pub record Packet : Type 0 where
  pub timestamp : Time
  pub captured_length : ℕ
  pub original_length : ℕ
  pub link_type : ℕ
  pub sequence_number : ℕ
  pub payload : List ℕ

pub record PacketBatch : Type 0 where
  pub session_id : Text
  pub node_name : Text
  pub interface_name : Text
  pub source : CaptureSource
  pub packets : List Packet

pub data TransitionError : Type 0 where
  invalid_transition : TransitionError

unfoldable pub status_eq : SessionStatus → SessionStatus → Bool
status_eq starting starting = true
status_eq running running = true
status_eq stopping stopping = true
status_eq stopped stopped = true
status_eq failed failed = true
status_eq _ _ = false

unfoldable pub mode_eq : SessionMode → SessionMode → Bool
mode_eq normal normal = true
mode_eq continuous continuous = true
mode_eq _ _ = false

-- The table `valid`.
unfoldable pub valid : SessionStatus → SessionStatus → Bool
valid starting running = true
valid starting stopping = true
valid starting failed = true
valid running stopping = true
valid running failed = true
valid stopping stopped = true
valid stopping failed = true
valid _ _ = false

-- (*Session).Transition: the session is unchanged when the transition is refused.
unfoldable pub transition : SessionStatus → Session → Result TransitionError Session
unfolding status_eq valid
transition next s =
    if status_eq s.status next
    then ok s
    else if valid s.status next
    then ok (record s { status = next })
    else err invalid_transition

-- `_ = session.Transition(next)`
unfoldable pub transition_or_same : SessionStatus → Session → Session
unfolding transition
transition_or_same next s = elim (transition next s) [ ok t ↦ t | err _ ↦ s ]

-- `==` on CaptureSource values, field by field.
unfoldable pub source_eq : CaptureSource → CaptureSource → Bool
source_eq a b =
    text_eq a.id b.id
    && text_eq a.target_id b.target_id
    && text_eq a.target_type b.target_type
    && text_eq a.node_name b.node_name
    && text_eq a.logical_interface b.logical_interface
    && text_eq a.interface_name b.interface_name
    && text_eq a.namespace b.namespace
    && text_eq a.pod_name b.pod_name
    && text_eq a.pod_uid b.pod_uid
    && text_eq a.pod_ip b.pod_ip
