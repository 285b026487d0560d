-- ===== src/Ports.antt =====
-- internal/core/ports/ports.go: the shared errors and the commands that go to agents.
use cap_mesh.Prelude.{ℕ}
use cap_mesh.Text.{Text}
use cap_mesh.Domain.{CaptureSource}

-- ErrNotFound, ErrAlreadyExists, ErrUnavailable, ErrQueueFull.
pub data PortError : Type 0 where
  not_found already_exists unavailable queue_full : PortError

-- AgentCommand's Kind, "start" or "stop".
pub data CommandKind : Type 0 where
  start stop : CommandKind

pub record AgentCommand : Type 0 where
  pub kind : CommandKind
  pub session_id : Text
  pub source_id : Text
  pub logical_interface : Text
  pub filter : Text
  pub snaplen : ℕ
  pub source : CaptureSource
