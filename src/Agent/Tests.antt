-- ===== src/Agent/Tests.antt =====
-- Runs of internal/application/agent/service.go on one node.
use cap_mesh.Prelude.{◌≡◌, refl, true, false, List, [], ◌∷◌, none, some, pos}
use cap_mesh.Text.{text}
use cap_mesh.Map
use cap_mesh.Domain.{no_source}
use cap_mesh.Agent.{StartRequest, Node, Agent, engine_error, start, stop, end_forwarding}
use cap_mesh.Agent.Forward.{
  CapturedBatch, Forwarding, Forwarded, Event, batch_ready, progress_tick, context_done, forward,
}
use cap_mesh.Agent.Counts.{sum_of, IsCounted}
use cap_mesh.Agent.Totals.{taken, packets_of, bytes_of, Grows, forward-IsCounted}
use cap_mesh.Agent.Registered.{token_of, start-keeps}

abbrev node : Node
node = record {
  node_name = text "n1";
  interfaces = (text "eth0", text "ens3") ∷ [];
  resolver = none;
  engine = λ iface filter snaplen. none;
  report = λ session source state. none;
}

abbrev broken : Node
broken = record node { engine = λ iface filter snaplen. some (text "no device") }

abbrev request : StartRequest
request = record {
  session_id = text "s1";
  logical_interface = text "eth0";
  filter = [];
  snaplen = 128;
  source = record no_source { id = text "x"; interface_name = text "ens3" };
}

abbrev idle : Agent
idle = record { captures = []; cancelled = []; forwarding = []; next = 0 }

start_fails : (start broken request idle).1 ≡ some (engine_error (text "no device"))
unfolding start Map.lookup
start_fails = refl

start-keeps_example :
    token_of (text "s1") (text "x") (start broken request idle).0
    ≡ token_of (text "s1") (text "x") idle
start-keeps_example =
    start-keeps broken request idle (text "s1") (text "x") (engine_error (text "no device"))
      start_fails

-- A source that is stopped and started again: when the first goroutine ends, it takes away the
-- registration of the second capture, which still runs and which no Stop can cancel any more.
abbrev restarted : Agent
restarted = (start node request (stop node (text "s1") (text "x") (start node request idle).0).0).0

abbrev after_end : Agent
after_end = end_forwarding (text "s1") (record request.source { node_name = text "n1" }) 0 restarted

restart_run :
    (token_of (text "s1") (text "x") restarted ≡ some 1)
    × (token_of (text "s1") (text "x") after_end ≡ none)
    × ((stop node (text "s1") [] after_end).0.cancelled ≡ 0 ∷ 0 ∷ [])
unfolding start stop end_forwarding Map.lookup
restart_run = (refl, refl, refl)

abbrev forwarding : Forwarding
forwarding = record {
  session_id = text "s1";
  node_name = text "n1";
  source = no_source;
  has_progress = true;
  has_metrics = true;
  send = λ batch. none;
}

abbrev at_start : Forwarded
at_start = record {
  packets_total = 0;
  bytes_total = 0;
  packets_interval = 0;
  bytes_interval = 0;
  reports = [];
  observations = [];
  sent = [];
  failures = [];
  finished = false;
}

abbrev captured : CapturedBatch
captured = record {
  packets =
      record {
        timestamp = 1;
        captured_length = 60;
        original_length = 60;
        link_type = 1;
        sequence_number = 1;
        payload = [];
      }
      ∷ [];
  captured_bytes = 0;
  started_at = 1;
  build_duration = pos 0;
  flush_reason = [];
}

abbrev events : List Event
events = batch_ready 2 captured ∷ progress_tick ∷ batch_ready 3 captured ∷ context_done ∷ []

at_start-IsCounted : IsCounted at_start
unfolding sum_of
at_start-IsCounted = (refl, refl)

forward-IsCounted_example :
    IsCounted (forward forwarding events at_start)
    × Grows
        (sum_of packets_of (taken forwarding events))
        (sum_of bytes_of (taken forwarding events))
        at_start
        (forward forwarding events at_start)
forward-IsCounted_example = forward-IsCounted forwarding events at_start refl at_start-IsCounted
