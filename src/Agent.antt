-- ===== src/Agent.antt =====
-- internal/application/agent/service.go: the captures that run on a node. A cancel function is a
-- token: a number that is new for each capture. `cancelled` are the tokens whose contexts are done,
-- `forwarding` the goroutines of forwardBatches with their session, source and token.
pub mod Forward
pub mod Counts
pub mod Totals
pub mod Registered
pub mod Tests
use cap_mesh.Prelude.{
  ℕ, ◌+◌, ◌≡◌, Bool, true, false, List, [], ◌∷◌, ◌++◌, Option, none, some, if◌then◌else◌, Result,
  ok, err, ◌>>=◌, map_err, not, ◌&&◌, ◌||◌, is_some,
}
use cap_mesh.Text.{Text, text, text_eq, is_empty}
use cap_mesh.Map
use cap_mesh.Map.{Map}
use cap_mesh.Alias
use cap_mesh.Domain.{CaptureSource, no_source}

pub record StartRequest : Type 0 where
  pub session_id : Text
  pub logical_interface : Text
  pub filter : Text
  pub snaplen : ℕ
  pub source : CaptureSource

-- The ports of the service. An Option of an error is none where the call succeeds.
pub record Node : Type 0 where
  pub node_name : Text
  pub interfaces : Map Text
  pub resolver : Option (Text → Result Text Text)
  pub engine : Text → Text → ℕ → Option Text
  pub report : Text → Text → Text → Option Text

pub data AgentError : Type 0 where
  unresolved_pod : Text → AgentError
  resolve_error : Text → Text → AgentError
  bad_interface : AgentError
  not_configured : Text → AgentError
  engine_error : Text → AgentError
  report_error : Text → AgentError

pub record Agent : Type 0 where
  pub captures : Map (Map ℕ)
  pub cancelled : List ℕ
  pub forwarding : List (Text × CaptureSource × ℕ)
  pub next : ℕ

abbrev or_else : Text → Text → Text
or_else t u = if is_empty t then u else t

-- The interface of a source that names its pod only.
unfoldable pub pod_interface : Node → CaptureSource → Result AgentError Text
pod_interface node s =
    if is_empty s.interface_name && not (is_empty s.pod_ip)
    then elim node.resolver [
      | none ↦ err (unresolved_pod s.pod_ip)
      | some resolve ↦ map_err (resolve_error s.pod_ip) (resolve s.pod_ip)
    ]
    else ok s.interface_name

-- The logical interface and the interface of a source: by its alias where it has no interface.
unfoldable pub configured_interface : Node → Text → Text → Result AgentError (Text × Text)
unfolding Alias.normalize Map.lookup
configured_interface node logical iface =
    if not (is_empty iface)
    then ok (logical, iface)
    else (map_err (λ _. bad_interface) (Alias.normalize logical) >>= λ name.
        elim (Map.lookup name node.interfaces) [
          | none ↦ err (not_configured name)
          | some i ↦ if is_empty i then err (not_configured name) else ok (name, i)
        ])

-- The part of Start before the lock.
unfoldable pub resolve_source : Node → StartRequest → Result AgentError CaptureSource
unfolding pod_interface configured_interface
resolve_source node request = do
  let s = request.source
  found ← pod_interface node s
  (logical, iface) ←
      configured_interface node (or_else s.logical_interface request.logical_interface) found
  ok (record s {
    id = or_else s.id (text "interface:" ++ logical);
    target_type = or_else s.target_type (text "interface");
    node_name = node.node_name;
    logical_interface = logical;
    interface_name = iface;
  })

unfoldable pub sources_of : Text → Agent → Map ℕ
unfolding Map.lookup
sources_of session a = elim (Map.lookup session a.captures) [ none ↦ [] | some m ↦ m ]

-- `delete(sources, sourceID)`, and the session with its last source
unfoldable pub drop_source : Text → Text → Agent → Agent
unfolding sources_of Map.delete Map.insert
drop_source session source a =
    let left = Map.delete source (sources_of session a) in
    record a {
      captures = elim left [
        | [] ↦ Map.delete session a.captures
        | t ∷ ts ↦ Map.insert session (t ∷ ts) a.captures
      ];
    }

-- remove
unfoldable pub remove : Text → Text → Agent → Agent
unfolding drop_source Map.lookup
remove session source a = elim (Map.lookup session a.captures) [
  | none ↦ a
  | some _ ↦ drop_source session source a
]

abbrev pub cancel : ℕ → Agent → Agent
cancel token a = record a { cancelled = token ∷ a.cancelled }

-- What Start does once the source is registered under a token.
unfoldable pub begin_capture :
    Node → StartRequest → CaptureSource → ℕ → Agent → Agent × Option AgentError
unfolding remove
begin_capture node request s token a =
    elim (node.engine s.interface_name request.filter request.snaplen) [
      | some e ↦ (cancel token (remove request.session_id s.id a), some (engine_error e))
      | none ↦ elim (node.report request.session_id s.id (text "RUNNING")) [
        | some e ↦ (remove request.session_id s.id (cancel token a), some (report_error e))
        | none ↦ (record a { forwarding = (request.session_id, s, token) ∷ a.forwarding }, none)
      ]
    ]

-- `sources[source.ID] = cancel`, where the session has a map from its first source on.
unfoldable pub register : Text → Text → Agent → Agent
unfolding sources_of Map.insert
register session source a = record a {
  captures = Map.insert session (Map.insert source a.next (sources_of session a)) a.captures;
  next = a.next + 1;
}

unfoldable pub start : Node → StartRequest → Agent → Agent × Option AgentError
unfolding resolve_source sources_of begin_capture register Map.lookup
start node request a = elim (resolve_source node request) [
  | err e ↦ (a, some e)
  | ok s ↦
      if is_some (Map.lookup s.id (sources_of request.session_id a))
      then (a, none)
      else (begin_capture node request s a.next (register request.session_id s.id a))
]

-- Stop: the tokens that it cancels, and the error of the report.
unfoldable pub stop : Node → Text → Text → Agent → Agent × Option AgentError
unfolding sources_of drop_source Map.lookup Map.values Map.delete
stop node session source a = (
  if is_empty source
      then record a {
        captures = Map.delete session a.captures;
        cancelled = Map.values (sources_of session a) ++ a.cancelled;
      }
      else elim (Map.lookup source (sources_of session a)) [
        | none ↦ a
        | some token ↦ cancel token (drop_source session source a)
      ],
  elim (node.report session source (text "STOPPED")) [
    | none ↦ none
    | some e ↦ some (report_error e)
  ],
)

-- The tokens of every capture.
unfoldable pub tokens : Map (Map ℕ) → List ℕ
unfolding Map.values
tokens [] = []
tokens ((session, m) ∷ rest) = Map.values m ++ tokens rest

unfoldable pub stop_all : Agent → Agent
unfolding tokens
stop_all a = record a { captures = []; cancelled = tokens a.captures ++ a.cancelled }

-- The deferred calls at the end of forwardBatches.
unfoldable pub end_forwarding : Text → CaptureSource → ℕ → Agent → Agent
unfolding remove
end_forwarding session s token a = cancel token (remove session s.id a)
