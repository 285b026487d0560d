-- ===== src/LogCapture/Tests.antt =====
-- internal/application/logcapture/service.go: a capture of the logs of one deployment.
use cap_mesh.Prelude.{◌≡◌, refl, inl, true, false, [], ◌∷◌, none, some, ok, OkThen}
use cap_mesh.Text.{Text, text, text_eq}
use cap_mesh.Map.{Map}
use cap_mesh.LogCapture.{LogTarget, Pod, Followed, Resolver, reconcile, selected_containers}
use cap_mesh.LogCapture.Service.{Service, Env, fresh, stopped, start, restore, stop}
use cap_mesh.LogCapture.Loop.{wrote, step}
use cap_mesh.LogCapture.Streams.{Follows, reconcile-Follows}
use cap_mesh.LogCapture.States.{IsConsistent}
use cap_mesh.LogCapture.Starts.{Starts, Restores, start-Starts}
use cap_mesh.LogCapture.Stops.{Stops, stop-Stops}
use cap_mesh.LogCapture.Calls.{starts, steps, no_calls, one_more, Calls-IsConsistent}

abbrev target : LogTarget
target = record {
  namespace = text "prod";
  kind = text "deployment";
  name = text "web";
  containers = text " side" ∷ text "app" ∷ text "app" ∷ text "none" ∷ [];
  max_pods = 2;
}

abbrev pod : Text → Pod
pod uid = record {
  name = text "web-1";
  uid = uid;
  containers = text "app" ∷ text "side" ∷ text "init" ∷ [];
  restart_count = (text "app", 3) ∷ [];
}

abbrev pods : Resolver
pods t = ok (pod (text "u1") ∷ pod (text "u2") ∷ [])

abbrev one_pod : Resolver
one_pod t = ok (pod (text "u2") ∷ [])

abbrev env : Env
env = record {
  is_configured = true;
  has_good_config = true;
  resolve = pods;
  start_recorder = λ id. none;
  persist = λ id desired. none;
  usage = (10, 1);
  describe = λ e. text "error";
  expires = none;
}

abbrev idle : Service
idle = record { capture = fresh stopped; job = none; persisted = [] }

selects :
    selected_containers (pod (text "u1")).containers target.containers
    ≡ text "app" ∷ text "side" ∷ []
unfolding selected_containers text_eq
selects = refl

-- The streams of two pods with two containers each.
abbrev begun : Service
begun = (start env (text "r") 5 false (target ∷ []) idle).2

shows_four : begun.capture.active_streams ≡ 4
unfolding start
shows_four = refl

-- The stream of a pod that is gone.
abbrev gone : Map Followed
gone =
    (
      text "gone",
      (record {
        target = target;
        pod_name = text "web-1";
        pod_uid = text "u1";
        container = text "app";
        restart_count = 3;
      }),
    )
    ∷ []

reconcile-Follows_example :
    OkThen (Follows one_pod (target ∷ []) gone) (reconcile one_pod (target ∷ []) gone)
reconcile-Follows_example = reconcile-Follows one_pod (target ∷ []) gone

start-Starts_example :
    Starts env (text "r") 5 (target ∷ []) idle (start env (text "r") 5 false (target ∷ []) idle)
    × Restores env (text "r") 5 (target ∷ []) idle (restore env (text "r") 5 (target ∷ []) idle)
start-Starts_example = start-Starts env (text "r") 5 (target ∷ []) idle

idle-IsConsistent : IsConsistent idle
idle-IsConsistent = (inl refl, refl)

Calls-IsConsistent_example : IsConsistent (step env (wrote (some (text "full"))) begun)
Calls-IsConsistent_example =
    Calls-IsConsistent
      (one_more (one_more no_calls (starts env (text "r") 5 (target ∷ [])))
        (steps env (wrote (some (text "full")))))
      idle-IsConsistent

begun-IsConsistent : IsConsistent begun
begun-IsConsistent =
    Calls-IsConsistent (one_more no_calls (starts env (text "r") 5 (target ∷ []))) idle-IsConsistent

stop-Stops_example : Stops true env begun (stop env true begun)
stop-Stops_example = stop-Stops env true begun begun-IsConsistent
