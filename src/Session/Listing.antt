-- ===== src/Session/Listing.antt =====
-- internal/application/session/service.go: List, which filters the sessions and sorts them.
pub mod Sorted
use cap_mesh.Prelude.{
  Bool, true, false, not, ◌&&◌, ◌||◌, List, [], ◌∷◌, if◌then◌else◌, Result, ok, err, ◌>>=◌, ◌>>◌,
  fail_if, filter, ltb, ◌==◌,
}
use cap_mesh.Text.{Text, text, text_eq, text_lt, is_empty, to_upper, trim_space}
use cap_mesh.Domain.{
  Session, SessionStatus, SessionMode, starting, running, stopping, stopped, failed, normal,
  continuous,
}
use cap_mesh.Repository
use cap_mesh.Repository.{Repository}
use cap_mesh.Session.Targets.{SessionError, bad_status, bad_mode}

-- The texts of the statuses and modes.
unfoldable pub status_text : SessionStatus → Text
status_text starting = text "STARTING"
status_text running = text "RUNNING"
status_text stopping = text "STOPPING"
status_text stopped = text "STOPPED"
status_text failed = text "FAILED"

unfoldable pub mode_text : SessionMode → Text
mode_text normal = text "NORMAL"
mode_text continuous = text "CONTINUOUS"

unfoldable pub is_status : Text → Bool
unfolding text_eq status_text
is_status t =
    text_eq t (status_text starting)
    || text_eq t (status_text running)
    || text_eq t (status_text stopping)
    || text_eq t (status_text stopped)
    || text_eq t (status_text failed)

unfoldable pub is_mode : Text → Bool
unfolding text_eq mode_text
is_mode t = text_eq t (mode_text normal) || text_eq t (mode_text continuous)

-- The test of the loop; an empty text lets every session pass.
unfoldable pub selects : Text → Text → Session → Bool
unfolding text_eq status_text mode_text
selects status mode s =
    (is_empty status || text_eq (status_text s.status) status)
    && (is_empty mode || text_eq (mode_text s.mode) mode)

-- The order of sort.Slice: the newest first, those of one time by their IDs.
unfoldable pub precedes : Session → Session → Bool
unfolding text_lt
precedes a b =
    if a.created_at == b.created_at then text_lt a.id b.id else ltb b.created_at a.created_at

unfoldable pub insert_session : Session → List Session → List Session
unfolding precedes
insert_session s [] = s ∷ []
insert_session s (t ∷ ts) = if precedes t s then t ∷ insert_session s ts else s ∷ t ∷ ts

unfoldable pub sort_sessions : List Session → List Session
unfolding insert_session
sort_sessions [] = []
sort_sessions (s ∷ ss) = insert_session s (sort_sessions ss)

unfoldable pub list_sessions : Text → Text → Repository → Result SessionError (List Session)
unfolding to_upper trim_space is_status is_mode selects sort_sessions Repository.list
list_sessions given_status given_mode r = do
  let status = to_upper (trim_space given_status)
  let mode = to_upper (trim_space given_mode)
  fail_if (not (is_empty status) && not (is_status status)) bad_status
  fail_if (not (is_empty mode) && not (is_mode mode)) bad_mode
  ok (sort_sessions (filter (selects status mode) (Repository.list r)))
