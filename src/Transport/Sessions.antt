-- ===== src/Transport/Sessions.antt =====
-- The handlers of internal/transport/sessions.go. A request is what the handler reads of it: the peer
-- that its token names, `[]` where there is none; its decoded body, `none` where decoding fails; its
-- method and the identifier in its path.
use dc_streaming_p2p.Base.{
  ℕ, Bool, not, ◌||◌, Option, none, some, List, [], ◌∷◌, Text, if◌then◌else◌,
}
use dc_streaming_p2p.Base.Strings.{same, is_empty}
use dc_streaming_p2p.Session.Record.{
  State, negotiating, connected, failed, closed, MediaPath, unknown, direct, relayed, Session, live,
  Result, ok, err, Error, not_found, not_allowed, self, full, too_many_for_peer, bad_transition,
  no_caller, no_callee, no_identifier,
}
use dc_streaming_p2p.Session.Store.{Store}
use dc_streaming_p2p.Session.Ops.{open_session, reachable, get, report}
use dc_streaming_p2p.Transport.Http
use dc_streaming_p2p.Transport.Http.{
  Response, refused, token_refused, answered, method_refused, Method,
}

-- The strings of the states and of the paths.
abbrev pub state_text : State → Text
state_text negotiating = 110 ∷ 101 ∷ 103 ∷ 111 ∷ 116 ∷ 105 ∷ 97 ∷ 116 ∷ 105 ∷ 110 ∷ 103 ∷ []
state_text connected = 99 ∷ 111 ∷ 110 ∷ 110 ∷ 101 ∷ 99 ∷ 116 ∷ 101 ∷ 100 ∷ []
state_text failed = 102 ∷ 97 ∷ 105 ∷ 108 ∷ 101 ∷ 100 ∷ []
state_text closed = 99 ∷ 108 ∷ 111 ∷ 115 ∷ 101 ∷ 100 ∷ []

abbrev pub path_text : MediaPath → Text
path_text unknown = []
path_text direct = 100 ∷ 105 ∷ 114 ∷ 101 ∷ 99 ∷ 116 ∷ []
path_text relayed = 114 ∷ 101 ∷ 108 ∷ 97 ∷ 121 ∷ 101 ∷ 100 ∷ []

-- `sessionResponse`
pub record SessionResponse : Type 0 where
  pub session_id : Text
  pub caller : Text
  pub callee : Text
  pub state : Text
  pub path : Text
  pub opened_at : ℕ
  pub changed_at : ℕ

-- `asResponse`
abbrev pub as_response : Session → SessionResponse
as_response s = record {
  session_id = s.id;
  caller = s.caller;
  callee = s.callee;
  state = state_text s.state;
  path = path_text s.path;
  opened_at = s.opened_at;
  changed_at = s.changed_at;
}

-- A call of `SessionEnded`.
pub record Notice : Type 0 where
  pub id : Text
  pub state : Text
  pub peers : List Text

-- `notifyEnded`, where there may be nobody to tell.
abbrev pub notify_ended : Bool → Session → Option Notice
notify_ended told s =
    if not told || live s
    then none
    else some (record { id = s.id; state = state_text s.state; peers = s.caller ∷ s.callee ∷ [] })

-- The switch of `OpenSession`.
abbrev pub open_error : Error → Response SessionResponse
open_error not_allowed = refused 404 Http.not_reachable
open_error self = refused 400 Http.cannot_call_self
open_error full = refused 503 Http.sessions_full
open_error too_many_for_peer = refused 429 Http.peer_sessions
open_error not_found = refused 400 Http.invalid_request
open_error bad_transition = refused 400 Http.invalid_request
open_error no_caller = refused 400 Http.invalid_request
open_error no_callee = refused 400 Http.invalid_request
open_error no_identifier = refused 400 Http.invalid_request

abbrev pub answer_open : Store × Result Session → Store × Response SessionResponse
answer_open (s, ok opened) = (s, answered 201 (as_response opened))
answer_open (s, err e) = (s, open_error e)

abbrev pub open_body :
    Option (Text → Bool)
    → Option Text
    → Text
    → Option Text
    → ℕ
    → Store
    → Store × Response SessionResponse
open_body peers fresh caller none now s = (s, refused 400 Http.invalid_request)
open_body peers fresh caller (some peer) now s =
    if is_empty peer
    then (s, refused 400 Http.invalid_request)
    else if same peer caller
    then (s, refused 400 Http.cannot_call_self)
    else if not (reachable peers peer)
    then (s, refused 404 Http.not_reachable)
    else answer_open (open_session fresh caller peer now s)

-- `OpenSession`, over the answers of the registry and of `newID`.
unfoldable pub open_handler :
    Option (Text → Bool)
    → Option Text
    → Text
    → Option Text
    → ℕ
    → Store
    → Store × Response SessionResponse
open_handler peers fresh caller body now s =
    if is_empty caller
    then (s, token_refused 401 Http.invalid_token)
    else open_body peers fresh caller body now s

-- What the handlers that may end a session return: the store, the answer, and who is told.
abbrev pub Ending : Type 0
Ending = Store × Response SessionResponse × Option Notice

-- The switches of `GetSession` and `ReportSession` over what `Report` returns.
abbrev pub report_error : Error → Response SessionResponse
report_error not_found = refused 404 Http.not_found
report_error bad_transition = refused 409 Http.bad_transition
report_error not_allowed = refused 400 Http.invalid_request
report_error self = refused 400 Http.invalid_request
report_error full = refused 400 Http.invalid_request
report_error too_many_for_peer = refused 400 Http.invalid_request
report_error no_caller = refused 400 Http.invalid_request
report_error no_callee = refused 400 Http.invalid_request
report_error no_identifier = refused 400 Http.invalid_request

abbrev pub answer_report : Bool → Store × Result Session → Ending
answer_report told (s, ok moved) = (s, answered 200 (as_response moved), notify_ended told moved)
answer_report told (s, err e) = (s, report_error e, none)

-- The `GET` of `GetSession`: every error is the same.
abbrev pub answer_get : Store × Result Session → Ending
answer_get (s, ok found) = (s, answered 200 (as_response found), none)
answer_get (s, err e) = (s, refused 404 Http.not_found, none)

abbrev pub session_method : Bool → Method → Text → Text → ℕ → Store → Ending
session_method told Http.get id peer now s = answer_get (get id peer now s)
session_method told Http.delete id peer now s =
    answer_report told (report id peer closed unknown now s)
session_method told Http.post id peer now s = (s, method_refused, none)
session_method told Http.unlisted id peer now s = (s, method_refused, none)

-- `GetSession`
unfoldable pub session_handler : Bool → Method → Text → Text → ℕ → Store → Ending
session_handler told method id peer now s =
    if is_empty peer
    then (s, token_refused 401 Http.invalid_token, none)
    else session_method told method id peer now s

-- `reportableState`
abbrev pub reportable_state : Text → Option State
reportable_state raw =
    if same raw (state_text connected)
    then some connected
    else if same raw (state_text failed)
    then some failed
    else if same raw (state_text closed)
    then some closed
    else none

-- `reportablePath`
abbrev pub reportable_path : Text → Option MediaPath
reportable_path raw =
    if same raw (path_text unknown)
    then some unknown
    else if same raw (path_text direct)
    then some direct
    else if same raw (path_text relayed)
    then some relayed
    else none

abbrev pub report_parsed : Bool → Option State → Option MediaPath → Text → Text → ℕ → Store → Ending
report_parsed told none path id peer now s = (s, refused 400 Http.invalid_request, none)
report_parsed told (some state) none id peer now s = (s, refused 400 Http.invalid_request, none)
report_parsed told (some state) (some path) id peer now s =
    answer_report told (report id peer state path now s)

abbrev pub report_body : Bool → Option (Text × Text) → Text → Text → ℕ → Store → Ending
report_body told none id peer now s = (s, refused 400 Http.invalid_request, none)
report_body told (some (state, path)) id peer now s =
    report_parsed told (reportable_state state) (reportable_path path) id peer now s

-- `ReportSession`, whose body is a state and a path, the empty string where the path is missing.
unfoldable pub report_handler : Bool → Option (Text × Text) → Text → Text → ℕ → Store → Ending
report_handler told body id peer now s =
    if is_empty peer
    then (s, token_refused 401 Http.invalid_token, none)
    else report_body told body id peer now s
