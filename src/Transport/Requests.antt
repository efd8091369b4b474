-- ===== src/Transport/Requests.antt =====
-- internal/transport/middleware.go: the identifier of a request, and what is recorded of an answer.
use dc_streaming_p2p.Base.{
  ℕ, ◌+◌, Bool, true, false, ◌&&◌, ◌||◌, not, List, [], ◌∷◌, ◌++◌, Text, if◌then◌else◌, ltb, leb,
  ◌==◌, ◌≡◌, refl, sym, ap, ◌∙◌, arith, subst, &&-true_left, &&-true_right,
}
use dc_streaming_p2p.Base.Strings.{is_empty, is_space, trim_space, text_len}
use dc_streaming_p2p.Base.Trim.{no_spaces, trim_space-no_spaces}

abbrev pub max_inbound_request_id : ℕ
max_inbound_request_id = 64

-- The cases of the `switch` in `sanitizeRequestID`.
abbrev pub request_id_allowed : ℕ → Bool
request_id_allowed r =
    leb b'a' r && leb r b'z'
    || leb b'A' r && leb r b'Z'
    || leb b'0' r && leb r b'9'
    || r == b'-'
    || r == b'_'
    || r == b'.'

abbrev pub all_safe : Text → Bool
all_safe [] = true
all_safe (r ∷ rest) = request_id_allowed r && all_safe rest

abbrev pub sanitized : Text → Text
sanitized raw =
    if is_empty raw || ltb max_inbound_request_id (text_len raw)
    then []
    else if all_safe raw
    then raw
    else []

-- `sanitizeRequestID`
unfoldable pub sanitize_request_id : Text → Text
sanitize_request_id raw = sanitized (trim_space raw)

-- The identifier that `WithRequestID` gives a request, where `newRequestID` would generate `fresh`.
abbrev pub or_fresh : Text → Text → Text
or_fresh fresh [] = fresh
or_fresh fresh (c ∷ id) = c ∷ id

unfoldable pub request_id : Text → Text → Text
request_id fresh header = or_fresh fresh (sanitize_request_id header)

-- `levelFor`
pub data Level : Type 0 where
  info failure : Level

abbrev pub level_for : ℕ → Level
level_for status = if leb 500 status then failure else info

-- `routeOf`, of the pattern and the path.
abbrev pub route_of : Text → Text → Text
route_of [] path = path
route_of (c ∷ pattern) path = c ∷ pattern

-- `statusRecorder`, with the headers that it passes on to the writer below it. The program's handlers
-- write final statuses and 101 only; of an informational one net/http would write more than is recorded.
pub record Recorder : Type 0 where
  pub status : ℕ
  pub written : ℕ
  pub wrote_header : Bool
  pub passed_on : List ℕ

-- As `WithLogging` makes it.
abbrev pub recorder : Recorder
recorder = record { status = 200; written = 0; wrote_header = false; passed_on = [] }

-- `WriteHeader`
abbrev pub write_header : ℕ → Recorder → Recorder
write_header status r =
    if r.wrote_header
    then r
    else record r { status = status; wrote_header = true; passed_on = r.passed_on ++ status ∷ [] }

-- `Write`, of which the writer below takes a number of bytes.
abbrev pub add_written : ℕ → Recorder → Recorder
add_written taken r = record r { written = r.written + taken }

abbrev pub write : ℕ → Recorder → Recorder
write taken r = add_written taken (if not r.wrote_header then write_header 200 r else r)

-- What a handler does with its writer, and what is left of the recorder.
pub data Write : Type 0 where
  writes_header writes_body : ℕ → Write

unfoldable pub recorded : List Write → Recorder → Recorder
recorded [] r = r
recorded (writes_header status ∷ more) r = recorded more (write_header status r)
recorded (writes_body taken ∷ more) r = recorded more (write taken r)

-- The status that is passed on: that of the first header, or 200 from the first body on.
abbrev pub seen : List Write → List ℕ
seen [] = []
seen (writes_header status ∷ more) = status ∷ []
seen (writes_body taken ∷ more) = 200 ∷ []

abbrev pub bytes : List Write → ℕ
bytes [] = 0
bytes (writes_header status ∷ more) = bytes more
bytes (writes_body taken ∷ more) = taken + bytes more

abbrev pub status_of : List ℕ → ℕ
status_of [] = 200
status_of (status ∷ more) = status

header_once : (status : ℕ) (r : Recorder) → r.wrote_header ≡ true → write_header status r ≡ r
header_once status r once = ground arith

body_once : (taken : ℕ) (r : Recorder) → r.wrote_header ≡ true → write taken r ≡ add_written taken r
body_once taken r once = ground arith

-- What a recorder says once a header has been written.
abbrev Recorded : List Write → Recorder → Recorder → Type 0
Recorded ws r t =
    (t.status ≡ r.status) × (t.passed_on ≡ r.passed_on) × (t.written ≡ r.written + bytes ws)

recorded-wrote_header :
    (ws : List Write) (r : Recorder) → r.wrote_header ≡ true → Recorded ws r (recorded ws r)
unfolding recorded
recorded-wrote_header [] r once = (refl, refl, omega arith)
recorded-wrote_header (writes_header status ∷ ws) r once =
    subst (λ t. Recorded ws r (recorded ws t)) (sym (header_once status r once))
      (recorded-wrote_header ws r once)
recorded-wrote_header (writes_body taken ∷ ws) r once =
    let (status, passed_on, written) = recorded-wrote_header ws (add_written taken r) once in
    subst (λ t. Recorded (writes_body taken ∷ ws) r (recorded ws t)) (sym (body_once taken r once))
      (status, passed_on, written ∙ omega arith)

-- Whatever a handler writes, one header at most is passed on to the writer below, the first, with 200 for
-- a body that comes before any header; and the log line has the status of that header, or 200 where
-- nothing was written, and as its bytes those of all the bodies.
pub recorded_lem :
    (ws : List Write)
    → ((recorded ws recorder).passed_on ≡ seen ws)
      × ((recorded ws recorder).status ≡ status_of (seen ws))
      × ((recorded ws recorder).written ≡ bytes ws)
unfolding recorded
recorded_lem [] = (refl, refl, refl)
recorded_lem (writes_header status ∷ ws) =
    let (same_status, passed_on, written) =
      recorded-wrote_header ws (write_header status recorder) refl in
    (passed_on, same_status, written ∙ omega arith)
recorded_lem (writes_body taken ∷ ws) =
    let (same_status, passed_on, written) = recorded-wrote_header ws (write taken recorder) refl in
    (passed_on, same_status, written ∙ omega arith)

request_id_allowed-is_space : (c : ℕ) → request_id_allowed c ≡ true → is_space c ≡ false
unfolding is_space
request_id_allowed-is_space c h = ground arith

all_safe-no_spaces : (s : Text) → all_safe s ≡ true → no_spaces s ≡ true
all_safe-no_spaces [] h = refl
all_safe-no_spaces (c ∷ s) h =
    let solid =
      request_id_allowed-is_space c (&&-true_left (request_id_allowed c) (all_safe s) h) in
    rw solid (all_safe-no_spaces s (&&-true_right (request_id_allowed c) (all_safe s) h))

-- What is accepted of a header.
abbrev pub is_safe : Text → Bool
is_safe id = all_safe id && leb (text_len id) max_inbound_request_id

sanitized-is_safe : (raw : Text) → is_safe (sanitized raw) ≡ true
unfolding text_len
sanitized-is_safe raw = ground arith

sanitized-safe : (raw : Text) → is_safe raw ≡ true → sanitized raw ≡ raw
sanitized-safe [] h = refl
sanitized-safe (c ∷ raw) h = ground arith

sanitize_request_id-safe : (id : Text) → is_safe id ≡ true → sanitize_request_id id ≡ id
unfolding sanitize_request_id
sanitize_request_id-safe id safe =
    let solid =
      all_safe-no_spaces id
        (&&-true_left (all_safe id) (leb (text_len id) max_inbound_request_id) safe) in
    ap sanitized (trim_space-no_spaces id solid) ∙ sanitized-safe id safe

or_fresh-given : (fresh id : Text) → is_empty id ≡ false → or_fresh fresh id ≡ id
or_fresh-given fresh [] given = absurd (ground arith)
or_fresh-given fresh (c ∷ id) given = refl

-- An identifier that a request is given under its header is short and of safe characters, unless it was
-- generated; and an identifier that is, and is not empty, is kept as it is, by every server on the way.
pub request_id_lem :
    (fresh header id : Text)
    → is_safe id ≡ true
    → is_empty id ≡ false
    → (is_safe (sanitize_request_id header) ≡ true)
      × (request_id fresh id ≡ id)
      × (sanitize_request_id (sanitize_request_id header) ≡ sanitize_request_id header)
unfolding request_id
request_id_lem fresh header id safe given =
    let cleaned : is_safe (sanitize_request_id header) ≡ true =
      unfold sanitize_request_id in sanitized-is_safe (trim_space header) in
    (
      cleaned,
      ap (or_fresh fresh) (sanitize_request_id-safe id safe) ∙ or_fresh-given fresh id given,
      sanitize_request_id-safe (sanitize_request_id header) cleaned,
    )
