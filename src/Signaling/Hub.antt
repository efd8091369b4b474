-- ===== src/Signaling/Hub.antt =====
-- The `Hub` of internal/signaling/hub.go. Connections are named by numbers, which stand for the
-- identity that Go compares; whether `Conn.Send` succeeds is an argument, and what the hub does to
-- connections and tells the registry is a list of events, in order. The session store is a state
-- that answers `Other` and may change as it does. `Route` is one step here; the source takes the lock in
-- `allowed` and again in each `send`, and asks the session store between them, without it.
use dc_streaming_p2p.Base.{
  ℕ, ◌+◌, ◌-◌, ◌*◌, Bool, true, false, not, Option, none, some, List, [], ◌∷◌, ◌++◌, Text,
  if◌then◌else◌, ltb, leb, length, is_some, ◌==◌,
}
use dc_streaming_p2p.Base.Map.{Map, lookup, insert, delete, keys}
use dc_streaming_p2p.Base.Int.{ℤ, positive_or}
use dc_streaming_p2p.Base.Strings.{is_empty}

-- `Type`; `unlisted` is any string that no constant names.
pub data Kind : Type 0 where
  offer answer candidate bye error session_state : Kind
  unlisted : Text → Kind

-- The `Code` of a message: none, one of the constants, or whatever else a sender wrote.
pub data Code : Type 0 where
  no_code not_in_session peer_not_connected unknown_type too_fast : Code
  foreign : Text → Code

pub record Message : Type 0 where
  pub kind : Kind
  pub session_id : Text
  pub from : Text
  pub payload : List ℕ
  pub code : Code
  pub state : Text

-- `holder`
pub record Holder : Type 0 where
  pub conn : ℕ
  pub sent : ℕ
  pub window_from : ℕ

pub record Hub : Type 0 where
  pub allowance : ℕ
  pub window : ℕ
  pub send_timeout : ℕ
  pub has_presence : Bool
  pub conns : Map Holder

pub data Reason : Type 0 where
  replaced write_failed : Reason

-- What a call does outside the hub. A `failing` send is one that `Conn.Send` answered with an error.
pub data Event : Type 0 where
  sends failing : ℕ → Message → Event
  closes : ℕ → Reason → Event
  connected disconnected : Text → Event

pub data Error : Type 0 where
  no_connection not_delivered : Error

abbrev pub default_messages_per_window : ℕ
default_messages_per_window = 120

abbrev pub default_window : ℕ
default_window = 60 * 1000000000

abbrev pub default_send_timeout : ℕ
default_send_timeout = 5 * 1000000000

-- `Options`, but for the clock; whether there is a session store and somebody to tell of presence.
pub record Options : Type 0 where
  pub has_sessions : Bool
  pub has_presence : Bool
  pub messages_per_window : ℤ
  pub window : ℤ
  pub send_timeout : ℤ

-- `New`; `none` is its error.
unfoldable pub new : Options → Option Hub
new opts =
    if not opts.has_sessions
    then none
    else some (record {
      allowance = positive_or default_messages_per_window opts.messages_per_window;
      window = positive_or default_window opts.window;
      send_timeout = positive_or default_send_timeout opts.send_timeout;
      has_presence = opts.has_presence;
      conns = [];
    })

abbrev pub close_replaced : Option Holder → List Event
close_replaced none = []
close_replaced (some held) = closes held.conn replaced ∷ []

abbrev pub tell_presence : Bool → Event → List Event
tell_presence told e = if told then e ∷ [] else []

-- `Register`
unfoldable pub register : Text → ℕ → ℕ → Hub → Hub × List Event
register peer conn now h = (
  record h { conns = insert peer (record { conn = conn; sent = 0; window_from = now }) h.conns },
  close_replaced (lookup peer h.conns) ++ tell_presence h.has_presence (connected peer),
)

abbrev pub drop_holder : Text → ℕ → Option Holder → Hub → Hub × List Event
drop_holder peer conn none h = (h, [])
drop_holder peer conn (some held) h =
    if held.conn == conn
    then (
      record h { conns = delete peer h.conns },
      tell_presence h.has_presence (disconnected peer),
    )
    else (h, [])

-- `Deregister`
unfoldable pub deregister : Text → ℕ → Hub → Hub × List Event
deregister peer conn h = drop_holder peer conn (lookup peer h.conns) h

-- `Count`, `Connected` and `Peers`.
abbrev pub count : Hub → ℕ
count h = length h.conns

abbrev pub is_connected : Text → Hub → Bool
is_connected peer h = is_some (lookup peer h.conns)

abbrev pub peers : Hub → List Text
peers h = keys h.conns

-- `carriable`
abbrev pub carriable : Kind → Bool
carriable offer = true
carriable answer = true
carriable candidate = true
carriable bye = true
carriable error = false
carriable session_state = false
carriable (unlisted raw) = false

-- What `allowed` writes: the window starts again once it has passed, and the message is counted.
abbrev pub charged : ℕ → ℕ → Holder → Holder
charged window now held =
    if ltb window (now - held.window_from)
    then record held { window_from = now; sent = 1 }
    else record held { sent = held.sent + 1 }

abbrev pub charge : Text → ℕ → Option Holder → Hub → Hub × Bool
charge peer now none h = (h, false)
charge peer now (some held) h = (
  record h { conns = insert peer (charged h.window now held) h.conns },
  leb (charged h.window now held).sent h.allowance,
)

-- `allowed`
unfoldable pub allowed : Text → ℕ → Hub → Hub × Bool
allowed peer now h = charge peer now (lookup peer h.conns) h

-- Whether `Conn.Send` on a connection succeeds, for a message.
abbrev pub Delivers : Type 0
Delivers = ℕ → Message → Bool

abbrev pub send_on : Delivers → Message → Option Holder → List Event × Option Error
send_on delivers msg none = ([], some no_connection)
send_on delivers msg (some held) =
    if delivers held.conn msg
    then (sends held.conn msg ∷ [], none)
    else (failing held.conn msg ∷ closes held.conn write_failed ∷ [], some not_delivered)

-- `send`
unfoldable pub send : Delivers → Text → Message → Hub → List Event × Option Error
send delivers peer msg h = send_on delivers msg (lookup peer h.conns)

-- The message of `tell`.
abbrev pub refusal : Text → Code → Message
refusal session code = record {
  kind = error;
  session_id = session;
  from = [];
  payload = [];
  code = code;
  state = [];
}

-- `tell`
unfoldable pub tell : Delivers → Text → Text → Code → Hub → List Event × Option Error
unfolding send
tell delivers peer session code h = send delivers peer (refusal session code) h

-- The message that `Route` carries: named by its connection, with nothing that only a server says.
abbrev pub stamped : Text → Message → Message
stamped sender msg = record msg { from = sender; code = no_code; state = [] }

abbrev pub or_tell :
    Delivers → Text → Message → Hub → List Event × Option Error → List Event × Option Error
or_tell delivers sender msg h (events, none) = (events, none)
or_tell delivers sender msg h (events, some e) =
    let (more, e') = tell delivers sender msg.session_id peer_not_connected h in
    (events ++ more, e')

abbrev pub route_to : Delivers → Text → Message → Option Text → Hub → List Event × Option Error
route_to delivers sender msg none h = tell delivers sender msg.session_id not_in_session h
route_to delivers sender msg (some far) h =
    if is_empty msg.session_id
    then tell delivers sender msg.session_id not_in_session h
    else or_tell delivers sender msg h (send delivers far (stamped sender msg) h)

-- What `Route` returns, after the store and the hub that it leaves.
abbrev pub Routed {ℓ} : Type ℓ → Type ℓ
Routed S = Hub × S × List Event × Option Error

module _ {ℓ} {S : Type ℓ} (other : Text → Text → S → S × Option Text) (delivers : Delivers) where
  abbrev pub route_within : Text → Message → S → Hub → Bool → Routed S
  route_within sender msg s h false = (
    h,
    s,
    (tell delivers sender msg.session_id too_fast h).0,
    (tell delivers sender msg.session_id too_fast h).1,
  )
  route_within sender msg s h true = (
    h,
    (other msg.session_id sender s).0,
    (route_to delivers sender msg (other msg.session_id sender s).1 h).0,
    (route_to delivers sender msg (other msg.session_id sender s).1 h).1,
  )

  -- `Route`
  unfoldable pub route : Text → Message → ℕ → Hub → S → Routed S
  unfolding tell allowed
  route sender msg now h s =
      if carriable msg.kind
      then route_within sender msg s (allowed sender now h).0 (allowed sender now h).1
      else (
        h,
        s,
        (tell delivers sender msg.session_id unknown_type h).0,
        (tell delivers sender msg.session_id unknown_type h).1,
      )

-- The message of `SessionEnded`.
abbrev pub ended_message : Text → Text → Message
ended_message session state = record {
  kind = session_state;
  session_id = session;
  from = [];
  payload = [];
  code = no_code;
  state = state;
}

-- `SessionEnded`, whose `Tell` drops the error of each send.
unfoldable pub session_ended : Delivers → Text → Text → List Text → Hub → List Event
unfolding send
session_ended delivers session state [] h = []
session_ended delivers session state (peer ∷ rest) h =
    (send delivers peer (ended_message session state) h).0
    ++ session_ended delivers session state rest h
