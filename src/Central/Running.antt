-- ===== src/Central/Running.antt =====
-- The central server of cmd/central/main.go at work: requests, channels, messages, sweeps and rounds of
-- presence, one after the other, over the registry, the sessions and the hub that `run` starts with.
pub mod Sessions
pub mod Bounds
pub mod Health
use dc_streaming_p2p.Base.{
  ℕ, ◌*◌, ◌≤◌, Bool, true, false, Option, none, some, List, [], ◌∷◌, Text, ◌⊎◌, inl, inr, ◌≡◌, refl,
  sym, ap, ◌∙◌, subst, arith, Bool-cases, Option-cases, length,
}
use dc_streaming_p2p.Base.Map.{keys, lookup}
use dc_streaming_p2p.Base.Strings.{is_empty, same}
use dc_streaming_p2p.Config.{Config, Outside}
use dc_streaming_p2p.Config.Load.{load}
use dc_streaming_p2p.Session.Record.{State, MediaPath, Session, Result, ok, err, unknown, closed}
use dc_streaming_p2p.Session.Store
use dc_streaming_p2p.Session.Store.{Store, retained_per_live}
use dc_streaming_p2p.Session.Ops.{open_session, get, report, close_peer, reap, count_live, held}
use dc_streaming_p2p.Session.Opening.{Sound, Fresh}
use dc_streaming_p2p.Session.Reporting.{get-Sound, report-Sound}
use dc_streaming_p2p.Session.Closing.{close_peer-Sound}
use dc_streaming_p2p.Session.History.{
  Step-Sound, Step, opens, gets, reports, closes, reaps, Reach-Sound, here,
}
use dc_streaming_p2p.Registry.Defs
use dc_streaming_p2p.Registry.Bounds.{Valid, expire-Valid}
use dc_streaming_p2p.Registry.Admission.{register-Valid, delete-Valid, heartbeat-Valid}
use dc_streaming_p2p.Signaling.Hub
use dc_streaming_p2p.Signaling.Hub.{Hub, Delivers, Message}
use dc_streaming_p2p.Transport.Http
use dc_streaming_p2p.Transport.Http.{Method}
use dc_streaming_p2p.Transport.Sessions.{
  open_handler, open_body, answer_open, session_handler, session_method, answer_get, answer_report,
  report_handler, report_body, report_parsed, reportable_state, reportable_path,
}
use dc_streaming_p2p.Transport.Peers.{
  peers_handler, peers_method, answer_register, heartbeat_handler, answer_heartbeat,
}
use dc_streaming_p2p.Central.{reachable, other_in, other_peer, or_register, connected, refresh}
use dc_streaming_p2p.Central.Sweep.{close_each, sweep, sweep-close_each}
use dc_streaming_p2p.Central.Startup.{Components, start, configured, load-start, session_options}

pub record World : Type 0 where
  pub peers : Defs.Registry
  pub sessions : Store
  pub hub : Hub

-- What can happen: a request behind the token check, of the peer that its token names; a channel that
-- opens or closes, or a message on it; and the rounds of the three tickers. `newID` is assumed to answer
-- an identifier that no stored session has.
pub data Happens (w : World) : World → Type 0 where
  post_session :
      (fresh : Option Text) (peer : Text) (body : Option Text) (now : ℕ)
      → Fresh fresh w.sessions
      → Happens w (record w {
        sessions = (open_handler (some (reachable now w.peers)) fresh peer body now w.sessions).0;
      })
  at_session :
      (method : Method) (id peer : Text) (now : ℕ)
      → Happens w (record w { sessions = (session_handler true method id peer now w.sessions).0 })
  post_state :
      (body : Option (Text × Text)) (id peer : Text) (now : ℕ)
      → Happens w (record w { sessions = (report_handler true body id peer now w.sessions).0 })
  at_peers :
      (method : Method) (peer : Text) (now : ℕ)
      → Happens w (record w { peers = (peers_handler method peer now w.peers).0 })
  post_heartbeat :
      (peer : Text) (now : ℕ)
      → Happens w (record w { peers = (heartbeat_handler peer now w.peers).0 })
  opens_channel :
      (peer : Text) (conn now : ℕ)
      → Happens w (record w {
        hub = (Hub.register peer conn now w.hub).0;
        peers = connected peer now w.peers;
      })
  closes_channel :
      (peer : Text) (conn : ℕ) → Happens w (record w { hub = (Hub.deregister peer conn w.hub).0 })
  writes :
      (delivers : Delivers) (peer : Text) (message : Message) (now : ℕ)
      → Happens w (record w {
        hub = (Hub.route (other_peer now) delivers peer message now w.hub w.sessions).0;
        sessions = (Hub.route (other_peer now) delivers peer message now w.hub w.sessions).1;
      })
  peers_swept :
      (clock : Text → ℕ) (delivers : Delivers) (now : ℕ)
      → Happens w (record w {
        peers = (sweep clock delivers now w.peers w.sessions w.hub).0;
        sessions = (sweep clock delivers now w.peers w.sessions w.hub).1;
      })
  sessions_swept : (now : ℕ) → Happens w (record w { sessions = (reap now w.sessions).0 })
  presence_refreshed :
      (now : ℕ) → Happens w (record w { peers = refresh (keys w.hub.conns) now w.peers })

-- Any number of these, in any order.
pub data Runs (w : World) : World → Type 0 where
  started : Runs w w
  then_happens : {u v : World} → Runs w u → Happens u v → Runs w v
