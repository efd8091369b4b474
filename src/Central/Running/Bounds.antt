-- ===== src/Central/Running/Bounds.antt =====
-- The registry and the sessions of the central server at work, from the settings on.
use dc_streaming_p2p.Base.{
  ℕ, ◌*◌, ◌≤◌, List, [], ◌∷◌, Text, inl, inr, ◌≡◌, refl, sym, ap, ◌∙◌, subst, arith, Bool-cases,
  length,
}
use dc_streaming_p2p.Base.Map.{keys}
use dc_streaming_p2p.Base.Strings.{is_empty}
use dc_streaming_p2p.Config.{Config, Outside}
use dc_streaming_p2p.Config.Load.{load}
use dc_streaming_p2p.Session.Store
use dc_streaming_p2p.Session.Store.{Store, retained_per_live}
use dc_streaming_p2p.Session.Ops.{held}
use dc_streaming_p2p.Session.Opening.{Sound}
use dc_streaming_p2p.Session.History.{Step-Sound, reaps}
use dc_streaming_p2p.Registry.Defs
use dc_streaming_p2p.Registry.Bounds.{Valid, expire-Valid}
use dc_streaming_p2p.Registry.Admission.{register-Valid, delete-Valid, heartbeat-Valid}
use dc_streaming_p2p.Signaling.Hub
use dc_streaming_p2p.Signaling.Hub.{Hub, Delivers, Message}
use dc_streaming_p2p.Transport.Http
use dc_streaming_p2p.Transport.Http.{Method}
use dc_streaming_p2p.Transport.Peers.{
  peers_handler, peers_method, answer_register, heartbeat_handler, answer_heartbeat,
}
use dc_streaming_p2p.Central.{reachable, other_peer, or_register, connected, refresh}
use dc_streaming_p2p.Central.Sweep.{sweep}
use dc_streaming_p2p.Central.Startup.{Components, start, configured, load-start}
use dc_streaming_p2p.Base.Map.{Distinct}
use dc_streaming_p2p.Base.Map.Count.{count}
use dc_streaming_p2p.Session.Record.{live, allow_all}
use dc_streaming_p2p.Session.Invariant.{Inv, live_with}
use dc_streaming_p2p.Session.History.{empty-Sound}
use dc_streaming_p2p.Auth.Clients.{ClientStore}
use dc_streaming_p2p.Central.Running.{
  World, Happens, post_session, at_session, post_state, at_peers, post_heartbeat, opens_channel,
  closes_channel, writes, peers_swept, sessions_swept, presence_refreshed, Runs, started,
  then_happens,
}
use dc_streaming_p2p.Central.Running.Sessions.{
  open_handler-Sound, session_handler-Sound, report_handler-Sound, other_peer-Sound,
  close_each-Sound,
}

module _ (settings : Defs.Settings) where
  answer_register-store : (t : Defs.Registry × Defs.Result Defs.Peer) → (answer_register t).0 ≡ t.0
  answer_register-store (t, Defs.ok peer) = refl
  answer_register-store (t, Defs.err e) = refl

  answer_heartbeat-store :
      (t : Defs.Registry × Defs.Result Defs.Peer) → (answer_heartbeat t).0 ≡ t.0
  answer_heartbeat-store (t, Defs.ok peer) = refl
  answer_heartbeat-store (t, Defs.err e) = refl

  peers_method-Valid :
      (method : Method) (peer : Text) (now : ℕ) (r : Defs.Registry)
      → Valid settings r
      → Valid settings (peers_method method peer now r).0
  unfolding Defs.deregister
  peers_method-Valid Http.post peer now r v =
      subst (Valid settings) (sym (answer_register-store (Defs.register peer now r)))
        (register-Valid settings peer now r v)
  peers_method-Valid Http.delete peer now r v = delete-Valid settings peer r v
  peers_method-Valid Http.get peer now r v = v
  peers_method-Valid Http.unlisted peer now r v = v

  peers_handler-Valid :
      (method : Method) (peer : Text) (now : ℕ) (r : Defs.Registry)
      → Valid settings r
      → Valid settings (peers_handler method peer now r).0
  unfolding peers_handler
  peers_handler-Valid method peer now r v = elim (Bool-cases (is_empty peer)) [
    | inl blank ↦ rw blank v
    | inr given ↦ rw given (peers_method-Valid method peer now r v)
  ]

  heartbeat_handler-Valid :
      (peer : Text) (now : ℕ) (r : Defs.Registry)
      → Valid settings r
      → Valid settings (heartbeat_handler peer now r).0
  unfolding heartbeat_handler
  heartbeat_handler-Valid peer now r v = elim (Bool-cases (is_empty peer)) [
    | inl blank ↦ rw blank v
    | inr given ↦ rw given (
        subst (Valid settings) (sym (answer_heartbeat-store (Defs.heartbeat peer now r)))
          (heartbeat-Valid settings peer now r v))
  ]

  or_register-Valid :
      (peer : Text) (now : ℕ) (t : Defs.Registry × Defs.Result Defs.Peer)
      → Valid settings t.0
      → Valid settings (or_register peer now t)
  or_register-Valid peer now (r, Defs.ok p) v = v
  or_register-Valid peer now (r, Defs.err e) v = register-Valid settings peer now r v

  connected-Valid :
      (peer : Text) (now : ℕ) (r : Defs.Registry)
      → Valid settings r
      → Valid settings (connected peer now r)
  unfolding connected
  connected-Valid peer now r v =
      or_register-Valid peer now (Defs.heartbeat peer now r) (heartbeat-Valid settings peer now r v)

  refresh-Valid :
      (peers : List Text) (now : ℕ) (r : Defs.Registry)
      → Valid settings r
      → Valid settings (refresh peers now r)
  unfolding refresh
  refresh-Valid [] now r v = v
  refresh-Valid (peer ∷ peers) now r v =
      refresh-Valid peers now (connected peer now r) (connected-Valid peer now r v)

route-Sound :
    (settings : Store.Settings) (delivers : Delivers) (peer : Text) (message : Message) (now : ℕ)
    (h : Hub) (s : Store)
    → Sound settings s
    → Sound settings (Hub.route (other_peer now) delivers peer message now h s).1
unfolding Hub.route
route-Sound settings delivers peer message now h s o =
    elim (Bool-cases (Hub.carriable message.kind)) [
      | inr odd ↦ rw odd o
      | inl known ↦ elim (Bool-cases (Hub.allowed peer now h).1) [
        | inr fast ↦ rw (known, fast) o
        | inl in_time ↦
            rw (known, in_time) (other_peer-Sound settings now message.session_id peer s o)
      ]
    ]

-- What holds of the server at any time.
abbrev pub Kept : Store.Settings → Defs.Settings → World → Type 0
Kept sessions peers w = Sound sessions w.sessions × Valid peers w.peers

module _ (sessions : Store.Settings) (peers : Defs.Settings) where
  Happens-Kept : {w v : World} → Happens w v → Kept sessions peers w → Kept sessions peers v
  unfolding sweep
  Happens-Kept {w} (post_session fresh peer body now f) (o, k) =
      (open_handler-Sound sessions (reachable now w.peers) fresh peer body now w.sessions f o, k)
  Happens-Kept {w} (at_session method id peer now) (o, k) =
      (session_handler-Sound sessions method id peer now w.sessions o, k)
  Happens-Kept {w} (post_state body id peer now) (o, k) =
      (report_handler-Sound sessions body id peer now w.sessions o, k)
  Happens-Kept {w} (at_peers method peer now) (o, k) =
      (o, peers_handler-Valid peers method peer now w.peers k)
  Happens-Kept {w} (post_heartbeat peer now) (o, k) =
      (o, heartbeat_handler-Valid peers peer now w.peers k)
  Happens-Kept {w} (opens_channel peer conn now) (o, k) =
      (o, connected-Valid peers peer now w.peers k)
  Happens-Kept {w} (closes_channel peer conn) (o, k) = (o, k)
  Happens-Kept {w} (writes delivers peer message now) (o, k) =
      (route-Sound sessions delivers peer message now w.hub w.sessions o, k)
  Happens-Kept {w} (peers_swept clock delivers now) (o, k) = (
    close_each-Sound sessions clock (Defs.expire now w.peers).1 w.sessions o,
    expire-Valid peers now w.peers k,
  )
  Happens-Kept {w} (sessions_swept now) (o, k) = (Step-Sound sessions (reaps now) o, k)
  Happens-Kept {w} (presence_refreshed now) (o, k) =
      (o, refresh-Valid peers (keys w.hub.conns) now w.peers k)

  Runs-Kept : {w v : World} → Runs w v → Kept sessions peers w → Kept sessions peers v
  Runs-Kept started k = k
  Runs-Kept (then_happens r h) k = Happens-Kept h (Runs-Kept r k)

abbrev pub world_of : {H : Type 0} → Components H → World
world_of parts = record { peers = parts.peers; sessions = parts.sessions; hub = parts.hub }

unfoldable pub session_settings : Config → Store.Settings
session_settings c = record {
  timeout = c.negotiation_timeout;
  retention = c.session_retention;
  ceiling = c.max_sessions;
  per_peer_cap = c.max_sessions_per_peer;
  allows = allow_all;
}

abbrev pub registry_settings : Config → Defs.Settings
registry_settings c = record {
  heartbeat_interval = c.heartbeat_interval;
  suspect_after = c.suspect_after;
  offline_after = c.offline_after;
  ceiling = c.max_peers;
}

configured-Kept :
    {H : Type 0} (c : Config) (clients : ClientStore H)
    → Kept (session_settings c) (registry_settings c) (world_of (configured c clients))
unfolding session_settings
configured-Kept c clients = (
  empty-Sound (session_settings c),
  record { same_settings = refl; distinct = tt; bounded = omega arith },
)

pub load-Kept :
    {H : Type 0} (sum256 : Text → H) (out : Outside) (c : Config) (parts : Components H) {w : World}
    → load out sum256 ≡ inr c
    → start sum256 out ≡ inr parts
    → Runs (world_of parts) w
    → Kept (session_settings c) (registry_settings c) w
load-Kept sum256 out c parts {w} loads starts runs =
    let (clients, _, built) = load-start sum256 out c loads in
    let same_parts : configured c clients ≡ parts = (let e = sym built ∙ starts in ground arith) in
    let first =
      subst (λ p. Kept (session_settings c) (registry_settings c) (world_of p)) same_parts
        (configured-Kept c clients) in
    Runs-Kept (session_settings c) (registry_settings c) runs first

-- From settings that load, the server starts; and whatever then happens, in any order, it stays within
-- them: no more sessions are live than the settings allow in all, and no peer is in more live sessions
-- than they allow it; four records at most are held for each session allowed, and no more peers than the
-- settings allow, each once; and the sessions agree with their indexes and counters.
pub load-Runs :
    {H : Type 0} (sum256 : Text → H) (out : Outside) (c : Config) (parts : Components H) {w : World}
    → load out sum256 ≡ inr c
    → start sum256 out ≡ inr parts
    → Runs (world_of parts) w
    → (count live w.sessions.sessions ≤ c.max_sessions)
      × ((peer : Text) → count (live_with peer) w.sessions.sessions ≤ c.max_sessions_per_peer)
      × (held w.sessions ≤ c.max_sessions * retained_per_live)
      × (length w.peers.peers ≤ c.max_peers)
      × Distinct w.peers.peers
      × Inv w.sessions
unfolding session_settings
load-Runs sum256 out c parts {w} loads starts runs =
    let (o, k) = load-Kept sum256 out c parts loads starts runs in
    let v = o.valid.inv in
    let ceilings = ap (λ (s : Store.Settings). s.ceiling) o.same_settings in
    let caps = ap (λ (s : Store.Settings). s.per_peer_cap) o.same_settings in
    (
      omega (arith, v.counted, v.live_bound, ceilings),
      λ peer. omega (arith, v.row_count peer, v.row_bound peer, caps),
      o.bounded,
      k.bounded,
      k.distinct,
      v,
    )
