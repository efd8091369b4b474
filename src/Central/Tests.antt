-- ===== src/Central/Tests.antt =====
-- A store with one call, and a registry with one peer, and the theorems applied to them.
use dc_streaming_p2p.Base.{
  ℕ, List, true, false, holds, inl, inr, ◌≡◌, refl, none, some, [], ◌∷◌, Text, text_dec, ℕ_discrete,
  arith,
}
use dc_streaming_p2p.Base.Map.{lookup, insert}
use dc_streaming_p2p.Base.Int.{pos}
use dc_streaming_p2p.Base.Strings.{codes, trim_space}
use dc_streaming_p2p.Session.Record.{Session, allow_all, has, live, closed, unknown}
use dc_streaming_p2p.Signaling.Hub.{Hub, Event, Delivers, Message, answer, no_code, sends, route}
use dc_streaming_p2p.Central.Sweep.{sweep, sweep_lem}
use dc_streaming_p2p.Session.Steps
use dc_streaming_p2p.Session.Store.{Options, Store, new, empty_store}
use dc_streaming_p2p.Session.Ops.{open_session, new_session}
use dc_streaming_p2p.Session.Opening.{Sound}
use dc_streaming_p2p.Session.Settling.{view}
use dc_streaming_p2p.Session.History.{Reach-Sound, here, next, opens}
use dc_streaming_p2p.Registry.Defs
use dc_streaming_p2p.Auth.Clients
use dc_streaming_p2p.Auth.Clients.{ClientStore}
use dc_streaming_p2p.Config.Tests as Env
use dc_streaming_p2p.Config.Tests.{digest}
use dc_streaming_p2p.Base.{◌≤◌, ◌*◌, length}
use dc_streaming_p2p.Base.Map.{Distinct}
use dc_streaming_p2p.Base.Map.Count.{count}
use dc_streaming_p2p.Session.Store.{retained_per_live}
use dc_streaming_p2p.Session.Ops.{held}
use dc_streaming_p2p.Session.Invariant.{Inv, live_with}
use dc_streaming_p2p.Transport.Http
use dc_streaming_p2p.Transport.Sessions.{open_handler}
use dc_streaming_p2p.Transport.Peers.{peers_handler}
use dc_streaming_p2p.Central.{reachable}
use dc_streaming_p2p.Registry.Windows.{is_online}
use dc_streaming_p2p.Central.Running.Health.{health, load-health}
use dc_streaming_p2p.Central.Running as Run
use dc_streaming_p2p.Central.Running.{World, Runs, then_happens, at_peers, post_session}
use dc_streaming_p2p.Central.Running.Bounds.{world_of, load-Runs}
use dc_streaming_p2p.Central.Startup.{Components, start, configured, load-start}
use dc_streaming_p2p.Central.{other_peer, refresh}
use dc_streaming_p2p.Central.Facing.{Far, Faces, other_peer_lem}
use dc_streaming_p2p.Central.Delivery.{HasRoom, answers, route-Faces}
use dc_streaming_p2p.Signaling.Routing.{heard_of, conn_of}
use dc_streaming_p2p.Central.Presence.{refresh-look_up, touched}

abbrev ann : Text
ann = 97 ∷ []

abbrev bob : Text
bob = 98 ∷ []

abbrev call : Text
call = 49 ∷ []

abbrev opts : Options
opts = record {
  negotiation_timeout = pos 30;
  retention = pos 60;
  max_sessions = pos 10;
  max_sessions_per_peer = pos 3;
  authorizer = none;
}

abbrev started : Store
started =
    empty_store
      (record { timeout = 30; retention = 60; ceiling = 10; per_peer_cap = 3; allows = allow_all })

abbrev called : Store
called = (open_session (some call) ann bob 5 started).0

called-Sound : Sound started.settings called
unfolding new lookup
called-Sound = Reach-Sound opts refl (next here (opens (some call) ann bob 5 refl))

called_call : lookup call called.sessions ≡ some (new_session call ann bob 5)
unfolding lookup open_session trim_space text_dec ℕ_discrete Steps.find_pair insert Steps.trim
called_call = refl

other_peer_lem_example :
    Far call bob 20 called (other_peer 20 call bob called).1
    × (view 21 (other_peer 20 call bob called).0 call ≡ view 21 called call)
other_peer_lem_example =
    other_peer_lem call bob call 20 21 called called-Sound.valid.inv (omega arith)

-- The called peer answers, on a hub where both have just connected.
abbrev answered : Message
answered = record {
  kind = answer;
  session_id = call;
  from = [];
  payload = 1 ∷ [];
  code = no_code;
  state = [];
}

abbrev hub : Hub
hub = record {
  allowance = 2;
  window = 10;
  send_timeout = 5;
  has_presence = true;
  conns =
      (ann, record { conn = 1; sent = 0; window_from = 6 })
      ∷ (bob, record { conn = 2; sent = 1; window_from = 7 })
      ∷ [];
}

abbrev all_delivered : Delivers
all_delivered conn m = true

bob-HasRoom : HasRoom bob 9 hub
unfolding lookup text_dec ℕ_discrete
bob-HasRoom = (record { conn = 2; sent = 1; window_from = 7 }, refl, inl (omega arith))

bob-Faces : Faces call bob 9 called ann
unfolding open_session trim_space text_dec ℕ_discrete Steps.find_pair lookup Steps.trim
bob-Faces = (new_session call ann bob 5, called_call, inl refl, inr (refl, refl))

ann_connected : conn_of ann hub ≡ some 1
unfolding lookup text_dec ℕ_discrete
ann_connected = refl

route-Faces_example :
    ((route (other_peer 9) all_delivered bob answered 9 hub called).2
      ≡ sends 1 (heard_of bob answered) ∷ [])
    × ((route (other_peer 9) all_delivered bob answered 9 hub called).3 ≡ none)
route-Faces_example =
    route-Faces bob ann all_delivered answered 9 1 hub called called-Sound.valid.inv answers
      (λ e. absurd (ground arith)) bob-HasRoom bob-Faces ann_connected refl

abbrev registry : Defs.Registry
registry =
    (Defs.register ann 5 (
      Defs.empty_registry (record {
        heartbeat_interval = pos 10;
        suspect_after = pos 20;
        offline_after = pos 50;
        max_peers = pos 1;
      }))).0

abbrev first : Defs.Peer
first = record { id = ann; registered_at = 5; last_seen = 5; state = Defs.online }

ann_registered : Defs.look_up ann 9 registry ≡ some first
unfolding trim_space Defs.look_up lookup Defs.register insert text_dec ℕ_discrete Defs.state_of
ann_registered = refl

refresh-look_up_example :
    Defs.look_up ann 9 (refresh (bob ∷ ann ∷ []) 9 registry) ≡ some (touched 9 first)
unfolding trim_space text_dec ℕ_discrete
refresh-look_up_example =
    refresh-look_up (bob ∷ ann ∷ []) ann 9 registry first (refl, (refl, tt)) ann_registered

load-start_example :
    (clients : ClientStore Text) × (Clients.new digest Env.loaded.clients ≡ inr clients)
    × (start digest Env.out ≡ inr (configured Env.loaded clients))
load-start_example = load-start digest Env.out Env.loaded Env.out-loads

-- A registry where ann was last heard of at 5.
abbrev short : Defs.Registry
short = record {
  settings = record { heartbeat_interval = 5; suspect_after = 10; offline_after = 20; ceiling = 3 };
  peers = (ann, record { registered_at = 5; last_seen = 5 }) ∷ [];
}

abbrev no_hub : Hub
no_hub = record { allowance = 3; window = 10; send_timeout = 5; has_presence = true; conns = [] }

abbrev clock : Text → ℕ
clock peer = 27

abbrev delivers : Delivers
delivers conn message = true

abbrev swept : Defs.Registry × Store × List Event
swept = sweep clock delivers 26 short called no_hub

abbrev hung_up : Session
hung_up = record {
  id = call;
  caller = ann;
  callee = bob;
  state = closed;
  path = unknown;
  opened_at = 5;
  changed_at = 27;
}

ann_silent : holds (Defs.expired short.settings 26) (lookup ann short.peers) ≡ true
unfolding lookup text_dec ℕ_discrete Defs.state_of
ann_silent = refl

found_after : lookup call swept.1.sessions ≡ some hung_up
unfolding lookup sweep dc_streaming_p2p.Central.Sweep.close_each Defs.expire text_dec ℕ_discrete
    Defs.state_of dc_streaming_p2p.Session.Ops.close_peer open_session trim_space Steps.find_pair
    insert Steps.trim has
found_after = refl

ann_in : has ann hung_up ≡ true
unfolding has text_dec ℕ_discrete
ann_in = refl

sweep_lem_example :
    (Defs.look_up ann 26 (sweep clock delivers 26 short called no_hub).0 ≡ none)
    × (live hung_up ≡ false)
sweep_lem_example =
    sweep_lem started.settings clock delivers 26 short called no_hub ann call hung_up called-Sound
      ann_silent found_after ann_in

abbrev parts : Components Text
parts = configured Env.loaded (load-start digest Env.out Env.loaded Env.out-loads).0

parts-started : start digest Env.out ≡ inr parts
parts-started = (load-start digest Env.out Env.loaded Env.out-loads).2

-- ann and bob register, and ann calls bob.
abbrev ann_here : World
ann_here = record (world_of parts) { peers = (peers_handler Http.post ann 5 parts.peers).0 }

abbrev both_here : World
both_here = record ann_here { peers = (peers_handler Http.post bob 6 ann_here.peers).0 }

abbrev ann_calls : World
ann_calls = record both_here {
  sessions =
      (open_handler (some (reachable 7 both_here.peers)) (some call) ann (some bob) 7
        both_here.sessions).0;
}

ann_calls-Runs : Runs (world_of parts) ann_calls
unfolding lookup
ann_calls-Runs =
    then_happens
      (then_happens (then_happens Run.started (at_peers Http.post ann 5))
        (at_peers Http.post bob 6))
      (post_session (some call) ann (some bob) 7 refl)

load-Runs_example :
    (count live ann_calls.sessions.sessions ≤ Env.loaded.max_sessions)
    × ((peer : Text)
        → count (live_with peer) ann_calls.sessions.sessions ≤ Env.loaded.max_sessions_per_peer)
    × (held ann_calls.sessions ≤ Env.loaded.max_sessions * retained_per_live)
    × (length ann_calls.peers.peers ≤ Env.loaded.max_peers)
    × Distinct ann_calls.peers.peers
    × Inv ann_calls.sessions
load-Runs_example =
    load-Runs digest Env.out Env.loaded parts Env.out-loads parts-started ann_calls-Runs

load-health_example :
    ((health Env.loaded (codes "dev") 0 9 ann_calls).sessions_live
      ≡ count live ann_calls.sessions.sessions)
    × ((health Env.loaded (codes "dev") 0 9 ann_calls).sessions_live ≤ Env.loaded.max_sessions)
    × ((health Env.loaded (codes "dev") 0 9 ann_calls).peers_online
        ≡ count (is_online ann_calls.peers.settings 9) ann_calls.peers.peers)
    × ((health Env.loaded (codes "dev") 0 9 ann_calls).peers_online ≤ Env.loaded.max_peers)
load-health_example =
    load-health digest Env.out Env.loaded parts (codes "dev") 0 9 Env.out-loads parts-started
      ann_calls-Runs
