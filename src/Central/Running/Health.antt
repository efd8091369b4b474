-- ===== src/Central/Running/Health.antt =====
-- The health route of internal/transport/health.go, as `routes` of cmd/central/main.go wires it up.
use dc_streaming_p2p.Base.{ℕ, ◌≤◌, ◌≡◌, ap, some, Text, arith, inr}
use dc_streaming_p2p.Base.Map.Count
use dc_streaming_p2p.Base.Map.Count.{count-le-length}
use dc_streaming_p2p.Config.{Config, Outside, relay_configured}
use dc_streaming_p2p.Config.Load.{load}
use dc_streaming_p2p.Session.Record.{live}
use dc_streaming_p2p.Session.Store
use dc_streaming_p2p.Session.Ops.{count_live}
use dc_streaming_p2p.Registry.Defs
use dc_streaming_p2p.Registry.Windows.{count_lem, is_online}
use dc_streaming_p2p.Signaling.Hub
use dc_streaming_p2p.Transport.Health.{HealthDeps, HealthResponse, health_handler}
use dc_streaming_p2p.Central.Startup.{Components, start}
use dc_streaming_p2p.Central.Running.{World, Runs}
use dc_streaming_p2p.Central.Running.Bounds.{world_of, session_settings, load-Kept}

abbrev pub health_deps : Config → Text → ℕ → World → HealthDeps
health_deps c build now w = record {
  peers_online = some (Defs.count now w.peers).online_count;
  sessions_live = some (count_live w.sessions);
  channels_open = some (Hub.count w.hub);
  relay_configured = relay_configured c;
  build = build;
}

abbrev pub health : Config → Text → ℕ → ℕ → World → HealthResponse
health c build started now w = health_handler (health_deps c build now w) started now

-- From settings that load and whatever has happened since, the health route tells the truth and within
-- the settings' bounds: the sessions it counts are the live ones of those stored, and the peers are
-- those in the registry that are online.
pub load-health :
    {H : Type 0} (sum256 : Text → H) (out : Outside) (c : Config) (parts : Components H) {w : World}
    (build : Text) (started now : ℕ)
    → load out sum256 ≡ inr c
    → start sum256 out ≡ inr parts
    → Runs (world_of parts) w
    → ((health c build started now w).sessions_live ≡ Count.count live w.sessions.sessions)
      × ((health c build started now w).sessions_live ≤ c.max_sessions)
      × ((health c build started now w).peers_online
          ≡ Count.count (is_online w.peers.settings now) w.peers.peers)
      × ((health c build started now w).peers_online ≤ c.max_peers)
unfolding session_settings
load-health sum256 out c parts {w} build started now loads starts runs =
    let (o, k) = load-Kept sum256 out c parts loads starts runs in
    let v = o.valid.inv in
    let ceilings = ap (λ (s : Store.Settings). s.ceiling) o.same_settings in
    let (online, _, _, _) = count_lem _ now w.peers k in
    (
      v.counted,
      omega (arith, v.live_bound, ceilings),
      online,
      omega (
        arith,
        online,
        k.bounded,
        count-le-length (is_online w.peers.settings now) w.peers.peers,
      ),
    )
