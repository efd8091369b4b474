-- ===== src/Transport/Health.antt =====
-- `Health` of internal/transport/health.go.
use dc_streaming_p2p.Base.{ℕ, ◌-◌, ◌/◌, Bool, Option, none, some, Text}
use dc_streaming_p2p.Base.Strings.{codes}

-- `HealthDeps`, but for the clock: what each counter says, where it is wired up.
pub record HealthDeps : Type 0 where
  pub peers_online : Option ℕ
  pub sessions_live : Option ℕ
  pub channels_open : Option ℕ
  pub relay_configured : Bool
  pub build : Text

-- `healthResponse`
pub record HealthResponse : Type 0 where
  pub status : Text
  pub build : Text
  pub uptime_seconds : ℕ
  pub peers_online : ℕ
  pub sessions_live : ℕ
  pub channels_open : ℕ
  pub relay_configured : Bool

-- `count`
abbrev pub counter : Option ℕ → ℕ
counter none = 0
counter (some n) = n

-- `Health`, of the time at which it was made and of that of a request.
abbrev pub health_handler : HealthDeps → ℕ → ℕ → HealthResponse
health_handler deps started now = record {
  status = codes "ok";
  build = deps.build;
  uptime_seconds = (now - started) / 1000000000;
  peers_online = counter deps.peers_online;
  sessions_live = counter deps.sessions_live;
  channels_open = counter deps.channels_open;
  relay_configured = deps.relay_configured;
}
