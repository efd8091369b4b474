-- ===== src/Central.antt =====
-- The adapters of cmd/central/main.go, which join the session store, the registry and the hub.
pub mod Facing
pub mod Delivery
pub mod Presence
pub mod Startup
pub mod Sweep
pub mod Running
mod Tests
use dc_streaming_p2p.Base.{
  ℕ, Bool, true, false, Option, none, some, List, [], ◌∷◌, Text, if◌then◌else◌, is_some, ◌≡◌, refl,
  ◌∙◌, arith, ◌≤◌, Option-cases, inl, inr, ap, ◌⊎◌, Bool-cases, subst, sym, text_dec,
}
use dc_streaming_p2p.Base.Map.{lookup}
use dc_streaming_p2p.Session.Record.{State, Session, Result, ok, err, live, is_live, has, other}
use dc_streaming_p2p.Session.Reports.{Inside, has-Inside, Inside-has, Outside}
use dc_streaming_p2p.Session.Store.{Store}
use dc_streaming_p2p.Session.Ops.{get, member}
use dc_streaming_p2p.Session.Invariant.{Inv}
use dc_streaming_p2p.Session.Outcomes.{get_lem, answer_to}
use dc_streaming_p2p.Session.Settling.{settled, settled_opt, view}
use dc_streaming_p2p.Registry.Defs

-- `reachable.Lookup`
abbrev pub reachable : ℕ → Defs.Registry → Text → Bool
reachable now r peer = is_some (Defs.look_up peer now r)

abbrev pub other_in : Text → Store × Result Session → Store × Option Text
other_in peer (s, err e) = (s, none)
other_in peer (s, ok held) = (s, if live held then some (other held peer) else none)

-- `sessionsAsPairs.Other`
unfoldable pub other_peer : ℕ → Text → Text → Store → Store × Option Text
other_peer now session_id peer s = other_in peer (get session_id peer now s)

abbrev pub or_register : Text → ℕ → Defs.Registry × Defs.Result Defs.Peer → Defs.Registry
or_register peer now (r, Defs.ok p) = r
or_register peer now (r, Defs.err e) = (Defs.register peer now r).0

-- `presence.Connected`
unfoldable pub connected : Text → ℕ → Defs.Registry → Defs.Registry
connected peer now r = or_register peer now (Defs.heartbeat peer now r)

-- A round of `refreshPresence`, over the peers that hold a channel.
unfoldable pub refresh : List Text → ℕ → Defs.Registry → Defs.Registry
unfolding connected
refresh [] now r = r
refresh (peer ∷ peers) now r = refresh peers now (connected peer now r)
