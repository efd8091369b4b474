-- ===== src/Session/Store.antt =====
-- The `Store` of internal/session/session.go: its fields and `New`.
use dc_streaming_p2p.Base.{ℕ, suc, Bool, Option, none, some, List, [], Text}
use dc_streaming_p2p.Base.Map.{Map}
use dc_streaming_p2p.Base.Int.{ℤ, pos, negsuc, positive_or}
use dc_streaming_p2p.Session.Record.{Session, allow_all}

-- The fields that `New` sets and nothing changes. `New` accepts no negative duration or ceiling.
pub record Settings : Type 0 where
  pub timeout : ℕ
  pub retention : ℕ
  pub ceiling : ℕ
  pub per_peer_cap : ℕ
  pub allows : Text → Text → Bool

pub record Store : Type 0 where
  pub settings : Settings
  pub open settings use *
  pub sessions : Map Session
  pub pairs : Map Text
  pub live_count : ℕ  -- `live`
  pub per_peer : Map (Map Bool)
  pub ended : List Text

-- `Options`, but for `Peers` and `Now`, which are arguments of the operations.
pub record Options : Type 0 where
  pub negotiation_timeout : ℤ
  pub retention : ℤ
  pub max_sessions : ℤ
  pub max_sessions_per_peer : ℤ
  pub authorizer : Option (Text → Text → Bool)

abbrev pub default_max_sessions : ℕ
default_max_sessions = 10000

abbrev pub default_max_sessions_per_peer : ℕ
default_max_sessions_per_peer = 64

-- `retainedPerLive`
abbrev pub retained_per_live : ℕ
retained_per_live = 4

pub data OptionsError : Type 0 where
  timeout_not_positive retention_negative : OptionsError

abbrev allows_or_all : Option (Text → Text → Bool) → Text → Text → Bool
allows_or_all none = allow_all
allows_or_all (some allows) = allows

abbrev pub empty_store : Settings → Store
empty_store settings = record {
  settings = settings;
  sessions = [];
  pairs = [];
  live_count = 0;
  per_peer = [];
  ended = [];
}

pub data NewResult : Type 0 where
  refused : OptionsError → NewResult
  created : Store → NewResult

new_retained : ℕ → ℤ → Options → NewResult
new_retained timeout (negsuc n) opts = refused retention_negative
new_retained timeout (pos retention) opts = created (
    empty_store (record {
      timeout = timeout;
      retention = retention;
      ceiling = positive_or default_max_sessions opts.max_sessions;
      per_peer_cap = positive_or default_max_sessions_per_peer opts.max_sessions_per_peer;
      allows = allows_or_all opts.authorizer;
    }))

new_timed : ℤ → Options → NewResult
new_timed (pos (suc n)) opts = new_retained (suc n) opts.retention opts
new_timed _ opts = refused timeout_not_positive

unfoldable pub new : Options → NewResult
unfolding new_timed new_retained
new opts = new_timed opts.negotiation_timeout opts
