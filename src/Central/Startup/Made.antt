-- ===== src/Central/Startup/Made.antt =====
-- The constructors that `run` of cmd/central/main.go calls, on settings that they accept.
use dc_streaming_p2p.Base.{
  ℕ, zero, suc, true, false, none, some, List, [], ◌∷◌, Text, inr, ◌≡◌, ◌<◌, refl, sym, arith,
  length, is_nil,
}
use dc_streaming_p2p.Base.Int.{pos}
use dc_streaming_p2p.Base.Strings.{is_empty, trim_space}
use dc_streaming_p2p.Auth.Tokens
use dc_streaming_p2p.Auth.Tokens.{new_token_issuer}
use dc_streaming_p2p.Auth.Limiter
use dc_streaming_p2p.Registry.Defs
use dc_streaming_p2p.Session.Store
use dc_streaming_p2p.Session.Record.{allow_all}
use dc_streaming_p2p.Signaling.Hub
use dc_streaming_p2p.Ice

pub limiter_made :
    (a b : ℕ)
    → 0 < a
    → 0 < b
    → Limiter.new (pos a) (pos b)
      ≡ Limiter.created
          (record { allowance = a; window = b; failures = []; order = []; last_sweep = 0 })
unfolding Limiter.new
limiter_made zero b h k = absurd (omega arith)
limiter_made (suc a) zero h k = absurd (omega arith)
limiter_made (suc a) (suc b) h k = refl

pub issuer_made :
    (key : List ℕ) (name : Text) (ttl : ℕ)
    → length key ≡ Tokens.private_key_size
    → is_empty (trim_space name) ≡ false
    → 0 < ttl
    → new_token_issuer key name (pos ttl)
      ≡ inr (record { key = key; issuer = trim_space name; ttl = ttl })
unfolding new_token_issuer
issuer_made key name zero long named h = absurd (omega arith)
issuer_made key name (suc ttl) long named h = ground arith

pub registry_made :
    (beat suspect offline cap : ℕ)
    → 0 < beat
    → beat < suspect
    → suspect < offline
    → 0 < cap
    → Defs.new (record {
      heartbeat_interval = pos beat;
      suspect_after = pos suspect;
      offline_after = pos offline;
      max_peers = pos cap;
    })
      ≡ Defs.created (record {
        settings = record {
          heartbeat_interval = beat;
          suspect_after = suspect;
          offline_after = offline;
          ceiling = cap;
        };
        peers = [];
      })
unfolding Defs.new
registry_made zero suspect offline cap h longer longest k = absurd (omega arith)
registry_made (suc beat) suspect offline zero h longer longest k = absurd (omega arith)
registry_made (suc beat) suspect offline (suc cap) h longer longest k = ground arith

pub sessions_made :
    (timeout retention cap per_peer : ℕ)
    → 0 < timeout
    → 0 < cap
    → 0 < per_peer
    → Store.new (record {
      negotiation_timeout = pos timeout;
      retention = pos retention;
      max_sessions = pos cap;
      max_sessions_per_peer = pos per_peer;
      authorizer = none;
    })
      ≡ Store.created (
          Store.empty_store (record {
            timeout = timeout;
            retention = retention;
            ceiling = cap;
            per_peer_cap = per_peer;
            allows = allow_all;
          }))
unfolding Store.new
sessions_made zero retention cap per_peer h k l = absurd (omega arith)
sessions_made (suc timeout) retention zero per_peer h k l = absurd (omega arith)
sessions_made (suc timeout) retention (suc cap) zero h k l = absurd (omega arith)
sessions_made (suc timeout) retention (suc cap) (suc per_peer) h k l = refl

pub hub_made :
    (messages window : ℕ)
    → 0 < messages
    → 0 < window
    → Hub.new (record {
      has_sessions = true;
      has_presence = true;
      messages_per_window = pos messages;
      window = pos window;
      send_timeout = pos 0;
    })
      ≡ some (record {
        allowance = messages;
        window = window;
        send_timeout = Hub.default_send_timeout;
        has_presence = true;
        conns = [];
      })
unfolding Hub.new
hub_made zero window h k = absurd (omega arith)
hub_made (suc messages) zero h k = absurd (omega arith)
hub_made (suc messages) (suc window) h k = refl

pub ice_made :
    (stun turn : List Text) (secret : Text) (ttl : ℕ)
    → is_nil turn ≡ is_empty secret
    → 0 < ttl
    → Ice.new_provider
        (record { stun_urls = stun; turn_urls = turn; secret = secret; credential_ttl = pos ttl })
      ≡ inr (record { stun = stun; turn = turn; secret = secret; credential_ttl = pos ttl })
unfolding Ice.new_provider
ice_made stun turn secret zero both h = absurd (omega arith)
ice_made stun [] secret (suc ttl) both h = refl
ice_made stun (url ∷ urls) secret (suc ttl) both h =
    let given : is_empty secret ≡ false = sym both in rw given refl
