-- ===== src/Central/Startup.antt =====
-- `run` of cmd/central/main.go from the settings to the components that it builds from them.
mod Made
use dc_streaming_p2p.Base.{
  ℕ, zero, suc, true, false, Option, none, some, List, [], ◌∷◌, Text, ◌⊎◌, inl, inr, ◌≡◌, ◌<◌, refl,
  sym, arith, length, is_nil,
}
use dc_streaming_p2p.Base.Int.{pos}
use dc_streaming_p2p.Base.Strings.{is_empty, trim_space}
use dc_streaming_p2p.Config as Settings
use dc_streaming_p2p.Config.{Config, Outside}
use dc_streaming_p2p.Config.Load.{load}
use dc_streaming_p2p.Config.Checked.{IsUsable, load-IsUsable}
use dc_streaming_p2p.Auth.Clients
use dc_streaming_p2p.Auth.Clients.{ClientStore}
use dc_streaming_p2p.Auth.Tokens
use dc_streaming_p2p.Auth.Tokens.{new_token_issuer}
use dc_streaming_p2p.Auth.Limiter
use dc_streaming_p2p.Registry.Defs
use dc_streaming_p2p.Session.Store
use dc_streaming_p2p.Session.Record.{allow_all}
use dc_streaming_p2p.Signaling.Hub
use dc_streaming_p2p.Ice
use dc_streaming_p2p.Central.Startup.Made.{
  limiter_made, issuer_made, registry_made, sessions_made, hub_made, ice_made,
}

-- Why `run` stops: the settings, or what one of the components says of its own.
pub data Fault : Type 0 where
  settings_refused : List Settings.Problem → Fault
  clients_refused : List Clients.Problem → Fault
  issuer_refused : Tokens.Error → Fault
  limiter_refused hub_refused : Fault
  registry_refused : List Defs.Problem → Fault
  sessions_refused : Store.OptionsError → Fault
  ice_refused : Ice.Error → Fault

-- What `run` holds on to.
pub record Components (H : Type 0) : Type 0 where
  pub clients : ClientStore H
  pub issuer : Tokens.Issuer
  pub limiter : Limiter.Limiter
  pub peers : Defs.Registry
  pub sessions : Store.Store
  pub hub : Hub.Hub
  pub ice : Ice.Provider

-- The options that `run` makes of the settings.
abbrev pub registry_options : Config → Defs.Options
registry_options c = record {
  heartbeat_interval = pos c.heartbeat_interval;
  suspect_after = pos c.suspect_after;
  offline_after = pos c.offline_after;
  max_peers = pos c.max_peers;
}

abbrev pub session_options : Config → Store.Options
session_options c = record {
  negotiation_timeout = pos c.negotiation_timeout;
  retention = pos c.session_retention;
  max_sessions = pos c.max_sessions;
  max_sessions_per_peer = pos c.max_sessions_per_peer;
  authorizer = none;
}

abbrev pub hub_options : Config → Hub.Options
hub_options c = record {
  has_sessions = true;
  has_presence = true;
  messages_per_window = pos c.signal_messages_per_window;
  window = pos c.signal_window;
  send_timeout = pos 0;
}

abbrev pub ice_options : Config → Ice.Options
ice_options c = record {
  stun_urls = c.stun_urls;
  turn_urls = c.turn_urls;
  secret = c.turn_secret;
  credential_ttl = pos c.turn_credential_ttl;
}

-- What each constructor answers, as a component or a fault.
abbrev pub or_fault {ℓ κ} : {A : Type ℓ} {E : Type κ} → (E → Fault) → E ⊎ A → Fault ⊎ A
or_fault fault (inl e) = inl (fault e)
or_fault fault (inr a) = inr a

abbrev pub limiter_of : Limiter.NewResult → Fault ⊎ Limiter.Limiter
limiter_of (Limiter.created l) = inr l
limiter_of _ = inl limiter_refused

abbrev pub registry_of : Defs.NewResult → Fault ⊎ Defs.Registry
registry_of (Defs.refused problems) = inl (registry_refused problems)
registry_of (Defs.created r) = inr r

abbrev pub sessions_of : Store.NewResult → Fault ⊎ Store.Store
sessions_of (Store.refused e) = inl (sessions_refused e)
sessions_of (Store.created s) = inr s

abbrev pub hub_of : Option Hub.Hub → Fault ⊎ Hub.Hub
hub_of none = inl hub_refused
hub_of (some h) = inr h

-- A step of `run` that may fail, and the steps after it.
abbrev pub and_next {ℓ κ} : {A : Type ℓ} {B : Type κ} → Fault ⊎ A → (A → Fault ⊎ B) → Fault ⊎ B
and_next (inl fault) next = inl fault
and_next (inr a) next = next a

module _ {H : Type 0} (sum256 : Text → H) where
  unfoldable pub assemble : Config → Fault ⊎ Components H
  assemble c = and_next (or_fault clients_refused (Clients.new sum256 c.clients)) (λ clients.
      and_next
        (or_fault issuer_refused (new_token_issuer c.token_signing_key c.issuer (pos c.token_ttl)))
        (λ issuer.
          and_next (limiter_of (Limiter.new (pos c.auth_max_failures) (pos c.auth_failure_window)))
            (λ limiter. and_next (registry_of (Defs.new (registry_options c))) (λ peers.
              and_next (sessions_of (Store.new (session_options c))) (λ sessions.
                and_next (hub_of (Hub.new (hub_options c))) (λ hub.
                  and_next (or_fault ice_refused (Ice.new_provider (ice_options c))) (λ ice.
                    inr (record {
                      clients = clients;
                      issuer = issuer;
                      limiter = limiter;
                      peers = peers;
                      sessions = sessions;
                      hub = hub;
                      ice = ice;
                    }))))))))

  -- `run`, up to the server.
  abbrev pub start_with : List Settings.Problem ⊎ Config → Fault ⊎ Components H
  start_with (inl problems) = inl (settings_refused problems)
  start_with (inr c) = assemble c

  unfoldable pub start : Outside → Fault ⊎ Components H
  start out = start_with (load out sum256)

-- The components that carry the settings as they are, with nothing in them yet.
abbrev pub configured : {H : Type 0} → Config → ClientStore H → Components H
configured c clients = record {
  clients = clients;
  issuer = record { key = c.token_signing_key; issuer = trim_space c.issuer; ttl = c.token_ttl };
  limiter = record {
    allowance = c.auth_max_failures;
    window = c.auth_failure_window;
    failures = [];
    order = [];
    last_sweep = 0;
  };
  peers = record {
    settings = record {
      heartbeat_interval = c.heartbeat_interval;
      suspect_after = c.suspect_after;
      offline_after = c.offline_after;
      ceiling = c.max_peers;
    };
    peers = [];
  };
  sessions = Store.empty_store (record {
    timeout = c.negotiation_timeout;
    retention = c.session_retention;
    ceiling = c.max_sessions;
    per_peer_cap = c.max_sessions_per_peer;
    allows = allow_all;
  });
  hub = record {
    allowance = c.signal_messages_per_window;
    window = c.signal_window;
    send_timeout = Hub.default_send_timeout;
    has_presence = true;
    conns = [];
  };
  ice = record {
    stun = c.stun_urls;
    turn = c.turn_urls;
    secret = c.turn_secret;
    credential_ttl = pos c.turn_credential_ttl;
  };
}

module _ {H : Type 0} (sum256 : Text → H) where
  -- Every part is built from usable settings, and carries them.
  assemble-configured :
      (c : Config)
      → IsUsable sum256 c
      → (clients : ClientStore H) × (Clients.new sum256 c.clients ≡ inr clients)
        × (assemble sum256 c ≡ inr (configured c clients))
  unfolding assemble
  assemble-configured c usable =
      let (clients, made) = usable.clients in
      (
        clients,
        made,
        rw
            (
              made,
              issuer_made c.token_signing_key c.issuer c.token_ttl usable.key usable.issuer
                  usable.token_ttl,
              limiter_made c.auth_max_failures c.auth_failure_window usable.failures
                  usable.failure_window,
              registry_made c.heartbeat_interval c.suspect_after c.offline_after c.max_peers
                  usable.heartbeat usable.suspect usable.offline usable.peers,
              sessions_made c.negotiation_timeout c.session_retention c.max_sessions
                  c.max_sessions_per_peer usable.negotiation usable.sessions
                  usable.sessions_per_peer,
              hub_made c.signal_messages_per_window c.signal_window usable.messages usable.window,
              ice_made c.stun_urls c.turn_urls c.turn_secret c.turn_credential_ttl usable.relay
                  usable.credential_ttl,
            )
            refl,
      )

  -- Settings that load without a problem start the program: no component refuses what `run` makes of
  -- them, the clients are those that are configured, and every other component carries the settings as
  -- they were read, none of them replaced by a default.
  pub load-start :
      (out : Outside) (c : Config)
      → load out sum256 ≡ inr c
      → (clients : ClientStore H) × (Clients.new sum256 c.clients ≡ inr clients)
        × (start sum256 out ≡ inr (configured c clients))
  unfolding start
  load-start out c e =
      let (clients, made, built) = assemble-configured c (load-IsUsable out sum256 c e) in
      (clients, made, rw e built)
