-- ===== src/Transport/Relays.antt =====
-- `ICEConfig` of internal/transport/ice.go.
use dc_streaming_p2p.Base.{
  ℕ, Bool, Option, List, Text, if◌then◌else◌, ◌⊎◌, inl, inr, some, ◌≡◌, refl, &&-true_right,
  not-true, not,
}
use dc_streaming_p2p.Base.Strings.{is_empty}
use dc_streaming_p2p.Auth.Clients
use dc_streaming_p2p.Auth.Clients.{ClientConfig, ClientStore, authenticate, all_allowed}
use dc_streaming_p2p.Auth.Clients.Lookup.{authenticate_sound}
use dc_streaming_p2p.Ice
use dc_streaming_p2p.Ice.{Server, Provider, Options, config_for, new_provider}
use dc_streaming_p2p.Ice.Relay.{Serves, config_for-Serves}
use dc_streaming_p2p.Transport.Http
use dc_streaming_p2p.Transport.Http.{Response, refused, token_refused, answered}

-- `iceResponse`
pub record IceResponse : Type 0 where
  pub ice_servers : List Server
  pub expires_at : Option ℕ
  pub relay_available : Bool

abbrev pub ice_response : Ice.Config → IceResponse
ice_response c = record {
  ice_servers = c.servers;
  expires_at = c.expires_at;
  relay_available = c.relay_available;
}

abbrev pub answer_config : Ice.Error ⊎ Ice.Config → Response IceResponse
answer_config (inl e) = refused 500 Http.invalid_request
answer_config (inr c) = answered 200 (ice_response c)

-- `ICEConfig`, of the peer that the token names.
unfoldable pub ice_handler : (Text → Text → Text) → Provider → Text → ℕ → Response IceResponse
ice_handler sign provider peer now =
    if is_empty peer
    then token_refused 401 Http.invalid_token
    else answer_config (config_for sign provider peer now)

-- Every peer that a credential authenticates as is answered, from a provider that `NewProvider` accepts:
-- with all the STUN servers, with the relays exactly where the provider has any, and then with a
-- credential that expires one lifetime later, that the relay reads as that peer's, and that is signed
-- under the shared secret.
pub ice_handler-Serves :
    {H : Type 0} (sum256 : Text → H) (digest_dec : Discrete H) (configs : List ClientConfig)
    (clients : ClientStore H) (id secret peer : Text) (sign : Text → Text → Text) (opts : Options)
    (p : Provider) (now : ℕ)
    → Clients.new sum256 configs ≡ inr clients
    → authenticate sum256 digest_dec id secret clients ≡ some peer
    → new_provider opts ≡ inr p
    → (c : Ice.Config) × (ice_handler sign p peer now ≡ answered 200 (ice_response c))
      × Serves sign p peer now p.turn c
unfolding ice_handler
ice_handler-Serves sum256 digest_dec configs clients id secret peer sign opts p now e f g =
    let valid = (authenticate_sound sum256 digest_dec configs clients id secret peer e f).1 in
    let named = not-true _ (&&-true_right (all_allowed peer) (not (is_empty peer)) valid) in
    let (c, found, served) =
      config_for-Serves sum256 digest_dec configs clients id secret peer sign opts p now e f g in
    (c, rw (named, found) refl, served)
