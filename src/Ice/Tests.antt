-- ===== src/Ice/Tests.antt =====
-- A peer that is configured, served by a provider with a relay, of internal/ice/ice.go.
use dc_streaming_p2p.Base.{
  ◌+◌, ◌<◌, [], ◌∷◌, ◌++◌, Text, some, inr, ◌≡◌, refl, text_dec, ℕ_discrete,
}
use dc_streaming_p2p.Base.Int.{pos}
use dc_streaming_p2p.Base.Decimal.{format_int}
use dc_streaming_p2p.Base.Strings.{codes, trim_space, text_len}
use dc_streaming_p2p.Base.Map.{lookup, insert}
use dc_streaming_p2p.Auth.Clients
use dc_streaming_p2p.Auth.Clients.{ClientConfig, ClientStore, authenticate}
use dc_streaming_p2p.Ice.{Credential, Config, Options, new_credential, new_provider, provider_of}
use dc_streaming_p2p.Ice.Relay.{relay_reads, relay_reads-new_credential, Serves}
use dc_streaming_p2p.Transport.Http
use dc_streaming_p2p.Transport.Relays.{ice_handler, ice_response, ice_handler-Serves}

-- A signature that shows the secret and the text.
abbrev sign : Text → Text → Text
sign secret text = secret ++ text

abbrev digest : Text → Text
digest text = text

abbrev secret : Text
secret = codes "0123456789abcdef0123456789abcdef"

abbrev ann_client : ClientConfig
ann_client = record { id = codes "c"; peer_id = codes "ann"; secret = secret }

abbrev clients : ClientStore Text
clients = record {
  clients = (codes "c", record { peer_id = codes "ann"; secret_hash = secret }) ∷ [];
  dummy = Clients.dummy_text;
}

abbrev opts : Options
opts = record {
  stun_urls = codes "stun:s" ∷ [];
  turn_urls = codes "turn:t" ∷ [];
  secret = codes "shared";
  credential_ttl = pos 600000000000;
}

abbrev credential : Credential
credential = record {
  username = codes "605:ann";
  password = codes "shared605:ann";
  expires_at = 605000000000;
}

clients-made : Clients.new digest (ann_client ∷ []) ≡ inr clients
unfolding Clients.new trim_space text_len lookup insert
clients-made = refl

ann-authenticated : authenticate digest text_dec (codes "c") secret clients ≡ some (codes "ann")
unfolding authenticate lookup text_dec ℕ_discrete
ann-authenticated = refl

credential-issued :
    new_credential sign (codes "ann") (codes "shared") (pos 600000000000) 5000000000
    ≡ inr credential
unfolding new_credential trim_space format_int
credential-issued = refl

provider-made : new_provider opts ≡ inr (provider_of opts)
unfolding new_provider
provider-made = refl

relay_reads-new_credential_example :
    (relay_reads (codes "605:ann") ≡ some (605, codes "ann"))
    × (605000000000 ≡ 5000000000 + 600000000000)
    × (5000000000 < 605000000000)
    × (codes "shared605:ann" ≡ sign (codes "shared") (codes "605:ann"))
relay_reads-new_credential_example =
    relay_reads-new_credential sign (codes "ann") (codes "shared") (pos 600000000000) 5000000000
      credential credential-issued

ice_handler-Serves_example :
    (c : Config) × (ice_handler sign (provider_of opts) (codes "ann") 5000000000
      ≡ Http.answered 200 (ice_response c))
    × Serves sign (provider_of opts) (codes "ann") 5000000000 (codes "turn:t" ∷ []) c
ice_handler-Serves_example =
    ice_handler-Serves digest text_dec (ann_client ∷ []) clients (codes "c") secret (codes "ann")
      sign opts (provider_of opts) 5000000000 clients-made ann-authenticated provider-made
