-- ===== src/Ice/Relay.antt =====
-- `NewCredential` and `For` of internal/ice/ice.go, over what a relay reads from a username and over
-- the peers that internal/auth/clients.go accepts.
use dc_streaming_p2p.Base.{
  ℕ, ◌+◌, ◌<◌, ◌≤◌, ◌≡◌, ◌≢◌, refl, sym, ap, ◌∙◌, true, false, not, Option, none, some, List, [],
  ◌∷◌, ◌++◌, Text, inl, inr, arith, Bool-cases, ◌&&◌, is_nil, &&-true_left, &&-true_right, not-true,
  ne-==false,
}
use dc_streaming_p2p.Base.Int.{ℤ, is_positive, pos_part}
use dc_streaming_p2p.Base.Strings.{is_empty, trim_space, is_space, has_char, cut_at, cut_at-append}
use dc_streaming_p2p.Base.Trim.{no_spaces, trim_space-no_spaces}
use dc_streaming_p2p.Base.Decimal.{format_int, read_int, read_int-format_int, has_char-format_int}
use dc_streaming_p2p.Auth.Clients
use dc_streaming_p2p.Auth.Clients.{
  ClientConfig, ClientStore, authenticate, valid_peer_id, all_allowed, peer_id_allowed,
}
use dc_streaming_p2p.Auth.Clients.Lookup.{authenticate_sound}
use dc_streaming_p2p.Ice.{
  separator, Credential, unix, Config, Options, Provider, new_provider, new_credential,
  credential_until, username_for, config_for, config_with, stun_servers, provider_of,
  new_with_relay,
}

-- How a relay reads a username: the expiry in seconds before the first separator, and the rest.
abbrev pub reading : Option (Text × Text) → Option (ℕ × Text)
reading none = none
reading (some (before, after)) = elim (read_int before) [
  | none ↦ none
  | some seconds ↦ some (seconds, after)
]

abbrev pub relay_reads : Text → Option (ℕ × Text)
relay_reads username = reading (cut_at separator username)

relay_reads-username_for :
    (sign : Text → Text → Text) (expires : ℕ) (peer : Text)
    → relay_reads (username_for sign expires peer) ≡ some (unix expires, peer)
relay_reads-username_for sign expires peer =
    ap reading (
      cut_at-append separator (format_int (unix expires)) peer
        (has_char-format_int separator (unix expires) (inr (omega arith))))
    ∙ ground (arith, read_int-format_int (unix expires))

-- A relay reads from an issued credential's username the second at which it expires, which is one
-- positive lifetime after it was issued, and the very peer that it was issued to; and its password is
-- the signature of that username under the shared secret.
pub relay_reads-new_credential :
    (sign : Text → Text → Text) (peer secret : Text) (lifetime : ℤ) (now : ℕ) (c : Credential)
    → new_credential sign peer secret lifetime now ≡ inr c
    → (relay_reads c.username ≡ some (unix c.expires_at, peer))
      × (c.expires_at ≡ now + pos_part lifetime)
      × (now < c.expires_at)
      × (c.password ≡ sign secret c.username)
unfolding new_credential
relay_reads-new_credential sign peer secret lifetime now c e =
    let issued : credential_until sign (now + pos_part lifetime) peer secret ≡ c = ground arith in
    let reads = relay_reads-username_for sign (now + pos_part lifetime) peer in
    (rw (← issued) reads, rw (← issued) refl, rw (← issued) (ground arith), rw (← issued) refl)

-- An accepted identifier can be a relay's: it has no separator and nothing to trim.
peer_id_allowed-range :
    (c : ℕ) → peer_id_allowed c ≡ true → (b'-' ≤ c) × (c ≤ b'z') × (c ≢ separator)
peer_id_allowed-range c h = (ground arith, ground arith, λ e. ground arith)

is_space-range : (c : ℕ) → b'-' ≤ c → c ≤ b'z' → is_space c ≡ false
unfolding is_space
is_space-range c low high = ground arith

valid_peer_id-chars :
    (peer : Text)
    → all_allowed peer ≡ true
    → (has_char separator peer ≡ false) × (no_spaces peer ≡ true)
valid_peer_id-chars [] h = (refl, refl)
valid_peer_id-chars (c ∷ s) h =
    let first : peer_id_allowed c ≡ true = &&-true_left (peer_id_allowed c) (all_allowed s) h in
    let others = &&-true_right (peer_id_allowed c) (all_allowed s) h in
    let (low, high, plain) = peer_id_allowed-range c first in
    let (none_after, solid) = valid_peer_id-chars s others in
    (rw (ne-==false c separator plain) none_after, rw (is_space-range c low high) solid)

pub valid_peer_id-carried :
    (peer : Text)
    → valid_peer_id peer ≡ true
    → (has_char separator peer ≡ false) × (is_empty (trim_space peer) ≡ false)
valid_peer_id-carried peer h =
    let (plain, solid) =
      valid_peer_id-chars peer (&&-true_left (all_allowed peer) (not (is_empty peer)) h) in
    (
      plain,
      rw (trim_space-no_spaces peer solid)
          (not-true (is_empty peer) (&&-true_right (all_allowed peer) (not (is_empty peer)) h)),
    )

-- What a provider gives a peer: its STUN servers, and where it has relays also those, with a credential
-- that expires one lifetime later, that a relay reads as that peer's, and that is signed.
abbrev pub Serves : (Text → Text → Text) → Provider → Text → ℕ → List Text → Config → Type 0
Serves sign p peer now [] c =
    c ≡ record { servers = stun_servers sign p.stun; expires_at = none; relay_available = false }
Serves sign p peer now (url ∷ urls) c =
    (expires : ℕ) × (expires ≡ now + pos_part p.credential_ttl)
    × ((username : Text) × (relay_reads username ≡ some (unix expires, peer))
        × (c ≡ record {
          servers =
              stun_servers sign p.stun
              ++ record {
                urls = url ∷ urls;
                username = username;
                credential = sign p.secret username;
              }
                ∷ [];
          expires_at = some expires;
          relay_available = true;
        }))

config_with-Serves :
    (sign : Text → Text → Text) (p : Provider) (peer : Text) (now : ℕ) (turn : List Text)
    → p.turn ≡ turn
    → valid_peer_id peer ≡ true
    → not (is_nil turn) && is_empty p.secret ≡ false
    → not (is_nil turn) && not (is_positive p.credential_ttl) ≡ false
    → (c : Config) × (config_with sign turn p peer now ≡ inr c) × Serves sign p peer now turn c
config_with-Serves sign p peer now [] e v secret lasts = (
  record { servers = stun_servers sign p.stun; expires_at = none; relay_available = false },
  refl,
  refl,
)
config_with-Serves sign p peer now (url ∷ urls) e v secret lasts =
    let expires = now + pos_part p.credential_ttl in
    let (plain, named) = valid_peer_id-carried peer v in
    let positive : not (is_positive p.credential_ttl) ≡ false = lasts in
    let issued : new_credential sign peer p.secret p.credential_ttl now
        ≡ inr (credential_until sign expires peer p.secret) =
      unfold new_credential in rw (named, plain, secret, positive) refl in
    (
      record {
        servers =
            stun_servers sign p.stun
            ++ record {
              urls = p.turn;
              username = username_for sign expires peer;
              credential = sign p.secret (username_for sign expires peer);
            }
              ∷ [];
        expires_at = some expires;
        relay_available = true;
      },
      rw issued refl,
      (
        expires,
        refl,
        (username_for sign expires peer, relay_reads-username_for sign expires peer, rw e refl),
      ),
    )

new_with_relay-usable :
    (turn : List Text) (opts : Options) (p : Provider)
    → new_with_relay turn opts ≡ inr p
    → (p ≡ provider_of opts)
      × (not (is_nil turn) && is_empty p.secret ≡ false)
      × (not (is_nil turn) && not (is_positive p.credential_ttl) ≡ false)
new_with_relay-usable [] opts p e = (ground arith, refl, refl)
new_with_relay-usable (url ∷ urls) opts p e = elim (Bool-cases (is_empty opts.secret)) [
  | inl blank ↦ absurd (ground arith)
  | inr secret ↦ elim (Bool-cases (is_positive opts.credential_ttl)) [
    | inr never ↦ absurd (ground arith)
    | inl lasts ↦
        let made : provider_of opts ≡ p = ground arith in
        (sym made, rw (← made) secret, rw (← made) (ap not lasts))
  ]
]

-- Every peer that a credential authenticates as can be served: from a provider that `NewProvider`
-- accepts, `For` gives it a configuration, with all the STUN servers; with a relay exactly where the
-- provider has one; and then with a credential that expires one lifetime later, that the relay reads
-- as that peer's and that is signed under the shared secret.
pub config_for-Serves :
    {H : Type 0} (sum256 : Text → H) (digest_dec : Discrete H) (configs : List ClientConfig)
    (clients : ClientStore H) (id secret peer : Text) (sign : Text → Text → Text) (opts : Options)
    (p : Provider) (now : ℕ)
    → Clients.new sum256 configs ≡ inr clients
    → authenticate sum256 digest_dec id secret clients ≡ some peer
    → new_provider opts ≡ inr p
    → (c : Config) × (config_for sign p peer now ≡ inr c) × Serves sign p peer now p.turn c
unfolding new_provider config_for
config_for-Serves sum256 digest_dec configs clients id secret peer sign opts p now e f g =
    let valid = (authenticate_sound sum256 digest_dec configs clients id secret peer e f).1 in
    let (made, signed, lasts) = new_with_relay-usable opts.turn_urls opts p g in
    let same_turn : p.turn ≡ opts.turn_urls = ap (λ (q : Provider). q.turn) made in
    config_with-Serves sign p peer now p.turn refl valid (rw same_turn signed) (rw same_turn lasts)
