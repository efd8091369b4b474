-- ===== src/Ice.antt =====
-- internal/ice/ice.go: the servers that a peer is given, with relay credentials that expire. HMAC-SHA1
-- of a text under a secret, in base64, is a parameter.
pub mod Relay
mod Tests
use dc_streaming_p2p.Base.{
  ℕ, ◌+◌, ◌/◌, Bool, true, false, not, Option, none, some, List, [], ◌∷◌, ◌++◌, Text, if◌then◌else◌,
  ◌⊎◌, inl, inr,
}
use dc_streaming_p2p.Base.Int.{ℤ, is_positive, pos_part}
use dc_streaming_p2p.Base.Strings.{is_empty, trim_space, has_char}
use dc_streaming_p2p.Base.Decimal.{format_int}

-- `separator`
abbrev pub separator : ℕ
separator = b':'

pub record Credential : Type 0 where
  pub username : Text
  pub password : Text
  pub expires_at : ℕ

-- The errors of `NewCredential` and of `NewProvider`.
pub data Error : Type 0 where
  no_peer separator_in_peer no_secret lifetime_not_positive : Error

-- `Unix` of a time, which is counted in nanoseconds.
abbrev pub unix : ℕ → ℕ
unix at = at / 1000000000

-- `omitempty` drops the last two where they are empty.
pub record Server : Type 0 where
  pub urls : List Text
  pub username : Text
  pub credential : Text

-- `Config`; its zero time is `none`.
pub record Config : Type 0 where
  pub servers : List Server
  pub expires_at : Option ℕ
  pub relay_available : Bool

-- `Options`, but for the clock. A `Provider` has the same fields.
pub record Options : Type 0 where
  pub stun_urls : List Text
  pub turn_urls : List Text
  pub secret : Text
  pub credential_ttl : ℤ

pub record Provider : Type 0 where
  pub stun : List Text
  pub turn : List Text
  pub secret : Text
  pub credential_ttl : ℤ

abbrev pub provider_of : Options → Provider
provider_of opts = record {
  stun = opts.stun_urls;
  turn = opts.turn_urls;
  secret = opts.secret;
  credential_ttl = opts.credential_ttl;
}

abbrev pub new_with_relay : List Text → Options → Error ⊎ Provider
new_with_relay [] opts = inr (provider_of opts)
new_with_relay (url ∷ urls) opts =
    if is_empty opts.secret
    then inl no_secret
    else if not (is_positive opts.credential_ttl)
    then inl lifetime_not_positive
    else inr (provider_of opts)

-- `NewProvider`
unfoldable pub new_provider : Options → Error ⊎ Provider
new_provider opts = new_with_relay opts.turn_urls opts

module _ (sign : Text → Text → Text) where
  abbrev pub username_for : ℕ → Text → Text
  username_for expires peer = format_int (unix expires) ++ separator ∷ peer

  abbrev pub credential_until : ℕ → Text → Text → Credential
  credential_until expires peer secret = record {
    username = username_for expires peer;
    password = sign secret (username_for expires peer);
    expires_at = expires;
  }

  -- `NewCredential`
  unfoldable pub new_credential : Text → Text → ℤ → ℕ → Error ⊎ Credential
  new_credential peer secret lifetime now =
      if is_empty (trim_space peer)
      then inl no_peer
      else if has_char separator peer
      then inl separator_in_peer
      else if is_empty secret
      then inl no_secret
      else if not (is_positive lifetime)
      then inl lifetime_not_positive
      else inr (credential_until (now + pos_part lifetime) peer secret)

  abbrev pub stun_servers : List Text → List Server
  stun_servers [] = []
  stun_servers (url ∷ urls) = record { urls = url ∷ urls; username = []; credential = [] } ∷ []

  abbrev pub with_credential : Provider → Error ⊎ Credential → Error ⊎ Config
  with_credential p (inl e) = inl e
  with_credential p (inr c) = inr (record {
    servers =
        stun_servers p.stun
        ++ record { urls = p.turn; username = c.username; credential = c.password } ∷ [];
    expires_at = some c.expires_at;
    relay_available = true;
  })

  abbrev pub config_with : List Text → Provider → Text → ℕ → Error ⊎ Config
  config_with [] p peer now =
      inr (record { servers = stun_servers p.stun; expires_at = none; relay_available = false })
  config_with (url ∷ urls) p peer now =
      with_credential p (new_credential peer p.secret p.credential_ttl now)

  -- `For`
  unfoldable pub config_for : Provider → Text → ℕ → Error ⊎ Config
  unfolding new_credential
  config_for p peer now = config_with p.turn p peer now
