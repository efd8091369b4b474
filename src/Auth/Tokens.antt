-- ===== src/Auth/Tokens.antt =====
-- internal/auth/token.go: the tokens that a peer is given and shows. Of the JWT library the model has
-- signing and parsing as a record of functions, and a key is its bytes.
pub mod Laws
pub mod Sample
pub mod Issued
pub mod Tests
use dc_streaming_p2p.Base.{
  ℕ, ◌+◌, Bool, not, Option, none, some, List, Text, if◌then◌else◌, length, ◌==◌, ◌⊎◌, inl, inr,
}
use dc_streaming_p2p.Base.Int.{ℤ, is_positive, pos_part}
use dc_streaming_p2p.Base.Strings.{is_empty, trim_space}

-- ed25519's `PrivateKeySize` and `PublicKeySize`.
abbrev pub private_key_size : ℕ
private_key_size = 64

abbrev pub public_key_size : ℕ
public_key_size = 32

-- `jwt.RegisteredClaims`, the parts that are set or read; a date that is nil is `none`.
pub record Registered : Type 0 where
  pub subject : Text
  pub issuer : Text
  pub id : Text
  pub issued_at : Option ℕ
  pub expires_at : Option ℕ

-- What parsing answers: claims, an error that is `jwt.ErrTokenExpired`, or another one.
pub data Parsed : Type 0 where
  accepted : Registered → Parsed
  too_late refused : Parsed

-- `SignedString` with the one method under a private key, `ParseWithClaims` with the options of
-- `Verify` under a public key, for an issuer, at a time; the date that `NewNumericDate` makes of a
-- time, and the public half of a key.
pub record Jwt : Type 0 where
  pub signed : List ℕ → Registered → Option Text
  pub parse : List ℕ → Text → ℕ → Text → Parsed
  pub numeric_date : ℕ → ℕ
  pub public : List ℕ → List ℕ

pub data Error : Type 0 where
  key_length no_issuer lifetime_not_positive : Error
  no_peer no_token_id not_signed : Error
  no_public_key expired invalid : Error

pub record Token : Type 0 where
  pub value : Text
  pub peer_id : Text
  pub expires_at : ℕ

pub record Claims : Type 0 where
  pub peer_id : Text
  pub id : Text
  pub expires_at : ℕ

-- `TokenIssuer`, but for its clock.
pub record Issuer : Type 0 where
  pub key : List ℕ
  pub issuer : Text
  pub ttl : ℕ

-- `TokenVerifier`, but for its clock.
pub record Verifier : Type 0 where
  pub key : List ℕ
  pub issuer : Text

-- `NewTokenIssuer`
unfoldable pub new_token_issuer : List ℕ → Text → ℤ → Error ⊎ Issuer
new_token_issuer key issuer ttl =
    if not (length key == private_key_size)
    then inl key_length
    else if is_empty (trim_space issuer)
    then inl no_issuer
    else if not (is_positive ttl)
    then inl lifetime_not_positive
    else inr (record { key = key; issuer = trim_space issuer; ttl = pos_part ttl })

-- `NewTokenVerifier`
abbrev pub new_token_verifier : List ℕ → Text → Verifier
new_token_verifier key issuer = record { key = key; issuer = trim_space issuer }

abbrev pub claims_until : Registered → Option ℕ → Error ⊎ Claims
claims_until c none = inl invalid
claims_until c (some at) = inr (record { peer_id = c.subject; id = c.id; expires_at = at })

abbrev pub claims_of : Parsed → Error ⊎ Claims
claims_of too_late = inl expired
claims_of refused = inl invalid
claims_of (accepted c) =
    if is_empty (trim_space c.subject) then inl invalid else claims_until c c.expires_at

abbrev pub token_of : Text → ℕ → Option Text → Error ⊎ Token
token_of peer expires none = inl not_signed
token_of peer expires (some value) =
    inr (record { value = value; peer_id = peer; expires_at = expires })

module _ (jwt : Jwt) where
  -- `PublicKey`
  abbrev pub public_key : Issuer → List ℕ
  public_key i = jwt.public i.key

  -- The literal in `Issue`.
  abbrev pub registered : Issuer → Text → Text → ℕ → Registered
  registered i peer id now = record {
    subject = peer;
    issuer = i.issuer;
    id = id;
    issued_at = some (jwt.numeric_date now);
    expires_at = some (jwt.numeric_date (now + i.ttl));
  }

  abbrev pub issue_for : Issuer → Text → Option Text → ℕ → Error ⊎ Token
  issue_for i peer none now = inl no_token_id
  issue_for i peer (some id) now =
      token_of peer (now + i.ttl) (jwt.signed i.key (registered i peer id now))

  -- `Issue`. `fresh` is what `newTokenID` answers, `none` where it fails.
  unfoldable pub issue : Issuer → Text → Option Text → ℕ → Error ⊎ Token
  issue i peer fresh now =
      if is_empty (trim_space peer) then inl no_peer else issue_for i (trim_space peer) fresh now

  -- `Verify`
  unfoldable pub verify : Verifier → ℕ → Text → Error ⊎ Claims
  verify v now raw =
      if not (length v.key == public_key_size)
      then inl no_public_key
      else claims_of (jwt.parse v.key v.issuer now raw)
