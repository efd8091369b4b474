-- ===== src/Transport/Welcome.antt =====
-- `Auth` of internal/transport/auth.go for a client of the configuration that shows its own secret.
use dc_streaming_p2p.Base.{
  ℕ, ◌+◌, ◌-◌, ◌<◌, ◌⊎◌, ◌≤◌, inl, none, ◌≡◌, refl, ap, ◌∙◌, true, false, some, List, [], ◌∷◌, Text,
  inr, length, ltb, arith,
}
use dc_streaming_p2p.Base.Int.{ℤ}
use dc_streaming_p2p.Base.Strings.{is_empty, trim_space, text_len}
use dc_streaming_p2p.Auth.Limiter.{Limiter, FailureRecord, allowed, succeeded}
use dc_streaming_p2p.Base.Map.{lookup}
use dc_streaming_p2p.Auth.Clients
use dc_streaming_p2p.Auth.Clients.{ClientConfig, ClientStore, min_secret_len, authenticate}
use dc_streaming_p2p.Auth.Clients.Lookup.{configured}
use dc_streaming_p2p.Auth.Clients.Listed.{configured_client}
use dc_streaming_p2p.Auth.Tokens.{Jwt, Issuer, new_token_issuer, issue, registered}
use dc_streaming_p2p.Auth.Tokens.Laws.{Signs}
use dc_streaming_p2p.Auth.Tokens.Issued.{made_issuer}
use dc_streaming_p2p.Ice.Relay.{valid_peer_id-carried}
use dc_streaming_p2p.Transport.Http.{answered}
use dc_streaming_p2p.Transport.Login.{TokenResponse, auth_handler, max_client_id_len}
use dc_streaming_p2p.Transport.Access.{issuing}

long-is_empty : (t : Text) → min_secret_len ≤ text_len t → is_empty t ≡ false
unfolding text_len
long-is_empty [] h = absurd (omega arith)
long-is_empty (c ∷ t) h = refl

-- The limiter has no failure of an identifier, or fewer than its allowance, or its window has passed.
abbrev pub MayTry : Text → ℕ → Limiter → Type 0
MayTry id now l =
    (lookup id l.failures ≡ none)
    ⊎ ((held : FailureRecord) × (lookup id l.failures ≡ some held)
        × ((held.count < l.allowance) ⊎ (l.window < now - held.started_at)))

MayTry-allowed : (id : Text) (now : ℕ) (l : Limiter) → MayTry id now l → allowed id now l ≡ true
unfolding allowed
MayTry-allowed id now l (inl fresh) = rw fresh refl
MayTry-allowed id now l (inr (held, found, inl few)) = rw found (ground arith)
MayTry-allowed id now l (inr (held, found, inr passed)) = rw found (ground arith)

module _ (jwt : Jwt) (signs : Signs jwt) where
  -- An issuer that was made gives every peer with a name a token.
  issuing-some :
      (key : List ℕ) (name : Text) (ttl : ℤ) (i : Issuer) (peer fresh : Text) (now : ℕ)
      → new_token_issuer key name ttl ≡ inr i
      → is_empty (trim_space peer) ≡ false
      → (t : TokenResponse) × (issuing jwt i (some fresh) now peer ≡ some t)
  unfolding issue
  issuing-some key name ttl i peer fresh now made named =
      let (same_key, _, long, _) = made_issuer key name ttl i made in
      let (raw, signed) =
        signs i.key (registered jwt i (trim_space peer) fresh now) (ap length same_key ∙ long) in
      (
        record { token = raw; peer_id = trim_space peer; expires_at = now + i.ttl },
        rw (named, signed) refl,
      )

  -- A client of the configuration that shows its own secret, under an identifier that is not too long
  -- and that may try again, is answered with a token, and its failures are forgotten.
  pub auth_handler-welcomes :
      {H : Type 0} (sum256 : Text → H) (digest_dec : Discrete H) (configs : List ClientConfig)
      (clients : ClientStore H) (c : ClientConfig) (key : List ℕ) (name : Text) (ttl : ℤ)
      (i : Issuer) (fresh id : Text) (now : ℕ) (l : Limiter)
      → Clients.new sum256 configs ≡ inr clients
      → configured (trim_space id) configs ≡ some c
      → text_len (trim_space id) ≤ max_client_id_len
      → new_token_issuer key name ttl ≡ inr i
      → MayTry (trim_space id) now l
      → (t : TokenResponse) × (auth_handler
            (λ client secret. authenticate sum256 digest_dec client secret clients)
            (issuing jwt i (some fresh) now)
            (some (id, c.secret))
            now
            l
          ≡ some (succeeded (trim_space id) l, answered 200 t))
  unfolding auth_handler
  auth_handler-welcomes sum256 digest_dec configs clients c key name ttl i fresh id now l listed
        found short made tries =
      let (right, named, long, valid) =
        configured_client sum256 digest_dec configs clients (trim_space id) c listed found in
      let free = MayTry-allowed (trim_space id) now l tries in
      let given = long-is_empty c.secret long in
      let fits : ltb max_client_id_len (text_len (trim_space id)) ≡ false = ground arith in
      let (t, token) =
        issuing-some key name ttl i (trim_space c.peer_id) fresh now made
          (valid_peer_id-carried (trim_space c.peer_id) valid).1 in
      (t, rw (named, fits, given, free, right, token) refl)
