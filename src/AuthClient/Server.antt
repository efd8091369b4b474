-- ===== src/AuthClient/Server.antt =====
-- A client of internal/authclient/client.go that talks to the handlers of internal/transport/auth.go.
-- That base64 decodes what it encodes is a hypothesis.
use dc_streaming_p2p.Base.{
  ℕ, Bool, true, false, Option, none, some, List, [], ◌∷◌, ◌++◌, Text, map, if◌then◌else◌, length,
  ltb, ◌⊎◌, inl, inr, ◌≡◌, refl, ap, ◌∙◌, arith, text_dec, ℕ_discrete,
}
use dc_streaming_p2p.Base.Int.{ℤ}
use dc_streaming_p2p.Base.Strings.{codes, same, same-true, same_itself, is_empty, trim_space}
use dc_streaming_p2p.Auth.Limiter.{Limiter}
use dc_streaming_p2p.Auth.Tokens.{Jwt, Issuer, new_token_issuer, new_token_verifier, public_key}
use dc_streaming_p2p.Auth.Tokens.Laws.{Lawful}
use dc_streaming_p2p.Auth.Tokens.Issued.{made_issuer}
use dc_streaming_p2p.Transport.Http
use dc_streaming_p2p.Transport.Http.{Response, refused, token_refused, answered}
use dc_streaming_p2p.Transport.Login.{TokenResponse, auth_handler}
use dc_streaming_p2p.Transport.Access.{issuing, guard, guard-auth_handler, answered_token}
use dc_streaming_p2p.Transport.Keys.{Jwk, jwks}
use dc_streaming_p2p.AuthClient.{
  Client, Token, Key, Error, key_mismatch, Reply, replied, Request, asks_keys, posts,
  public_key_size, jwks_path, auth_path, new, token_of, sent, matching, or_later, fetch_key,
  verify_unless, verify_server_key, post_if, authenticate,
}
use dc_streaming_p2p.AuthClient.Pinning.{new-made}

-- What a client decodes of a key, of a key set and of the answer to a credential.
abbrev pub seen : Jwk → Key
seen k = record { kty = k.kty; crv = k.crv; x = k.x }

abbrev pub keys_reply : List Jwk → Reply (List Key)
keys_reply keys = replied 200 (some (map seen keys))

abbrev pub token_reply : Response TokenResponse → Reply Token
token_reply (answered status t) =
    replied status
      (some (record { value = t.token; peer_id = t.peer_id; expires_at = t.expires_at }))
token_reply (refused status code) = replied status none
token_reply (token_refused status code) = replied status none
token_reply Http.no_content = replied 204 none
token_reply Http.method_refused = replied 405 none

module _ (encode_base64 : List ℕ → Text) (sum256 : List ℕ → List ℕ)
    (decode_base64 : Text → Option (List ℕ))
    (decode-encode : (bytes : List ℕ) → decode_base64 (encode_base64 bytes) ≡ some bytes) where
  abbrev pub server_keys : List ℕ → Reply (List Key)
  server_keys public = keys_reply (jwks encode_base64 sum256 public)

  matching-long :
      (expected public : List ℕ)
      → length public ≡ public_key_size
      → matching decode_base64 expected (some public)
        ≡ (if same public expected then some public else none)
  matching-long expected public long = ground arith

  or_later-matching :
      (public : List ℕ) (alike : Bool)
      → or_later decode_base64 (if alike then some public else none) (inl key_mismatch)
        ≡ (if alike then inr public else inl key_mismatch)
  or_later-matching public true = refl
  or_later-matching public false = refl

  fetch_key-jwks :
      (expected public : List ℕ)
      → length public ≡ public_key_size
      → fetch_key decode_base64 expected (server_keys public)
        ≡ (if same public expected then inr public else inl key_mismatch)
  unfolding text_dec ℕ_discrete
  fetch_key-jwks expected public long =
      rw (decode-encode public, matching-long expected public long)
        (or_later-matching public (same public expected))

  -- What `Authenticate` comes to, by whether the published key is the expected one.
  abbrev pub outcome :
      Text → Text → Reply Token → Client → Bool → Client × List Request × (Error ⊎ Token)
  outcome id secret reply c true = (
    record c { pinned = some c.expected },
    asks_keys (c.base_url ++ jwks_path) ∷ sent (posts (c.base_url ++ auth_path) id secret) reply,
    token_of reply,
  )
  outcome id secret reply c false = (c, asks_keys (c.base_url ++ jwks_path) ∷ [], inl key_mismatch)

  verified :
      (c : Client) (public : List ℕ) (alike : Bool)
      → same public c.expected ≡ alike
      → length public ≡ public_key_size
      → verify_unless decode_base64 none (server_keys public) c ≡ (
          if alike
          then (
            record c { pinned = some c.expected },
            asks_keys (c.base_url ++ jwks_path) ∷ [],
            none,
          )
          else (c, asks_keys (c.base_url ++ jwks_path) ∷ [], some key_mismatch))
  verified c public true alike long =
      let fetched = fetch_key-jwks c.expected public long in
      let same_key = same-true public c.expected alike in rw (fetched, alike, same_key) refl
  verified c public false alike long =
      let fetched = fetch_key-jwks c.expected public long in rw (fetched, alike) refl

  post_if-outcome :
      (id secret : Text) (reply : Reply Token) (c : Client) (alike : Bool)
      → post_if decode_base64 id secret reply (
          if alike
          then (
            record c { pinned = some c.expected },
            asks_keys (c.base_url ++ jwks_path) ∷ [],
            none,
          )
          else (c, asks_keys (c.base_url ++ jwks_path) ∷ [], some key_mismatch))
        ≡ outcome id secret reply c alike
  post_if-outcome id secret reply c true = refl
  post_if-outcome id secret reply c false = refl

  -- The first call of a new client, of a server that publishes a key of the right length: if that is the
  -- key that the client was made with, the client pins it and sends the credential, where the request can
  -- be built, and the result is what the server's answer to it gives; and if not, the client sends its
  -- question for the keys alone, is left as it was, and reports the mismatch.
  pub authenticate-outcome :
      (parse_url : Text → Option (Text × Text)) (url : Text) (expected public : List ℕ)
      (insecure : Bool) (c : Client) (id secret : Text) (reply : Reply Token)
      → new parse_url url expected insecure ≡ inr c
      → length public ≡ public_key_size
      → authenticate decode_base64 id secret (server_keys public) reply c
        ≡ outcome id secret reply c (same public expected)
  unfolding authenticate verify_server_key
  authenticate-outcome parse_url url expected public insecure c id secret reply made long =
      let (same_expected, unpinned, _) = new-made parse_url url expected insecure c made in
      ap
        (λ o.
          post_if decode_base64 id secret reply
            (verify_unless decode_base64 o (server_keys public) c))
        unpinned
      ∙ ap (post_if decode_base64 id secret reply)
          (verified c public (same public c.expected) refl long)
      ∙ post_if-outcome id secret reply c (same public c.expected)
      ∙ ap (λ key. outcome id secret reply c (same public key)) same_expected

  took_token :
      (t : TokenResponse)
      → is_empty t.token ≡ false
      → is_empty t.peer_id ≡ false
      → token_of (token_reply (answered 200 t))
        ≡ inr (record { value = t.token; peer_id = t.peer_id; expires_at = t.expires_at })
  took_token t given named = rw (given, named) refl

  -- A client made with the public key of a server authenticates with it: where the server answers the
  -- credential with a token, the client takes it; and with that token as its bearer token it is let into
  -- every route as the peer of the credential, until the token's date, and from then on is told that the
  -- token expired.
  pub token-guard {ℓ} :
      {A : Type ℓ} (jwt : Jwt)
      → Lawful jwt
      → (key : List ℕ) (name : Text) (ttl : ℤ) (i : Issuer)
        (parse_url : Text → Option (Text × Text)) (url : Text) (insecure : Bool) (c : Client)
        (clients : Text → Text → Option Text) (l l' : Limiter) (t : TokenResponse)
        (fresh id secret : Text) (now at : ℕ) (next : Text → Response A)
      → new_token_issuer key name ttl ≡ inr i
      → new parse_url url (public_key jwt i) insecure ≡ inr c
      → auth_handler clients (issuing jwt i (some fresh) now) (some (id, secret)) now l
        ≡ some (l', answered 200 t)
      → (token : Token) × ((authenticate decode_base64 id secret
            (server_keys (public_key jwt i))
            (token_reply (answered 200 t))
            c).2
          ≡ inr token)
        × ((peer : Text) × (clients (trim_space id) secret ≡ some peer)
            × (token.peer_id ≡ trim_space peer))
        × (guard jwt
              (new_token_verifier (public_key jwt i) name)
              at
              next
              (codes "Bearer " ++ token.value)
            ≡ (if ltb at (jwt.numeric_date token.expires_at)
                then next token.peer_id
                else token_refused 401 Http.token_expired))
  token-guard jwt laws key name ttl i parse_url url insecure c clients l l' t fresh id secret now at
        next made ready answers =
      let (same_key, _, long, _) = made_issuer key name ttl i made in
      let long_public = laws.public_length i.key (ap length same_key ∙ long) in
      let (_, _, given, named, _, _) =
        answered_token jwt laws key name ttl i clients l l' t fresh id secret now at made answers in
      let (for_peer, lets_in) =
        guard-auth_handler jwt laws key name ttl i clients l l' t fresh id secret now at next made
          answers in
      let public = public_key jwt i in
      let ends =
        authenticate-outcome parse_url url public public insecure c id secret
          (token_reply (answered 200 t)) ready long_public in
      let pinned = ap (outcome id secret (token_reply (answered 200 t)) c) (same_itself public) in
      (
        record { value = t.token; peer_id = t.peer_id; expires_at = t.expires_at },
        ap (λ (r : Client × List Request × (Error ⊎ Token)). r.2) (ends ∙ pinned)
            ∙ took_token t given named,
        for_peer,
        lets_in,
      )
