-- ===== src/AuthClient/Credentials.antt =====
-- A client of internal/authclient/client.go with a credential of the server's configuration, from
-- `Authenticate` through the handlers of internal/transport/auth.go to a route behind the token check.
-- That base64 decodes what it encodes is a hypothesis.
use dc_streaming_p2p.Base.{
  ℕ, Bool, Option, some, List, ◌++◌, Text, if◌then◌else◌, ltb, inr, ◌≡◌, ◌≤◌, ap, ◌∙◌, arith,
}
use dc_streaming_p2p.Base.Int.{ℤ}
use dc_streaming_p2p.Base.Strings.{codes, trim_space, text_len}
use dc_streaming_p2p.Auth.Limiter.{Limiter, succeeded}
use dc_streaming_p2p.Auth.Clients
use dc_streaming_p2p.Auth.Clients.{ClientConfig, ClientStore}
use dc_streaming_p2p.Auth.Clients.Lookup.{configured}
use dc_streaming_p2p.Auth.Clients.Listed.{configured_client}
use dc_streaming_p2p.Auth.Tokens.{Jwt, Issuer, new_token_issuer, new_token_verifier, public_key}
use dc_streaming_p2p.Auth.Tokens.Laws.{Lawful, Signs}
use dc_streaming_p2p.Base.Trim.{trim_space-trim_space}
use dc_streaming_p2p.Transport.Http
use dc_streaming_p2p.Transport.Http.{Response, token_refused, answered}
use dc_streaming_p2p.Transport.Login.{TokenResponse, auth_handler, max_client_id_len}
use dc_streaming_p2p.Transport.Access.{issuing, guard}
use dc_streaming_p2p.Transport.Welcome.{MayTry, auth_handler-welcomes}
use dc_streaming_p2p.AuthClient.{Client, Token, new, authenticate}
use dc_streaming_p2p.AuthClient.Server.{server_keys, token_reply, token-guard}

module _ (encode_base64 : List ℕ → Text) (sum256 : List ℕ → List ℕ)
    (decode_base64 : Text → Option (List ℕ))
    (decode-encode : (bytes : List ℕ) → decode_base64 (encode_base64 bytes) ≡ some bytes) where
  -- Let a client be made with the public key of a server's issuer, and let it show the secret of a
  -- client that the server is configured with, under an identifier of at most 128 bytes that has failed
  -- fewer times than the limiter's allowance, or whose window has passed; and let signing with a key of
  -- ed25519's size succeed. Then the server answers with a token; the client, given the server's keys
  -- and that answer, takes the token; it names the configured peer; and as a bearer token it lets its
  -- holder into every guarded route as that peer until its date, and is refused as expired from then on.
  pub authenticate-guard {ℓ} :
      {A : Type ℓ} {H : Type 0} (jwt : Jwt) (digest : Text → H) (digest_dec : Discrete H)
      (configs : List ClientConfig) (clients : ClientStore H) (listed : ClientConfig) (key : List ℕ)
      (name : Text) (ttl : ℤ) (i : Issuer) (parse_url : Text → Option (Text × Text)) (url : Text)
      (insecure : Bool) (c : Client) (l : Limiter) (fresh id : Text) (now at : ℕ)
      (next : Text → Response A)
      → Lawful jwt
      → Signs jwt
      → Clients.new digest configs ≡ inr clients
      → configured (trim_space id) configs ≡ some listed
      → text_len (trim_space id) ≤ max_client_id_len
      → MayTry (trim_space id) now l
      → new_token_issuer key name ttl ≡ inr i
      → new parse_url url (public_key jwt i) insecure ≡ inr c
      → (t : TokenResponse) × (auth_handler
            (λ client secret. Clients.authenticate digest digest_dec client secret clients)
            (issuing jwt i (some fresh) now)
            (some (id, listed.secret))
            now
            l
          ≡ some (succeeded (trim_space id) l, answered 200 t))
        × ((token : Token) × ((authenticate decode_base64 id listed.secret
                (server_keys encode_base64 sum256 decode_base64 decode-encode (public_key jwt i))
                (token_reply (answered 200 t))
                c).2
              ≡ inr token)
            × (token.peer_id ≡ trim_space listed.peer_id)
            × (guard jwt
                  (new_token_verifier (public_key jwt i) name)
                  at
                  next
                  (codes "Bearer " ++ token.value)
                ≡ (if ltb at (jwt.numeric_date token.expires_at)
                    then next token.peer_id
                    else token_refused 401 Http.token_expired)))
  authenticate-guard jwt digest digest_dec configs clients listed key name ttl i parse_url url
        insecure c l fresh id now at next laws signs stored found short free made ready =
      let (t, answers) =
        auth_handler-welcomes jwt signs digest digest_dec configs clients listed key name ttl i
          fresh id now l stored found short made free in
      let (token, taken, (peer, right, for_peer), lets_in) =
        token-guard encode_base64 sum256 decode_base64 decode-encode jwt laws key name ttl i
          parse_url url insecure c
          (λ client secret. Clients.authenticate digest digest_dec client secret clients) l
          (succeeded (trim_space id) l) t fresh id listed.secret now at next made ready answers in
      let (configured_peer, _, _, _) =
        configured_client digest digest_dec configs clients (trim_space id) listed stored found in
      let same_peer : peer ≡ trim_space listed.peer_id = ground (arith, configured_peer, right) in
      (
        t,
        answers,
        (
          token,
          taken,
          for_peer ∙ ap trim_space same_peer ∙ trim_space-trim_space listed.peer_id,
          lets_in,
        ),
      )
