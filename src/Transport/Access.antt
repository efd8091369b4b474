-- ===== src/Transport/Access.antt =====
-- `Auth` and `RequireToken` of internal/transport/auth.go over the issuer and the verifier of
-- internal/auth/token.go.
use dc_streaming_p2p.Base.{
  ℕ, List, ◌||◌, ◌≢◌, text_dec, ℕ_discrete, Bool, true, false, Option, none, some, ◌++◌, Text, ◌⊎◌,
  inl, inr, ◌≡◌, refl, sym, ap, ◌∙◌, arith, Bool-cases, if◌then◌else◌, ltb,
}
use dc_streaming_p2p.Base.Int.{ℤ}
use dc_streaming_p2p.Base.Strings.{has_char, codes, is_empty, trim_space, text_len}
use dc_streaming_p2p.Base.Trim.{trim_space-no_spaces, no_spaces}
use dc_streaming_p2p.Auth.Limiter.{Limiter, allowed, failed}
use dc_streaming_p2p.Auth.Tokens
use dc_streaming_p2p.Auth.Tokens.{
  Jwt, Issuer, Token, Claims, new_token_issuer, new_token_verifier, public_key, issue, verify,
  Verifier,
}
use dc_streaming_p2p.Auth.Tokens.Laws.{Lawful}
use dc_streaming_p2p.Auth.Tokens.Issued.{issued, verify-issue}
use dc_streaming_p2p.Transport.Http
use dc_streaming_p2p.Transport.Http.{Response, refused, token_refused, answered}
use dc_streaming_p2p.Transport.Login.{
  TokenResponse, auth_handler, bearer_token, Verdict, names, expired_token, bad_token,
  require_token, answer_token, after_failure, answer_peer, answer_client, max_client_id_len,
}

-- The answer that `Auth` makes of what `Issue` answers.
abbrev pub response_of : Tokens.Error ⊎ Token → Option TokenResponse
response_of (inl e) = none
response_of (inr t) =
    some (record { token = t.value; peer_id = t.peer_id; expires_at = t.expires_at })

-- What `RequireToken` reads off the answer of `Verify`.
abbrev pub verdict_of : Tokens.Error ⊎ Claims → Verdict
verdict_of (inr claims) = names claims.peer_id
verdict_of (inl Tokens.expired) = expired_token
verdict_of (inl e) = bad_token

module _ (jwt : Jwt) where
  -- `deps.Issuer.Issue`
  abbrev pub issuing : Issuer → Option Text → ℕ → Text → Option TokenResponse
  issuing i fresh now peer = response_of (issue jwt i peer fresh now)

  -- `verifier.Verify`
  abbrev pub verifying : Verifier → ℕ → Text → Verdict
  verifying v at raw = verdict_of (verify jwt v at raw)

  -- `RequireToken` in front of a handler, at a time.
  unfoldable pub guard {ℓ} : {A : Type ℓ} → Verifier → ℕ → (Text → Response A) → Text → Response A
  guard v at next header = require_token (verifying v at) next header

bearer_token-codes :
    (raw : Text)
    → no_spaces raw ≡ true
    → is_empty raw ≡ false
    → bearer_token (codes "Bearer " ++ raw) ≡ some raw
unfolding bearer_token text_dec ℕ_discrete
bearer_token-codes raw plain given =
    let kept : trim_space raw ≡ raw = trim_space-no_spaces raw plain in rw (kept, given) refl

-- A token in an answer of `Auth` was issued to the peer of the credential.
module _ (authenticate : Text → Text → Option Text) (issue : Text → Option TokenResponse)
    (l l' : Limiter) (t : TokenResponse) (now : ℕ) where
  answer_token-some :
      (client : Text) (o : Option TokenResponse)
      → answer_token client l o ≡ some (l', answered 200 t)
      → o ≡ some t
  answer_token-some client none e = absurd (ground arith)
  answer_token-some client (some u) e = ground arith

  after_failure-none : (o : Option Limiter) → after_failure o ≢ some (l', answered 200 t)
  after_failure-none none e = absurd (ground arith)
  after_failure-none (some u) e = absurd (ground arith)

  answer_peer-some :
      (client : Text) (o : Option Text)
      → answer_peer authenticate issue client now l o ≡ some (l', answered 200 t)
      → (peer : Text) × (o ≡ some peer) × (issue peer ≡ some t)
  answer_peer-some client none e = absurd (after_failure-none (failed client now l) e)
  answer_peer-some client (some peer) e = (peer, refl, answer_token-some client (issue peer) e)

  answer_client-some :
      (client secret : Text)
      → answer_client authenticate issue client secret now l ≡ some (l', answered 200 t)
      → (peer : Text) × (authenticate client secret ≡ some peer) × (issue peer ≡ some t)
  answer_client-some client secret e =
      elim (Bool-cases
        (is_empty client || ltb max_client_id_len (text_len client) || is_empty secret)) [
          | inl bad ↦ absurd (ground arith)
          | inr good ↦ elim (Bool-cases (allowed client now l)) [
            | inl open_still ↦
                answer_peer-some client (authenticate client secret) (rw (good, open_still) at e)
            | inr spent ↦ absurd (ground arith)
          ]
        ]

  auth_handler-some :
      (client secret : Text)
      → auth_handler authenticate issue (some (client, secret)) now l ≡ some (l', answered 200 t)
      → (peer : Text) × (authenticate (trim_space client) secret ≡ some peer)
        × (issue peer ≡ some t)
  unfolding auth_handler
  auth_handler-some client secret e = answer_client-some (trim_space client) secret e

module _ (jwt : Jwt) (laws : Lawful jwt) where
  response-issued :
      (o : Tokens.Error ⊎ Token) (t : TokenResponse)
      → response_of o ≡ some t
      → (u : Token) × (o ≡ inr u)
        × (t.token ≡ u.value)
        × (t.peer_id ≡ u.peer_id)
        × (t.expires_at ≡ u.expires_at)
  response-issued (inl e) t h = absurd (ground arith)
  response-issued (inr u) t h =
      let same_token : record { token = u.value; peer_id = u.peer_id; expires_at = u.expires_at }
          ≡ t =
        ground arith in
      (
        u,
        refl,
        ap (λ v. v.token) (sym same_token),
        ap (λ v. v.peer_id) (sym same_token),
        ap (λ v. v.expires_at) (sym same_token),
      )

  guard-verified {ℓ} :
      {A : Type ℓ} (v : Verifier) (at : ℕ) (next : Text → Response A) (raw peer : Text)
      (early : Bool)
      → no_spaces raw ≡ true
      → is_empty raw ≡ false
      → verifying jwt v at raw ≡ (if early then names peer else expired_token)
      → guard jwt v at next (codes "Bearer " ++ raw)
        ≡ (if early then next peer else token_refused 401 Http.token_expired)
  unfolding guard require_token
  guard-verified v at next raw peer true plain given e =
      rw (bearer_token-codes raw plain given, e) refl
  guard-verified v at next raw peer false plain given e =
      rw (bearer_token-codes raw plain given, e) refl

  verdict_of-early :
      (early : Bool) (peer id : Text) (until : ℕ)
      → verdict_of (
          if early
          then inr (record { peer_id = peer; id = id; expires_at = until })
          else inl Tokens.expired)
        ≡ (if early then names peer else expired_token)
  verdict_of-early true peer id until = refl
  verdict_of-early false peer id until = refl

  -- A token in an answer can stand in a header, names its peer, and is verified as that peer's.
  pub answered_token :
      (key : List ℕ) (name : Text) (ttl : ℤ) (i : Issuer) (authenticate : Text → Text → Option Text)
      (l l' : Limiter) (t : TokenResponse) (id client secret : Text) (now at : ℕ)
      → new_token_issuer key name ttl ≡ inr i
      → auth_handler authenticate (issuing jwt i (some id) now) (some (client, secret)) now l
        ≡ some (l', answered 200 t)
      → (no_spaces t.token ≡ true)
        × (has_char b',' t.token ≡ false)
        × (is_empty t.token ≡ false)
        × (is_empty t.peer_id ≡ false)
        × ((peer : Text) × (authenticate (trim_space client) secret ≡ some peer)
            × (t.peer_id ≡ trim_space peer))
        × (verifying jwt (new_token_verifier (public_key jwt i) name) at t.token
            ≡ (if ltb at (jwt.numeric_date t.expires_at) then names t.peer_id else expired_token))
  answered_token key name ttl i authenticate l l' t id client secret now at made e =
      let (peer, right, gives) =
        auth_handler-some authenticate (issuing jwt i (some id) now) l l' t now client secret e in
      let (u, given, same_value, same_peer, same_date) =
        response-issued (issue jwt i peer (some id) now) t gives in
      let (some_peer, signed, for_peer, _) = issued jwt laws i peer id now u given in
      let (plain, uncut, some_text) = laws.signed_text _ _ _ signed in
      let (_, _, _, verified) = verify-issue jwt laws key name ttl i peer id now at u made given in
      (
        ap no_spaces same_value ∙ plain,
        ap (has_char b',') same_value ∙ uncut,
        ap is_empty same_value ∙ some_text,
        ap is_empty (same_peer ∙ for_peer) ∙ some_peer,
        (peer, right, same_peer ∙ for_peer),
        rw (same_value, same_peer, same_date)
            (ap verdict_of verified
              ∙ verdict_of-early (ltb at (jwt.numeric_date u.expires_at)) u.peer_id id
                  (jwt.numeric_date u.expires_at)),
      )

  -- The token in an answer of `Auth`, sent as a bearer token, lets its holder into every route behind
  -- `RequireToken` as the peer of the credential that the token was given for, until its date; from
  -- then on it is refused as expired.
  pub guard-auth_handler {ℓ} :
      {A : Type ℓ} (key : List ℕ) (name : Text) (ttl : ℤ) (i : Issuer)
      (authenticate : Text → Text → Option Text) (l l' : Limiter) (t : TokenResponse)
      (id client secret : Text) (now at : ℕ) (next : Text → Response A)
      → new_token_issuer key name ttl ≡ inr i
      → auth_handler authenticate (issuing jwt i (some id) now) (some (client, secret)) now l
        ≡ some (l', answered 200 t)
      → ((peer : Text) × (authenticate (trim_space client) secret ≡ some peer)
          × (t.peer_id ≡ trim_space peer))
        × (guard jwt
              (new_token_verifier (public_key jwt i) name)
              at
              next
              (codes "Bearer " ++ t.token)
            ≡ (if ltb at (jwt.numeric_date t.expires_at)
                then next t.peer_id
                else token_refused 401 Http.token_expired))
  guard-auth_handler key name ttl i authenticate l l' t id client secret now at next made e =
      let (plain, _, given, _, for_peer, verified) =
        answered_token key name ttl i authenticate l l' t id client secret now at made e in
      (
        for_peer,
        guard-verified (new_token_verifier (public_key jwt i) name) at next t.token t.peer_id
            (ltb at (jwt.numeric_date t.expires_at)) plain given verified,
      )
