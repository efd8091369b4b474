-- ===== src/Transport/Attempts.antt =====
-- `Auth` and `RequireToken` of internal/transport/auth.go, over histories of the limiter and over tokens.
use dc_streaming_p2p.Base.{
  ℕ, ◌≡◌, ◌≤◌, ◌||◌, refl, true, Option, none, some, Text, ltb, Option-cases, Bool-cases, inl, inr,
  arith,
}
use dc_streaming_p2p.Base.Int.{ℤ}
use dc_streaming_p2p.Base.Strings.{is_empty, trim_space, text_len}
use dc_streaming_p2p.Auth.Limiter.{
  Limiter, allowed, failed, succeeded, new, created, tracked, max_tracked,
}
use dc_streaming_p2p.Auth.Limiter.Total.{Reach, failed_total}
use dc_streaming_p2p.Transport.Http
use dc_streaming_p2p.Transport.Http.{Response, refused, token_refused, answered}
use dc_streaming_p2p.Transport.Login.{
  TokenResponse, max_client_id_len, answer_token, answer_client, auth_handler, bearer_token,
  Verdict, names, let_in, require_token,
}

-- What an answer of `Auth` to a credential means, given the limiter before it.
module _ (authenticate : Text → Text → Option Text) (issue : Text → Option TokenResponse)
    (client secret : Text) (now : ℕ) (l : Limiter) where
  -- A token is given only to a right credential that the limiter allows, and then what had been
  -- counted is cleared; and every other answer is a refusal.
  abbrev pub Earned : Limiter × Response TokenResponse → Type 0
  Earned (t, answered status token) =
      (status ≡ 200)
      × (allowed client now l ≡ true)
      × ((peer : Text) × (authenticate client secret ≡ some peer) × (issue peer ≡ some token))
      × (t ≡ succeeded client l)
  Earned (t, refused status code) = Unit
  Earned (t, token_refused status code) = ⊥
  Earned (t, Http.no_content) = ⊥
  Earned (t, Http.method_refused) = ⊥

  answer_token-Earned :
      (peer : Text) (o : Option TokenResponse)
      → allowed client now l ≡ true
      → authenticate client secret ≡ some peer
      → issue peer ≡ o
      → (r : Limiter × Response TokenResponse) × (answer_token client l o ≡ some r) × Earned r
  answer_token-Earned peer none a e f = ((l, refused 500 Http.invalid_request), refl, tt)
  answer_token-Earned peer (some token) a e f =
      ((succeeded client l, answered 200 token), refl, (refl, a, (peer, e, f), refl))

  answer_client-Earned :
      ((u : Limiter) × (failed client now l ≡ some u) × (tracked u ≤ max_tracked))
      → (r : Limiter × Response TokenResponse) × (answer_client authenticate issue client secret now
            l
          ≡ some r)
        × Earned r
  answer_client-Earned (u, ran, small) =
      elim (Bool-cases
        (is_empty client || ltb max_client_id_len (text_len client) || is_empty secret)) [
          | inl bad ↦ ((l, refused 400 Http.invalid_request), rw bad refl, tt)
          | inr good ↦ elim (Bool-cases (allowed client now l)) [
            | inr spent ↦ ((l, refused 429 Http.too_many_attempts), rw (good, spent) refl, tt)
            | inl open_still ↦ elim (Option-cases (authenticate client secret)) [
              | inl wrong ↦
                  ((u, refused 401 Http.invalid_client), rw (good, open_still, wrong, ran) refl, tt)
              | inr (peer, right) ↦
                  let (r, gives, earned) =
                    answer_token-Earned peer (issue peer) open_still right refl in
                  (r, rw (good, open_still, right) gives, earned)
            ]
          ]
        ]

-- In every history of a limiter, `Auth` answers every request with an identifier and a secret: with a
-- token only if the limiter allows the trimmed identifier and the credential is that of the peer that
-- the token is issued to, and then what had been counted is cleared; and else with a refusal.
pub auth_handler-Earned :
    (allowance window : ℤ) {l t : Limiter} (authenticate : Text → Text → Option Text)
    (issue : Text → Option TokenResponse) (client secret : Text) (now : ℕ)
    → new allowance window ≡ created l
    → Reach l t
    → (r : Limiter × Response TokenResponse) × (auth_handler authenticate issue
          (some (client, secret))
          now
          t
        ≡ some r)
      × Earned authenticate issue (trim_space client) secret now t r
unfolding auth_handler
auth_handler-Earned allowance window {l} {t} authenticate issue client secret now n k =
    answer_client-Earned authenticate issue (trim_space client) secret now t
      (failed_total allowance window (trim_space client) now n k)

let_in-names {ℓ} :
    {A : Type ℓ} (next : Text → Response A) (v : Verdict) (status : ℕ) (body : A)
    → let_in next v ≡ answered status body
    → (peer : Text) × (v ≡ names peer) × (next peer ≡ answered status body)
let_in-names next (names peer) status body e = (peer, refl, e)
let_in-names next Verdict.expired_token status body e = absurd (ground arith)
let_in-names next Verdict.bad_token status body e = absurd (ground arith)

-- A route behind `RequireToken` answers with a body only to a bearer token that verifies, and then
-- the answer is that of the route for the peer that the token names.
pub require_token_lem {ℓ} :
    {A : Type ℓ} (verify : Text → Verdict) (next : Text → Response A) (header : Text) (status : ℕ)
    (body : A)
    → require_token verify next header ≡ answered status body
    → (raw : Text) × (bearer_token header ≡ some raw)
      × ((peer : Text) × (verify raw ≡ names peer) × (next peer ≡ answered status body))
unfolding require_token
require_token_lem verify next header status body e = elim (Option-cases (bearer_token header)) [
  | inl missing ↦ absurd (ground arith)
  | inr (raw, given) ↦ (raw, given, let_in-names next (verify raw) status body (rw given at e))
]
