-- ===== src/Transport/Login.antt =====
-- `Auth`, `RequireToken` and `bearerToken` of internal/transport/auth.go: a credential in, a token out,
-- and the token in front of every other route. Whether a credential is right, what the issuer signs
-- and what a verified token names are arguments.
use dc_streaming_p2p.Base.{ℕ, ◌||◌, not, Option, none, some, Text, if◌then◌else◌, ltb}
use dc_streaming_p2p.Base.Strings.{codes, cut_at, equal_fold, is_empty, trim_space, text_len}
use dc_streaming_p2p.Auth.Limiter.{Limiter, allowed, failed, succeeded}
use dc_streaming_p2p.Transport.Http
use dc_streaming_p2p.Transport.Http.{Response, refused, token_refused, answered}

abbrev pub max_client_id_len : ℕ
max_client_id_len = 128

-- `tokenResponse`, and the `Token` of internal/auth/token.go that it is made of.
pub record TokenResponse : Type 0 where
  pub token : Text
  pub peer_id : Text
  pub expires_at : ℕ

-- What is answered to a peer with its token, and `none` where issuing fails.
abbrev pub answer_token :
    Text → Limiter → Option TokenResponse → Option (Limiter × Response TokenResponse)
answer_token client l none = some (l, refused 500 Http.invalid_request)
answer_token client l (some token) = some (succeeded client l, answered 200 token)

abbrev pub after_failure : Option Limiter → Option (Limiter × Response TokenResponse)
after_failure none = none
after_failure (some l) = some (l, refused 401 Http.invalid_client)

module _ (authenticate : Text → Text → Option Text) (issue : Text → Option TokenResponse) where
  abbrev pub answer_peer :
      Text → ℕ → Limiter → Option Text → Option (Limiter × Response TokenResponse)
  answer_peer client now l none = after_failure (failed client now l)
  answer_peer client now l (some peer) = answer_token client l (issue peer)

  abbrev pub answer_client : Text → Text → ℕ → Limiter → Option (Limiter × Response TokenResponse)
  answer_client client secret now l =
      if is_empty client || ltb max_client_id_len (text_len client) || is_empty secret
      then some (l, refused 400 Http.invalid_request)
      else if not (allowed client now l)
      then some (l, refused 429 Http.too_many_attempts)
      else answer_peer client now l (authenticate client secret)

  -- `Auth`, over the decoded identifier and secret; `none` where `Failed` would not end.
  unfoldable pub auth_handler :
      Option (Text × Text) → ℕ → Limiter → Option (Limiter × Response TokenResponse)
  auth_handler none now l = some (l, refused 400 Http.invalid_request)
  auth_handler (some (client, secret)) now l = answer_client (trim_space client) secret now l

abbrev pub if_bearer : Option (Text × Text) → Option Text
if_bearer none = none
if_bearer (some (scheme, value)) =
    if not (equal_fold scheme (codes "bearer"))
    then none
    else if is_empty (trim_space value)
    then none
    else some (trim_space value)

-- `bearerToken`, of the Authorization header.
unfoldable pub bearer_token : Text → Option Text
bearer_token header = if_bearer (cut_at b' ' header)

-- What `Verify` answers: the peer that the token names, or one of its two errors.
pub data Verdict : Type 0 where
  names : Text → Verdict
  expired_token bad_token : Verdict

abbrev pub let_in {ℓ} : {A : Type ℓ} → (Text → Response A) → Verdict → Response A
let_in next (names peer) = next peer
let_in next expired_token = token_refused 401 Http.token_expired
let_in next bad_token = token_refused 401 Http.invalid_token

abbrev pub checked {ℓ} :
    {A : Type ℓ} → (Text → Verdict) → (Text → Response A) → Option Text → Response A
checked verify next none = token_refused 401 Http.invalid_token
checked verify next (some raw) = let_in next (verify raw)

-- `RequireToken`, in front of a handler.
unfoldable pub require_token {ℓ} :
    {A : Type ℓ} → (Text → Verdict) → (Text → Response A) → Text → Response A
require_token verify next header = checked verify next (bearer_token header)
