-- ===== src/Transport/Http.antt =====
-- What a handler answers: `writeError`, `writeTokenError` and `writeJSONStatus` of
-- internal/transport/auth.go and internal/transport/peers.go, and the codes of the refusals.
use dc_streaming_p2p.Base.{ℕ}

-- The codes of internal/transport/auth.go, internal/transport/peers.go and
-- internal/transport/sessions.go.
pub data Code : Type 0 where
  invalid_client invalid_request too_many_attempts invalid_token token_expired : Code
  not_found registration_required registry_full : Code
  not_reachable sessions_full peer_sessions bad_transition cannot_call_self : Code

pub data Method : Type 0 where
  get post delete unlisted : Method

-- An answer: a refusal; one that says what token to present; a body; nothing; or the methods that the
-- route has. Each but the third and fourth has its code, and all have their status.
pub data Response {ℓ} (A : Type ℓ) : Type ℓ where
  refused : ℕ → Code → Response A
  token_refused : ℕ → Code → Response A
  answered : ℕ → A → Response A
  no_content : Response A
  method_refused : Response A
