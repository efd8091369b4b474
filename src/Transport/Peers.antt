-- ===== src/Transport/Peers.antt =====
-- The handlers of internal/transport/peers.go, of a request as in Transport.Sessions.
use dc_streaming_p2p.Base.{
  ℕ, ◌≡◌, ◌≢◌, refl, ap, ◌∙◌, Option, none, some, Text, arith, if◌then◌else◌, inl, inr, Bool-cases,
}
use dc_streaming_p2p.Base.Map.{lookup-delete}
use dc_streaming_p2p.Base.Strings.{is_empty, trim_space}
use dc_streaming_p2p.Registry.Defs.{
  Registry, Peer, State, Result, ok, err, Error, full, not_registered, no_identifier, register,
  deregister, heartbeat, look_up,
}
use dc_streaming_p2p.Registry.Admission.{register_lem, heartbeat_lem}
use dc_streaming_p2p.Transport.Http
use dc_streaming_p2p.Transport.Http.{
  Response, refused, token_refused, answered, no_content, method_refused, Method,
}

-- `peerResponse`; the heartbeat interval stands only in the answer to a registration.
pub record PeerResponse : Type 0 where
  pub peer_id : Text
  pub state : State
  pub last_seen : ℕ
  pub heartbeat_interval : Option ℕ

abbrev pub peer_response : Option ℕ → Peer → PeerResponse
peer_response interval peer = record {
  peer_id = peer.id;
  state = peer.state;
  last_seen = peer.last_seen;
  heartbeat_interval = interval;
}

abbrev pub register_error : Error → Response PeerResponse
register_error full = refused 503 Http.registry_full
register_error not_registered = refused 400 Http.invalid_request
register_error no_identifier = refused 400 Http.invalid_request

abbrev pub answer_register : Registry × Result Peer → Registry × Response PeerResponse
answer_register (r, ok peer) = (r, answered 200 (peer_response (some r.heartbeat_interval) peer))
answer_register (r, err e) = (r, register_error e)

abbrev pub peers_method : Method → Text → ℕ → Registry → Registry × Response PeerResponse
peers_method Http.post peer now r = answer_register (register peer now r)
peers_method Http.delete peer now r = (deregister peer r, no_content)
peers_method Http.get peer now r = (r, method_refused)
peers_method Http.unlisted peer now r = (r, method_refused)

-- `Peers`
unfoldable pub peers_handler : Method → Text → ℕ → Registry → Registry × Response PeerResponse
peers_handler method peer now r =
    if is_empty peer
    then (r, token_refused 401 Http.invalid_token)
    else peers_method method peer now r

abbrev pub answer_heartbeat : Registry × Result Peer → Registry × Response PeerResponse
answer_heartbeat (r, ok peer) = (r, answered 200 (peer_response none peer))
answer_heartbeat (r, err e) = (r, refused 409 Http.registration_required)

-- `Heartbeat`
unfoldable pub heartbeat_handler : Text → ℕ → Registry → Registry × Response PeerResponse
heartbeat_handler peer now r =
    if is_empty peer
    then (r, token_refused 401 Http.invalid_token)
    else answer_heartbeat (heartbeat peer now r)

abbrev pub answer_lookup : Option Peer → Response PeerResponse
answer_lookup none = refused 404 Http.not_found
answer_lookup (some peer) = answered 200 (peer_response none peer)

-- `PeerLookup`
unfoldable pub lookup_handler : Text → Text → ℕ → Registry → Response PeerResponse
lookup_handler peer id now r =
    if is_empty peer then token_refused 401 Http.invalid_token else answer_lookup (look_up id now r)

answer_register-store : (t : Registry × Result Peer) → (answer_register t).0 ≡ t.0
answer_register-store (t, ok peer) = refl
answer_register-store (t, err e) = refl

answer_heartbeat-store : (t : Registry × Result Peer) → (answer_heartbeat t).0 ≡ t.0
answer_heartbeat-store (t, ok peer) = refl
answer_heartbeat-store (t, err e) = refl

register_others :
    (peer j : Text) (now : ℕ) (r : Registry)
    → j ≢ trim_space peer
    → look_up j now (register peer now r).0 ≡ look_up j now r
register_others peer j now r ne = elim (register_lem peer now r) [
  | inl (answer, reads) ↦ reads j ∙ ground arith
  | inr (refusal, reads) ↦ reads j
]

deregister_others :
    (peer j : Text) (now : ℕ) (r : Registry)
    → j ≢ peer
    → look_up j now (deregister peer r) ≡ look_up j now r
unfolding deregister look_up
deregister_others peer j now r ne = ground (arith, lookup-delete peer j r.peers)

heartbeat_others :
    (peer j : Text) (now : ℕ) (r : Registry)
    → j ≢ peer
    → look_up j now (heartbeat peer now r).0 ≡ look_up j now r
heartbeat_others peer j now r ne = (heartbeat_lem peer now r).1 j ∙ ground arith

peers_method_others :
    (method : Method) (peer j : Text) (now : ℕ) (r : Registry)
    → j ≢ peer
    → j ≢ trim_space peer
    → look_up j now (peers_method method peer now r).0 ≡ look_up j now r
peers_method_others Http.post peer j now r ne ne' =
    ap (look_up j now) (answer_register-store (register peer now r))
    ∙ register_others peer j now r ne'
peers_method_others Http.delete peer j now r ne ne' = deregister_others peer j now r ne
peers_method_others Http.get peer j now r ne ne' = refl
peers_method_others Http.unlisted peer j now r ne ne' = refl

-- Whatever the method, the token and the time, neither the registration route nor the heartbeat
-- route changes how any other peer than the token's reads, the trimmed peer of a registration
-- included.
pub handlers_leave_others :
    (method : Method) (peer j : Text) (now : ℕ) (r : Registry)
    → j ≢ peer
    → j ≢ trim_space peer
    → (look_up j now (peers_handler method peer now r).0 ≡ look_up j now r)
      × (look_up j now (heartbeat_handler peer now r).0 ≡ look_up j now r)
unfolding peers_handler heartbeat_handler
handlers_leave_others method peer j now r ne ne' = elim (Bool-cases (is_empty peer)) [
  | inl absent ↦ rw absent (refl, refl)
  | inr named ↦ rw named (
    peers_method_others method peer j now r ne ne',
    ap (look_up j now) (answer_heartbeat-store (heartbeat peer now r))
        ∙ heartbeat_others peer j now r ne,
  )
]
