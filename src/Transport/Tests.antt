-- ===== src/Transport/Tests.antt =====
-- Requests to a store with one call, and to a registry, and the theorems applied to them.
use dc_streaming_p2p.Base.{
  ◌≡◌, ◌≢◌, ◌++◌, refl, sym, Bool, true, false, Option, none, some, [], ◌∷◌, Text, text_dec,
  ℕ_discrete, arith, inl, inr, ap, is_some,
}
use dc_streaming_p2p.Base.Map.{lookup, insert}
use dc_streaming_p2p.Base.Int
use dc_streaming_p2p.Base.Strings.{trim_space, codes, is_space, text_len}
use dc_streaming_p2p.Session.Record.{closed, allow_all, has, can_move}
use dc_streaming_p2p.Session.Store.{Options, Store, new, empty_store}
use dc_streaming_p2p.Session.Steps
use dc_streaming_p2p.Session.Ops.{open_session, report, new_session}
use dc_streaming_p2p.Session.Opening.{Sound}
use dc_streaming_p2p.Session.History.{Reach-Sound, here, next, opens}
use dc_streaming_p2p.Registry.Defs
use dc_streaming_p2p.Auth.Limiter
use dc_streaming_p2p.Auth.Limiter.Total
use dc_streaming_p2p.Transport.Login.{
  auth_handler, require_token, bearer_token, Verdict, names, TokenResponse,
}
use dc_streaming_p2p.Transport.Attempts.{auth_handler-Earned, Earned}
use dc_streaming_p2p.Auth.Tokens.{registered, new_token_verifier, public_key}
use dc_streaming_p2p.Auth.Tokens.Sample.{sample, sample-Lawful}
use dc_streaming_p2p.Auth.Tokens.Tests as Signed
use dc_streaming_p2p.Base.Split.{joined}
use dc_streaming_p2p.Signaling.Hub.{Hub}
use dc_streaming_p2p.Transport.Signal
use dc_streaming_p2p.Transport.Signal.{open_channel, token_from_subprotocols}
use dc_streaming_p2p.Transport.Offers.{
  offers, open_channel-auth_handler, token_from_subprotocols_lem,
}
use dc_streaming_p2p.Transport.Requests.{
  recorded, recorder, writes_header, writes_body, recorded_lem, is_safe, sanitize_request_id,
  request_id, request_id_lem,
}
use dc_streaming_p2p.Transport.Access.{verifying, issuing, guard, guard-auth_handler}
use dc_streaming_p2p.Transport.Http
use dc_streaming_p2p.Transport.Http.{refused}
use dc_streaming_p2p.Transport.Sessions.{
  open_handler, session_handler, report_handler, state_text, Notice,
}
use dc_streaming_p2p.Transport.Sharing.{open_handler_hides, outsider_answer}
use dc_streaming_p2p.Transport.Afterwards
use dc_streaming_p2p.Transport.Afterwards.{tells, Later, at_once, then_called, told_once}
use dc_streaming_p2p.Session.Reports.{Outside}

abbrev ann : Text
ann = 97 ∷ []

abbrev bob : Text
bob = 98 ∷ []

abbrev cat : Text
cat = 99 ∷ []

abbrev call : Text
call = 49 ∷ []

abbrev opts : Options
opts = record {
  negotiation_timeout = Int.pos 30;
  retention = Int.pos 60;
  max_sessions = Int.pos 10;
  max_sessions_per_peer = Int.pos 3;
  authorizer = none;
}

abbrev started : Store
started =
    empty_store
      (record { timeout = 30; retention = 60; ceiling = 10; per_peer_cap = 3; allows = allow_all })

started-Sound : Sound started.settings started
unfolding new
started-Sound = Reach-Sound opts refl here

abbrev called : Store
called = (open_session (some call) ann bob 5 started).0

called-Sound : Sound started.settings called
unfolding new lookup
called-Sound = Reach-Sound opts refl (next here (opens (some call) ann bob 5 refl))

-- Nobody can be reached.
abbrev nobody : Option (Text → Bool)
nobody = some (λ peer. false)

apart : bob ≢ ann
apart e = ground arith

trimmed_apart : trim_space ann ≢ trim_space bob
unfolding trim_space
trimmed_apart e = ground arith

open_handler_hides_example :
    open_handler nobody (some call) ann (some bob) 5 started
    ≡ (started, refused 404 Http.not_reachable)
unfolding trim_space
open_handler_hides_example =
    open_handler_hides nobody (some call) ann bob 5 started refl refl refl refl apart trimmed_apart
      (inl refl)

called_call : lookup call called.sessions ≡ some (new_session call ann bob 5)
unfolding lookup open_session trim_space text_dec ℕ_discrete Steps.find_pair insert Steps.trim
called_call = refl

cat-Outside : Outside call cat called
cat-Outside h e (inl f) = absurd (ground (arith, called_call))
cat-Outside h e (inr f) = absurd (ground (arith, called_call))

outsider_answer_example :
    (session_handler true Http.post call cat 6 called
      ≡ (called, (session_handler true Http.post call cat 6 started).1, none))
    × (report_handler true (some (state_text closed, [])) call cat 6 called
        ≡ (called, (report_handler true (some (state_text closed, [])) call cat 6 started).1, none))
    × (session_handler true Http.get call cat 6 called ≡ (called, refused 404 Http.not_found, none))
    × (session_handler true Http.delete call cat 6 called
        ≡ (called, refused 404 Http.not_found, none))
unfolding lookup
outsider_answer_example =
    outsider_answer true call cat Http.post (some (state_text closed, [])) 6 called started refl
      cat-Outside refl

abbrev hang_up : Option (Text × Text)
hang_up = some (state_text closed, [])

abbrev notice : Notice
notice = record { id = call; state = state_text closed; peers = ann ∷ bob ∷ [] }

hung_up_told : (report_handler true hang_up call ann 9 called).2 ≡ some notice
unfolding report_handler text_dec ℕ_discrete report lookup open_session trim_space Steps.find_pair
    insert Steps.trim has can_move
hung_up_told = refl

hung_up_tells : (tells true (Afterwards.reports hang_up ann) call 9 called).1 ≡ true
hung_up_tells = ap is_some hung_up_told

-- The session is hung up; then a third peer calls one of the two, and ann goes.
abbrev after_call : Store
after_call = (tells true (Afterwards.reports hang_up ann) call 9 called).0

abbrev after_opening : Store
after_opening = (open_session (some (50 ∷ [])) cat bob 10 after_call).0

other_call_free : lookup (50 ∷ []) after_call.sessions ≡ none
unfolding report_handler text_dec ℕ_discrete report lookup open_session trim_space Steps.find_pair
    insert Steps.trim has can_move
other_call_free = refl

call_held : is_some (lookup call after_call.sessions) ≡ true
unfolding report_handler text_dec ℕ_discrete report lookup open_session trim_space Steps.find_pair
    insert Steps.trim has can_move
call_held = refl

opening_Later : Later call after_call after_opening
opening_Later =
    then_called at_once (opens (some (50 ∷ [])) cat bob 10 other_call_free)
      (λ e. absurd (ground (arith, call_held)))

told_once_example : (tells true (Afterwards.expires ann) call 12 after_opening).1 ≡ false
told_once_example =
    told_once started.settings true true (Afterwards.reports hang_up ann) (Afterwards.expires ann)
      call 9 12 called called-Sound hung_up_tells opening_Later

abbrev registry : Defs.Registry
registry = Defs.empty_registry (record {
  heartbeat_interval = Int.pos 10;
  suspect_after = Int.pos 20;
  offline_after = Int.pos 50;
  max_peers = Int.pos 1;
})

abbrev limiter : Limiter.Limiter
limiter = record { allowance = 3; window = 60; failures = []; order = []; last_sweep = 0 }

-- Every credential is ann's, and a token is the name of its peer.
abbrev right : Text → Text → Option Text
right client secret = some ann

abbrev sign : Text → Option TokenResponse
sign peer = some (record { token = peer; peer_id = peer; expires_at = 90 })

auth_handler-Earned_example :
    (r : Limiter.Limiter × Http.Response TokenResponse) × (auth_handler right sign
        (some (bob, call))
        7
        limiter
      ≡ some r)
    × Earned right sign (trim_space bob) call 7 limiter r
unfolding Limiter.new
auth_handler-Earned_example =
    auth_handler-Earned (Int.pos 3) (Int.pos 60) right sign bob call 7 refl Total.here

-- Every token names the peer that it is.
abbrev naming : Text → Verdict
naming raw = names raw

abbrev greet : Text → Http.Response Text
greet peer = Http.answered 200 peer

abbrev header : Text
header = 98 ∷ 69 ∷ 65 ∷ 82 ∷ 69 ∷ 82 ∷ 32 ∷ 97 ∷ []

let_in_ann : require_token naming greet header ≡ Http.answered 200 ann
unfolding require_token bearer_token text_dec ℕ_discrete trim_space
let_in_ann = refl

-- The same credential, where the token is the one that a sample issuer signs for its peer.
abbrev ann_token : TokenResponse
ann_token = record {
  token =
      Signed.text_of
        (sample.signed Signed.key (registered sample Signed.issuer ann Signed.id Signed.now));
  peer_id = ann;
  expires_at = 6900000000;
}

ann_answered :
    auth_handler right
      (issuing sample Signed.issuer (some Signed.id) Signed.now)
      (some (bob, call))
      Signed.now
      limiter
    ≡ some (limiter, Http.answered 200 ann_token)
unfolding auth_handler trim_space dc_streaming_p2p.Base.Strings.text_len Limiter.allowed lookup
    dc_streaming_p2p.Auth.Tokens.issue sample Limiter.succeeded dc_streaming_p2p.Base.Map.delete
ann_answered = refl

guard-auth_handler_example :
    ((peer : Text) × (right (trim_space bob) call ≡ some peer) × (ann ≡ trim_space peer))
    × (guard sample
          (new_token_verifier (public_key sample Signed.issuer) (codes " central "))
          5500000000
          greet
          (codes "Bearer " ++ ann_token.token)
        ≡ greet ann)
unfolding sample
guard-auth_handler_example =
    guard-auth_handler sample sample-Lawful Signed.key (codes " central ") (Int.pos 5000000000)
      Signed.issuer right limiter limiter ann_token Signed.id bob call Signed.now 5500000000 greet
      Signed.issuer-made ann_answered

abbrev no_hub : Hub
no_hub = record { allowance = 3; window = 10; send_timeout = 5; has_presence = true; conns = [] }

open_channel-auth_handler_example :
    ((peer : Text) × (right (trim_space bob) call ≡ some peer) × (ann ≡ trim_space peer))
    × (open_channel
          (verifying sample
            (new_token_verifier (public_key sample Signed.issuer) (codes " central "))
            7000000000)
          (joined (offers ann_token.token) ∷ [])
          true
          1
          7000000000
          no_hub
        ≡ (no_hub, [], Signal.refused 401 Http.token_expired))
unfolding sample
open_channel-auth_handler_example =
    open_channel-auth_handler sample sample-Lawful Signed.key (codes " central ")
      (Int.pos 5000000000) Signed.issuer right limiter limiter ann_token Signed.id bob call
      Signed.now 7000000000 1 no_hub Signed.issuer-made ann_answered

token_from_subprotocols_lem_example :
    token_from_subprotocols (joined (codes "dc-token." ∷ codes "dc-token.x" ∷ []) ∷ [])
    ≡ some (codes "x")
unfolding is_space
token_from_subprotocols_lem_example =
    token_from_subprotocols_lem (codes "dc-token.") (codes "dc-token.x" ∷ []) refl

recorded_lem_example :
    ((recorded (writes_header 404 ∷ writes_body 9 ∷ writes_header 200 ∷ []) recorder).passed_on
      ≡ 404 ∷ [])
    × ((recorded (writes_header 404 ∷ writes_body 9 ∷ writes_header 200 ∷ []) recorder).status
        ≡ 404)
    × ((recorded (writes_header 404 ∷ writes_body 9 ∷ writes_header 200 ∷ []) recorder).written ≡ 9)
recorded_lem_example = recorded_lem (writes_header 404 ∷ writes_body 9 ∷ writes_header 200 ∷ [])

request_id_lem_example :
    (is_safe (sanitize_request_id (codes " a b ")) ≡ true)
    × (request_id (codes "new") (codes "req-1") ≡ codes "req-1")
    × (sanitize_request_id (sanitize_request_id (codes " a b "))
        ≡ sanitize_request_id (codes " a b "))
unfolding text_len
request_id_lem_example = request_id_lem (codes "new") (codes " a b ") (codes "req-1") refl refl
