-- ===== src/Transport/Sharing.antt =====
-- The answers of internal/transport/sessions.go to the caller and to outsiders.
use dc_streaming_p2p.Base.{
  ℕ, ◌≡◌, ◌≢◌, ◌⊎◌, refl, sym, ap, ◌∙◌, Bool, true, false, Option, none, some, Text, arith, inl,
  inr, Bool-cases,
}
use dc_streaming_p2p.Base.Map.{lookup}
use dc_streaming_p2p.Base.Strings.{same, is_empty, trim_space}
use dc_streaming_p2p.Session.Record.{
  State, closed, MediaPath, unknown, Session, live, Result, ok, err, Error, not_found,
  bad_transition, not_allowed, self, full, too_many_for_peer, no_caller, no_callee, no_identifier,
  pair_key,
}
use dc_streaming_p2p.Session.Store.{Store, Settings}
use dc_streaming_p2p.Session.Ops.{open_session, open_trimmed, reachable, get, report, member}
use dc_streaming_p2p.Session.Reports.{Outside, Outside-member}
use dc_streaming_p2p.Session.Opening.{Sound, Fresh, open_session-Opens, Answers}
use dc_streaming_p2p.Transport.Http
use dc_streaming_p2p.Transport.Http.{Response, refused, answered, method_refused, Method}
use dc_streaming_p2p.Transport.Sessions.{
  open_handler, open_error, answer_open, session_handler, report_parsed, as_response,
  SessionResponse, session_method, report_body, report_handler, reportable_state, reportable_path,
  answer_get, answer_report, Ending,
}

-- A peer that cannot be reached and a peer that the policy refuses are one answer: to a token that
-- names a peer, a call of another one, both with a name that is not blank, that is unreachable or
-- refused to it leaves the store as it was, and the answer does not depend on which.
pub open_handler_hides :
    (peers : Option (Text → Bool)) (fresh : Option Text) (caller peer : Text) (now : ℕ) (s : Store)
    → is_empty caller ≡ false
    → is_empty (trim_space caller) ≡ false
    → is_empty peer ≡ false
    → is_empty (trim_space peer) ≡ false
    → peer ≢ caller
    → trim_space caller ≢ trim_space peer
    → (reachable peers peer ≡ false) ⊎ (s.allows (trim_space caller) (trim_space peer) ≡ false)
    → open_handler peers fresh caller (some peer) now s ≡ (s, refused 404 Http.not_reachable)
unfolding open_handler open_session open_trimmed
open_handler_hides peers fresh caller peer now s a b c e ne ne' r = ground arith

-- What an answer of `OpenSession` means for the store that it leaves.
abbrev pub Means : Text → Store × Response SessionResponse → Type 0
Means key (t, answered status body) =
    (status ≡ 201)
    × ((h : Session) × (body ≡ as_response h)
        × (lookup h.id t.sessions ≡ some h)
        × (live h ≡ true)
        × (pair_key h.caller h.callee ≡ key))
Means key (t, other) = Unit

open_error-Means : (key : Text) (t : Store) (e : Error) → Means key (t, open_error e)
open_error-Means key t e = elim e as (λ k. Means key (t, open_error k)) [
  | not_found ↦ tt
  | not_allowed ↦ tt
  | self ↦ tt
  | full ↦ tt
  | too_many_for_peer ↦ tt
  | bad_transition ↦ tt
  | no_caller ↦ tt
  | no_callee ↦ tt
  | no_identifier ↦ tt
]

open_answer-Means :
    (key : Text) (r : Store × Result Session) → Answers key r.0 r.1 → Means key (answer_open r)
open_answer-Means key (t, ok h) a = (refl, (h, refl, a.0, a.1, a.2))
open_answer-Means key (t, err e) a = open_error-Means key t e

-- In a sound store, whatever a request to open a session holds: if it is answered with a session,
-- the status is 201, and that session stands in the store, is live and is of the token's peer and
-- the peer that the body names.
pub open_handler-Means :
    (settings : Settings) (peers : Option (Text → Bool)) (fresh : Option Text) (caller peer : Text)
    (now : ℕ) (s : Store)
    → Sound settings s
    → Fresh fresh s
    → Means
        (pair_key (trim_space caller) (trim_space peer))
        (open_handler peers fresh caller (some peer) now s)
unfolding open_handler
open_handler-Means settings peers fresh caller peer now s o f =
    let a = open_session-Opens settings fresh caller peer now s o f in
    let m =
      open_answer-Means (pair_key (trim_space caller) (trim_space peer))
        (open_session fresh caller peer now s) a.1 in
    elim (Bool-cases (is_empty caller)) [
      | inl absent ↦ rw absent tt
      | inr named ↦ elim (Bool-cases (is_empty peer)) [
        | inl blank ↦ rw (named, blank) tt
        | inr given ↦ elim (Bool-cases (same peer caller)) [
          | inl itself ↦ rw (named, given, itself) tt
          | inr other ↦ elim (Bool-cases (reachable peers peer)) [
            | inl there ↦ rw (named, given, other, there) m
            | inr gone ↦ rw (named, given, other, gone) tt
          ]
        ]
      ]
    ]

module _ (told : Bool) (id peer : Text) (now : ℕ) (s : Store)
    (absent : member peer (lookup id s.sessions) ≡ none) where
  get-absent : get id peer now s ≡ (s, err not_found)
  unfolding get
  get-absent = rw absent refl

  report-absent :
      (to : State) (path : MediaPath) → report id peer to path now s ≡ (s, err not_found)
  unfolding report
  report-absent to path = rw absent refl

  -- The answer to a request about a session that its peer is told nothing of.
  abbrev hidden_method : Method → Response SessionResponse
  hidden_method Http.get = refused 404 Http.not_found
  hidden_method Http.delete = refused 404 Http.not_found
  hidden_method Http.post = method_refused
  hidden_method Http.unlisted = method_refused

  abbrev hidden_parsed : Option State → Option MediaPath → Response SessionResponse
  hidden_parsed none path = refused 400 Http.invalid_request
  hidden_parsed (some to) none = refused 400 Http.invalid_request
  hidden_parsed (some to) (some path) = refused 404 Http.not_found

  abbrev hidden_body : Option (Text × Text) → Response SessionResponse
  hidden_body none = refused 400 Http.invalid_request
  hidden_body (some (to, path)) = hidden_parsed (reportable_state to) (reportable_path path)

  session_method-absent :
      (method : Method) → session_method told method id peer now s ≡ (s, hidden_method method, none)
  session_method-absent Http.get = ap answer_get get-absent
  session_method-absent Http.delete = ap (answer_report told) (report-absent closed unknown)
  session_method-absent Http.post = refl
  session_method-absent Http.unlisted = refl

  report_parsed-absent :
      (to : Option State) (path : Option MediaPath)
      → report_parsed told to path id peer now s ≡ (s, hidden_parsed to path, none)
  report_parsed-absent none path = refl
  report_parsed-absent (some to) none = refl
  report_parsed-absent (some to) (some path) = ap (answer_report told) (report-absent to path)

  report_body-absent :
      (body : Option (Text × Text))
      → report_body told body id peer now s ≡ (s, hidden_body body, none)
  report_body-absent none = refl
  report_body-absent (some (to, path)) =
      report_parsed-absent (reportable_state to) (reportable_path path)

-- What a peer with a token is answered about a session that it is told nothing of.
module _ (told : Bool) (id peer : Text) (now : ℕ) (s : Store) (named : is_empty peer ≡ false)
    (absent : member peer (lookup id s.sessions) ≡ none) where
  session_handler-absent :
      (method : Method)
      → session_handler told method id peer now s
        ≡ (s, hidden_method told id peer now s absent method, none)
  unfolding session_handler
  session_handler-absent method = rw named (session_method-absent told id peer now s absent method)

  report_handler-absent :
      (body : Option (Text × Text))
      → report_handler told body id peer now s
        ≡ (s, hidden_body told id peer now s absent body, none)
  unfolding report_handler
  report_handler-absent body = rw named (report_body-absent told id peer now s absent body)

-- Let a token name a peer that is neither the caller nor the callee of a session stored under an
-- identifier. Whatever it asks about that identifier, by any method and with any body, the answer is
-- the one that a store without a session under that identifier gives, nothing is written and nobody is
-- told; and for reading and for hanging up that answer is 404.
pub outsider_answer :
    (told : Bool) (id peer : Text) (method : Method) (body : Option (Text × Text)) (now : ℕ)
    (s bare : Store)
    → is_empty peer ≡ false
    → Outside id peer s
    → lookup id bare.sessions ≡ none
    → (session_handler told method id peer now s
        ≡ (s, (session_handler told method id peer now bare).1, none))
      × (report_handler told body id peer now s
          ≡ (s, (report_handler told body id peer now bare).1, none))
      × (session_handler told Http.get id peer now s ≡ (s, refused 404 Http.not_found, none))
      × (session_handler told Http.delete id peer now s ≡ (s, refused 404 Http.not_found, none))
outsider_answer told id peer method body now s bare named out free =
    let absent = Outside-member id peer s out in
    let absent_there : member peer (lookup id bare.sessions) ≡ none = ap (member peer) free in
    (
      session_handler-absent told id peer now s named absent method
          ∙ ap (λ (r : Ending). (s, r.1, none))
              (sym (session_handler-absent told id peer now bare named absent_there method)),
      report_handler-absent told id peer now s named absent body
          ∙ ap (λ (r : Ending). (s, r.1, none))
              (sym (report_handler-absent told id peer now bare named absent_there body)),
      session_handler-absent told id peer now s named absent Http.get,
      session_handler-absent told id peer now s named absent Http.delete,
    )
