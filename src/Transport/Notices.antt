-- ===== src/Transport/Notices.antt =====
-- `notifyEnded` of internal/transport/sessions.go, over single requests.
use dc_streaming_p2p.Base.{
  ℕ, ◌≡◌, refl, sym, ap, ◌∙◌, subst, Bool, false, Option, none, some, Text, arith, inl, inr,
  Bool-cases, Option-cases,
}
use dc_streaming_p2p.Base.Map.{lookup}
use dc_streaming_p2p.Base.Strings.{is_empty}
use dc_streaming_p2p.Session.Record.{
  State, closed, MediaPath, unknown, Session, live, Result, ok, err, Error, not_found,
  bad_transition, can_move,
}
use dc_streaming_p2p.Session.Store.{Store, Settings}
use dc_streaming_p2p.Session.Ops.{get, report, member, moved}
use dc_streaming_p2p.Session.Invariant.{Inv}
use dc_streaming_p2p.Session.Opening.{Sound}
use dc_streaming_p2p.Session.Outcomes.{report_lem}
use dc_streaming_p2p.Session.Settling.{settled}
use dc_streaming_p2p.Session.Reporting.{report-Sound}
use dc_streaming_p2p.Transport.Http
use dc_streaming_p2p.Transport.Http.{Response, refused, answered, Method}
use dc_streaming_p2p.Transport.Sessions.{
  session_handler, report_handler, report_body, report_parsed, answer_report, answer_get,
  notify_ended, Notice, Ending, session_method, reportable_state, reportable_path,
}

-- The store holds the session, and it has ended.
abbrev pub Over : Text → Store → Type 0
Over id t = (h : Session) × (lookup id t.sessions ≡ some h) × (live h ≡ false)

answer_report-ok :
    (told : Bool) (r : Store × Result Session) (h : Session)
    → r.1 ≡ ok h
    → (answer_report told r).2 ≡ notify_ended told h
answer_report-ok told (t, ok g) h e =
    let same_session : g ≡ h = ground arith in ap (notify_ended told) same_session
answer_report-ok told (t, err g) h e = absurd (ground arith)

answer_report-err :
    (told : Bool) (r : Store × Result Session) (e : Error)
    → r.1 ≡ err e
    → (answer_report told r).2 ≡ none
answer_report-err told (t, ok g) e f = absurd (ground arith)
answer_report-err told (t, err g) e f = refl

answer_report-store : (told : Bool) (r : Store × Result Session) → (answer_report told r).0 ≡ r.0
answer_report-store told (t, ok g) = refl
answer_report-store told (t, err g) = refl

-- Who is told of a report is told of a session that is over.
report_told :
    (told : Bool) (id peer : Text) (to : State) (path : MediaPath) (now : ℕ) (s : Store)
    (n : Notice)
    → Inv s
    → (answer_report told (report id peer to path now s)).2 ≡ some n
    → Over id (report id peer to path now s).0
report_told told id peer to path now s n v e =
    let (answer, writes) = report_lem id peer to path now s v in
    let r = report id peer to path now s in
    elim (Option-cases (member peer (lookup id s.sessions))) [
      | inl absent ↦
          let refusal : r.1 ≡ err not_found = ground arith in
          absurd (ground (arith, answer_report-err told r not_found refusal))
      | inr (h, held) ↦
          let g = settled s.timeout now h in
          elim (Bool-cases (can_move g.state to)) [
            | inr stays ↦
                let refusal : r.1 ≡ err bad_transition = ground arith in
                absurd (ground (arith, answer_report-err told r bad_transition refusal))
            | inl moves ↦
                let agreed : r.1 ≡ ok (moved to path now g) = ground arith in
                let notified = answer_report-ok told r (moved to path now g) agreed in
                (moved to path now g, ground (arith, writes id), ground (arith, notified))
          ]
    ]

-- The store holds no session of an identifier, or one that has ended.
abbrev pub Done : Text → Store → Type 0
Done id t = (h : Session) → lookup id t.sessions ≡ some h → live h ≡ false

pub Over-Done : (id : Text) (t : Store) → Over id t → Done id t
Over-Done id t (h, held, over) g e =
    let same_session : h ≡ g = ground (arith, held, e) in ap live (sym same_session) ∙ over

-- A report on a session that is over or gone is refused, so nobody is told.
Done-untold :
    (told : Bool) (id peer : Text) (to : State) (path : MediaPath) (now : ℕ) (s : Store)
    → Inv s
    → Done id s
    → (answer_report told (report id peer to path now s)).2 ≡ none
unfolding can_move
Done-untold told id peer to path now s v done =
    let (answer, writes) = report_lem id peer to path now s v in
    let r = report id peer to path now s in
    elim (Option-cases (member peer (lookup id s.sessions))) [
      | inl absent ↦
          let refusal : r.1 ≡ err not_found = ground arith in
          answer_report-err told r not_found refusal
      | inr (h, inside) ↦
          let held : lookup id s.sessions ≡ some h = ground arith in
          let over = done h held in
          let refusal : r.1 ≡ err bad_transition = ground arith in
          answer_report-err told r bad_transition refusal
    ]

answer_get-none : (r : Store × Result Session) → (answer_get r).2 ≡ none
answer_get-none (t, ok h) = refl
answer_get-none (t, err e) = refl

-- What a request that tells the peers of a session leaves.
abbrev pub Told : Settings → Text → Ending → Type 0
Told settings id r = Over id r.0 × Sound settings r.0

module _ (settings : Settings) (told : Bool) (id peer : Text) (now : ℕ) (s : Store) (n : Notice)
    (o : Sound settings s) where
  answer_report-Told :
      (to : State) (path : MediaPath)
      → (answer_report told (report id peer to path now s)).2 ≡ some n
      → Told settings id (answer_report told (report id peer to path now s))
  answer_report-Told to path e =
      subst (λ t. Over id t × Sound settings t)
        (sym (answer_report-store told (report id peer to path now s)))
        (
          report_told told id peer to path now s n o.valid.inv e,
          report-Sound settings id peer to path now s o,
        )

  report_parsed-Told :
      (to : Option State) (path : Option MediaPath)
      → (report_parsed told to path id peer now s).2 ≡ some n
      → Told settings id (report_parsed told to path id peer now s)
  report_parsed-Told none path e = absurd (ground arith)
  report_parsed-Told (some to) none e = absurd (ground arith)
  report_parsed-Told (some to) (some path) e = answer_report-Told to path e

  report_body-Told :
      (body : Option (Text × Text))
      → (report_body told body id peer now s).2 ≡ some n
      → Told settings id (report_body told body id peer now s)
  report_body-Told none e = absurd (ground arith)
  report_body-Told (some (to, path)) e =
      report_parsed-Told (reportable_state to) (reportable_path path) e

  pub report_handler-Told :
      (body : Option (Text × Text))
      → (report_handler told body id peer now s).2 ≡ some n
      → Told settings id (report_handler told body id peer now s)
  unfolding report_handler
  report_handler-Told body e = elim (Bool-cases (is_empty peer)) [
    | inl absent ↦ absurd (ground arith)
    | inr named ↦ rw named (report_body-Told body (rw named at e))
  ]

  session_method-Told :
      (method : Method)
      → (session_method told method id peer now s).2 ≡ some n
      → Told settings id (session_method told method id peer now s)
  session_method-Told Http.get e = absurd (ground (arith, answer_get-none (get id peer now s)))
  session_method-Told Http.delete e = answer_report-Told closed unknown e
  session_method-Told Http.post e = absurd (ground arith)
  session_method-Told Http.unlisted e = absurd (ground arith)

  pub session_handler-Told :
      (method : Method)
      → (session_handler told method id peer now s).2 ≡ some n
      → Told settings id (session_handler told method id peer now s)
  unfolding session_handler
  session_handler-Told method e = elim (Bool-cases (is_empty peer)) [
    | inl absent ↦ absurd (ground arith)
    | inr named ↦ rw named (session_method-Told method (rw named at e))
  ]

module _ (told : Bool) (id peer : Text) (now : ℕ) (s : Store) (v : Inv s) (over : Done id s) where
  parsed_untold :
      (to : Option State) (path : Option MediaPath)
      → (report_parsed told to path id peer now s).2 ≡ none
  parsed_untold none path = refl
  parsed_untold (some to) none = refl
  parsed_untold (some to) (some path) = Done-untold told id peer to path now s v over

  body_untold : (body : Option (Text × Text)) → (report_body told body id peer now s).2 ≡ none
  body_untold none = refl
  body_untold (some (to, path)) = parsed_untold (reportable_state to) (reportable_path path)

  pub report_handler_untold :
      (body : Option (Text × Text)) → (report_handler told body id peer now s).2 ≡ none
  unfolding report_handler
  report_handler_untold body = elim (Bool-cases (is_empty peer)) [
    | inl absent ↦ rw absent refl
    | inr named ↦ rw named (body_untold body)
  ]

  method_untold : (method : Method) → (session_method told method id peer now s).2 ≡ none
  method_untold Http.get = answer_get-none (get id peer now s)
  method_untold Http.delete = Done-untold told id peer closed unknown now s v over
  method_untold Http.post = refl
  method_untold Http.unlisted = refl

  pub session_handler_untold :
      (method : Method) → (session_handler told method id peer now s).2 ≡ none
  unfolding session_handler
  session_handler_untold method = elim (Bool-cases (is_empty peer)) [
    | inl absent ↦ rw absent refl
    | inr named ↦ rw named (method_untold method)
  ]
