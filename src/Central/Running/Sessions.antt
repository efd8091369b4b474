-- ===== src/Central/Running/Sessions.antt =====
-- The handlers of internal/transport/sessions.go and the callbacks of cmd/central/main.go, over the
-- invariant of internal/session/session.go.
use dc_streaming_p2p.Base.{
  ℕ, Bool, true, Option, none, some, List, [], ◌∷◌, Text, inl, inr, ◌≡◌, refl, sym, subst,
  Bool-cases,
}
use dc_streaming_p2p.Base.Strings.{is_empty, same}
use dc_streaming_p2p.Session.Record.{State, MediaPath, Session, Result, ok, err, unknown, closed}
use dc_streaming_p2p.Session.Store
use dc_streaming_p2p.Session.Store.{Store, retained_per_live}
use dc_streaming_p2p.Session.Ops.{open_session, get, report, close_peer}
use dc_streaming_p2p.Session.Opening.{Sound, Fresh}
use dc_streaming_p2p.Session.Reporting.{get-Sound, report-Sound}
use dc_streaming_p2p.Session.Closing.{close_peer-Sound}
use dc_streaming_p2p.Session.History.{Step-Sound, opens}
use dc_streaming_p2p.Transport.Http
use dc_streaming_p2p.Transport.Http.{Method}
use dc_streaming_p2p.Transport.Sessions.{
  open_handler, answer_open, session_handler, session_method, answer_get, answer_report,
  report_handler, report_body, report_parsed, reportable_state, reportable_path,
}
use dc_streaming_p2p.Central.{other_in, other_peer}
use dc_streaming_p2p.Central.Sweep.{close_each}

module _ (settings : Store.Settings) where
  answer_open-store : (r : Store × Result Session) → (answer_open r).0 ≡ r.0
  answer_open-store (s, ok opened) = refl
  answer_open-store (s, err e) = refl

  answer_get-store : (r : Store × Result Session) → (answer_get r).0 ≡ r.0
  answer_get-store (s, ok found) = refl
  answer_get-store (s, err e) = refl

  answer_report-store : (told : Bool) (r : Store × Result Session) → (answer_report told r).0 ≡ r.0
  answer_report-store told (s, ok moved) = refl
  answer_report-store told (s, err e) = refl

  pub open_handler-Sound :
      (look_up : Text → Bool) (fresh : Option Text) (peer : Text) (body : Option Text) (now : ℕ)
      (s : Store)
      → Fresh fresh s
      → Sound settings s
      → Sound settings (open_handler (some look_up) fresh peer body now s).0
  unfolding open_handler
  open_handler-Sound look_up fresh peer none now s f o = elim (Bool-cases (is_empty peer)) [
    | inl blank ↦ rw blank o
    | inr given ↦ rw given o
  ]
  open_handler-Sound look_up fresh peer (some callee) now s f o =
      let opened : Sound settings (answer_open (open_session fresh peer callee now s)).0 =
        subst (Sound settings) (sym (answer_open-store (open_session fresh peer callee now s)))
          (Step-Sound settings (opens fresh peer callee now f) o) in
      elim (Bool-cases (is_empty peer)) [
        | inl blank ↦ rw blank o
        | inr given ↦ elim (Bool-cases (is_empty callee)) [
          | inl nobody ↦ rw (given, nobody) o
          | inr somebody ↦ elim (Bool-cases (same callee peer)) [
            | inl itself ↦ rw (given, somebody, itself) o
            | inr another ↦ elim (Bool-cases (look_up callee)) [
              | inl there ↦ rw (given, somebody, another, there) opened
              | inr gone ↦ rw (given, somebody, another, gone) o
            ]
          ]
        ]
      ]

  report-answered-Sound :
      (id peer : Text) (to : State) (path : MediaPath) (now : ℕ) (s : Store)
      → Sound settings s
      → Sound settings (answer_report true (report id peer to path now s)).0
  report-answered-Sound id peer to path now s o =
      subst (Sound settings) (sym (answer_report-store true (report id peer to path now s)))
        (report-Sound settings id peer to path now s o)

  session_method-Sound :
      (method : Method) (id peer : Text) (now : ℕ) (s : Store)
      → Sound settings s
      → Sound settings (session_method true method id peer now s).0
  session_method-Sound Http.get id peer now s o =
      subst (Sound settings) (sym (answer_get-store (get id peer now s)))
        (get-Sound settings id peer now s o)
  session_method-Sound Http.delete id peer now s o =
      report-answered-Sound id peer closed unknown now s o
  session_method-Sound Http.post id peer now s o = o
  session_method-Sound Http.unlisted id peer now s o = o

  pub session_handler-Sound :
      (method : Method) (id peer : Text) (now : ℕ) (s : Store)
      → Sound settings s
      → Sound settings (session_handler true method id peer now s).0
  unfolding session_handler
  session_handler-Sound method id peer now s o = elim (Bool-cases (is_empty peer)) [
    | inl blank ↦ rw blank o
    | inr given ↦ rw given (session_method-Sound method id peer now s o)
  ]

  report_parsed-Sound :
      (state : Option State) (path : Option MediaPath) (id peer : Text) (now : ℕ) (s : Store)
      → Sound settings s
      → Sound settings (report_parsed true state path id peer now s).0
  report_parsed-Sound none path id peer now s o = o
  report_parsed-Sound (some state) none id peer now s o = o
  report_parsed-Sound (some state) (some path) id peer now s o =
      report-answered-Sound id peer state path now s o

  report_body-Sound :
      (body : Option (Text × Text)) (id peer : Text) (now : ℕ) (s : Store)
      → Sound settings s
      → Sound settings (report_body true body id peer now s).0
  report_body-Sound none id peer now s o = o
  report_body-Sound (some (state, path)) id peer now s o =
      report_parsed-Sound (reportable_state state) (reportable_path path) id peer now s o

  pub report_handler-Sound :
      (body : Option (Text × Text)) (id peer : Text) (now : ℕ) (s : Store)
      → Sound settings s
      → Sound settings (report_handler true body id peer now s).0
  unfolding report_handler
  report_handler-Sound body id peer now s o = elim (Bool-cases (is_empty peer)) [
    | inl blank ↦ rw blank o
    | inr given ↦ rw given (report_body-Sound body id peer now s o)
  ]

  other_in-Sound :
      (peer : Text) (r : Store × Result Session)
      → Sound settings r.0
      → Sound settings (other_in peer r).0
  other_in-Sound peer (s, ok h) o = o
  other_in-Sound peer (s, err e) o = o

  pub other_peer-Sound :
      (now : ℕ) (id peer : Text) (s : Store)
      → Sound settings s
      → Sound settings (other_peer now id peer s).0
  unfolding other_peer
  other_peer-Sound now id peer s o =
      other_in-Sound peer (get id peer now s) (get-Sound settings id peer now s o)

  pub close_each-Sound :
      (clock : Text → ℕ) (peers : List Text) (s : Store)
      → Sound settings s
      → Sound settings (close_each clock peers s).0
  unfolding close_each
  close_each-Sound clock [] s o = o
  close_each-Sound clock (peer ∷ peers) s o =
      close_each-Sound clock peers (close_peer peer (clock peer) s).0
        (close_peer-Sound settings peer (clock peer) s o)
