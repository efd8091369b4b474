-- ===== src/Session/Outcomes.antt =====
-- The answers and the writes of `Get` and `Report` of internal/session/session.go.
use dc_streaming_p2p.Base.{
  ℕ, ◌≤◌, ◌≡◌, refl, none, some, Text, text_dec, ite, arith, Option, Option-cases, inl, inr,
  if◌then◌else◌, ap, ◌∙◌,
}
use dc_streaming_p2p.Base.Map.{lookup, lookup-insert}
use dc_streaming_p2p.Session.Record.{
  State, MediaPath, Session, can_move, Result, ok, err, not_found, bad_transition,
}
use dc_streaming_p2p.Session.Store.{Store}
use dc_streaming_p2p.Session.Steps.{settle, end_session}
use dc_streaming_p2p.Session.Ops.{member, get, moved, report, report_settled}
use dc_streaming_p2p.Session.Invariant.{Inv}
use dc_streaming_p2p.Session.Settling.{
  settled, settled_opt, settle-found, settled-id, view, settle-settled, lookup-settle, view-settle,
}
use dc_streaming_p2p.Session.Reporting.{member-found, member-id}

-- The answer to a peer about a session: what it reads as, if the peer is in it.
abbrev pub answer_to : Option Session → Result Session
answer_to none = err not_found
answer_to (some h) = ok h

-- In a store whose invariant holds: a peer reads a session that it is in, as it stands at that time; every other identifier, and
-- every session of others, is the same `ErrNotFound`. What a read of any session
-- answers at that time or later is what it would have been without this one.
pub get_lem :
    (id asked_by j : Text) (now later : ℕ) (s : Store)
    → Inv s
    → now ≤ later
    → ((get id asked_by now s).1
        ≡ answer_to (settled_opt s.timeout now (member asked_by (lookup id s.sessions))))
      × (view later (get id asked_by now s).0 j ≡ view later s j)
unfolding get
get_lem id asked_by j now later s v le =
    elim (Option-cases (member asked_by (lookup id s.sessions))) [
      | inl e ↦ rw e (refl, refl)
      | inr (h, e) ↦
          let found = (member-found s id asked_by h v e).0 in
          rw e (ap ok (settle-settled h now s), view-settle h now s found later j le)
    ]

-- What `Report` answers, given the session of the reporting peer, if there is one.
abbrev pub reply : State → MediaPath → ℕ → Option Session → Result Session
reply to path now none = err not_found
reply to path now (some h) =
    if can_move h.state to then ok (moved to path now h) else err bad_transition

-- What `Report` leaves under the identifier.
abbrev pub left : State → MediaPath → ℕ → Session → Session
left to path now h = if can_move h.state to then moved to path now h else h

abbrev pub left_at :
    Text → State → MediaPath → ℕ → ℕ → Option Session → Text → Option Session → Option Session
left_at id to path now timeout none j o = o
left_at id to path now timeout (some h) j o =
    ite (text_dec id j) (some (left to path now (settled timeout now h))) o

lookup-report_settled :
    (to : State) (path : MediaPath) (now : ℕ) (h : Session) (s : Store) (j : Text)
    → lookup h.id s.sessions ≡ some h
    → lookup j (report_settled to path now (s, h)).0.sessions
      ≡ ite (text_dec h.id j) (some (left to path now h)) (lookup j s.sessions)
unfolding end_session
lookup-report_settled to path now h s j found =
    ground (arith, lookup-insert h.id j (moved to path now h) s.sessions)

report_settled-reply :
    (to : State) (path : MediaPath) (now : ℕ) (h : Session) (s : Store)
    → (report_settled to path now (s, h)).1 ≡ reply to path now (some h)
report_settled-reply to path now h s = ground arith

-- In a store whose invariant holds, `Report` answers by the settled state of the session: `ErrNotFound` to a peer that is not in it,
-- `ErrBadTransition` for a move that the state does not allow, and else the session in its new
-- state, which is then stored. No other session is written.
pub report_lem :
    (id reported_by : Text) (to : State) (path : MediaPath) (now : ℕ) (s : Store)
    → Inv s
    → ((report id reported_by to path now s).1
        ≡ reply to path now (settled_opt s.timeout now (member reported_by (lookup id s.sessions))))
      × ((j : Text)
          → lookup j (report id reported_by to path now s).0.sessions
            ≡ left_at id to path now s.timeout
                (member reported_by (lookup id s.sessions))
                j
                (lookup j s.sessions))
unfolding report
report_lem id reported_by to path now s v =
    elim (Option-cases (member reported_by (lookup id s.sessions))) [
      | inl e ↦ rw e (refl, λ j. refl)
      | inr (h, e) ↦
          let found = (member-found s id reported_by h v e).0 in
          rw e (
            report_settled-reply to path now (settle h now s).1 (settle h now s).0
                ∙ ap (λ g. reply to path now (some g)) (settle-settled h now s),
            λ j.
                lookup-report_settled to path now (settle h now s).1 (settle h now s).0 j
                  (settle-found h now s found)
                ∙ written h found (member-id s id reported_by h v e) j,
          )
    ]
  where
    written :
        (h : Session)
        → lookup h.id s.sessions ≡ some h
        → h.id ≡ id
        → (j : Text)
        → ite
            (text_dec (settle h now s).1.id j)
            (some (left to path now (settle h now s).1))
            (lookup j (settle h now s).0.sessions)
          ≡ ite
              (text_dec id j)
              (some (left to path now (settled s.timeout now h)))
              (lookup j s.sessions)
    written h found named j =
        rw (settled-id h now s found, settle-settled h now s, lookup-settle h now s found j)
          (ground arith)
