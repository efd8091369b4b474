-- ===== src/Session/Reports.antt =====
-- `Report` of internal/session/session.go against a description of its own: the table of the moves, who
-- is in a session, and the record that a move writes.
use dc_streaming_p2p.Base.{
  ℕ, ◌≡◌, ◌≢◌, ◌⊎◌, refl, true, none, some, Text, text_dec, ite, arith, inl, inr, Bool-cases,
  Option-cases,
}
use dc_streaming_p2p.Base.Map.{lookup}
use dc_streaming_p2p.Session.Record.{
  State, negotiating, connected, failed, closed, MediaPath, Session, has, can_move, Result, ok, err,
  not_found, bad_transition,
}
use dc_streaming_p2p.Session.Store.{Store}
use dc_streaming_p2p.Session.Ops.{member, report, path_for}
use dc_streaming_p2p.Session.Invariant.{Inv}
use dc_streaming_p2p.Session.Outcomes.{report_lem}
use dc_streaming_p2p.Session.Settling.{settled}

-- The moves of a session that a peer can report.
pub data Moves : State → State → Type 0 where
  connects : Moves negotiating connected
  fails : Moves negotiating failed
  gives_up : Moves negotiating closed
  hangs_up : Moves connected closed
  breaks : Moves connected failed

Moves-can_move : {a b : State} → Moves a b → can_move a b ≡ true
unfolding can_move
Moves-can_move connects = refl
Moves-can_move fails = refl
Moves-can_move gives_up = refl
Moves-can_move hangs_up = refl
Moves-can_move breaks = refl

can_move-Moves : (a b : State) → can_move a b ≡ true → Moves a b
unfolding can_move
can_move-Moves negotiating negotiating e = absurd (ground arith)
can_move-Moves negotiating connected e = connects
can_move-Moves negotiating failed e = fails
can_move-Moves negotiating closed e = gives_up
can_move-Moves connected negotiating e = absurd (ground arith)
can_move-Moves connected connected e = absurd (ground arith)
can_move-Moves connected failed e = breaks
can_move-Moves connected closed e = hangs_up
can_move-Moves failed b e = absurd (ground arith)
can_move-Moves closed b e = absurd (ground arith)

-- A peer is one of the two of a session, and is outside of whatever is stored under an identifier.
abbrev pub Inside : Text → Session → Type 0
Inside peer h = (peer ≡ h.caller) ⊎ (peer ≡ h.callee)

abbrev pub Outside : Text → Text → Store → Type 0
Outside id peer s = (h : Session) → lookup id s.sessions ≡ some h → ¬ Inside peer h

pub has-Inside : (peer : Text) (h : Session) → has peer h ≡ true → Inside peer h
unfolding has
has-Inside peer h e = elim (text_dec peer h.caller) [
  | yes q ↦ inl q
  | no q ↦ elim (text_dec peer h.callee) [ yes r ↦ inr r | no r ↦ absurd (ground arith) ]
]

pub Inside-has : (peer : Text) (h : Session) → Inside peer h → has peer h ≡ true
unfolding has
Inside-has peer h (inl e) = ground arith
Inside-has peer h (inr e) = ground arith

pub Outside-member :
    (id peer : Text) (s : Store) → Outside id peer s → member peer (lookup id s.sessions) ≡ none
Outside-member id peer s out = elim (Option-cases (lookup id s.sessions)) [
  | inl e ↦ rw e refl
  | inr (h, e) ↦ elim (Bool-cases (has peer h)) [
    | inl inside ↦ absurd (out h e (has-Inside peer h inside))
    | inr outside ↦ rw (e, outside) refl
  ]
]

-- The path after a move: the reported one if the move is to `connected`, and else the one before.
abbrev pub PathAfter : State → MediaPath → MediaPath → MediaPath → Type 0
PathAfter to reported before p =
    ((to ≡ connected) × (p ≡ reported)) ⊎ ((to ≢ connected) × (p ≡ before))

path_for-PathAfter :
    (to : State) (reported before : MediaPath)
    → PathAfter to reported before (path_for to reported before)
path_for-PathAfter negotiating reported before = inr (λ e. absurd (ground arith), refl)
path_for-PathAfter connected reported before = inl (refl, refl)
path_for-PathAfter failed reported before = inr (λ e. absurd (ground arith), refl)
path_for-PathAfter closed reported before = inr (λ e. absurd (ground arith), refl)

-- A store holds a session under an identifier, and is otherwise as another one.
abbrev pub Holds : Text → Session → Store → Store → Type 0
Holds id h s t =
    (j : Text) → lookup j t.sessions ≡ ite (text_dec id j) (some h) (lookup j s.sessions)

-- What a report may come to for a peer that is in a session, as the session stands at that time.
abbrev pub Settles :
    Text → State → MediaPath → ℕ → Session → Store → Store × Result Session → Type 0
Settles id to path now g s r =
    ((¬ Moves g.state to) × (r.1 ≡ err bad_transition) × Holds id g s r.0)
    ⊎ (Moves g.state to
        × ((p : MediaPath) × PathAfter to path g.path p
            × (r.1 ≡ ok (record g { state = to; changed_at = now; path = p }))
            × Holds id (record g { state = to; changed_at = now; path = p }) s r.0))

-- What a report may come to.
abbrev pub Reported : Text → Text → State → MediaPath → ℕ → Store → Store × Result Session → Type 0
Reported id peer to path now s r =
    (Outside id peer s × (r ≡ (s, err not_found)))
    ⊎ ((h : Session) × (lookup id s.sessions ≡ some h)
        × Inside peer h
        × Settles id to path now (settled s.timeout now h) s r)

module _ (id peer : Text) (to : State) (path : MediaPath) (now : ℕ) (s : Store) (v : Inv s) where
  report-not_found :
      member peer (lookup id s.sessions) ≡ none → report id peer to path now s ≡ (s, err not_found)
  unfolding report
  report-not_found e = rw e refl

  report-Settles :
      (h : Session)
      → member peer (lookup id s.sessions) ≡ some h
      → Settles id to path now (settled s.timeout now h) s (report id peer to path now s)
  report-Settles h e =
      let (answer, writes) = report_lem id peer to path now s v in
      let g = settled s.timeout now h in
      elim (Bool-cases (can_move g.state to)) [
        | inl moves ↦ inr (
          can_move-Moves g.state to moves,
          (
            path_for to path g.path,
            path_for-PathAfter to path g.path,
            ground arith,
            λ j. ground (arith, writes j),
          ),
        )
        | inr stays ↦ inl (
          λ m. absurd (ground (arith, Moves-can_move m)),
          ground arith,
          λ j. ground (arith, writes j),
        )
      ]

-- In a store whose invariant holds, a report comes to one of three things. If the peer is neither the
-- caller nor the callee of a session stored under the identifier, the answer is `ErrNotFound` and the
-- store is as it was. If the session, as it stands at that time, has no move to the reported state in
-- the table, the answer is `ErrBadTransition`. And if it has, the answer is the session with the new
-- state, this time as that of its change and, only where the move is to `connected`, the reported path;
-- that is then stored. In the last two no other identifier's session changes.
pub report-Reported :
    (id peer : Text) (to : State) (path : MediaPath) (now : ℕ) (s : Store)
    → Inv s
    → Reported id peer to path now s (report id peer to path now s)
report-Reported id peer to path now s v = elim (Option-cases (lookup id s.sessions)) [
  | inl absent ↦
      inl (λ h e. absurd (ground arith), report-not_found id peer to path now s v (ground arith))
  | inr (h, e) ↦ elim (Bool-cases (has peer h)) [
    | inl inside ↦
        inr
          (h, e, has-Inside peer h inside, report-Settles id peer to path now s v h (ground arith))
    | inr outside ↦ inl (
      λ g f i. absurd (ground (arith, Inside-has peer g i)),
      report-not_found id peer to path now s v (ground arith),
    )
  ]
]
