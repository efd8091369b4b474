-- ===== src/Central/Facing.antt =====
-- `sessionsAsPairs.Other` of cmd/central/main.go: who the hub is told is on the other side of a session.
use dc_streaming_p2p.Base.{
  ℕ, true, false, Option, none, some, Text, if◌then◌else◌, is_some, ◌≡◌, refl, ◌∙◌, arith, ◌≤◌,
  Option-cases, inl, inr, ap, ◌⊎◌, Bool-cases, subst, sym, text_dec,
}
use dc_streaming_p2p.Base.Map.{lookup}
use dc_streaming_p2p.Session.Record.{State, Session, Result, ok, err, live, is_live, has, other}
use dc_streaming_p2p.Session.Reports.{Inside, has-Inside, Inside-has, Outside}
use dc_streaming_p2p.Session.Store.{Store}
use dc_streaming_p2p.Session.Ops.{get, member}
use dc_streaming_p2p.Session.Invariant.{Inv}
use dc_streaming_p2p.Session.Outcomes.{get_lem, answer_to}
use dc_streaming_p2p.Session.Settling.{settled, settled_opt, view}
use dc_streaming_p2p.Central.{other_in, other_peer}

-- A peer is in a session stored under an identifier that, as it stands at that time, is still being
-- negotiated or is connected, and the far peer is the other one of its two.
abbrev pub Faces : Text → Text → ℕ → Store → Text → Type 0
Faces id peer now s far =
    (h : Session) × (lookup id s.sessions ≡ some h)
    × (((settled s.timeout now h).state ≡ State.negotiating)
        ⊎ ((settled s.timeout now h).state ≡ State.connected))
    × (((peer ≡ h.caller) × (far ≡ h.callee)) ⊎ ((peer ≡ h.callee) × (far ≡ h.caller)))

-- The hub is told of a far peer that the asking one faces, or of none where it faces nobody.
abbrev pub Far : Text → Text → ℕ → Store → Option Text → Type 0
Far id peer now s o =
    ((q : Text) × (o ≡ some q) × Faces id peer now s q)
    ⊎ ((o ≡ none) × ((q : Text) → ¬ Faces id peer now s q))

live-State :
    (h : Session) → live h ≡ true → (h.state ≡ State.negotiating) ⊎ (h.state ≡ State.connected)
live-State h e =
    elim (h.state) as (λ k. is_live k ≡ true → (k ≡ State.negotiating) ⊎ (k ≡ State.connected)) [
      | State.negotiating ↦ λ f. inl refl
      | State.connected ↦ λ f. inr refl
      | State.failed ↦ λ f. absurd (ground arith)
      | State.closed ↦ λ f. absurd (ground arith)
    ]
      e

not-live-State :
    (timeout now : ℕ) (h k : Session)
    → live (settled timeout now h) ≡ false
    → h ≡ k
    → ((settled timeout now k).state ≡ State.negotiating)
      ⊎ ((settled timeout now k).state ≡ State.connected)
    → ⊥
not-live-State timeout now h k over same_session standing =
    let over' : live (settled timeout now k) ≡ false =
      ap (λ g. live (settled timeout now g)) (sym same_session) ∙ over in
    elim standing [ inl e ↦ absurd (ground arith) | inr e ↦ absurd (ground arith) ]

other-facing :
    (h : Session) (peer : Text)
    → Inside peer h
    → ((peer ≡ h.caller) × (other h peer ≡ h.callee))
      ⊎ ((peer ≡ h.callee) × (other h peer ≡ h.caller))
unfolding other
other-facing h peer i = elim (text_dec peer h.caller) [
  | yes q ↦ inl (q, ground arith)
  | no q ↦ elim i [ inl r ↦ absurd (q r) | inr r ↦ inr (r, ground arith) ]
]

other_in-store : (peer : Text) (r : Store × Result Session) → (other_in peer r).0 ≡ r.0
other_in-store peer (s, ok h) = refl
other_in-store peer (s, err e) = refl

-- What the adapter makes of an answer of `Get`.
abbrev far_side : Text → Option Session → Option Text
far_side peer none = none
far_side peer (some h) = if live h then some (other h peer) else none

other_in-answer :
    (peer : Text) (r : Store × Result Session) (o : Option Session)
    → r.1 ≡ answer_to o
    → (other_in peer r).1 ≡ far_side peer o
other_in-answer peer (s, ok h) none e = absurd (ground arith)
other_in-answer peer (s, ok h) (some g) e =
    let same_session : h ≡ g = ground arith in ap (λ k. far_side peer (some k)) same_session
other_in-answer peer (s, err e) none f = refl
other_in-answer peer (s, err e) (some g) f = absurd (ground arith)

Far-Outside : (id peer : Text) (now : ℕ) (s : Store) → Outside id peer s → Far id peer now s none
Far-Outside id peer now s out = inr (
  refl,
  λ q (h, found, standing, sides).
      out h found (elim sides [ inl (a, b) ↦ inl a | inr (a, b) ↦ inr a ]),
)

other-settled :
    (timeout now : ℕ) (h : Session) (peer : Text)
    → other (settled timeout now h) peer ≡ other h peer
unfolding other
other-settled timeout now h peer = ground arith

Far-Inside :
    (id peer : Text) (now : ℕ) (s : Store) (h : Session)
    → lookup id s.sessions ≡ some h
    → Inside peer h
    → Far id peer now s (far_side peer (some (settled s.timeout now h)))
Far-Inside id peer now s h found inside =
    let g = settled s.timeout now h in
    elim (Bool-cases (live g)) [
      | inl alive ↦ rw alive (
          inl (
            other g peer,
            refl,
            (
              h,
              found,
              live-State g alive,
              rw (other-settled s.timeout now h peer) (other-facing h peer inside),
            ),
          ))
      | inr over ↦ rw over (
          inr (
            refl,
            λ q (k, held, standing, sides).
                not-live-State s.timeout now h k over (ground (arith, found, held)) standing,
          ))
    ]

Far-member :
    (id peer : Text) (now : ℕ) (s : Store)
    → Far id peer now s
        (far_side peer (settled_opt s.timeout now (member peer (lookup id s.sessions))))
Far-member id peer now s =
    let told = λ (o : Option Session). far_side peer (settled_opt s.timeout now o) in
    elim (Bool-cases (is_some (member peer (lookup id s.sessions)))) [
      | inl there ↦ elim (Option-cases (lookup id s.sessions)) [
        | inl e ↦ absurd (ground arith)
        | inr (h, e) ↦
            let inside : has peer h ≡ true = ground arith in
            let held : member peer (lookup id s.sessions) ≡ some h = ground arith in
            subst (Far id peer now s) (sym (ap told held))
              (Far-Inside id peer now s h e (has-Inside peer h inside))
      ]
      | inr gone ↦
          let absent : member peer (lookup id s.sessions) ≡ none = ground arith in
          subst (Far id peer now s) (sym (ap told absent))
            (Far-Outside id peer now s (λ g f i. absurd (ground (arith, Inside-has peer g i))))
    ]

-- In a store whose invariant holds, the hub is told of a peer exactly if the asking one is in a session stored under the identifier that
-- at that time is still being negotiated, its timeout not having passed, or is connected; and then of
-- the other peer of that session. Asking changes nothing that a read of any session at that time or
-- later answers.
pub other_peer_lem :
    (session_id peer j : Text) (now later : ℕ) (s : Store)
    → Inv s
    → now ≤ later
    → Far session_id peer now s (other_peer now session_id peer s).1
      × (view later (other_peer now session_id peer s).0 j ≡ view later s j)
unfolding other_peer
other_peer_lem session_id peer j now later s v le =
    let (answer, reads) = get_lem session_id peer j now later s v le in
    let answered =
      other_in-answer peer (get session_id peer now s)
        (settled_opt s.timeout now (member peer (lookup session_id s.sessions))) answer in
    (
      subst (Far session_id peer now s) (sym answered) (Far-member session_id peer now s),
      ap (λ t. view later t j) (other_in-store peer (get session_id peer now s)) ∙ reads,
    )

-- A peer of a session faces one peer in it, since the two of a session are not the same.
pub Faces-unique :
    (id peer p q : Text) (now : ℕ) (s : Store)
    → Inv s
    → Faces id peer now s p
    → Faces id peer now s q
    → p ≡ q
Faces-unique id peer p q now s v (h, found, standing, sides) (k, held, standing', sides') =
    let same_session : h ≡ k = ground (arith, found, held) in
    let same_caller : h.caller ≡ k.caller = ap (λ g. g.caller) same_session in
    let same_callee : h.callee ≡ k.callee = ap (λ g. g.callee) same_session in
    let two = v.apart id h found in
    elim sides [
      | inl (a, b) ↦ elim sides' [ inl (c, d) ↦ cc | inr (c, d) ↦ absurd (two (cc)) ]
      | inr (a, b) ↦ elim sides' [ inl (c, d) ↦ absurd (two (cc)) | inr (c, d) ↦ cc ]
    ]

pub Faces-other_peer :
    (id peer far : Text) (now : ℕ) (s : Store)
    → Inv s
    → Faces id peer now s far
    → (other_peer now id peer s).1 ≡ some far
Faces-other_peer id peer far now s v f =
    elim ((other_peer_lem id peer id now now s v (omega arith)).0) [
      | inl (q, answer, g) ↦ answer ∙ ap some (Faces-unique id peer q far now s v g f)
      | inr (answer, nobody) ↦ absurd (nobody far f)
    ]
