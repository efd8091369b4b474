-- ===== src/Transport/Afterwards.antt =====
-- `notifyEnded` of internal/transport/sessions.go and the expiry of peers in cmd/central/main.go, over
-- requests in sequence.
use dc_streaming_p2p.Base.{
  ℕ, ◌≡◌, refl, sym, ap, ◌∙◌, Bool, false, Option, none, some, Text, arith, inl, inr, Option-cases,
  is_some, true,
}
use dc_streaming_p2p.Base.Map.{lookup}
use dc_streaming_p2p.Session.Record.{Session, live}
use dc_streaming_p2p.Session.Store.{Store, Settings}
use dc_streaming_p2p.Session.Ops.{close_peer}
use dc_streaming_p2p.Session.Opening.{Sound}
use dc_streaming_p2p.Session.Final.{Step-Final}
use dc_streaming_p2p.Session.History.{Step, Step-Sound}
use dc_streaming_p2p.Session.Loops.{
  find_id, newly_closed, closed_opt, close_peer-found, close_peer-lookup,
}
use dc_streaming_p2p.Session.Closing.{close_peer-Sound}
use dc_streaming_p2p.Transport.Http.{Method}
use dc_streaming_p2p.Transport.Sessions.{session_handler, report_handler, Ending}
use dc_streaming_p2p.Transport.Notices.{
  Done, Over-Done, report_handler-Told, session_handler-Told, report_handler_untold,
  session_handler_untold,
}

-- The stores after one, by calls of which none opens a session under an identifier that none has.
pub data Later (id : Text) (s : Store) : Store → Type 0 where
  at_once : Later id s s
  then_called :
      {t u : Store}
      → Later id s t
      → Step t u
      → (lookup id t.sessions ≡ none → lookup id u.sessions ≡ none)
      → Later id s u

Step-Done :
    (settings : Settings) (id : Text) {s t : Store}
    → Sound settings s
    → Step s t
    → (lookup id s.sessions ≡ none → lookup id t.sessions ≡ none)
    → Done id s
    → Done id t
Step-Done settings id {s} {t} o st unused done g e = elim (Option-cases (lookup id s.sessions)) [
  | inl absent ↦ absurd (ground (arith, unused absent))
  | inr (h, found) ↦
      let over = done h found in
      elim (Step-Final settings o st id h found over) [
        | inl kept ↦ let same_session : h ≡ g = ground arith in ap live (sym same_session) ∙ over
        | inr gone ↦ absurd (ground arith)
      ]
]

Later-Done :
    (settings : Settings) (id : Text) {s t : Store}
    → Sound settings s
    → Done id s
    → Later id s t
    → Sound settings t × Done id t
Later-Done settings id o done at_once = (o, done)
Later-Done settings id o done (then_called before st unused) =
    let (o', done') = Later-Done settings id o done before in
    (Step-Sound settings st o', Step-Done settings id o' st unused done')

-- What may tell the peers of a session that it ended: a report of a peer with its body, another method
-- of a peer, or a peer's expiry.
pub data Telling : Type 0 where
  reports : Option (Text × Text) → Text → Telling
  calls : Method → Text → Telling
  expires : Text → Telling

-- The store that it leaves, and whether it tells of a session; of an expiry, whether the session is
-- among those that are handed to the loop over the closed ones.
abbrev of_request : Ending → Store × Bool
of_request (s, answer, n) = (s, is_some n)

abbrev pub tells : Bool → Telling → Text → ℕ → Store → Store × Bool
tells told (reports body peer) id now s = of_request (report_handler told body id peer now s)
tells told (calls method peer) id now s = of_request (session_handler told method id peer now s)
tells told (expires peer) id now s =
    ((close_peer peer now s).0, is_some (find_id id (close_peer peer now s).1))

is_some-none {ℓ} : {A : Type ℓ} (o : Option A) → o ≡ none → is_some o ≡ false
is_some-none o e = ap is_some e

newly_closed-Done :
    (peer : Text) (now timeout : ℕ) (o : Option Session)
    → ((h : Session) → o ≡ some h → live h ≡ false)
    → newly_closed peer now timeout o ≡ none
newly_closed-Done peer now timeout none done = refl
newly_closed-Done peer now timeout (some h) done = ground (arith, done h refl)

closed_opt-Done :
    (peer : Text) (now timeout : ℕ) (o : Option Session)
    → is_some (newly_closed peer now timeout o) ≡ true
    → (g : Session) → closed_opt peer now timeout o ≡ some g
    → live g ≡ false
closed_opt-Done peer now timeout none e g f = absurd (ground arith)
closed_opt-Done peer now timeout (some h) e g f = ground arith

module _ (settings : Settings) (told : Bool) (id : Text) (now : ℕ) (s : Store)
    (o : Sound settings s) where
  -- Who has told of a session leaves it ended.
  tells-Done :
      (a : Telling)
      → (tells told a id now s).1 ≡ true
      → Done id (tells told a id now s).0 × Sound settings (tells told a id now s).0
  tells-Done (reports body peer) e =
      elim (Option-cases ((report_handler told body id peer now s).2)) [
        | inl quiet ↦ absurd (ground arith)
        | inr (n, notice) ↦
            let (over, sound) = report_handler-Told settings told id peer now s n o body notice in
            (Over-Done id (report_handler told body id peer now s).0 over, sound)
      ]
  tells-Done (calls method peer) e =
      elim (Option-cases ((session_handler told method id peer now s).2)) [
        | inl quiet ↦ absurd (ground arith)
        | inr (n, notice) ↦
            let (over, sound) =
              session_handler-Told settings told id peer now s n o method notice in
            (Over-Done id (session_handler told method id peer now s).0 over, sound)
      ]
  tells-Done (expires peer) e = (
    λ g f.
        closed_opt-Done peer now settings.timeout (lookup id s.sessions)
          (sym (ap is_some (close_peer-found settings peer now s id o)) ∙ e) g
          (sym (close_peer-lookup settings peer now s id o) ∙ f),
    close_peer-Sound settings peer now s o,
  )

  Done-untelling : Done id s → (a : Telling) → (tells told a id now s).1 ≡ false
  Done-untelling done (reports body peer) =
      ap is_some (report_handler_untold told id peer now s o.valid.inv done body)
  Done-untelling done (calls method peer) =
      ap is_some (session_handler_untold told id peer now s o.valid.inv done method)
  Done-untelling done (expires peer) = ap is_some (
      close_peer-found settings peer now s id o
      ∙ newly_closed-Done peer now settings.timeout (lookup id s.sessions) done)

-- In a sound store, let a report, a hanging up or a peer's expiry tell of a session that it ended.
-- After that and after any calls of the store, by whichever peers and in any order, of which none
-- opens a session under that identifier anew once the old one is forgotten: no report, no other
-- request and no expiry, of whichever peer and at whichever time, tells of the session again.
pub told_once :
    (settings : Settings) (told again : Bool) (first later : Telling) (id : Text) (now at : ℕ)
    (s : Store) {t : Store}
    → Sound settings s
    → (tells told first id now s).1 ≡ true
    → Later id (tells told first id now s).0 t
    → (tells again later id at t).1 ≡ false
told_once settings told again first later id now at s {t} o e after =
    let (done, sound) = tells-Done settings told id now s o first e in
    let (sound', done') = Later-Done settings id sound done after in
    Done-untelling settings again id at t sound' done' later
