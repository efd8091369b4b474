-- ===== src/Central/Sweep.antt =====
-- What `run` of cmd/central/main.go does when peers expire, and a round of `sweepSessions`. The reading
-- of the clock as a peer's sessions are closed is a function of the peer.
use dc_streaming_p2p.Base.{
  ℕ, true, false, Option, none, some, List, [], ◌∷◌, ◌++◌, Text, text_dec, ◌≡◌, refl, sym, ap, ◌∙◌,
  arith, holds, Option-cases, inl, inr,
}
use dc_streaming_p2p.Base.Map.{lookup, elem}
use dc_streaming_p2p.Session.Record.{Session, live, has}
use dc_streaming_p2p.Session.Store.{Store, Settings}
use dc_streaming_p2p.Session.Ops.{close_peer}
use dc_streaming_p2p.Session.Opening.{Sound}
use dc_streaming_p2p.Session.Closing.{close_peer-Sound}
use dc_streaming_p2p.Session.Loops.{closed_by, closed_opt, close_peer-lookup}
use dc_streaming_p2p.Registry.Defs
use dc_streaming_p2p.Registry.Expiry.{expire_lem, look_up-expire}
use dc_streaming_p2p.Signaling.Hub.{Hub, Event, Delivers, session_ended}
use dc_streaming_p2p.Transport.Sessions.{state_text}

-- The two loops of the callback: the sessions that are closed, and what the hub then does.
unfoldable pub close_each : (Text → ℕ) → List Text → Store → Store × List Session
close_each clock [] s = (s, [])
close_each clock (peer ∷ peers) s =
    let (s', ended) = close_peer peer (clock peer) s in
    let (s'', more) = close_each clock peers s' in (s'', ended ++ more)

unfoldable pub tell_ended : Delivers → List Session → Hub → List Event
tell_ended delivers [] h = []
tell_ended delivers (s ∷ ended) h =
    session_ended delivers s.id (state_text s.state) (s.caller ∷ s.callee ∷ []) h
    ++ tell_ended delivers ended h

-- A round of `Sweep`, with that callback.
abbrev pub sweep_with :
    (Text → ℕ)
    → Delivers
    → Hub
    → Store
    → Defs.Registry × List Text
    → Defs.Registry × Store × List Event
sweep_with clock delivers h s (r, removed) =
    let (s', ended) = close_each clock removed s in (r, s', tell_ended delivers ended h)

unfoldable pub sweep :
    (Text → ℕ) → Delivers → ℕ → Defs.Registry → Store → Hub → Defs.Registry × Store × List Event
sweep clock delivers now r s h = sweep_with clock delivers h s (Defs.expire now r)

-- What is left of a session when peers go, one after the other.
abbrev closed_all : (Text → ℕ) → List Text → ℕ → Session → Session
closed_all clock [] timeout h = h
closed_all clock (peer ∷ peers) timeout h =
    closed_all clock peers timeout (closed_by peer (clock peer) timeout h)

abbrev all_opt : (Text → ℕ) → List Text → ℕ → Option Session → Option Session
all_opt clock peers timeout none = none
all_opt clock peers timeout (some h) = some (closed_all clock peers timeout h)

all_opt-cons :
    (clock : Text → ℕ) (peer : Text) (peers : List Text) (timeout : ℕ) (o : Option Session)
    → all_opt clock peers timeout (closed_opt peer (clock peer) timeout o)
      ≡ all_opt clock (peer ∷ peers) timeout o
all_opt-cons clock peer peers timeout none = refl
all_opt-cons clock peer peers timeout (some h) = refl

close_each-lookup :
    (settings : Settings) (clock : Text → ℕ) (peers : List Text) (s : Store) (id : Text)
    → Sound settings s
    → lookup id (close_each clock peers s).0.sessions
      ≡ all_opt clock peers settings.timeout (lookup id s.sessions)
unfolding close_each
close_each-lookup settings clock [] s id o = elim (Option-cases (lookup id s.sessions)) [
  | inl e ↦ rw e refl
  | inr (h, e) ↦ rw e refl
]
close_each-lookup settings clock (peer ∷ peers) s id o =
    let s' = (close_peer peer (clock peer) s).0 in
    close_each-lookup settings clock peers s' id (close_peer-Sound settings peer (clock peer) s o)
    ∙ ap (all_opt clock peers settings.timeout)
        (close_peer-lookup settings peer (clock peer) s id o)
    ∙ all_opt-cons clock peer peers settings.timeout (lookup id s.sessions)

module _ (timeout : ℕ) where
  closed_by-has :
      (peer p : Text) (now : ℕ) (h : Session) → has p (closed_by peer now timeout h) ≡ has p h
  unfolding has
  closed_by-has peer p now h = ground arith

  closed_by-live :
      (peer : Text) (now : ℕ) (h : Session)
      → live h ≡ false
      → live (closed_by peer now timeout h) ≡ false
  closed_by-live peer now h over = ground arith

  closed_by-over :
      (peer : Text) (now : ℕ) (h : Session)
      → has peer h ≡ true
      → live (closed_by peer now timeout h) ≡ false
  closed_by-over peer now h inside = ground arith

  closed_by-others :
      (peer : Text) (now : ℕ) (h : Session) → has peer h ≡ false → closed_by peer now timeout h ≡ h
  closed_by-others peer now h outside = ground arith

  closed_all-live :
      (clock : Text → ℕ) (peers : List Text) (h : Session)
      → live h ≡ false
      → live (closed_all clock peers timeout h) ≡ false
  closed_all-live clock [] h over = over
  closed_all-live clock (peer ∷ peers) h over =
      closed_all-live clock peers (closed_by peer (clock peer) timeout h)
        (closed_by-live peer (clock peer) h over)

  closed_all-has :
      (clock : Text → ℕ) (peers : List Text) (p : Text) (h : Session)
      → has p (closed_all clock peers timeout h) ≡ has p h
  closed_all-has clock [] p h = refl
  closed_all-has clock (peer ∷ peers) p h =
      closed_all-has clock peers p (closed_by peer (clock peer) timeout h)
      ∙ closed_by-has peer p (clock peer) h

  closed_all-over :
      (clock : Text → ℕ) (peers : List Text) (p : Text) (h : Session)
      → elem p peers ≡ true
      → has p h ≡ true
      → live (closed_all clock peers timeout h) ≡ false
  closed_all-over clock [] p h gone inside = absurd (ground arith)
  closed_all-over clock (peer ∷ peers) p h gone inside = elim (text_dec peer p) [
    | yes e ↦
        closed_all-live clock peers (closed_by peer (clock peer) timeout h)
          (closed_by-over peer (clock peer) h (ap (λ q. has q h) e ∙ inside))
    | no n ↦
        closed_all-over clock peers p (closed_by peer (clock peer) timeout h) (ground arith)
          (closed_by-has peer p (clock peer) h ∙ inside)
  ]

all_opt-over :
    (clock : Text → ℕ) (peers : List Text) (timeout : ℕ) (p : Text) (o : Option Session)
    (g : Session)
    → elem p peers ≡ true
    → all_opt clock peers timeout o ≡ some g
    → has p g ≡ true
    → live g ≡ false
all_opt-over clock peers timeout p none g gone e inside = absurd (ground arith)
all_opt-over clock peers timeout p (some h) g gone e inside =
    let same_session : closed_all clock peers timeout h ≡ g = ground arith in
    let inside_before : has p h ≡ true =
      sym (closed_all-has timeout clock peers p h) ∙ ap (has p) same_session ∙ inside in
    ap live (sym same_session) ∙ closed_all-over timeout clock peers p h gone inside_before

pub sweep-close_each :
    (clock : Text → ℕ) (delivers : Delivers) (now : ℕ) (r : Defs.Registry) (s : Store) (h : Hub)
    → (sweep clock delivers now r s h).1 ≡ (close_each clock (Defs.expire now r).1 s).0
unfolding sweep
sweep-close_each clock delivers now r s h = refl

answer_gone :
    (id : Text) (now : ℕ) (settings : Defs.Settings) (o : Option Defs.Entry)
    → holds (Defs.expired settings now) o ≡ true
    → Defs.answer_for id now settings o ≡ none
answer_gone id now settings none silent = refl
answer_gone id now settings (some held) silent = ground arith

-- After a round of the sweep, a peer that had been silent for longer than the offline window is not
-- found any more, and no session that it is in is live.
pub sweep_lem :
    (settings : Settings) (clock : Text → ℕ) (delivers : Delivers) (now : ℕ) (r : Defs.Registry)
    (s : Store) (h : Hub) (peer id : Text) (g : Session)
    → Sound settings s
    → holds (Defs.expired r.settings now) (lookup peer r.peers) ≡ true
    → lookup id (sweep clock delivers now r s h).1.sessions ≡ some g
    → has peer g ≡ true
    → (Defs.look_up peer now (sweep clock delivers now r s h).0 ≡ none) × (live g ≡ false)
unfolding sweep Defs.look_up
sweep_lem settings clock delivers now r s h peer id g o silent found inside =
    let (dropped, reported) = expire_lem now r peer in
    let closed = close_each-lookup settings clock (Defs.expire now r).1 s id o in
    (
      look_up-expire now r peer ∙ answer_gone peer now r.settings (lookup peer r.peers) silent,
      all_opt-over clock (Defs.expire now r).1 settings.timeout peer (lookup id s.sessions) g
          (reported ∙ silent) (sym closed ∙ found) inside,
    )
