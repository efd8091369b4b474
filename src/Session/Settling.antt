-- ===== src/Session/Settling.antt =====
-- `settleLocked` of internal/session/session.go, and the abstract view of the store: what its sessions
-- read as at a time.
use dc_streaming_p2p.Base.{
  ℕ, ◌+◌, ◌≤◌, ◌≡◌, refl, true, false, none, some, Text, text_dec, ite, arith, Option, inl, inr,
  Bool-cases, if◌then◌else◌, ap,
}
use dc_streaming_p2p.Base.Map.{lookup, lookup-insert}
use dc_streaming_p2p.Session.Record.{failed, Session, live}
use dc_streaming_p2p.Session.Store.{Store, Settings}
use dc_streaming_p2p.Session.Steps.{end_session, timed_out, as_failed, settle}
use dc_streaming_p2p.Session.Invariant.{Inv, Compact}
use dc_streaming_p2p.Session.Finish.{finish, finish-Inv, finish-Compact}

-- What a session reads as at a time, by the timeout alone.
abbrev pub settled : ℕ → ℕ → Session → Session
settled timeout now h = if timed_out timeout now h then as_failed timeout h else h

abbrev pub settled_opt : ℕ → ℕ → Option Session → Option Session
settled_opt timeout now none = none
settled_opt timeout now (some h) = some (settled timeout now h)

-- What a store says of an identifier at a time.
unfoldable pub view : ℕ → Store → Text → Option Session
view now s id = settled_opt s.timeout now (lookup id s.sessions)

pub settled-settled :
    (timeout now later : ℕ) (h : Session)
    → now ≤ later
    → settled timeout later (settled timeout now h) ≡ settled timeout later h
settled-settled timeout now later h le = ground arith

module _ (h : Session) (now : ℕ) (s : Store) where
  pub settle-settled : (settle h now s).1 ≡ settled s.timeout now h
  unfolding settle
  settle-settled = ground arith

  pub settle-settings : (settle h now s).0.settings ≡ s.settings
  unfolding settle
  settle-settings = ground arith

  -- The store after settling, as one of two.
  pub settle_cases {ℓ} :
      (P : Store × Session → Type ℓ)
      → (timed_out s.timeout now h ≡ false → P (s, h))
      → (timed_out s.timeout now h ≡ true
          → P (finish failed h.path (h.opened_at + s.timeout) h s, as_failed s.timeout h))
      → P (settle h now s)
  unfolding settle
  settle_cases P kept ended = elim (Bool-cases (timed_out s.timeout now h)) [
    | inl e ↦ rw e (ended e)
    | inr e ↦ rw e (kept e)
  ]

  module _ (found : lookup h.id s.sessions ≡ some h) where
    pub lookup-settle :
        (id : Text)
        → lookup id (settle h now s).0.sessions
          ≡ ite (text_dec h.id id) (some (settled s.timeout now h)) (lookup id s.sessions)
    unfolding settle end_session
    lookup-settle id = ground (arith, lookup-insert h.id id (as_failed s.timeout h) s.sessions)

    -- The settled session is the one that is stored.
    pub settle-found :
        lookup (settle h now s).1.id (settle h now s).0.sessions ≡ some (settle h now s).1
    settle-found = rw (settle-settled, lookup-settle (settled s.timeout now h).id) (ground arith)

    pub settled-id : (settle h now s).1.id ≡ h.id
    settled-id = rw settle-settled (ground arith)

    pub timed_out-live : timed_out s.timeout now h ≡ true → live h ≡ true
    timed_out-live e = ground arith

    pub settle-Inv : Inv s → Inv (settle h now s).0
    settle-Inv v =
        settle_cases (λ r. Inv r.0) (λ _. v)
          λ e.
            finish-Inv failed h.path (h.opened_at + s.timeout) h s v found (timed_out-live e) refl

    pub settle-Compact : Inv s → Compact s → Compact (settle h now s).0
    settle-Compact v c =
        settle_cases (λ r. Compact r.0) (λ _. c)
          λ e.
            finish-Compact failed h.path (h.opened_at + s.timeout) h s v found (timed_out-live e)
              refl c

    -- Settling writes, and changes nothing that can be read at that time or later.
    pub view-settle :
        (later : ℕ) (id : Text) → now ≤ later → view later (settle h now s).0 id ≡ view later s id
    unfolding view
    view-settle later id le = rw (lookup-settle id) (
        ground (
          arith,
          settled-settled s.timeout now later h le,
          ap (λ (t : Settings). t.timeout) settle-settings,
        ))
