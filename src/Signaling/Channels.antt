-- ===== src/Signaling/Channels.antt =====
-- `Register` and `Deregister` of internal/signaling/hub.go in sequence.
use dc_streaming_p2p.Base.{
  ℕ, ◌≡◌, ◌≢◌, refl, Option-cases, none, some, [], ◌∷◌, Text, text_dec, ite, arith, inl, inr,
}
use dc_streaming_p2p.Base.Map.{lookup, lookup-insert, lookup-delete}
use dc_streaming_p2p.Signaling.Hub.{
  Hub, Holder, closes, connected, replaced, tell_presence, register, deregister,
}
use dc_streaming_p2p.Signaling.Routing.{conn_of}

conn_of-register :
    (peer j : Text) (conn now : ℕ) (h : Hub)
    → conn_of j (register peer conn now h).0 ≡ ite (text_dec peer j) (some conn) (conn_of j h)
unfolding register
conn_of-register peer j conn now h =
    let held : Holder = record { conn = conn; sent = 0; window_from = now } in
    ground (arith, lookup-insert peer j held h.conns)

conn_of-deregister :
    (peer j : Text) (conn : ℕ) (h : Hub)
    → conn_of peer h ≡ some conn
    → conn_of j (deregister peer conn h).0 ≡ ite (text_dec peer j) none (conn_of j h)
unfolding deregister
conn_of-deregister peer j conn h e = elim (Option-cases (lookup peer h.conns)) [
  | inl f ↦ absurd (ground arith)
  | inr (held, f) ↦ rw f (ground (arith, lookup-delete peer j h.conns))
]

deregister_other :
    (peer : Text) (conn : ℕ) (h : Hub)
    → conn_of peer h ≢ some conn
    → deregister peer conn h ≡ (h, [])
unfolding deregister
deregister_other peer conn h ne = elim (Option-cases (lookup peer h.conns)) [
  | inl f ↦ rw f refl
  | inr (held, f) ↦ rw f (ground arith)
]

-- A reconnecting peer: after another connection of it is taken, the peer is on that one, the old one
-- is closed as replaced, and the old one's own leaving, when it comes, changes nothing at all.
pub register_replaces :
    (peer : Text) (old conn now : ℕ) (h : Hub)
    → conn_of peer h ≡ some old
    → old ≢ conn
    → (conn_of peer (register peer conn now h).0 ≡ some conn)
      × ((register peer conn now h).1
          ≡ closes old replaced ∷ tell_presence h.has_presence (connected peer))
      × (deregister peer old (register peer conn now h).0 ≡ ((register peer conn now h).0, []))
unfolding register
register_replaces peer old conn now h e ne =
    let taken = conn_of-register peer peer conn now h in
    (
      ground (arith, taken),
      elim (Option-cases (lookup peer h.conns)) [
        | inl f ↦ absurd (ground arith)
        | inr (held, f) ↦ let same : held.conn ≡ old = ground arith in rw (f, same) refl
      ],
      deregister_other peer old (register peer conn now h).0 (ground (arith, taken)),
    )
