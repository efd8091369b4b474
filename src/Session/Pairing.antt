-- ===== src/Session/Pairing.antt =====
-- `Open` of internal/session/session.go and the live session of a pair of peers.
use dc_streaming_p2p.Base.{
  ℕ, Option-cases, false, ◌<◌, length, subst, ◌≡◌, true, some, none, Text, Option, arith, ◌⊎◌, inl,
  inr, ◌≢◌,
}
use dc_streaming_p2p.Base.Map.{lookup, lookup-insert}
use dc_streaming_p2p.Base.Strings.{trim_space, is_empty}
use dc_streaming_p2p.Session.Record.{Session, live, pair_key, ok}
use dc_streaming_p2p.Session.Store.{Store, Options, new, created}
use dc_streaming_p2p.Base.Map.Count.{count}
use dc_streaming_p2p.Session.Invariant.{Inv, live_with}
use dc_streaming_p2p.Session.Ops.{
  open_session, open_trimmed, open_locked, make_room, create, new_session,
}
use dc_streaming_p2p.Session.Steps.{row, find_pair, trim}
use dc_streaming_p2p.Session.Keys.{NoNul, pair_key_comm, pair_key-injective}
use dc_streaming_p2p.Session.Opening.{Fresh, open_session-Opens, Answers}
use dc_streaming_p2p.Session.History.{Reach, Reach-Sound}

-- In every history of a store, two live sessions of the same two peers are one session, whichever
-- of the two peers called.
pub one_live_session :
    (opts : Options) {s t : Store} (id jd : Text) (h g : Session)
    → new opts ≡ created s
    → Reach s t
    → lookup id t.sessions ≡ some h
    → lookup jd t.sessions ≡ some g
    → live h ≡ true
    → live g ≡ true
    → ((h.caller ≡ g.caller) × (h.callee ≡ g.callee))
      ⊎ ((h.caller ≡ g.callee) × (h.callee ≡ g.caller))
    → id ≡ jd
one_live_session opts {s} {t} id jd h g n r found found' alive alive' same_pair =
    let v = (Reach-Sound opts n r).valid.inv in
    ground (
      arith,
      v.paired id h found alive,
      v.paired jd g found' alive',
      pair_key_comm g.caller g.callee,
    )

-- In every history, a session that `Open` answers with, for an identifier that is not in use, stands in the store, is live, and is one of
-- the two trimmed peers, in one order or the other, as long as none of the four texts has a NUL.
pub open_answers :
    (opts : Options) {s t : Store} (fresh : Option Text) (caller callee : Text) (now : ℕ)
    (h : Session)
    → new opts ≡ created s
    → Reach s t
    → Fresh fresh t
    → (open_session fresh caller callee now t).1 ≡ ok h
    → NoNul (trim_space caller)
    → NoNul (trim_space callee)
    → NoNul h.caller
    → NoNul h.callee
    → (lookup h.id (open_session fresh caller callee now t).0.sessions ≡ some h)
      × (live h ≡ true)
      × (((h.caller ≡ trim_space caller) × (h.callee ≡ trim_space callee))
          ⊎ ((h.caller ≡ trim_space callee) × (h.callee ≡ trim_space caller)))
open_answers opts {s} {t} fresh caller callee now h n r f e a b c d =
    let o = open_session-Opens s.settings fresh caller callee now t (Reach-Sound opts n r) f in
    let (found, alive, key) =
      subst
        (Answers (pair_key (trim_space caller) (trim_space callee))
          (open_session fresh caller callee now t).0)
        e o.1 in
    (
      found,
      alive,
      pair_key-injective h.caller h.callee (trim_space caller) (trim_space callee) c d a b key,
    )

open_creates :
    (id caller callee : Text) (now : ℕ) (t : Store)
    → is_empty (trim_space caller) ≡ false
    → is_empty (trim_space callee) ≡ false
    → trim_space caller ≢ trim_space callee
    → t.allows (trim_space caller) (trim_space callee) ≡ true
    → lookup (pair_key (trim_space caller) (trim_space callee)) t.pairs ≡ none
    → t.live_count < t.ceiling
    → length (row (trim_space caller) t.per_peer) < t.per_peer_cap
    → length (row (trim_space callee) t.per_peer) < t.per_peer_cap
    → ((open_session (some id) caller callee now t).1
        ≡ ok (new_session id (trim_space caller) (trim_space callee) now))
      × (lookup id (open_session (some id) caller callee now t).0.sessions
          ≡ some (new_session id (trim_space caller) (trim_space callee) now))
unfolding open_session open_trimmed open_locked find_pair make_room create
open_creates id caller callee now t ne ne' apart allowed unpaired room a b = ground (
  arith,
  lookup-insert id id (new_session id (trim_space caller) (trim_space callee) now)
      (trim t).sessions,
)

-- No live session of the store has this key.
abbrev pub NoLive : Text → Store → Type 0
NoLive key t =
    (id : Text) (h : Session)
    → lookup id t.sessions ≡ some h
    → live h ≡ true
    → pair_key h.caller h.callee ≢ key

no_pair-NoLive : (key : Text) (t : Store) → Inv t → NoLive key t → lookup key t.pairs ≡ none
no_pair-NoLive key t v free = elim (Option-cases (lookup key t.pairs)) [
  | inl e ↦ e
  | inr (id, e) ↦
      let (h, found, alive, named) = v.pair_found key id e in absurd (free id h found alive named)
]

-- In every history, if neither trimmed peer is blank, the caller is another than the callee and allowed to reach it, the two have
-- no live session, and the ceiling leaves room for one more session and the cap for one more of
-- each of the two, then `Open` answers with a new negotiating session, and writes it.
pub open_makes_new :
    (opts : Options) {s t : Store} (id caller callee : Text) (now : ℕ)
    → new opts ≡ created s
    → Reach s t
    → is_empty (trim_space caller) ≡ false
    → is_empty (trim_space callee) ≡ false
    → trim_space caller ≢ trim_space callee
    → t.allows (trim_space caller) (trim_space callee) ≡ true
    → NoLive (pair_key (trim_space caller) (trim_space callee)) t
    → count live t.sessions < t.ceiling
    → count (live_with (trim_space caller)) t.sessions < t.per_peer_cap
    → count (live_with (trim_space callee)) t.sessions < t.per_peer_cap
    → ((open_session (some id) caller callee now t).1
        ≡ ok (new_session id (trim_space caller) (trim_space callee) now))
      × (lookup id (open_session (some id) caller callee now t).0.sessions
          ≡ some (new_session id (trim_space caller) (trim_space callee) now))
open_makes_new opts {s} {t} id caller callee now n r ne ne' apart allowed free room a b =
    let v = (Reach-Sound opts n r).valid.inv in
    open_creates id caller callee now t ne ne' apart allowed
      (no_pair-NoLive (pair_key (trim_space caller) (trim_space callee)) t v free)
      (omega (arith, v.counted)) (omega (arith, v.row_count (trim_space caller)))
      (omega (arith, v.row_count (trim_space callee)))
