-- ===== src/Session/Rooms.antt =====
-- The loop of `Open` in internal/session/session.go over the caller and the callee, and the invariant.
use dc_streaming_p2p.Base.{
  ℕ, ◌<◌, ◌≡◌, refl, Bool, true, false, none, List, [], ◌∷◌, Text, arith, length, is_some,
  Option-cases, inl, inr, ltb, leb, Bool-cases, holds, if◌then◌else◌,
}
use dc_streaming_p2p.Base.Map.{lookup, keys, lookup-delete, delete-Distinct, Distinct}
use dc_streaming_p2p.Base.Map.Count.{count, length-delete}
use dc_streaming_p2p.Session.Store.{Store}
use dc_streaming_p2p.Session.Steps.{row, untrack, settle_id, settle_ids, settle_peer}
use dc_streaming_p2p.Session.Ops.{make_room}
use dc_streaming_p2p.Session.Rows.{row-untrack}
use dc_streaming_p2p.Session.Invariant.{Inv, Valid, live_with, found_self}
use dc_streaming_p2p.Session.Shrinking.{
  Shrinks, Shrinks-refl, Narrows, Narrows-refl, Narrows-trans, settle-Narrows, one-Shrinks,
}

-- An identifier of no session stands in no row, so taking it off a row changes no answer.
module _ (peer id : Text) (s : Store) (v : Inv s) (e : lookup id s.sessions ≡ none) where
  stray-rows :
      (q j : Text)
      → is_some (lookup j (row q (untrack peer id s).per_peer))
        ≡ holds (live_with q) (lookup j s.sessions)
  stray-rows q j =
      rw (row-untrack peer q id s)
        (ground (arith, v.rows q j, lookup-delete id j (row q s.per_peer)))

  stray-row_count :
      (q : Text) → length (row q (untrack peer id s).per_peer) ≡ count (live_with q) s.sessions
  stray-row_count q = rw (row-untrack peer q id s) (
      ground
        (arith, v.rows q id, v.row_count q, length-delete id (row q s.per_peer) (v.row_distinct q)))

  stray-row-Distinct : (q : Text) → Distinct (row q (untrack peer id s).per_peer)
  stray-row-Distinct q =
      rw (row-untrack peer q id s)
        (ground (arith, v.row_distinct q, delete-Distinct id (row q s.per_peer)))

  stray-Inv : Inv (untrack peer id s)
  unfolding untrack
  stray-Inv = record {
    ids = v.ids;
    apart = v.apart;
    distinct = v.distinct;
    counted = v.counted;
    paired = v.paired;
    pair_found = v.pair_found;
    rows = stray-rows;
    row_count = stray-row_count;
    row_distinct = stray-row-Distinct;
    filed = v.filed;
    once = v.once;
    live_bound = v.live_bound;
    row_bound = λ q. omega (arith, v.row_bound q, stray-row_count q, v.row_count q);
  }

  stray-Shrinks : Shrinks s (untrack peer id s)
  unfolding untrack
  stray-Shrinks = record {
    same_settings = refl;
    no_pair = λ key n. n;
    no_session = λ j n. n;
    fewer = omega arith;
    shorter = λ q. omega (arith, stray-row_count q, v.row_count q);
    no_more = omega arith;
    final = λ j h found over. inl found;
  }

untrack_stray-Narrows :
    (peer id : Text) (s : Store)
    → Valid s
    → lookup id s.sessions ≡ none
    → Narrows s (untrack peer id s)
unfolding untrack
untrack_stray-Narrows peer id s v e = record {
  valid = record { inv = stray-Inv peer id s v.inv e; compact = v.compact };
  shrinks = stray-Shrinks peer id s v.inv e;
}

settle_id-Narrows :
    (peer id : Text) (now : ℕ) (s : Store)
    → Valid s
    → Narrows s (settle_id peer id now (lookup id s.sessions) s)
settle_id-Narrows peer id now s v = elim (Option-cases (lookup id s.sessions)) [
  | inl e ↦ rw e (untrack_stray-Narrows peer id s v e)
  | inr (h, e) ↦ rw e (settle-Narrows h now s v (found_self s id h v.inv e))
]

settle_ids-Narrows :
    (peer : Text) (ids : List Text) (now : ℕ) (s : Store)
    → Valid s
    → Narrows s (settle_ids peer ids now s)
unfolding settle_ids
settle_ids-Narrows peer [] now s v = record { valid = v; shrinks = Shrinks-refl s }
settle_ids-Narrows peer (id ∷ ids) now s v =
    let one = settle_id-Narrows peer id now s v in
    Narrows-trans one (settle_ids-Narrows peer ids now _ one.valid)

settle_peer-Narrows :
    (peer : Text) (now : ℕ) (s : Store) → Valid s → Narrows s (settle_peer peer now s)
unfolding settle_peer
settle_peer-Narrows peer now s v = settle_ids-Narrows peer (keys (row peer s.per_peer)) now s v

-- Each of some peers has room for one more live session.
abbrev pub HaveRoom : List Text → Store → Type 0
HaveRoom [] s = Unit
HaveRoom (peer ∷ peers) s = (length (row peer s.per_peer) < s.per_peer_cap) × HaveRoom peers s

pub HaveRoom-Shrinks :
    (peers : List Text) {s t : Store} → Shrinks s t → HaveRoom peers s → HaveRoom peers t
HaveRoom-Shrinks [] k r = tt
HaveRoom-Shrinks (peer ∷ peers) k r = (one-Shrinks peer k r.0, HaveRoom-Shrinks peers k r.1)

abbrev Makes : List Text → Store → Store × Bool → Type 0
Makes peers s r = Narrows s r.0 × (r.1 ≡ true → HaveRoom peers r.0)

Makes-cons :
    (peer : Text) (peers : List Text) (s t : Store) (r : Store × Bool)
    → Narrows s t
    → length (row peer t.per_peer) < t.per_peer_cap
    → Makes peers t r
    → Makes (peer ∷ peers) s r
Makes-cons peer peers s t r n room m =
    (Narrows-trans n m.0, λ e. (one-Shrinks peer m.0.shrinks room, m.1 e))

Makes-settled :
    (peer : Text) (peers : List Text) (now : ℕ) (s t : Store)
    → Narrows s t
    → Makes peers t (make_room peers now t)
    → Makes (peer ∷ peers) s (
        if leb t.per_peer_cap (length (row peer t.per_peer))
        then (t, false)
        else make_room peers now t)
Makes-settled peer peers now s t n m =
    elim (Bool-cases (leb t.per_peer_cap (length (row peer t.per_peer)))) [
      | inl full ↦ rw full (n, λ e. cc)
      | inr room ↦ rw room (Makes-cons peer peers s t (make_room peers now t) n (ground arith) m)
    ]

-- The loop keeps the store valid and only makes room; if it says so, each peer has room.
pub make_room-Makes :
    (peers : List Text) (now : ℕ) (s : Store) → Valid s → Makes peers s (make_room peers now s)
unfolding make_room
make_room-Makes [] now s v = (Narrows-refl s v, λ _. tt)
make_room-Makes (peer ∷ peers) now s v =
    let n = settle_peer-Narrows peer now s v in
    let t = settle_peer peer now s in
    elim (Bool-cases (ltb (length (row peer s.per_peer)) s.per_peer_cap)) [
      | inl below ↦ rw below (
          Makes-cons peer peers s s (make_room peers now s) (Narrows-refl s v) (ground arith)
            (make_room-Makes peers now s v))
      | inr above ↦
          rw above (Makes-settled peer peers now s t n (make_room-Makes peers now t n.valid))
    ]
