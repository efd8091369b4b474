-- ===== src/Session/Changes.antt =====
-- The invariant of internal/session/session.go under its other writes: a session that connects, one that
-- is forgotten and one that is new.
use dc_streaming_p2p.Base.{
  ℕ, ◌≤◌, ◌<◌, ◌≡◌, ◌≢◌, Bool, true, false, none, some, Text, text_dec, ite, arith, is_some, holds,
  length,
}
use dc_streaming_p2p.Base.Map.{
  Map, lookup, insert, lookup-insert, lookup-delete, insert-Distinct, delete-Distinct, Distinct,
}
use dc_streaming_p2p.Base.Map.Count.{count, count-insert, count-delete, length-insert}
use dc_streaming_p2p.Session.Record.{State, MediaPath, Session, live, is_live, has, pair_key}
use dc_streaming_p2p.Session.Store.{Store}
use dc_streaming_p2p.Session.Steps.{row, write, track, forget, drop_pair}
use dc_streaming_p2p.Session.Ops.{create}
use dc_streaming_p2p.Session.Rows.{row-track}
use dc_streaming_p2p.Session.Invariant.{Inv, Compact, live_with, restated}

module _ (to : State) (path : MediaPath) (at : ℕ) (h : Session) (s : Store) (v : Inv s)
    (found : lookup h.id s.sessions ≡ some h) (was : live h ≡ true)
    (still : is_live to ≡ true) where
  abbrev after : Session
  after = restated to path at h

  write-pair_found :
      (key id : Text)
      → lookup key s.pairs ≡ some id
      → (g : Session) × (lookup id (insert h.id after s.sessions) ≡ some g)
        × (live g ≡ true)
        × (pair_key g.caller g.callee ≡ key)
  write-pair_found key id e =
      let (g, stored, alive, named) = v.pair_found key id e in
      elim (text_dec h.id id) [
        | yes p ↦
            (after, ground (arith, lookup-insert h.id id after s.sessions), still, ground arith)
        | no p ↦ (g, ground (arith, lookup-insert h.id id after s.sessions), alive, named)
      ]

  pub write-Inv : Inv (write after s)
  unfolding has
  write-Inv = record {
    ids = λ id g e. ground (arith, lookup-insert h.id id after s.sessions, v.ids id g);
    apart = λ id g e.
        ground (arith, lookup-insert h.id id after s.sessions, v.apart id g, v.apart h.id h);
    distinct = insert-Distinct h.id after s.sessions v.distinct;
    counted = ground (arith, v.counted, count-insert live h.id after s.sessions);
    paired = λ id g e l.
        ground (arith, lookup-insert h.id id after s.sessions, v.paired id g, v.paired h.id h);
    pair_found = write-pair_found;
    rows = λ peer id. ground (arith, lookup-insert h.id id after s.sessions, v.rows peer id);
    row_count = λ peer.
        ground (arith, v.row_count peer, count-insert (live_with peer) h.id after s.sessions);
    row_distinct = v.row_distinct;
    filed = λ id g e.
        ground (arith, lookup-insert h.id id after s.sessions, v.filed id g, v.filed h.id h);
    once = v.once;
    live_bound = v.live_bound;
    row_bound = v.row_bound;
  }

  pub write-Compact : Compact s → Compact (write after s)
  write-Compact c id e = ground (arith, c id, lookup-insert h.id id after s.sessions)

module _ (id : Text) (h : Session) (s : Store) (v : Inv s) (found : lookup id s.sessions ≡ some h)
    (over : live h ≡ false) where
  -- An ended session has no pair, so `forgetLocked` takes the record alone.
  drop_pair_ended :
      drop_pair id
        (pair_key h.caller h.callee)
        (lookup (pair_key h.caller h.callee) s.pairs)
        s.pairs
      ≡ s.pairs
  drop_pair_ended = ground (arith, v.pair_found (pair_key h.caller h.callee) id)

  pub forget-pairs : (forget id h s).pairs ≡ s.pairs
  unfolding forget
  forget-pairs = drop_pair_ended

  pub forget-Inv : Inv (forget id h s)
  unfolding forget
  forget-Inv = record {
    ids = λ j g e. ground (arith, lookup-delete id j s.sessions, v.ids j g);
    apart = λ j g e. ground (arith, lookup-delete id j s.sessions, v.apart j g);
    distinct = delete-Distinct id s.sessions v.distinct;
    counted = ground (arith, v.counted, count-delete live id s.sessions v.distinct);
    paired =
        λ j g e l. rw drop_pair_ended (ground (arith, lookup-delete id j s.sessions, v.paired j g));
    pair_found = λ key j e.
        ground (arith, drop_pair_ended, lookup-delete id j s.sessions, v.pair_found key j);
    rows = λ peer j. ground (arith, lookup-delete id j s.sessions, v.rows peer j);
    row_count = λ peer.
        ground (arith, v.row_count peer, count-delete (live_with peer) id s.sessions v.distinct);
    row_distinct = v.row_distinct;
    filed = λ j g e. ground (arith, lookup-delete id j s.sessions, v.filed j g);
    once = v.once;
    live_bound = v.live_bound;
    row_bound = v.row_bound;
  }

module _ (made : Session) (s : Store) (v : Inv s) (c : Compact s)
    (fresh : lookup made.id s.sessions ≡ none) (begins : live made ≡ true)
    (apart : made.caller ≢ made.callee)
    (unpaired : lookup (pair_key made.caller made.callee) s.pairs ≡ none)
    (room : s.live_count < s.ceiling)
    (caller_room : length (row made.caller s.per_peer) < s.per_peer_cap)
    (callee_room : length (row made.callee s.per_peer) < s.per_peer_cap) where
  abbrev caller_tracked : Text → Map Bool
  caller_tracked peer =
      ite (text_dec made.caller peer) (insert made.id true (row peer s.per_peer))
        (row peer s.per_peer)

  row-create :
      (peer : Text)
      → row peer (create made s).per_peer
        ≡ ite
            (text_dec made.callee peer)
            (insert made.id true (caller_tracked peer))
            (caller_tracked peer)
  unfolding create
  row-create peer = ground (
    arith,
    row-track made.callee peer made.id (track made.caller made.id s),
    row-track made.caller peer made.id s,
  )

  create-rows :
      (peer id : Text)
      → is_some (lookup id (row peer (create made s).per_peer))
        ≡ holds (live_with peer) (lookup id (insert made.id made s.sessions))
  unfolding has
  create-rows peer id = rw (row-create peer) (
      ground (
        arith,
        v.rows peer id,
        lookup-insert made.id id made s.sessions,
        lookup-insert made.id id true (row peer s.per_peer),
        lookup-insert made.id id true (insert made.id true (row peer s.per_peer)),
      ))

  create-row_count :
      (peer : Text)
      → length (row peer (create made s).per_peer)
        ≡ count (live_with peer) (insert made.id made s.sessions)
  unfolding has
  create-row_count peer = rw (row-create peer) (
      ground (
        arith,
        v.rows peer made.id,
        v.row_count peer,
        count-insert (live_with peer) made.id made s.sessions,
        length-insert made.id true (row peer s.per_peer),
      ))

  create-row-Distinct : (peer : Text) → Distinct (row peer (create made s).per_peer)
  create-row-Distinct peer =
      rw (row-create peer)
        (ground (arith, v.row_distinct peer, insert-Distinct made.id true (row peer s.per_peer)))

  create-row_bound : (peer : Text) → length (row peer (create made s).per_peer) ≤ s.per_peer_cap
  create-row_bound peer =
      rw (row-create peer)
        (ground (arith, v.row_bound peer, length-insert made.id true (row peer s.per_peer)))

  create-pair_found :
      (key id : Text)
      → lookup key (insert (pair_key made.caller made.callee) made.id s.pairs) ≡ some id
      → (g : Session) × (lookup id (insert made.id made s.sessions) ≡ some g)
        × (live g ≡ true)
        × (pair_key g.caller g.callee ≡ key)
  create-pair_found key id e = elim (text_dec (pair_key made.caller made.callee) key) [
    | yes p ↦ (
      made,
      ground (
        arith,
        lookup-insert made.id id made s.sessions,
        lookup-insert (pair_key made.caller made.callee) key made.id s.pairs,
      ),
      begins,
      p,
    )
    | no p ↦
        let (g, stored, alive, named) =
          v.pair_found key id (
            ground (arith, lookup-insert (pair_key made.caller made.callee) key made.id s.pairs)) in
        (g, ground (arith, lookup-insert made.id id made s.sessions), alive, named)
  ]

  pub create-Inv : Inv (create made s)
  unfolding create
  create-Inv = record {
    ids = λ id g e. ground (arith, lookup-insert made.id id made s.sessions, v.ids id g);
    apart = λ id g e. ground (arith, lookup-insert made.id id made s.sessions, v.apart id g);
    distinct = insert-Distinct made.id made s.sessions v.distinct;
    counted = ground (arith, v.counted, count-insert live made.id made s.sessions);
    paired = λ id g e l. ground (
      arith,
      lookup-insert made.id id made s.sessions,
      lookup-insert (pair_key made.caller made.callee) (pair_key g.caller g.callee) made.id s.pairs,
      v.paired id g,
    );
    pair_found = create-pair_found;
    rows = create-rows;
    row_count = create-row_count;
    row_distinct = create-row-Distinct;
    filed = λ id g e. ground (arith, lookup-insert made.id id made s.sessions, v.filed id g, c id);
    once = v.once;
    live_bound = omega arith;
    row_bound = create-row_bound;
  }

  pub create-Compact : Compact (create made s)
  unfolding create
  create-Compact id e = ground (arith, c id, lookup-insert made.id id made s.sessions)
