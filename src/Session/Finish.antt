-- ===== src/Session/Finish.antt =====
-- The end of a live session in internal/session/session.go, its write and `endedLocked`, and the
-- invariant.
use dc_streaming_p2p.Base.{
  ℕ, ◌∷◌, [], ◌≤◌, ◌≡◌, ◌≢◌, refl, true, false, not, some, Text, text_dec, ite, arith, bit, is_some,
  holds, length,
}
use dc_streaming_p2p.Base.Map.{
  lookup, insert, delete, lookup-insert, lookup-delete, insert-Distinct, delete-Distinct, Distinct,
}
use dc_streaming_p2p.Base.Map.Count.{count, count-insert, length-delete}
use dc_streaming_p2p.Session.Record.{State, MediaPath, Session, live, is_live, has, pair_key}
use dc_streaming_p2p.Session.Store.{Store}
use dc_streaming_p2p.Session.Steps.{row, write, untrack, end_session}
use dc_streaming_p2p.Session.Rows.{row-untrack, occurs, occurs-append}
use dc_streaming_p2p.Session.Invariant.{Inv, Compact, live_with, restated}

module _ (to : State) (path : MediaPath) (at : ℕ) (h : Session) (s : Store) where
  abbrev pub finish : Store
  finish = end_session (restated to path at h) (write (restated to path at h) s)

  module _ (v : Inv s) (found : lookup h.id s.sessions ≡ some h) (was : live h ≡ true)
      (over : is_live to ≡ false) where
    finish-ids : (id : Text) (g : Session) → lookup id finish.sessions ≡ some g → g.id ≡ id
    unfolding end_session
    finish-ids id g e =
        ground (arith, lookup-insert h.id id (restated to path at h) s.sessions, v.ids id g)

    finish-apart :
        (id : Text) (g : Session) → lookup id finish.sessions ≡ some g → g.caller ≢ g.callee
    unfolding end_session
    finish-apart id g e = ground (
      arith,
      lookup-insert h.id id (restated to path at h) s.sessions,
      v.apart id g,
      v.apart h.id h,
    )

    finish-counted : finish.live_count ≡ count live finish.sessions
    unfolding end_session
    finish-counted =
        ground (arith, v.counted, count-insert live h.id (restated to path at h) s.sessions)

    finish-paired :
        (id : Text) (g : Session)
        → lookup id finish.sessions ≡ some g
        → live g ≡ true
        → lookup (pair_key g.caller g.callee) finish.pairs ≡ some id
    unfolding end_session
    finish-paired id g e l = ground (
      arith,
      lookup-insert h.id id (restated to path at h) s.sessions,
      lookup-delete (pair_key h.caller h.callee) (pair_key g.caller g.callee) s.pairs,
      v.paired id g,
      v.paired h.id h,
    )

    finish-pair_found :
        (key id : Text)
        → lookup key finish.pairs ≡ some id
        → (g : Session) × (lookup id finish.sessions ≡ some g)
          × (live g ≡ true)
          × (pair_key g.caller g.callee ≡ key)
    unfolding end_session
    finish-pair_found key id e = ground (
      arith,
      lookup-delete (pair_key h.caller h.callee) key s.pairs,
      lookup-insert h.id id (restated to path at h) s.sessions,
      v.pair_found key id,
    )

    pub row-finish :
        (peer : Text)
        → row peer finish.per_peer
          ≡ ite
              (text_dec h.callee peer)
              (delete h.id (
                ite
                  (text_dec h.caller peer)
                  (delete h.id (row peer s.per_peer))
                  (row peer s.per_peer)))
              (ite
                (text_dec h.caller peer)
                (delete h.id (row peer s.per_peer))
                (row peer s.per_peer))
    unfolding end_session
    row-finish peer = ground (
      arith,
      row-untrack h.callee peer h.id (untrack h.caller h.id (write (restated to path at h) s)),
      row-untrack h.caller peer h.id (write (restated to path at h) s),
    )

    sessions-finish : finish.sessions ≡ insert h.id (restated to path at h) s.sessions
    unfolding end_session
    sessions-finish = refl

    finish-rows :
        (peer id : Text)
        → is_some (lookup id (row peer finish.per_peer))
          ≡ holds (live_with peer) (lookup id finish.sessions)
    unfolding has
    finish-rows peer id =
        rw (row-finish peer, sessions-finish)
          (ground (
            arith,
            v.rows peer id,
            lookup-insert h.id id (restated to path at h) s.sessions,
            lookup-delete h.id id (row peer s.per_peer),
            lookup-delete h.id id (delete h.id (row peer s.per_peer)),
          ))

    finish-row_count :
        (peer : Text) → length (row peer finish.per_peer) ≡ count (live_with peer) finish.sessions
    unfolding has
    finish-row_count peer =
        rw (row-finish peer, sessions-finish)
          (ground (
            arith,
            v.rows peer h.id,
            v.row_count peer,
            v.apart h.id h,
            count-insert (live_with peer) h.id (restated to path at h) s.sessions,
            length-delete h.id (row peer s.per_peer) (v.row_distinct peer),
          ))

    finish-row-Distinct : (peer : Text) → Distinct (row peer finish.per_peer)
    finish-row-Distinct peer = rw (row-finish peer) (
        ground
          (arith, v.row_distinct peer, v.apart h.id h, delete-Distinct h.id (row peer s.per_peer)))

    finish-filed :
        (id : Text) (g : Session)
        → lookup id finish.sessions ≡ some g
        → occurs id finish.ended ≡ bit (not (live g))
    unfolding end_session occurs
    finish-filed id g e = ground (
      arith,
      v.filed id g,
      v.filed h.id h,
      lookup-insert h.id id (restated to path at h) s.sessions,
      occurs-append id s.ended (h.id ∷ []),
    )

    finish-once : (id : Text) → occurs id finish.ended ≤ 1
    unfolding end_session occurs
    finish-once id = ground (arith, v.once id, v.filed h.id h, occurs-append id s.ended (h.id ∷ []))

    finish-row_bound : (peer : Text) → length (row peer finish.per_peer) ≤ s.per_peer_cap
    finish-row_bound peer = rw (row-finish peer) (
        ground (
          arith,
          v.row_bound peer,
          v.apart h.id h,
          length-delete h.id (row peer s.per_peer) (v.row_distinct peer),
        ))

    -- Ending a live session leaves a store whose indexes agree with its sessions.
    pub finish-Inv : Inv finish
    unfolding end_session
    finish-Inv = record {
      ids = finish-ids;
      apart = finish-apart;
      distinct = insert-Distinct h.id (restated to path at h) s.sessions v.distinct;
      counted = finish-counted;
      paired = finish-paired;
      pair_found = finish-pair_found;
      rows = finish-rows;
      row_count = finish-row_count;
      row_distinct = finish-row-Distinct;
      filed = finish-filed;
      once = finish-once;
      live_bound = omega (arith, v.live_bound);
      row_bound = finish-row_bound;
    }

    pub finish-Compact : Compact s → Compact finish
    unfolding end_session occurs
    finish-Compact c id e = ground (
      arith,
      c id,
      lookup-insert h.id id (restated to path at h) s.sessions,
      occurs-append id s.ended (h.id ∷ []),
    )
