-- ===== src/Session/Closing.antt =====
-- `ClosePeer` and `Reap` of internal/session/session.go, and the invariant.
use dc_streaming_p2p.Base.{
  ℕ, ◌*◌, ◌≤◌, ◌≡◌, refl, ◌∙◌, ◌&&◌, some, List, [], ◌∷◌, Text, arith, length, is_some,
  Option-cases, inl, inr, Bool-cases, if◌then◌else◌, not, ltb, ◌-◌,
}
use dc_streaming_p2p.Base.Map.{lookup, keys}
use dc_streaming_p2p.Base.Map.Count.{length-delete}
use dc_streaming_p2p.Session.Record.{Session, live, closed}
use dc_streaming_p2p.Session.Store.{Settings, Store, retained_per_live}
use dc_streaming_p2p.Session.Steps.{settle, forget, held_ids, compact_ended}
use dc_streaming_p2p.Session.Ops.{
  member, close_settled, close_member, close_ids, close_peer, reap_settled, reap_id, reap_ids, reap,
}
use dc_streaming_p2p.Session.Rows.{occurs}
use dc_streaming_p2p.Session.Invariant.{Inv, found_self}
use dc_streaming_p2p.Session.Changes.{forget-Inv}
use dc_streaming_p2p.Session.Settling.{
  settle-found, settle-Inv, settle-settings, settle-settled, lookup-settle,
}
use dc_streaming_p2p.Session.Shrinking.{settle-Shrinks}
use dc_streaming_p2p.Session.Opening.{Sound}
use dc_streaming_p2p.Session.Reporting.{finish-Sound, settle-Sound, member-found}

close_settled-Sound :
    (settings : Settings) (now : ℕ) (h : Session) (s : Store)
    → Sound settings s
    → lookup h.id s.sessions ≡ some h
    → Sound settings (close_settled now (s, h)).0
close_settled-Sound settings now h s o found = elim (Bool-cases (live h)) [
  | inl was ↦ rw was (finish-Sound settings closed h.path now h s o found was refl)
  | inr over ↦ rw over o
]

pub close_member-Sound :
    (settings : Settings) (peer id : Text) (now : ℕ) (s : Store)
    → Sound settings s
    → Sound settings (close_member now (member peer (lookup id s.sessions)) s).0
close_member-Sound settings peer id now s o =
    elim (Option-cases (member peer (lookup id s.sessions))) [
      | inl e ↦ rw e o
      | inr (h, e) ↦
          let found = (member-found s id peer h o.valid.inv e).0 in
          rw e (
            close_settled-Sound settings now (settle h now s).1 (settle h now s).0
              (settle-Sound settings h now s o found) (settle-found h now s found))
    ]

close_ids-Sound :
    (settings : Settings) (peer : Text) (ids : List Text) (now : ℕ) (s : Store)
    → Sound settings s
    → Sound settings (close_ids peer ids now s).0
unfolding close_ids
close_ids-Sound settings peer [] now s o = o
close_ids-Sound settings peer (id ∷ ids) now s o =
    close_ids-Sound settings peer ids now
      (close_member now (member peer (lookup id s.sessions)) s).0
      (close_member-Sound settings peer id now s o)

pub close_peer-Sound :
    (settings : Settings) (peer : Text) (now : ℕ) (s : Store)
    → Sound settings s
    → Sound settings (close_peer peer now s).0
unfolding close_peer
close_peer-Sound settings peer now s o = close_ids-Sound settings peer (keys s.sessions) now s o

-- While `Reap` runs, the order may name sessions that are forgotten already.
pub record Reaping (settings : Settings) (t : Store) : Type 0 where
  pub inv : Inv t
  pub same_settings : t.settings ≡ settings
  pub bounded : length t.sessions ≤ settings.ceiling * retained_per_live

reap_settled-Reaping :
    (settings : Settings) (id : Text) (before after : Session) (now : ℕ) (s : Store)
    → Reaping settings s
    → lookup id s.sessions ≡ some after
    → Reaping settings (reap_settled id before now (s, after)).0
unfolding forget
reap_settled-Reaping settings id before after now s r found =
    elim (Bool-cases (not (live after) && ltb s.retention (now - after.changed_at))) [
      | inl old ↦ rw old (record {
        inv = forget-Inv id after s r.inv found (ground arith);
        same_settings = r.same_settings;
        bounded = omega (arith, length-delete id s.sessions r.inv.distinct, r.bounded);
      })
      | inr kept ↦ rw kept r
    ]

settle-Reaping :
    (settings : Settings) (h : Session) (now : ℕ) (s : Store)
    → Reaping settings s
    → lookup h.id s.sessions ≡ some h
    → Reaping settings (settle h now s).0
settle-Reaping settings h now s r found = record {
  inv = settle-Inv h now s found r.inv;
  same_settings = settle-settings h now s ∙ r.same_settings;
  bounded = omega (arith, r.bounded, (settle-Shrinks h now s r.inv found).no_more);
}

held_ids-occurs :
    (id : Text) (s : Store) (order : List Text)
    → occurs id (held_ids s.sessions order)
      ≡ (if is_some (lookup id s.sessions) then occurs id order else 0)
unfolding held_ids occurs
held_ids-occurs id s [] = ground arith
held_ids-occurs id s (x ∷ order) = ground (arith, held_ids-occurs id s order)

compact_ended-Sound :
    (settings : Settings) (s : Store) → Reaping settings s → Sound settings (compact_ended s)
unfolding compact_ended
compact_ended-Sound settings s r = record {
  valid = record {
    inv = record {
      ids = r.inv.ids;
      apart = r.inv.apart;
      distinct = r.inv.distinct;
      counted = r.inv.counted;
      paired = r.inv.paired;
      pair_found = r.inv.pair_found;
      rows = r.inv.rows;
      row_count = r.inv.row_count;
      row_distinct = r.inv.row_distinct;
      filed = λ id h e. ground (arith, held_ids-occurs id s s.ended, r.inv.filed id h e);
      once = λ id. ground (arith, held_ids-occurs id s s.ended, r.inv.once id);
      live_bound = r.inv.live_bound;
      row_bound = r.inv.row_bound;
    };
    compact = λ id e. rw (held_ids-occurs id s s.ended, e) refl;
  };
  same_settings = r.same_settings;
  bounded = r.bounded;
}

pub reap_id-Reaping :
    (settings : Settings) (id : Text) (now : ℕ) (s : Store)
    → Reaping settings s
    → Reaping settings (reap_id id now (lookup id s.sessions) s).0
reap_id-Reaping settings id now s r = elim (Option-cases (lookup id s.sessions)) [
  | inl e ↦ rw e r
  | inr (h, e) ↦
      let found = found_self s id h r.inv e in
      rw e (
        reap_settled-Reaping settings id h (settle h now s).1 now (settle h now s).0
          (settle-Reaping settings h now s r found)
          (rw (settle-settled h now s, lookup-settle h now s found)
            (ground (arith, r.inv.ids id h e))))
]

reap_ids-Reaping :
    (settings : Settings) (ids : List Text) (now : ℕ) (s : Store)
    → Reaping settings s
    → Reaping settings (reap_ids ids now s).0
unfolding reap_ids
reap_ids-Reaping settings [] now s r = r
reap_ids-Reaping settings (id ∷ ids) now s r =
    reap_ids-Reaping settings ids now (reap_id id now (lookup id s.sessions) s).0
      (reap_id-Reaping settings id now s r)

pub reap-Sound :
    (settings : Settings) (now : ℕ) (s : Store) → Sound settings s → Sound settings (reap now s).0
unfolding reap
reap-Sound settings now s o = compact_ended-Sound settings (reap_ids (keys s.sessions) now s).0 (
    reap_ids-Reaping settings (keys s.sessions) now s
      (record { inv = o.valid.inv; same_settings = o.same_settings; bounded = o.bounded }))
