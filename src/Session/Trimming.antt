-- ===== src/Session/Trimming.antt =====
-- `trimLocked` of internal/session/session.go, and the number of records.
use dc_streaming_p2p.Base.{
  ℕ, ◌*◌, ◌<◌, ◌≡◌, refl, false, some, List, [], ◌∷◌, Text, arith, length, Option-cases, inl, inr,
  leb, Bool-cases, ◌⊎◌,
}
use dc_streaming_p2p.Base.Map.{lookup, lookup-delete}
use dc_streaming_p2p.Base.Map.Count.{count-all, length-delete}
use dc_streaming_p2p.Session.Record.{Session, live}
use dc_streaming_p2p.Session.Store.{Store, retained_per_live}
use dc_streaming_p2p.Session.Steps.{forget, trim_from, trim}
use dc_streaming_p2p.Session.Rows.{occurs}
use dc_streaming_p2p.Session.Invariant.{Inv, Compact, Valid}
use dc_streaming_p2p.Session.Changes.{forget-Inv, forget-pairs}
use dc_streaming_p2p.Session.Shrinking.{Shrinks, Narrows, Narrows-refl, Narrows-trans}

-- The oldest entry of the order is a stored session that has ended.
oldest-ended :
    (oldest : Text) (rest : List Text) (s : Store)
    → Valid (record s { ended = oldest ∷ rest })
    → (h : Session) × (lookup oldest s.sessions ≡ some h) × (live h ≡ false)
unfolding occurs
oldest-ended oldest rest s v = elim (Option-cases (lookup oldest s.sessions)) [
  | inl e ↦ absurd (ground (arith, v.compact oldest))
  | inr (h, e) ↦ (h, e, ground (arith, v.inv.filed oldest h e))
]

module _ (oldest : Text) (rest : List Text) (s : Store)
    (v : Valid (record s { ended = oldest ∷ rest })) (h : Session)
    (found : lookup oldest s.sessions ≡ some h) (over : live h ≡ false) where
  abbrev without : Store
  without = forget oldest h (record s { ended = rest })

  popped : Inv (forget oldest h (record s { ended = oldest ∷ rest }))
  popped = forget-Inv oldest h (record s { ended = oldest ∷ rest }) v.inv found over

  pop-Inv : Inv without
  unfolding forget occurs
  pop-Inv = record {
    ids = popped.ids;
    apart = popped.apart;
    distinct = popped.distinct;
    counted = popped.counted;
    paired = popped.paired;
    pair_found = popped.pair_found;
    rows = popped.rows;
    row_count = popped.row_count;
    row_distinct = popped.row_distinct;
    filed = λ id g e. ground (arith, popped.filed id g, lookup-delete oldest id s.sessions);
    once = λ id. ground (arith, popped.once id);
    live_bound = popped.live_bound;
    row_bound = popped.row_bound;
  }

  pop-Compact : Compact without
  unfolding forget occurs
  pop-Compact id e = ground (arith, v.compact id, v.inv.once id, lookup-delete oldest id s.sessions)

  pop-Shrinks : Shrinks (record s { ended = oldest ∷ rest }) without
  unfolding forget
  pop-Shrinks = record {
    same_settings = refl;
    no_pair = λ key e.
        ground (arith, forget-pairs oldest h (record s { ended = oldest ∷ rest }) v.inv found over);
    no_session = λ id e. ground (arith, lookup-delete oldest id s.sessions);
    fewer = omega arith;
    shorter = λ peer. omega arith;
    no_more = omega (arith, length-delete oldest s.sessions v.inv.distinct);
    final = λ id g e ended. ground (arith, lookup-delete oldest id s.sessions);
  }

  pop-Narrows : Narrows (record s { ended = oldest ∷ rest }) without
  pop-Narrows = record {
    valid = record { inv = pop-Inv; compact = pop-Compact };
    shrinks = pop-Shrinks;
  }

trim_from-Narrows :
    (order : List Text) (s : Store)
    → Valid (record s { ended = order })
    → Narrows (record s { ended = order }) (trim_from order s)
unfolding trim_from
trim_from-Narrows [] s v = Narrows-refl _ v
trim_from-Narrows (oldest ∷ rest) s v =
    let (h, found, over) = oldest-ended oldest rest s v in
    elim (Bool-cases (leb (s.ceiling * retained_per_live) (length s.sessions))) [
      | inl many ↦
          let n = pop-Narrows oldest rest s v h found over in
          rw (many, found, over)
            (Narrows-trans n
              (trim_from-Narrows rest (without oldest rest s v h found over) n.valid))
      | inr few ↦ rw few (Narrows-refl _ v)
    ]

pub trim-Narrows : (s : Store) → Valid s → Narrows s (trim s)
unfolding trim
trim-Narrows s v = trim_from-Narrows s.ended s v

-- Once trimmed, the store is below its bound or holds no ended session.
abbrev Trimmed : ℕ → Store → Type 0
Trimmed bound t = (length t.sessions < bound) ⊎ (t.ended ≡ [])

trim_from-Trimmed :
    (order : List Text) (s : Store)
    → Valid (record s { ended = order })
    → Trimmed (s.ceiling * retained_per_live) (trim_from order s)
unfolding trim_from
trim_from-Trimmed [] s v = inr refl
trim_from-Trimmed (oldest ∷ rest) s v =
    let (h, found, over) = oldest-ended oldest rest s v in
    elim (Bool-cases (leb (s.ceiling * retained_per_live) (length s.sessions))) [
      | inl many ↦
          let n = pop-Narrows oldest rest s v h found over in
          rw (many, found, over)
            (trim_from-Trimmed rest (without oldest rest s v h found over) n.valid)
      | inr few ↦ rw few (inl (ground arith))
    ]

-- With no ended session, what is held is what is live.
held-live_count : (s : Store) → Valid s → s.ended ≡ [] → length s.sessions ≡ s.live_count
unfolding occurs
held-live_count s v e = omega (
  arith,
  v.inv.counted,
  count-all live s.sessions v.inv.distinct (λ id h found. ground (arith, v.inv.filed id h found)),
)

-- A trimmed store has room for one more record within its bound.
pub trim_room :
    (s : Store)
    → Valid s
    → s.live_count < s.ceiling
    → length (trim s).sessions < s.ceiling * retained_per_live
unfolding trim
trim_room s v room =
    let n = trim-Narrows s v in
    elim (trim_from-Trimmed s.ended s v) [
      | inl below ↦ below
      | inr none_left ↦ omega (arith, held-live_count (trim s) n.valid none_left, n.shrinks.fewer)
    ]
