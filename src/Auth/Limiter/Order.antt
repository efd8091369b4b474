-- ===== src/Auth/Limiter/Order.antt =====
-- The eviction order of internal/auth/limiter.go and the identifiers that are tracked.
use dc_streaming_p2p.Base.{
  ℕ, suc, ◌≡◌, refl, true, false, Option, none, some, List, [], ◌∷◌, ◌++◌, Text, if◌then◌else◌,
  length, is_some, inl, inr, Bool-cases, arith, ◌≢◌,
}
use dc_streaming_p2p.Base.Map.{
  Map, lookup, keys, elem, lookup-insert, lookup-delete, insert-Distinct, delete-Distinct, Distinct,
}
use dc_streaming_p2p.Base.Map.Count.{length-delete}
use dc_streaming_p2p.Auth.Limiter.{
  Limiter, FailureRecord, expired, succeeded, sweep_one, sweep_ids, sweep, tracked_ids, evict_from,
  evict_oldest, note_failure, maybe_sweep, counted,
}

-- Every tracked identifier is in a list.
abbrev pub Listed : List Text → Map FailureRecord → Type 0
Listed order failures = (id : Text) → is_some (lookup id failures) ≡ true → elem id order ≡ true

pub record Valid (l : Limiter) : Type 0 where
  pub listed : Listed l.order l.failures
  pub distinct : Distinct l.failures

elem-append : (id : Text) (xs ys : List Text) → elem id xs ≡ true → elem id (xs ++ ys) ≡ true
elem-append id [] ys h = cc
elem-append id (x ∷ xs) ys h = ground (arith, elem-append id xs ys)

elem-last : (id : Text) (xs : List Text) → elem id (xs ++ id ∷ []) ≡ true
elem-last id [] = ground arith
elem-last id (x ∷ xs) = ground (arith, elem-last id xs)

pub succeeded-Valid : (id : Text) (l : Limiter) → Valid l → Valid (succeeded id l)
unfolding succeeded
succeeded-Valid id l v = record {
  listed = λ j e. ground (arith, v.listed j, lookup-delete id j l.failures);
  distinct = delete-Distinct id l.failures v.distinct;
}

pub note_failure-Valid :
    (id : Text) (now : ℕ) (l : Limiter) → Valid l → Valid (note_failure id now l)
unfolding note_failure
note_failure-Valid id now l v = record {
  listed = λ j e. ground (
    arith,
    v.listed j,
    lookup-insert id j (counted now l (lookup id l.failures)) l.failures,
    elem-append j l.order (id ∷ []),
    elem-last id l.order,
  );
  distinct = insert-Distinct id (counted now l (lookup id l.failures)) l.failures v.distinct;
}

sweep_one-Valid :
    (id : Text) (now : ℕ) (o : Option FailureRecord) (l : Limiter)
    → Valid l
    → Valid (sweep_one id now o l)
sweep_one-Valid id now none l v = v
sweep_one-Valid id now (some held) l v = elim (Bool-cases (expired now l held)) [
  | inl old ↦ rw old (record {
    listed = λ j e. ground (arith, v.listed j, lookup-delete id j l.failures);
    distinct = delete-Distinct id l.failures v.distinct;
  })
  | inr young ↦ rw young v
]

sweep_ids-Valid : (ids : List Text) (now : ℕ) (l : Limiter) → Valid l → Valid (sweep_ids ids now l)
unfolding sweep_ids
sweep_ids-Valid [] now l v = v
sweep_ids-Valid (id ∷ ids) now l v =
    sweep_ids-Valid ids now (sweep_one id now (lookup id l.failures) l)
      (sweep_one-Valid id now (lookup id l.failures) l v)

elem-tracked_ids :
    (id : Text) (failures : Map FailureRecord) (order : List Text)
    → elem id (tracked_ids failures order)
      ≡ (if is_some (lookup id failures) then elem id order else false)
unfolding tracked_ids
elem-tracked_ids id failures [] = ground arith
elem-tracked_ids id failures (x ∷ order) = ground (arith, elem-tracked_ids id failures order)

sweep-Valid : (now : ℕ) (l : Limiter) → Valid l → Valid (sweep now l)
unfolding sweep
sweep-Valid now l v =
    let l' = sweep_ids (keys l.failures) now (record l { last_sweep = now }) in
    let v' =
      sweep_ids-Valid (keys l.failures) now (record l { last_sweep = now })
        (record { listed = v.listed; distinct = v.distinct }) in
    record {
      listed = λ j e. ground (arith, elem-tracked_ids j l'.failures l'.order, v'.listed j);
      distinct = v'.distinct;
    }

pub maybe_sweep-Valid : (now : ℕ) (l : Limiter) → Valid l → Valid (maybe_sweep now l)
unfolding maybe_sweep
maybe_sweep-Valid now l v = ground (arith, v, sweep-Valid now l v)

nothing_tracked : (m : Map FailureRecord) → Listed [] m → m ≡ []
unfolding lookup
nothing_tracked [] h = refl
nothing_tracked ((k, held) ∷ m) h = absurd (ground (arith, h k))

-- What a round of eviction does: the limiter stays valid, and tracks one identifier less.
pub record Evicts (failures : Map FailureRecord) (t : Limiter) : Type 0 where
  pub valid : Valid t
  pub one_less : (failures ≢ []) → suc (length t.failures) ≡ length failures

evict_from-Evicts :
    (order : List Text) (l : Limiter)
    → Listed order l.failures
    → Distinct l.failures
    → Evicts l.failures (evict_from order l)
unfolding evict_from
evict_from-Evicts [] l h d =
    let e = nothing_tracked l.failures h in
    record { valid = record { listed = h; distinct = d }; one_less = λ ne. absurd (ne e) }
evict_from-Evicts (oldest ∷ rest) l h d = elim (Bool-cases (is_some (lookup oldest l.failures))) [
  | inl held ↦ rw held (record {
    valid = record {
      listed = λ j e. ground (arith, h j, lookup-delete oldest j l.failures);
      distinct = delete-Distinct oldest l.failures d;
    };
    one_less = λ ne. ground (arith, length-delete oldest l.failures d);
  })
  | inr stale ↦ rw stale (evict_from-Evicts rest l (λ j e. ground (arith, h j)) d)
]

pub evict_oldest-Evicts : (l : Limiter) → Valid l → Evicts l.failures (evict_oldest l)
unfolding evict_oldest
evict_oldest-Evicts l v = evict_from-Evicts l.order l v.listed v.distinct
