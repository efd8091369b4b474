-- ===== src/Auth/Limiter/Blocking.antt =====
-- `Failed`, `Allowed` and `Succeeded` of internal/auth/limiter.go in sequence.
use dc_streaming_p2p.Base.{
  ℕ, suc, ◌+◌, ◌-◌, ◌≤◌, ◌<◌, ◌≡◌, ◌≢◌, refl, ◌∙◌, some, none, [], ◌∷◌, Text, text_dec, ite, arith,
  length, ltb, List, Option, ◌++◌, and_then, length-append,
}
use dc_streaming_p2p.Base.Map.{
  lookup, insert, lookup-insert, lookup-delete, Distinct, insert-Distinct, delete-Distinct,
}
use dc_streaming_p2p.Base.Map.Count.{length-insert, length-delete}
use dc_streaming_p2p.Auth.Limiter.{
  Limiter, sweep_threshold, allowed, succeeded, evict_while, note_failure, maybe_sweep, failed,
  counted,
}

-- While fewer identifiers are tracked than the sweep threshold, a failure is just counted.
failed_small :
    (id : Text) (now : ℕ) (l : Limiter)
    → length l.failures < sweep_threshold
    → failed id now l ≡ some (note_failure id now l)
unfolding failed maybe_sweep evict_while note_failure
failed_small id now l h =
    ground (arith, length-insert id (counted now l (lookup id l.failures)) l.failures)

-- Failures of one identifier, one after the other; `none` where `Failed` would not end.
unfoldable pub fail_times : Text → List ℕ → Limiter → Option Limiter
fail_times id [] l = some l
fail_times id (now ∷ times) l = and_then (failed id now l) (fail_times id times)

-- Every time of a list is within a window that began at another.
abbrev pub Within : ℕ → ℕ → List ℕ → Type 0
Within from window [] = Unit
Within from window (now ∷ times) = (now - from ≤ window) × Within from window times

note_failure-lookup :
    (id j : Text) (now : ℕ) (l : Limiter)
    → lookup j (note_failure id now l).failures
      ≡ ite (text_dec id j) (some (counted now l (lookup id l.failures))) (lookup j l.failures)
unfolding note_failure
note_failure-lookup id j now l =
    lookup-insert id j (counted now l (lookup id l.failures)) l.failures

fail-Within :
    (id : Text) (from n : ℕ) (times : List ℕ) (l : Limiter)
    → Within from l.window times
    → length l.failures < sweep_threshold
    → lookup id l.failures ≡ some (record { count = n; started_at = from })
    → (t : Limiter) × (fail_times id times l ≡ some t)
      × (lookup id t.failures ≡ some (record { count = n + length times; started_at = from }))
      × (t.window ≡ l.window)
      × (t.allowance ≡ l.allowance)
      × ((j : Text) → j ≢ id → lookup j t.failures ≡ lookup j l.failures)
unfolding fail_times note_failure
fail-Within id from n [] l w small e = (l, refl, ground arith, refl, refl, λ j ne. refl)
fail-Within id from n (now ∷ times) l w small e =
    let l' = note_failure id now l in
    let counted_more : lookup id l'.failures ≡ some (record { count = n + 1; started_at = from }) =
      ground (arith, note_failure-lookup id id now l) in
    let small' : length l'.failures < sweep_threshold =
      ground (arith, length-insert id (counted now l (lookup id l.failures)) l.failures) in
    let (t, ran, found, win, allow, rest) =
      fail-Within id from (n + 1) times l' w.1 small' counted_more in
    (
      t,
      rw (failed_small id now l small) ran,
      ground arith,
      win,
      allow,
      λ j ne. rest j ne ∙ ground (arith, note_failure-lookup id j now l),
    )

-- Let a limiter track fewer than 1023 identifiers, and not this one. After a first failure of it and
-- any more, each within the window that the first began and with no failure of another in between, it
-- may try again at a time within that window exactly when it has failed fewer times than the allowance;
-- and any other may exactly when it could before.
pub blocked_in_window :
    (id j : Text) (from now : ℕ) (times : List ℕ) (l : Limiter)
    → length l.failures + 1 < sweep_threshold
    → lookup id l.failures ≡ none
    → Within from l.window times
    → now - from ≤ l.window
    → (t : Limiter) × (fail_times id (from ∷ times) l ≡ some t)
      × (allowed j now t
          ≡ ite (text_dec id j) (ltb (suc (length times)) l.allowance) (allowed j now l))
unfolding fail_times allowed note_failure
blocked_in_window id j from now times l small fresh w inside =
    let l' = note_failure id from l in
    let first : lookup id l'.failures ≡ some (record { count = 1; started_at = from }) =
      ground (arith, note_failure-lookup id id from l) in
    let small' : length l'.failures < sweep_threshold =
      ground (arith, length-insert id (counted from l (lookup id l.failures)) l.failures) in
    let (t, ran, found, win, allow, rest) = fail-Within id from 1 times l' w small' first in
    let win' : t.window ≡ l.window = win in
    let allow' : t.allowance ≡ l.allowance = allow in
    (
      t,
      rw (failed_small id from l (omega arith)) ran,
      ground (arith, rest j, note_failure-lookup id j from l),
    )

-- Attempts, each an identifier and a time, that fail, and after each one of its identifier that
-- succeeds.
unfoldable pub fail_and_succeed : List (Text × ℕ) → Limiter → Option Limiter
unfolding succeeded
fail_and_succeed [] l = some l
fail_and_succeed ((id, now) ∷ rest) l =
    and_then (failed id now l) (λ t. fail_and_succeed rest (succeeded id t))

abbrev pub Untracked : List (Text × ℕ) → Limiter → Type 0
Untracked [] l = Unit
Untracked ((id, now) ∷ rest) l = (lookup id l.failures ≡ none) × Untracked rest l

Untracked-same :
    (rest : List (Text × ℕ)) (l l' : Limiter)
    → ((j : Text) → lookup j l'.failures ≡ lookup j l.failures)
    → Untracked rest l
    → Untracked rest l'
Untracked-same [] l l' same u = tt
Untracked-same ((id, now) ∷ rest) l l' same u = (same id ∙ u.0, Untracked-same rest l l' same u.1)

-- Let a limiter track fewer than 1024 identifiers, each once. After failures at any times of any identifiers that
-- it does not track, each followed by a success of its identifier, the eviction order is longer by
-- one entry for each of those failures, while every identifier's record is as it was before.
pub order_grows :
    (attempts : List (Text × ℕ)) (l : Limiter)
    → Distinct l.failures
    → length l.failures < sweep_threshold
    → Untracked attempts l
    → (t : Limiter) × (fail_and_succeed attempts l ≡ some t)
      × (length t.order ≡ length l.order + length attempts)
      × ((j : Text) → lookup j t.failures ≡ lookup j l.failures)
unfolding fail_and_succeed note_failure succeeded
order_grows [] l d small untracked = (l, refl, omega arith, λ j. refl)
order_grows ((id, now) ∷ rest) l d small untracked =
    let absent : lookup id l.failures ≡ none = untracked.0 in
    let l' = succeeded id (note_failure id now l) in
    let same : (j : Text) → lookup j l'.failures ≡ lookup j l.failures = λ j. ground (
      arith,
      lookup-delete id j (note_failure id now l).failures,
      note_failure-lookup id j now l,
    ) in
    let noted = insert id (counted now l (lookup id l.failures)) l.failures in
    let d' = insert-Distinct id (counted now l (lookup id l.failures)) l.failures d in
    let small' : length l'.failures < sweep_threshold = ground (
      arith,
      length-insert id (counted now l (lookup id l.failures)) l.failures,
      length-delete id noted d',
      lookup-insert id id (counted now l (lookup id l.failures)) l.failures,
    ) in
    let ordered : length l'.order ≡ length (l.order ++ id ∷ []) = ground arith in
    let (t, ran, long, kept) =
      order_grows rest l' (delete-Distinct id noted d') small'
        (Untracked-same rest l l' same untracked.1) in
    (
      t,
      rw (failed_small id now l small) ran,
      omega (arith, long, ordered, length-append l.order (id ∷ [])),
      λ j. kept j ∙ same j,
    )
