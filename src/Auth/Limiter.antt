-- ===== src/Auth/Limiter.antt =====
-- The `AttemptLimiter` of internal/auth/limiter.go. The clock stands still during a call.
pub mod Order
pub mod Total
pub mod Blocking
pub mod Tests
use dc_streaming_p2p.Base.{
  ℕ, zero, suc, ◌+◌, ◌-◌, Bool, true, false, ◌&&◌, ◌||◌, not, Option, none, some, List, [], ◌∷◌,
  ◌++◌, Text, if◌then◌else◌, ltb, leb, length, is_some,
}
use dc_streaming_p2p.Base.Map.{Map, lookup, insert, delete, keys}
use dc_streaming_p2p.Base.Int.{ℤ, is_positive, pos_part}

abbrev pub sweep_threshold : ℕ
sweep_threshold = 1024

abbrev pub max_tracked : ℕ
max_tracked = 8192

-- `failureRecord`
pub record FailureRecord : Type 0 where
  pub count : ℕ
  pub started_at : ℕ

-- `AttemptLimiter`, but for the lock and the clock.
pub record Limiter : Type 0 where
  pub allowance : ℕ
  pub window : ℕ
  pub failures : Map FailureRecord
  pub order : List Text
  pub last_sweep : ℕ

pub data NewResult : Type 0 where
  allowance_not_positive window_not_positive : NewResult
  created : Limiter → NewResult

-- `NewAttemptLimiter`; the zero time of `lastSweep` is the moment from which times are counted.
unfoldable pub new : ℤ → ℤ → NewResult
new allowance window =
    if not (is_positive allowance)
    then allowance_not_positive
    else if not (is_positive window)
    then window_not_positive
    else created (record {
      allowance = pos_part allowance;
      window = pos_part window;
      failures = [];
      order = [];
      last_sweep = 0;
    })

-- `expired`
abbrev pub expired : ℕ → Limiter → FailureRecord → Bool
expired now l held = ltb l.window (now - held.started_at)

abbrev pub allowed_by : ℕ → Limiter → Option FailureRecord → Bool
allowed_by now l none = true
allowed_by now l (some held) = expired now l held || ltb held.count l.allowance

-- `Allowed`
unfoldable pub allowed : Text → ℕ → Limiter → Bool
allowed id now l = allowed_by now l (lookup id l.failures)

-- `Succeeded`
unfoldable pub succeeded : Text → Limiter → Limiter
succeeded id l = record l { failures = delete id l.failures }

-- A round of the loop of `sweep` over the records.
abbrev pub sweep_one : Text → ℕ → Option FailureRecord → Limiter → Limiter
sweep_one id now none l = l
sweep_one id now (some held) l =
    if expired now l held then record l { failures = delete id l.failures } else l

unfoldable pub sweep_ids : List Text → ℕ → Limiter → Limiter
sweep_ids [] now l = l
sweep_ids (id ∷ ids) now l = sweep_ids ids now (sweep_one id now (lookup id l.failures) l)

-- The second loop of `sweep`.
unfoldable pub tracked_ids : Map FailureRecord → List Text → List Text
tracked_ids failures [] = []
tracked_ids failures (id ∷ ids) =
    if is_some (lookup id failures) then id ∷ tracked_ids failures ids else tracked_ids failures ids

-- `sweep`, over the keys in the order in which the range takes them.
unfoldable pub sweep : ℕ → Limiter → Limiter
unfolding sweep_ids tracked_ids
sweep now l =
    let l' = sweep_ids (keys l.failures) now (record l { last_sweep = now }) in
    record l' { order = tracked_ids l'.failures l'.order }

-- The loop of `evictOldest`, over the order that is left.
unfoldable pub evict_from : List Text → Limiter → Limiter
evict_from [] l = record l { order = [] }
evict_from (oldest ∷ rest) l =
    if is_some (lookup oldest l.failures)
    then record l { order = rest; failures = delete oldest l.failures }
    else evict_from rest l

-- `evictOldest`
unfoldable pub evict_oldest : Limiter → Limiter
unfolding evict_from
evict_oldest l = evict_from l.order l

-- The last loop of `Failed`, on fuel; `none` means that the fuel ran out.
unfoldable pub evict_while : ℕ → Limiter → Option Limiter
unfolding evict_oldest
evict_while zero l = none
evict_while (suc fuel) l =
    let rest = evict_while fuel (evict_oldest l) in
    if ltb max_tracked (length l.failures) then rest else some l

-- The record that `Failed` writes.
abbrev pub counted : ℕ → Limiter → Option FailureRecord → FailureRecord
counted now l none = record { count = 1; started_at = now }
counted now l (some held) =
    if expired now l held
    then record { count = 1; started_at = now }
    else record held { count = held.count + 1 }

-- `Failed` up to its sweep.
unfoldable pub note_failure : Text → ℕ → Limiter → Limiter
note_failure id now l = record l {
  failures = insert id (counted now l (lookup id l.failures)) l.failures;
  order = if is_some (lookup id l.failures) then l.order else l.order ++ id ∷ [];
}

unfoldable pub maybe_sweep : ℕ → Limiter → Limiter
unfolding sweep
maybe_sweep now l =
    if ltb sweep_threshold (length l.failures) && leb l.window (now - l.last_sweep)
    then sweep now l
    else l

-- `Failed`, whose loop is given as many rounds as there are records, and one.
unfoldable pub failed : Text → ℕ → Limiter → Option Limiter
unfolding note_failure maybe_sweep evict_while
failed id now l =
    let l' = maybe_sweep now (note_failure id now l) in evict_while (suc (length l'.failures)) l'

-- `Tracked`
abbrev pub tracked : Limiter → ℕ
tracked l = length l.failures
