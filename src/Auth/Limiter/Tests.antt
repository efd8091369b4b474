-- ===== src/Auth/Limiter/Tests.antt =====
-- A limiter with three attempts in a window of sixty, and the theorems applied to it.
use dc_streaming_p2p.Base.{
  List, ℕ, ◌+◌, ◌≤◌, ◌≡◌, refl, some, [], ◌∷◌, Text, text_dec, arith, length, ite, ltb,
}
use dc_streaming_p2p.Base.Map.{lookup}
use dc_streaming_p2p.Base.Int.{pos}
use dc_streaming_p2p.Auth.Limiter.{Limiter, new, created, allowed, failed, tracked}
use dc_streaming_p2p.Auth.Limiter.Total.{here, failed_total}
use dc_streaming_p2p.Auth.Limiter.Blocking.{
  blocked_in_window, fail_times, order_grows, fail_and_succeed,
}

abbrev ann : Text
ann = 97 ∷ []

abbrev bob : Text
bob = 98 ∷ []

abbrev started : Limiter
started = record { allowance = 3; window = 60; failures = []; order = []; last_sweep = 0 }

is_started : new (pos 3) (pos 60) ≡ created started
unfolding new
is_started = refl

failed_total_example : (u : Limiter) × (failed ann 7 started ≡ some u) × (tracked u ≤ 8192)
failed_total_example = failed_total (pos 3) (pos 60) ann 7 is_started here

blocked_in_window_example :
    (t : Limiter) × (fail_times ann (5 ∷ 6 ∷ 7 ∷ []) started ≡ some t)
    × (allowed ann 60 t ≡ ite (text_dec ann ann) (ltb 3 3) (allowed ann 60 started))
unfolding lookup
blocked_in_window_example =
    blocked_in_window ann ann 5 60 (6 ∷ 7 ∷ []) started (omega arith) refl
      (omega arith, (omega arith, tt)) (omega arith)

abbrev attempts : List (Text × ℕ)
attempts = (ann, 9) ∷ (bob, 9) ∷ (ann, 80) ∷ []

order_grows_example :
    (t : Limiter) × (fail_and_succeed attempts started ≡ some t)
    × (length t.order ≡ 0 + 3)
    × ((j : Text) → lookup j t.failures ≡ lookup j started.failures)
unfolding lookup
order_grows_example = order_grows attempts started tt (omega arith) (refl, (refl, (refl, tt)))
