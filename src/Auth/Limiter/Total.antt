-- ===== src/Auth/Limiter/Total.antt =====
-- The histories of internal/auth/limiter.go, and the eviction loop of `Failed`.
use dc_streaming_p2p.Base.{
  ℕ, zero, suc, ◌≤◌, ◌<◌, ◌≡◌, ◌≢◌, ap, subst, some, [], Text, arith, length, inl, inr, Bool-cases,
  ltb, List,
}
use dc_streaming_p2p.Base.Int.{ℤ}
use dc_streaming_p2p.Base.Map.{lookup}
use dc_streaming_p2p.Auth.Limiter.{
  Limiter, new, created, max_tracked, succeeded, evict_while, evict_oldest, note_failure,
  maybe_sweep, failed, tracked,
}
use dc_streaming_p2p.Auth.Limiter.Order.{
  Valid, succeeded-Valid, note_failure-Valid, maybe_sweep-Valid, evict_oldest-Evicts,
}

nonempty {ℓ} : {A : Type ℓ} (xs : List A) → 0 < length xs → xs ≢ []
nonempty xs h e = absurd (omega (arith, ap length e))

evict_while-Valid :
    (fuel : ℕ) (l : Limiter)
    → Valid l
    → length l.failures < fuel
    → (t : Limiter) × (evict_while fuel l ≡ some t) × Valid t × (tracked t ≤ max_tracked)
unfolding evict_while
evict_while-Valid zero l v h = absurd (omega arith)
evict_while-Valid (suc fuel) l v h = elim (Bool-cases (ltb max_tracked (length l.failures))) [
  | inl many ↦
      let k = evict_oldest-Evicts l v in
      let more : max_tracked < length l.failures = ground arith in
      let (t, e, w, b) =
        evict_while-Valid fuel (evict_oldest l) k.valid
          (omega (arith, k.one_less (nonempty l.failures (omega arith)))) in
      (t, rw (many, e), w, b)
  | inr few ↦ (l, rw few, v, ground arith)
]

pub failed-Valid :
    (id : Text) (now : ℕ) (l : Limiter)
    → Valid l
    → (t : Limiter) × (failed id now l ≡ some t) × Valid t × (tracked t ≤ max_tracked)
unfolding failed
failed-Valid id now l v =
    let l' = maybe_sweep now (note_failure id now l) in
    evict_while-Valid (suc (length l'.failures)) l'
      (maybe_sweep-Valid now (note_failure id now l) (note_failure-Valid id now l v)) (omega arith)

-- One call of a method that writes.
pub data Step (l : Limiter) : Limiter → Type 0 where
  fails : (id : Text) (now : ℕ) (t : Limiter) → failed id now l ≡ some t → Step l t
  succeeds : (id : Text) → Step l (succeeded id l)

pub data Reach (l : Limiter) : Limiter → Type 0 where
  here : Reach l l
  next : {t u : Limiter} → Reach l t → Step t u → Reach l u

Step-Valid : {l t : Limiter} → Step l t → Valid l → Valid t
Step-Valid {l} (fails id now t e) v =
    let (u, e', w, b) = failed-Valid id now l v in let same : u ≡ t = cc in subst Valid same w
Step-Valid {l} (succeeds id) v = succeeded-Valid id l v

new-empty :
    (allowance window : ℤ) (l : Limiter) → new allowance window ≡ created l → l.failures ≡ []
unfolding new
new-empty allowance window l e = ground arith

new-Valid : (allowance window : ℤ) (l : Limiter) → new allowance window ≡ created l → Valid l
unfolding new lookup
new-Valid allowance window l e = record {
  listed = λ id h. absurd (ground (arith, new-empty allowance window l e));
  distinct = rw (new-empty allowance window l e) tt;
}

Reach-Valid :
    (allowance window : ℤ) {l t : Limiter} → new allowance window ≡ created l → Reach l t → Valid t
Reach-Valid allowance window {l} n here = new-Valid allowance window l n
Reach-Valid allowance window {l} n (next r st) = Step-Valid st (Reach-Valid allowance window n r)

-- In every history of a limiter, recording one more failure ends: its eviction loop always finds an
-- identifier to drop. Afterwards at most 8192 identifiers are tracked.
pub failed_total :
    (allowance window : ℤ) {l t : Limiter} (id : Text) (now : ℕ)
    → new allowance window ≡ created l
    → Reach l t
    → (u : Limiter) × (failed id now t ≡ some u) × (tracked u ≤ max_tracked)
failed_total allowance window {l} {t} id now n r =
    let (u, e, w, b) = failed-Valid id now t (Reach-Valid allowance window n r) in (u, e, b)
