-- ===== src/Base/Map/Count.antt =====
-- How many entries of a map pass a test, and how writes and deletions change it.
use Prim.Native.Nat.{ℕ, ◌+◌, ◌≤◌}
use mathlib.Core.Path.{◌≡◌, refl}
use mathlib.Core.Bool.{Bool, true}
use mathlib.Core.Option.{none, some}
use mathlib.Core.List.{[], ◌∷◌}
use native.Mathlib.Omega.{arith}
use dc_streaming_p2p.Base.Tests.{length, is_some, bit, tally}
use dc_streaming_p2p.Base.Strings.{Text}
use dc_streaming_p2p.Base.Map.{Map, lookup, insert, delete, Distinct}

module _ {ℓ} {V : Type ℓ} where
  unfoldable pub count : (V → Bool) → Map V → ℕ
  count p [] = 0
  count p ((k, v) ∷ m) = bit (p v) + count p m

  pub count-insert :
      (p : V → Bool) (k : Text) (v : V) (m : Map V)
      → count p (insert k v m) + tally p (lookup k m) ≡ count p m + bit (p v)
  unfolding count insert lookup
  count-insert p k v [] = omega arith
  count-insert p k v ((j, w) ∷ m) = ground (arith, count-insert p k v m)

  delete_absent : (k : Text) (m : Map V) → lookup k m ≡ none → delete k m ≡ m
  unfolding delete lookup
  delete_absent k [] h = refl
  delete_absent k ((j, w) ∷ m) h = ground (arith, delete_absent k m)

  pub count-delete :
      (p : V → Bool) (k : Text) (m : Map V)
      → Distinct m
      → count p (delete k m) + tally p (lookup k m) ≡ count p m
  unfolding count delete lookup
  count-delete p k [] d = omega arith
  count-delete p k ((j, w) ∷ m) d = ground (arith, count-delete p k m d.1, delete_absent k m)

  pub length-insert :
      (k : Text) (v : V) (m : Map V)
      → length (insert k v m) + bit (is_some (lookup k m)) ≡ length m + 1
  unfolding insert lookup
  length-insert k v [] = omega arith
  length-insert k v ((j, w) ∷ m) = ground (arith, length-insert k v m)

  pub length-delete :
      (k : Text) (m : Map V)
      → Distinct m
      → length (delete k m) + bit (is_some (lookup k m)) ≡ length m
  unfolding delete lookup
  length-delete k [] d = omega arith
  length-delete k ((j, w) ∷ m) d = ground (arith, length-delete k m d.1, delete_absent k m)

  pub count-le-length : (p : V → Bool) (m : Map V) → count p m ≤ length m
  unfolding count
  count-le-length p [] = omega arith
  count-le-length p ((j, w) ∷ m) = ground (arith, count-le-length p m)

  -- A test that every entry passes counts them all.
  pub count-all :
      (p : V → Bool) (m : Map V)
      → Distinct m
      → ((k : Text) (v : V) → lookup k m ≡ some v → p v ≡ true)
      → count p m ≡ length m
  unfolding count lookup
  count-all p [] d all = refl
  count-all p ((k, v) ∷ m) d all =
      let rest = count-all p m d.1 (λ j w e. all j w (ground (arith, d.0))) in
      ground (arith, rest, all k v)
