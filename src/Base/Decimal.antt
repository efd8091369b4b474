-- ===== src/Base/Decimal.antt =====
-- strconv.FormatInt of a number that is not negative, and the reading of decimal digits.
use Prim.Native.Nat.{ℕ, zero, suc, ◌+◌, ◌-◌, ◌*◌, ◌/◌, ◌%◌, ◌<◌, ◌≤◌}
use mathlib.Core.Path.{◌≡◌, ◌∙◌, ap, refl}
use mathlib.Core.Logic.{◌≢◌, ◌⊎◌}
use mathlib.Core.Bool.{false, ◌||◌}
use mathlib.Core.Option.{Option, none, some}
use mathlib.Core.List.{[], ◌∷◌, cons-ne-nil}
use native.Mathlib.Omega.{arith}
use dc_streaming_p2p.Base.Tests.{ltb, ◌==◌, if◌then◌else◌}
use dc_streaming_p2p.Base.Strings.{Text, has_char}

-- Each round puts the last digit of what is left before the digits so far.
emit : ℕ → ℕ → Text → Text
emit zero n out = out
emit (suc fuel) n out =
    let more = emit fuel (n / 10) ((b'0' + n % 10) ∷ out) in if n == 0 then out else more

-- `n` rounds are enough, as each divides by ten.
unfoldable pub format_int : ℕ → Text
unfolding emit
format_int n = if n == 0 then b'0' ∷ [] else emit n n []

scan : Text → ℕ → Option ℕ
scan [] n = some n
scan (c ∷ s) n =
    let more = scan s (n * 10 + (c - b'0')) in if ltb c b'0' || ltb b'9' c then none else more

-- The number that one or more digits spell.
unfoldable pub read_int : Text → Option ℕ
unfolding scan
read_int [] = none
read_int (c ∷ s) = scan (c ∷ s) 0

scan-emit : (fuel n : ℕ) (out : Text) → n ≤ fuel → scan (emit fuel n out) 0 ≡ scan out n
unfolding scan emit
scan-emit zero n out le = ground arith
scan-emit (suc fuel) n out le = ground (arith, scan-emit fuel (n / 10) ((b'0' + n % 10) ∷ out))

emit-ne-nil : (fuel n : ℕ) (out : Text) → out ≢ [] → emit fuel n out ≢ []
unfolding emit
emit-ne-nil zero n out h = h
emit-ne-nil (suc fuel) n out h =
    ground (arith, emit-ne-nil fuel (n / 10) ((b'0' + n % 10) ∷ out) (cons-ne-nil _ out))

read_int-scan : (s : Text) → s ≢ [] → read_int s ≡ scan s 0
unfolding read_int
read_int-scan [] h = absurd (h refl)
read_int-scan (c ∷ s) h = refl

pub read_int-format_int : (n : ℕ) → read_int (format_int n) ≡ some n
unfolding format_int read_int
read_int-format_int zero = refl
read_int-format_int (suc n) =
    let first : format_int (suc n) ≡ emit n (suc n / 10) ((b'0' + suc n % 10) ∷ []) =
      ground arith in
    ap read_int first
    ∙ read_int-scan (emit n (suc n / 10) ((b'0' + suc n % 10) ∷ []))
        (emit-ne-nil n (suc n / 10) ((b'0' + suc n % 10) ∷ []) (cons-ne-nil _ []))
    ∙ scan-emit n (suc n / 10) ((b'0' + suc n % 10) ∷ []) (omega arith)
    ∙ (unfold scan in ground arith)

has_char-emit :
    (c fuel n : ℕ) (out : Text)
    → c < b'0' ⊎ b'9' < c
    → has_char c out ≡ false
    → has_char c (emit fuel n out) ≡ false
unfolding emit
has_char-emit c zero n out other none_yet = none_yet
has_char-emit c (suc fuel) n out other none_yet =
    ground (arith, has_char-emit c fuel (n / 10) ((b'0' + n % 10) ∷ out) other)

-- Only digits are written.
pub has_char-format_int : (c n : ℕ) → c < b'0' ⊎ b'9' < c → has_char c (format_int n) ≡ false
unfolding format_int
has_char-format_int c n other = ground (arith, has_char-emit c n n [] other refl)
