-- ===== src/Base/Split.antt =====
-- Lists that are written with ", " between their entries, and what strings.Split makes of them.
use Prim.Native.Nat.{ℕ}
use mathlib.Core.Path.{◌≡◌, refl, ap, ◌∙◌}
use mathlib.Core.Bool.{Bool, true, false, ◌&&◌, not}
use mathlib.Core.List.{List, [], ◌∷◌, ◌++◌, map, append-nil}
use native.Mathlib.Omega.{arith}
use dc_streaming_p2p.Base.Tests.{&&-true_left, &&-true_right, not-true}
use dc_streaming_p2p.Base.Strings.{Text, has_char, is_space, trim_left, trim_space, split_at}

abbrev pub then_entries : List Text → Text
then_entries [] = []
then_entries (e ∷ es) = b',' ∷ b' ' ∷ e ++ then_entries es

abbrev pub joined : List Text → Text
joined [] = []
joined (e ∷ es) = e ++ then_entries es

abbrev pub all_plain : ℕ → List Text → Bool
all_plain c [] = true
all_plain c (part ∷ parts) = not (has_char c part) && all_plain c parts

split_at-none : (c : ℕ) (s : Text) → has_char c s ≡ false → split_at c s ≡ s ∷ []
split_at-none c [] h = refl
split_at-none c (d ∷ s) h = ground (arith, split_at-none c s)

split_at-append :
    (c : ℕ) (s t : Text) → has_char c s ≡ false → split_at c (s ++ c ∷ t) ≡ s ∷ split_at c t
split_at-append c [] t h = ground arith
split_at-append c (d ∷ s) t h = ground (arith, split_at-append c s t)

trim_space-indented : (s : Text) → trim_space (b' ' ∷ s) ≡ trim_space s
unfolding trim_space trim_left is_space
trim_space-indented s = refl

-- The parts of a list, trimmed, are its entries, trimmed.
pub split_at-entries :
    (part : Text) (es : List Text)
    → has_char b',' part ≡ false
    → all_plain b',' es ≡ true
    → map trim_space (split_at b',' (part ++ then_entries es)) ≡ trim_space part ∷ map trim_space es
split_at-entries part [] plain all =
    ap (λ t. map trim_space (split_at b',' t)) (append-nil part)
    ∙ ap (map trim_space) (split_at-none b',' part plain)
split_at-entries part (e ∷ es) plain all =
    let plain' = not-true _ (&&-true_left (not (has_char b',' e)) (all_plain b',' es) all) in
    let all' = &&-true_right (not (has_char b',' e)) (all_plain b',' es) all in
    ap (map trim_space) (split_at-append b',' part (b' ' ∷ e ++ then_entries es) plain)
    ∙ ap (λ more. trim_space part ∷ more)
        (split_at-entries (b' ' ∷ e) es plain' all'
          ∙ ap (λ t. t ∷ map trim_space es) (trim_space-indented e))
