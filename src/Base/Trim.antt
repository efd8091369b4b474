-- ===== src/Base/Trim.antt =====
-- What strings.TrimSpace leaves as it is.
use Prim.Native.Nat.{ℕ}
use mathlib.Core.Path.{◌≡◌, refl, sym, ap, ◌∙◌}
use mathlib.Core.Logic.{inl, inr}
use mathlib.Core.Bool.{Bool, true, false, ◌&&◌, not}
use mathlib.Core.List.{[], ◌∷◌, ◌++◌, reverse, reverse_aux, reverse-reverse, reverse-append}
use native.Mathlib.Omega.{arith}
use dc_streaming_p2p.Base.Tests.{Bool-cases}
use dc_streaming_p2p.Base.Strings.{Text, has_char, is_empty, is_space, trim_left, trim_space}

-- A text that is trimmed at both ends: each end, if there is one, is no space.
abbrev starts_clean : Text → Bool
starts_clean [] = true
starts_clean (c ∷ s) = not (is_space c)

abbrev pub is_trimmed : Text → Bool
is_trimmed s = starts_clean s && starts_clean (reverse s)

trim_left_clean : (s : Text) → starts_clean s ≡ true → trim_left s ≡ s
unfolding trim_left
trim_left_clean [] h = refl
trim_left_clean (c ∷ s) h = ground arith

pub trim_space_trimmed : (s : Text) → is_trimmed s ≡ true → trim_space s ≡ s
unfolding trim_space
trim_space_trimmed s h =
    ap (λ t. reverse (trim_left (reverse t))) (trim_left_clean s (ground arith))
    ∙ ap reverse (trim_left_clean (reverse s) (ground arith))
    ∙ reverse-reverse s

abbrev pub no_spaces : Text → Bool
no_spaces [] = true
no_spaces (c ∷ s) = not (is_space c) && no_spaces s

no_spaces-reverse_aux :
    (s t : Text) → no_spaces s ≡ true → no_spaces t ≡ true → no_spaces (reverse_aux s t) ≡ true
no_spaces-reverse_aux [] t h k = k
no_spaces-reverse_aux (c ∷ s) t h k = ground (arith, no_spaces-reverse_aux s (c ∷ t))

no_spaces-clean : (s : Text) → no_spaces s ≡ true → starts_clean s ≡ true
no_spaces-clean [] h = refl
no_spaces-clean (c ∷ s) h = ground arith

pub trim_space-no_spaces : (s : Text) → no_spaces s ≡ true → trim_space s ≡ s
trim_space-no_spaces s h =
    trim_space_trimmed s
      (ground (arith, no_spaces-clean s, no_spaces-clean (reverse s), no_spaces-reverse_aux s []))

starts_clean-trim_left : (s : Text) → starts_clean (trim_left s) ≡ true
unfolding trim_left
starts_clean-trim_left [] = refl
starts_clean-trim_left (c ∷ s) = ground (arith, starts_clean-trim_left s)

starts_clean-append : (s t : Text) → starts_clean (s ++ t) ≡ true → starts_clean s ≡ true
starts_clean-append [] t h = refl
starts_clean-append (c ∷ s) t h = h

-- What strings.TrimLeft cuts off.
cut_off : (s : Text) → (before : Text) × (before ++ trim_left s ≡ s)
unfolding trim_left
cut_off [] = ([], refl)
cut_off (c ∷ s) = elim (Bool-cases (is_space c)) [
  | inl space ↦ let (before, whole) = cut_off s in (c ∷ before, rw space (ap (λ t. c ∷ t) whole))
  | inr other ↦ ([], rw other refl)
]

pub trim_space-is_trimmed : (s : Text) → is_trimmed (trim_space s) ≡ true
unfolding trim_space
trim_space-is_trimmed s =
    let (before, whole) = cut_off (reverse (trim_left s)) in
    let backwards =
      sym (reverse-append before (trim_left (reverse (trim_left s))))
      ∙ ap reverse whole
      ∙ reverse-reverse (trim_left s) in
    let front =
      starts_clean-append (reverse (trim_left (reverse (trim_left s)))) (reverse before)
        (ap starts_clean backwards ∙ starts_clean-trim_left s) in
    let back =
      ap starts_clean (reverse-reverse (trim_left (reverse (trim_left s))))
      ∙ starts_clean-trim_left (reverse (trim_left s)) in
    ground arith

pub trim_space-trim_space : (s : Text) → trim_space (trim_space s) ≡ trim_space s
trim_space-trim_space s = trim_space_trimmed (trim_space s) (trim_space-is_trimmed s)

-- What strings.TrimSpace keeps of the characters of a text.
is_empty-snoc : (s : Text) (c : ℕ) → is_empty (s ++ c ∷ []) ≡ false
is_empty-snoc [] c = refl
is_empty-snoc (d ∷ s) c = refl

is_empty-reverse : (s : Text) → is_empty (reverse s) ≡ is_empty s
is_empty-reverse [] = refl
is_empty-reverse (c ∷ s) = ap is_empty (reverse-append (c ∷ []) s) ∙ is_empty-snoc (reverse s) c

is_empty-trim_left :
    (s : Text) (c : ℕ) → is_space c ≡ false → is_empty (trim_left (s ++ c ∷ [])) ≡ false
unfolding trim_left
is_empty-trim_left [] c h = ground arith
is_empty-trim_left (d ∷ s) c h = ground (arith, is_empty-trim_left s c h)

pub is_empty-trim_space :
    (c : ℕ) (s : Text) → is_space c ≡ false → is_empty (trim_space (c ∷ s)) ≡ false
unfolding trim_space trim_left
is_empty-trim_space c s h =
    let same_start : trim_left (c ∷ s) ≡ c ∷ s = ground arith in
    rw same_start (
      is_empty-reverse (trim_left (reverse (c ∷ s)))
      ∙ ap (λ t. is_empty (trim_left t)) (reverse-append (c ∷ []) s)
      ∙ is_empty-trim_left (reverse s) c h)

has_char-trim_left : (c : ℕ) (s : Text) → has_char c s ≡ false → has_char c (trim_left s) ≡ false
unfolding trim_left
has_char-trim_left c [] h = refl
has_char-trim_left c (d ∷ s) h = ground (arith, has_char-trim_left c s)

has_char-reverse_aux :
    (c : ℕ) (s t : Text)
    → has_char c s ≡ false
    → has_char c t ≡ false
    → has_char c (reverse_aux s t) ≡ false
has_char-reverse_aux c [] t h k = k
has_char-reverse_aux c (d ∷ s) t h k = ground (arith, has_char-reverse_aux c s (d ∷ t))

pub has_char-trim_space :
    (c : ℕ) (s : Text) → has_char c s ≡ false → has_char c (trim_space s) ≡ false
unfolding trim_space
has_char-trim_space c s h =
    let left = has_char-trim_left c s h in
    let back = has_char-reverse_aux c (trim_left s) [] left refl in
    has_char-reverse_aux c (trim_left (reverse (trim_left s))) []
      (has_char-trim_left c (reverse (trim_left s)) back) refl
