-- ===== src/Base/Strings.antt =====
-- Go strings as lists of code points, with the parts of package strings that the program calls.
use Prim.Native.Nat.{ℕ, ◌+◌}
use mathlib.Core.Path.{◌≡◌, refl}
use mathlib.Core.Logic.{ite, if_pos}
use mathlib.Core.Bool.{Bool, true, false, ◌&&◌, ◌||◌}
use mathlib.Core.Option.{Option, none, some}
use mathlib.Core.List.{List, [], ◌∷◌, ◌++◌, map, reverse}
use native.Mathlib.Omega.{arith}
use Prim.Native.Char.{code}
use Prim.Native.String.{String}
use native.Mathlib.Decide.{ℕ_discrete}
use dc_streaming_p2p.Base.Tests.{ltb, leb, ◌==◌, if◌then◌else◌}

abbrev pub Text : Type 0
Text = List ℕ

unfoldable pub text_dec : Discrete Text
text_dec = hlevel ℕ_discrete

-- `a == b` on strings.
abbrev pub same : Text → Text → Bool
same a b = ite (text_dec a b) true false

pub same_itself : (s : Text) → same s s ≡ true
same_itself s = if_pos (text_dec s s) refl true false

same_if : {a b : Text} (d : Dec (a ≡ b)) → ite d true false ≡ true → a ≡ b
same_if (yes e) h = e
same_if (no n) h = absurd (ground arith)

pub same-true : (a b : Text) → same a b ≡ true → a ≡ b
same-true a b h = same_if (text_dec a b) h

abbrev pub is_empty : Text → Bool
is_empty [] = true
is_empty (c ∷ s) = false

-- The code points of a literal, which are its bytes, as the literals here are ASCII.
abbrev pub codes : String → Text
codes String.[] = []
codes (String.◌∷◌ c s) = code c ∷ codes s

-- strings.Contains and strings.Cut, for a separator of one character.
abbrev pub has_char : ℕ → Text → Bool
has_char c [] = false
has_char c (d ∷ s) = d == c || has_char c s

abbrev pub put_front : ℕ → Option (Text × Text) → Option (Text × Text)
put_front c none = none
put_front c (some (before, after)) = some (c ∷ before, after)

abbrev pub cut_at : ℕ → Text → Option (Text × Text)
cut_at c [] = none
cut_at c (d ∷ s) = if d == c then some ([], s) else put_front d (cut_at c s)

pub cut_at-append :
    (c : ℕ) (before after : Text)
    → has_char c before ≡ false
    → cut_at c (before ++ c ∷ after) ≡ some (before, after)
cut_at-append c [] after h = ground arith
cut_at-append c (d ∷ before) after h = ground (arith, cut_at-append c before after)

-- strings.EqualFold against a text of lower-case ASCII letters: besides the capitals, just the long s
-- and the Kelvin sign fold to one.
abbrev fold : ℕ → ℕ
fold c =
    if leb b'A' c && leb c b'Z'
    then c + 32
    else if c == 0x17f
    then b's'
    else if c == 0x212a
    then b'k'
    else c

abbrev pub equal_fold : Text → Text → Bool
equal_fold s lower = same (map fold s) lower

-- strings.Split by a separator of one character, which gives one part more than it has separators.
abbrev pub onto_first : ℕ → List Text → List Text
onto_first c [] = []
onto_first c (part ∷ parts) = (c ∷ part) ∷ parts

abbrev pub split_at : ℕ → Text → List Text
split_at c [] = [] ∷ []
split_at c (d ∷ s) = if d == c then [] ∷ split_at c s else onto_first d (split_at c s)

-- unicode.IsSpace.
unfoldable pub is_space : ℕ → Bool
is_space c =
    leb 9 c && leb c 13
    || c == 32
    || c == 0x85
    || c == 0xa0
    || c == 0x1680
    || leb 0x2000 c && leb c 0x200a
    || c == 0x2028
    || c == 0x2029
    || c == 0x202f
    || c == 0x205f
    || c == 0x3000

unfoldable pub trim_left : Text → Text
unfolding is_space
trim_left [] = []
trim_left (c ∷ s) = if is_space c then trim_left s else c ∷ s

-- strings.TrimSpace.
unfoldable pub trim_space : Text → Text
unfolding trim_left
trim_space s = reverse (trim_left (reverse (trim_left s)))

-- `a < b` on strings: the byte order of UTF-8 is the order of the code points.
unfoldable pub text_ltb : Text → Text → Bool
text_ltb a [] = false
text_ltb [] (d ∷ t) = true
text_ltb (c ∷ s) (d ∷ t) = ltb c d || c == d && text_ltb s t

-- `len(s)`: a string's length is in bytes of UTF-8.
abbrev rune_len : ℕ → ℕ
rune_len c = if ltb c 0x80 then 1 else if ltb c 0x800 then 2 else if ltb c 0x10000 then 3 else 4

unfoldable pub text_len : Text → ℕ
text_len [] = 0
text_len (c ∷ s) = rune_len c + text_len s

trim_test : trim_space (32 ∷ 97 ∷ 32 ∷ 98 ∷ 10 ∷ []) ≡ 97 ∷ 32 ∷ 98 ∷ []
unfolding trim_space
trim_test = refl

dec_test : same (97 ∷ []) (97 ∷ []) ≡ true
unfolding text_dec ℕ_discrete
dec_test = refl
