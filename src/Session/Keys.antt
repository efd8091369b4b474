-- ===== src/Session/Keys.antt =====
-- `pairKey` of internal/session/session.go.
use dc_streaming_p2p.Base.{
  ◌≡◌, refl, ◌≢◌, true, false, [], ◌∷◌, ◌++◌, Text, arith, inl, inr, Bool-cases, ◌⊎◌,
}
use dc_streaming_p2p.Base.Strings.{text_ltb}
use dc_streaming_p2p.Session.Record.{pair_key}

text_ltb-asym : (a b : Text) → text_ltb a b ≡ true → text_ltb b a ≡ false
unfolding text_ltb
text_ltb-asym a [] h = cc
text_ltb-asym [] (d ∷ t) h = refl
text_ltb-asym (c ∷ s) (d ∷ t) h = ground (arith, text_ltb-asym s t)

text_ltb-total : (a b : Text) → text_ltb a b ≡ false → text_ltb b a ≡ false → a ≡ b
unfolding text_ltb
text_ltb-total [] [] h k = refl
text_ltb-total [] (d ∷ t) h k = cc
text_ltb-total (c ∷ s) [] h k = cc
text_ltb-total (c ∷ s) (d ∷ t) h k = ground (arith, text_ltb-total s t)

-- The key does not say who asked first.
pub pair_key_comm : (a b : Text) → pair_key a b ≡ pair_key b a
unfolding pair_key
pair_key_comm a b = elim (Bool-cases (text_ltb a b)) [
  | inl less ↦ rw (less, text_ltb-asym a b less)
  | inr not_less ↦ elim (Bool-cases (text_ltb b a)) [
    | inl more ↦ rw (not_less, more)
    | inr not_more ↦ rw (text_ltb-total a b not_less not_more)
  ]
]

-- No character of the text is NUL, which joins the two parts of a key.
abbrev pub NoNul : Text → Type 0
NoNul [] = Unit
NoNul (c ∷ s) = (c ≢ 0) × NoNul s

join-injective : (a c b d : Text) → NoNul a → NoNul c → a ++ 0 ∷ b ≡ c ++ 0 ∷ d → (a ≡ c) × (b ≡ d)
join-injective [] [] b d p q e = ground arith
join-injective [] (y ∷ c) b d p q e = absurd (ground arith)
join-injective (x ∷ a) [] b d p q e = absurd (ground arith)
join-injective (x ∷ a) (y ∷ c) b d p q e =
    let (heads, tails) = join-injective a c b d p.1 q.1 (ground arith) in (ground arith, tails)

-- Two pairs without NUL have one key only if they are one pair, in one order or the other.
pub pair_key-injective :
    (a b c d : Text)
    → NoNul a
    → NoNul b
    → NoNul c
    → NoNul d
    → pair_key a b ≡ pair_key c d
    → ((a ≡ c) × (b ≡ d)) ⊎ ((a ≡ d) × (b ≡ c))
unfolding pair_key
pair_key-injective a b c d na nb nc nd e = elim (Bool-cases (text_ltb b a)) [
  | inl x ↦ elim (Bool-cases (text_ltb d c)) [
    | inl y ↦ let r = join-injective b d a c nb nd (rw (x, y) at e) in inl (r.1, r.0)
    | inr y ↦ let r = join-injective b c a d nb nc (rw (x, y) at e) in inr (r.1, r.0)
  ]
  | inr x ↦ elim (Bool-cases (text_ltb d c)) [
    | inl y ↦ let r = join-injective a d b c na nd (rw (x, y) at e) in inr (r.0, r.1)
    | inr y ↦ let r = join-injective a c b d na nc (rw (x, y) at e) in inl (r.0, r.1)
  ]
]
