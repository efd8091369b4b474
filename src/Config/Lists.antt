-- ===== src/Config/Lists.antt =====
-- `splitList` of internal/config/config.go, and the lists that a setting can spell.
use dc_streaming_p2p.Base.{
  map, if◌then◌else◌, ℕ, Bool, true, false, ◌&&◌, not, List, [], ◌∷◌, ◌++◌, Text, ◌≡◌, refl, ap,
  ◌∙◌, arith, Bool-cases, inl, inr, ◌==◌, not-true, &&-true_left, &&-true_right,
}
use dc_streaming_p2p.Base.Strings.{is_empty, trim_space, split_at, onto_first, has_char, is_space}
use dc_streaming_p2p.Base.Trim.{
  is_trimmed, trim_space_trimmed, trim_space-is_trimmed, is_empty-trim_space, has_char-trim_space,
}
use dc_streaming_p2p.Base.Split.{then_entries, joined, all_plain, split_at-entries}
use dc_streaming_p2p.Config.{kept, split_list}

-- An entry that a list can have: something, with nothing to trim and no comma.
abbrev pub is_entry : Text → Bool
is_entry e = not (is_empty e) && is_trimmed e && not (has_char b',' e)

abbrev pub all_entries : List Text → Bool
all_entries [] = true
all_entries (e ∷ es) = is_entry e && all_entries es

-- The entries that are not empty.
abbrev filled : List Text → List Text
filled [] = []
filled (e ∷ es) = if is_empty e then filled es else e ∷ filled es

is_entry-parts :
    (e : Text)
    → is_entry e ≡ true
    → (is_empty e ≡ false) × (is_trimmed e ≡ true) × (has_char b',' e ≡ false)
is_entry-parts e h = ground arith

kept-map : (parts : List Text) (es : List Text) → map trim_space parts ≡ es → kept parts ≡ filled es
kept-map [] es e = ap filled e
kept-map (part ∷ parts) es e =
    ap (λ more. if is_empty (trim_space part) then more else trim_space part ∷ more)
      (kept-map parts (map trim_space parts) refl)
    ∙ ap filled e

map-trim_space : (es : List Text) → all_entries es ≡ true → map trim_space es ≡ es
map-trim_space [] h = refl
map-trim_space (e ∷ es) h =
    let (given, clean, plain) = is_entry-parts e (&&-true_left (is_entry e) (all_entries es) h) in
    let more = map-trim_space es (&&-true_right (is_entry e) (all_entries es) h) in
    rw (trim_space_trimmed e clean, more) refl

filled-entries : (es : List Text) → all_entries es ≡ true → filled es ≡ es
filled-entries [] h = refl
filled-entries (e ∷ es) h = ground (arith, filled-entries es)

all_entries-plain : (es : List Text) → all_entries es ≡ true → all_plain b',' es ≡ true
all_entries-plain [] h = refl
all_entries-plain (e ∷ es) h = ground (arith, all_entries-plain es)

split_list-nil : split_list [] ≡ []
unfolding split_list trim_space
split_list-nil = refl

starts_solid : (c : ℕ) (s : Text) → is_trimmed (c ∷ s) ≡ true → is_space c ≡ false
starts_solid c s h = not-true (is_space c) (&&-true_left (not (is_space c)) _ h)

split_list-joined : (es : List Text) → all_entries es ≡ true → split_list (joined es) ≡ es
unfolding split_list
split_list-joined [] h = split_list-nil
split_list-joined ([] ∷ es) h = absurd (ground arith)
split_list-joined ((c ∷ e) ∷ es) h =
    let (given, clean, plain) =
      is_entry-parts (c ∷ e) (&&-true_left (is_entry (c ∷ e)) (all_entries es) h) in
    let some_text = is_empty-trim_space c (e ++ then_entries es) (starts_solid c e clean) in
    let entries = (c ∷ e) ∷ es in
    rw some_text (
      kept-map (split_at b',' (joined entries)) (map trim_space entries) (
        split_at-entries (c ∷ e) es plain
          (all_entries-plain es (&&-true_right (is_entry (c ∷ e)) (all_entries es) h)))
      ∙ ap filled (map-trim_space entries h)
      ∙ filled-entries entries h)

all_plain-onto_first :
    (c d : ℕ) (parts : List Text)
    → d == c ≡ false
    → all_plain c parts ≡ true
    → all_plain c (onto_first d parts) ≡ true
all_plain-onto_first c d [] h k = refl
all_plain-onto_first c d (part ∷ parts) h k = ground arith

all_plain-split_at : (c : ℕ) (s : Text) → all_plain c (split_at c s) ≡ true
all_plain-split_at c [] = refl
all_plain-split_at c (d ∷ s) = elim (Bool-cases (d == c)) [
  | inl cut ↦ rw cut (all_plain-split_at c s)
  | inr whole ↦ rw whole (all_plain-onto_first c d (split_at c s) whole (all_plain-split_at c s))
]

kept-all_entries :
    (parts : List Text) → all_plain b',' parts ≡ true → all_entries (kept parts) ≡ true
kept-all_entries [] h = refl
kept-all_entries (part ∷ parts) h =
    let more = kept-all_entries parts (ground arith) in
    elim (Bool-cases (is_empty (trim_space part))) [
      | inl blank ↦ rw blank more
      | inr given ↦
          let clean = trim_space-is_trimmed part in
          let plain = has_char-trim_space b',' part (ground arith) in
          rw (given, given, clean, plain) more
    ]

split_list-all_entries : (raw : Text) → all_entries (split_list raw) ≡ true
unfolding split_list
split_list-all_entries raw = elim (Bool-cases (is_empty (trim_space raw))) [
  | inl blank ↦ rw blank refl
  | inr given ↦ rw given (kept-all_entries (split_at b',' raw) (all_plain-split_at b',' raw))
]

-- A list of entries is read back as it was written. Whatever a setting holds, what is read from it is
-- such a list, so that writing it again and reading that changes nothing.
pub split_list_lem :
    (es : List Text) (raw : Text)
    → all_entries es ≡ true
    → (split_list (joined es) ≡ es)
      × (all_entries (split_list raw) ≡ true)
      × (split_list (joined (split_list raw)) ≡ split_list raw)
split_list_lem es raw h = (
  split_list-joined es h,
  split_list-all_entries raw,
  split_list-joined (split_list raw) (split_list-all_entries raw),
)
