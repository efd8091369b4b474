-- ===== src/Auth/Tokens/Sample.antt =====
-- A JWT library to try the tokens of internal/auth/token.go with: a token is its claims and the public
-- key, each written apart and out of the way of spaces.
use dc_streaming_p2p.Base.{
  ℕ, zero, suc, ◌+◌, ◌-◌, ◌*◌, ◌/◌, true, false, ◌&&◌, Option, none, some, List, [], ◌∷◌, ◌++◌,
  Text, if◌then◌else◌, ltb, length, ◌≡◌, ◌≤◌, ◌<◌, refl, ap, ◌∙◌, arith, subst,
}
use dc_streaming_p2p.Base.Strings.{
  same_itself, same, has_char, cut_at, cut_at-append, is_space, is_empty,
}
use dc_streaming_p2p.Base.Trim.{no_spaces}
use dc_streaming_p2p.Auth.Tokens.{Jwt, Registered, Parsed, accepted, too_late, refused}
use dc_streaming_p2p.Auth.Tokens.Laws.{Lawful, second}

abbrev apart : ℕ
apart = 0x3fff

abbrev raised : Text → Text
raised [] = []
raised (c ∷ s) = (c + 0x4000) ∷ raised s

abbrev lowered : Text → Text
lowered [] = []
lowered (c ∷ s) = (c - 0x4000) ∷ lowered s

lowered-raised : (s : Text) → lowered (raised s) ≡ s
lowered-raised [] = refl
lowered-raised (c ∷ s) = ground (arith, lowered-raised s)

has_char-raised : (s : Text) → has_char apart (raised s) ≡ false
has_char-raised [] = refl
has_char-raised (c ∷ s) = ground (arith, has_char-raised s)

no_spaces-raised : (s : Text) → no_spaces (raised s) ≡ true
unfolding is_space
no_spaces-raised [] = refl
no_spaces-raised (c ∷ s) = ground (arith, no_spaces-raised s)

has_char-low : (d : ℕ) (s : Text) → d < apart → has_char d (raised s) ≡ false
has_char-low d [] low = refl
has_char-low d (c ∷ s) low = ground (arith, has_char-low d s low)

has_char-onto :
    (d : ℕ) (s t : Text)
    → d < apart
    → has_char d t ≡ false
    → has_char d (raised s ++ apart ∷ t) ≡ false
has_char-onto d [] t low h = ground arith
has_char-onto d (c ∷ s) t low h = ground (arith, has_char-onto d s t low h)

not_space : (n : ℕ) → is_space (n + 0x4000) ≡ false
unfolding is_space
not_space n = ground arith

no_spaces-onto :
    (s t : Text) → no_spaces s ≡ true → no_spaces t ≡ true → no_spaces (s ++ apart ∷ t) ≡ true
unfolding is_space
no_spaces-onto [] t h k = k
no_spaces-onto (c ∷ s) t h k = ground (arith, no_spaces-onto s t)

-- A date as a number, 0 for none.
abbrev number_of : Option ℕ → ℕ
number_of none = 0
number_of (some at) = suc at

abbrev date_of : ℕ → Option ℕ
date_of zero = none
date_of (suc at) = some at

abbrev public_half : List ℕ → List ℕ
public_half [] = []
public_half (b ∷ []) = []
public_half (b ∷ b' ∷ key) = b ∷ public_half key

-- The claims' parts, one after the other.
abbrev id_on : Text → Text → Text
id_on id key = raised id ++ apart ∷ raised key

abbrev issuer_on : Text → Text → Text → Text
issuer_on issuer id key = raised issuer ++ apart ∷ id_on id key

abbrev fields : Text → Text → Text → Text → Text
fields subject issuer id key = raised subject ++ apart ∷ issuer_on issuer id key

abbrev raised_number : Option ℕ → ℕ
raised_number o = number_of o + 0x4000

date_of-raised : (o : Option ℕ) → date_of (raised_number o - 0x4000) ≡ o
date_of-raised none = refl
date_of-raised (some at) =
    let back : suc at + 0x4000 - 0x4000 ≡ suc at = omega arith in ap date_of back

unfoldable written : List ℕ → Registered → Text
written key c =
    raised_number c.issued_at ∷ raised_number c.expires_at ∷ fields c.subject c.issuer c.id key

abbrev with_parts : ℕ → ℕ → Text → Text → Option (Text × Text) → Option (Registered × Text)
with_parts issued until subject issuer none = none
with_parts issued until subject issuer (some (id, key)) = some (
  record {
    subject = lowered subject;
    issuer = lowered issuer;
    id = lowered id;
    issued_at = date_of (issued - 0x4000);
    expires_at = date_of (until - 0x4000);
  },
  lowered key,
)

abbrev with_issuer : ℕ → ℕ → Text → Option (Text × Text) → Option (Registered × Text)
with_issuer issued until subject none = none
with_issuer issued until subject (some (issuer, rest)) =
    with_parts issued until subject issuer (cut_at apart rest)

abbrev with_subject : ℕ → ℕ → Option (Text × Text) → Option (Registered × Text)
with_subject issued until none = none
with_subject issued until (some (subject, rest)) =
    with_issuer issued until subject (cut_at apart rest)

unfoldable read : Text → Option (Registered × Text)
read [] = none
read (issued ∷ []) = none
read (issued ∷ until ∷ rest) = with_subject issued until (cut_at apart rest)

read-written : (key : List ℕ) (c : Registered) → read (written key c) ≡ some (c, key)
unfolding read written
read-written key c =
    let dates = raised_number c.issued_at in
    let until = raised_number c.expires_at in
    ap (with_subject dates until) (
      cut_at-append apart (raised c.subject) (issuer_on c.issuer c.id key)
        (has_char-raised c.subject))
    ∙ ap (with_issuer dates until (raised c.subject))
        (cut_at-append apart (raised c.issuer) (id_on c.id key) (has_char-raised c.issuer))
    ∙ ap (with_parts dates until (raised c.subject) (raised c.issuer))
        (cut_at-append apart (raised c.id) (raised key) (has_char-raised c.id))
    ∙ rw
        (
          lowered-raised c.subject,
          lowered-raised c.issuer,
          lowered-raised c.id,
          lowered-raised key,
          date_of-raised c.issued_at,
          date_of-raised c.expires_at,
        )
        refl

-- The date in the claims decides, once the key and the issuer are the ones asked for.
abbrev dated : Registered → ℕ → Option ℕ → Parsed
dated c at none = refused
dated c at (some until) = if ltb at until then accepted c else too_late

abbrev judged : List ℕ → Text → ℕ → Option (Registered × Text) → Parsed
judged key issuer at none = refused
judged key issuer at (some (c, signer)) =
    if same signer key && same c.issuer issuer then dated c at c.expires_at else refused

unfoldable parsed : List ℕ → Text → ℕ → Text → Parsed
parsed key issuer at raw = judged key issuer at (read raw)

abbrev to_second : ℕ → ℕ
to_second at = at / second * second

unfoldable pub sample : Jwt
unfolding written parsed read
sample = record {
  signed = λ key c. some (written (public_half key) c);
  parse = parsed;
  numeric_date = to_second;
  public = public_half;
}

length-public_half : (key : List ℕ) → length (public_half key) ≡ length key / 2
length-public_half [] = refl
length-public_half (b ∷ []) = refl
length-public_half (b ∷ b' ∷ key) = ground (arith, length-public_half key)

parsed-written :
    (key : List ℕ) (c : Registered) (until at : ℕ)
    → c.expires_at ≡ some until
    → parsed key c.issuer at (written key c) ≡ (if ltb at until then accepted c else too_late)
unfolding parsed
parsed-written key c until at e =
    rw (read-written key c, same_itself key, same_itself c.issuer, e) refl

written-plain :
    (key : List ℕ) (c : Registered)
    → (no_spaces (written key c) ≡ true)
      × (has_char b',' (written key c) ≡ false)
      × (is_empty (written key c) ≡ false)
unfolding written
written-plain key c =
    let key_text =
      no_spaces-onto (raised c.id) (raised key) (no_spaces-raised c.id) (no_spaces-raised key) in
    let id_text =
      no_spaces-onto (raised c.issuer) (id_on c.id key) (no_spaces-raised c.issuer) key_text in
    let text =
      no_spaces-onto (raised c.subject) (issuer_on c.issuer c.id key) (no_spaces-raised c.subject)
        id_text in
    let uncut = has_char-onto b',' c.subject (issuer_on c.issuer c.id key) (omega arith) (
      has_char-onto b',' c.issuer (id_on c.id key) (omega arith) (
        has_char-onto b',' c.id (raised key) (omega arith)
          (has_char-low b',' key (omega arith)))) in
    (
      ground (arith, not_space (number_of c.issued_at), not_space (number_of c.expires_at)),
      ground arith,
      refl,
    )

parsed-early :
    (key : List ℕ) (c : Registered) (until at : ℕ)
    → c.expires_at ≡ some until
    → at < until
    → parsed key c.issuer at (written key c) ≡ accepted c
parsed-early key c until at e early =
    let yes_early : ltb at until ≡ true = ground arith in
    parsed-written key c until at e ∙ (rw yes_early refl)

parsed-late :
    (key : List ℕ) (c : Registered) (until at : ℕ)
    → c.expires_at ≡ some until
    → until ≤ at
    → parsed key c.issuer at (written key c) ≡ too_late
parsed-late key c until at e late =
    let not_early : ltb at until ≡ false = ground arith in
    parsed-written key c until at e ∙ (rw not_early refl)

same_text :
    (key : List ℕ) (c : Registered) (raw : Text)
    → some (written (public_half key) c) ≡ some raw
    → written (public_half key) c ≡ raw
same_text key c raw e = ground arith

pub sample-Lawful : Lawful sample
unfolding sample
sample-Lawful = record {
  date_before = λ at. omega arith;
  date_close = λ at. omega arith;
  public_length = λ key long. length-public_half key ∙ ap (λ n. n / 2) long;
  signed_text = λ key c raw e.
      subst (λ t. (no_spaces t ≡ true) × (has_char b',' t ≡ false) × (is_empty t ≡ false))
        (same_text key c raw e) (written-plain (public_half key) c);
  parse_signed = λ key c raw until at e f early.
      subst (λ t. parsed (public_half key) c.issuer at t ≡ accepted c) (same_text key c raw e)
        (parsed-early (public_half key) c until at f early);
  parse_late = λ key c raw until at e f late.
      subst (λ t. parsed (public_half key) c.issuer at t ≡ too_late) (same_text key c raw e)
        (parsed-late (public_half key) c until at f late);
}
