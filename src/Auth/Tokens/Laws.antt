-- ===== src/Auth/Tokens/Laws.antt =====
-- What internal/auth/token.go relies on of the JWT library.
use dc_streaming_p2p.Base.{ℕ, ◌+◌, true, false, some, List, Text, length, ◌≡◌, ◌≤◌, ◌<◌}
use dc_streaming_p2p.Base.Strings.{is_empty, has_char}
use dc_streaming_p2p.Base.Trim.{no_spaces}
use dc_streaming_p2p.Auth.Tokens.{
  Jwt, Registered, accepted, too_late, private_key_size, public_key_size,
}

abbrev pub second : ℕ
second = 1000000000

-- A date is a time cut to the second; a token is a text without spaces and commas; and with the key, the method
-- and the issuer that it was signed with, a token is parsed to its claims until its date, which it has
-- to have, and is refused as expired from then on.
pub record Lawful (jwt : Jwt) : Type 0 where
  pub date_before : (at : ℕ) → jwt.numeric_date at ≤ at
  pub date_close : (at : ℕ) → at < jwt.numeric_date at + second
  pub public_length :
      (key : List ℕ) → length key ≡ private_key_size → length (jwt.public key) ≡ public_key_size
  pub signed_text :
      (key : List ℕ) (c : Registered) (raw : Text)
      → jwt.signed key c ≡ some raw
      → (no_spaces raw ≡ true) × (has_char b',' raw ≡ false) × (is_empty raw ≡ false)
  pub parse_signed :
      (key : List ℕ) (c : Registered) (raw : Text) (until at : ℕ)
      → jwt.signed key c ≡ some raw
      → c.expires_at ≡ some until
      → at < until
      → jwt.parse (jwt.public key) c.issuer at raw ≡ accepted c
  pub parse_late :
      (key : List ℕ) (c : Registered) (raw : Text) (until at : ℕ)
      → jwt.signed key c ≡ some raw
      → c.expires_at ≡ some until
      → until ≤ at
      → jwt.parse (jwt.public key) c.issuer at raw ≡ too_late

-- With a private key of ed25519's size, signing gives a token.
abbrev pub Signs : Jwt → Type 0
Signs jwt =
    (key : List ℕ) (c : Registered)
    → length key ≡ private_key_size
    → (raw : Text) × (jwt.signed key c ≡ some raw)
