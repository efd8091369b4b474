-- ===== src/Auth/Tokens/Tests.antt =====
-- A token of internal/auth/token.go, issued and verified.
use dc_streaming_p2p.Base.{
  Option, none, some, zero, suc, List, [], ◌∷◌, Text, inr, ◌≡◌, ◌≤◌, ◌<◌, refl, ℕ, ◌+◌,
}
use dc_streaming_p2p.Base.Int
use dc_streaming_p2p.Base.Strings.{codes, trim_space}
use dc_streaming_p2p.Auth.Tokens.{
  registered, Issuer, Token, new_token_issuer, new_token_verifier, public_key, issue, verify,
}
use dc_streaming_p2p.Auth.Tokens.Laws.{second}
use dc_streaming_p2p.Auth.Tokens.Sample.{sample, sample-Lawful}
use dc_streaming_p2p.Auth.Tokens.Issued.{verify-issue}

abbrev pub bytes : ℕ → List ℕ
bytes zero = []
bytes (suc n) = n ∷ bytes n

abbrev pub key : List ℕ
key = bytes 64

abbrev pub issuer : Issuer
issuer = record { key = key; issuer = codes "central"; ttl = 5000000000 }

pub issuer-made : new_token_issuer key (codes " central ") (Int.pos 5000000000) ≡ inr issuer
unfolding new_token_issuer trim_space
issuer-made = refl

abbrev pub peer : Text
peer = codes " ann "

abbrev pub id : Text
id = codes "t1"

abbrev pub now : ℕ
now = 1900000000

abbrev pub text_of : Option Text → Text
text_of none = []
text_of (some text) = text

abbrev pub token : Token
token = record {
  value = text_of (sample.signed key (registered sample issuer (codes "ann") id now));
  peer_id = codes "ann";
  expires_at = 6900000000;
}

token-issued : issue sample issuer peer (some id) now ≡ inr token
unfolding issue trim_space sample
token-issued = refl

verify-issue_example :
    (token.peer_id ≡ trim_space peer)
    × (sample.numeric_date token.expires_at ≤ token.expires_at)
    × (token.expires_at < sample.numeric_date token.expires_at + second)
    × (verify sample
          (new_token_verifier (public_key sample issuer) (codes " central "))
          5500000000
          token.value
        ≡ inr (record { peer_id = codes "ann"; id = id; expires_at = 6000000000 }))
unfolding sample
verify-issue_example =
    verify-issue sample sample-Lawful key (codes " central ") (Int.pos 5000000000) issuer peer id
      now 5500000000 token issuer-made token-issued
