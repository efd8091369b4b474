-- ===== src/Transport/Keys.antt =====
-- `JWKS` and `KeyID` of internal/transport/auth.go. A key is its bytes; base64 and SHA-256 are
-- parameters.
use dc_streaming_p2p.Base.{ℕ, List, [], ◌∷◌, Text}
use dc_streaming_p2p.Base.Strings.{codes}

-- `jwk`; `use` is its field `use_for`.
pub record Jwk : Type 0 where
  pub kty : Text
  pub crv : Text
  pub x : Text
  pub use_for : Text
  pub alg : Text
  pub kid : Text

module _ (encode_base64 : List ℕ → Text) (sum256 : List ℕ → List ℕ) where
  -- `KeyID`
  abbrev pub key_id : List ℕ → Text
  key_id public = encode_base64 (sum256 public)

  -- The keys of the body of `JWKS`.
  abbrev pub jwks : List ℕ → List Jwk
  jwks public =
      record {
        kty = codes "OKP";
        crv = codes "Ed25519";
        x = encode_base64 public;
        use_for = codes "sig";
        alg = codes "EdDSA";
        kid = key_id public;
      }
      ∷ []
