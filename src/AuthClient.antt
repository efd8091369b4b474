-- ===== src/AuthClient.antt =====
-- internal/authclient/client.go: a peer's side of authentication. What the server replies is an argument
-- of a call, and the requests that a call sends are listed in order; parsing a URL and base64 are
-- parameters.
pub mod Pinning
pub mod Server
pub mod Credentials
mod Tests
use dc_streaming_p2p.Base.{
  ℕ, Bool, true, false, ◌&&◌, ◌||◌, not, Option, none, some, List, [], ◌∷◌, ◌++◌, Text, reverse,
  if◌then◌else◌, length, ◌==◌, ◌⊎◌, inl, inr,
}
use dc_streaming_p2p.Base.Strings.{codes, same, is_empty, trim_space}

-- ed25519's `PublicKeySize`.
abbrev pub public_key_size : ℕ
public_key_size = 32

-- `Client`, but for the HTTP client; a key is its bytes.
pub record Client : Type 0 where
  pub base_url : Text
  pub expected : List ℕ
  pub allow_insecure : Bool
  pub pinned : Option (List ℕ)

-- `Token`
pub record Token : Type 0 where
  pub value : Text
  pub peer_id : Text
  pub expires_at : ℕ

-- What `fetchKey` reads of a key.
pub record Key : Type 0 where
  pub kty : Text
  pub crv : Text
  pub x : Text

pub data Error : Type 0 where
  not_a_url key_length not_https : Error
  not_built not_reached : Error
  keys_status : ℕ → Error
  keys_unreadable key_mismatch : Error
  refused : ℕ → Error
  token_unreadable no_token : Error

-- How a request comes out: it cannot be built, the server is not reached, or it answers with a status
-- and a body, which is `none` if it cannot be decoded.
pub data Reply (A : Type 0) : Type 0 where
  unbuilt unreached : Reply A
  replied : ℕ → Option A → Reply A

-- A request that was sent.
pub data Request : Type 0 where
  asks_keys : Text → Request
  posts : Text → Text → Text → Request

abbrev pub jwks_path : Text
jwks_path = codes "/.well-known/jwks.json"

abbrev pub auth_path : Text
auth_path = codes "/auth"

-- strings.TrimRight of slashes.
abbrev pub drop_slashes : Text → Text
drop_slashes [] = []
drop_slashes (c ∷ s) = if c == b'/' then drop_slashes s else c ∷ s

abbrev pub trim_slashes : Text → Text
trim_slashes s = reverse (drop_slashes (reverse s))

-- `New`, over the scheme and the host of the URL.
abbrev pub new_at : Text → List ℕ → Bool → Option (Text × Text) → Error ⊎ Client
new_at url expected allow_insecure none = inl not_a_url
new_at url expected allow_insecure (some (scheme, host)) =
    if is_empty scheme || is_empty host
    then inl not_a_url
    else if not (length expected == public_key_size)
    then inl key_length
    else if not (same scheme (codes "https")) && not allow_insecure
    then inl not_https
    else inr (record {
      base_url = url;
      expected = expected;
      allow_insecure = allow_insecure;
      pinned = none;
    })

unfoldable pub new : (Text → Option (Text × Text)) → Text → List ℕ → Bool → Error ⊎ Client
new parse_url base_url expected allow_insecure =
    let trimmed = trim_slashes (trim_space base_url) in
    new_at trimmed expected allow_insecure (parse_url trimmed)

abbrev pub take_token : Token → Error ⊎ Token
take_token t = if is_empty t.value || is_empty t.peer_id then inl no_token else inr t

abbrev pub token_in : Option Token → Error ⊎ Token
token_in none = inl token_unreadable
token_in (some t) = take_token t

-- What `Authenticate` makes of the answer to its request, and whether that was sent.
abbrev pub token_of : Reply Token → Error ⊎ Token
token_of unbuilt = inl not_built
token_of unreached = inl not_reached
token_of (replied status body) = if not (status == 200) then inl (refused status) else token_in body

abbrev pub sent {ℓ} : {A : Type 0} {B : Type ℓ} → B → Reply A → List B
sent request unbuilt = []
sent request unreached = request ∷ []
sent request (replied status body) = request ∷ []

module _ (decode_base64 : Text → Option (List ℕ)) where
  -- The loop of `fetchKey`, one key first.
  abbrev pub matching : List ℕ → Option (List ℕ) → Option (List ℕ)
  matching expected none = none
  matching expected (some decoded) =
      if not (length decoded == public_key_size)
      then none
      else if same decoded expected
      then some decoded
      else none

  abbrev pub key_of : List ℕ → Key → Option (List ℕ)
  key_of expected k =
      if not (same k.kty (codes "OKP")) || not (same k.crv (codes "Ed25519"))
      then none
      else matching expected (decode_base64 k.x)

  abbrev pub or_later : Option (List ℕ) → Error ⊎ List ℕ → Error ⊎ List ℕ
  or_later none later = later
  or_later (some key) later = inr key

  abbrev pub find_key : List ℕ → List Key → Error ⊎ List ℕ
  find_key expected [] = inl key_mismatch
  find_key expected (k ∷ keys) = or_later (key_of expected k) (find_key expected keys)

  abbrev pub key_in : List ℕ → Option (List Key) → Error ⊎ List ℕ
  key_in expected none = inl keys_unreadable
  key_in expected (some keys) = find_key expected keys

  -- `fetchKey`
  abbrev pub fetch_key : List ℕ → Reply (List Key) → Error ⊎ List ℕ
  fetch_key expected unbuilt = inl not_built
  fetch_key expected unreached = inl not_reached
  fetch_key expected (replied status body) =
      if not (status == 200) then inl (keys_status status) else key_in expected body

  abbrev pub pin : Client → Error ⊎ List ℕ → Client × Option Error
  pin c (inl e) = (c, some e)
  pin c (inr published) = (record c { pinned = some published }, none)

  abbrev pub verify_unless :
      Option (List ℕ) → Reply (List Key) → Client → Client × List Request × Option Error
  verify_unless (some key) reply c = (c, [], none)
  verify_unless none reply c =
      let (c', e) = pin c (fetch_key c.expected reply) in
      (c', sent (asks_keys (c.base_url ++ jwks_path)) reply, e)

  -- `VerifyServerKey`
  unfoldable pub verify_server_key :
      Reply (List Key) → Client → Client × List Request × Option Error
  verify_server_key reply c = verify_unless c.pinned reply c

  abbrev pub post_if :
      Text
      → Text
      → Reply Token
      → Client × List Request × Option Error
      → Client × List Request × (Error ⊎ Token)
  post_if id secret reply (c, requests, some e) = (c, requests, inl e)
  post_if id secret reply (c, requests, none) =
      (c, requests ++ sent (posts (c.base_url ++ auth_path) id secret) reply, token_of reply)

  -- `Authenticate`, of what the server replies to the one request and to the other.
  unfoldable pub authenticate :
      Text
      → Text
      → Reply (List Key)
      → Reply Token
      → Client
      → Client × List Request × (Error ⊎ Token)
  authenticate id secret keys reply c = post_if id secret reply (verify_server_key keys c)
