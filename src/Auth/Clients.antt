-- ===== src/Auth/Clients.antt =====
-- The `ClientStore` of internal/auth/clients.go. SHA-256 is a parameter of everything that hashes,
-- and comparing two digests in constant time is deciding their equality.
pub mod Lookup
pub mod Listed
mod Tests
use dc_streaming_p2p.Base.{
  ℕ, suc, ◌+◌, Bool, true, false, ◌&&◌, ◌||◌, not, ◌⊎◌, inl, inr, Option, none, some, List, [], ◌∷◌,
  ◌++◌, Text, ite, if◌then◌else◌, ltb, leb, ◌==◌, length, is_some,
}
use dc_streaming_p2p.Base.Map.{Map, lookup, insert}
use dc_streaming_p2p.Base.Strings.{is_empty, trim_space, text_len}

-- `peerIDAllowed`
abbrev pub peer_id_allowed : ℕ → Bool
peer_id_allowed r =
    leb 97 r && leb r 122
    || leb 65 r && leb r 90
    || leb 48 r && leb r 57
    || r == 45
    || r == 95
    || r == 46

abbrev pub max_peer_id_len : ℕ
max_peer_id_len = 128

abbrev pub min_secret_len : ℕ
min_secret_len = 32

-- `ClientConfig`
pub record ClientConfig : Type 0 where
  pub id : Text
  pub peer_id : Text
  pub secret : Text

pub record StoredClient (H : Type 0) : Type 0 where
  pub peer_id : Text
  pub secret_hash : H

pub record ClientStore (H : Type 0) : Type 0 where
  pub clients : Map (StoredClient H)
  pub dummy : H

-- The problems that `NewClientStore` reports.
pub data Problem : Type 0 where
  no_client_id : ℕ → Problem
  no_peer_id configured_twice : Text → Problem
  peer_id_length secret_length : Text → ℕ → Problem
  peer_id_character : Text → Text → Problem
  no_clients : Problem

abbrev pub all_allowed : Text → Bool
all_allowed [] = true
all_allowed (r ∷ rest) = peer_id_allowed r && all_allowed rest

-- `validPeerID`
abbrev pub valid_peer_id : Text → Bool
valid_peer_id peer_id = all_allowed peer_id && not (is_empty peer_id)

-- The cases of the switch in `NewClientStore`, for a client's place, its trimmed names and secret.
abbrev pub problem_of : ℕ → Text → Text → Text → Option Problem
problem_of i id peer_id secret =
    if is_empty id
    then some (no_client_id i)
    else if is_empty peer_id
    then some (no_peer_id id)
    else if ltb max_peer_id_len (text_len peer_id)
    then some (peer_id_length id (text_len peer_id))
    else if not (valid_peer_id peer_id)
    then some (peer_id_character id peer_id)
    else if ltb (text_len secret) min_secret_len
    then some (secret_length id (text_len secret))
    else none

-- "this hash exists so that an unknown client costs what a known one costs", the text that no client's secret is meant to be.
abbrev pub dummy_text : Text
dummy_text =
    116 ∷ 104 ∷ 105 ∷ 115 ∷ 32 ∷ 104 ∷ 97 ∷ 115 ∷ 104 ∷ 32 ∷ 101 ∷ 120 ∷ 105 ∷ 115 ∷ 116 ∷ 115 ∷ 32
    ∷ 115 ∷ 111 ∷ 32 ∷ 116 ∷ 104 ∷ 97 ∷ 116 ∷ 32 ∷ 97 ∷ 110 ∷ 32 ∷ 117 ∷ 110 ∷ 107 ∷ 110 ∷ 111 ∷ 119
    ∷ 110 ∷ 32 ∷ 99 ∷ 108 ∷ 105 ∷ 101 ∷ 110 ∷ 116 ∷ 32 ∷ 99 ∷ 111 ∷ 115 ∷ 116 ∷ 115 ∷ 32 ∷ 119 ∷ 104
    ∷ 97 ∷ 116 ∷ 32 ∷ 97 ∷ 32 ∷ 107 ∷ 110 ∷ 111 ∷ 119 ∷ 110 ∷ 32 ∷ 111 ∷ 110 ∷ 101 ∷ 32 ∷ 99 ∷ 111
    ∷ 115 ∷ 116 ∷ 115 ∷ []

module _ {H : Type 0} (sum256 : Text → H) where
  -- What one turn of the loop adds to the clients and to the problems.
  abbrev pub add_client :
      Text
      → Text
      → Text
      → Option Problem
      → Map (StoredClient H) × List Problem
      → Map (StoredClient H) × List Problem
  add_client id peer_id secret (some problem) (clients, problems) =
      (clients, problems ++ problem ∷ [])
  add_client id peer_id secret none (clients, problems) =
      if is_some (lookup id clients)
      then (clients, problems ++ configured_twice id ∷ [])
      else (insert id (record { peer_id = peer_id; secret_hash = sum256 secret }) clients, problems)

  -- The loop, from a place on.
  unfoldable pub add_clients :
      ℕ
      → List ClientConfig
      → Map (StoredClient H) × List Problem
      → Map (StoredClient H) × List Problem
  add_clients i [] acc = acc
  add_clients i (c ∷ rest) acc = add_clients (suc i) rest (
      add_client (trim_space c.id) (trim_space c.peer_id) c.secret
        (problem_of i (trim_space c.id) (trim_space c.peer_id) c.secret) acc)

  -- What `NewClientStore` returns: its problems, or the store.
  abbrev pub store_of : Map (StoredClient H) × List Problem → List Problem ⊎ ClientStore H
  store_of ([], []) = inl (no_clients ∷ [])
  store_of (c ∷ clients, []) = inr (record { clients = c ∷ clients; dummy = sum256 dummy_text })
  store_of (clients, p ∷ problems) = inl (p ∷ problems)

  -- `NewClientStore`
  unfoldable pub new : List ClientConfig → List Problem ⊎ ClientStore H
  unfolding add_clients
  new configs = store_of (add_clients 0 configs ([], []))

  module _ (digest_dec : Discrete H) where
    abbrev pub matches : H → H → Bool
    matches a b = ite (digest_dec a b) true false

    -- The expected digest, and then the answer, of `Authenticate`; `none` is its one error.
    abbrev pub expected : Option (StoredClient H) → H → H
    expected none dummy = dummy
    expected (some client) dummy = client.secret_hash

    abbrev pub peer_if : Option (StoredClient H) → Bool → Option Text
    peer_if none matched = none
    peer_if (some client) matched = if matched then some client.peer_id else none

    -- `Authenticate`
    unfoldable pub authenticate : Text → Text → ClientStore H → Option Text
    authenticate id secret s =
        peer_if (lookup id s.clients)
          (matches (sum256 secret) (expected (lookup id s.clients) s.dummy))

-- `Len`
abbrev pub size : {H : Type 0} → ClientStore H → ℕ
size s = length s.clients
