-- ===== src/Auth/Clients/Tests.antt =====
-- A store with one client, with texts as their own digests, and the theorems applied to it.
use dc_streaming_p2p.Base.{◌≤◌, ◌≡◌, inr, refl, some, [], ◌∷◌, Text, text_dec, ℕ_discrete, true}
use dc_streaming_p2p.Base.Map.{lookup, insert}
use dc_streaming_p2p.Base.Strings.{trim_space, text_len}
use dc_streaming_p2p.Auth.Clients.{
  ClientConfig, ClientStore, new, authenticate, valid_peer_id, dummy_text,
}
use dc_streaming_p2p.Auth.Clients.Lookup.{
  configured, authenticate_lem, authenticate_sound, answer_for,
}

abbrev digest : Text → Text
digest t = t

-- The text of the dummy is long enough to be a secret.
abbrev client : ClientConfig
client = record { id = 32 ∷ 97 ∷ []; peer_id = 112 ∷ []; secret = dummy_text }

abbrev store : ClientStore Text
store = record {
  clients = (97 ∷ [], record { peer_id = 112 ∷ []; secret_hash = dummy_text }) ∷ [];
  dummy = dummy_text;
}

is_store : new digest (client ∷ []) ≡ inr store
unfolding new trim_space text_len lookup insert
is_store = refl

authenticate_lem_example :
    authenticate digest text_dec (97 ∷ []) (120 ∷ []) store
    ≡ answer_for digest text_dec (120 ∷ []) (configured (97 ∷ []) (client ∷ []))
authenticate_lem_example =
    authenticate_lem digest text_dec (client ∷ []) store (97 ∷ []) (120 ∷ []) is_store

accepted : authenticate digest text_dec (97 ∷ []) dummy_text store ≡ some (112 ∷ [])
unfolding authenticate lookup text_dec ℕ_discrete
accepted = refl

authenticate_sound_example :
    ((c : ClientConfig) × (configured (97 ∷ []) (client ∷ []) ≡ some c)
      × (dummy_text ≡ c.secret)
      × (32 ≤ text_len c.secret)
      × (112 ∷ [] ≡ trim_space c.peer_id))
    × (valid_peer_id (112 ∷ []) ≡ true)
    × (text_len (112 ∷ []) ≤ 128)
authenticate_sound_example =
    authenticate_sound digest text_dec (client ∷ []) store (97 ∷ []) dummy_text (112 ∷ []) is_store
      accepted
