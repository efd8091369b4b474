-- ===== src/Auth/Clients/Listed.antt =====
-- Clients of internal/auth/clients.go that show the secret that they are configured with.
use dc_streaming_p2p.Base.{
  ℕ, ◌≤◌, ◌≡◌, refl, sym, ap, ◌∙◌, true, false, inr, none, some, List, [], ◌∷◌, Text, text_dec,
  arith,
}
use dc_streaming_p2p.Base.Strings.{is_empty, trim_space, text_len}
use dc_streaming_p2p.Auth.Clients.{
  ClientConfig, ClientStore, problem_of, valid_peer_id, min_secret_len, add_clients, new,
  authenticate,
}
use dc_streaming_p2p.Auth.Clients.Lookup.{
  configured, configured_sound, store_of-inr, problem_of-none, answer_for, authenticate_lem,
}

configured-id :
    (id : Text) (configs : List ClientConfig) (c : ClientConfig)
    → configured id configs ≡ some c
    → trim_space c.id ≡ id
configured-id id [] c e = absurd (ground arith)
configured-id id (d ∷ rest) c e = elim (text_dec (trim_space d.id) id) [
  | yes q ↦ let is_c : d ≡ c = ground arith in ap (λ x. trim_space x.id) (sym is_c) ∙ q
  | no q ↦ configured-id id rest c (ground arith)
]

problem_of-named :
    (j : ℕ) (id peer_id secret : Text) → problem_of j id peer_id secret ≡ none → is_empty id ≡ false
problem_of-named j id peer_id secret e = ground arith

-- A client of an accepted list that shows its own secret is named, is given its peer, and both its
-- secret and its peer can be used.
pub configured_client :
    {H : Type 0} (sum256 : Text → H) (digest_dec : Discrete H) (configs : List ClientConfig)
    (s : ClientStore H) (id : Text) (c : ClientConfig)
    → new sum256 configs ≡ inr s
    → configured id configs ≡ some c
    → (authenticate sum256 digest_dec id c.secret s ≡ some (trim_space c.peer_id))
      × (is_empty id ≡ false)
      × (min_secret_len ≤ text_len c.secret)
      × (valid_peer_id (trim_space c.peer_id) ≡ true)
unfolding new
configured_client sum256 digest_dec configs s id c e f =
    let (clean, held) = store_of-inr sum256 (add_clients sum256 0 configs ([], [])) s e in
    let (j, sound) = configured_sound sum256 0 configs ([], []) id c clean f in
    let (valid, short, long) =
      problem_of-none j (trim_space c.id) (trim_space c.peer_id) c.secret sound in
    let named = problem_of-named j (trim_space c.id) (trim_space c.peer_id) c.secret sound in
    let answer : answer_for sum256 digest_dec c.secret (some c) ≡ some (trim_space c.peer_id) =
      elim (digest_dec (sum256 c.secret) (sum256 c.secret)) [
        | yes q ↦ ground arith
        | no q ↦ absurd (q refl)
      ] in
    (
      authenticate_lem sum256 digest_dec configs s id c.secret e
          ∙ ap (answer_for sum256 digest_dec c.secret) f
          ∙ answer,
      ap is_empty (sym (configured-id id configs c f)) ∙ named,
      long,
      valid,
    )
