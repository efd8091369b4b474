-- ===== src/Auth/Clients/Lookup.antt =====
-- `Authenticate` of internal/auth/clients.go, over the configurations that a store was made of.
use dc_streaming_p2p.Base.{
  ℕ, suc, ◌≤◌, ◌≡◌, ◌≢◌, refl, sym, ap, subst, ◌∙◌, true, inl, inr, Option, none, some, List, [],
  ◌∷◌, ◌++◌, Text, text_dec, length-append, arith, if◌then◌else◌, length, Bool-cases, Option-cases,
}
use dc_streaming_p2p.Base.Map.{Map, lookup, insert, lookup-insert}
use dc_streaming_p2p.Base.Strings.{same, trim_space, text_len}
use dc_streaming_p2p.Auth.Clients.{
  ClientConfig, StoredClient, ClientStore, Problem, problem_of, configured_twice, valid_peer_id,
  max_peer_id_len, min_secret_len, add_client, add_clients, store_of, new, matches, authenticate,
}

-- The first client configured under an identifier.
abbrev pub configured : Text → List ClientConfig → Option ClientConfig
configured id [] = none
configured id (c ∷ rest) = if same (trim_space c.id) id then some c else configured id rest

module _ {H : Type 0} (sum256 : Text → H) where
  abbrev stored : ClientConfig → StoredClient H
  stored c = record { peer_id = trim_space c.peer_id; secret_hash = sum256 c.secret }

  grown_not_empty : {A : Type 0} (xs : List A) (x : A) → xs ++ x ∷ [] ≢ []
  grown_not_empty xs x e = ground (arith, ap length e, length-append xs (x ∷ []))

  -- A turn of the loop that ends with no problem met none, and added its client.
  no_problem :
      (id : Text) (c : ClientConfig) (o : Option Problem) (clients : Map (StoredClient H))
      (problems : List Problem)
      → (add_client sum256 id (trim_space c.peer_id) c.secret o (clients, problems)).1 ≡ []
      → (o ≡ none)
        × (problems ≡ [])
        × (lookup id clients ≡ none)
        × ((add_client sum256 id (trim_space c.peer_id) c.secret o (clients, problems)).0
            ≡ insert id (stored c) clients)
  no_problem id c (some p) clients problems e = absurd (grown_not_empty problems p e)
  no_problem id c none clients problems e = elim (Option-cases (lookup id clients)) [
    | inl absent ↦ let kept : problems ≡ [] = ground arith in rw absent (refl, kept, refl, refl)
    | inr (held, found) ↦
        let grown : problems ++ configured_twice id ∷ [] ≡ [] = ground arith in
        absurd (grown_not_empty problems (configured_twice id) grown)
  ]

  add_clients-problems :
      (i : ℕ) (configs : List ClientConfig) (acc : Map (StoredClient H) × List Problem)
      → (add_clients sum256 i configs acc).1 ≡ []
      → acc.1 ≡ []
  unfolding add_clients
  add_clients-problems i [] acc e = e
  add_clients-problems i (c ∷ rest) acc e =
      let next = add_clients-problems (suc i) rest _ e in
      (no_problem (trim_space c.id) c
        (problem_of i (trim_space c.id) (trim_space c.peer_id) c.secret) acc.0 acc.1 next).1

  abbrev or_stored : Option (StoredClient H) → Option ClientConfig → Option (StoredClient H)
  or_stored (some client) o = some client
  or_stored none none = none
  or_stored none (some c) = some (stored c)

  add_clients-lookup :
      (i : ℕ) (configs : List ClientConfig) (acc : Map (StoredClient H) × List Problem) (id : Text)
      → (add_clients sum256 i configs acc).1 ≡ []
      → lookup id (add_clients sum256 i configs acc).0
        ≡ or_stored (lookup id acc.0) (configured id configs)
  unfolding add_clients
  add_clients-lookup i [] acc id e = ground arith
  add_clients-lookup i (c ∷ rest) acc id e =
      let key = trim_space c.id in
      let next =
        add_client sum256 key (trim_space c.peer_id) c.secret
          (problem_of i key (trim_space c.peer_id) c.secret) acc in
      let none_yet = add_clients-problems (suc i) rest next e in
      let turn =
        no_problem key c (problem_of i key (trim_space c.peer_id) c.secret) acc.0 acc.1 none_yet in
      let later = add_clients-lookup (suc i) rest next id e in
      let absent : lookup key acc.0 ≡ none = turn.2 in
      let inserted = lookup-insert key id (stored c) acc.0 in
      let before : lookup id next.0 ≡ lookup id (insert key (stored c) acc.0) =
        ap (lookup id) turn.3 in
      later
      ∙ ap (λ o. or_stored o (configured id rest)) (before ∙ inserted)
      ∙ (elim (text_dec key id) [
        | yes q ↦
            let absent_id : lookup id acc.0 ≡ none = subst (λ k. lookup k acc.0 ≡ none) q absent in
            ground arith
        | no q ↦ ground arith
      ])

  -- Every configuration of an accepted list passed each of the checks.
  pub configured_sound :
      (i : ℕ) (configs : List ClientConfig) (acc : Map (StoredClient H) × List Problem) (id : Text)
      (c : ClientConfig)
      → (add_clients sum256 i configs acc).1 ≡ []
      → configured id configs ≡ some c
      → (j : ℕ) × (problem_of j (trim_space c.id) (trim_space c.peer_id) c.secret ≡ none)
  unfolding add_clients
  configured_sound i [] acc id c e f = absurd (ground arith)
  configured_sound i (d ∷ rest) acc id c e f =
      let key = trim_space d.id in
      let next =
        add_client sum256 key (trim_space d.peer_id) d.secret
          (problem_of i key (trim_space d.peer_id) d.secret) acc in
      let turn =
        no_problem key d (problem_of i key (trim_space d.peer_id) d.secret) acc.0 acc.1
          (add_clients-problems (suc i) rest next e) in
      elim (Bool-cases (same key id)) [
        | inl mine ↦
            let is_c : d ≡ c = ground arith in
            (
              i,
              subst (λ x. problem_of i (trim_space x.id) (trim_space x.peer_id) x.secret ≡ none)
                  is_c turn.0,
            )
        | inr other ↦ configured_sound (suc i) rest next id c e (ground arith)
      ]

  pub store_of-inr :
      (acc : Map (StoredClient H) × List Problem) (s : ClientStore H)
      → store_of sum256 acc ≡ inr s
      → (acc.1 ≡ []) × (acc.0 ≡ s.clients)
  store_of-inr ([], []) s e = absurd (ground arith)
  store_of-inr (c ∷ clients, []) s e = (refl, ground arith)
  store_of-inr (clients, p ∷ problems) s e = absurd (ground arith)

pub problem_of-none :
    (j : ℕ) (id peer_id secret : Text)
    → problem_of j id peer_id secret ≡ none
    → (valid_peer_id peer_id ≡ true)
      × (text_len peer_id ≤ max_peer_id_len)
      × (min_secret_len ≤ text_len secret)
problem_of-none j id peer_id secret e = ground arith

-- The answer to a credential, from the list of configurations alone.
abbrev pub answer_for :
    {H : Type 0} → (Text → H) → Discrete H → Text → Option ClientConfig → Option Text
answer_for sum256 digest_dec secret none = none
answer_for sum256 digest_dec secret (some c) =
    if matches sum256 digest_dec (sum256 secret) (sum256 c.secret)
    then some (trim_space c.peer_id)
    else none

-- A store made from configurations answers a credential as the configurations do: it gives the peer
-- of the first one under that client identifier if the secrets have the same digest, and otherwise
-- the one error, the same for an unknown client and a wrong secret.
pub authenticate_lem :
    {H : Type 0} (sum256 : Text → H) (digest_dec : Discrete H) (configs : List ClientConfig)
    (s : ClientStore H) (id secret : Text)
    → new sum256 configs ≡ inr s
    → authenticate sum256 digest_dec id secret s
      ≡ answer_for sum256 digest_dec secret (configured id configs)
unfolding new authenticate lookup
authenticate_lem sum256 digest_dec configs s id secret e =
    let (clean, held) = store_of-inr sum256 (add_clients sum256 0 configs ([], [])) s e in
    let found : lookup id s.clients ≡ or_stored sum256 none (configured id configs) =
      sym (ap (lookup id) held) ∙ add_clients-lookup sum256 0 configs ([], []) id clean in
    elim (Option-cases (configured id configs)) [
      | inl g ↦
          let absent : lookup id s.clients ≡ none = found ∙ ap (or_stored sum256 none) g in
          rw (absent, g) refl
      | inr (c, g) ↦
          let present : lookup id s.clients ≡ some (stored sum256 c) =
            found ∙ ap (or_stored sum256 none) g in
          rw (present, g) refl
    ]

-- A credential that a store made from configurations accepts is one of a configured client, with a
-- secret of its digest and of at least the least length; and the peer that it gives has only
-- characters that survive a token and a relay username, at least one and at most the bound of bytes.
pub authenticate_sound :
    {H : Type 0} (sum256 : Text → H) (digest_dec : Discrete H) (configs : List ClientConfig)
    (s : ClientStore H) (id secret peer : Text)
    → new sum256 configs ≡ inr s
    → authenticate sum256 digest_dec id secret s ≡ some peer
    → ((c : ClientConfig) × (configured id configs ≡ some c)
        × (sum256 secret ≡ sum256 c.secret)
        × (min_secret_len ≤ text_len c.secret)
        × (peer ≡ trim_space c.peer_id))
      × (valid_peer_id peer ≡ true)
      × (text_len peer ≤ max_peer_id_len)
unfolding new
authenticate_sound sum256 digest_dec configs s id secret peer e f =
    let (clean, held) = store_of-inr sum256 (add_clients sum256 0 configs ([], [])) s e in
    let answer : answer_for sum256 digest_dec secret (configured id configs) ≡ some peer =
      sym (authenticate_lem sum256 digest_dec configs s id secret e) ∙ f in
    elim (Option-cases (configured id configs)) [
      | inl g ↦ absurd (ground arith)
      | inr (c, g) ↦
          let (j, sound) = configured_sound sum256 0 configs ([], []) id c clean g in
          let (valid, short, long) =
            problem_of-none j (trim_space c.id) (trim_space c.peer_id) c.secret sound in
          elim (digest_dec (sum256 secret) (sum256 c.secret)) [
            | yes q ↦
                let is_peer : peer ≡ trim_space c.peer_id = ground arith in
                ((c, g, q, long, is_peer), ground arith, ground arith)
            | no q ↦ absurd (ground arith)
          ]
    ]
