-- ===== src/AuthClient/Pinning.antt =====
-- What a client of internal/authclient/client.go pins before it sends a credential.
use dc_streaming_p2p.Base.{
  ℕ, Bool, true, false, ◌||◌, Option, none, some, List, [], ◌∷◌, ◌++◌, Text, length, ◌⊎◌, inl, inr,
  ◌≡◌, refl, sym, ap, ◌∙◌, arith, Bool-cases, Option-cases, subst,
}
use dc_streaming_p2p.Base.Strings.{codes, same, same-true}
use dc_streaming_p2p.AuthClient.{
  Client, Token, Key, Error, Reply, unbuilt, unreached, replied, Request, asks_keys, posts,
  public_key_size, new, new_at, sent, jwks_path, matching, key_of, find_key, fetch_key, pin,
  verify_unless, verify_server_key, post_if, authenticate,
}

-- A call of a client, with what the server replies.
pub data Call : Type 0 where
  verifies : Reply (List Key) → Call
  authenticates : Text → Text → Reply (List Key) → Reply Token → Call

abbrev pub posted : List Request → Bool
posted [] = false
posted (asks_keys url ∷ more) = posted more
posted (posts url id secret ∷ more) = true

posted-append : (a b : List Request) → posted (a ++ b) ≡ posted a || posted b
posted-append [] b = refl
posted-append (asks_keys url ∷ a) b = posted-append a b
posted-append (posts url id secret ∷ a) b = refl

module _ (decode_base64 : Text → Option (List ℕ)) where
  abbrev pub call : Call → Client → Client × List Request
  call (verifies keys) c =
      let (c', requests, e) = verify_server_key decode_base64 keys c in (c', requests)
  call (authenticates id secret keys reply) c =
      let (c', requests, result) = authenticate decode_base64 id secret keys reply c in
      (c', requests)

  -- Calls one after the other, and all the requests that they send.
  unfoldable pub calls : List Call → Client → Client × List Request
  calls [] c = (c, [])
  calls (one ∷ more) c =
      let (c', requests) = call one c in
      let (c'', later) = calls more c' in (c'', requests ++ later)

  -- A key set with the expected key in it, and a reply that is one.
  abbrev pub Holds : List ℕ → List Key → Type 0
  Holds expected [] = ⊥
  Holds expected (k ∷ keys) =
      ((k.kty ≡ codes "OKP") × (k.crv ≡ codes "Ed25519") × (decode_base64 k.x ≡ some expected))
      ⊎ Holds expected keys

  abbrev pub Published : List ℕ → Reply (List Key) → Type 0
  Published expected reply =
      (keys : List Key) × (reply ≡ replied 200 (some keys)) × Holds expected keys

  abbrev pub keys_of : Call → Reply (List Key)
  keys_of (verifies keys) = keys
  keys_of (authenticates id secret keys reply) = keys

  abbrev pub PublishedIn : List ℕ → List Call → Type 0
  PublishedIn expected [] = ⊥
  PublishedIn expected (one ∷ more) = Published expected (keys_of one) ⊎ PublishedIn expected more

  matching-some :
      (expected found : List ℕ) (o : Option (List ℕ))
      → matching decode_base64 expected o ≡ some found
      → (o ≡ some expected) × (found ≡ expected)
  matching-some expected found none e = absurd (ground arith)
  matching-some expected found (some decoded) e = elim (Bool-cases (same decoded expected)) [
    | inl alike ↦
        let same_key = same-true decoded expected alike in
        let given : decoded ≡ found = ground arith in (ap some same_key, sym given ∙ same_key)
    | inr other ↦ absurd (ground arith)
  ]

  key_of-some :
      (expected found : List ℕ) (k : Key)
      → key_of decode_base64 expected k ≡ some found
      → ((k.kty ≡ codes "OKP") × (k.crv ≡ codes "Ed25519") × (decode_base64 k.x ≡ some expected))
        × (found ≡ expected)
  key_of-some expected found k e =
      let kind : same k.kty (codes "OKP") ≡ true = ground arith in
      let curve : same k.crv (codes "Ed25519") ≡ true = ground arith in
      let (decoded, alike) =
        matching-some expected found (decode_base64 k.x) (rw (kind, curve) at e) in
      (
        (same-true k.kty (codes "OKP") kind, same-true k.crv (codes "Ed25519") curve, decoded),
        alike,
      )

  find_key-Holds :
      (expected found : List ℕ) (keys : List Key)
      → find_key decode_base64 expected keys ≡ inr found
      → Holds expected keys × (found ≡ expected)
  find_key-Holds expected found [] e = absurd (ground arith)
  find_key-Holds expected found (k ∷ keys) e =
      elim (Option-cases (key_of decode_base64 expected k)) [
        | inl other ↦
            let (held, alike) = find_key-Holds expected found keys (rw other at e) in
            (inr held, alike)
        | inr (key, taken) ↦
            let (right, alike) = key_of-some expected key k taken in
            let given : key ≡ found = ground arith in (inl right, sym given ∙ alike)
      ]

  fetch_key-Published :
      (expected found : List ℕ) (reply : Reply (List Key))
      → fetch_key decode_base64 expected reply ≡ inr found
      → Published expected reply × (found ≡ expected)
  fetch_key-Published expected found unbuilt e = absurd (ground arith)
  fetch_key-Published expected found unreached e = absurd (ground arith)
  fetch_key-Published expected found (replied status none) e = absurd (ground arith)
  fetch_key-Published expected found (replied status (some keys)) e =
      let ok : status ≡ 200 = ground arith in
      let (held, alike) = find_key-Holds expected found keys (ground arith) in
      ((keys, ap (λ n. replied n (some keys)) ok, held), alike)

  -- How a client without a pinned key comes out of fetching one.
  abbrev Fetched : Client → Reply (List Key) → Client × List Request × Option Error → Type 0
  Fetched c reply (c', requests, none) =
      Published c.expected reply
      × (c' ≡ record c { pinned = some c.expected })
      × (posted requests ≡ false)
  Fetched c reply (c', requests, some e) = (c' ≡ c) × (posted requests ≡ false)

  posted-asks_keys :
      (url : Text) (reply : Reply (List Key)) → posted (sent (asks_keys url) reply) ≡ false
  posted-asks_keys url unbuilt = refl
  posted-asks_keys url unreached = refl
  posted-asks_keys url (replied status body) = refl

  fetched :
      (c : Client) (reply : Reply (List Key)) (requests : List Request) (r : Error ⊎ List ℕ)
      → fetch_key decode_base64 c.expected reply ≡ r
      → posted requests ≡ false
      → Fetched c reply ((pin decode_base64 c r).0, requests, (pin decode_base64 c r).1)
  fetched c reply requests (inl e) f none_posted = (refl, none_posted)
  fetched c reply requests (inr key) f none_posted =
      let (published, alike) = fetch_key-Published c.expected key reply f in
      (published, ap (λ k. record c { pinned = some k }) alike, none_posted)

  verify_server_key-Fetched :
      (c : Client) (reply : Reply (List Key))
      → c.pinned ≡ none
      → Fetched c reply (verify_server_key decode_base64 reply c)
  unfolding verify_server_key
  verify_server_key-Fetched c reply unpinned =
      subst (λ o. Fetched c reply (verify_unless decode_base64 o reply c)) (sym unpinned)
        (fetched c reply (sent (asks_keys (c.base_url ++ jwks_path)) reply)
          (fetch_key decode_base64 c.expected reply) refl
          (posted-asks_keys (c.base_url ++ jwks_path) reply))

  -- How it comes out of a call.
  abbrev Called : Client → Call → Client × List Request → Type 0
  Called c one (c', requests) =
      (Published c.expected (keys_of one) × (c' ≡ record c { pinned = some c.expected }))
      ⊎ ((c' ≡ c) × (posted requests ≡ false))

  verified-Called :
      (c : Client) (keys : Reply (List Key)) (r : Client × List Request × Option Error)
      → Fetched c keys r
      → Called c (verifies keys) (r.0, r.1)
  verified-Called c keys (c', requests, none) (published, pinned, none_posted) =
      inl (published, pinned)
  verified-Called c keys (c', requests, some e) (same_client, none_posted) =
      inr (same_client, none_posted)

  posted-Called :
      (c : Client) (id secret : Text) (keys : Reply (List Key)) (reply : Reply Token)
      (r : Client × List Request × Option Error)
      → Fetched c keys r
      → Called c
          (authenticates id secret keys reply)
          ((post_if decode_base64 id secret reply r).0, (post_if decode_base64 id secret reply r).1)
  posted-Called c id secret keys reply (c', requests, none) (published, pinned, none_posted) =
      inl (published, pinned)
  posted-Called c id secret keys reply (c', requests, some e) (same_client, none_posted) =
      inr (same_client, none_posted)

  call-Called : (c : Client) (one : Call) → c.pinned ≡ none → Called c one (call one c)
  unfolding authenticate
  call-Called c (verifies keys) unpinned =
      verified-Called c keys (verify_server_key decode_base64 keys c)
        (verify_server_key-Fetched c keys unpinned)
  call-Called c (authenticates id secret keys reply) unpinned =
      posted-Called c id secret keys reply (verify_server_key decode_base64 keys c)
        (verify_server_key-Fetched c keys unpinned)

  -- A client that has pinned a key stays as it is.
  call-pinned : (c : Client) (key : List ℕ) (one : Call) → c.pinned ≡ some key → (call one c).0 ≡ c
  unfolding authenticate verify_server_key
  call-pinned c key (verifies keys) pinned = rw pinned refl
  call-pinned c key (authenticates id secret keys reply) pinned = rw pinned refl

  calls-pinned :
      (c : Client) (key : List ℕ) (cs : List Call) → c.pinned ≡ some key → (calls cs c).0 ≡ c
  unfolding calls
  calls-pinned c key [] pinned = refl
  calls-pinned c key (one ∷ more) pinned =
      let stays = call-pinned c key one pinned in
      ap (λ d. (calls more d).0) stays ∙ calls-pinned c key more pinned

  calls-Published :
      (c : Client) (cs : List Call)
      → c.pinned ≡ none
      → posted (calls cs c).1 ≡ true
      → PublishedIn c.expected cs × ((calls cs c).0.pinned ≡ some c.expected)
  unfolding calls
  calls-Published c [] unpinned some_posted = absurd (ground arith)
  calls-Published c (one ∷ more) unpinned some_posted = elim (call-Called c one unpinned) [
    | inl (published, pinned) ↦
        let there : (call one c).0.pinned ≡ some c.expected = ap (λ d. d.pinned) pinned in
        (
          inl published,
          ap (λ d. d.pinned) (calls-pinned (call one c).0 c.expected more there) ∙ there,
        )
    | inr (same_client, none_posted) ↦
        let later : posted (calls more (call one c).0).1 ≡ true =
          rw (posted-append (call one c).1 (calls more (call one c).0).1, none_posted) at
            some_posted in
        let (published, pinned) = calls-Published c more unpinned (rw same_client at later) in
        (inr published, ap (λ d. (calls more d).0.pinned) same_client ∙ pinned)
  ]

new_at-made :
    (url : Text) (expected : List ℕ) (insecure : Bool) (o : Option (Text × Text)) (c : Client)
    → new_at url expected insecure o ≡ inr c
    → (c ≡ record { base_url = url; expected = expected; allow_insecure = insecure; pinned = none })
      × (length expected ≡ public_key_size)
new_at-made url expected insecure none c e = absurd (ground arith)
new_at-made url expected insecure (some (scheme, host)) c e = (sym (ground arith), ground arith)

-- What a client that was made is like.
pub new-made :
    (parse_url : Text → Option (Text × Text)) (url : Text) (expected : List ℕ) (insecure : Bool)
    (c : Client)
    → new parse_url url expected insecure ≡ inr c
    → (c.expected ≡ expected) × (c.pinned ≡ none) × (length expected ≡ public_key_size)
unfolding new
new-made parse_url url expected insecure c e =
    let (made, long) = new_at-made _ _ _ _ c e in
    (ap (λ (d : Client). d.expected) made, ap (λ (d : Client). d.pinned) made, long)

-- A client is called any number of times, whatever the server replies. If a credential is sent in such a
-- history, then one of the replies in it was a key set with the key that the client was made with among
-- its Ed25519 keys, and that key is pinned at its end.
pub posted-PublishedIn :
    (decode_base64 : Text → Option (List ℕ)) (parse_url : Text → Option (Text × Text)) (url : Text)
    (expected : List ℕ) (insecure : Bool) (c : Client) (cs : List Call)
    → new parse_url url expected insecure ≡ inr c
    → posted (calls decode_base64 cs c).1 ≡ true
    → PublishedIn decode_base64 expected cs × ((calls decode_base64 cs c).0.pinned ≡ some expected)
posted-PublishedIn decode_base64 parse_url url expected insecure c cs made some_posted =
    let (same_key, unpinned, _) = new-made parse_url url expected insecure c made in
    let (published, pinned) = calls-Published decode_base64 c cs unpinned some_posted in
    (subst (λ key. PublishedIn decode_base64 key cs) same_key published, pinned ∙ ap some same_key)
