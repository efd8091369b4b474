-- ===== src/Auth/Tokens/Issued.antt =====
-- Tokens that `Issue` makes, and what `Verify` of internal/auth/token.go says of them.
use dc_streaming_p2p.Base.{
  ℕ, ◌+◌, Bool, true, false, Option, none, some, List, Text, length, inl, inr, ◌≡◌, ◌≤◌, ◌<◌, refl,
  sym, ap, ◌∙◌, arith, Bool-cases, subst, zero, suc, if◌then◌else◌, ltb,
}
use dc_streaming_p2p.Base.Int.{ℤ, pos, negsuc, is_positive, pos_part}
use dc_streaming_p2p.Base.Strings.{is_empty, trim_space}
use dc_streaming_p2p.Base.Trim.{trim_space-trim_space}
use dc_streaming_p2p.Auth.Tokens.{
  Jwt, expired, Token, Issuer, new_token_issuer, new_token_verifier, public_key, registered, issue,
  verify, private_key_size, public_key_size, accepted, too_late, claims_of, token_of,
}
use dc_streaming_p2p.Auth.Tokens.Laws.{Lawful, second}

pos_part-lt : (n : ℤ) → is_positive n ≡ true → 0 < pos_part n
pos_part-lt (pos zero) h = absurd (ground arith)
pos_part-lt (pos (suc n)) h = omega arith
pos_part-lt (negsuc n) h = absurd (ground arith)

-- What an issuer that was made is like.
pub made_issuer :
    (key : List ℕ) (name : Text) (ttl : ℤ) (i : Issuer)
    → new_token_issuer key name ttl ≡ inr i
    → (i.key ≡ key) × (i.issuer ≡ trim_space name) × (length key ≡ private_key_size) × (0 < i.ttl)
unfolding new_token_issuer
made_issuer key name ttl i made =
    let length_ok : length key ≡ private_key_size = ground arith in
    let named : is_empty (trim_space name) ≡ false = ground arith in
    let positive : is_positive ttl ≡ true = ground arith in
    let same_issuer : record { key = key; issuer = trim_space name; ttl = pos_part ttl } ≡ i =
      ground arith in
    (
      ap (λ j. j.key) (sym same_issuer),
      ap (λ j. j.issuer) (sym same_issuer),
      length_ok,
      subst (λ j. 0 < j.ttl) same_issuer (pos_part-lt ttl positive),
    )

token_of-some :
    (peer : Text) (until : ℕ) (value : Option Text) (t : Token)
    → token_of peer until value ≡ inr t
    → (value ≡ some t.value) × (t.peer_id ≡ peer) × (t.expires_at ≡ until)
token_of-some peer until none t e = absurd (ground arith)
token_of-some peer until (some value) t e =
    let same_token : record { value = value; peer_id = peer; expires_at = until } ≡ t =
      ground arith in
    (
      ap (λ u. some u.value) same_token,
      ap (λ u. u.peer_id) (sym same_token),
      ap (λ u. u.expires_at) (sym same_token),
    )

module _ (jwt : Jwt) (laws : Lawful jwt) where
  -- The peer of a token that was issued, and the text that was signed for it.
  pub issued :
      (i : Issuer) (peer id : Text) (now : ℕ) (t : Token)
      → issue jwt i peer (some id) now ≡ inr t
      → (is_empty (trim_space peer) ≡ false)
        × (jwt.signed i.key (registered jwt i (trim_space peer) id now) ≡ some t.value)
        × (t.peer_id ≡ trim_space peer)
        × (t.expires_at ≡ now + i.ttl)
  unfolding issue
  issued i peer id now t e =
      let given : is_empty (trim_space peer) ≡ false = ground arith in
      let (value, same_peer, until) =
        token_of-some (trim_space peer) (now + i.ttl)
          (jwt.signed i.key (registered jwt i (trim_space peer) id now)) t (rw given at e) in
      (given, value, same_peer, until)

  verify-parse :
      (key : List ℕ) (name raw : Text) (at : ℕ)
      → length key ≡ public_key_size
      → verify jwt (new_token_verifier key name) at raw
        ≡ claims_of (jwt.parse key (trim_space name) at raw)
  unfolding verify
  verify-parse key name raw at long = ground arith

  claims_of-registered :
      (i : Issuer) (peer id : Text) (now : ℕ)
      → is_empty (trim_space peer) ≡ false
      → claims_of (accepted (registered jwt i (trim_space peer) id now))
        ≡ inr (record {
          peer_id = trim_space peer;
          id = id;
          expires_at = jwt.numeric_date (now + i.ttl);
        })
  claims_of-registered i peer id now given =
      let still_given : is_empty (trim_space (trim_space peer)) ≡ false =
        ap is_empty (trim_space-trim_space peer) ∙ given in
      ground arith

  parse_issued :
      (i : Issuer) (peer name id raw : Text) (now at : ℕ)
      → i.issuer ≡ trim_space name
      → jwt.signed i.key (registered jwt i peer id now) ≡ some raw
      → jwt.parse (public_key jwt i) (trim_space name) at raw ≡ (
          if ltb at (jwt.numeric_date (now + i.ttl))
          then accepted (registered jwt i peer id now)
          else too_late)
  parse_issued i peer name id raw now at same_name value =
      let until = jwt.numeric_date (now + i.ttl) in
      let made = registered jwt i peer id now in
      elim (Bool-cases (ltb at until)) [
        | inl early ↦
            rw (sym same_name, early)
              (laws.parse_signed i.key made raw until at value refl (ground arith))
        | inr late ↦
            rw (sym same_name, late)
              (laws.parse_late i.key made raw until at value refl (ground arith))
      ]

  claims_at :
      (i : Issuer) (peer id : Text) (now : ℕ) (early : Bool)
      → is_empty (trim_space peer) ≡ false
      → claims_of (if early then accepted (registered jwt i (trim_space peer) id now) else too_late)
        ≡ (if early
            then inr (record {
              peer_id = trim_space peer;
              id = id;
              expires_at = jwt.numeric_date (now + i.ttl);
            })
            else inl expired)
  claims_at i peer id now true given = claims_of-registered i peer id now given
  claims_at i peer id now false given = refl

  -- Until the date in it a token is verified as the peer it was issued for, and from then on it is
  -- refused as expired. That date is the announced moment, cut to the second.
  pub verify-issue :
      (key : List ℕ) (name : Text) (ttl : ℤ) (i : Issuer) (peer id : Text) (now at : ℕ) (t : Token)
      → new_token_issuer key name ttl ≡ inr i
      → issue jwt i peer (some id) now ≡ inr t
      → (t.peer_id ≡ trim_space peer)
        × (jwt.numeric_date t.expires_at ≤ t.expires_at)
        × (t.expires_at < jwt.numeric_date t.expires_at + second)
        × (verify jwt (new_token_verifier (public_key jwt i) name) at t.value ≡ (
            if ltb at (jwt.numeric_date t.expires_at)
            then inr (record {
              peer_id = t.peer_id;
              id = id;
              expires_at = jwt.numeric_date t.expires_at;
            })
            else inl expired))
  verify-issue key name ttl i peer id now at t made e =
      let (same_key, same_name, long, lasting) = made_issuer key name ttl i made in
      let (given, value, same_peer, until) = issued i peer id now t e in
      let verified =
        verify-parse (public_key jwt i) name t.value at (
          laws.public_length i.key
            (subst (λ k. length k ≡ private_key_size) (sym same_key) long)) in
      (
        same_peer,
        laws.date_before t.expires_at,
        laws.date_close t.expires_at,
        rw (until, same_peer)
            (verified
              ∙ ap claims_of
                  (parse_issued i (trim_space peer) name id t.value now at same_name value)
              ∙ claims_at i peer id now (ltb at (jwt.numeric_date (now + i.ttl))) given),
      )
