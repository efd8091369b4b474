-- ===== src/Transport/Offers.antt =====
-- The subprotocols that `tokenFromSubprotocols` of internal/transport/signal.go reads, and the channel
-- that `Signal` opens with a token of `Auth`.
use dc_streaming_p2p.Base.{
  ℕ, Bool, true, false, ◌&&◌, not, Option, none, some, List, [], ◌∷◌, ◌++◌, Text, map,
  if◌then◌else◌, ltb, ◌≡◌, refl, ap, ◌∙◌, arith, inr,
}
use dc_streaming_p2p.Base.Int.{ℤ}
use dc_streaming_p2p.Base.Strings.{split_at, is_empty, trim_space, has_char, is_space}
use dc_streaming_p2p.Base.Trim.{no_spaces, trim_space-no_spaces}
use dc_streaming_p2p.Base.Split.{joined, all_plain, split_at-entries}
use dc_streaming_p2p.Auth.Limiter.{Limiter}
use dc_streaming_p2p.Auth.Tokens.{Jwt, Issuer, new_token_issuer, new_token_verifier, public_key}
use dc_streaming_p2p.Auth.Tokens.Laws.{Lawful}
use dc_streaming_p2p.Signaling.Hub.{Hub, register}
use dc_streaming_p2p.Transport.Http
use dc_streaming_p2p.Transport.Http.{answered}
use dc_streaming_p2p.Transport.Login.{Verdict, names, expired_token, TokenResponse, auth_handler}
use dc_streaming_p2p.Transport.Access.{issuing, verifying, answered_token}
use dc_streaming_p2p.Transport.Signal.{
  subprotocol, token_prefix, cut_prefix, if_some_text, first_of, token_among,
  token_from_subprotocols, refused, opened, open_channel,
}

-- A subprotocol that can be offered: an HTTP token has no spaces and no commas.
abbrev pub all_offers : List Text → Bool
all_offers [] = true
all_offers (e ∷ es) = (no_spaces e && not (has_char b',' e)) && all_offers es

-- The token that the first of the offers with the prefix, and with something after it, carries.
abbrev pub first_token : List Text → Option Text
first_token [] = none
first_token (e ∷ es) = first_of (if_some_text (cut_prefix token_prefix e)) (first_token es)

token_among-map : (parts : List Text) → token_among parts ≡ first_token (map trim_space parts)
token_among-map [] = refl
token_among-map (part ∷ parts) =
    ap (first_of (if_some_text (cut_prefix token_prefix (trim_space part)))) (token_among-map parts)

all_offers-first :
    (e : Text) (es : List Text)
    → all_offers (e ∷ es) ≡ true
    → (no_spaces e ≡ true) × (has_char b',' e ≡ false) × (all_offers es ≡ true)
all_offers-first e es h = ground arith

map-trim_space : (es : List Text) → all_offers es ≡ true → map trim_space es ≡ es
map-trim_space [] h = refl
map-trim_space (e ∷ es) h =
    let (solid, plain, others) = all_offers-first e es h in
    rw (trim_space-no_spaces e solid, map-trim_space es others) refl

all_offers-plain : (es : List Text) → all_offers es ≡ true → all_plain b',' es ≡ true
all_offers-plain [] h = refl
all_offers-plain (e ∷ es) h = ground (arith, all_offers-plain es)

first_of-none : (o : Option Text) → first_of o none ≡ o
first_of-none none = refl
first_of-none (some token) = refl

-- The token is that of the first offer that carries one, however the list of the offers is written in
-- the header.
pub token_from_subprotocols_lem :
    (e : Text) (es : List Text)
    → all_offers (e ∷ es) ≡ true
    → token_from_subprotocols (joined (e ∷ es) ∷ []) ≡ first_token (e ∷ es)
unfolding token_from_subprotocols
token_from_subprotocols_lem e es h =
    let (solid, plain, others) = all_offers-first e es h in
    first_of-none (token_among (split_at b',' (joined (e ∷ es))))
    ∙ token_among-map (split_at b',' (joined (e ∷ es)))
    ∙ ap first_token (split_at-entries e es plain (all_offers-plain es others))
    ∙ ap first_token (map-trim_space (e ∷ es) h)

-- What a browser offers with a token.
abbrev pub offers : Text → List Text
offers token = subprotocol ∷ (token_prefix ++ token) ∷ []

offers-all_offers :
    (token : Text)
    → no_spaces token ≡ true
    → has_char b',' token ≡ false
    → all_offers (offers token) ≡ true
unfolding is_space
offers-all_offers token solid plain = ground arith

first_token-offers :
    (token : Text) → is_empty token ≡ false → first_token (offers token) ≡ some token
first_token-offers [] given = absurd (ground arith)
first_token-offers (c ∷ token) given = refl

module _ (jwt : Jwt) (laws : Lawful jwt) where
  opened_if :
      (verify : Text → Verdict) (headers : List Text) (conn now : ℕ) (h : Hub) (raw peer : Text)
      (early : Bool)
      → token_from_subprotocols headers ≡ some raw
      → verify raw ≡ (if early then names peer else expired_token)
      → open_channel verify headers true conn now h ≡ (
          if early
          then ((register peer conn now h).0, (register peer conn now h).1, opened peer)
          else (h, [], refused 401 Http.token_expired))
  unfolding open_channel
  opened_if verify headers conn now h raw peer true found e = rw (found, e) refl
  opened_if verify headers conn now h raw peer false found e = rw (found, e) refl

  -- A browser that offers the token of an answer of `Auth` as a subprotocol, and whose upgrade succeeds,
  -- is on the signaling hub as the peer of the credential that the token was given for, until the token's
  -- date; from then on it is told that the token expired, and the hub is left as it is.
  pub open_channel-auth_handler :
      (key : List ℕ) (name : Text) (ttl : ℤ) (i : Issuer) (authenticate : Text → Text → Option Text)
      (l l' : Limiter) (t : TokenResponse) (id client secret : Text) (now at conn : ℕ) (h : Hub)
      → new_token_issuer key name ttl ≡ inr i
      → auth_handler authenticate (issuing jwt i (some id) now) (some (client, secret)) now l
        ≡ some (l', answered 200 t)
      → ((peer : Text) × (authenticate (trim_space client) secret ≡ some peer)
          × (t.peer_id ≡ trim_space peer))
        × (open_channel
              (verifying jwt (new_token_verifier (public_key jwt i) name) at)
              (joined (offers t.token) ∷ [])
              true
              conn
              at
              h
            ≡ (if ltb at (jwt.numeric_date t.expires_at)
                then (
                  (register t.peer_id conn at h).0,
                  (register t.peer_id conn at h).1,
                  opened t.peer_id,
                )
                else (h, [], refused 401 Http.token_expired)))
  open_channel-auth_handler key name ttl i authenticate l l' t id client secret now at conn h made
        e =
      let (solid, plain, given, _, for_peer, verified) =
        answered_token jwt laws key name ttl i authenticate l l' t id client secret now at made e in
      let found =
        token_from_subprotocols_lem subprotocol ((token_prefix ++ t.token) ∷ [])
          (offers-all_offers t.token solid plain)
        ∙ first_token-offers t.token given in
      (
        for_peer,
        opened_if (verifying jwt (new_token_verifier (public_key jwt i) name) at)
            (joined (offers t.token) ∷ []) conn at h t.token t.peer_id
            (ltb at (jwt.numeric_date t.expires_at)) found verified,
      )
