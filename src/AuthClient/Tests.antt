-- ===== src/AuthClient/Tests.antt =====
-- A client of the server whose tokens Auth/Tokens/Tests.antt issues, over a base64 that changes nothing.
use dc_streaming_p2p.Base.{
  ℕ, List, [], ◌∷◌, ◌++◌, Text, Option, some, none, true, false, inr, inl, ◌≡◌, ◌≤◌, arith, refl,
  text_dec, ℕ_discrete, if◌then◌else◌, ltb,
}
use dc_streaming_p2p.Base.Int
use dc_streaming_p2p.Base.Strings.{codes, cut_at, trim_space, text_len}
use dc_streaming_p2p.Auth.Limiter
use dc_streaming_p2p.Auth.Tokens.{new_token_verifier, public_key}
use dc_streaming_p2p.Auth.Tokens.Sample.{sample, sample-Lawful}
use dc_streaming_p2p.Auth.Tokens.Tests as Signed
use dc_streaming_p2p.Transport.Http
use dc_streaming_p2p.Transport.Login.{TokenResponse, auth_handler}
use dc_streaming_p2p.Transport.Access.{issuing, guard}
use dc_streaming_p2p.Transport.Keys.{jwks}
use dc_streaming_p2p.AuthClient.{
  Client, Token, Key, Error, Reply, unreached, replied, new, authenticate,
}
use dc_streaming_p2p.AuthClient.Pinning.{
  Call, verifies, authenticates, posted, calls, PublishedIn, posted-PublishedIn,
}
use dc_streaming_p2p.AuthClient.Server.{keys_reply, token_reply, outcome, authenticate-outcome}
use dc_streaming_p2p.Transport.Welcome.{MayTry}
use dc_streaming_p2p.AuthClient.Credentials.{authenticate-guard}
use dc_streaming_p2p.Auth.Clients
use dc_streaming_p2p.Auth.Clients.{ClientConfig, ClientStore, dummy_text}
use dc_streaming_p2p.Auth.Clients.Lookup.{configured}
use dc_streaming_p2p.Auth.Tokens.Laws.{Signs}
use dc_streaming_p2p.Base.Map.{lookup, insert}

abbrev decode : Text → Option (List ℕ)
decode text = some text

abbrev encode : List ℕ → Text
encode bytes = bytes

abbrev digest : List ℕ → List ℕ
digest bytes = bytes

abbrev parts : Text → Option (Text × Text)
parts url = cut_at b':' url

abbrev url : Text
url = codes " https://central/ "

abbrev expected : List ℕ
expected = public_key sample Signed.issuer

abbrev client : Client
client = record {
  base_url = codes "https://central";
  expected = expected;
  allow_insecure = false;
  pinned = none;
}

client-made : new parts url expected false ≡ inr client
unfolding new trim_space sample text_dec ℕ_discrete
client-made = refl

abbrev published : Reply (List Key)
published = keys_reply (jwks encode digest expected)

abbrev history : List Call
history = verifies unreached ∷ authenticates (codes "id") (codes "secret") published unreached ∷ []

history-posted : posted (calls decode history client).1 ≡ true
unfolding calls dc_streaming_p2p.AuthClient.verify_server_key authenticate text_dec ℕ_discrete
    sample
history-posted = refl

posted-PublishedIn_example :
    PublishedIn decode expected history × ((calls decode history client).0.pinned ≡ some expected)
posted-PublishedIn_example =
    posted-PublishedIn decode parts url expected false client history client-made history-posted

-- The keys of somebody else.
abbrev another : List ℕ
another = Signed.bytes 32

authenticate-outcome_example :
    authenticate decode
      (codes "id")
      (codes "secret")
      (keys_reply (jwks encode digest another))
      unreached
      client
    ≡ outcome encode digest decode
        (λ bytes. refl)
        (codes "id")
        (codes "secret")
        unreached
        client
        false
unfolding text_dec ℕ_discrete sample
authenticate-outcome_example =
    authenticate-outcome encode digest decode (λ bytes. refl) parts url expected another false
      client (codes "id") (codes "secret") unreached client-made refl

abbrev listed : ClientConfig
listed = record { id = codes " id"; peer_id = codes "ann"; secret = dummy_text }

abbrev clients : ClientStore Text
clients = record {
  clients = (codes "id", record { peer_id = codes "ann"; secret_hash = dummy_text }) ∷ [];
  dummy = dummy_text;
}

same_text : Text → Text
same_text t = t

abbrev limiter : Limiter.Limiter
limiter = record {
  allowance = 3;
  window = 60;
  failures = (codes "id", record { count = 2; started_at = 0 }) ∷ [];
  order = codes "id" ∷ [];
  last_sweep = 0;
}

clients-made : Clients.new same_text (listed ∷ []) ≡ inr clients
unfolding Clients.new trim_space text_len lookup insert same_text
clients-made = refl

id-configured : configured (trim_space (codes "id ")) (listed ∷ []) ≡ some listed
unfolding trim_space text_dec ℕ_discrete
id-configured = refl

id-short : text_len (trim_space (codes "id ")) ≤ 128
unfolding trim_space text_len
id-short = omega arith

id-MayTry : MayTry (trim_space (codes "id ")) Signed.now limiter
unfolding trim_space lookup text_dec ℕ_discrete
id-MayTry = inr (record { count = 2; started_at = 0 }, refl, inl (omega arith))

sample-Signs : Signs sample
unfolding sample
sample-Signs key c long = (_, refl)

abbrev greet : Text → Http.Response Text
greet peer = Http.answered 200 peer

authenticate-guard_example :
    (t : TokenResponse) × (auth_handler
        (λ client secret. Clients.authenticate same_text text_dec client secret clients)
        (issuing sample Signed.issuer (some Signed.id) Signed.now)
        (some (codes "id ", dummy_text))
        Signed.now
        limiter
      ≡ some (Limiter.succeeded (trim_space (codes "id ")) limiter, Http.answered 200 t))
    × ((token : Token) × ((authenticate decode
            (codes "id ")
            dummy_text
            published
            (token_reply (Http.answered 200 t))
            client).2
          ≡ inr token)
        × (token.peer_id ≡ trim_space (codes "ann"))
        × (guard sample
              (new_token_verifier expected (codes " central "))
              5500000000
              greet
              (codes "Bearer " ++ token.value)
            ≡ (if ltb 5500000000 (sample.numeric_date token.expires_at)
                then greet token.peer_id
                else Http.token_refused 401 Http.token_expired)))
authenticate-guard_example =
    authenticate-guard encode digest decode (λ bytes. refl) sample same_text text_dec (listed ∷ [])
      clients listed Signed.key (codes " central ") (Int.pos 5000000000) Signed.issuer parts url
      false client limiter Signed.id (codes "id ") Signed.now 5500000000 greet sample-Lawful
      sample-Signs clients-made id-configured id-short id-MayTry Signed.issuer-made client-made
