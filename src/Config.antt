-- ===== src/Config.antt =====
-- internal/config/config.go: the settings of one process, read from the environment and checked. What
-- it calls of other packages is a record of functions.
pub mod Load
pub mod Lists
pub mod Checked
pub mod Tests
use dc_streaming_p2p.Base.{
  ℕ, zero, suc, Bool, true, false, not, ◌&&◌, Option, none, some, List, [], ◌∷◌, ◌++◌, Text,
  if◌then◌else◌, ltb, leb, length, ◌==◌, is_nil, is_some, ◌⊎◌,
}
use dc_streaming_p2p.Base.Int.{ℤ}
use dc_streaming_p2p.Base.Strings.{codes, same, equal_fold, is_empty, trim_space, split_at}
use dc_streaming_p2p.Auth.Clients
use dc_streaming_p2p.Auth.Clients.{ClientConfig}

-- The parts of a `url.URL` that are read: `Scheme`, `Opaque` and `Hostname()`.
pub record Url : Type 0 where
  pub scheme : Text
  pub opaque : Text
  pub hostname : Text

-- The environment, the file system and the libraries that `Load` reads with; `none` is an error. A
-- private key and a seed are their bytes.
pub record Outside : Type 0 where
  pub getenv : Text → Text
  pub read_file : Text → Option Text
  pub parse_duration : Text → Option ℤ
  pub atoi : Text → Option ℤ
  pub split_host_port : Text → Option (Text × Text)
  pub parse_url : Text → Option Url
  pub decode_base64 : Text → Option (List ℕ)
  pub key_from_seed : List ℕ → List ℕ
  pub unmarshal_clients : Text → Option (List ClientConfig)

-- What is wrong with a setting, which is named by its key.
pub data Problem : Type 0 where
  clients_file clients_missing clients_not_json : Problem
  clients_refused : List Clients.Problem → Problem
  key_file key_missing key_not_base64 : Problem
  key_length : ℕ → Problem
  not_a_duration not_whole : Text → Text → Problem
  duration_not_positive : Text → ℤ → Problem
  listen_addr no_usable_key no_origins no_issuer suspect_not_longer offline_not_longer : Problem
  not_a_url wrong_scheme no_host : Text → Text → Problem
  secret_required secret_unused : Problem

-- `Config`. A duration or a number that could not be read is 0.
pub record Config : Type 0 where
  pub listen_addr : Text
  pub shutdown_timeout : ℕ
  pub allowed_origins : List Text
  pub token_signing_key : List ℕ
  pub token_ttl : ℕ
  pub issuer : Text
  pub clients : List ClientConfig
  pub auth_max_failures : ℕ
  pub auth_failure_window : ℕ
  pub heartbeat_interval : ℕ
  pub suspect_after : ℕ
  pub offline_after : ℕ
  pub negotiation_timeout : ℕ
  pub max_peers : ℕ
  pub max_sessions : ℕ
  pub max_sessions_per_peer : ℕ
  pub session_retention : ℕ
  pub expiry_interval : ℕ
  pub serve_demo : Bool
  pub max_signal_message_bytes : ℕ
  pub signal_messages_per_window : ℕ
  pub signal_window : ℕ
  pub stun_urls : List Text
  pub turn_urls : List Text
  pub turn_secret : Text
  pub turn_credential_ttl : ℕ

-- `Prefix`, `AnyOrigin`, `SigningKeySeedLen` and ed25519's `PrivateKeySize`.
abbrev pub prefix : Text
prefix = codes "CENTRAL_"

abbrev pub any_origin : Text
any_origin = codes "*"

abbrev pub signing_key_seed_len : ℕ
signing_key_seed_len = 32

abbrev pub private_key_size : ℕ
private_key_size = 64

-- `splitList`, its loop first.
abbrev pub kept : List Text → List Text
kept [] = []
kept (f ∷ fields) = if is_empty (trim_space f) then kept fields else trim_space f ∷ kept fields

unfoldable pub split_list : Text → List Text
split_list raw = if is_empty (trim_space raw) then [] else kept (split_at b',' raw)

-- `containsFold`, of schemes in lower case.
abbrev pub contains_fold : List Text → Text → Bool
contains_fold [] want = false
contains_fold (v ∷ values) want = if equal_fold want v then true else contains_fold values want

-- One problem, where a test fails.
abbrev pub note : Bool → Problem → List Problem
note wrong problem = if wrong then problem ∷ [] else []

-- The lists of problems of several checks, one after the other.
abbrev pub flat : List (List Problem) → List Problem
flat [] = []
flat (ps ∷ pss) = ps ++ flat pss

-- `AnyOriginAllowed` and `RelayConfigured`
abbrev pub is_any : List Text → Bool
is_any [] = false
is_any (origin ∷ []) = same origin any_origin
is_any (origin ∷ other ∷ more) = false

abbrev pub any_origin_allowed : Config → Bool
any_origin_allowed c = is_any c.allowed_origins

abbrev pub relay_configured : Config → Bool
relay_configured c = not (is_nil c.turn_urls) && not (is_empty c.turn_secret)

module _ (out : Outside) where
  -- `hostOf`
  abbrev pub opaque_host : Text → Option (Text × Text) → Text
  opaque_host opaque none = trim_space opaque
  opaque_host opaque (some (host, port)) = trim_space host

  abbrev pub host_of : Url → Text
  host_of u =
      if not (is_empty u.opaque)
      then opaque_host u.opaque (out.split_host_port u.opaque)
      else trim_space u.hostname

  -- `validateICEURLs`, one entry first.
  abbrev pub url_problems : Text → List Text → Text → Option Url → List Problem
  url_problems key schemes raw none = not_a_url key raw ∷ []
  url_problems key schemes raw (some u) =
      if not (contains_fold schemes u.scheme)
      then wrong_scheme key raw ∷ []
      else note (is_empty (host_of u)) (no_host key raw)

  abbrev pub ice_url_problems : Text → List Text → List Text → List Problem
  ice_url_problems key schemes [] = []
  ice_url_problems key schemes (raw ∷ urls) =
      url_problems key schemes raw (out.parse_url raw) ++ ice_url_problems key schemes urls

  -- `validate`, check by check.
  abbrev pub checks : Config → List (List Problem)
  checks c =
      note (not (is_some (out.split_host_port c.listen_addr))) listen_addr
      ∷ note (not (length c.token_signing_key == private_key_size)) no_usable_key
      ∷ note (is_nil c.allowed_origins) no_origins
      ∷ note (is_empty (trim_space c.issuer)) no_issuer
      ∷ note
          (ltb 0 c.suspect_after
            && ltb 0 c.heartbeat_interval
            && leb c.suspect_after c.heartbeat_interval)
          suspect_not_longer
      ∷ note (ltb 0 c.offline_after && ltb 0 c.suspect_after && leb c.offline_after c.suspect_after)
          offline_not_longer
      ∷ ice_url_problems (codes "STUN_URLS") (codes "stun" ∷ codes "stuns" ∷ []) c.stun_urls
      ∷ ice_url_problems (codes "TURN_URLS") (codes "turn" ∷ codes "turns" ∷ []) c.turn_urls
      ∷ note (not (is_nil c.turn_urls) && is_empty c.turn_secret) secret_required
      ∷ note (is_nil c.turn_urls && not (is_empty c.turn_secret)) secret_unused
      ∷ []

  unfoldable pub validate : Config → List Problem
  validate c = flat (checks c)
