-- ===== src/Config/Load.antt =====
-- `Load` of internal/config/config.go, with the readings of its settings.
use dc_streaming_p2p.Base.{
  ℕ, zero, suc, Option, none, some, List, [], ◌∷◌, ◌++◌, Text, if◌then◌else◌, length, ◌==◌, ◌⊎◌,
  inl, inr,
}
use dc_streaming_p2p.Base.Int.{ℤ, pos, negsuc}
use dc_streaming_p2p.Base.Strings.{codes, same, is_empty, trim_space}
use dc_streaming_p2p.Auth.Clients
use dc_streaming_p2p.Auth.Clients.{ClientConfig, ClientStore}
use dc_streaming_p2p.Config.{
  Outside, Problem, Config, prefix, signing_key_seed_len, split_list, flat, validate, clients_file,
  clients_missing, clients_not_json, clients_refused, key_file, key_missing, key_not_base64,
  key_length, not_a_duration, not_whole, duration_not_positive,
}

-- A value, and the problems that reading it appended.
abbrev pub Noted : Type 0 → Type 0
Noted A = A × List Problem

abbrev pub or_fallback : Text → Text → Text
or_fallback fallback [] = fallback
or_fallback fallback (c ∷ v) = c ∷ v

abbrev pub positive_duration : Text → Text → Option ℤ → Noted ℕ
positive_duration key raw none = (0, not_a_duration key raw ∷ [])
positive_duration key raw (some (pos zero)) = (0, duration_not_positive key (pos zero) ∷ [])
positive_duration key raw (some (pos (suc n))) = (suc n, [])
positive_duration key raw (some (negsuc n)) = (0, duration_not_positive key (negsuc n) ∷ [])

abbrev pub whole_number : Text → Text → Option ℤ → Noted ℕ
whole_number key raw none = (0, not_whole key raw ∷ [])
whole_number key raw (some (pos zero)) = (0, not_whole key raw ∷ [])
whole_number key raw (some (pos (suc n))) = (suc n, [])
whole_number key raw (some (negsuc n)) = (0, not_whole key raw ∷ [])

abbrev pub unless : List Problem → Config → List Problem ⊎ Config
unless [] c = inr c
unless (p ∷ problems) c = inl (p ∷ problems)

module _ (out : Outside) where
  -- `get`

  unfoldable pub setting : Text → Text → Text
  setting key fallback = or_fallback fallback (trim_space (out.getenv (prefix ++ key)))

  -- `duration`

  unfoldable pub duration : Text → Text → Noted ℕ
  duration key fallback =
      positive_duration key (setting key fallback) (out.parse_duration (setting key fallback))

  -- `whole`

  unfoldable pub whole : Text → Text → Noted ℕ
  whole key fallback = whole_number key (setting key fallback) (out.atoi (setting key fallback))

  -- What `loadSigningKey` and `loadClients` read from: a file where one is named, which may fail.
  abbrev pub source_of : Text → Text → Option Text
  source_of inline [] = some inline
  source_of inline (c ∷ path) = out.read_file (c ∷ path)

  -- `loadSigningKey`
  abbrev pub key_of_seed : Option (List ℕ) → Noted (List ℕ)
  key_of_seed none = ([], key_not_base64 ∷ [])
  key_of_seed (some seed) =
      if length seed == signing_key_seed_len
      then (out.key_from_seed seed, [])
      else ([], key_length (length seed) ∷ [])

  abbrev pub key_of_text : Text → Noted (List ℕ)
  key_of_text [] = ([], key_missing ∷ [])
  key_of_text (c ∷ raw) = key_of_seed (out.decode_base64 (c ∷ raw))

  abbrev pub key_of_source : Text → Option Text → Noted (List ℕ)
  key_of_source path none = ([], key_file ∷ [])
  key_of_source [] (some raw) = key_of_text raw
  key_of_source (c ∷ path) (some raw) = key_of_text (trim_space raw)

  unfoldable pub load_signing_key : Text → Text → Noted (List ℕ)
  load_signing_key inline path = key_of_source path (source_of inline path)

  module _ {H : Type 0} (sum256 : Text → H) where
    -- `loadClients`
    abbrev pub clients_if :
        List ClientConfig → List Clients.Problem ⊎ ClientStore H → Noted (List ClientConfig)
    clients_if clients (inl problems) = ([], clients_refused problems ∷ [])
    clients_if clients (inr store) = (clients, [])

    abbrev pub clients_of_json : Option (List ClientConfig) → Noted (List ClientConfig)
    clients_of_json none = ([], clients_not_json ∷ [])
    clients_of_json (some clients) = clients_if clients (Clients.new sum256 clients)

    abbrev pub clients_of_source : Option Text → Noted (List ClientConfig)
    clients_of_source none = ([], clients_file ∷ [])
    clients_of_source (some raw) =
        if is_empty (trim_space raw)
        then ([], clients_missing ∷ [])
        else clients_of_json (out.unmarshal_clients raw)

    unfoldable pub load_clients : Text → Text → Noted (List ClientConfig)
    load_clients inline path = clients_of_source (source_of inline path)

    abbrev pub clients_setting : Noted (List ClientConfig)
    clients_setting =
        load_clients (setting (codes "CLIENTS") []) (setting (codes "CLIENTS_FILE") [])

    abbrev pub key_setting : Noted (List ℕ)
    key_setting =
        load_signing_key (setting (codes "TOKEN_SIGNING_KEY") [])
          (setting (codes "TOKEN_SIGNING_KEY_FILE") [])

    -- The readings in the order in which the literal of `Load` makes them.
    abbrev pub shutdown_timeout : Noted ℕ
    shutdown_timeout = duration (codes "SHUTDOWN_TIMEOUT") (codes "15s")

    abbrev pub token_ttl : Noted ℕ
    token_ttl = duration (codes "TOKEN_TTL") (codes "1h")

    abbrev pub auth_max_failures : Noted ℕ
    auth_max_failures = whole (codes "AUTH_MAX_FAILURES") (codes "10")

    abbrev pub auth_failure_window : Noted ℕ
    auth_failure_window = duration (codes "AUTH_FAILURE_WINDOW") (codes "5m")

    abbrev pub heartbeat_interval : Noted ℕ
    heartbeat_interval = duration (codes "HEARTBEAT_INTERVAL") (codes "15s")

    abbrev pub suspect_after : Noted ℕ
    suspect_after = duration (codes "SUSPECT_AFTER") (codes "30s")

    abbrev pub offline_after : Noted ℕ
    offline_after = duration (codes "OFFLINE_AFTER") (codes "60s")

    abbrev pub negotiation_timeout : Noted ℕ
    negotiation_timeout = duration (codes "NEGOTIATION_TIMEOUT") (codes "2m")

    abbrev pub max_peers : Noted ℕ
    max_peers = whole (codes "MAX_PEERS") (codes "10000")

    abbrev pub max_sessions : Noted ℕ
    max_sessions = whole (codes "MAX_SESSIONS") (codes "10000")

    abbrev pub max_sessions_per_peer : Noted ℕ
    max_sessions_per_peer = whole (codes "MAX_SESSIONS_PER_PEER") (codes "64")

    abbrev pub session_retention : Noted ℕ
    session_retention = duration (codes "SESSION_RETENTION") (codes "10m")

    abbrev pub expiry_interval : Noted ℕ
    expiry_interval = duration (codes "EXPIRY_INTERVAL") (codes "15s")

    abbrev pub max_signal_message_bytes : Noted ℕ
    max_signal_message_bytes = whole (codes "MAX_SIGNAL_MESSAGE_BYTES") (codes "131072")

    abbrev pub signal_messages_per_window : Noted ℕ
    signal_messages_per_window = whole (codes "SIGNAL_MESSAGES_PER_WINDOW") (codes "120")

    abbrev pub signal_window : Noted ℕ
    signal_window = duration (codes "SIGNAL_WINDOW") (codes "1m")

    abbrev pub turn_credential_ttl : Noted ℕ
    turn_credential_ttl = duration (codes "TURN_CREDENTIAL_TTL") (codes "10m")

    -- The literal `cfg`.
    unfoldable pub read_config : Config
    read_config = record {
      listen_addr = setting (codes "LISTEN_ADDR") (codes ":8080");
      shutdown_timeout = shutdown_timeout.0;
      allowed_origins = split_list (setting (codes "ALLOWED_ORIGINS") []);
      token_signing_key = key_setting.0;
      token_ttl = token_ttl.0;
      issuer = setting (codes "ISSUER") (codes "dc-streaming-p2p");
      clients = clients_setting.0;
      auth_max_failures = auth_max_failures.0;
      auth_failure_window = auth_failure_window.0;
      heartbeat_interval = heartbeat_interval.0;
      suspect_after = suspect_after.0;
      offline_after = offline_after.0;
      negotiation_timeout = negotiation_timeout.0;
      max_peers = max_peers.0;
      max_sessions = max_sessions.0;
      max_sessions_per_peer = max_sessions_per_peer.0;
      session_retention = session_retention.0;
      expiry_interval = expiry_interval.0;
      serve_demo = same (setting (codes "SERVE_DEMO") (codes "false")) (codes "true");
      max_signal_message_bytes = max_signal_message_bytes.0;
      signal_messages_per_window = signal_messages_per_window.0;
      signal_window = signal_window.0;
      stun_urls = split_list (setting (codes "STUN_URLS") (codes "stun:stun.l.google.com:19302"));
      turn_urls = split_list (setting (codes "TURN_URLS") []);
      turn_secret = setting (codes "TURN_SECRET") [];
      turn_credential_ttl = turn_credential_ttl.0;
    }

    abbrev pub readings : List (List Problem)
    readings =
        clients_setting.1 ∷ key_setting.1 ∷ shutdown_timeout.1 ∷ token_ttl.1 ∷ auth_max_failures.1
        ∷ auth_failure_window.1 ∷ heartbeat_interval.1 ∷ suspect_after.1 ∷ offline_after.1
        ∷ negotiation_timeout.1 ∷ max_peers.1 ∷ max_sessions.1 ∷ max_sessions_per_peer.1
        ∷ session_retention.1 ∷ expiry_interval.1 ∷ max_signal_message_bytes.1
        ∷ signal_messages_per_window.1 ∷ signal_window.1 ∷ turn_credential_ttl.1 ∷ []

    unfoldable pub read_problems : List Problem
    read_problems = flat readings

    -- `Load`, of an environment that is there.
    unfoldable pub load : List Problem ⊎ Config
    load = unless (read_problems ++ validate out read_config) read_config
