-- ===== src/Config/Checked.antt =====
-- What the settings that `Load` of internal/config/config.go accepts are like.
use dc_streaming_p2p.Base.{
  ℕ, zero, suc, Bool, true, false, not, ◌&&◌, Option, none, some, List, [], ◌∷◌, ◌++◌, Text, length,
  ◌==◌, ◌⊎◌, inl, inr, ◌≡◌, ◌<◌, refl, subst, arith, ltb, leb, is_nil, Bool-cases,
}
use dc_streaming_p2p.Base.Int.{ℤ, pos, negsuc}
use dc_streaming_p2p.Base.Strings.{codes, is_empty, trim_space}
use dc_streaming_p2p.Auth.Clients
use dc_streaming_p2p.Auth.Clients.{ClientConfig, ClientStore}
use dc_streaming_p2p.Config.{
  checks, Outside, Problem, Config, flat, note, validate, private_key_size,
}
use dc_streaming_p2p.Config.Load.{
  readings, positive_duration, duration, whole_number, whole, clients_if, clients_of_json,
  clients_of_source, load_clients, read_config, read_problems, unless, load, source_of, setting,
}

-- A configuration that every part of the program can be built from.
pub record IsUsable {H : Type 0} (sum256 : Text → H) (c : Config) : Type 0 where
  pub clients : (s : ClientStore H) × (Clients.new sum256 c.clients ≡ inr s)
  pub key : length c.token_signing_key ≡ private_key_size
  pub issuer : is_empty (trim_space c.issuer) ≡ false
  pub token_ttl : 0 < c.token_ttl
  pub failures : 0 < c.auth_max_failures
  pub failure_window : 0 < c.auth_failure_window
  pub heartbeat : 0 < c.heartbeat_interval
  pub suspect : c.heartbeat_interval < c.suspect_after
  pub offline : c.suspect_after < c.offline_after
  pub negotiation : 0 < c.negotiation_timeout
  pub peers : 0 < c.max_peers
  pub sessions : 0 < c.max_sessions
  pub sessions_per_peer : 0 < c.max_sessions_per_peer
  pub messages : 0 < c.signal_messages_per_window
  pub window : 0 < c.signal_window
  pub origins : is_nil c.allowed_origins ≡ false
  pub relay : is_nil c.turn_urls ≡ is_empty c.turn_secret
  pub credential_ttl : 0 < c.turn_credential_ttl

append-nil_both : (ps qs : List Problem) → ps ++ qs ≡ [] → (ps ≡ []) × (qs ≡ [])
append-nil_both [] qs e = (refl, e)
append-nil_both (p ∷ ps) qs e = absurd (ground arith)

abbrev AllNil : List (List Problem) → Type 0
AllNil [] = Unit
AllNil (ps ∷ pss) = (ps ≡ []) × AllNil pss

flat-AllNil : (pss : List (List Problem)) → flat pss ≡ [] → AllNil pss
flat-AllNil [] e = tt
flat-AllNil (ps ∷ pss) e =
    let (first, others) = append-nil_both ps (flat pss) e in (first, flat-AllNil pss others)

note-false : (wrong : Bool) (p : Problem) → note wrong p ≡ [] → wrong ≡ false
note-false true p e = absurd (ground arith)
note-false false p e = refl

positive_duration-lt :
    (key raw : Text) (o : Option ℤ)
    → (positive_duration key raw o).1 ≡ []
    → 0 < (positive_duration key raw o).0
positive_duration-lt key raw none e = absurd (ground arith)
positive_duration-lt key raw (some (pos zero)) e = absurd (ground arith)
positive_duration-lt key raw (some (pos (suc n))) e = omega arith
positive_duration-lt key raw (some (negsuc n)) e = absurd (ground arith)

whole_number-lt :
    (key raw : Text) (o : Option ℤ)
    → (whole_number key raw o).1 ≡ []
    → 0 < (whole_number key raw o).0
whole_number-lt key raw none e = absurd (ground arith)
whole_number-lt key raw (some (pos zero)) e = absurd (ground arith)
whole_number-lt key raw (some (pos (suc n))) e = omega arith
whole_number-lt key raw (some (negsuc n)) e = absurd (ground arith)

unless-inr : (ps : List Problem) (c d : Config) → unless ps c ≡ inr d → (ps ≡ []) × (c ≡ d)
unless-inr [] c d e = (refl, ground arith)
unless-inr (p ∷ ps) c d e = absurd (ground arith)

==-true : {a b : ℕ} → (a == b) ≡ true → a ≡ b
==-true h = ground arith

not-false : (b : Bool) → not b ≡ false → b ≡ true
not-false true h = refl
not-false false h = absurd (ground arith)

-- What the two tests on the order of the intervals find.
in_order : {a b : ℕ} → 0 < a → 0 < b → (ltb 0 b && ltb 0 a && leb b a) ≡ false → a < b
in_order h k wrong = ground arith

-- What the two tests on the relay's settings find.
both_or_neither : (a b : Bool) → (not a && b) ≡ false → (a && not b) ≡ false → a ≡ b
both_or_neither true true h k = refl
both_or_neither true false h k = k
both_or_neither false true h k = absurd (ground arith)
both_or_neither false false h k = refl

module _ {H : Type 0} (out : Outside) (sum256 : Text → H) where
  duration-lt :
      (key fallback : Text) → (duration out key fallback).1 ≡ [] → 0 < (duration out key fallback).0
  unfolding duration
  duration-lt key fallback =
      positive_duration-lt key (setting out key fallback)
        (out.parse_duration (setting out key fallback))

  whole-lt :
      (key fallback : Text) → (whole out key fallback).1 ≡ [] → 0 < (whole out key fallback).0
  unfolding whole
  whole-lt key fallback =
      whole_number-lt key (setting out key fallback) (out.atoi (setting out key fallback))

  clients_if-made :
      (cs : List ClientConfig) (r : List Clients.Problem ⊎ ClientStore H)
      → Clients.new sum256 cs ≡ r
      → (clients_if out sum256 cs r).1 ≡ []
      → (s : ClientStore H) × (Clients.new sum256 (clients_if out sum256 cs r).0 ≡ inr s)
  clients_if-made cs (inl problems) made e = absurd (ground arith)
  clients_if-made cs (inr s) made e = (s, made)

  clients_of_json-made :
      (o : Option (List ClientConfig))
      → (clients_of_json out sum256 o).1 ≡ []
      → (s : ClientStore H) × (Clients.new sum256 (clients_of_json out sum256 o).0 ≡ inr s)
  clients_of_json-made none e = absurd (ground arith)
  clients_of_json-made (some cs) e = clients_if-made cs (Clients.new sum256 cs) refl e

  clients_of_source-made :
      (o : Option Text)
      → (clients_of_source out sum256 o).1 ≡ []
      → (s : ClientStore H) × (Clients.new sum256 (clients_of_source out sum256 o).0 ≡ inr s)
  clients_of_source-made none e = absurd (ground arith)
  clients_of_source-made (some raw) e = elim (Bool-cases (is_empty (trim_space raw))) [
    | inl blank ↦ absurd (ground arith)
    | inr given ↦ rw given (clients_of_json-made (out.unmarshal_clients raw) (rw given at e))
  ]

  load_clients-made :
      (inline path : Text)
      → (load_clients out sum256 inline path).1 ≡ []
      → (s : ClientStore H) × (Clients.new sum256 (load_clients out sum256 inline path).0 ≡ inr s)
  unfolding load_clients
  load_clients-made inline path = clients_of_source-made (source_of out inline path)

  settings-IsUsable :
      read_problems out sum256 ≡ []
      → validate out (read_config out sum256) ≡ []
      → IsUsable sum256 (read_config out sum256)
  unfolding read_config read_problems validate
  settings-IsUsable read checked =
      let (
        cs,
        (
          key,
          (
            shutdown,
            (
              ttl,
              (
                failures,
                (
                  failing,
                  (
                    beat,
                    (
                      suspect,
                      (
                        offline,
                        (
                          negotiation,
                          (
                            peers,
                            (
                              sessions,
                              (
                                per_peer,
                                (
                                  retention,
                                  (expiry, (bytes, (messages, (window, (relay_ttl, _))))),
                                ),
                              ),
                            ),
                          ),
                        ),
                      ),
                    ),
                  ),
                ),
              ),
            ),
          ),
        ),
      ) =
        flat-AllNil (readings out sum256) read in
      let (
        addr,
        (size, (origins, (issuer, (ordered, (ordered', (stun, (turn, (required, (unused, _))))))))),
      ) =
        flat-AllNil (checks out (read_config out sum256)) checked in
      let heartbeat = duration-lt (codes "HEARTBEAT_INTERVAL") (codes "15s") beat in
      let suspected = duration-lt (codes "SUSPECT_AFTER") (codes "30s") suspect in
      let gone = duration-lt (codes "OFFLINE_AFTER") (codes "60s") offline in
      record {
        clients = load_clients-made _ _ cs;
        key = ==-true (not-false _ (note-false _ _ size));
        issuer = note-false _ _ issuer;
        token_ttl = duration-lt (codes "TOKEN_TTL") (codes "1h") ttl;
        failures = whole-lt (codes "AUTH_MAX_FAILURES") (codes "10") failures;
        failure_window = duration-lt (codes "AUTH_FAILURE_WINDOW") (codes "5m") failing;
        heartbeat = heartbeat;
        suspect = in_order heartbeat suspected (note-false _ _ ordered);
        offline = in_order suspected gone (note-false _ _ ordered');
        negotiation = duration-lt (codes "NEGOTIATION_TIMEOUT") (codes "2m") negotiation;
        peers = whole-lt (codes "MAX_PEERS") (codes "10000") peers;
        sessions = whole-lt (codes "MAX_SESSIONS") (codes "10000") sessions;
        sessions_per_peer = whole-lt (codes "MAX_SESSIONS_PER_PEER") (codes "64") per_peer;
        messages = whole-lt (codes "SIGNAL_MESSAGES_PER_WINDOW") (codes "120") messages;
        window = duration-lt (codes "SIGNAL_WINDOW") (codes "1m") window;
        origins = note-false _ _ origins;
        relay = both_or_neither _ _ (note-false _ _ required) (note-false _ _ unused);
        credential_ttl = duration-lt (codes "TURN_CREDENTIAL_TTL") (codes "10m") relay_ttl;
      }

  -- A configuration that is loaded without a problem is one that every part can be built from.
  pub load-IsUsable : (c : Config) → load out sum256 ≡ inr c → IsUsable sum256 c
  unfolding load
  load-IsUsable c e =
      let (none_wrong, same_config) = unless-inr _ _ _ e in
      let (read, checked) = append-nil_both _ _ none_wrong in
      subst (IsUsable sum256) same_config (settings-IsUsable read checked)
