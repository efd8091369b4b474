-- ===== src/Transport/Signal.antt =====
-- `Signal` of internal/transport/signal.go: the token in the subprotocols that a client offers, the
-- channel that it opens, and its reading loop. Whether the upgrade succeeds and what is read from the
-- connection are arguments.
use dc_streaming_p2p.Base.{
  ℕ, Bool, true, false, Option, none, some, List, [], ◌∷◌, ◌++◌, Text, if◌then◌else◌, ◌==◌,
}
use dc_streaming_p2p.Base.Strings.{codes, split_at, trim_space}
use dc_streaming_p2p.Signaling.Hub
use dc_streaming_p2p.Signaling.Hub.{
  Hub, Event, Delivers, Message, Routed, route, register, deregister,
}
use dc_streaming_p2p.Transport.Http
use dc_streaming_p2p.Transport.Http.{Code}
use dc_streaming_p2p.Transport.Login.{Verdict, names, expired_token, bad_token}

-- `Subprotocol` and `tokenPrefix`.
abbrev pub subprotocol : Text
subprotocol = codes "dc-signal.v1"

abbrev pub token_prefix : Text
token_prefix = codes "dc-token."

-- strings.CutPrefix
abbrev pub cut_prefix : Text → Text → Option Text
cut_prefix [] s = some s
cut_prefix (c ∷ prefix) [] = none
cut_prefix (c ∷ prefix) (d ∷ s) = if d == c then cut_prefix prefix s else none

abbrev pub if_some_text : Option Text → Option Text
if_some_text none = none
if_some_text (some []) = none
if_some_text (some (c ∷ token)) = some (c ∷ token)

abbrev pub first_of : Option Text → Option Text → Option Text
first_of none later = later
first_of (some token) later = some token

-- `tokenFromSubprotocols`, over the values of the header; its inner loop first.
abbrev pub token_among : List Text → Option Text
token_among [] = none
token_among (offered ∷ more) =
    first_of (if_some_text (cut_prefix token_prefix (trim_space offered))) (token_among more)

unfoldable pub token_from_subprotocols : List Text → Option Text
token_from_subprotocols [] = none
token_from_subprotocols (header ∷ headers) =
    first_of (token_among (split_at b',' header)) (token_from_subprotocols headers)

-- What a request comes to: a refusal, an upgrade that failed, or a channel of a peer.
pub data Opening : Type 0 where
  refused : ℕ → Code → Opening
  declined : Opening
  opened : Text → Opening

abbrev pub upgrade : Bool → ℕ → ℕ → Hub → Text → Hub × List Event × Opening
upgrade false conn now h peer = (h, [], declined)
upgrade true conn now h peer =
    let (h', events) = register peer conn now h in (h', events, opened peer)

abbrev pub open_as : Bool → ℕ → ℕ → Hub → Verdict → Hub × List Event × Opening
open_as accepted conn now h (names peer) = upgrade accepted conn now h peer
open_as accepted conn now h expired_token = (h, [], refused 401 Http.token_expired)
open_as accepted conn now h bad_token = (h, [], refused 401 Http.invalid_token)

abbrev pub open_with :
    (Text → Verdict) → Bool → ℕ → ℕ → Hub → Option Text → Hub × List Event × Opening
open_with verify accepted conn now h none = (h, [], refused 401 Http.invalid_token)
open_with verify accepted conn now h (some raw) = open_as accepted conn now h (verify raw)

-- `Signal`, up to the channel's being registered.
unfoldable pub open_channel :
    (Text → Verdict) → List Text → Bool → ℕ → ℕ → Hub → Hub × List Event × Opening
open_channel verify headers accepted conn now h =
    open_with verify accepted conn now h (token_from_subprotocols headers)

-- The loop ends at the first message that is not routed.
abbrev pub stop_on {ℓ} : {A : Type ℓ} → Option Hub.Error → A → A → A
stop_on none stopped went_on = went_on
stop_on (some e) stopped went_on = stopped

module _ {ℓ} {S : Type ℓ} (other : Text → Text → S → S × Option Text) (delivers : Delivers) where
  -- `readLoop`, over what can be read from the connection, each message with the time of its routing.
  unfoldable pub read_loop : Text → List (ℕ × Message) → Hub → S → Hub × S × List Event
  read_loop peer [] h s = (h, s, [])
  read_loop peer ((now, msg) ∷ more) h s =
      let (h', s', events, e) = route other delivers peer msg now h s in
      let (h'', s'', later) = read_loop peer more h' s' in
      stop_on e (h', s', events) (h'', s'', events ++ later)

  -- `Signal` from there on: it reads, and then the channel is deregistered.
  unfoldable pub serve_channel : Text → ℕ → List (ℕ × Message) → Hub → S → Hub × S × List Event
  serve_channel peer conn incoming h s =
      let (h', s', events) = read_loop peer incoming h s in
      let (h'', gone) = deregister peer conn h' in (h'', s', events ++ gone)
