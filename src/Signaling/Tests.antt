-- ===== src/Signaling/Tests.antt =====
-- A hub with two peers, in one session, and the theorems applied to it.
use dc_streaming_p2p.Base.{
  List, ◌*◌, ℕ, ◌+◌, ◌≤◌, ◌≡◌, refl, some, Option, [], ◌∷◌, Text, text_dec, ℕ_discrete, arith, true,
}
use dc_streaming_p2p.Base.Map.{lookup, insert}
use dc_streaming_p2p.Signaling.Hub.{
  Hub, Message, offer, no_code, closes, connected, replaced, register, deregister, route, Delivers,
}
use dc_streaming_p2p.Signaling.Routing.{route-AllMay, AllMay, conn_of}
use dc_streaming_p2p.Signaling.Allowance.{Arrival, message, joins, leaves, through, span_allowance}
use dc_streaming_p2p.Signaling.Channels.{register_replaces}

abbrev ann : Text
ann = 97 ∷ []

abbrev bob : Text
bob = 98 ∷ []

abbrev empty_hub : Hub
empty_hub = record { allowance = 2; window = 60; send_timeout = 5; has_presence = true; conns = [] }

abbrev hub : Hub
hub = (register bob 2 11 (register ann 1 10 empty_hub).0).0

-- Every session is that of ann and bob.
abbrev other_of : Text → Text → ℕ → ℕ × Option Text
other_of session asked_by s = (s, some bob)

abbrev all_delivered : Delivers
all_delivered conn m = true

abbrev offered : Message
offered = record {
  kind = offer;
  session_id = 49 ∷ [];
  from = bob;
  payload = 1 ∷ [];
  code = no_code;
  state = [];
}

route-AllMay_example :
    AllMay ann offered (some bob) hub (route other_of all_delivered ann offered 12 hub 0).2
route-AllMay_example = route-AllMay other_of all_delivered ann offered 12 hub 0

-- Messages of both peers, of which ann's third in the window is refused, until ann connects again.
abbrev arrivals : List Arrival
arrivals =
    message ann 12
    ∷ message bob 12
    ∷ message ann 13
    ∷ message ann 14
    ∷ joins ann 3 15
    ∷ message ann 16
    ∷ leaves ann 3 17
    ∷ []

span_allowance_example : through ann arrivals hub ≤ (2 + 1) * 2
unfolding register text_dec ℕ_discrete
span_allowance_example = span_allowance ann 12 arrivals hub (
  omega arith,
  omega arith,
  (
    omega arith,
    omega arith,
    (
      omega arith,
      omega arith,
      (
        omega arith,
        omega arith,
        (omega arith, omega arith, (omega arith, omega arith, (omega arith, omega arith, tt))),
      ),
    ),
  ),
)

register_replaces_example :
    (conn_of ann (register ann 3 12 hub).0 ≡ some 3)
    × ((register ann 3 12 hub).1 ≡ closes 1 replaced ∷ connected ann ∷ [])
    × (deregister ann 1 (register ann 3 12 hub).0 ≡ ((register ann 3 12 hub).0, []))
unfolding lookup register insert text_dec ℕ_discrete
register_replaces_example = register_replaces ann 1 3 12 hub refl (λ e. ground arith)
