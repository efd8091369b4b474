-- ===== src/Signaling/Allowance.antt =====
-- The allowance of internal/signaling/hub.go over messages, connections and departures in any sequence.
use dc_streaming_p2p.Base.{
  ℕ, leb, ◌⊎◌, ◌+◌, ◌-◌, ◌*◌, ◌≤◌, ◌≡◌, refl, Option-cases, Option, none, some, List, [], ◌∷◌, Text,
  text_dec, arith, inl, inr, bit, if◌then◌else◌, ◌==◌,
}
use dc_streaming_p2p.Base.Map.{lookup, lookup-insert, lookup-delete}
use dc_streaming_p2p.Base.Strings.{same}
use dc_streaming_p2p.Signaling.Hub.{Hub, Holder, charged, allowed, register, deregister}

-- What arrives at the hub, with its time: a message of a peer, a new connection of one, and the end
-- of a connection.
pub data Arrival : Type 0 where
  message : Text → ℕ → Arrival
  joins leaves : Text → ℕ → ℕ → Arrival

abbrev pub arrival_time : Arrival → ℕ
arrival_time (message sender t) = t
arrival_time (joins sender conn t) = t
arrival_time (leaves sender conn t) = t

-- What an arrival leaves of the hub, and how many of a peer's messages it is that were allowed.
abbrev pub arrive : Text → Arrival → Hub → Hub × ℕ
arrive peer (message sender t) h =
    ((allowed sender t h).0, if same sender peer then bit (allowed sender t h).1 else 0)
arrive peer (joins joiner conn t) h = ((register joiner conn t h).0, 0)
arrive peer (leaves leaver conn t) h = ((deregister leaver conn h).0, 0)

unfoldable pub through : Text → List Arrival → Hub → ℕ
through peer [] h = 0
through peer (a ∷ rest) h = (arrive peer a h).1 + through peer rest (arrive peer a h).0

-- How often the peer connects.
abbrev pub joins_once : Text → Arrival → ℕ
joins_once peer (message sender t) = 0
joins_once peer (joins joiner conn t) = bit (same joiner peer)
joins_once peer (leaves leaver conn t) = 0

abbrev pub joined : Text → List Arrival → ℕ
joined peer [] = 0
joined peer (a ∷ rest) = joins_once peer a + joined peer rest

abbrev pub Between : ℕ → ℕ → List Arrival → Type 0
Between from until [] = Unit
Between from until (a ∷ rest) =
    (from ≤ arrival_time a) × (arrival_time a ≤ until) × Between from until rest

-- What a peer has left of its allowance, by its record at the hub.
abbrev remaining : ℕ → Option Holder → ℕ
remaining allowance none = 0
remaining allowance (some held) = allowance - held.sent

-- A peer's record, if it has one, is of a window that reaches up to a time.
abbrev Reaches : ℕ → ℕ → Option Holder → Type 0
Reaches until window none = Unit
Reaches until window (some held) = until ≤ held.window_from + window

-- What each arrival leaves of the record of a peer.
abbrev charged_opt : ℕ → ℕ → Option Holder → Option Holder
charged_opt window t none = none
charged_opt window t (some held) = some (charged window t held)

abbrev unless_conn : ℕ → Option Holder → Option Holder
unless_conn conn none = none
unless_conn conn (some held) = if held.conn == conn then none else some held

abbrev record_after : Text → ℕ → Arrival → Option Holder → Option Holder
record_after peer window (message sender t) o =
    if same sender peer then charged_opt window t o else o
record_after peer window (joins joiner conn t) o =
    if same joiner peer then some (record { conn = conn; sent = 0; window_from = t }) else o
record_after peer window (leaves leaver conn t) o =
    if same leaver peer then unless_conn conn o else o

arrive-lookup :
    (peer : Text) (a : Arrival) (h : Hub)
    → lookup peer (arrive peer a h).0.conns ≡ record_after peer h.window a (lookup peer h.conns)
unfolding allowed register deregister
arrive-lookup peer (message sender t) h = elim (Option-cases (lookup sender h.conns)) [
  | inl e ↦ rw e (elim (text_dec sender peer) [ yes q ↦ ground arith | no q ↦ ground arith ])
  | inr (held, e) ↦
      rw e (ground (arith, lookup-insert sender peer (charged h.window t held) h.conns))
]
arrive-lookup peer (joins joiner conn t) h =
    ground
      (arith, lookup-insert joiner peer (record { conn = conn; sent = 0; window_from = t }) h.conns)
arrive-lookup peer (leaves leaver conn t) h = elim (Option-cases (lookup leaver h.conns)) [
  | inl e ↦ rw e (elim (text_dec leaver peer) [ yes q ↦ ground arith | no q ↦ ground arith ])
  | inr (held, e) ↦ rw e (ground (arith, lookup-delete leaver peer h.conns))
]

allowed-limits :
    (sender : Text) (t : ℕ) (h : Hub)
    → ((allowed sender t h).0.window ≡ h.window) × ((allowed sender t h).0.allowance ≡ h.allowance)
unfolding allowed
allowed-limits sender t h = elim (Option-cases (lookup sender h.conns)) [
  | inl e ↦ rw e (refl, refl)
  | inr (held, e) ↦ rw e (refl, refl)
]

arrive-limits :
    (peer : Text) (a : Arrival) (h : Hub)
    → ((arrive peer a h).0.window ≡ h.window) × ((arrive peer a h).0.allowance ≡ h.allowance)
unfolding register deregister
arrive-limits peer (message sender t) h = allowed-limits sender t h
arrive-limits peer (joins joiner conn t) h = (refl, refl)
arrive-limits peer (leaves leaver conn t) h = elim (Option-cases (lookup leaver h.conns)) [
  | inl e ↦ rw e (refl, refl)
  | inr (held, e) ↦ rw e (ground arith)
]

-- How many messages an arrival passes, by the record of the peer.
abbrev passed_opt : ℕ → ℕ → ℕ → Option Holder → ℕ
passed_opt window allowance t none = 0
passed_opt window allowance t (some held) = bit (leb (charged window t held).sent allowance)

abbrev passed_once : Text → ℕ → ℕ → Arrival → Option Holder → ℕ
passed_once peer window allowance (message sender t) o =
    if same sender peer then passed_opt window allowance t o else 0
passed_once peer window allowance (joins joiner conn t) o = 0
passed_once peer window allowance (leaves leaver conn t) o = 0

arrive-passed :
    (peer : Text) (a : Arrival) (h : Hub)
    → (arrive peer a h).1 ≡ passed_once peer h.window h.allowance a (lookup peer h.conns)
unfolding allowed
arrive-passed peer (message sender t) h = elim (text_dec sender peer) [
  | yes q ↦ elim (Option-cases (lookup peer h.conns)) [
    | inl e ↦ rw (q, e) (ground arith)
    | inr (held, e) ↦ rw (q, e) (ground arith)
  ]
  | no q ↦ ground arith
]
arrive-passed peer (joins joiner conn t) h = refl
arrive-passed peer (leaves leaver conn t) h = refl

module _ (peer : Text) (from until window allowance : ℕ) (short : until ≤ from + window) where
  -- In a window that reaches to the end, what passes comes off what was left, unless the peer connects.
  step_within :
      (a : Arrival) (o : Option Holder)
      → from ≤ arrival_time a
      → arrival_time a ≤ until
      → Reaches until window o
      → Reaches until window (record_after peer window a o)
        × (passed_once peer window allowance a o
              + remaining allowance (record_after peer window a o)
            ≤ remaining allowance o + joins_once peer a * allowance)
  step_within (message sender t) none early late reaches = ground arith
  step_within (message sender t) (some held) early late reaches = ground arith
  step_within (joins joiner conn t) none early late reaches = ground arith
  step_within (joins joiner conn t) (some held) early late reaches = ground arith
  step_within (leaves leaver conn t) none early late reaches = ground arith
  step_within (leaves leaver conn t) (some held) early late reaches = ground arith

  -- In any window, that or a new window starts, which reaches to the end.
  step_span :
      (a : Arrival) (o : Option Holder)
      → from ≤ arrival_time a
      → arrival_time a ≤ until
      → (passed_once peer window allowance a o + remaining allowance (record_after peer window a o)
          ≤ remaining allowance o + joins_once peer a * allowance)
        ⊎ (Reaches until window (record_after peer window a o)
            × (passed_once peer window allowance a o
                  + remaining allowance (record_after peer window a o)
                ≤ allowance + joins_once peer a * allowance))
  step_span (message sender t) none early late = ground arith
  step_span (message sender t) (some held) early late = ground arith
  step_span (joins joiner conn t) none early late = ground arith
  step_span (joins joiner conn t) (some held) early late = ground arith
  step_span (leaves leaver conn t) none early late = ground arith
  step_span (leaves leaver conn t) (some held) early late = ground arith

module _ (peer : Text) (from until : ℕ) where
  through_within :
      (arrivals : List Arrival) (h : Hub)
      → Between from until arrivals
      → until ≤ from + h.window
      → Reaches until h.window (lookup peer h.conns)
      → through peer arrivals h
        ≤ remaining h.allowance (lookup peer h.conns) + joined peer arrivals * h.allowance
  unfolding through
  through_within [] h b short reaches = omega arith
  through_within (a ∷ rest) h b short reaches =
      let h' = (arrive peer a h).0 in
      let (same_window, same_allowance) = arrive-limits peer a h in
      let found = arrive-lookup peer a h in
      let passed = arrive-passed peer a h in
      let (reaches', less) =
        step_within peer from until h.window h.allowance short a (lookup peer h.conns) b.0 b.1
          reaches in
      let more =
        through_within rest h' b.2 (omega (arith, same_window, short))
          (rw (found, same_window) reaches') in
      omega (arith, rw (found, same_allowance) at more, less, passed)

  through_span :
      (arrivals : List Arrival) (h : Hub)
      → Between from until arrivals
      → until ≤ from + h.window
      → through peer arrivals h
        ≤ remaining h.allowance (lookup peer h.conns)
          + h.allowance
          + joined peer arrivals * h.allowance
  unfolding through
  through_span [] h b short = omega arith
  through_span (a ∷ rest) h b short =
      let h' = (arrive peer a h).0 in
      let (same_window, same_allowance) = arrive-limits peer a h in
      let found = arrive-lookup peer a h in
      let passed = arrive-passed peer a h in
      let short' : until ≤ from + h'.window = omega (arith, same_window, short) in
      elim (step_span peer from until h.window h.allowance short a (lookup peer h.conns) b.0 b.1) [
        | inl less ↦
            let more = through_span rest h' b.2 short' in
            omega (arith, rw (found, same_allowance) at more, less, passed)
        | inr (reaches, less) ↦
            let more = through_within rest h' b.2 short' (rw (found, same_window) reaches) in
            omega (arith, rw (found, same_allowance) at more, less, passed)
      ]

-- Whatever arrives at the hub in a span as long as its window, from other peers and from this one,
-- a peer passes at most twice the hub's allowance, and one allowance more for each time that it
-- connects in that span, which starts its count anew.
pub span_allowance :
    (peer : Text) (from : ℕ) (arrivals : List Arrival) (h : Hub)
    → Between from (from + h.window) arrivals
    → through peer arrivals h ≤ (2 + joined peer arrivals) * h.allowance
span_allowance peer from arrivals h b =
    let most = through_span peer from (from + h.window) arrivals h b (omega arith) in
    elim (Option-cases (lookup peer h.conns)) [
      | inl e ↦ omega (arith, rw e at most)
      | inr (held, e) ↦ omega (arith, rw e at most)
    ]
