-- ===== src/Central/Delivery.antt =====
-- `Route` of internal/signaling/hub.go over the sessions that cmd/central/main.go gives the hub: a
-- message between the two peers of a session.
use dc_streaming_p2p.Base.{
  ℕ, ◌-◌, ◌<◌, ◌≡◌, ◌≢◌, ◌⊎◌, refl, Text, [], ◌∷◌, none, some, true, false, arith, inl, inr,
}
use dc_streaming_p2p.Base.Map.{lookup}
use dc_streaming_p2p.Base.Strings.{is_empty}
use dc_streaming_p2p.Session.Store.{Store}
use dc_streaming_p2p.Session.Invariant.{Inv}
use dc_streaming_p2p.Signaling.Hub.{
  Hub, Holder, Kind, Message, Delivers, offer, answer, candidate, bye, carriable, allowed, sends,
  route,
}
use dc_streaming_p2p.Signaling.Routing.{heard_of, conn_of, route_delivers}
use dc_streaming_p2p.Central.{other_peer}
use dc_streaming_p2p.Central.Facing.{Faces, Faces-other_peer}

-- The types of message that peers send each other.
pub data Carried : Kind → Type 0 where
  offers : Carried offer
  answers : Carried answer
  candidates : Carried candidate
  byes : Carried bye

Carried-carriable : {kind : Kind} → Carried kind → carriable kind ≡ true
Carried-carriable offers = refl
Carried-carriable answers = refl
Carried-carriable candidates = refl
Carried-carriable byes = refl

-- A peer has sent less than its allowance in its window, or its window has passed.
abbrev pub HasRoom : Text → ℕ → Hub → Type 0
HasRoom peer now h =
    (held : Holder) × (lookup peer h.conns ≡ some held)
    × ((held.sent < h.allowance) ⊎ ((h.window < now - held.window_from) × (0 < h.allowance)))

HasRoom-allowed :
    (peer : Text) (now : ℕ) (h : Hub) → HasRoom peer now h → (allowed peer now h).1 ≡ true
unfolding allowed
HasRoom-allowed peer now h (held, found, inl left) = rw found (ground arith)
HasRoom-allowed peer now h (held, found, inr left) = rw found (ground arith)

not-is_empty : (t : Text) → t ≢ [] → is_empty t ≡ false
not-is_empty [] ne = absurd (ne refl)
not-is_empty (c ∷ t) ne = refl

-- In a store whose invariant holds, let a peer that holds a connection send an offer, an answer, a
-- candidate or a bye, with room in its allowance, that names, by an identifier that is not empty, a
-- session in which it faces another one, being negotiated or connected at that time. Where that other
-- peer holds a connection that can be written to, the message is written there, with the sender's
-- name and no code or state, nothing else is written or closed, and no error is returned.
pub route-Faces :
    (sender far : Text) (delivers : Delivers) (msg : Message) (now conn : ℕ) (h : Hub) (s : Store)
    → Inv s
    → Carried msg.kind
    → msg.session_id ≢ []
    → HasRoom sender now h
    → Faces msg.session_id sender now s far
    → conn_of far h ≡ some conn
    → delivers conn (heard_of sender msg) ≡ true
    → ((route (other_peer now) delivers sender msg now h s).2
        ≡ sends conn (heard_of sender msg) ∷ [])
      × ((route (other_peer now) delivers sender msg now h s).3 ≡ none)
route-Faces sender far delivers msg now conn h s v kind named room faces held writable =
    route_delivers (other_peer now) delivers sender far msg now conn h s (Carried-carriable kind)
      (HasRoom-allowed sender now h room) (not-is_empty msg.session_id named)
      (Faces-other_peer msg.session_id sender far now s v faces) held writable
