-- ===== src/Signaling/Routing.antt =====
-- `Route` of internal/signaling/hub.go, over the connections that it writes on.
use dc_streaming_p2p.Base.{
  ℕ, ◌≡◌, refl, sym, ◌∙◌, true, false, Option, Option-cases, Bool-cases, none, some, List, [], ◌∷◌,
  ◌++◌, Text, arith, inl, inr, ◌⊎◌,
}
use dc_streaming_p2p.Base.Map.{lookup, lookup-insert}
use dc_streaming_p2p.Base.Strings.{is_empty}
use dc_streaming_p2p.Signaling.Hub.{
  Hub, Holder, Message, Code, Event, sends, failing, closes, connected, disconnected, write_failed,
  Error, Delivers, not_in_session, peer_not_connected, unknown_type, too_fast, carriable, allowed,
  no_code, charged, send, send_on, tell, refusal, stamped, or_tell, route_to, route,
}

-- The connection that a peer holds.
abbrev pub conn_of_holder : Option Holder → Option ℕ
conn_of_holder none = none
conn_of_holder (some held) = some held.conn

abbrev pub conn_of : Text → Hub → Option ℕ
conn_of peer h = conn_of_holder (lookup peer h.conns)

-- Counting a message moves no connection.
conn_of-allowed :
    (peer : Text) (now : ℕ) (h : Hub) (j : Text) → conn_of j (allowed peer now h).0 ≡ conn_of j h
unfolding allowed
conn_of-allowed peer now h j = elim (Option-cases (lookup peer h.conns)) [
  | inl e ↦ rw e refl
  | inr (held, e) ↦ rw e (ground (arith, lookup-insert peer j (charged h.window now held) h.conns))
]

-- What the other peer of a session is to hear: the sender's message, under the sender's name, and with
-- nothing in it that only the server says.
abbrev pub heard_of : Text → Message → Message
heard_of sender msg = record {
  kind = msg.kind;
  session_id = msg.session_id;
  from = sender;
  payload = msg.payload;
  code = no_code;
  state = [];
}

module _ (sender : Text) (msg : Message) (far : Option Text) (h : Hub) where
  -- A message that a route may write on a connection: the server's refusal, to the sender itself,
  -- or the message as its sender's, to the other peer of the session that it names.
  abbrev pub MayHear : ℕ → Message → Type 0
  MayHear conn m =
      (((code : Code) × (m ≡ refusal msg.session_id code)) × (conn_of sender h ≡ some conn))
      ⊎ ((m ≡ heard_of sender msg)
          × (carriable msg.kind ≡ true)
          × (is_empty msg.session_id ≡ false)
          × (peer : Text) × (far ≡ some peer)
          × (conn_of peer h ≡ some conn))

  abbrev pub MayHappen : Event → Type 0
  MayHappen (sends conn m) = MayHear conn m
  MayHappen (failing conn m) = MayHear conn m
  MayHappen (closes conn reason) = reason ≡ write_failed
  MayHappen (connected peer) = ⊥
  MayHappen (disconnected peer) = ⊥

  abbrev pub AllMay : List Event → Type 0
  AllMay [] = Unit
  AllMay (e ∷ es) = MayHappen e × AllMay es

  AllMay-append : (es fs : List Event) → AllMay es → AllMay fs → AllMay (es ++ fs)
  AllMay-append [] fs p q = q
  AllMay-append (e ∷ es) fs p q = (p.0, AllMay-append es fs p.1 q)

  send_on-AllMay :
      (delivers : Delivers) (m : Message) (o : Option Holder)
      → ((conn : ℕ) → conn_of_holder o ≡ some conn → MayHear conn m)
      → AllMay (send_on delivers m o).0
  send_on-AllMay delivers m none may = tt
  send_on-AllMay delivers m (some held) may = elim (Bool-cases (delivers held.conn m)) [
    | inl sent ↦ rw sent (may held.conn refl, tt)
    | inr lost ↦ rw lost (may held.conn refl, (refl, tt))
  ]

  tell-AllMay :
      (delivers : Delivers) (code : Code) (g : Hub)
      → conn_of sender g ≡ conn_of sender h
      → AllMay (tell delivers sender msg.session_id code g).0
  unfolding tell
  tell-AllMay delivers code g same =
      send_on-AllMay delivers (refusal msg.session_id code) (lookup sender g.conns)
        (λ conn e. inl ((code, refl), sym same ∙ e))

  or_tell-AllMay :
      (delivers : Delivers) (g : Hub) (r : List Event × Option Error)
      → conn_of sender g ≡ conn_of sender h
      → AllMay r.0
      → AllMay (or_tell delivers sender msg g r).0
  or_tell-AllMay delivers g (events, none) same p = p
  or_tell-AllMay delivers g (events, some e) same p =
      AllMay-append events (tell delivers sender msg.session_id peer_not_connected g).0 p
        (tell-AllMay delivers peer_not_connected g same)

route_to-AllMay :
    (sender : Text) (msg : Message) (far : Option Text) (h : Hub) (delivers : Delivers) (g : Hub)
    → ((j : Text) → conn_of j g ≡ conn_of j h)
    → carriable msg.kind ≡ true
    → AllMay sender msg far h (route_to delivers sender msg far g).0
unfolding send
route_to-AllMay sender msg none h delivers g same carried =
    tell-AllMay sender msg none h delivers not_in_session g (same sender)
route_to-AllMay sender msg (some peer) h delivers g same carried =
    elim (Bool-cases (is_empty msg.session_id)) [
      | inl unnamed ↦
          rw unnamed (tell-AllMay sender msg (some peer) h delivers not_in_session g (same sender))
      | inr named ↦ rw named (
          or_tell-AllMay sender msg (some peer) h delivers g
            (send delivers peer (stamped sender msg) g) (same sender)
            (send_on-AllMay sender msg (some peer) h delivers (stamped sender msg)
              (lookup peer g.conns)
              (λ conn e. inr (refl, carried, named, peer, refl, sym (same peer) ∙ e))))
    ]

-- Whoever the peers are and whatever a message claims, routing it writes on a connection only the
-- server's refusal, to the sender; or the message, as the sender's own and with no code or state of
-- the server, to the other peer of the session, if its type may be carried and it names a session
-- whose other peer the store gives. It closes a connection only after a failed write.
pub route-AllMay {ℓ} :
    {S : Type ℓ} (other : Text → Text → S → S × Option Text) (delivers : Delivers) (sender : Text)
    (msg : Message) (now : ℕ) (h : Hub) (s : S)
    → AllMay sender msg
        (other msg.session_id sender s).1
        h
        (route other delivers sender msg now h s).2
unfolding route
route-AllMay other delivers sender msg now h s =
    let far = (other msg.session_id sender s).1 in
    let h' = (allowed sender now h).0 in
    let same = conn_of-allowed sender now h in
    elim (Bool-cases (carriable msg.kind)) [
      | inr refused ↦ rw refused (tell-AllMay sender msg far h delivers unknown_type h refl)
      | inl carried ↦ elim (Bool-cases (allowed sender now h).1) [
        | inl within ↦
            rw (carried, within) (route_to-AllMay sender msg far h delivers h' same carried)
        | inr beyond ↦
            rw (carried, beyond) (tell-AllMay sender msg far h delivers too_fast h' (same sender))
      ]
    ]

-- A message of a carried type that is within its sender's allowance, in a session whose other peer
-- holds a connection that can be written to, is written on that connection, and nothing else is.
pub route_delivers {ℓ} :
    {S : Type ℓ} (other : Text → Text → S → S × Option Text) (delivers : Delivers)
    (sender peer : Text) (msg : Message) (now conn : ℕ) (h : Hub) (s : S)
    → carriable msg.kind ≡ true
    → (allowed sender now h).1 ≡ true
    → is_empty msg.session_id ≡ false
    → (other msg.session_id sender s).1 ≡ some peer
    → conn_of peer h ≡ some conn
    → delivers conn (heard_of sender msg) ≡ true
    → ((route other delivers sender msg now h s).2 ≡ sends conn (heard_of sender msg) ∷ [])
      × ((route other delivers sender msg now h s).3 ≡ none)
unfolding route send
route_delivers other delivers sender peer msg now conn h s carried within named far held sent =
    let same = conn_of-allowed sender now h peer ∙ held in
    elim (Option-cases (lookup peer (allowed sender now h).0.conns)) [
      | inl e ↦ absurd (ground arith)
      | inr (holder, e) ↦
          let conn_is : holder.conn ≡ conn = ground arith in
          rw (carried, within, far, named, e, conn_is, sent) (refl, refl)
    ]
