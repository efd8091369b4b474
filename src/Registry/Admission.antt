-- ===== src/Registry/Admission.antt =====
-- The writes of internal/registry/registry.go over histories: `Register`, `Heartbeat`, `Deregister` and
-- `Expire`.
use dc_streaming_p2p.Base.{
  ℕ, ◌≤◌, ◌≡◌, refl, ◌∙◌, ap, false, none, some, Text, text_dec, ite, arith, Option, Option-cases,
  inl, inr, Bool-cases, ◌⊎◌, ◌↔◌, length, leb,
}
use dc_streaming_p2p.Base.Map.{lookup, delete, lookup-insert, lookup-delete, delete-Distinct}
use dc_streaming_p2p.Base.Map.Count.{count-le-length, length-delete}
use dc_streaming_p2p.Base.Strings.{is_empty, trim_space}
use dc_streaming_p2p.Registry.Defs.{
  Registry, Settings, Entry, Peer, Options, new, created, expired, expire, register, register_held,
  admit, heartbeat, deregister, look_up, online, Result, ok, err, full, state_of, not_registered,
  no_identifier, Error, first_seen,
}
use dc_streaming_p2p.Registry.Expiry.{expire-settings, look_up-expire}
use dc_streaming_p2p.Registry.Bounds.{Valid, alive, length-expire, expire-Valid, admit-Valid}

register_held-Valid :
    (settings : Settings) (id : Text) (now : ℕ) (r : Registry)
    → Valid settings r
    → Valid settings (register_held id now (lookup id r.peers) r).0
register_held-Valid settings id now r v = elim (Option-cases (lookup id r.peers)) [
  | inr (held, e) ↦ rw e (admit-Valid settings id now (some held) r v (ground (arith, v.bounded)))
  | inl e ↦
      let w = expire-Valid settings now r v in
      let t = (expire now r).0 in
      elim (Bool-cases (leb r.ceiling (length r.peers))) [
        | inr room ↦
            rw (e, room) (admit-Valid settings id now none r v (ground (arith, v.same_settings)))
        | inl many ↦ elim (Bool-cases (leb t.ceiling (length t.peers))) [
          | inl still ↦ rw (e, many, still) w
          | inr freed ↦
              rw (e, many, freed)
                (admit-Valid settings id now none t w (ground (arith, w.same_settings)))
        ]
      ]
]

pub register-Valid :
    (settings : Settings) (raw : Text) (now : ℕ) (r : Registry)
    → Valid settings r
    → Valid settings (register raw now r).0
unfolding register
register-Valid settings raw now r v =
    ground (arith, v, register_held-Valid settings (trim_space raw) now r v)

pub delete-Valid :
    (settings : Settings) (id : Text) (r : Registry)
    → Valid settings r
    → Valid settings (record r { peers = delete id r.peers })
delete-Valid settings id r v = record {
  same_settings = v.same_settings;
  distinct = delete-Distinct id r.peers v.distinct;
  bounded = omega (arith, length-delete id r.peers v.distinct, v.bounded);
}

pub heartbeat-Valid :
    (settings : Settings) (id : Text) (now : ℕ) (r : Registry)
    → Valid settings r
    → Valid settings (heartbeat id now r).0
unfolding heartbeat
heartbeat-Valid settings id now r v = elim (Option-cases (lookup id r.peers)) [
  | inl e ↦ rw e (delete-Valid settings id r v)
  | inr (held, e) ↦ elim (Bool-cases (expired r.settings now held)) [
    | inl old ↦ rw (e, old) (delete-Valid settings id r v)
    | inr young ↦
        let w = admit-Valid settings id now (some held) r v (ground (arith, v.bounded)) in
        rw (e, young) w
  ]
]

-- One call of a method that may change the registry.
pub data Step (r : Registry) : Registry → Type 0 where
  registers : (raw : Text) (now : ℕ) → Step r (register raw now r).0
  beats : (id : Text) (now : ℕ) → Step r (heartbeat id now r).0
  leaves : (id : Text) → Step r (deregister id r)
  expires : (now : ℕ) → Step r (expire now r).0

pub data Reach (r : Registry) : Registry → Type 0 where
  here : Reach r r
  next : {t u : Registry} → Reach r t → Step t u → Reach r u

Step-Valid : (settings : Settings) {r t : Registry} → Step r t → Valid settings r → Valid settings t
unfolding deregister
Step-Valid settings {r} (registers raw now) v = register-Valid settings raw now r v
Step-Valid settings {r} (beats id now) v = heartbeat-Valid settings id now r v
Step-Valid settings {r} (leaves id) v = delete-Valid settings id r v
Step-Valid settings {r} (expires now) v = expire-Valid settings now r v

new-Valid : (opts : Options) (r : Registry) → new opts ≡ created r → Valid r.settings r
unfolding new
new-Valid opts r e = ground arith

pub Reach-Valid :
    (opts : Options) {r t : Registry} → new opts ≡ created r → Reach r t → Valid r.settings t
Reach-Valid opts {r} n here = new-Valid opts r n
Reach-Valid opts {r} n (next s st) = Step-Valid r.settings st (Reach-Valid opts n s)

-- In every history the registry holds at most as many peers as its ceiling. It refuses a peer for
-- want of room exactly when it does not hold that peer and its ceiling is reached by peers that are
-- not past the offline window.
pub register_full :
    (opts : Options) {r t : Registry} (raw : Text) (now : ℕ)
    → new opts ≡ created r
    → Reach r t
    → is_empty (trim_space raw) ≡ false
    → (length t.peers ≤ r.ceiling)
      × (((register raw now t).1 ≡ err full)
          ↔ ((lookup (trim_space raw) t.peers ≡ none) × (r.ceiling ≤ alive now t)))
unfolding register
register_full opts {r} {t} raw now n k some_id =
    let v = Reach-Valid opts n k in
    let same : t.ceiling ≡ r.ceiling = ap (λ (s : Settings). s.ceiling) v.same_settings in
    let same' : (expire now t).0.ceiling ≡ t.ceiling =
      ap (λ (s : Settings). s.ceiling) (expire-settings now t) in
    let left = length-expire r.settings now t v in
    let fewer : alive now t ≤ length t.peers = count-le-length _ t.peers in
    (
      v.bounded,
      (
        λ e. ground (arith, same, same', left, fewer),
        λ e. ground (arith, same, same', left, fewer),
      ),
    )

abbrev pub admitted : Text → ℕ → Option Entry → Peer
admitted id now o = record {
  id = id;
  registered_at = first_seen now o;
  last_seen = now;
  state = online;
}

look_up-admit :
    (id j : Text) (now : ℕ) (o : Option Entry) (r : Registry)
    → look_up j now (admit id now o r).0
      ≡ ite (text_dec id j) (some (admitted id now o)) (look_up j now r)
unfolding look_up state_of
look_up-admit id j now o r = ground (
  arith,
  lookup-insert id j (record { registered_at = first_seen now o; last_seen = now }) r.peers,
)

-- What `Register` answers, and what any peer reads as after it.
abbrev pub Registers : Text → ℕ → Registry → Registry × Result Peer → Type 0
Registers id now r (t, answer) =
    ((answer ≡ ok (admitted id now (lookup id r.peers)))
      × ((j : Text)
          → look_up j now t
            ≡ ite (text_dec id j) (some (admitted id now (lookup id r.peers))) (look_up j now r)))
    ⊎ (((e : Error) × (answer ≡ err e)) × ((j : Text) → look_up j now t ≡ look_up j now r))

register_held-Registers :
    (id : Text) (now : ℕ) (r : Registry)
    → Registers id now r (register_held id now (lookup id r.peers) r)
register_held-Registers id now r = elim (Option-cases (lookup id r.peers)) [
  | inr (held, e) ↦ rw e (inl (refl, λ j. look_up-admit id j now (some held) r))
  | inl e ↦
      let t = (expire now r).0 in
      elim (Bool-cases (leb r.ceiling (length r.peers))) [
        | inr room ↦ rw (e, room) (inl (refl, λ j. look_up-admit id j now none r))
        | inl many ↦ elim (Bool-cases (leb t.ceiling (length t.peers))) [
          | inl still ↦ rw (e, many, still) (inr ((full, refl), λ j. look_up-expire now r j))
          | inr freed ↦
              rw (e, many, freed)
                (inl (
                  refl,
                  λ j.
                      look_up-admit id j now none t
                      ∙ ap (ite (text_dec id j) (some (admitted id now none)))
                          (look_up-expire now r j),
                ))
        ]
      ]
]

-- `Register` answers with the peer as online, under the time at which it first registered, and then
-- it reads so; or it refuses. Either way every other peer reads as it did: nobody who can be
-- reached is evicted to make room.
pub register_lem :
    (raw : Text) (now : ℕ) (r : Registry) → Registers (trim_space raw) now r (register raw now r)
unfolding register
register_lem raw now r = elim (Bool-cases (is_empty (trim_space raw))) [
  | inl none_given ↦ rw none_given (inr ((no_identifier, refl), λ j. refl))
  | inr some_id ↦ rw some_id (register_held-Registers (trim_space raw) now r)
]

-- What any peer reads as after a report from one.
abbrev pub beaten : ℕ → Option Peer → Option Peer
beaten now none = none
beaten now (some peer) = some (record peer { last_seen = now; state = online })

abbrev pub beat_answer : Option Peer → Result Peer
beat_answer none = err not_registered
beat_answer (some peer) = ok peer

-- `Heartbeat` answers, and from then on a lookup does, exactly when the peer could still be looked
-- up: it is online again since now, registered when it was, and a peer past the offline window is
-- told to register and stays absent. No other peer reads otherwise than before.
pub heartbeat_lem :
    (id : Text) (now : ℕ) (r : Registry)
    → ((heartbeat id now r).1 ≡ beat_answer (beaten now (look_up id now r)))
      × ((j : Text)
          → look_up j now (heartbeat id now r).0
            ≡ ite (text_dec id j) (beaten now (look_up id now r)) (look_up j now r))
unfolding heartbeat look_up state_of
heartbeat_lem id now r = elim (Option-cases (lookup id r.peers)) [
  | inl e ↦ rw e (refl, λ j. ground (arith, lookup-delete id j r.peers))
  | inr (held, e) ↦ rw e (
    ground arith,
    λ j. ground (
      arith,
      lookup-delete id j r.peers,
      lookup-insert id j (record held { last_seen = now }) r.peers,
    ),
  )
]
