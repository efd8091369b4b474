-- ===== src/Registry/Expiry.antt =====
-- `Expire` and `Lookup` of internal/registry/registry.go, over what a registry holds.
use dc_streaming_p2p.Base.{
  ℕ, ◌≡◌, refl, ◌∙◌, ap, Bool, false, none, some, Text, text_dec, ite, List, [], ◌∷◌, arith, Option,
  Option-cases, inl, inr, if◌then◌else◌, holds,
}
use dc_streaming_p2p.Base.Map.{lookup, lookup-delete, keys, elem, elem-keys}
use dc_streaming_p2p.Registry.Defs.{
  Registry, Settings, Entry, expired, expire_entry, expire_ids, expire, look_up,
}

-- What `Expire` leaves of an entry.
abbrev pub unexpired : Settings → ℕ → Option Entry → Option Entry
unexpired settings now none = none
unexpired settings now (some held) = if expired settings now held then none else some held

expire_round :
    (id : Text) (now : ℕ) (r : Registry) (j : Text)
    → lookup j (expire_entry id now (lookup id r.peers) r).0.peers
      ≡ ite (text_dec id j) (unexpired r.settings now (lookup j r.peers)) (lookup j r.peers)
expire_round id now r j = elim (Option-cases (lookup id r.peers)) [
  | inl e ↦ rw e (ground arith)
  | inr (held, e) ↦ rw e (ground (arith, lookup-delete id j r.peers))
]

expire_entry-settings :
    (id : Text) (now : ℕ) (o : Option Entry) (r : Registry)
    → (expire_entry id now o r).0.settings ≡ r.settings
expire_entry-settings id now none r = refl
expire_entry-settings id now (some held) r = ground arith

pub expire_ids-settings :
    (ids : List Text) (now : ℕ) (r : Registry) → (expire_ids ids now r).0.settings ≡ r.settings
unfolding expire_ids
expire_ids-settings [] now r = refl
expire_ids-settings (id ∷ ids) now r =
    expire_ids-settings ids now (expire_entry id now (lookup id r.peers) r).0
    ∙ expire_entry-settings id now (lookup id r.peers) r

unexpired_twice :
    (settings : Settings) (now : ℕ) (o : Option Entry)
    → unexpired settings now (unexpired settings now o) ≡ unexpired settings now o
unexpired_twice settings now none = refl
unexpired_twice settings now (some held) = ground arith

expire_ids-lookup :
    (settings : Settings) (ids : List Text) (now : ℕ) (r : Registry) (j : Text)
    → r.settings ≡ settings
    → lookup j (expire_ids ids now r).0.peers
      ≡ (if elem j ids then unexpired settings now (lookup j r.peers) else lookup j r.peers)
unfolding expire_ids
expire_ids-lookup settings [] now r j same = refl
expire_ids-lookup settings (id ∷ ids) now r j same =
    expire_ids-lookup settings ids now (expire_entry id now (lookup id r.peers) r).0 j
      (expire_entry-settings id now (lookup id r.peers) r ∙ same)
    ∙ rw (expire_round id now r j, same)
        (ground (arith, unexpired_twice settings now (lookup j r.peers)))

-- The identifiers that the loop reports are those of expired entries that it visits.
abbrev removes : Settings → ℕ → Option Entry → Bool
removes settings now = holds (expired settings now)

round_removes :
    (id : Text) (now : ℕ) (r : Registry)
    → (expire_entry id now (lookup id r.peers) r).1 ≡ removes r.settings now (lookup id r.peers)
round_removes id now r = elim (Option-cases (lookup id r.peers)) [
  | inl e ↦ rw e refl
  | inr (held, e) ↦ rw e (ground arith)
]

removes-unexpired :
    (settings : Settings) (now : ℕ) (o : Option Entry)
    → removes settings now (unexpired settings now o) ≡ false
removes-unexpired settings now none = refl
removes-unexpired settings now (some held) = ground arith

expire_ids-elem :
    (settings : Settings) (ids : List Text) (now : ℕ) (r : Registry) (j : Text)
    → r.settings ≡ settings
    → elem j (expire_ids ids now r).1
      ≡ (if elem j ids then removes settings now (lookup j r.peers) else false)
unfolding expire_ids
expire_ids-elem settings [] now r j same = refl
expire_ids-elem settings (id ∷ ids) now r j same =
    let r' = (expire_entry id now (lookup id r.peers) r).0 in
    let rest =
      expire_ids-elem settings ids now r' j
        (expire_entry-settings id now (lookup id r.peers) r ∙ same) in
    let gone_now = round_removes id now r ∙ ap (λ k. removes k now (lookup id r.peers)) same in
    let left =
      expire_round id now r j
      ∙ ap (λ k. ite (text_dec id j) (unexpired k now (lookup j r.peers)) (lookup j r.peers))
          same in
    ground (arith, rest, gone_now, left, removes-unexpired settings now (lookup j r.peers))

-- `Expire` removes exactly the peers that have been silent for longer than the offline window, and
-- reports exactly those.
pub expire_lem :
    (now : ℕ) (r : Registry) (id : Text)
    → (lookup id (expire now r).0.peers ≡ unexpired r.settings now (lookup id r.peers))
      × (elem id (expire now r).1 ≡ holds (expired r.settings now) (lookup id r.peers))
unfolding expire
expire_lem now r id = (
  expire_ids-lookup r.settings (keys r.peers) now r id refl
      ∙ rw (elem-keys id r.peers) (ground arith),
  expire_ids-elem r.settings (keys r.peers) now r id refl
      ∙ rw (elem-keys id r.peers) (ground arith),
)

pub expire-settings : (now : ℕ) (r : Registry) → (expire now r).0.settings ≡ r.settings
unfolding expire
expire-settings now r = expire_ids-settings (keys r.peers) now r

-- A lookup cannot tell whether the sweep has run: a peer past the offline window is absent before
-- and after, and every other peer reads the same.
pub look_up-expire :
    (now : ℕ) (r : Registry) (id : Text) → look_up id now (expire now r).0 ≡ look_up id now r
unfolding look_up
look_up-expire now r id = rw ((expire_lem now r id).0, expire-settings now r) (ground arith)
