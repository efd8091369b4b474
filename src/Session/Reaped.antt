-- ===== src/Session/Reaped.antt =====
-- `Reap` of internal/session/session.go, over what the store holds under each identifier.
use dc_streaming_p2p.Base.{
  ℕ, ◌-◌, ◌≡◌, refl, ◌∙◌, ◌&&◌, none, some, Text, text_dec, ite, List, [], ◌∷◌, arith, Option,
  Option-cases, inl, inr, if◌then◌else◌, not, ap, ltb,
}
use dc_streaming_p2p.Base.Map.{lookup, lookup-delete, keys, elem, elem-keys}
use dc_streaming_p2p.Session.Record.{Session, live}
use dc_streaming_p2p.Session.Store.{Settings, Store}
use dc_streaming_p2p.Session.Steps.{settle, forget, compact_ended}
use dc_streaming_p2p.Session.Ops.{reap_settled, reap_id, reap_ids, reap}
use dc_streaming_p2p.Session.Invariant.{found_self}
use dc_streaming_p2p.Session.Settling.{settled, settle-settled, lookup-settle, settle-settings}
use dc_streaming_p2p.Session.Opening.{Sound}
use dc_streaming_p2p.Session.Closing.{Reaping, reap_id-Reaping}

-- What is left of a session when the store is swept: an ended one goes once it is past its
-- retention, counted from when it ended, and a session that timed out ended at its timeout.
abbrev pub reaped : ℕ → ℕ → ℕ → Option Session → Option Session
reaped retention timeout now none = none
reaped retention timeout now (some h) =
    if not (live (settled timeout now h))
      && ltb retention (now - (settled timeout now h).changed_at)
    then none
    else some (settled timeout now h)

reap_settled-lookup :
    (id : Text) (before after : Session) (now : ℕ) (s : Store) (j : Text)
    → lookup j (reap_settled id before now (s, after)).0.sessions
      ≡ ite
          (text_dec id j)
          (if not (live after) && ltb s.retention (now - after.changed_at)
            then none
            else lookup j s.sessions)
          (lookup j s.sessions)
unfolding forget
reap_settled-lookup id before after now s j = ground (arith, lookup-delete id j s.sessions)

reap_round :
    (settings : Settings) (id : Text) (now : ℕ) (s : Store) (j : Text)
    → Reaping settings s
    → lookup j (reap_id id now (lookup id s.sessions) s).0.sessions
      ≡ ite
          (text_dec id j)
          (reaped settings.retention settings.timeout now (lookup j s.sessions))
          (lookup j s.sessions)
reap_round settings id now s j r = elim (Option-cases (lookup id s.sessions)) [
  | inl e ↦ rw e (ground arith)
  | inr (h, e) ↦
      let found = found_self s id h r.inv e in
      rw e (
        reap_settled-lookup id h (settle h now s).1 now (settle h now s).0 j
        ∙ rw
            (
              ap (λ (k : Settings). k.retention) (settle-settings h now s ∙ r.same_settings),
              settle-settled h now s,
              lookup-settle h now s found j,
              ap (λ (k : Settings). k.timeout) r.same_settings,
            )
            (ground (arith, r.inv.ids id h e)))
]

reaped_twice :
    (retention timeout now : ℕ) (o : Option Session)
    → reaped retention timeout now (reaped retention timeout now o) ≡ reaped retention timeout now o
reaped_twice retention timeout now none = refl
reaped_twice retention timeout now (some h) = ground arith

reap_ids-lookup :
    (settings : Settings) (now : ℕ) (ids : List Text) (s : Store) (j : Text)
    → Reaping settings s
    → lookup j (reap_ids ids now s).0.sessions ≡ (
        if elem j ids
        then reaped settings.retention settings.timeout now (lookup j s.sessions)
        else lookup j s.sessions)
unfolding reap_ids
reap_ids-lookup settings now [] s j r = refl
reap_ids-lookup settings now (id ∷ ids) s j r =
    reap_ids-lookup settings now ids (reap_id id now (lookup id s.sessions) s).0 j
      (reap_id-Reaping settings id now s r)
    ∙ rw (reap_round settings id now s j r)
        (ground (arith, reaped_twice settings.retention settings.timeout now (lookup j s.sessions)))

-- In a sound store, a sweep forgets exactly the sessions that ended longer ago than the retention, and every other
-- session reads as it did: what had timed out is failed since its timeout.
pub reap-lookup :
    (settings : Settings) (now : ℕ) (s : Store) (id : Text)
    → Sound settings s
    → lookup id (reap now s).0.sessions
      ≡ reaped settings.retention settings.timeout now (lookup id s.sessions)
unfolding reap compact_ended
reap-lookup settings now s id o =
    reap_ids-lookup settings now (keys s.sessions) s id
      (record { inv = o.valid.inv; same_settings = o.same_settings; bounded = o.bounded })
    ∙ rw (elem-keys id s.sessions) (ground arith)
