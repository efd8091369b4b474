-- ===== src/Session/Loops.antt =====
-- `ClosePeer` of internal/session/session.go, over what the store holds under each identifier.
use dc_streaming_p2p.Base.{
  ℕ, ◌≡◌, refl, ◌∙◌, true, ◌&&◌, none, some, Text, text_dec, ite, List, [], ◌∷◌, arith, Option,
  Option-cases, inl, inr, Bool-cases, if◌then◌else◌, ap, is_some,
}
use dc_streaming_p2p.Base.Map.{lookup, lookup-insert, keys, elem, elem-keys}
use dc_streaming_p2p.Session.Record.{Session, live, has}
use dc_streaming_p2p.Session.Store.{Settings, Store}
use dc_streaming_p2p.Session.Steps.{settle, end_session}
use dc_streaming_p2p.Session.Ops.{
  member, as_closed, close_settled, close_member, close_ids, close_peer, cons_some,
}
use dc_streaming_p2p.Session.Invariant.{Inv, found_self}
use dc_streaming_p2p.Session.Settling.{
  settled, settle-settled, lookup-settle, settled-id, settle-found,
}
use dc_streaming_p2p.Session.Opening.{Sound}
use dc_streaming_p2p.Session.Closing.{close_member-Sound}

-- What is left of a session when a peer goes: its live sessions are closed then, a session that had
-- timed out before has failed when it did, and a session of others is as it was.
abbrev pub closed_by : Text → ℕ → ℕ → Session → Session
closed_by peer now timeout h =
    if has peer h
    then (if live (settled timeout now h)
        then as_closed now (settled timeout now h)
        else settled timeout now h)
    else h

abbrev pub closed_opt : Text → ℕ → ℕ → Option Session → Option Session
closed_opt peer now timeout none = none
closed_opt peer now timeout (some h) = some (closed_by peer now timeout h)

-- The session that the peer's going closes, if it does.
abbrev pub newly_closed : Text → ℕ → ℕ → Option Session → Option Session
newly_closed peer now timeout none = none
newly_closed peer now timeout (some h) =
    if has peer h && live (settled timeout now h)
    then some (as_closed now (settled timeout now h))
    else none

unfoldable pub find_id : Text → List Session → Option Session
find_id id [] = none
find_id id (h ∷ hs) = ite (text_dec h.id id) (some h) (find_id id hs)

close_settled-lookup :
    (now : ℕ) (g : Session) (s : Store) (j : Text)
    → lookup g.id s.sessions ≡ some g
    → lookup j (close_settled now (s, g)).0.sessions
      ≡ ite (text_dec g.id j) (some (if live g then as_closed now g else g)) (lookup j s.sessions)
unfolding end_session
close_settled-lookup now g s j found =
    ground (arith, lookup-insert g.id j (as_closed now g) s.sessions)

close_found :
    (peer : Text) (now : ℕ) (s : Store) (j : Text) (h : Session)
    → lookup h.id s.sessions ≡ some h
    → has peer h ≡ true
    → lookup j (close_settled now (settle h now s)).0.sessions
      ≡ ite (text_dec h.id j) (some (closed_by peer now s.timeout h)) (lookup j s.sessions)
close_found peer now s j h found inside =
    close_settled-lookup now (settle h now s).1 (settle h now s).0 j (settle-found h now s found)
    ∙ rw (settled-id h now s found, settle-settled h now s, lookup-settle h now s found j, inside)
        (ground arith)

-- A round of the loop closes the session that it visits, and no other.
close_round :
    (peer id : Text) (now : ℕ) (s : Store) (j : Text)
    → Inv s
    → lookup j (close_member now (member peer (lookup id s.sessions)) s).0.sessions
      ≡ ite
          (text_dec id j)
          (closed_opt peer now s.timeout (lookup j s.sessions))
          (lookup j s.sessions)
close_round peer id now s j v = elim (Option-cases (lookup id s.sessions)) [
  | inl e ↦ rw e (ground arith)
  | inr (h, e) ↦ elim (Bool-cases (has peer h)) [
    | inl inside ↦
        rw (e, inside)
          (close_found peer now s j h (found_self s id h v e) inside ∙ ground (arith, v.ids id h e))
    | inr outside ↦ rw (e, outside) (ground arith)
  ]
]

round_closed :
    (peer id : Text) (now : ℕ) (s : Store)
    → Inv s
    → (close_member now (member peer (lookup id s.sessions)) s).1
      ≡ newly_closed peer now s.timeout (lookup id s.sessions)
round_closed peer id now s v = elim (Option-cases (lookup id s.sessions)) [
  | inl e ↦ rw e refl
  | inr (h, e) ↦ elim (Bool-cases (has peer h)) [
    | inl inside ↦ rw (e, inside) (ground (arith, settle-settled h now s))
    | inr outside ↦ rw (e, outside) refl
  ]
]

-- Closing twice at one time is closing once.
closed_by_twice :
    (peer : Text) (now timeout : ℕ) (o : Option Session)
    → closed_opt peer now timeout (closed_opt peer now timeout o) ≡ closed_opt peer now timeout o
unfolding has
closed_by_twice peer now timeout none = refl
closed_by_twice peer now timeout (some h) = ground arith

not_closed_twice :
    (peer : Text) (now timeout : ℕ) (o : Option Session)
    → newly_closed peer now timeout (closed_opt peer now timeout o) ≡ none
unfolding has
not_closed_twice peer now timeout none = refl
not_closed_twice peer now timeout (some h) = ground arith

newly_closed-id :
    (s : Store) (peer id : Text) (now timeout : ℕ)
    → Inv s
    → (g : Session) → newly_closed peer now timeout (lookup id s.sessions) ≡ some g
    → g.id ≡ id
newly_closed-id s peer id now timeout v g e = elim (Option-cases (lookup id s.sessions)) [
  | inl n ↦ ground arith
  | inr (h, f) ↦ ground (arith, v.ids id h f)
]

find_id-cons :
    (id j : Text) (now : ℕ) (one : Option Session) (more : List Session)
    → ((g : Session) → one ≡ some g → g.id ≡ id)
    → find_id j (cons_some one more)
      ≡ (if is_some one then ite (text_dec id j) one (find_id j more) else find_id j more)
unfolding find_id
find_id-cons id j now none more named = refl
find_id-cons id j now (some g) more named = ground (arith, named g)

module _ (settings : Settings) (peer : Text) (now : ℕ) where
  close_ids-lookup :
      (ids : List Text) (s : Store) (j : Text)
      → Sound settings s
      → lookup j (close_ids peer ids now s).0.sessions ≡ (
          if elem j ids
          then closed_opt peer now settings.timeout (lookup j s.sessions)
          else lookup j s.sessions)
  unfolding close_ids
  close_ids-lookup [] s j o = refl
  close_ids-lookup (id ∷ ids) s j o =
      let o' = close_member-Sound settings peer id now s o in
      let s' = (close_member now (member peer (lookup id s.sessions)) s).0 in
      let r = close_round peer id now s j o.valid.inv in
      let t : s.timeout ≡ settings.timeout = ap (λ (k : Settings). k.timeout) o.same_settings in
      close_ids-lookup ids s' j o'
      ∙ rw (r, t) (ground (arith, closed_by_twice peer now settings.timeout (lookup j s.sessions)))

  close_ids-found :
      (ids : List Text) (s : Store) (j : Text)
      → Sound settings s
      → find_id j (close_ids peer ids now s).1 ≡ (
          if elem j ids then newly_closed peer now settings.timeout (lookup j s.sessions) else none)
  unfolding close_ids find_id
  close_ids-found [] s j o = refl
  close_ids-found (id ∷ ids) s j o =
      let o' = close_member-Sound settings peer id now s o in
      let s' = (close_member now (member peer (lookup id s.sessions)) s).0 in
      let r = close_round peer id now s j o.valid.inv in
      let t : s.timeout ≡ settings.timeout = ap (λ (k : Settings). k.timeout) o.same_settings in
      let c =
        round_closed peer id now s o.valid.inv
        ∙ ap (λ k. newly_closed peer now k (lookup id s.sessions)) t in
      let rest = close_ids-found ids s' j o' in
      rw c (
        find_id-cons id j now (newly_closed peer now settings.timeout (lookup id s.sessions))
          (close_ids peer ids now s').1 (newly_closed-id s peer id now settings.timeout o.valid.inv)
        ∙ rw (rest, r, t)
            (ground (arith, not_closed_twice peer now settings.timeout (lookup j s.sessions))))

-- In a sound store, when a peer goes, exactly its sessions that were still live are closed; a session of its that had
-- passed the negotiation timeout reads as failed since then, and no other session is touched.
pub close_peer-lookup :
    (settings : Settings) (peer : Text) (now : ℕ) (s : Store) (id : Text)
    → Sound settings s
    → lookup id (close_peer peer now s).0.sessions
      ≡ closed_opt peer now settings.timeout (lookup id s.sessions)
unfolding close_peer
close_peer-lookup settings peer now s id o =
    close_ids-lookup settings peer now (keys s.sessions) s id o
    ∙ rw (elem-keys id s.sessions) (ground arith)

-- In a sound store, `ClosePeer` reports the sessions that it closed: each as it closed it, and no other session.
pub close_peer-found :
    (settings : Settings) (peer : Text) (now : ℕ) (s : Store) (id : Text)
    → Sound settings s
    → find_id id (close_peer peer now s).1
      ≡ newly_closed peer now settings.timeout (lookup id s.sessions)
unfolding close_peer
close_peer-found settings peer now s id o =
    close_ids-found settings peer now (keys s.sessions) s id o
    ∙ rw (elem-keys id s.sessions) (ground arith)
