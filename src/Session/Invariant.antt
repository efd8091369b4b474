-- ===== src/Session/Invariant.antt =====
-- What holds of the store whenever its lock is free: its indexes say of the sessions what a scan
-- would say.
use dc_streaming_p2p.Base.{
  ℕ, ◌≤◌, ◌≡◌, ◌≢◌, Bool, true, false, ◌&&◌, not, some, Text, length, bit, is_some, holds, arith,
}
use dc_streaming_p2p.Base.Map.{lookup, Distinct}
use dc_streaming_p2p.Base.Map.Count.{count}
use dc_streaming_p2p.Session.Record.{State, MediaPath, Session, live, has, pair_key}
use dc_streaming_p2p.Session.Store.{Store}
use dc_streaming_p2p.Session.Steps.{row}
use dc_streaming_p2p.Session.Rows.{occurs}

-- A live session of a peer.
abbrev pub live_with : Text → Session → Bool
live_with peer held = live held && has peer held

-- A session in another state: the only way in which a stored session changes.
abbrev pub restated : State → MediaPath → ℕ → Session → Session
restated to path at held = record held { state = to; path = path; changed_at = at }

pub record Inv (s : Store) : Type 0 where
  pub ids : (id : Text) (h : Session) → lookup id s.sessions ≡ some h → h.id ≡ id
  pub apart : (id : Text) (h : Session) → lookup id s.sessions ≡ some h → h.caller ≢ h.callee
  pub distinct : Distinct s.sessions
  pub counted : s.live_count ≡ count live s.sessions
  pub paired :
      (id : Text) (h : Session)
      → lookup id s.sessions ≡ some h
      → live h ≡ true
      → lookup (pair_key h.caller h.callee) s.pairs ≡ some id
  pub pair_found :
      (key id : Text)
      → lookup key s.pairs ≡ some id
      → (h : Session) × (lookup id s.sessions ≡ some h)
        × (live h ≡ true)
        × (pair_key h.caller h.callee ≡ key)
  pub rows :
      (peer id : Text)
      → is_some (lookup id (row peer s.per_peer)) ≡ holds (live_with peer) (lookup id s.sessions)
  pub row_count : (peer : Text) → length (row peer s.per_peer) ≡ count (live_with peer) s.sessions
  pub row_distinct : (peer : Text) → Distinct (row peer s.per_peer)
  pub filed :
      (id : Text) (h : Session)
      → lookup id s.sessions ≡ some h
      → occurs id s.ended ≡ bit (not (live h))
  pub once : (id : Text) → occurs id s.ended ≤ 1
  pub live_bound : s.live_count ≤ s.ceiling
  pub row_bound : (peer : Text) → length (row peer s.per_peer) ≤ s.per_peer_cap

-- The order of the ended sessions names stored sessions only.
abbrev pub Compact : Store → Type 0
Compact s = (id : Text) → is_some (lookup id s.sessions) ≡ false → occurs id s.ended ≡ 0

pub record Valid (s : Store) : Type 0 where
  pub inv : Inv s
  pub compact : Compact s

pub found_self :
    (s : Store) (id : Text) (h : Session)
    → Inv s
    → lookup id s.sessions ≡ some h
    → lookup h.id s.sessions ≡ some h
found_self s id h v e = ground (arith, v.ids id h e)
