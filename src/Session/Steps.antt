-- ===== src/Session/Steps.antt =====
-- What internal/session/session.go does under the store's lock, in the functions that end in
-- `Locked`. A step returns the new store, and its result where it has one.
use dc_streaming_p2p.Base.{
  ℕ, ◌+◌, ◌-◌, ◌*◌, Bool, true, false, ◌||◌, not, Option, none, some, List, [], ◌∷◌, ◌++◌, Text,
  if◌then◌else◌, leb, length, is_some,
}
use dc_streaming_p2p.Base.Map.{Map, lookup, insert, delete, keys}
use dc_streaming_p2p.Base.Strings.{same}
use dc_streaming_p2p.Session.Record.{State, negotiating, failed, Session, live, pair_key}
use dc_streaming_p2p.Session.Store.{Store, retained_per_live}

-- `s.perPeer[peer]`, where a missing row reads as a nil map.
abbrev pub row_of : Option (Map Bool) → Map Bool
row_of none = []
row_of (some held) = held

abbrev pub row : Text → Map (Map Bool) → Map Bool
row peer rows = row_of (lookup peer rows)

-- `trackLocked`
unfoldable pub track : Text → Text → Store → Store
track peer id s = record s {
  per_peer = insert peer (insert id true (row peer s.per_peer)) s.per_peer;
}

abbrev pub put_back : Text → Map Bool → Map (Map Bool) → Map (Map Bool)
put_back peer [] rows = delete peer rows
put_back peer (e ∷ held) rows = insert peer (e ∷ held) rows

abbrev pub drop_id : Text → Text → Option (Map Bool) → Map (Map Bool) → Map (Map Bool)
drop_id peer id none rows = rows
drop_id peer id (some held) rows = put_back peer (delete id held) rows

-- `untrackLocked`
unfoldable pub untrack : Text → Text → Store → Store
untrack peer id s = record s { per_peer = drop_id peer id (lookup peer s.per_peer) s.per_peer }

-- `s.sessions[held.ID] = held`
abbrev pub write : Session → Store → Store
write held s = record s { sessions = insert held.id held s.sessions }

-- `endedLocked`. The counter is not 0 here (`Session.Invariant`), so `-` is exact.
unfoldable pub end_session : Session → Store → Store
unfolding untrack
end_session held s = record s {
  live_count = s.live_count - 1;
  per_peer = (untrack held.callee held.id (untrack held.caller held.id s)).per_peer;
  pairs = delete (pair_key held.caller held.callee) s.pairs;
  ended = s.ended ++ held.id ∷ [];
}

abbrev pub is_negotiating : State → Bool
is_negotiating negotiating = true
is_negotiating _ = false

abbrev pub is_failed : State → Bool
is_failed failed = true
is_failed _ = false

-- The condition of `settleLocked`, the other way round: negotiating, and for too long.
abbrev pub timed_out : ℕ → ℕ → Session → Bool
timed_out timeout now held =
    not (not (is_negotiating held.state) || leb (now - held.opened_at) timeout)

-- What `settleLocked` makes of a session that timed out.
abbrev pub as_failed : ℕ → Session → Session
as_failed timeout held = record held { state = failed; changed_at = held.opened_at + timeout }

-- `settleLocked`
unfoldable pub settle : Session → ℕ → Store → Store × Session
unfolding end_session
settle held now s =
    if timed_out s.timeout now held
    then (
      end_session (as_failed s.timeout held) (write (as_failed s.timeout held) s),
      as_failed s.timeout held,
    )
    else (s, held)

abbrev pub drop_pair : Text → Text → Option Text → Map Text → Map Text
drop_pair id key none pairs = pairs
drop_pair id key (some existing) pairs = if same existing id then delete key pairs else pairs

-- `forgetLocked`
unfoldable pub forget : Text → Session → Store → Store
forget id held s = record s {
  sessions = delete id s.sessions;
  pairs =
      drop_pair id (pair_key held.caller held.callee)
        (lookup (pair_key held.caller held.callee) s.pairs) s.pairs;
}

abbrev pub settle_id : Text → Text → ℕ → Option Session → Store → Store
settle_id peer id now none s = untrack peer id s
settle_id peer id now (some held) s = (settle held now s).0

unfoldable pub settle_ids : Text → List Text → ℕ → Store → Store
unfolding untrack settle
settle_ids peer [] now s = s
settle_ids peer (id ∷ ids) now s =
    settle_ids peer ids now (settle_id peer id now (lookup id s.sessions) s)

-- `settlePeerLocked`
unfoldable pub settle_peer : Text → ℕ → Store → Store
unfolding settle_ids
settle_peer peer now s = settle_ids peer (keys (row peer s.per_peer)) now s

-- One round of the loop of `trimLocked`, at the identifier that it takes off the order.
abbrev pub drop_oldest : Text → Option Session → Store → Store
drop_oldest oldest none s = s
drop_oldest oldest (some held) s = if live held then s else forget oldest held s

-- The loop of `trimLocked`, where the product is taken to be within Go's `int`.
unfoldable pub trim_from : List Text → Store → Store
unfolding forget
trim_from [] s = record s { ended = [] }
trim_from (oldest ∷ rest) s =
    if leb (s.ceiling * retained_per_live) (length s.sessions)
    then trim_from rest (drop_oldest oldest (lookup oldest s.sessions) (record s { ended = rest }))
    else record s { ended = oldest ∷ rest }

-- `trimLocked`
unfoldable pub trim : Store → Store
unfolding trim_from
trim s = trim_from s.ended s

unfoldable pub held_ids : Map Session → List Text → List Text
held_ids sessions [] = []
held_ids sessions (id ∷ ids) =
    if is_some (lookup id sessions) then id ∷ held_ids sessions ids else held_ids sessions ids

-- `compactEndedLocked`
unfoldable pub compact_ended : Store → Store
unfolding held_ids
compact_ended s = record s { ended = held_ids s.sessions s.ended }

abbrev pub if_live : Store × Session → Store × Option Session
if_live (s, held) = (s, if live held then some held else none)

abbrev pub pair_held : ℕ → Text → Option Session → Store → Store × Option Session
pair_held now key none s = (record s { pairs = delete key s.pairs }, none)
pair_held now key (some held) s = if_live (settle held now s)

abbrev pub pair_at : ℕ → Text → Option Text → Store → Store × Option Session
pair_at now key none s = (s, none)
pair_at now key (some id) s = pair_held now key (lookup id s.sessions) s

-- `pairLocked`
unfoldable pub find_pair : Text → Text → ℕ → Store → Store × Option Session
unfolding settle
find_pair a b now s = pair_at now (pair_key a b) (lookup (pair_key a b) s.pairs) s
