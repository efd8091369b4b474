-- ===== src/Session/Ops.antt =====
-- The methods of the `Store` of internal/session/session.go. The clock's reading is an argument,
-- as are the identifier that `newID` makes and the answers of the registry.
use dc_streaming_p2p.Base.{
  ℕ, ◌+◌, ◌-◌, Bool, true, false, ◌&&◌, not, Option, none, some, List, [], ◌∷◌, Text, if◌then◌else◌,
  ltb, leb, length,
}
use dc_streaming_p2p.Base.Map.{lookup, keys, insert}
use dc_streaming_p2p.Base.Strings.{same, is_empty, trim_space}
use dc_streaming_p2p.Session.Record.{
  State, negotiating, connected, closed, MediaPath, unknown, not_found, not_allowed, self, full,
  too_many_for_peer, bad_transition, no_caller, no_callee, no_identifier, Result, ok, err, Session,
  live, is_live, has, can_move, pair_key,
}
use dc_streaming_p2p.Session.Store.{Store}
use dc_streaming_p2p.Session.Steps.{
  row, track, write, end_session, is_negotiating, is_failed, settle, forget, settle_peer, trim,
  compact_ended, find_pair,
}

-- The loop of `Open` over the caller and the callee: whether each has room for one more session.
unfoldable pub make_room : List Text → ℕ → Store → Store × Bool
make_room [] now s = (s, true)
make_room (peer ∷ peers) now s =
    let rest = make_room peers now in
    if ltb (length (row peer s.per_peer)) s.per_peer_cap
    then rest s
    else (let s' = settle_peer peer now s in
        if leb s'.per_peer_cap (length (row peer s'.per_peer)) then (s', false) else rest s')

abbrev pub new_session : Text → Text → Text → ℕ → Session
new_session id caller callee now = record {
  id = id;
  caller = caller;
  callee = callee;
  state = negotiating;
  path = unknown;
  opened_at = now;
  changed_at = now;
}

-- The writes at the end of `Open`.
unfoldable pub create : Session → Store → Store
unfolding track
create made s =
    let tracked = track made.callee made.id (track made.caller made.id s) in
    record s {
      sessions = insert made.id made s.sessions;
      pairs = insert (pair_key made.caller made.callee) made.id s.pairs;
      live_count = s.live_count + 1;
      per_peer = tracked.per_peer;
    }

abbrev pub open_with : Option Text → Text → Text → ℕ → Store → Store × Result Session
open_with none caller callee now s = (s, err no_identifier)
open_with (some id) caller callee now s =
    (create (new_session id caller callee now) s, ok (new_session id caller callee now))

abbrev pub open_in_room : Option Text → Text → Text → ℕ → Store × Bool → Store × Result Session
open_in_room fresh caller callee now (s, false) = (s, err too_many_for_peer)
open_in_room fresh caller callee now (s, true) = open_with fresh caller callee now (trim s)

abbrev pub open_unpaired :
    Option Text → Text → Text → ℕ → Store × Option Session → Store × Result Session
open_unpaired fresh caller callee now (s, some existing) = (s, ok existing)
open_unpaired fresh caller callee now (s, none) =
    if leb s.ceiling s.live_count
    then (s, err full)
    else open_in_room fresh caller callee now (make_room (caller ∷ callee ∷ []) now s)

-- `Open` from the lock on.
unfoldable pub open_locked : Option Text → Text → Text → ℕ → Store → Store × Result Session
unfolding make_room create
open_locked fresh caller callee now s =
    open_unpaired fresh caller callee now (find_pair caller callee now s)

unfoldable pub open_trimmed : Option Text → Text → Text → ℕ → Store → Store × Result Session
open_trimmed fresh caller callee now s =
    if is_empty caller
    then (s, err no_caller)
    else if is_empty callee
    then (s, err no_callee)
    else if same caller callee
    then (s, err self)
    else if not (s.allows caller callee)
    then (s, err not_allowed)
    else open_locked fresh caller callee now s

-- `Open`. `fresh` is what `newID` answers, `none` where it fails.
unfoldable pub open_session : Option Text → Text → Text → ℕ → Store → Store × Result Session
unfolding open_trimmed open_locked
open_session fresh caller callee now s =
    open_trimmed fresh (trim_space caller) (trim_space callee) now s

-- `Reachable`, over the answer of the registry, or none at all.
abbrev pub reachable : Option (Text → Bool) → Text → Bool
reachable none peer = true
reachable (some look_up) peer = look_up peer

-- `found, ok := s.sessions[id]` and the test that the asking peer is in it.
abbrev pub member : Text → Option Session → Option Session
member peer none = none
member peer (some held) = if has peer held then some held else none

abbrev pub answer : Store × Session → Store × Result Session
answer (s, held) = (s, ok held)

abbrev pub get_found : ℕ → Option Session → Store → Store × Result Session
get_found now none s = (s, err not_found)
get_found now (some held) s = answer (settle held now s)

-- `Get`
unfoldable pub get : Text → Text → ℕ → Store → Store × Result Session
get id asked_by now s = get_found now (member asked_by (lookup id s.sessions)) s

abbrev pub path_for : State → MediaPath → MediaPath → MediaPath
path_for connected reported held = reported
path_for _ reported held = held

-- The session that `Report` writes.
abbrev pub moved : State → MediaPath → ℕ → Session → Session
moved to path now held = record held {
  state = to;
  changed_at = now;
  path = path_for to path held.path;
}

abbrev pub report_settled : State → MediaPath → ℕ → Store × Session → Store × Result Session
report_settled to path now (s, held) =
    if can_move held.state to
    then (
      (if live held && not (is_live to)
          then end_session (moved to path now held) (write (moved to path now held) s)
          else write (moved to path now held) s),
      ok (moved to path now held),
    )
    else (s, err bad_transition)

abbrev pub report_found : State → MediaPath → ℕ → Option Session → Store → Store × Result Session
report_found to path now none s = (s, err not_found)
report_found to path now (some held) s = report_settled to path now (settle held now s)

-- `Report`
unfoldable pub report : Text → Text → State → MediaPath → ℕ → Store → Store × Result Session
report id reported_by to path now s =
    report_found to path now (member reported_by (lookup id s.sessions)) s

abbrev pub as_closed : ℕ → Session → Session
as_closed now held = record held { state = closed; changed_at = now }

-- A round of the loop of `ClosePeer`: the store, and the session if it was closed.
abbrev pub close_settled : ℕ → Store × Session → Store × Option Session
close_settled now (s, held) =
    if live held
    then (
      end_session (as_closed now held) (write (as_closed now held) s),
      some (as_closed now held),
    )
    else (s, none)

abbrev pub close_member : ℕ → Option Session → Store → Store × Option Session
close_member now none s = (s, none)
close_member now (some held) s = close_settled now (settle held now s)

abbrev pub cons_some {ℓ} : {A : Type ℓ} → Option A → List A → List A
cons_some none xs = xs
cons_some (some x) xs = x ∷ xs

-- `for id, held := range s.sessions`, over the keys in the order in which the range takes them.
unfoldable pub close_ids : Text → List Text → ℕ → Store → Store × List Session
close_ids peer [] now s = (s, [])
close_ids peer (id ∷ ids) now s =
    let (s', one) = close_member now (member peer (lookup id s.sessions)) s in
    let (s'', more) = close_ids peer ids now s' in (s'', cons_some one more)

-- `ClosePeer`
unfoldable pub close_peer : Text → ℕ → Store → Store × List Session
unfolding close_ids
close_peer peer now s = close_ids peer (keys s.sessions) now s

-- `Count`, and `Held`.
abbrev pub count_live : Store → ℕ
count_live s = s.live_count

abbrev pub held : Store → ℕ
held s = length s.sessions

abbrev pub to_failed : Session → Session → ℕ
to_failed before after = if is_negotiating before.state && is_failed after.state then 1 else 0

-- A round of the loop of `Reap`: the store, and what it adds to `failed` and `forgotten`.
abbrev pub reap_settled : Text → Session → ℕ → Store × Session → Store × ℕ × ℕ
reap_settled id before now (s, after) =
    if not (live after) && ltb s.retention (now - after.changed_at)
    then (forget id after s, to_failed before after, 1)
    else (s, to_failed before after, 0)

abbrev pub reap_id : Text → ℕ → Option Session → Store → Store × ℕ × ℕ
reap_id id now none s = (s, 0, 0)
reap_id id now (some held) s = reap_settled id held now (settle held now s)

unfoldable pub reap_ids : List Text → ℕ → Store → Store × ℕ × ℕ
reap_ids [] now s = (s, 0, 0)
reap_ids (id ∷ ids) now s =
    let (s', f, g) = reap_id id now (lookup id s.sessions) s in
    let (s'', failed_more, forgotten_more) = reap_ids ids now s' in
    (s'', f + failed_more, g + forgotten_more)

-- `Reap`
unfoldable pub reap : ℕ → Store → Store × ℕ × ℕ
unfolding reap_ids
reap now s =
    let (s', failed_count, forgotten) = reap_ids (keys s.sessions) now s in
    (compact_ended s', failed_count, forgotten)
