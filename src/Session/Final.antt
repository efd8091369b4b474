-- ===== src/Session/Final.antt =====
-- Ended sessions under each method of internal/session/session.go.
use dc_streaming_p2p.Base.{
  ℕ, ◌≡◌, Bool, true, false, none, some, Text, [], ◌∷◌, arith, Option, Option-cases, inl, inr,
  Bool-cases, ◌⊎◌, leb,
}
use dc_streaming_p2p.Base.Map.{lookup, lookup-insert}
use dc_streaming_p2p.Base.Strings.{trim_space}
use dc_streaming_p2p.Session.Record.{State, MediaPath, Session, live, can_move}
use dc_streaming_p2p.Session.Store.{Settings, Store, Options, new, created}
use dc_streaming_p2p.Session.Steps.{find_pair, trim}
use dc_streaming_p2p.Session.Ops.{
  create, new_session, make_room, member, open_in_room, open_unpaired, open_locked, open_trimmed,
  open_session, get, report, close_peer, reap,
}
use dc_streaming_p2p.Session.Invariant.{Valid}
use dc_streaming_p2p.Session.Shrinking.{
  KeptOrGone, Shrinks, Shrinks-refl, Shrinks-trans, settle-Narrows,
}
use dc_streaming_p2p.Session.Rooms.{make_room-Makes}
use dc_streaming_p2p.Session.Trimming.{trim-Narrows}
use dc_streaming_p2p.Session.Opening.{Sound, Fresh, find_pair-Pairs}
use dc_streaming_p2p.Session.Reporting.{member-found}
use dc_streaming_p2p.Session.Outcomes.{report_lem}
use dc_streaming_p2p.Session.Loops.{close_peer-lookup}
use dc_streaming_p2p.Session.Reaped.{reap-lookup}
use dc_streaming_p2p.Session.History.{Step, opens, gets, reports, closes, reaps, Reach, Reach-Sound}

-- Every ended session of one store is as it was in another, or is gone from it.
abbrev pub Final : Store → Store → Type 0
Final s t =
    (id : Text) (h : Session) → lookup id s.sessions ≡ some h → live h ≡ false → KeptOrGone id h t

open_in_room-Final :
    (base : Store) (fresh : Option Text) (caller callee : Text) (now : ℕ) (s : Store) (roomy : Bool)
    → Valid s
    → Shrinks base s
    → Fresh fresh base
    → Final base (open_in_room fresh caller callee now (s, roomy)).0
open_in_room-Final base fresh caller callee now s false v k f id h e over = k.final id h e over
open_in_room-Final base none caller callee now s true v k f id h e over =
    (Shrinks-trans k (trim-Narrows s v).shrinks).final id h e over
open_in_room-Final base (some made) caller callee now s true v k f id h e over =
    unfold create in
    ground (
      arith,
      (Shrinks-trans k (trim-Narrows s v).shrinks).final id h e over,
      lookup-insert made id (new_session made caller callee now) (trim s).sessions,
    )

module _ (fresh : Option Text) (caller callee : Text) (now : ℕ) where
  open_unpaired-Final :
      (base s : Store) (existing : Option Session)
      → Valid s
      → Shrinks base s
      → Fresh fresh base
      → Final base (open_unpaired fresh caller callee now (s, existing)).0
  open_unpaired-Final base s (some h) v k f = k.final
  open_unpaired-Final base s none v k f =
      let m = make_room-Makes (caller ∷ callee ∷ []) now s v in
      let t = make_room (caller ∷ callee ∷ []) now s in
      elim (Bool-cases (leb s.ceiling s.live_count)) [
        | inl full ↦ rw full (k.final)
        | inr room ↦ rw room (
            open_in_room-Final base fresh caller callee now t.0 t.1 m.0.valid
              (Shrinks-trans k m.0.shrinks) f)
      ]

  open_locked-Final :
      (s : Store) → Valid s → Fresh fresh s → Final s (open_locked fresh caller callee now s).0
  unfolding open_locked
  open_locked-Final s v f =
      let (n, p) = find_pair-Pairs caller callee now s v in
      let t = find_pair caller callee now s in open_unpaired-Final s t.0 t.1 n.valid n.shrinks f

  open_trimmed-Final :
      (s : Store) → Valid s → Fresh fresh s → Final s (open_trimmed fresh caller callee now s).0
  unfolding open_trimmed
  open_trimmed-Final s v f id h e over = ground (arith, open_locked-Final s v f id h e over)

get-Final : (id peer : Text) (now : ℕ) (s : Store) → Valid s → Final s (get id peer now s).0
unfolding get
get-Final id peer now s v = elim (Option-cases (member peer (lookup id s.sessions))) [
  | inl e ↦ rw e (Shrinks-refl s).final
  | inr (h, e) ↦
      rw e ((settle-Narrows h now s v (member-found s id peer h v.inv e).0).shrinks.final)
]

report-Final :
    (id peer : Text) (to : State) (path : MediaPath) (now : ℕ) (s : Store)
    → Valid s
    → Final s (report id peer to path now s).0
unfolding can_move
report-Final id peer to path now s v j h e over =
    ground (arith, (report_lem id peer to path now s v.inv).1 j)

close_peer-Final :
    (settings : Settings) (peer : Text) (now : ℕ) (s : Store)
    → Sound settings s
    → Final s (close_peer peer now s).0
close_peer-Final settings peer now s o j h e over =
    ground (arith, close_peer-lookup settings peer now s j o)

reap-Final : (settings : Settings) (now : ℕ) (s : Store) → Sound settings s → Final s (reap now s).0
reap-Final settings now s o j h e over = ground (arith, reap-lookup settings now s j o)

pub Step-Final : (settings : Settings) {s t : Store} → Sound settings s → Step s t → Final s t
unfolding open_session
Step-Final settings {s} o (opens fresh caller callee now f) =
    open_trimmed-Final fresh (trim_space caller) (trim_space callee) now s o.valid f
Step-Final settings {s} o (gets id peer now) = get-Final id peer now s o.valid
Step-Final settings {s} o (reports id peer to path now) = report-Final id peer to path now s o.valid
Step-Final settings {s} o (closes peer now) = close_peer-Final settings peer now s o
Step-Final settings {s} o (reaps now) = reap-Final settings now s o

-- In every history, whatever the next call is, a session that has ended stands as it was after the
-- call, or the store holds none of its identifier.
pub ended_is_final :
    (opts : Options) {s t u : Store} (id : Text) (h : Session)
    → new opts ≡ created s
    → Reach s t
    → Step t u
    → lookup id t.sessions ≡ some h
    → live h ≡ false
    → (lookup id u.sessions ≡ some h) ⊎ (lookup id u.sessions ≡ none)
ended_is_final opts {s} id h n r st e over =
    Step-Final s.settings (Reach-Sound opts n r) st id h e over
