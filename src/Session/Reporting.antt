-- ===== src/Session/Reporting.antt =====
-- `Get` and `Report` of internal/session/session.go, and the invariant.
use dc_streaming_p2p.Base.{
  ℕ, ◌≡◌, true, false, some, Text, arith, length, Option-cases, inl, inr, Bool-cases,
}
use dc_streaming_p2p.Base.Map.{lookup, insert}
use dc_streaming_p2p.Base.Map.Count.{length-insert}
use dc_streaming_p2p.Session.Record.{State, MediaPath, Session, live, is_live, has, can_move}
use dc_streaming_p2p.Session.Store.{Settings, Store}
use dc_streaming_p2p.Session.Steps.{settle, write, end_session}
use dc_streaming_p2p.Session.Ops.{member, get, path_for, report, report_settled}
use dc_streaming_p2p.Session.Invariant.{Inv, restated}
use dc_streaming_p2p.Session.Finish.{finish, finish-Inv, finish-Compact}
use dc_streaming_p2p.Session.Changes.{write-Inv, write-Compact}
use dc_streaming_p2p.Session.Settling.{settle-found}
use dc_streaming_p2p.Session.Shrinking.{settle-Narrows}
use dc_streaming_p2p.Session.Opening.{Sound, Narrows-Sound}

module _ (settings : Settings) (to : State) (path : MediaPath) (at : ℕ) (h : Session) (s : Store)
    (o : Sound settings s) (found : lookup h.id s.sessions ≡ some h) (was : live h ≡ true) where
  write-length : length (insert h.id (restated to path at h) s.sessions) ≡ length s.sessions
  write-length = ground (arith, length-insert h.id (restated to path at h) s.sessions)

  pub finish-Sound : is_live to ≡ false → Sound settings (finish to path at h s)
  unfolding end_session
  finish-Sound over = record {
    valid = record {
      inv = finish-Inv to path at h s o.valid.inv found was over;
      compact = finish-Compact to path at h s o.valid.inv found was over o.valid.compact;
    };
    same_settings = o.same_settings;
    bounded = omega (arith, write-length, o.bounded);
  }

  write-Sound : is_live to ≡ true → Sound settings (write (restated to path at h) s)
  write-Sound still = record {
    valid = record {
      inv = write-Inv to path at h s o.valid.inv found was still;
      compact = write-Compact to path at h s o.valid.inv found was still o.valid.compact;
    };
    same_settings = o.same_settings;
    bounded = omega (arith, write-length, o.bounded);
  }

module _ (settings : Settings) (h : Session) (now : ℕ) (s : Store) (o : Sound settings s)
    (found : lookup h.id s.sessions ≡ some h) where
  pub settle-Sound : Sound settings (settle h now s).0
  settle-Sound = Narrows-Sound o (settle-Narrows h now s o.valid found)

-- A member of a session is in it, and the session is stored.
pub member-found :
    (s : Store) (id peer : Text) (h : Session)
    → Inv s
    → member peer (lookup id s.sessions) ≡ some h
    → (lookup h.id s.sessions ≡ some h) × (has peer h ≡ true)
member-found s id peer h v e = ground (arith, v.ids id h)

pub member-id :
    (s : Store) (id peer : Text) (h : Session)
    → Inv s
    → member peer (lookup id s.sessions) ≡ some h
    → h.id ≡ id
member-id s id peer h v e = ground (arith, v.ids id h)

pub get-Sound :
    (settings : Settings) (id asked_by : Text) (now : ℕ) (s : Store)
    → Sound settings s
    → Sound settings (get id asked_by now s).0
unfolding get
get-Sound settings id asked_by now s o =
    elim (Option-cases (member asked_by (lookup id s.sessions))) [
      | inl e ↦ rw e o
      | inr (h, e) ↦
          rw e (settle-Sound settings h now s o (member-found s id asked_by h o.valid.inv e).0)
    ]

-- A session moves only if it is live.
pub can_move-live : (a b : State) → can_move a b ≡ true → is_live a ≡ true
unfolding can_move
can_move-live a b e = ground arith

report_settled-Sound :
    (settings : Settings) (to : State) (path : MediaPath) (now : ℕ) (h : Session) (s : Store)
    → Sound settings s
    → lookup h.id s.sessions ≡ some h
    → Sound settings (report_settled to path now (s, h)).0
report_settled-Sound settings to path now h s o found = elim (Bool-cases (can_move h.state to)) [
  | inr no_move ↦ rw no_move o
  | inl moves ↦
      let was = can_move-live h.state to moves in
      elim (Bool-cases (is_live to)) [
        | inl still ↦
            rw (moves, was, still)
              (write-Sound settings to (path_for to path h.path) now h s o found was still)
        | inr over ↦
            rw (moves, was, over)
              (finish-Sound settings to (path_for to path h.path) now h s o found was over)
      ]
]

pub report-Sound :
    (settings : Settings) (id reported_by : Text) (to : State) (path : MediaPath) (now : ℕ)
    (s : Store)
    → Sound settings s
    → Sound settings (report id reported_by to path now s).0
unfolding report
report-Sound settings id reported_by to path now s o =
    elim (Option-cases (member reported_by (lookup id s.sessions))) [
      | inl e ↦ rw e o
      | inr (h, e) ↦
          let found = (member-found s id reported_by h o.valid.inv e).0 in
          rw e (
            report_settled-Sound settings to path now (settle h now s).1 (settle h now s).0
              (settle-Sound settings h now s o found) (settle-found h now s found))
    ]
