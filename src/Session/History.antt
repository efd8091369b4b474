-- ===== src/Session/History.antt =====
-- The histories of a store: every call that `New`'s store can see, in any order.
use dc_streaming_p2p.Base.{ℕ, ◌≡◌, refl, sym, subst, Text, arith, Option}
use dc_streaming_p2p.Base.Map.{lookup}
use dc_streaming_p2p.Base.Map.Count.{count}
use dc_streaming_p2p.Session.Record.{State, MediaPath}
use dc_streaming_p2p.Session.Store.{Settings, Store, Options, new, created, empty_store}
use dc_streaming_p2p.Session.Ops.{open_session, get, report, close_peer, reap}
use dc_streaming_p2p.Session.Opening.{Sound, Fresh, open_session-Opens}
use dc_streaming_p2p.Session.Reporting.{get-Sound, report-Sound}
use dc_streaming_p2p.Session.Closing.{close_peer-Sound, reap-Sound}
use dc_streaming_p2p.Session.Rows.{occurs}

-- One call. `newID` is assumed to answer an identifier that no stored session has.
pub data Step (s : Store) : Store → Type 0 where
  opens :
      (fresh : Option Text) (caller callee : Text) (now : ℕ)
      → Fresh fresh s
      → Step s (open_session fresh caller callee now s).0
  gets : (id peer : Text) (now : ℕ) → Step s (get id peer now s).0
  reports :
      (id peer : Text) (to : State) (path : MediaPath) (now : ℕ)
      → Step s (report id peer to path now s).0
  closes : (peer : Text) (now : ℕ) → Step s (close_peer peer now s).0
  reaps : (now : ℕ) → Step s (reap now s).0

pub data Reach (s : Store) : Store → Type 0 where
  here : Reach s s
  next : {t u : Store} → Reach s t → Step t u → Reach s u

pub empty-Sound : (settings : Settings) → Sound settings (empty_store settings)
unfolding lookup count occurs
empty-Sound settings = record {
  valid = record {
    inv = record {
      ids = λ id h e. absurd (cc);
      apart = λ id h e. absurd (cc);
      distinct = tt;
      counted = refl;
      paired = λ id h e l. absurd (cc);
      pair_found = λ key id e. absurd (cc);
      rows = λ peer id. refl;
      row_count = λ peer. refl;
      row_distinct = λ peer. tt;
      filed = λ id h e. absurd (cc);
      once = λ id. omega arith;
      live_bound = omega arith;
      row_bound = λ peer. omega arith;
    };
    compact = λ id e. refl;
  };
  same_settings = refl;
  bounded = omega arith;
}

new-empty : (opts : Options) (s : Store) → new opts ≡ created s → s ≡ empty_store s.settings
unfolding new
new-empty opts s e = ground arith

pub Step-Sound :
    (settings : Settings) {s t : Store} → Step s t → Sound settings s → Sound settings t
Step-Sound settings {s} (opens fresh caller callee now f) o =
    (open_session-Opens settings fresh caller callee now s o f).0
Step-Sound settings {s} (gets id peer now) o = get-Sound settings id peer now s o
Step-Sound settings {s} (reports id peer to path now) o =
    report-Sound settings id peer to path now s o
Step-Sound settings {s} (closes peer now) o = close_peer-Sound settings peer now s o
Step-Sound settings {s} (reaps now) o = reap-Sound settings now s o

pub history-Sound :
    (settings : Settings) {s t : Store} → Reach s t → Sound settings s → Sound settings t
history-Sound settings here o = o
history-Sound settings (next r st) o = Step-Sound settings st (history-Sound settings r o)

-- Every store that calls can reach from the one that `New` makes, with identifiers from `newID` that
-- are not in use, is sound: it has the settings that it was made with; the live counter, the pairs,
-- the rows of the peers and the order of the ended name exactly the sessions that they should, each
-- once; the live sessions and each peer's are within their ceilings; and so are the records held.
pub Reach-Sound :
    (opts : Options) {s t : Store} → new opts ≡ created s → Reach s t → Sound s.settings t
Reach-Sound opts {s} n r =
    history-Sound s.settings r
      (subst (Sound s.settings) (sym (new-empty opts s n)) (empty-Sound s.settings))
