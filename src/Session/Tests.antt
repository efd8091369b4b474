-- ===== src/Session/Tests.antt =====
-- A store with one call between two peers, closed after a while, and the theorems applied to it.
use dc_streaming_p2p.Base.{
  ◌≡◌, refl, some, none, [], ◌∷◌, Text, text_dec, ℕ_discrete, true, arith, ◌≢◌, ◌⊎◌, inl,
}
use dc_streaming_p2p.Base.Map.{lookup, insert, delete}
use dc_streaming_p2p.Base.Int.{pos}
use dc_streaming_p2p.Base.Strings.{trim_space, text_ltb}
use dc_streaming_p2p.Session.Record.{
  Session, closed, unknown, allow_all, pair_key, ok, has, can_move,
}
use dc_streaming_p2p.Session.Store.{Options, Store, new, created, empty_store}
use dc_streaming_p2p.Session.Steps
use dc_streaming_p2p.Session.Ops.{
  close_peer, reap, open_session, open_trimmed, open_locked, make_room, create, new_session, report,
}
use dc_streaming_p2p.Base.Map.Count.{count}
use dc_streaming_p2p.Session.Opening.{Sound}
use dc_streaming_p2p.Session.Final.{ended_is_final}
use dc_streaming_p2p.Session.Loops.{close_peer-lookup}
use dc_streaming_p2p.Session.Reaped.{reap-lookup}
use dc_streaming_p2p.Session.Reports.{Reported, report-Reported}
use dc_streaming_p2p.Session.Pairing.{one_live_session, open_answers, open_makes_new, NoLive}
use dc_streaming_p2p.Session.History.{Reach-Sound, Reach, here, next, opens, reports}

abbrev ann : Text
ann = 97 ∷ []

abbrev bob : Text
bob = 98 ∷ []

abbrev call : Text
call = 49 ∷ []

abbrev opts : Options
opts = record {
  negotiation_timeout = pos 30;
  retention = pos 60;
  max_sessions = pos 10;
  max_sessions_per_peer = pos 3;
  authorizer = none;
}

abbrev started : Store
started =
    empty_store
      (record { timeout = 30; retention = 60; ceiling = 10; per_peer_cap = 3; allows = allow_all })

is_started : new opts ≡ created started
unfolding new
is_started = refl

abbrev called : Store
called = (open_session (some call) ann bob 5 started).0

called-Reach : Reach started called
unfolding lookup
called-Reach = next here (opens (some call) ann bob 5 refl)

called_found : lookup call called.sessions ≡ some (new_session call ann bob 5)
unfolding text_dec ℕ_discrete open_session open_trimmed open_locked make_room create lookup insert
    delete trim_space text_ltb Steps.find_pair Steps.trim
called_found = refl

called-Sound : Sound started.settings called
called-Sound = Reach-Sound opts is_started called-Reach

-- The call after ann hangs up.
abbrev hung_up : Store
hung_up = (report call ann closed unknown 9 called).0

abbrev over : Session
over = record {
  id = call;
  caller = ann;
  callee = bob;
  state = closed;
  path = unknown;
  opened_at = 5;
  changed_at = 9;
}

hung_up-Reach : Reach started hung_up
hung_up-Reach = next called-Reach (reports call ann closed unknown 9)

hung_up_found : lookup call hung_up.sessions ≡ some over
unfolding lookup report open_session trim_space text_dec ℕ_discrete Steps.find_pair insert
    Steps.trim has can_move
hung_up_found = refl

found_again : (open_session none bob ann 6 called).1 ≡ ok (new_session call ann bob 5)
unfolding open_session trim_space text_dec ℕ_discrete Steps.find_pair lookup Steps.trim insert
    pair_key
found_again = refl

apart : trim_space ann ≢ trim_space bob
unfolding trim_space
apart e = ground arith

hung_up_free : lookup (50 ∷ []) hung_up.sessions ≡ none
unfolding lookup report open_session trim_space text_dec ℕ_discrete Steps.find_pair insert
    Steps.trim has can_move
hung_up_free = refl

none_live : NoLive (pair_key (trim_space ann) (trim_space bob)) started
unfolding lookup
none_live id h e alive same = absurd (cc)

Reach-Sound_example : Sound started.settings hung_up
Reach-Sound_example = Reach-Sound opts is_started hung_up-Reach

one_live_session_example : call ≡ call
one_live_session_example =
    one_live_session opts call call (new_session call ann bob 5) (new_session call ann bob 5)
      is_started called-Reach called_found called_found refl refl (inl (refl, refl))

ended_is_final_example :
    (lookup call (open_session (some (50 ∷ [])) bob ann 80 hung_up).0.sessions ≡ some over)
    ⊎ (lookup call (open_session (some (50 ∷ [])) bob ann 80 hung_up).0.sessions ≡ none)
unfolding lookup
ended_is_final_example =
    ended_is_final opts call over is_started hung_up-Reach
      (opens (some (50 ∷ [])) bob ann 80 hung_up_free) hung_up_found refl

open_answers_example :
    (lookup call (open_session none bob ann 6 called).0.sessions
      ≡ some (new_session call ann bob 5))
    × (true ≡ true)
    × (((ann ≡ bob) × (bob ≡ ann)) ⊎ ((ann ≡ ann) × (bob ≡ bob)))
unfolding trim_space
open_answers_example =
    open_answers opts none bob ann 6 (new_session call ann bob 5) is_started called-Reach tt
      found_again (λ e. cc, tt) (λ e. cc, tt) (λ e. cc, tt) (λ e. cc, tt)

open_makes_new_example :
    ((open_session (some call) ann bob 5 started).1 ≡ ok (new_session call ann bob 5))
    × (lookup call (open_session (some call) ann bob 5 started).0.sessions
        ≡ some (new_session call ann bob 5))
unfolding trim_space count
open_makes_new_example =
    open_makes_new opts call ann bob 5 is_started here refl refl apart refl none_live (omega arith)
      (omega arith) (omega arith)

report-Reported_example :
    Reported call ann closed unknown 9 called (report call ann closed unknown 9 called)
report-Reported_example = report-Reported call ann closed unknown 9 called called-Sound.valid.inv

close_peer-lookup_example : lookup call (close_peer bob 9 called).0.sessions ≡ some over
unfolding lookup open_session trim_space text_dec ℕ_discrete Steps.find_pair insert Steps.trim has
close_peer-lookup_example = close_peer-lookup started.settings bob 9 called call called-Sound

reap-lookup_example : lookup call (reap 70 hung_up).0.sessions ≡ none
unfolding lookup report open_session trim_space text_dec ℕ_discrete Steps.find_pair insert
    Steps.trim has can_move
reap-lookup_example =
    reap-lookup started.settings 70 hung_up call (Reach-Sound opts is_started hung_up-Reach)
