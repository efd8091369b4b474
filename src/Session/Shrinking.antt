-- ===== src/Session/Shrinking.antt =====
-- What the steps of `Open` before its writes have in common, in internal/session/session.go.
use dc_streaming_p2p.Base.{
  ◌⊎◌, inl, inr, false, ℕ, ◌≤◌, ◌<◌, ◌≡◌, refl, true, none, some, Text, arith, length, ◌∙◌, ◌+◌,
}
use dc_streaming_p2p.Base.Map.{lookup, lookup-insert, lookup-delete}
use dc_streaming_p2p.Base.Map.Count.{length-delete, length-insert}
use dc_streaming_p2p.Session.Record.{State, MediaPath, failed, Session, pair_key, live, is_live}
use dc_streaming_p2p.Session.Store.{Store}
use dc_streaming_p2p.Session.Steps.{row, end_session, settle}
use dc_streaming_p2p.Session.Invariant.{Inv, Valid, restated}
use dc_streaming_p2p.Session.Finish.{finish, row-finish}
use dc_streaming_p2p.Session.Settling.{settle_cases, settle-Inv, settle-Compact, timed_out-live}

-- An ended session is as it was, or forgotten.
abbrev pub KeptOrGone : Text → Session → Store → Type 0
KeptOrGone id h t = (lookup id t.sessions ≡ some h) ⊎ (lookup id t.sessions ≡ none)

pub record Shrinks (s t : Store) : Type 0 where
  pub same_settings : t.settings ≡ s.settings
  pub no_pair : (key : Text) → lookup key s.pairs ≡ none → lookup key t.pairs ≡ none
  pub no_session : (id : Text) → lookup id s.sessions ≡ none → lookup id t.sessions ≡ none
  pub fewer : t.live_count ≤ s.live_count
  pub shorter : (peer : Text) → length (row peer t.per_peer) ≤ length (row peer s.per_peer)
  pub no_more : length t.sessions ≤ length s.sessions
  pub final :
      (id : Text) (h : Session) → lookup id s.sessions ≡ some h → live h ≡ false → KeptOrGone id h t

pub Shrinks-refl : (s : Store) → Shrinks s s
Shrinks-refl s = record {
  same_settings = refl;
  no_pair = λ key e. e;
  no_session = λ id e. e;
  fewer = omega arith;
  shorter = λ peer. omega arith;
  no_more = omega arith;
  final = λ id h e over. inl e;
}

pub Shrinks-trans : {s t u : Store} → Shrinks s t → Shrinks t u → Shrinks s u
Shrinks-trans a b = record {
  same_settings = b.same_settings ∙ a.same_settings;
  no_pair = λ key e. b.no_pair key (a.no_pair key e);
  no_session = λ id e. b.no_session id (a.no_session id e);
  fewer = omega (arith, a.fewer, b.fewer);
  shorter = λ peer. omega (arith, a.shorter peer, b.shorter peer);
  no_more = omega (arith, a.no_more, b.no_more);
  final = λ id h e over. elim (a.final id h e over) [
    | inl kept ↦ b.final id h kept over
    | inr gone ↦ inr (b.no_session id gone)
  ];
}

-- A step that keeps the store valid and only makes room.
pub record Narrows (s t : Store) : Type 0 where
  pub valid : Valid t
  pub shrinks : Shrinks s t

pub Narrows-trans : {s t u : Store} → Narrows s t → Narrows t u → Narrows s u
Narrows-trans a b = record { valid = b.valid; shrinks = Shrinks-trans a.shrinks b.shrinks }

module _ (to : State) (path : MediaPath) (at : ℕ) (h : Session) (s : Store) (v : Inv s)
    (found : lookup h.id s.sessions ≡ some h) (was : live h ≡ true)
    (over : is_live to ≡ false) where
  finish-shorter :
      (peer : Text)
      → length (row peer (finish to path at h s).per_peer) ≤ length (row peer s.per_peer)
  finish-shorter peer = rw (row-finish to path at h s v found was over peer) (
      ground
        (arith, v.apart h.id h, length-delete h.id (row peer s.per_peer) (v.row_distinct peer)))

  finish-Shrinks : Shrinks s (finish to path at h s)
  unfolding end_session
  finish-Shrinks = record {
    same_settings = refl;
    no_pair = λ key e. ground (arith, lookup-delete (pair_key h.caller h.callee) key s.pairs);
    no_session = λ id e. ground (arith, lookup-insert h.id id (restated to path at h) s.sessions);
    fewer = omega arith;
    shorter = finish-shorter;
    no_more = ground (arith, length-insert h.id (restated to path at h) s.sessions);
    final =
        λ id g e ended. ground (arith, lookup-insert h.id id (restated to path at h) s.sessions);
  }

pub Narrows-refl : (s : Store) → Valid s → Narrows s s
Narrows-refl s v = record { valid = v; shrinks = Shrinks-refl s }

pub one-Shrinks :
    (peer : Text) {s t : Store}
    → Shrinks s t
    → length (row peer s.per_peer) < s.per_peer_cap
    → length (row peer t.per_peer) < t.per_peer_cap
one-Shrinks peer k r = rw k.same_settings (omega (arith, k.shorter peer))

pub settle-Shrinks :
    (h : Session) (now : ℕ) (s : Store)
    → Inv s
    → lookup h.id s.sessions ≡ some h
    → Shrinks s (settle h now s).0
settle-Shrinks h now s v found =
    settle_cases h now s (λ r. Shrinks s r.0) (λ _. Shrinks-refl s)
      λ e.
        finish-Shrinks failed h.path (h.opened_at + s.timeout) h s v found
          (timed_out-live h now s found e) refl

pub settle-Narrows :
    (h : Session) (now : ℕ) (s : Store)
    → Valid s
    → lookup h.id s.sessions ≡ some h
    → Narrows s (settle h now s).0
settle-Narrows h now s v found = record {
  valid = record {
    inv = settle-Inv h now s found v.inv;
    compact = settle-Compact h now s found v.inv v.compact;
  };
  shrinks = settle-Shrinks h now s v.inv found;
}
