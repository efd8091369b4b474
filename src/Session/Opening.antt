-- ===== src/Session/Opening.antt =====
-- `Open` of internal/session/session.go, and the invariant.
use dc_streaming_p2p.Base.{
  ℕ, ◌+◌, ◌*◌, subst, ◌≤◌, ◌<◌, ◌≡◌, ◌≢◌, refl, ◌∙◌, ap, Bool, true, false, none, some, [], ◌∷◌,
  Text, arith, length, Option, Option-cases, inl, inr, leb, Bool-cases,
}
use dc_streaming_p2p.Base.Map.{lookup, lookup-insert, lookup-delete}
use dc_streaming_p2p.Base.Map.Count.{length-insert}
use dc_streaming_p2p.Base.Strings.{trim_space}
use dc_streaming_p2p.Session.Record.{Session, live, pair_key, failed, Result, ok, err}
use dc_streaming_p2p.Session.Store.{Settings, Store, retained_per_live}
use dc_streaming_p2p.Session.Steps.{settle, find_pair, if_live, trim, end_session}
use dc_streaming_p2p.Session.Ops.{
  create, new_session, open_in_room, open_unpaired, open_locked, open_trimmed, open_session,
  make_room,
}
use dc_streaming_p2p.Session.Invariant.{Inv, Compact, Valid, found_self}
use dc_streaming_p2p.Session.Finish.{finish}
use dc_streaming_p2p.Session.Changes.{create-Inv, create-Compact}
use dc_streaming_p2p.Session.Settling.{settle_cases}
use dc_streaming_p2p.Session.Shrinking.{Narrows, Narrows-refl, settle-Narrows}
use dc_streaming_p2p.Session.Rooms.{HaveRoom, HaveRoom-Shrinks, make_room-Makes}
use dc_streaming_p2p.Session.Trimming.{trim-Narrows, trim_room}

-- A stored live session under a pair's key, or no session under it.
abbrev pub Pairs : Text → Store → Option Session → Type 0
Pairs key t none = lookup key t.pairs ≡ none
Pairs key t (some h) =
    (lookup h.id t.sessions ≡ some h) × (live h ≡ true) × (pair_key h.caller h.callee ≡ key)

pair_held-Pairs :
    (now : ℕ) (h : Session) (s : Store)
    → lookup h.id s.sessions ≡ some h
    → live h ≡ true
    → Pairs (pair_key h.caller h.callee) (if_live (settle h now s)).0 (if_live (settle h now s)).1
pair_held-Pairs now h s found alive =
    settle_cases h now s (λ r. Pairs (pair_key h.caller h.callee) (if_live r).0 (if_live r).1)
      (λ _. rw alive (found, alive, refl)) (λ e. unpaired)
  where
    unpaired :
        lookup
          (pair_key h.caller h.callee)
          (finish failed h.path (h.opened_at + s.timeout) h s).pairs
        ≡ none
    unpaired =
        unfold end_session in
        ground
          (arith, lookup-delete (pair_key h.caller h.callee) (pair_key h.caller h.callee) s.pairs)

-- `pairLocked` finds the live session of a pair, settled, or leaves none under the pair's key.
pub find_pair-Pairs :
    (a b : Text) (now : ℕ) (s : Store)
    → Valid s
    → Narrows s (find_pair a b now s).0
      × Pairs (pair_key a b) (find_pair a b now s).0 (find_pair a b now s).1
unfolding find_pair
find_pair-Pairs a b now s v = elim (Option-cases (lookup (pair_key a b) s.pairs)) [
  | inl e ↦ rw e (Narrows-refl s v, e)
  | inr (id, e) ↦
      let (h, found, alive, named) = v.inv.pair_found (pair_key a b) id e in
      let self = found_self s id h v.inv found in
      rw (e, found)
        (
          settle-Narrows h now s v self,
          subst (λ key. Pairs key (if_live (settle h now s)).0 (if_live (settle h now s)).1) named
              (pair_held-Pairs now h s self alive),
        )
]

-- What `newID` makes is the identifier of no stored session: 16 random bytes.
abbrev pub Fresh : Option Text → Store → Type 0
Fresh none s = Unit
Fresh (some id) s = lookup id s.sessions ≡ none

-- What the store may be after a call: valid, with the same settings, and within the bound.
pub record Sound (settings : Settings) (t : Store) : Type 0 where
  pub valid : Valid t
  pub same_settings : t.settings ≡ settings
  pub bounded : length t.sessions ≤ settings.ceiling * retained_per_live

pub Narrows-Sound :
    {settings : Settings} {s t : Store} → Sound settings s → Narrows s t → Sound settings t
Narrows-Sound o n = record {
  valid = n.valid;
  same_settings = n.shrinks.same_settings ∙ o.same_settings;
  bounded = omega (arith, o.bounded, n.shrinks.no_more);
}

module _ (settings : Settings) (id caller callee : Text) (now : ℕ) (s : Store)
    (o : Sound settings s) (fresh : lookup id s.sessions ≡ none) (apart : caller ≢ callee)
    (unpaired : lookup (pair_key caller callee) s.pairs ≡ none) (room : s.live_count < s.ceiling)
    (rooms : HaveRoom (caller ∷ callee ∷ []) s) where
  abbrev made : Session
  made = new_session id caller callee now

  trimmed : Narrows s (trim s)
  trimmed = trim-Narrows s o.valid

  trimmed_room : (trim s).live_count < (trim s).ceiling
  trimmed_room = rw trimmed.shrinks.same_settings (omega (arith, trimmed.shrinks.fewer))

  trimmed_rooms : HaveRoom (caller ∷ callee ∷ []) (trim s)
  trimmed_rooms = HaveRoom-Shrinks (caller ∷ callee ∷ []) trimmed.shrinks rooms

  opened-Inv : Inv (create made (trim s))
  opened-Inv =
      create-Inv made (trim s) trimmed.valid.inv trimmed.valid.compact
        (trimmed.shrinks.no_session id fresh) refl apart
        (trimmed.shrinks.no_pair (pair_key caller callee) unpaired) trimmed_room trimmed_rooms.0
        trimmed_rooms.1.0

  opened-Compact : Compact (create made (trim s))
  opened-Compact =
      create-Compact made (trim s) trimmed.valid.inv trimmed.valid.compact
        (trimmed.shrinks.no_session id fresh) refl apart
        (trimmed.shrinks.no_pair (pair_key caller callee) unpaired) trimmed_room trimmed_rooms.0
        trimmed_rooms.1.0

  opened-Sound : Sound settings (create made (trim s))
  unfolding create
  opened-Sound = record {
    valid = record { inv = opened-Inv; compact = opened-Compact };
    same_settings = trimmed.shrinks.same_settings ∙ o.same_settings;
    bounded = omega (
      arith,
      length-insert id made (trim s).sessions,
      trim_room s o.valid room,
      ap (λ (t : Settings). t.ceiling) o.same_settings,
    );
  }

  created-found : lookup id (create made (trim s)).sessions ≡ some made
  unfolding create
  created-found = ground (arith, lookup-insert id id made (trim s).sessions)

-- What `Open` answers stands in the store that it leaves: a live session of the pair.
abbrev pub Answers : Text → Store → Result Session → Type 0
Answers key t (ok h) = Pairs key t (some h)
Answers key t (err e) = Unit

abbrev pub Opens : Settings → Text → Store × Result Session → Type 0
Opens settings key r = Sound settings r.0 × Answers key r.0 r.1

Fresh-Narrows : (fresh : Option Text) {s t : Store} → Narrows s t → Fresh fresh s → Fresh fresh t
Fresh-Narrows none n f = tt
Fresh-Narrows (some id) n f = n.shrinks.no_session id f

open_in_room-Opens :
    (settings : Settings) (fresh : Option Text) (caller callee : Text) (now : ℕ) (s : Store)
    (roomy : Bool)
    → caller ≢ callee
    → Sound settings s
    → Fresh fresh s
    → lookup (pair_key caller callee) s.pairs ≡ none
    → s.live_count < s.ceiling
    → (roomy ≡ true → HaveRoom (caller ∷ callee ∷ []) s)
    → Opens settings (pair_key caller callee) (open_in_room fresh caller callee now (s, roomy))
open_in_room-Opens settings fresh caller callee now s false apart o f unpaired room rooms = (o, tt)
open_in_room-Opens settings none caller callee now s true apart o f unpaired room rooms =
    (Narrows-Sound o (trim-Narrows s o.valid), tt)
open_in_room-Opens settings (some id) caller callee now s true apart o f unpaired room rooms =
    let r = rooms refl in
    (
      opened-Sound settings id caller callee now s o f apart unpaired room r,
      (created-found settings id caller callee now s o f apart unpaired room r, refl, refl),
    )

module _ (settings : Settings) (fresh : Option Text) (caller callee : Text) (now : ℕ)
    (apart : caller ≢ callee) where
  open_unpaired-Opens :
      (s : Store) (existing : Option Session)
      → Sound settings s
      → Fresh fresh s
      → Pairs (pair_key caller callee) s existing
      → Opens settings
          (pair_key caller callee)
          (open_unpaired fresh caller callee now (s, existing))
  open_unpaired-Opens s (some h) o f p = (o, p)
  open_unpaired-Opens s none o f p = elim (Bool-cases (leb s.ceiling s.live_count)) [
    | inl full ↦ rw full (o, tt)
    | inr room ↦
        let below : s.live_count < s.ceiling = ground arith in
        let m = make_room-Makes (caller ∷ callee ∷ []) now s o.valid in
        let t = make_room (caller ∷ callee ∷ []) now s in
        rw room (
          open_in_room-Opens settings fresh caller callee now t.0 t.1 apart (Narrows-Sound o m.0)
            (Fresh-Narrows fresh m.0 f) (m.0.shrinks.no_pair (pair_key caller callee) p)
            (rw m.0.shrinks.same_settings (omega (arith, m.0.shrinks.fewer))) m.1)
  ]

  open_locked-Opens :
      (s : Store)
      → Sound settings s
      → Fresh fresh s
      → Opens settings (pair_key caller callee) (open_locked fresh caller callee now s)
  unfolding open_locked
  open_locked-Opens s o f =
      let (n, p) = find_pair-Pairs caller callee now s o.valid in
      let t = find_pair caller callee now s in
      open_unpaired-Opens t.0 t.1 (Narrows-Sound o n) (Fresh-Narrows fresh n f) p

open_trimmed-Opens :
    (settings : Settings) (fresh : Option Text) (caller callee : Text) (now : ℕ) (s : Store)
    → Sound settings s
    → Fresh fresh s
    → Opens settings (pair_key caller callee) (open_trimmed fresh caller callee now s)
unfolding open_trimmed
open_trimmed-Opens settings fresh caller callee now s o f = ground (
  arith,
  o,
  λ (apart : caller ≢ callee). open_locked-Opens settings fresh caller callee now apart s o f,
)

-- Whatever `Open` is given, it leaves the store sound, and a session that it answers with stands in
-- the store as a live session of the two peers.
pub open_session-Opens :
    (settings : Settings) (fresh : Option Text) (caller callee : Text) (now : ℕ) (s : Store)
    → Sound settings s
    → Fresh fresh s
    → Opens settings
        (pair_key (trim_space caller) (trim_space callee))
        (open_session fresh caller callee now s)
unfolding open_session
open_session-Opens settings fresh caller callee now s o f =
    open_trimmed-Opens settings fresh (trim_space caller) (trim_space callee) now s o f
