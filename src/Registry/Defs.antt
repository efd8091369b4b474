-- ===== src/Registry/Defs.antt =====
-- The `Registry` of internal/registry/registry.go and its methods. The clock's reading is an
-- argument of a method, in nanoseconds since a fixed moment.
use dc_streaming_p2p.Base.{
  ℕ, ◌+◌, ◌-◌, Bool, true, false, not, Option, none, some, List, [], ◌∷◌, ◌++◌, Text, if◌then◌else◌,
  ltb, leb, length,
}
use dc_streaming_p2p.Base.Map.{Map, lookup, insert, delete, keys}
use dc_streaming_p2p.Base.Int.{ℤ, is_positive, leb_ℤ, pos_part, positive_or}
use dc_streaming_p2p.Base.Strings.{is_empty, trim_space}

-- `State`
pub data State : Type 0 where
  online suspect gone : State

-- The errors of `New`, `Register` and `Heartbeat`.
pub data Error : Type 0 where
  not_registered full no_identifier : Error

pub data Result {ℓ} (A : Type ℓ) : Type ℓ where
  ok : A → Result A
  err : Error → Result A

pub record Peer : Type 0 where
  pub id : Text
  pub registered_at : ℕ
  pub last_seen : ℕ
  pub state : State

-- `record`
pub record Entry : Type 0 where
  pub registered_at : ℕ
  pub last_seen : ℕ

-- The fields that `New` sets and nothing changes.
pub record Settings : Type 0 where
  pub heartbeat_interval : ℕ  -- `heartbeat`
  pub suspect_after : ℕ  -- `suspect`
  pub offline_after : ℕ  -- `offline`
  pub ceiling : ℕ

pub record Registry : Type 0 where
  pub settings : Settings
  pub open settings use *
  pub peers : Map Entry

-- `Options`, but for the clock.
pub record Options : Type 0 where
  pub heartbeat_interval : ℤ
  pub suspect_after : ℤ
  pub offline_after : ℤ
  pub max_peers : ℤ

abbrev pub default_max_peers : ℕ
default_max_peers = 10000

pub data Problem : Type 0 where
  heartbeat_not_positive suspect_not_longer offline_not_longer : Problem

-- The `switch` of `New`, and the `if` below it.
abbrev pub heartbeat_problems : Options → List Problem
heartbeat_problems opts =
    if not (is_positive opts.heartbeat_interval)
    then heartbeat_not_positive ∷ []
    else if leb_ℤ opts.suspect_after opts.heartbeat_interval
    then suspect_not_longer ∷ []
    else []

abbrev pub offline_problems : Options → List Problem → List Problem
offline_problems opts problems =
    if leb_ℤ opts.offline_after opts.suspect_after
    then problems ++ offline_not_longer ∷ []
    else problems

pub data NewResult : Type 0 where
  refused : List Problem → NewResult
  created : Registry → NewResult

abbrev pub empty_registry : Options → Registry
empty_registry opts = record {
  settings = record {
    heartbeat_interval = pos_part opts.heartbeat_interval;
    suspect_after = pos_part opts.suspect_after;
    offline_after = pos_part opts.offline_after;
    ceiling = positive_or default_max_peers opts.max_peers;
  };
  peers = [];
}

abbrev pub new_unless : List Problem → Options → NewResult
new_unless [] opts = created (empty_registry opts)
new_unless (p ∷ problems) opts = refused (p ∷ problems)

-- `New`
unfoldable pub new : Options → NewResult
new opts = new_unless (offline_problems opts (heartbeat_problems opts)) opts

-- `stateOf`
unfoldable pub state_of : Settings → Entry → ℕ → State
state_of settings held now =
    let silence = now - held.last_seen in
    if ltb settings.offline_after silence
    then gone
    else if ltb settings.suspect_after silence
    then suspect
    else online

abbrev pub is_gone : State → Bool
is_gone online = false
is_gone suspect = false
is_gone gone = true

abbrev pub expired : Settings → ℕ → Entry → Bool
expired settings now held = is_gone (state_of settings held now)

-- A round of the loop of `expireLocked`.
abbrev pub expire_entry : Text → ℕ → Option Entry → Registry → Registry × Bool
expire_entry id now none r = (r, false)
expire_entry id now (some held) r =
    if expired r.settings now held
    then (record r { peers = delete id r.peers }, true)
    else (r, false)

unfoldable pub expire_ids : List Text → ℕ → Registry → Registry × List Text
expire_ids [] now r = (r, [])
expire_ids (id ∷ ids) now r =
    let (r', removed) = expire_entry id now (lookup id r.peers) r in
    let (r'', more) = expire_ids ids now r' in (r'', if removed then id ∷ more else more)

-- `Expire`, and `expireLocked`, over the keys in the order in which the range takes them.
unfoldable pub expire : ℕ → Registry → Registry × List Text
unfolding expire_ids
expire now r = expire_ids (keys r.peers) now r

abbrev pub first_seen : ℕ → Option Entry → ℕ
first_seen now none = now
first_seen now (some held) = held.registered_at

-- The write at the end of `Register`.
abbrev pub admit : Text → ℕ → Option Entry → Registry → Registry × Result Peer
admit id now held r = (
  record r {
    peers = insert id (record { registered_at = first_seen now held; last_seen = now }) r.peers;
  },
  ok (record { id = id; registered_at = first_seen now held; last_seen = now; state = online }),
)

abbrev pub register_held : Text → ℕ → Option Entry → Registry → Registry × Result Peer
register_held id now (some held) r = admit id now (some held) r
register_held id now none r =
    if leb r.ceiling (length r.peers)
    then (let r' = (expire now r).0 in
        if leb r'.ceiling (length r'.peers) then (r', err full) else admit id now none r')
    else admit id now none r

-- `Register`
unfoldable pub register : Text → ℕ → Registry → Registry × Result Peer
register raw now r =
    let id = trim_space raw in
    if is_empty id then (r, err no_identifier) else register_held id now (lookup id r.peers) r

abbrev pub beat : Text → ℕ → Option Entry → Registry → Registry × Result Peer
beat id now none r = (record r { peers = delete id r.peers }, err not_registered)
beat id now (some held) r =
    if expired r.settings now held
    then (record r { peers = delete id r.peers }, err not_registered)
    else (
      record r { peers = insert id (record held { last_seen = now }) r.peers },
      ok (record { id = id; registered_at = held.registered_at; last_seen = now; state = online }),
    )

-- `Heartbeat`
unfoldable pub heartbeat : Text → ℕ → Registry → Registry × Result Peer
heartbeat id now r = beat id now (lookup id r.peers) r

-- `Deregister`
unfoldable pub deregister : Text → Registry → Registry
deregister id r = record r { peers = delete id r.peers }

abbrev pub answer_for : Text → ℕ → Settings → Option Entry → Option Peer
answer_for id now settings none = none
answer_for id now settings (some held) =
    if expired settings now held
    then none
    else some (record {
      id = id;
      registered_at = held.registered_at;
      last_seen = held.last_seen;
      state = state_of settings held now;
    })

-- `Lookup`
unfoldable pub look_up : Text → ℕ → Registry → Option Peer
look_up id now r = answer_for id now r.settings (lookup id r.peers)

pub record Counts : Type 0 where
  pub online_count : ℕ  -- `Online`
  pub suspect_count : ℕ  -- `Suspect`
  pub total : ℕ

abbrev pub add_state : State → Counts → Counts
add_state online c = record c { online_count = c.online_count + 1 }
add_state suspect c = record c { suspect_count = c.suspect_count + 1 }
add_state gone c = c

unfoldable pub count_entries : Settings → ℕ → Map Entry → Counts → Counts
count_entries settings now [] c = c
count_entries settings now ((id, held) ∷ m) c =
    count_entries settings now m (add_state (state_of settings held now) c)

-- `Count`
unfoldable pub count : ℕ → Registry → Counts
unfolding count_entries
count now r =
    count_entries r.settings now r.peers
      (record { online_count = 0; suspect_count = 0; total = length r.peers })
