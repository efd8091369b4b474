-- ===== src/Registry/Windows.antt =====
-- The windows that `New` accepts, the states that they make, and the health counts.
use dc_streaming_p2p.Base.{ℕ, ◌+◌, ◌≤◌, ◌<◌, ◌≡◌, Bool, true, false, [], ◌∷◌, arith, ◌↔◌, length}
use dc_streaming_p2p.Base.Map.{Map}
use dc_streaming_p2p.Base.Map.Count
use dc_streaming_p2p.Base.Int.{pos_part}
use dc_streaming_p2p.Registry.Defs.{
  Registry, Settings, Entry, Options, online, suspect, gone, new, created, state_of, Counts, count,
  count_entries, add_state, expire, empty_registry,
}
use dc_streaming_p2p.Registry.Bounds.{alive, unexpired_test, Valid, length-expire}

-- `New` builds a registry only from windows that are ordered, with room for a peer: a peer is online
-- exactly as long as it has been silent for no longer than the suspect window, which is longer than
-- its heartbeat interval; gone exactly when it has been silent for longer than the offline window,
-- which is longer still; and suspect in between.
pub new-windows :
    (opts : Options) (r : Registry) (held : Entry) (now : ℕ)
    → new opts ≡ created r
    → ((state_of r.settings held now ≡ online) ↔ (now ≤ held.last_seen + r.suspect_after))
      × ((state_of r.settings held now ≡ suspect)
          ↔ ((held.last_seen + r.suspect_after < now) × (now ≤ held.last_seen + r.offline_after)))
      × ((state_of r.settings held now ≡ gone) ↔ (held.last_seen + r.offline_after < now))
      × (r.heartbeat_interval < r.suspect_after)
      × (r.suspect_after < r.offline_after)
      × (0 < r.ceiling)
unfolding new state_of
new-windows opts r held now e = (
  (λ h. ground arith, λ h. ground arith),
  (λ h. (ground arith, ground arith), λ h. ground arith),
  (λ h. ground arith, λ h. ground arith),
  ground arith,
  ground arith,
  ground arith,
)

-- `New` accepts exactly the windows that are positive and ordered.
pub new_accepts :
    (opts : Options)
    → ((r : Registry) × (new opts ≡ created r)) ↔ (
        (0 < pos_part opts.heartbeat_interval)
        × (pos_part opts.heartbeat_interval < pos_part opts.suspect_after)
        × (pos_part opts.suspect_after < pos_part opts.offline_after))
unfolding new
new_accepts opts =
    (λ (r, e). (ground arith, ground arith, ground arith), λ h. (empty_registry opts, ground arith))

abbrev pub is_online : Settings → ℕ → Entry → Bool
is_online settings now held = elim (state_of settings held now) [
  | online ↦ true
  | suspect ↦ false
  | gone ↦ false
]

count_entries_lem :
    (settings : Settings) (now : ℕ) (m : Map Entry) (c : Counts)
    → ((count_entries settings now m c).online_count
        ≡ c.online_count + Count.count (is_online settings now) m)
      × ((count_entries settings now m c).online_count
            + (count_entries settings now m c).suspect_count
          ≡ c.online_count + c.suspect_count + Count.count (unexpired_test settings now) m)
      × ((count_entries settings now m c).total ≡ c.total)
unfolding count_entries Count.count
count_entries_lem settings now [] c = omega arith
count_entries_lem settings now ((id, held) ∷ m) c =
    ground (arith, count_entries_lem settings now m (add_state (state_of settings held now) c))

-- The health counts: `Online` is how many peers are online, `Online` and `Suspect` together are
-- those that are not past the offline window, and `Total` is what the registry holds, which is just
-- those after a sweep.
pub count_lem :
    (settings : Settings) (now : ℕ) (r : Registry)
    → Valid settings r
    → ((count now r).online_count ≡ Count.count (is_online r.settings now) r.peers)
      × ((count now r).online_count + (count now r).suspect_count ≡ alive now r)
      × ((count now r).total ≡ length r.peers)
      × ((count now (expire now r).0).total ≡ alive now r)
unfolding count
count_lem settings now r v =
    let l =
      count_entries_lem r.settings now r.peers
        (record { online_count = 0; suspect_count = 0; total = length r.peers }) in
    let k =
      count_entries_lem (expire now r).0.settings now (expire now r).0.peers
        (record { online_count = 0; suspect_count = 0; total = length (expire now r).0.peers }) in
    (
      omega (arith, l),
      omega (arith, l),
      omega (arith, l),
      omega (arith, k, length-expire settings now r v),
    )
