-- ===== src/Registry/Bounds.antt =====
-- The invariant of internal/registry/registry.go: its settings, its keys and its size.
use dc_streaming_p2p.Base.{
  ℕ, ◌+◌, ◌≤◌, ◌≡◌, refl, ◌∙◌, ap, Bool, none, some, Text, List, [], ◌∷◌, arith, Option, inl, inr,
  Bool-cases, not, length, is_some, bit,
}
use dc_streaming_p2p.Base.Map.{lookup, insert-Distinct, delete-Distinct, keys, Distinct}
use dc_streaming_p2p.Base.Map.Count.{
  count-delete, count-all, count-le-length, length-insert, length-delete,
}
use dc_streaming_p2p.Base.Map.Count
use dc_streaming_p2p.Registry.Defs.{
  Registry, Settings, Entry, expired, expire_entry, expire_ids, expire, admit,
}
use dc_streaming_p2p.Registry.Expiry.{expire_lem}

-- A registry within its ceiling, which holds each peer once.
pub record Valid (settings : Settings) (r : Registry) : Type 0 where
  pub same_settings : r.settings ≡ settings
  pub distinct : Distinct r.peers
  pub bounded : length r.peers ≤ settings.ceiling

abbrev pub unexpired_test : Settings → ℕ → Entry → Bool
unexpired_test settings now held = not (expired settings now held)

-- How many peers are not past the offline window.
abbrev pub alive : ℕ → Registry → ℕ
alive now r = Count.count (unexpired_test r.settings now) r.peers

pub record Shrunk (settings : Settings) (now : ℕ) (r t : Registry) : Type 0 where
  pub same_settings : t.settings ≡ settings
  pub distinct : Distinct t.peers
  pub no_more : length t.peers ≤ length r.peers
  pub same_alive :
      Count.count (unexpired_test settings now) t.peers
      ≡ Count.count (unexpired_test settings now) r.peers

expire_entry-Shrunk :
    (settings : Settings) (id : Text) (now : ℕ) (o : Option Entry) (r : Registry)
    → r.settings ≡ settings
    → Distinct r.peers
    → lookup id r.peers ≡ o
    → Shrunk settings now r (expire_entry id now o r).0
expire_entry-Shrunk settings id now none r same d e = record {
  same_settings = same;
  distinct = d;
  no_more = omega arith;
  same_alive = refl;
}
expire_entry-Shrunk settings id now (some held) r same d e =
    elim (Bool-cases (expired r.settings now held)) [
      | inl old ↦ rw old (record {
        same_settings = same;
        distinct = delete-Distinct id r.peers d;
        no_more = omega (arith, length-delete id r.peers d);
        same_alive = ground (arith, count-delete (unexpired_test settings now) id r.peers d);
      })
      | inr young ↦
          rw young (record {
            same_settings = same;
            distinct = d;
            no_more = omega arith;
            same_alive = refl;
          })
    ]

expire_ids-Shrunk :
    (settings : Settings) (ids : List Text) (now : ℕ) (r : Registry)
    → r.settings ≡ settings
    → Distinct r.peers
    → Shrunk settings now r (expire_ids ids now r).0
unfolding expire_ids
expire_ids-Shrunk settings [] now r same d = record {
  same_settings = same;
  distinct = d;
  no_more = omega arith;
  same_alive = refl;
}
expire_ids-Shrunk settings (id ∷ ids) now r same d =
    let one = expire_entry-Shrunk settings id now (lookup id r.peers) r same d refl in
    let more =
      expire_ids-Shrunk settings ids now (expire_entry id now (lookup id r.peers) r).0
        one.same_settings one.distinct in
    record {
      same_settings = more.same_settings;
      distinct = more.distinct;
      no_more = omega (arith, one.no_more, more.no_more);
      same_alive = more.same_alive ∙ one.same_alive;
    }

pub expire-Shrunk :
    (settings : Settings) (now : ℕ) (r : Registry)
    → Valid settings r
    → Shrunk settings now r (expire now r).0
unfolding expire
expire-Shrunk settings now r v =
    expire_ids-Shrunk settings (keys r.peers) now r v.same_settings v.distinct

-- After expiry the registry holds the peers that are not past the window, and no other.
pub length-expire :
    (settings : Settings) (now : ℕ) (r : Registry)
    → Valid settings r
    → length (expire now r).0.peers ≡ alive now r
length-expire settings now r v =
    let k = expire-Shrunk settings now r v in
    omega (
      arith,
      count-all (unexpired_test settings now) (expire now r).0.peers k.distinct
          (λ id held e. ground (arith, (expire_lem now r id).0, v.same_settings)),
      k.same_alive,
      ap (λ s. Count.count (unexpired_test s now) r.peers) v.same_settings,
    )

pub expire-Valid :
    (settings : Settings) (now : ℕ) (r : Registry)
    → Valid settings r
    → Valid settings (expire now r).0
expire-Valid settings now r v =
    let k = expire-Shrunk settings now r v in
    record {
      same_settings = k.same_settings;
      distinct = k.distinct;
      bounded = omega (arith, k.no_more, v.bounded);
    }

pub admit-Valid :
    (settings : Settings) (id : Text) (now : ℕ) (o : Option Entry) (r : Registry)
    → Valid settings r
    → length r.peers + 1 ≤ settings.ceiling + bit (is_some (lookup id r.peers))
    → Valid settings (admit id now o r).0
admit-Valid settings id now o r v room = record {
  same_settings = v.same_settings;
  distinct = insert-Distinct id _ r.peers v.distinct;
  bounded = omega (arith, length-insert id _ r.peers);
}
