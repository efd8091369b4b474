-- ===== src/Registry/Tests.antt =====
-- A registry with one peer, and the theorems applied to it.
use dc_streaming_p2p.Base.{◌≤◌, ◌≡◌, ◌↔◌, refl, none, [], ◌∷◌, Text, text_dec, length, ite}
use dc_streaming_p2p.Base.Map.{lookup}
use dc_streaming_p2p.Base.Int.{pos}
use dc_streaming_p2p.Base.Strings.{trim_space}
use dc_streaming_p2p.Registry.Defs.{
  Registry, Options, new, created, empty_registry, register, heartbeat, look_up, err, full,
}
use dc_streaming_p2p.Registry.Bounds.{alive}
use dc_streaming_p2p.Registry.Admission.{
  Reach, here, next, registers, register_full, register_lem, Registers, heartbeat_lem, beaten,
  beat_answer,
}

abbrev ann : Text
ann = 97 ∷ []

abbrev bob : Text
bob = 98 ∷ []

abbrev opts : Options
opts = record {
  heartbeat_interval = pos 10;
  suspect_after = pos 20;
  offline_after = pos 50;
  max_peers = pos 1;
}

abbrev started : Registry
started = empty_registry opts

is_started : new opts ≡ created started
unfolding new
is_started = refl

abbrev crowded : Registry
crowded = (register ann 5 started).0

crowded-Reach : Reach started crowded
crowded-Reach = next here (registers ann 5)

register_full_example :
    (length crowded.peers ≤ 1)
    × (((register bob 30 crowded).1 ≡ err full)
        ↔ ((lookup bob crowded.peers ≡ none) × (1 ≤ alive 30 crowded)))
unfolding trim_space
register_full_example = register_full opts bob 30 is_started crowded-Reach refl

register_lem_example : Registers (trim_space bob) 30 crowded (register bob 30 crowded)
register_lem_example = register_lem bob 30 crowded

heartbeat_lem_example :
    ((heartbeat ann 40 crowded).1 ≡ beat_answer (beaten 40 (look_up ann 40 crowded)))
    × ((j : Text)
        → look_up j 40 (heartbeat ann 40 crowded).0
          ≡ ite (text_dec ann j) (beaten 40 (look_up ann 40 crowded)) (look_up j 40 crowded))
heartbeat_lem_example = heartbeat_lem ann 40 crowded
