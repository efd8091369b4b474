-- ===== src/Config/Tests.antt =====
-- An environment for `Load` of internal/config/config.go, with a toy of every library that it calls.
use dc_streaming_p2p.Base.{
  ℕ, zero, suc, ◌*◌, Bool, true, false, ◌&&◌, Option, none, some, List, [], ◌∷◌, ◌++◌, Text,
  if◌then◌else◌, ◌==◌, ◌≡◌, refl, map, and_then, length, inr, inl, ◌⊎◌, text_dec, ℕ_discrete,
}
use dc_streaming_p2p.Base.Int.{ℤ, pos}
use dc_streaming_p2p.Base.Decimal.{read_int}
use dc_streaming_p2p.Base.Strings.{codes, cut_at, trim_space, text_len}
use dc_streaming_p2p.Base.Map.{lookup, insert}
use dc_streaming_p2p.Auth.Clients
use dc_streaming_p2p.Auth.Clients.{ClientConfig}
use dc_streaming_p2p.Config.{Outside, Url, Config, validate, split_list}
use dc_streaming_p2p.Config.Load.{
  load_clients, setting, load_signing_key, duration, whole, load, read_config, read_problems,
}
use dc_streaming_p2p.Base.Split.{joined}
use dc_streaming_p2p.Config.Lists.{all_entries, split_list_lem}
use dc_streaming_p2p.Config.Checked.{IsUsable, load-IsUsable}

abbrev equal : Text → Text → Bool
equal [] [] = true
equal (c ∷ s) (d ∷ t) = c == d && equal s t
equal _ _ = false

abbrev find : List (Text × Text) → Text → Text
find [] key = []
find ((k, value) ∷ more) key = if equal k key then value else find more key

-- A number of some unit of time.
abbrev times : ℕ → Option (Text × Text) → Option ℤ
times unit none = none
times unit (some (digits, after)) = and_then (read_int digits) (λ n. some (pos (n * unit)))

abbrev first_of : Option ℤ → Option ℤ → Option ℤ
first_of none o = o
first_of (some n) o = some n

abbrev time_of : Text → Option ℤ
time_of raw =
    first_of (times 1000000000 (cut_at b's' raw))
      (first_of (times 60000000000 (cut_at b'm' raw)) (times 3600000000000 (cut_at b'h' raw)))

abbrev whole_of : Text → Option ℤ
whole_of raw = and_then (read_int raw) (λ n. some (pos n))

abbrev url_of : Option (Text × Text) → Option Url
url_of none = none
url_of (some (scheme, rest)) = some (record { scheme = scheme; opaque = rest; hostname = [] })

-- A client whose name and secret are the whole text.
abbrev client_of : Text → ClientConfig
client_of raw = record { id = raw; peer_id = raw; secret = raw }

abbrev pub outside_with : List (Text × Text) → Outside
outside_with env = record {
  getenv = find env;
  read_file = λ path. none;
  parse_duration = time_of;
  atoi = whole_of;
  split_host_port = cut_at b':';
  parse_url = λ raw. url_of (cut_at b':' raw);
  decode_base64 = λ raw. some raw;
  key_from_seed = λ seed. seed ++ seed;
  unmarshal_clients = λ raw. some (client_of raw ∷ []);
}

abbrev pub out : Outside
out = outside_with (
    (codes "CENTRAL_CLIENTS", codes "0123456789abcdef0123456789abcdef")
    ∷ (codes "CENTRAL_TOKEN_SIGNING_KEY", codes "fedcba9876543210fedcba9876543210")
    ∷ (codes "CENTRAL_ALLOWED_ORIGINS", codes "https://a.example, https://b.example")
    ∷ (codes "CENTRAL_SUSPECT_AFTER", codes "45s")
    ∷ (codes "CENTRAL_TURN_URLS", codes "turn:relay.example")
    ∷ (codes "CENTRAL_TURN_SECRET", codes "shared")
    ∷ [])

-- Texts that are their own digest.
abbrev pub digest : Text → Text
digest text = text

abbrev pub loaded : Config
loaded = read_config out digest

read_fine : read_problems out digest ≡ []
unfolding read_problems load_clients setting trim_space Clients.new Clients.add_clients text_len
    lookup insert load_signing_key duration read_int whole
read_fine = refl

valid_fine : validate out loaded ≡ []
unfolding validate read_config load_clients setting trim_space Clients.new Clients.add_clients
    text_len lookup insert load_signing_key duration read_int whole split_list text_dec ℕ_discrete
valid_fine = refl

pub out-loads : load out digest ≡ inr loaded
unfolding load
out-loads = rw (read_fine, valid_fine) refl

load-IsUsable_example : IsUsable digest loaded
load-IsUsable_example = load-IsUsable out digest loaded out-loads

abbrev origins : List Text
origins = codes "https://a.example" ∷ codes "https://b.example" ∷ []

abbrev raw_list : Text
raw_list = codes " a,, b ,"

split_list_lem_example :
    (split_list (codes "https://a.example, https://b.example") ≡ origins)
    × (all_entries (split_list raw_list) ≡ true)
    × (split_list (joined (split_list raw_list)) ≡ split_list raw_list)
unfolding dc_streaming_p2p.Base.Strings.is_space
split_list_lem_example = split_list_lem origins raw_list refl
