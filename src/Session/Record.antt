-- ===== src/Session/Record.antt =====
-- The records, states and errors of internal/session/session.go, and its functions without a store.
use dc_streaming_p2p.Base.{ℕ, Bool, true, false, ◌||◌, ◌∷◌, ◌++◌, Text, if◌then◌else◌}
use dc_streaming_p2p.Base.Strings.{same, text_ltb}

-- `State`. A session never holds any other string.
pub data State : Type 0 where
  negotiating connected failed closed : State

-- `Path`; `unknown` is the empty string. It is not called `Path`, which is the type of equations.
pub data MediaPath : Type 0 where
  unknown direct relayed : MediaPath

-- The errors of the package: the exported ones, and the three that `Open` makes on the spot.
pub data Error : Type 0 where
  not_found not_allowed self full too_many_for_peer bad_transition no_caller no_callee : Error
  no_identifier : Error

pub data Result {ℓ} (A : Type ℓ) : Type ℓ where
  ok : A → Result A
  err : Error → Result A

-- Times are nanoseconds since a fixed moment.
pub record Session : Type 0 where
  pub id : Text
  pub caller : Text
  pub callee : Text
  pub state : State
  pub path : MediaPath
  pub opened_at : ℕ
  pub changed_at : ℕ

abbrev pub is_live : State → Bool
is_live negotiating = true
is_live connected = true
is_live failed = false
is_live closed = false

-- `Live`
abbrev pub live : Session → Bool
live s = is_live s.state

-- `Has`
unfoldable pub has : Text → Session → Bool
has peer s = same peer s.caller || same peer s.callee

-- `Other`
unfoldable pub other : Session → Text → Text
other s peer = if same peer s.caller then s.callee else s.caller

-- `canMove`, whose default refuses every string that is no state.
unfoldable pub can_move : State → State → Bool
can_move negotiating connected = true
can_move negotiating failed = true
can_move negotiating closed = true
can_move connected closed = true
can_move connected failed = true
can_move _ _ = false

-- `pairKey`: `sort.Strings` swaps the two if the second is below the first.
unfoldable pub pair_key : Text → Text → Text
unfolding text_ltb
pair_key a b = if text_ltb b a then b ++ 0 ∷ a else a ++ 0 ∷ b

-- `AllowAll.Allows`
abbrev pub allow_all : Text → Text → Bool
allow_all caller callee = true
