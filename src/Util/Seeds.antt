-- ===== src/Util/Seeds.antt =====
-- The seeds of src/util.rs: the byte strings `b"…"`.
use Prim.Native.Nat.{ℕ}
use mathlib.Core.List.{List, [], ◌∷◌}

-- "pool"
abbrev pub pool : List ℕ
pool = b'p' ∷ b'o' ∷ b'o' ∷ b'l' ∷ []

-- "pool_lp_mint"
abbrev pub pool_lp_mint : List ℕ
pool_lp_mint =
    b'p' ∷ b'o' ∷ b'o' ∷ b'l' ∷ b'_' ∷ b'l' ∷ b'p' ∷ b'_' ∷ b'm' ∷ b'i' ∷ b'n' ∷ b't' ∷ []

-- "user_volume_accumulator"
abbrev pub user_volume_accumulator : List ℕ
user_volume_accumulator =
    b'u' ∷ b's' ∷ b'e' ∷ b'r' ∷ b'_' ∷ b'v' ∷ b'o' ∷ b'l' ∷ b'u' ∷ b'm' ∷ b'e' ∷ b'_' ∷ b'a' ∷ b'c'
    ∷ b'c' ∷ b'u' ∷ b'm' ∷ b'u' ∷ b'l' ∷ b'a' ∷ b't' ∷ b'o' ∷ b'r' ∷ []

-- "creator_vault"
abbrev pub creator_vault : List ℕ
creator_vault =
    b'c' ∷ b'r' ∷ b'e' ∷ b'a' ∷ b't' ∷ b'o' ∷ b'r' ∷ b'_' ∷ b'v' ∷ b'a' ∷ b'u' ∷ b'l' ∷ b't' ∷ []

-- "fee_config"
abbrev pub fee_config : List ℕ
fee_config = b'f' ∷ b'e' ∷ b'e' ∷ b'_' ∷ b'c' ∷ b'o' ∷ b'n' ∷ b'f' ∷ b'i' ∷ b'g' ∷ []

-- "sharing-config"
abbrev pub sharing_config : List ℕ
sharing_config =
    b's' ∷ b'h' ∷ b'a' ∷ b'r' ∷ b'i' ∷ b'n' ∷ b'g' ∷ b'-' ∷ b'c' ∷ b'o' ∷ b'n' ∷ b'f' ∷ b'i' ∷ b'g'
    ∷ []

-- "bonding-curve"
abbrev pub bonding_curve : List ℕ
bonding_curve =
    b'b' ∷ b'o' ∷ b'n' ∷ b'd' ∷ b'i' ∷ b'n' ∷ b'g' ∷ b'-' ∷ b'c' ∷ b'u' ∷ b'r' ∷ b'v' ∷ b'e' ∷ []

-- "creator-vault"
abbrev pub pump_creator_vault : List ℕ
pump_creator_vault =
    b'c' ∷ b'r' ∷ b'e' ∷ b'a' ∷ b't' ∷ b'o' ∷ b'r' ∷ b'-' ∷ b'v' ∷ b'a' ∷ b'u' ∷ b'l' ∷ b't' ∷ []

-- "pool-authority"
abbrev pub pool_authority : List ℕ
pool_authority =
    b'p' ∷ b'o' ∷ b'o' ∷ b'l' ∷ b'-' ∷ b'a' ∷ b'u' ∷ b't' ∷ b'h' ∷ b'o' ∷ b'r' ∷ b'i' ∷ b't' ∷ b'y'
    ∷ []

-- "metadata"
abbrev pub metadata : List ℕ
metadata = b'm' ∷ b'e' ∷ b't' ∷ b'a' ∷ b'd' ∷ b'a' ∷ b't' ∷ b'a' ∷ []

-- "pool-v2"
abbrev pub pool_v2 : List ℕ
pool_v2 = b'p' ∷ b'o' ∷ b'o' ∷ b'l' ∷ b'-' ∷ b'v' ∷ b'2' ∷ []
