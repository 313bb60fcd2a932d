-- ===== src/State/Pool.antt =====
-- `Pool`, `TokenSide` and `PoolInfo` of src/state.rs: the pool account, decoded at fixed offsets, and
-- its two sides.
pub mod Offsets
pub mod Layout
pub mod Sides
use pump_swap_sdk.Prelude.{
  ℕ, zero, suc, ◌+◌, ◌-◌, ◌*◌, ◌^◌, Bool, true, false, not, List, Option, none, some, ltb, leb,
  ◌==◌, if◌then◌else◌, length, take, drop, get_elem?, get_range, u64_max,
}
use pump_swap_sdk.Prelude.Int.{ℤ, pos, negsuc, signed, ◌+ℤ◌, leb_ℤ, ltb_ℤ, pos_part}
use pump_swap_sdk.Prelude.Bytes.{from_le}
use pump_swap_sdk.Prelude.Outcome.{Result, ok, err, pool_too_short}
use pump_swap_sdk.Constants.{wrapped_sol_mint}

-- `#[repr(C, packed)]`: the fields stand one behind the other, with no padding.
pub record Pool : Type 0 where
  pub pool_bump : ℕ
  pub index : ℕ
  pub creator : ℕ
  pub base_mint : ℕ
  pub quote_mint : ℕ
  pub lp_mint : ℕ
  pub pool_base_token_account : ℕ
  pub pool_quote_token_account : ℕ
  pub lp_supply : ℕ
  pub coin_creator : ℕ
  pub is_mayhem_mode : ℕ
  pub is_cashback_coin : ℕ

-- `size_of::<Pool>()`
abbrev pub pool_size : ℕ
pool_size = 237

pub data TokenSide : Type 0 where
  base quote : TokenSide

pub record PoolInfo : Type 0 where
  pub pool : ℕ
  pub pool_account_data_len : ℕ
  pub base_mint : ℕ
  pub quote_mint : ℕ
  pub lp_mint : ℕ
  pub pool_base_token_account : ℕ
  pub pool_quote_token_account : ℕ
  pub creator : ℕ
  pub coin_creator : ℕ
  pub is_mayhem_mode : Bool
  pub is_cashback_coin : Bool
  pub virtual_quote_reserves : ℤ
  pub creator_fee_bps : ℕ
  pub is_holder_reward : Bool
  pub protocol_fees : ℕ
  pub creator_fees : ℕ
  pub base_token_program : ℕ
  pub quote_token_program : ℕ

-- The integer of `width` bytes at an offset.
abbrev pub field : ℕ → ℕ → List ℕ → ℕ
field offset width bytes = from_le (take width (drop offset bytes))

-- `bytemuck::from_bytes::<Pool>`
unfoldable pub pool_from_bytes : List ℕ → Pool
pool_from_bytes bytes = record {
  pool_bump = field 0 1 bytes;
  index = field 1 2 bytes;
  creator = field 3 32 bytes;
  base_mint = field 35 32 bytes;
  quote_mint = field 67 32 bytes;
  lp_mint = field 99 32 bytes;
  pool_base_token_account = field 131 32 bytes;
  pool_quote_token_account = field 163 32 bytes;
  lp_supply = field 195 8 bytes;
  coin_creator = field 203 32 bytes;
  is_mayhem_mode = field 235 1 bytes;
  is_cashback_coin = field 236 1 bytes;
}

-- The closure `trailing_u64` of `from_account_data`: 0 where the account ends before the field.
abbrev pub trailing_u64 : List ℕ → ℕ → ℕ
trailing_u64 bytes offset = elim (get_range bytes offset (offset + 8)) [
  | none ↦ 0
  | some word ↦ from_le word
]

abbrev pub trailing_i128 : List ℕ → ℕ → ℤ
trailing_i128 bytes offset = elim (get_range bytes offset (offset + 16)) [
  | none ↦ pos 0
  | some word ↦ signed (2 ^ 127) (from_le word)
]

abbrev pub trailing_flag : List ℕ → ℕ → Bool
trailing_flag bytes offset = elim (get_elem? bytes offset) [
  | none ↦ false
  | some byte ↦ not (byte == 0)
]

-- `&data[8..pool_size + 8]`
abbrev pub pool_slice : List ℕ → List ℕ
pool_slice bytes = take pool_size (drop 8 bytes)

-- `PoolInfo::from_account_data`
unfoldable pub from_account_data : ℕ → List ℕ → ℕ → ℕ → Result PoolInfo
from_account_data pool bytes base_token_program quote_token_program =
    if ltb (length bytes) (pool_size + 8)
    then err (pool_too_short (pool_size + 8) (length bytes))
    else let pool_data = pool_from_bytes (pool_slice bytes) in
      let reserves_end : ℕ = pool_size + 24 in
      ok (record {
        pool = pool;
        pool_account_data_len = length bytes;
        base_mint = pool_data.base_mint;
        quote_mint = pool_data.quote_mint;
        lp_mint = pool_data.lp_mint;
        pool_base_token_account = pool_data.pool_base_token_account;
        pool_quote_token_account = pool_data.pool_quote_token_account;
        creator = pool_data.creator;
        coin_creator = pool_data.coin_creator;
        is_mayhem_mode = not (pool_data.is_mayhem_mode == 0);
        is_cashback_coin = not (pool_data.is_cashback_coin == 0);
        virtual_quote_reserves = trailing_i128 bytes (pool_size + 8);
        creator_fee_bps = trailing_u64 bytes reserves_end;
        is_holder_reward = trailing_flag bytes (reserves_end + 9);
        protocol_fees = trailing_u64 bytes (reserves_end + 10);
        creator_fees = trailing_u64 bytes (reserves_end + 18);
        base_token_program = base_token_program;
        quote_token_program = quote_token_program;
      })

unfoldable pub sol_is_base : PoolInfo → Bool
sol_is_base p = p.base_mint == wrapped_sol_mint

unfoldable pub token_side : PoolInfo → TokenSide
unfolding sol_is_base
token_side p = if sol_is_base p then quote else base

unfoldable pub token_mint : PoolInfo → ℕ
unfolding token_side
token_mint p = elim (token_side p) [ base ↦ p.base_mint | quote ↦ p.quote_mint ]

unfoldable pub token_program : PoolInfo → ℕ
unfolding token_side
token_program p = elim (token_side p) [
  | base ↦ p.base_token_program
  | quote ↦ p.quote_token_program
]

-- `(sol_reserve, token_reserve)`
unfoldable pub orient_reserves : PoolInfo → ℕ → ℕ → ℕ × ℕ
unfolding token_side
orient_reserves p base_reserve quote_reserve = elim (token_side p) [
  | base ↦ (quote_reserve, base_reserve)
  | quote ↦ (base_reserve, quote_reserve)
]

-- `i128::saturating_add`
unfoldable pub saturating_add_i128 : ℤ → ℤ → ℤ
unfolding ◌+ℤ◌
saturating_add_i128 a b =
    let sum = a +ℤ b in
    if ltb_ℤ (pos (2 ^ 127 - 1)) sum
    then pos (2 ^ 127 - 1)
    else if ltb_ℤ sum (negsuc (2 ^ 127 - 1))
    then negsuc (2 ^ 127 - 1)
    else sum

-- `clamp(0, u64::MAX as i128) as u64`
abbrev pub clamp_u64 : ℤ → ℕ
clamp_u64 i = if ltb_ℤ i (pos 0) then 0 else if ltb_ℤ (pos u64_max) i then u64_max else pos_part i

unfoldable pub effective_reserves : PoolInfo → ℕ → ℕ → ℕ × ℕ
unfolding saturating_add_i128
effective_reserves p base_reserve quote_reserve =
    (base_reserve, clamp_u64 (saturating_add_i128 (pos quote_reserve) p.virtual_quote_reserves))
