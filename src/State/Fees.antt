-- ===== src/State/Fees.antt =====
-- `Fees`, `FeeTier` and `FeeConfig` of src/state.rs: the fee split of a swap and the ladders by
-- market cap.
pub mod Rounding
pub mod Ladder
pub mod Layout
use mathlib.Core.List.{foldl, reverse}
use pump_swap_sdk.Prelude.{
  ℕ, ◌+◌, ◌*◌, ◌/◌, ◌%◌, Bool, true, false, not, List, [], ◌∷◌, map, Option, none, some, ltb, leb,
  if◌then◌else◌, saturate, saturating_add, mul_u128, div_ceil,
}
use pump_swap_sdk.Prelude.Outcome.{Result, Account}
use pump_swap_sdk.State.Reader.{
  Reader, Decoder, ◌>>=◌, pure, u8, u64, u128, pubkey, vec, decode_account,
}

pub record Fees : Type 0 where
  pub lp_fee_bps : ℕ
  pub protocol_fee_bps : ℕ
  pub creator_fee_bps : ℕ

unfoldable pub ceil_div_bps : ℕ → ℕ → ℕ
ceil_div_bps amount bps = saturate (div_ceil (mul_u128 amount bps) 10_000)

unfoldable pub total_bps : Fees → ℕ
total_bps f = saturating_add (saturating_add f.lp_fee_bps f.protocol_fee_bps) f.creator_fee_bps

unfoldable pub fee_on : Fees → ℕ → ℕ
unfolding ceil_div_bps
fee_on f amount =
    foldl saturating_add 0
      (map (ceil_div_bps amount) (f.lp_fee_bps ∷ f.protocol_fee_bps ∷ f.creator_fee_bps ∷ []))

-- `Fees::default()`
abbrev pub no_fees : Fees
no_fees = record { lp_fee_bps = 0; protocol_fee_bps = 0; creator_fee_bps = 0 }

unfoldable pub read_fees : Decoder Fees
read_fees = do
  lp ← u64
  protocol ← u64
  creator ← u64
  pure (record { lp_fee_bps = lp; protocol_fee_bps = protocol; creator_fee_bps = creator })

pub record FeeTier : Type 0 where
  pub market_cap_lamports_threshold : ℕ
  pub fees : Fees

unfoldable pub read_tier : Decoder FeeTier
unfolding read_fees
read_tier = do
  threshold ← u128
  fees ← read_fees
  pure (record { market_cap_lamports_threshold = threshold; fees = fees })

-- `FeeTier::ENCODED_LEN`
abbrev pub tier_len : ℕ
tier_len = 16 + 24

pub record FeeConfig : Type 0 where
  pub bump : ℕ
  pub admin : ℕ
  pub flat_fees : Fees
  pub fee_tiers : List FeeTier
  pub stable_fee_tiers : List FeeTier

abbrev pub fee_config_discriminator : List ℕ
fee_config_discriminator = 0x8f ∷ 0x34 ∷ 0x92 ∷ 0xbb ∷ 0xdb ∷ 0x7b ∷ 0x4c ∷ 0x9b ∷ []

-- The record literal of `FeeConfig::from_account_data`, field by field.
unfoldable pub read_fee_config : Decoder FeeConfig
unfolding read_fees read_tier
read_fee_config = do
  bump ← u8
  admin ← pubkey
  flat_fees ← read_fees
  fee_tiers ← vec tier_len read_tier
  stable_fee_tiers ← vec tier_len read_tier
  pure (record {
    bump = bump;
    admin = admin;
    flat_fees = flat_fees;
    fee_tiers = fee_tiers;
    stable_fee_tiers = stable_fee_tiers;
  })

unfoldable pub from_account_data : List ℕ → Result FeeConfig
from_account_data = decode_account fee_config_discriminator Account.fee_config read_fee_config

-- `Iterator::find`
abbrev pub find : {A : Type 0} → (A → Bool) → List A → Option A
find p [] = none
find p (x ∷ xs) = if p x then some x else find p xs

unfoldable pub tier_for_market_cap : List FeeTier → ℕ → Option FeeTier
tier_for_market_cap tiers market_cap_lamports =
    find (λ tier. leb tier.market_cap_lamports_threshold market_cap_lamports) (reverse tiers)

unfoldable pub fee_tier_for_market_cap : FeeConfig → ℕ → Option FeeTier
fee_tier_for_market_cap c cap = tier_for_market_cap c.fee_tiers cap

unfoldable pub stable_fee_tier_for_market_cap : FeeConfig → ℕ → Option FeeTier
stable_fee_tier_for_market_cap c cap = tier_for_market_cap c.stable_fee_tiers cap

unfoldable pub is_stable_quote_mint : ℕ → Bool
is_stable_quote_mint quote_mint = false

-- `slice::first`
abbrev pub first : {A : Type 0} → List A → Option A
first [] = none
first (x ∷ xs) = some x

abbrev pub or_else : {A : Type 0} → Option A → Option A → Option A
or_else none other = other
or_else (some a) other = some a

unfoldable pub fees_for_pool : FeeConfig → Bool → ℕ → ℕ → Fees
unfolding is_stable_quote_mint
fees_for_pool c is_tiered market_cap_lamports quote_mint =
    if not is_tiered
    then c.flat_fees
    else let ladder = if is_stable_quote_mint quote_mint then c.stable_fee_tiers else c.fee_tiers in
      elim (or_else (tier_for_market_cap ladder market_cap_lamports) (first ladder)) [
        | none ↦ c.flat_fees
        | some tier ↦ tier.fees
      ]
