-- ===== src/State/Fees/Layout.antt =====
-- `FeeConfig::from_account_data` of src/state.rs against the account's layout.
use pump_swap_sdk.Prelude.{ℕ, ◌^◌, ◌<◌, ◌≡◌, refl, List, ◌++◌, length, length-append, All, arith}
use pump_swap_sdk.Prelude.Bytes.{to_le, length-to_le}
use pump_swap_sdk.Prelude.Outcome.{ok}
use pump_swap_sdk.State.Reader.{vec}
use pump_swap_sdk.State.Reader.Accounts.{decode_account-Reads}
use pump_swap_sdk.State.Reader.Encoding.{
  Reads, Reads-bind, Reads-map, Reads-uint, Reads-vec, concat,
}
use pump_swap_sdk.State.Fees.{
  Fees, FeeTier, FeeConfig, read_fees, read_tier, tier_len, read_fee_config, from_account_data,
  fee_config_discriminator,
}

abbrev pub fees_bytes : Fees → List ℕ
fees_bytes f = to_le 8 f.lp_fee_bps ++ (to_le 8 f.protocol_fee_bps ++ to_le 8 f.creator_fee_bps)

abbrev pub tier_bytes : FeeTier → List ℕ
tier_bytes t = to_le 16 t.market_cap_lamports_threshold ++ fees_bytes t.fees

abbrev pub fee_config_bytes : FeeConfig → List ℕ
fee_config_bytes c =
    to_le 1 c.bump
    ++ (to_le 32 c.admin
        ++ (fees_bytes c.flat_fees
            ++ ((to_le 4 (length c.fee_tiers) ++ concat tier_bytes c.fee_tiers)
                ++ (to_le 4 (length c.stable_fee_tiers) ++ concat tier_bytes c.stable_fee_tiers))))

-- Every field fits its width.
pub record IsFees (f : Fees) : Type 0 where
  pub lp : f.lp_fee_bps < 256 ^ 8
  pub protocol : f.protocol_fee_bps < 256 ^ 8
  pub creator : f.creator_fee_bps < 256 ^ 8

pub record IsTier (t : FeeTier) : Type 0 where
  pub threshold : t.market_cap_lamports_threshold < 256 ^ 16
  pub fees : IsFees t.fees

pub record IsFeeConfig (c : FeeConfig) : Type 0 where
  pub bump : c.bump < 256 ^ 1
  pub admin : c.admin < 256 ^ 32
  pub flat_fees : IsFees c.flat_fees
  pub fee_tiers : All IsTier c.fee_tiers
  pub fee_tiers_len : length c.fee_tiers < 2 ^ 32
  pub stable_fee_tiers : All IsTier c.stable_fee_tiers
  pub stable_fee_tiers_len : length c.stable_fee_tiers < 2 ^ 32

Reads-fees : (f : Fees) → IsFees f → Reads read_fees f (fees_bytes f)
unfolding read_fees
Reads-fees f v = Reads-bind _ (Reads-uint 8 f.lp_fee_bps v.lp) (
    Reads-bind _ (Reads-uint 8 f.protocol_fee_bps v.protocol)
      (Reads-map _ (Reads-uint 8 f.creator_fee_bps v.creator)))

Reads-tier : (t : FeeTier) → IsTier t → Reads read_tier t (tier_bytes t)
unfolding read_tier
Reads-tier t v =
    Reads-bind _ (Reads-uint 16 t.market_cap_lamports_threshold v.threshold)
      (Reads-map _ (Reads-fees t.fees v.fees))

length-tier_bytes : (t : FeeTier) → length (tier_bytes t) ≡ tier_len
length-tier_bytes t = simp (length-append, length-to_le)

Reads-tiers :
    (ts : List FeeTier)
    → length ts < 2 ^ 32
    → All IsTier ts
    → Reads (vec tier_len read_tier) ts (to_le 4 (length ts) ++ concat tier_bytes ts)
Reads-tiers ts short v =
    Reads-vec tier_len read_tier tier_bytes IsTier Reads-tier
      (λ t h. omega (arith, length-tier_bytes t)) ts short v

Reads-fee_config : (c : FeeConfig) → IsFeeConfig c → Reads read_fee_config c (fee_config_bytes c)
unfolding read_fee_config
Reads-fee_config c v = Reads-bind _ (Reads-uint 1 c.bump v.bump) (
    Reads-bind _ (Reads-uint 32 c.admin v.admin) (
      Reads-bind _ (Reads-fees c.flat_fees v.flat_fees) (
        Reads-bind _ (Reads-tiers c.fee_tiers v.fee_tiers_len v.fee_tiers) (
          Reads-map _ (Reads-tiers c.stable_fee_tiers v.stable_fee_tiers_len v.stable_fee_tiers)))))

-- A `FeeConfig` with every field within its width and ladders of less than 2^32 tiers, that was
-- written as the borsh layout, is decoded back, whatever bytes an account of less than 2^63 bytes
-- has behind it.
pub from_account_data-fee_config_bytes :
    (c : FeeConfig) (tail : List ℕ)
    → IsFeeConfig c
    → length (fee_config_discriminator ++ (fee_config_bytes c ++ tail)) < 2 ^ 63
    → from_account_data (fee_config_discriminator ++ (fee_config_bytes c ++ tail)) ≡ ok c
unfolding from_account_data
from_account_data-fee_config_bytes c tail v fits =
    decode_account-Reads _ _ _ c (fee_config_bytes c) tail refl fits (Reads-fee_config c v)
