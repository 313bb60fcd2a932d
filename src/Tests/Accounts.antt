-- ===== src/Tests/Accounts.antt =====
-- Concrete accounts of src/state.rs, written and read back.
use pump_swap_sdk.Prelude.{
  ℕ, ◌-◌, ◌/◌, ◌^◌, ltb, if◌then◌else◌, ◌<◌, ◌≡◌, refl, ◌↔◌, inl, true, false, List, [], ◌∷◌, ◌++◌,
  none, some, length, replicate, arith,
}
use pump_swap_sdk.Prelude.Int.{pos, negsuc, ◌+ℤ◌, ◌≤ℤ◌, ◌<ℤ◌}
use pump_swap_sdk.Prelude.Bytes.{to_le}
use pump_swap_sdk.Prelude.Outcome.{ok, err, pool_too_short}
use pump_swap_sdk.Constants.{wrapped_sol_mint}
use pump_swap_sdk.State.Pool.{Pool, PoolInfo, effective_reserves}
use pump_swap_sdk.State.Pool
use pump_swap_sdk.State.Pool.Layout.{
  IsPool, Trailing, IsTrailing, account_bytes, info_of, from_account_data-account_bytes,
  from_account_data_short,
}
use pump_swap_sdk.State.Pool.Sides.{nearest_u64, effective_reserves_lem}
use pump_swap_sdk.State.Fees.{Fees, FeeTier, FeeConfig, fee_config_discriminator}
use pump_swap_sdk.State.Fees
use pump_swap_sdk.State.Fees.Layout.{
  IsFees, IsFeeConfig, fee_config_bytes, from_account_data-fee_config_bytes,
}
use pump_swap_sdk.State.Sharing.{
  SharingConfig, Shareholder, active, total_share_bps, sharing_config_discriminator,
}
use pump_swap_sdk.State.Sharing
use pump_swap_sdk.State.Sharing.Layout.{
  IsSharingConfig, sharing_config_bytes, from_account_data-sharing_config_bytes,
}
use pump_swap_sdk.State.Volume.{
  UserVolumeAccumulator, GlobalVolumeAccumulator, volume_accumulator_days, is_active_at, day_index,
}
use pump_swap_sdk.State.Volume.Layout.{IsUser}
use pump_swap_sdk.State.Volume.Days.{
  is_active_at_iff, day_index_inside, day_index_outside, day_index_wraps,
}

abbrev pub pool : Pool
pool = record {
  pool_bump = 254;
  index = 0;
  creator = 11;
  base_mint = 12;
  quote_mint = wrapped_sol_mint;
  lp_mint = 13;
  pool_base_token_account = 14;
  pool_quote_token_account = 15;
  lp_supply = 4_193_388_463_400;
  coin_creator = 16;
  is_mayhem_mode = 0;
  is_cashback_coin = 1;
}

pub pool-IsPool : IsPool pool
pool-IsPool = record {
  pool_bump = omega arith;
  index = omega arith;
  creator = omega arith;
  base_mint = omega arith;
  quote_mint = omega arith;
  lp_mint = omega arith;
  pool_base_token_account = omega arith;
  pool_quote_token_account = omega arith;
  lp_supply = omega arith;
  coin_creator = omega arith;
  is_mayhem_mode = omega arith;
  is_cashback_coin = omega arith;
}

abbrev pub trailing : Trailing
trailing = record {
  virtual_quote_reserves = negsuc 499;
  creator_fee_bps = 30;
  can_edit_creator_fee = 0;
  is_holder_reward = 1;
  protocol_fees = 77;
  creator_fees = 88;
}

pub trailing-IsTrailing : IsTrailing trailing
trailing-IsTrailing = record {
  virtual_quote_reserves = omega arith;
  creator_fee_bps = omega arith;
  is_holder_reward = omega arith;
  protocol_fees = omega arith;
  creator_fees = omega arith;
}

abbrev pub zeros : List ℕ
zeros = replicate 8 0

from_account_data-account_bytes_example :
    let bytes = account_bytes zeros pool trailing (0 ∷ []) in
    Pool.from_account_data 99 bytes 1 2 ≡ ok (info_of 99 (length bytes) pool trailing 1 2)
from_account_data-account_bytes_example =
    from_account_data-account_bytes 99 zeros pool trailing (0 ∷ []) 1 2 refl pool-IsPool
      trailing-IsTrailing

from_account_data_short_example :
    Pool.from_account_data 99 zeros 1 2 ≡ err (pool_too_short 245 (length zeros))
from_account_data_short_example = from_account_data_short 99 zeros 1 2 (omega arith)

abbrev virtual_pool : PoolInfo
virtual_pool = info_of 99 301 pool trailing 1 2

effective_reserves_lem_example :
    effective_reserves virtual_pool 1_000 400
    ≡ (1_000, nearest_u64 (pos 400 +ℤ virtual_pool.virtual_quote_reserves))
effective_reserves_lem_example =
    effective_reserves_lem virtual_pool 1_000 400 (omega arith) (omega arith)

abbrev fees : Fees
fees = record { lp_fee_bps = 20; protocol_fee_bps = 5; creator_fee_bps = 5 }

fees-IsFees : IsFees fees
fees-IsFees = record { lp = omega arith; protocol = omega arith; creator = omega arith }

abbrev tier : FeeTier
tier = record { market_cap_lamports_threshold = 420_000_000_000; fees = fees }

abbrev pub fee_config : FeeConfig
fee_config = record {
  bump = 253;
  admin = 21;
  flat_fees = fees;
  fee_tiers = tier ∷ [];
  stable_fee_tiers = [];
}

pub fee_config-IsFeeConfig : IsFeeConfig fee_config
fee_config-IsFeeConfig = record {
  bump = omega arith;
  admin = omega arith;
  flat_fees = fees-IsFees;
  fee_tiers = (record { threshold = omega arith; fees = fees-IsFees }, tt);
  fee_tiers_len = omega arith;
  stable_fee_tiers = tt;
  stable_fee_tiers_len = omega arith;
}

pub fee_config_short :
    length (fee_config_discriminator ++ (fee_config_bytes fee_config ++ zeros)) < 2 ^ 63
unfolding to_le
fee_config_short = omega arith

from_account_data-fee_config_bytes_example :
    Fees.from_account_data (fee_config_discriminator ++ (fee_config_bytes fee_config ++ zeros))
    ≡ ok fee_config
from_account_data-fee_config_bytes_example =
    from_account_data-fee_config_bytes fee_config zeros fee_config-IsFeeConfig fee_config_short

abbrev sharing : SharingConfig
sharing = record {
  bump = 252;
  version = 1;
  status = active;
  mint = 12;
  admin = 31;
  admin_revoked = false;
  shareholders =
      record { address = 41; share_bps = 6_000 } ∷ record { address = 42; share_bps = 4_000 } ∷ [];
}

sharing-IsSharingConfig : IsSharingConfig sharing
sharing-IsSharingConfig = record {
  bump = omega arith;
  version = omega arith;
  mint = omega arith;
  admin = omega arith;
  shareholders = (
    record { address = omega arith; share_bps = omega arith },
    (record { address = omega arith; share_bps = omega arith }, tt),
  );
  shareholders_len = omega arith;
}

from_account_data-sharing_config_bytes_example :
    Sharing.from_account_data
      (sharing_config_discriminator ++ (sharing_config_bytes sharing ++ zeros))
    ≡ ok sharing
unfolding to_le
from_account_data-sharing_config_bytes_example =
    from_account_data-sharing_config_bytes sharing zeros sharing-IsSharingConfig (omega arith)

abbrev user : UserVolumeAccumulator
user = record {
  user = 51;
  needs_claim = true;
  total_unclaimed_tokens = 1;
  total_claimed_tokens = 2;
  current_sol_volume = 3;
  last_update_timestamp = negsuc 9;
  has_total_claimed_tokens = false;
  cashback_earned = 4;
  total_cashback_claimed = 5;
}

user-IsUser : IsUser user
user-IsUser = record {
  user = omega arith;
  unclaimed = omega arith;
  claimed = omega arith;
  volume = omega arith;
  timestamp = omega arith;
  earned = omega arith;
  cashback_claimed = omega arith;
}

abbrev global : GlobalVolumeAccumulator
global = record {
  start_time = pos 1_000;
  end_time = pos 1_000_000;
  seconds_in_a_day = pos 86_400;
  mint = 12;
  total_token_supply = replicate 30 0;
  sol_volumes = replicate 30 0;
}

is_active_at_iff_example :
    (is_active_at global (pos 1_000) ≡ true)
    ↔ ((pos 1_000 ≤ℤ pos 1_000) × (pos 1_000 <ℤ pos 1_000_000))
is_active_at_iff_example = is_active_at_iff global (pos 1_000)

day_index_outside_example : day_index global (pos 999) ≡ none
day_index_outside_example = day_index_outside global (pos 999) (inl (omega arith))

abbrev endless : GlobalVolumeAccumulator
endless = record {
  start_time = negsuc (2 ^ 63 - 1);
  end_time = pos (2 ^ 63 - 1);
  seconds_in_a_day = pos 86_400;
  mint = 12;
  total_token_supply = [];
  sol_volumes = [];
}

day_index_inside_example :
    day_index global (pos 174_800)
    ≡ (if ltb (173_800 / 86_400) volume_accumulator_days then some (173_800 / 86_400) else none)
unfolding ◌+ℤ◌
day_index_inside_example =
    day_index_inside global (pos 174_800) 86_400 173_800 (omega arith) (omega arith) refl
      (omega arith) refl (omega arith) (omega arith)

day_index_wraps_example : day_index endless (pos (2 ^ 63 - 2)) ≡ some 0
unfolding ◌+ℤ◌
day_index_wraps_example =
    day_index_wraps endless (pos (2 ^ 63 - 2)) 86_400 (2 ^ 64 - 2) 1 (omega arith) (omega arith)
      refl refl refl (omega arith) (omega arith) (omega arith)
