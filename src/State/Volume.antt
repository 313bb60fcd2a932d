-- ===== src/State/Volume.antt =====
-- `UserVolumeAccumulator` and `GlobalVolumeAccumulator` of src/state.rs.
pub mod Layout
pub mod Days
use pump_swap_sdk.Prelude.{
  ℕ, ◌+◌, ◌-◌, ◌*◌, ◌/◌, ◌%◌, ◌^◌, Bool, true, false, not, ◌&&◌, ◌||◌, List, [], ◌∷◌, Option, none,
  some, ltb, leb, if◌then◌else◌,
}
use pump_swap_sdk.Prelude.Int.{ℤ, pos, negsuc, leb_ℤ, ltb_ℤ, ◌-ℤ◌, signed, to_word}
use pump_swap_sdk.Prelude.Outcome.{Result, Account}
use pump_swap_sdk.State.Reader.{
  Decoder, ◌>>=◌, pure, u64, i64, pubkey, bool, u64_array, decode_account,
}

pub record UserVolumeAccumulator : Type 0 where
  pub user : ℕ
  pub needs_claim : Bool
  pub total_unclaimed_tokens : ℕ
  pub total_claimed_tokens : ℕ
  pub current_sol_volume : ℕ
  pub last_update_timestamp : ℤ
  pub has_total_claimed_tokens : Bool
  pub cashback_earned : ℕ
  pub total_cashback_claimed : ℕ

-- `UserVolumeAccumulator::ENCODED_LEN`
abbrev pub user_encoded_len : ℕ
user_encoded_len = 8 + 32 + 1 + 8 * 3 + 8 + 1 + 8 * 2

abbrev pub user_discriminator : List ℕ
user_discriminator = 0x56 ∷ 0xff ∷ 0x70 ∷ 0x0e ∷ 0x66 ∷ 0x35 ∷ 0x9a ∷ 0xfa ∷ []

unfoldable pub empty : ℕ → UserVolumeAccumulator
empty user = record {
  user = user;
  needs_claim = false;
  total_unclaimed_tokens = 0;
  total_claimed_tokens = 0;
  current_sol_volume = 0;
  last_update_timestamp = pos 0;
  has_total_claimed_tokens = false;
  cashback_earned = 0;
  total_cashback_claimed = 0;
}

unfoldable pub read_user : Decoder UserVolumeAccumulator
read_user = do
  user ← pubkey
  needs_claim ← bool
  unclaimed ← u64
  claimed ← u64
  volume ← u64
  timestamp ← i64
  has_total ← bool
  earned ← u64
  cashback_claimed ← u64
  pure (record {
    user = user;
    needs_claim = needs_claim;
    total_unclaimed_tokens = unclaimed;
    total_claimed_tokens = claimed;
    current_sol_volume = volume;
    last_update_timestamp = timestamp;
    has_total_claimed_tokens = has_total;
    cashback_earned = earned;
    total_cashback_claimed = cashback_claimed;
  })

unfoldable pub user_from_account_data : List ℕ → Result UserVolumeAccumulator
user_from_account_data = decode_account user_discriminator Account.user_volume_accumulator read_user

abbrev pub volume_accumulator_days : ℕ
volume_accumulator_days = 30

pub record GlobalVolumeAccumulator : Type 0 where
  pub start_time : ℤ
  pub end_time : ℤ
  pub seconds_in_a_day : ℤ
  pub mint : ℕ
  pub total_token_supply : List ℕ
  pub sol_volumes : List ℕ

-- `GlobalVolumeAccumulator::ENCODED_LEN`
abbrev pub global_encoded_len : ℕ
global_encoded_len = 8 + 8 * 3 + 32 + 8 * volume_accumulator_days * 2

abbrev pub global_discriminator : List ℕ
global_discriminator = 0xca ∷ 0x2a ∷ 0xf6 ∷ 0x2b ∷ 0x8e ∷ 0xbe ∷ 0x1e ∷ 0xff ∷ []

unfoldable pub read_global : Decoder GlobalVolumeAccumulator
read_global = do
  start_time ← i64
  end_time ← i64
  seconds ← i64
  mint ← pubkey
  supply ← u64_array volume_accumulator_days
  volumes ← u64_array volume_accumulator_days
  pure (record {
    start_time = start_time;
    end_time = end_time;
    seconds_in_a_day = seconds;
    mint = mint;
    total_token_supply = supply;
    sol_volumes = volumes;
  })

unfoldable pub global_from_account_data : List ℕ → Result GlobalVolumeAccumulator
global_from_account_data =
    decode_account global_discriminator Account.global_volume_accumulator read_global

unfoldable pub is_active_at : GlobalVolumeAccumulator → ℤ → Bool
is_active_at g unix_timestamp = leb_ℤ g.start_time unix_timestamp && ltb_ℤ unix_timestamp g.end_time

-- An `i64` subtraction with the wrap of a release build.
unfoldable pub wrapping_sub_i64 : ℤ → ℤ → ℤ
wrapping_sub_i64 a b = signed (2 ^ 63) ((to_word (2 ^ 63) a + 2 ^ 64 - to_word (2 ^ 63) b) % 2 ^ 64)

-- `usize::try_from(n / d)` for a positive `d`: the quotient is rounded towards zero.
abbrev pub quotient : ℤ → ℤ → Option ℕ
quotient (pos n) (pos d) = some (n / d)
quotient (negsuc n) (pos d) = if ltb n (d - 1) then some 0 else none
quotient n (negsuc d) = none

unfoldable pub day_index : GlobalVolumeAccumulator → ℤ → Option ℕ
unfolding is_active_at
day_index g unix_timestamp =
    if not (is_active_at g unix_timestamp) || leb_ℤ g.seconds_in_a_day (pos 0)
    then none
    else elim (quotient (wrapping_sub_i64 unix_timestamp g.start_time) g.seconds_in_a_day) [
      | none ↦ none
      | some day ↦ if ltb day volume_accumulator_days then some day else none
    ]
