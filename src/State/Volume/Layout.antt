-- ===== src/State/Volume/Layout.antt =====
-- The two volume accumulators of src/state.rs against their layouts.
use pump_swap_sdk.Prelude.{ℕ, ◌^◌, ◌≤◌, ◌<◌, ◌≡◌, refl, ◌↔◌, List, ◌++◌, length, take}
use pump_swap_sdk.Prelude.Int.{IsSigned}
use pump_swap_sdk.Prelude.Bytes.{to_le}
use pump_swap_sdk.Prelude.Outcome.{ok}
use pump_swap_sdk.State.Reader.Accounts.{
  decode_account-Reads, decode_account-Needs, decode_account-Fixed,
}
use pump_swap_sdk.State.Reader.Encoding.{
  Reads, Reads-bind, Reads-map, Reads-uint, Reads-i64, Reads-bool, i64_bytes, bool_byte,
}
use pump_swap_sdk.State.Reader.Extent.{
  Needs, Needs-bind, Needs-pure, Needs-uint, Needs-i64, Needs-bool, Needs-array, Fixed, Fixed-bind,
  Fixed-pure, Fixed-uint, Fixed-i64, Fixed-array,
}
use pump_swap_sdk.State.Volume.{
  UserVolumeAccumulator, GlobalVolumeAccumulator, read_user, read_global, user_from_account_data,
  global_from_account_data, user_discriminator, global_discriminator, user_encoded_len,
  global_encoded_len,
}

abbrev pub user_bytes : UserVolumeAccumulator → List ℕ
user_bytes u =
    to_le 32 u.user
    ++ (to_le 1 (bool_byte u.needs_claim)
        ++ (to_le 8 u.total_unclaimed_tokens
            ++ (to_le 8 u.total_claimed_tokens
                ++ (to_le 8 u.current_sol_volume
                    ++ (i64_bytes u.last_update_timestamp
                        ++ (to_le 1 (bool_byte u.has_total_claimed_tokens)
                            ++ (to_le 8 u.cashback_earned ++ to_le 8 u.total_cashback_claimed)))))))

-- Every field fits its width.
pub record IsUser (u : UserVolumeAccumulator) : Type 0 where
  pub user : u.user < 256 ^ 32
  pub unclaimed : u.total_unclaimed_tokens < 256 ^ 8
  pub claimed : u.total_claimed_tokens < 256 ^ 8
  pub volume : u.current_sol_volume < 256 ^ 8
  pub timestamp : IsSigned (2 ^ 63) u.last_update_timestamp
  pub earned : u.cashback_earned < 256 ^ 8
  pub cashback_claimed : u.total_cashback_claimed < 256 ^ 8

Reads-user : (u : UserVolumeAccumulator) → IsUser u → Reads read_user u (user_bytes u)
unfolding read_user
Reads-user u v = Reads-bind _ (Reads-uint 32 u.user v.user) (
    Reads-bind _ (Reads-bool u.needs_claim) (
      Reads-bind _ (Reads-uint 8 u.total_unclaimed_tokens v.unclaimed) (
        Reads-bind _ (Reads-uint 8 u.total_claimed_tokens v.claimed) (
          Reads-bind _ (Reads-uint 8 u.current_sol_volume v.volume) (
            Reads-bind _ (Reads-i64 u.last_update_timestamp v.timestamp) (
              Reads-bind _ (Reads-bool u.has_total_claimed_tokens) (
                Reads-bind _ (Reads-uint 8 u.cashback_earned v.earned)
                  (Reads-map _ (Reads-uint 8 u.total_cashback_claimed v.cashback_claimed)))))))))

-- A `UserVolumeAccumulator` with every field within its width, that was written in the order of its
-- fields, is decoded back, whatever bytes an account of less than 2^63 bytes has behind it.
pub user_from_account_data-user_bytes :
    (u : UserVolumeAccumulator) (tail : List ℕ)
    → IsUser u
    → length (user_discriminator ++ (user_bytes u ++ tail)) < 2 ^ 63
    → user_from_account_data (user_discriminator ++ (user_bytes u ++ tail)) ≡ ok u
unfolding user_from_account_data
user_from_account_data-user_bytes u tail v fits =
    decode_account-Reads _ _ _ u (user_bytes u) tail refl fits (Reads-user u v)

Needs-user : Needs read_user 82
unfolding read_user
Needs-user = Needs-bind _ (Needs-uint 32) λ user. Needs-bind _ Needs-bool λ needs_claim.
    Needs-bind _ (Needs-uint 8) λ unclaimed. Needs-bind _ (Needs-uint 8) λ claimed.
      Needs-bind _ (Needs-uint 8) λ volume. Needs-bind _ Needs-i64 λ timestamp.
        Needs-bind _ Needs-bool λ has_total.
          Needs-bind _ (Needs-uint 8)
            λ earned. Needs-bind _ (Needs-uint 8) λ cashback_claimed. Needs-pure _

-- `ENCODED_LEN` is a lower bound for every account that decodes.
pub user_from_account_data-needs :
    (bytes : List ℕ) (u : UserVolumeAccumulator)
    → user_from_account_data bytes ≡ ok u
    → (user_encoded_len ≤ length bytes) × (take 8 bytes ≡ user_discriminator)
unfolding user_from_account_data
user_from_account_data-needs bytes u e = decode_account-Needs _ _ _ bytes u Needs-user e

Needs-global : Needs read_global 536
unfolding read_global
Needs-global = Needs-bind _ Needs-i64 λ start_time. Needs-bind _ Needs-i64 λ end_time.
    Needs-bind _ Needs-i64 λ seconds. Needs-bind _ (Needs-uint 32) λ mint.
      Needs-bind _ (Needs-array 30 (Needs-uint 8))
        λ supply. Needs-bind _ (Needs-array 30 (Needs-uint 8)) λ volumes. Needs-pure _

Fixed-global : Fixed read_global 536
unfolding read_global
Fixed-global = Fixed-bind _ Fixed-i64 λ start_time. Fixed-bind _ Fixed-i64 λ end_time.
    Fixed-bind _ Fixed-i64 λ seconds. Fixed-bind _ (Fixed-uint 32) λ mint.
      Fixed-bind _ (Fixed-array 30 (Fixed-uint 8))
        λ supply. Fixed-bind _ (Fixed-array 30 (Fixed-uint 8)) λ volumes. Fixed-pure _

-- In less than 2^63 bytes, a `GlobalVolumeAccumulator` decodes exactly when the discriminator is right and `ENCODED_LEN`
-- bytes are there: every such account has a value.
pub global_from_account_data_iff :
    (bytes : List ℕ)
    → length bytes < 2 ^ 63
    → ((g : GlobalVolumeAccumulator) × (global_from_account_data bytes ≡ ok g))
      ↔ ((global_encoded_len ≤ length bytes) × (take 8 bytes ≡ global_discriminator))
unfolding global_from_account_data
global_from_account_data_iff bytes fits = (
  λ (g, e). decode_account-Needs _ _ _ bytes g Needs-global e,
  λ (room, disc). decode_account-Fixed _ _ _ bytes Fixed-global disc room fits,
)
