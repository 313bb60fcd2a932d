-- ===== src/State/Sharing.antt =====
-- `ConfigStatus`, `Shareholder` and `SharingConfig` of src/state.rs, and the fee that waits on a
-- pump.fun bonding curve.
pub mod Layout
use mathlib.Core.List.{foldl}
use pump_swap_sdk.Prelude.{
  ℕ, zero, suc, ◌+◌, ◌%◌, ◌^◌, Bool, true, false, List, [], ◌∷◌, map, Option, none, some,
  if◌then◌else◌, get_range,
}
use pump_swap_sdk.Prelude.Bytes.{from_le}
use pump_swap_sdk.Prelude.Outcome.{Result, Account, ok, err, invalid_status, not_a_bonding_curve}
use pump_swap_sdk.State.Reader.{
  Decoder, ◌>>=◌, pure, fail, u8, u16, pubkey, bool, vec, decode_account, eq_bytes,
}

pub data ConfigStatus : Type 0 where
  paused active : ConfigStatus

abbrev pub to_status : ℕ → Result ConfigStatus
to_status zero = ok paused
to_status (suc zero) = ok active
to_status (suc (suc n)) = err (invalid_status (suc (suc n)))

-- `ConfigStatus::read`
unfoldable pub read_status : Decoder ConfigStatus
read_status = do byte ← u8; fail (to_status byte)

pub record Shareholder : Type 0 where
  pub address : ℕ
  pub share_bps : ℕ

-- `Shareholder::read`
unfoldable pub read_shareholder : Decoder Shareholder
read_shareholder = do
  address ← pubkey
  share ← u16
  pure (record { address = address; share_bps = share })

-- `Shareholder::ENCODED_LEN`
abbrev pub shareholder_len : ℕ
shareholder_len = 32 + 2

pub record SharingConfig : Type 0 where
  pub bump : ℕ
  pub version : ℕ
  pub status : ConfigStatus
  pub mint : ℕ
  pub admin : ℕ
  pub admin_revoked : Bool
  pub shareholders : List Shareholder

abbrev pub sharing_config_discriminator : List ℕ
sharing_config_discriminator = 0xd8 ∷ 0x4a ∷ 0x09 ∷ 0x00 ∷ 0x38 ∷ 0x8c ∷ 0x5d ∷ 0x4b ∷ []

unfoldable pub read_sharing_config : Decoder SharingConfig
read_sharing_config = do
  bump ← u8
  version ← u8
  status ← read_status
  mint ← pubkey
  admin ← pubkey
  admin_revoked ← bool
  shareholders ← vec shareholder_len read_shareholder
  pure (record {
    bump = bump;
    version = version;
    status = status;
    mint = mint;
    admin = admin;
    admin_revoked = admin_revoked;
    shareholders = shareholders;
  })

unfoldable pub from_account_data : List ℕ → Result SharingConfig
from_account_data =
    decode_account sharing_config_discriminator Account.sharing_config read_sharing_config

unfoldable pub is_active : SharingConfig → Bool
is_active c = elim c.status [ paused ↦ false | active ↦ true ]

-- A `u32` sum, with the wrap of a release build.
unfoldable pub total_share_bps : SharingConfig → ℕ
total_share_bps c = foldl (λ sum s. (sum + s.share_bps) % 2 ^ 32) 0 c.shareholders

abbrev pub bonding_curve_discriminator : List ℕ
bonding_curve_discriminator = 23 ∷ 183 ∷ 248 ∷ 55 ∷ 96 ∷ 216 ∷ 172 ∷ 96 ∷ []

abbrev pub bonding_curve_creator_fee_offset : ℕ
bonding_curve_creator_fee_offset = 125

-- `data.get(..8) != Some(&BONDING_CURVE_DISCRIMINATOR[..])`, negated
abbrev pub starts_as_curve : Option (List ℕ) → Bool
starts_as_curve none = false
starts_as_curve (some found) = eq_bytes found bonding_curve_discriminator

unfoldable pub bonding_curve_creator_fee : List ℕ → Result ℕ
unfolding eq_bytes
bonding_curve_creator_fee bytes =
    let offset : ℕ = bonding_curve_creator_fee_offset in
    if starts_as_curve (get_range bytes 0 8)
    then ok (elim (get_range bytes offset (offset + 8)) [ none ↦ 0 | some word ↦ from_le word ])
    else err not_a_bonding_curve
