-- ===== src/State/Config.antt =====
-- `GlobalConfig` of src/state.rs.
pub mod Layout
use pump_swap_sdk.Prelude.{ℕ, Bool, List, [], ◌∷◌}
use pump_swap_sdk.Prelude.Outcome.{Result, Account}
use pump_swap_sdk.State.Reader.{
  Decoder, ◌>>=◌, pure, u8, u64, pubkey, bool, pubkey_array, decode_account,
}

-- An array of the source is a list of the length that its decoder gives it.
pub record GlobalConfig : Type 0 where
  pub admin : ℕ
  pub lp_fee_basis_points : ℕ
  pub protocol_fee_basis_points : ℕ
  pub disable_flags : ℕ
  pub protocol_fee_recipients : List ℕ
  pub coin_creator_fee_basis_points : ℕ
  pub admin_set_coin_creator_authority : ℕ
  pub whitelist_pda : ℕ
  pub reserved_fee_recipient : ℕ
  pub mayhem_mode_enabled : Bool
  pub reserved_fee_recipients : List ℕ
  pub is_cashback_enabled : Bool
  pub buyback_fee_recipients : List ℕ
  pub buyback_basis_points : ℕ

abbrev pub global_config_discriminator : List ℕ
global_config_discriminator = 0x95 ∷ 0x08 ∷ 0x9c ∷ 0xca ∷ 0xa0 ∷ 0xfc ∷ 0xb0 ∷ 0xd9 ∷ []

unfoldable pub read_global_config : Decoder GlobalConfig
read_global_config = do
  admin ← pubkey
  lp ← u64
  protocol ← u64
  flags ← u8
  protocol_recipients ← pubkey_array 8
  coin_creator ← u64
  authority ← pubkey
  whitelist ← pubkey
  reserved ← pubkey
  mayhem ← bool
  reserved_recipients ← pubkey_array 7
  cashback ← bool
  buyback_recipients ← pubkey_array 8
  buyback ← u64
  pure (record {
    admin = admin;
    lp_fee_basis_points = lp;
    protocol_fee_basis_points = protocol;
    disable_flags = flags;
    protocol_fee_recipients = protocol_recipients;
    coin_creator_fee_basis_points = coin_creator;
    admin_set_coin_creator_authority = authority;
    whitelist_pda = whitelist;
    reserved_fee_recipient = reserved;
    mayhem_mode_enabled = mayhem;
    reserved_fee_recipients = reserved_recipients;
    is_cashback_enabled = cashback;
    buyback_fee_recipients = buyback_recipients;
    buyback_basis_points = buyback;
  })

unfoldable pub from_account_data : List ℕ → Result GlobalConfig
from_account_data =
    decode_account global_config_discriminator Account.global_config read_global_config

unfoldable pub all_reserved_fee_recipients : GlobalConfig → List ℕ
all_reserved_fee_recipients c = c.reserved_fee_recipient ∷ c.reserved_fee_recipients
