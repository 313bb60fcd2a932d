-- ===== src/State/Config/Layout.antt =====
-- `GlobalConfig::from_account_data` of src/state.rs against the account's layout.
use pump_swap_sdk.Prelude.{ℕ, ◌^◌, ◌≤◌, ◌<◌, ◌≡◌, refl, List, ◌++◌, length, All, take}
use pump_swap_sdk.Prelude.Bytes.{to_le}
use pump_swap_sdk.Prelude.Outcome.{ok}
use pump_swap_sdk.State.Reader.{pubkey, array}
use pump_swap_sdk.State.Reader.Accounts.{decode_account-Reads, decode_account-Needs}
use pump_swap_sdk.State.Reader.Encoding.{
  Reads, Reads-bind, Reads-map, Reads-uint, Reads-bool, Reads-array, bool_byte, concat,
}
use pump_swap_sdk.State.Reader.Extent.{
  Needs, Needs-bind, Needs-pure, Needs-uint, Needs-bool, Needs-array,
}
use pump_swap_sdk.State.Config.{
  GlobalConfig, read_global_config, from_account_data, global_config_discriminator,
}

abbrev pub key_bytes : ℕ → List ℕ
key_bytes = to_le 32

abbrev pub global_config_bytes : GlobalConfig → List ℕ
global_config_bytes c =
    key_bytes c.admin
    ++ (to_le 8 c.lp_fee_basis_points
        ++ (to_le 8 c.protocol_fee_basis_points
            ++ (to_le 1 c.disable_flags
                ++ (concat key_bytes c.protocol_fee_recipients
                    ++ (to_le 8 c.coin_creator_fee_basis_points
                        ++ (key_bytes c.admin_set_coin_creator_authority
                            ++ (key_bytes c.whitelist_pda
                                ++ (key_bytes c.reserved_fee_recipient
                                    ++ (to_le 1 (bool_byte c.mayhem_mode_enabled)
                                        ++ (concat key_bytes c.reserved_fee_recipients
                                            ++ (to_le 1 (bool_byte c.is_cashback_enabled)
                                                ++ (concat key_bytes c.buyback_fee_recipients
                                                    ++ to_le 8 c.buyback_basis_points))))))))))))

abbrev pub IsKey : ℕ → Type 0
IsKey k = k < 256 ^ 32

-- Every field fits its width, and every array has its length.
pub record IsGlobalConfig (c : GlobalConfig) : Type 0 where
  pub admin : IsKey c.admin
  pub lp : c.lp_fee_basis_points < 256 ^ 8
  pub protocol : c.protocol_fee_basis_points < 256 ^ 8
  pub flags : c.disable_flags < 256 ^ 1
  pub protocol_recipients : All IsKey c.protocol_fee_recipients
  pub protocol_recipients_len : length c.protocol_fee_recipients ≡ 8
  pub coin_creator : c.coin_creator_fee_basis_points < 256 ^ 8
  pub authority : IsKey c.admin_set_coin_creator_authority
  pub whitelist : IsKey c.whitelist_pda
  pub reserved : IsKey c.reserved_fee_recipient
  pub reserved_recipients : All IsKey c.reserved_fee_recipients
  pub reserved_recipients_len : length c.reserved_fee_recipients ≡ 7
  pub buyback_recipients : All IsKey c.buyback_fee_recipients
  pub buyback_recipients_len : length c.buyback_fee_recipients ≡ 8
  pub buyback : c.buyback_basis_points < 256 ^ 8

Reads-keys :
    (n : ℕ) (keys : List ℕ)
    → length keys ≡ n
    → All IsKey keys
    → Reads (array n pubkey) keys (concat key_bytes keys)
Reads-keys = Reads-array pubkey key_bytes IsKey (Reads-uint 32)

Reads-global_config :
    (c : GlobalConfig) → IsGlobalConfig c → Reads read_global_config c (global_config_bytes c)
unfolding read_global_config
Reads-global_config c v = Reads-bind _ (Reads-uint 32 c.admin v.admin) (
    Reads-bind _ (Reads-uint 8 c.lp_fee_basis_points v.lp) (
      Reads-bind _ (Reads-uint 8 c.protocol_fee_basis_points v.protocol) (
        Reads-bind _ (Reads-uint 1 c.disable_flags v.flags) (
          Reads-bind _ (Reads-keys 8 _ v.protocol_recipients_len v.protocol_recipients) (
            Reads-bind _ (Reads-uint 8 c.coin_creator_fee_basis_points v.coin_creator) (
              Reads-bind _ (Reads-uint 32 c.admin_set_coin_creator_authority v.authority) (
                Reads-bind _ (Reads-uint 32 c.whitelist_pda v.whitelist) (
                  Reads-bind _ (Reads-uint 32 c.reserved_fee_recipient v.reserved) (
                    Reads-bind _ (Reads-bool c.mayhem_mode_enabled) (
                      Reads-bind _ (Reads-keys 7 _ v.reserved_recipients_len v.reserved_recipients)
                        (Reads-bind _ (Reads-bool c.is_cashback_enabled) (
                          Reads-bind _
                            (Reads-keys 8 _ v.buyback_recipients_len v.buyback_recipients)
                            (Reads-map _
                              (Reads-uint 8 c.buyback_basis_points v.buyback))))))))))))))

-- A `GlobalConfig` that was written in the order of its fields is decoded back, whatever bytes the
-- account has behind it.
pub from_account_data-global_config_bytes :
    (c : GlobalConfig) (tail : List ℕ)
    → IsGlobalConfig c
    → length (global_config_discriminator ++ (global_config_bytes c ++ tail)) < 2 ^ 63
    → from_account_data (global_config_discriminator ++ (global_config_bytes c ++ tail)) ≡ ok c
unfolding from_account_data
from_account_data-global_config_bytes c tail v fits =
    decode_account-Reads _ _ _ c (global_config_bytes c) tail refl fits (Reads-global_config c v)

Needs-global_config : Needs read_global_config 899
unfolding read_global_config
Needs-global_config = Needs-bind _ (Needs-uint 32) λ admin. Needs-bind _ (Needs-uint 8) λ lp.
    Needs-bind _ (Needs-uint 8) λ protocol. Needs-bind _ (Needs-uint 1) λ flags.
      Needs-bind _ (Needs-array 8 (Needs-uint 32)) λ protocol_recipients.
        Needs-bind _ (Needs-uint 8) λ coin_creator. Needs-bind _ (Needs-uint 32) λ authority.
          Needs-bind _ (Needs-uint 32) λ whitelist. Needs-bind _ (Needs-uint 32) λ reserved.
            Needs-bind _ Needs-bool λ mayhem.
              Needs-bind _ (Needs-array 7 (Needs-uint 32)) λ reserved_recipients.
                Needs-bind _ Needs-bool λ cashback.
                  Needs-bind _ (Needs-array 8 (Needs-uint 32))
                    λ buyback_recipients. Needs-bind _ (Needs-uint 8) λ buyback. Needs-pure _

-- A success has the account's discriminator in front, and at least the 907 bytes of the layout.
pub from_account_data-needs :
    (bytes : List ℕ) (c : GlobalConfig)
    → from_account_data bytes ≡ ok c
    → (907 ≤ length bytes) × (take 8 bytes ≡ global_config_discriminator)
unfolding from_account_data
from_account_data-needs bytes c e = decode_account-Needs _ _ _ bytes c Needs-global_config e
