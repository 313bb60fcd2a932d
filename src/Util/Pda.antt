-- ===== src/Util/Pda.antt =====
-- The derived addresses of src/util.rs, and the accounts that they stand for.
use pump_swap_sdk.Prelude.{ℕ, Bool, List, [], ◌∷◌, Option, none, some, ◌==◌, if◌then◌else◌, take}
use pump_swap_sdk.Prelude.Bytes.{to_le}
use pump_swap_sdk.Prelude.Outcome.{Result, ok, err, bad_seed}
use pump_swap_sdk.Constants.{
  pump_swap_program_id, pumpfun_program, fee_program, token_metadata_program,
}
use pump_swap_sdk.State.Pool.{PoolInfo}
use pump_swap_sdk.Solana.{Solana, Instruction}
use pump_swap_sdk.Util.Seeds

-- `as_ref()` of a key: its 32 bytes.
abbrev pub key_seed : ℕ → List ℕ
key_seed = to_le 32

module _ ⦃chain : Solana⦄ where
  open chain use {
    find_program_address, create_with_seed, base58, get_associated_token_address_with_program_id,
    create_associated_token_account_idempotent, spl_token_id, spl_token_2022_id,
    associated_token_id,
  }

  unfoldable pub calc_pool_pda_with_index : ℕ → ℕ → ℕ → ℕ → ℕ × ℕ
  calc_pool_pda_with_index index creator base_mint quote_mint =
      find_program_address
        (Seeds.pool
          ∷ to_le 2 index
          ∷ key_seed creator
          ∷ key_seed base_mint
          ∷ key_seed quote_mint
          ∷ [])
        pump_swap_program_id

  unfoldable pub calc_pool_pda : ℕ → ℕ → ℕ → ℕ × ℕ
  unfolding calc_pool_pda_with_index
  calc_pool_pda = calc_pool_pda_with_index 0

  unfoldable pub calc_lp_mint_pda : ℕ → ℕ × ℕ
  calc_lp_mint_pda pool =
      find_program_address (Seeds.pool_lp_mint ∷ key_seed pool ∷ []) pump_swap_program_id

  unfoldable pub calc_user_pool_token_account : ℕ → ℕ → ℕ × ℕ
  calc_user_pool_token_account creator lp_mint =
      find_program_address (key_seed creator ∷ key_seed spl_token_2022_id ∷ key_seed lp_mint ∷ [])
        associated_token_id

  unfoldable pub find_user_vol_accumulator : ℕ → ℕ
  find_user_vol_accumulator user =
      (find_program_address (Seeds.user_volume_accumulator ∷ key_seed user ∷ [])
        pump_swap_program_id).0

  unfoldable pub find_coin_creator_vault_authority : ℕ → ℕ
  find_coin_creator_vault_authority coin_creator =
      (find_program_address (Seeds.creator_vault ∷ key_seed coin_creator ∷ [])
        pump_swap_program_id).0

  unfoldable pub find_coin_creator_vault_ata : ℕ → ℕ → ℕ → ℕ
  find_coin_creator_vault_ata authority quote_token_program quote_mint =
      get_associated_token_address_with_program_id authority quote_mint quote_token_program

  unfoldable pub fee_config_pda : ℕ
  fee_config_pda =
      (find_program_address (Seeds.fee_config ∷ key_seed pump_swap_program_id ∷ []) fee_program).0

  unfoldable pub sharing_config_pda : ℕ → ℕ
  sharing_config_pda mint =
      (find_program_address (Seeds.sharing_config ∷ key_seed mint ∷ []) fee_program).0

  unfoldable pub bonding_curve_pda : ℕ → ℕ
  bonding_curve_pda mint =
      (find_program_address (Seeds.bonding_curve ∷ key_seed mint ∷ []) pumpfun_program).0

  unfoldable pub pump_creator_vault_pda : ℕ → ℕ
  pump_creator_vault_pda creator =
      (find_program_address (Seeds.pump_creator_vault ∷ key_seed creator ∷ []) pumpfun_program).0

  unfoldable pub pump_pool_authority_pda : ℕ → ℕ
  pump_pool_authority_pda mint =
      (find_program_address (Seeds.pool_authority ∷ key_seed mint ∷ []) pumpfun_program).0

  unfoldable pub canonical_pool_pda : ℕ → ℕ → ℕ
  unfolding calc_pool_pda pump_pool_authority_pda
  canonical_pool_pda mint quote_mint =
      (calc_pool_pda (pump_pool_authority_pda mint) mint quote_mint).0

  unfoldable pub token_metadata_pda : ℕ → ℕ
  token_metadata_pda mint =
      (find_program_address (Seeds.metadata ∷ key_seed token_metadata_program ∷ key_seed mint ∷ [])
        token_metadata_program).0

  unfoldable pub pool_v2_pda : ℕ → ℕ
  pool_v2_pda base_mint =
      (find_program_address (Seeds.pool_v2 ∷ key_seed base_mint ∷ []) pump_swap_program_id).0

  unfoldable pub user_volume_accumulator_quote_ata : ℕ → ℕ → ℕ → ℕ
  unfolding find_user_vol_accumulator
  user_volume_accumulator_quote_ata user quote_mint quote_token_program =
      get_associated_token_address_with_program_id (find_user_vol_accumulator user) quote_mint
        quote_token_program

  -- `PoolInfo::fee_sharing_config`
  unfoldable pub fee_sharing_config : PoolInfo → Option ℕ
  unfolding sharing_config_pda
  fee_sharing_config p =
      let derived = sharing_config_pda p.base_mint in
      if p.coin_creator == derived then some derived else none

  unfoldable pub create_ata_token_or_not_with_program :
      ℕ → ℕ → ℕ → ℕ → Bool → ℕ × Option Instruction
  create_ata_token_or_not_with_program payer mint owner token_program create =
      let token_acc = get_associated_token_address_with_program_id owner mint token_program in
      if create
      then (
        token_acc,
        some (create_associated_token_account_idempotent payer owner mint token_program),
      )
      else (token_acc, none)

  unfoldable pub create_ata_token_or_not : ℕ → ℕ → ℕ → Bool → ℕ × Option Instruction
  unfolding create_ata_token_or_not_with_program
  create_ata_token_or_not payer mint owner create =
      create_ata_token_or_not_with_program payer mint owner spl_token_id create

  -- `seed_bytes` is what the random generator wrote.
  unfoldable pub gen_pubkey_with_seed : List ℕ → ℕ → Result (ℕ × List ℕ)
  gen_pubkey_with_seed seed_bytes from_public_key =
      let seed = take 32 (base58 seed_bytes) in
      elim (create_with_seed from_public_key seed spl_token_id) [
        | none ↦ err bad_seed
        | some key ↦ ok (key, seed)
      ]
