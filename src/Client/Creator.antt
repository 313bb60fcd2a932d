-- ===== src/Client/Creator.antt =====
-- The builders of src/client.rs for incentives and creator fees. An answer of the RPC node is a
-- function argument, one for each call.
pub mod Sweeps
pub mod Payout
use pump_swap_sdk.Prelude.{
  ℕ, Bool, true, false, not, ◌||◌, List, [], ◌∷◌, ◌++◌, Option, none, some, ltb, if◌then◌else◌,
  get_elem?,
}
use pump_swap_sdk.Prelude.Outcome.{Result, ok, err, ◌>>=◌, panicked, fees_are_shared}
use pump_swap_sdk.Constants.{global_volume_accumulator, wrapped_sol_mint}
use pump_swap_sdk.State.Pool.{PoolInfo, from_account_data}
use pump_swap_sdk.State.Sharing.{bonding_curve_creator_fee}
use pump_swap_sdk.Solana.{Solana, Instruction}
use pump_swap_sdk.Util.Pda.{
  fee_sharing_config, canonical_pool_pda, bonding_curve_pda, sharing_config_pda,
}
use pump_swap_sdk.Instruction.Volume.{make_claim_token_incentives_instruction}
use pump_swap_sdk.Instruction.Creator.{
  make_collect_coin_creator_fee_instruction, sweep_pool_creator_fee_instruction,
  sweep_bonding_curve_creator_fee_instruction, transfer_creator_fees_to_pump_instruction,
  transfer_creator_fees_to_pump_v2_instruction, distribute_creator_fees_instruction,
  distribute_creator_fees_v2_instruction,
}
use pump_swap_sdk.Client.Chain.{Found, GetAccounts, active_shareholders}

abbrev pub is_some {ℓ} : {A : Type ℓ} → Option A → Bool
is_some none = false
is_some (some a) = true

-- `accounts[index]`, which panics past the end.
abbrev pub indexed : List Found → ℕ → Result Found
indexed accounts index = elim (get_elem? accounts index) [
  | none ↦ err panicked
  | some found ↦ ok found
]

module _ ⦃chain : Solana⦄ where
  open chain use {
    spl_token_id, get_associated_token_address_with_program_id,
    create_associated_token_account_idempotent,
  }

  unfoldable pub build_claim_token_incentives_ixs : ℕ → ℕ → ℕ → ℕ → Bool → Result (List Instruction)
  build_claim_token_incentives_ixs user payer mint token_program create_user_ata = do
    let user_token_account = get_associated_token_address_with_program_id user mint token_program
    let created =
        if create_user_ata
        then create_associated_token_account_idempotent payer user mint token_program ∷ []
        else []
    let global_incentive_token_account =
        get_associated_token_address_with_program_id global_volume_accumulator mint token_program
    claim ←
        make_claim_token_incentives_instruction user payer mint token_program user_token_account
          global_incentive_token_account
    ok (created ++ (claim ∷ []))

  unfoldable pub build_collect_coin_creator_fee_ixs :
      ℕ → ℕ → ℕ → ℕ → Bool → Result (List Instruction)
  build_collect_coin_creator_fee_ixs coin_creator payer quote_mint quote_token_program
        create_coin_creator_ata =
      do
        let coin_creator_token_account =
            get_associated_token_address_with_program_id coin_creator quote_mint quote_token_program
        let created =
            if create_coin_creator_ata
            then create_associated_token_account_idempotent payer coin_creator quote_mint
                quote_token_program
              ∷ []
            else []
        collect ←
            make_collect_coin_creator_fee_instruction coin_creator quote_mint quote_token_program
              coin_creator_token_account
        ok (created ++ (collect ∷ []))

  unfoldable pub build_collect_pool_creator_fee_ixs :
      PoolInfo → ℕ → Bool → Result (List Instruction)
  unfolding build_collect_coin_creator_fee_ixs
  build_collect_pool_creator_fee_ixs pool payer create_coin_creator_ata =
      if is_some (fee_sharing_config pool) then err (fees_are_shared pool.pool) else do
        sweep ← sweep_pool_creator_fee_instruction payer pool
        collect ←
            build_collect_coin_creator_fee_ixs pool.coin_creator payer pool.quote_mint
              pool.quote_token_program create_coin_creator_ata
        ok (sweep ∷ collect)

  -- The account of the graduated pool, which the sweep decodes.
  unfoldable pub sweep_graduated_pool : ℕ → ℕ → ℕ → Found → Result (List Instruction)
  sweep_graduated_pool payer pool quote_token_program none = ok []
  sweep_graduated_pool payer pool quote_token_program (some bytes) = do
    info ← from_account_data pool bytes quote_token_program quote_token_program
    sweep ← sweep_pool_creator_fee_instruction payer info
    ok (sweep ∷ [])

  -- `match &accounts[0]`
  abbrev pub curve_fee_of : Found → Result ℕ
  curve_fee_of none = ok 0
  curve_fee_of (some bytes) = bonding_curve_creator_fee bytes

  unfoldable pub build_creator_fee_sweep_ixs :
      GetAccounts → ℕ → ℕ → ℕ → ℕ → Result (List Instruction)
  unfolding sweep_graduated_pool
  build_creator_fee_sweep_ixs get_multiple_accounts payer token_mint quote_mint
        quote_token_program =
      do
        let pool = canonical_pool_pda token_mint quote_mint
        accounts ← get_multiple_accounts (bonding_curve_pda token_mint ∷ pool ∷ [])
        curve ← indexed accounts 0
        curve_fee ← curve_fee_of curve
        graduated_pool ← indexed accounts 1
        curve_sweep ←
            sweep_bonding_curve_creator_fee_instruction payer token_mint
              (sharing_config_pda token_mint) quote_mint quote_token_program
        pool_sweep ← sweep_graduated_pool payer pool quote_token_program graduated_pool
        ok (
            (if not (is_some graduated_pool) || ltb 0 curve_fee then curve_sweep ∷ [] else [])
            ++ pool_sweep)

  unfoldable pub build_creator_fee_withdraw_ixs :
      (ℕ → Result Found) → GetAccounts → ℕ → ℕ → Result (List Instruction)
  build_creator_fee_withdraw_ixs get_account get_multiple_accounts payer token_mint = do
    shareholders ← active_shareholders get_account token_mint
    sweeps ←
        build_creator_fee_sweep_ixs get_multiple_accounts payer token_mint wrapped_sol_mint
          spl_token_id
    transfer ← transfer_creator_fees_to_pump_instruction (sharing_config_pda token_mint)
    distribute ← distribute_creator_fees_instruction token_mint shareholders
    ok (sweeps ++ (transfer ∷ distribute ∷ []))

  unfoldable pub build_creator_fee_withdraw_ixs_v2 :
      (ℕ → Result Found) → GetAccounts → ℕ → ℕ → ℕ → ℕ → Bool → Result (List Instruction)
  build_creator_fee_withdraw_ixs_v2 get_account get_multiple_accounts payer token_mint quote_mint
        quote_token_program initialize_shareholder_atas =
      do
        shareholders ← active_shareholders get_account token_mint
        sweeps ←
            build_creator_fee_sweep_ixs get_multiple_accounts payer token_mint quote_mint
              quote_token_program
        transfer ←
            transfer_creator_fees_to_pump_v2_instruction payer (sharing_config_pda token_mint)
              quote_mint quote_token_program
        distribute ←
            distribute_creator_fees_v2_instruction payer token_mint quote_mint quote_token_program
              initialize_shareholder_atas shareholders
        ok (sweeps ++ (transfer ∷ distribute ∷ []))
