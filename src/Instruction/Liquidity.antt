-- ===== src/Instruction/Liquidity.antt =====
-- The builders for deposits, withdrawals and pool creation. (src/instruction.rs)
use pump_swap_sdk.Prelude.{ℕ, Bool, true, false, [], ◌∷◌}
use pump_swap_sdk.Prelude.Outcome.{Result, ok}
use pump_swap_sdk.Constants.{pump_swap_program_id, event_authority, global_config, wrapped_sol_mint}
use pump_swap_sdk.State.Pool.{PoolInfo}
use pump_swap_sdk.Solana.{Solana, Instruction, new, new_readonly}
use pump_swap_sdk.Util.Pda.{calc_lp_mint_pda, calc_user_pool_token_account}
use pump_swap_sdk.Instruction.Args.{
  new_deposit, new_withdraw, new_create_pool, deposit_to_vec, withdraw_to_vec, create_pool_to_vec,
}

module _ ⦃chain : Solana⦄ where
  open chain use {
    system_program_id, spl_token_id, spl_token_2022_id, associated_token_id,
    get_associated_token_address,
  }

  unfoldable pub make_deposit_instruction :
      ℕ → ℕ → ℕ → PoolInfo → ℕ → ℕ → ℕ → ℕ → Result Instruction
  unfolding deposit_to_vec new_deposit
  make_deposit_instruction lp_token_amount_out max_base_amount_in max_quote_amount_in pool_info user
        user_base_token_account user_quote_token_account user_pool_token_account =
      let payload =
        deposit_to_vec (new_deposit lp_token_amount_out max_base_amount_in max_quote_amount_in) in
      let accounts =
        (new pool_info.pool false
          ∷ new_readonly global_config false
          ∷ new_readonly user true
          ∷ new_readonly pool_info.base_mint false
          ∷ new_readonly pool_info.quote_mint false
          ∷ new pool_info.lp_mint false
          ∷ new user_base_token_account false
          ∷ new user_quote_token_account false
          ∷ new user_pool_token_account false
          ∷ new pool_info.pool_base_token_account false
          ∷ new pool_info.pool_quote_token_account false
          ∷ new_readonly spl_token_id false
          ∷ new_readonly spl_token_2022_id false
          ∷ new_readonly event_authority false
          ∷ new_readonly pump_swap_program_id false
          ∷ []) in
      ok (record { program_id = pump_swap_program_id; accounts = accounts; payload = payload })

  unfoldable pub create_pool_instruction_with_options :
      ℕ → ℕ → ℕ → Bool → Bool → ℕ → ℕ → ℕ → ℕ → ℕ → ℕ → ℕ → ℕ → ℕ → ℕ → ℕ → Result Instruction
  unfolding create_pool_to_vec new_create_pool
  create_pool_instruction_with_options index base_amount_in quote_amount_in is_mayhem_mode
        is_cashback_coin pool creator coin_creator base_mint quote_mint user_base_token_account
        user_quote_token_account pool_base_token_account pool_quote_token_account base_token_program
        quote_token_program =
      let payload = create_pool_to_vec (
        new_create_pool index base_amount_in quote_amount_in coin_creator is_mayhem_mode
          is_cashback_coin) in
      let lp_mint = (calc_lp_mint_pda pool).0 in
      let accounts =
        (new pool false
          ∷ new_readonly global_config false
          ∷ new creator true
          ∷ new_readonly base_mint false
          ∷ new_readonly quote_mint false
          ∷ new lp_mint false
          ∷ new user_base_token_account false
          ∷ new user_quote_token_account false
          ∷ new (calc_user_pool_token_account creator lp_mint).0 false
          ∷ new pool_base_token_account false
          ∷ new pool_quote_token_account false
          ∷ new_readonly system_program_id false
          ∷ new_readonly spl_token_2022_id false
          ∷ new_readonly base_token_program false
          ∷ new_readonly quote_token_program false
          ∷ new_readonly associated_token_id false
          ∷ new_readonly event_authority false
          ∷ new_readonly pump_swap_program_id false
          ∷ []) in
      ok (record { program_id = pump_swap_program_id; accounts = accounts; payload = payload })

  unfoldable pub withdraw_instruction : ℕ → ℕ → ℕ → ℕ → ℕ → ℕ → ℕ → ℕ → Result Instruction
  unfolding withdraw_to_vec new_withdraw
  withdraw_instruction pool user base_mint base_ata quote_ata lp_token_amount_in min_base_amount_out
        min_quote_amount_out =
      let payload =
        withdraw_to_vec
          (new_withdraw lp_token_amount_in min_base_amount_out min_quote_amount_out) in
      let lp_mint = (calc_lp_mint_pda pool).0 in
      let user_pool_token_account = (calc_user_pool_token_account user lp_mint).0 in
      let pool_base_ata = get_associated_token_address pool base_mint in
      let pool_quote_ata = get_associated_token_address pool wrapped_sol_mint in
      let accounts =
        (new pool false
          ∷ new_readonly global_config false
          ∷ new_readonly user true
          ∷ new_readonly base_mint false
          ∷ new_readonly wrapped_sol_mint false
          ∷ new lp_mint false
          ∷ new base_ata false
          ∷ new quote_ata false
          ∷ new user_pool_token_account false
          ∷ new pool_base_ata false
          ∷ new pool_quote_ata false
          ∷ new_readonly spl_token_id false
          ∷ new_readonly spl_token_2022_id false
          ∷ new_readonly event_authority false
          ∷ new_readonly pump_swap_program_id false
          ∷ []) in
      ok (record { program_id = pump_swap_program_id; accounts = accounts; payload = payload })

  unfoldable pub create_pool_instruction :
      ℕ → ℕ → ℕ → ℕ → ℕ → ℕ → ℕ → ℕ → ℕ → ℕ → ℕ → Result Instruction
  unfolding create_pool_instruction_with_options
  create_pool_instruction base_amount_in quote_amount_in pool creator coin_creator base_mint
        quote_mint user_base_token_account user_quote_token_account pool_base_token_account
        pool_quote_token_account =
      create_pool_instruction_with_options 0 base_amount_in quote_amount_in false false pool creator
        coin_creator base_mint quote_mint user_base_token_account user_quote_token_account
        pool_base_token_account pool_quote_token_account spl_token_id spl_token_id
