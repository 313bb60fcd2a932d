-- ===== src/Client/Send/Liquidity.antt =====
-- The methods of src/client.rs that create a pool, add liquidity and take it out.
use pump_swap_sdk.Prelude.{ℕ, Bool, false, List, [], ◌∷◌, ◌++◌, ◌==◌, if◌then◌else◌}
use pump_swap_sdk.Prelude.Outcome.{Result, ok, err, ◌>>=◌, ok_or, program_error, zero_lp_balance}
use pump_swap_sdk.Constants.{wrapped_sol_mint}
use pump_swap_sdk.State.Pool.{PoolInfo}
use pump_swap_sdk.Math.Float.{Float}
use pump_swap_sdk.Solana.{Solana, Instruction}
use pump_swap_sdk.Util.Pda.{
  calc_pool_pda_with_index, calc_lp_mint_pda, calc_user_pool_token_account,
}
use pump_swap_sdk.Instruction.Liquidity.{
  make_deposit_instruction, create_pool_instruction_with_options, withdraw_instruction,
}
use pump_swap_sdk.Client.Balance.{BalanceAnswer, answered, parse_u64}
use pump_swap_sdk.Client.Trade.{optional, maybe_extend_pool_ix}
use pump_swap_sdk.Client.Send.{Node, Sent, send, submit}

module _ ⦃chain : Solana⦄ where
  open chain use {
    spl_token_id, spl_token_2022_id, get_associated_token_address,
    get_associated_token_address_with_program_id, create_associated_token_account_idempotent,
    transfer, sync_native, close_account,
  }

  -- The close of the wallet's WSOL account.
  abbrev pub close_wsol_ata : ℕ → Result Instruction
  close_wsol_ata wallet = ok_or program_error (
      close_account spl_token_id (get_associated_token_address wallet wrapped_sol_mint) wallet
        wallet)

  abbrev pub sync_wsol_ata : ℕ → Result Instruction
  sync_wsol_ata wallet =
      ok_or program_error
        (sync_native spl_token_id (get_associated_token_address wallet wrapped_sol_mint))

  unfoldable pub create_wsol_pool_ixs :
      ℕ → ℕ → ℕ → ℕ → ℕ → ℕ → Bool → Bool → ℕ → Result (List Instruction)
  create_wsol_pool_ixs index base_amount_in quote_amount_in coin_creator base_mint
        base_token_program is_mayhem_mode is_cashback_coin wallet =
      do
        let pool = (calc_pool_pda_with_index index wallet base_mint wrapped_sol_mint).0
        let wsol_ata = get_associated_token_address wallet wrapped_sol_mint
        create_ix ←
            create_pool_instruction_with_options index base_amount_in quote_amount_in is_mayhem_mode
              is_cashback_coin pool wallet coin_creator base_mint wrapped_sol_mint
              (get_associated_token_address_with_program_id wallet base_mint base_token_program)
              wsol_ata
              (get_associated_token_address_with_program_id pool base_mint base_token_program)
              (get_associated_token_address pool wrapped_sol_mint) base_token_program spl_token_id
        sync ← sync_wsol_ata wallet
        close ← close_wsol_ata wallet
        ok (
            create_associated_token_account_idempotent wallet wallet wrapped_sol_mint spl_token_id
            ∷ transfer wallet wsol_ata quote_amount_in
            ∷ sync
            ∷ create_associated_token_account_idempotent wallet pool base_mint base_token_program
            ∷ create_associated_token_account_idempotent wallet pool wrapped_sol_mint spl_token_id
            ∷ create_ix
            ∷ close
            ∷ [])

  unfoldable pub create_wsol_pool_with_options :
      Node → ℕ → ℕ → ℕ → ℕ → ℕ → ℕ → Bool → Bool → ℕ → Sent
  create_wsol_pool_with_options node index base_amount_in quote_amount_in coin_creator base_mint
        base_token_program is_mayhem_mode is_cashback_coin payer =
      submit node send payer (
        create_wsol_pool_ixs index base_amount_in quote_amount_in coin_creator base_mint
          base_token_program is_mayhem_mode is_cashback_coin payer)

  unfoldable pub create_wsol_pool : Node → ℕ → ℕ → ℕ → ℕ → ℕ → Sent
  create_wsol_pool node base_amount_in quote_amount_in coin_creator base_mint payer =
      create_wsol_pool_with_options node 0 base_amount_in quote_amount_in coin_creator base_mint
        spl_token_id false false payer

  unfoldable pub deposit_ixs : PoolInfo → ℕ → ℕ → ℕ → ℕ → Result (List Instruction)
  deposit_ixs pool_info wallet lp_token_amount_out max_base_amount_in max_quote_amount_in = do
    let wsol_ata = get_associated_token_address wallet wrapped_sol_mint
    deposit_ix ←
        make_deposit_instruction lp_token_amount_out max_base_amount_in max_quote_amount_in
          pool_info wallet
          (get_associated_token_address_with_program_id wallet pool_info.base_mint
            pool_info.base_token_program)
          wsol_ata (calc_user_pool_token_account wallet pool_info.lp_mint).0
    extend ← maybe_extend_pool_ix pool_info wallet
    sync ← sync_wsol_ata wallet
    close ← close_wsol_ata wallet
    ok (
        optional extend
        ++ (create_associated_token_account_idempotent wallet wallet pool_info.base_mint
              pool_info.base_token_program
            ∷ create_associated_token_account_idempotent wallet wallet wrapped_sol_mint spl_token_id
            ∷ transfer wallet wsol_ata max_quote_amount_in
            ∷ sync
            ∷ create_associated_token_account_idempotent wallet wallet pool_info.lp_mint
                spl_token_2022_id
            ∷ deposit_ix
            ∷ close
            ∷ []))

  unfoldable pub deposit_into_wsol_pool : Node → PoolInfo → ℕ → ℕ → ℕ → ℕ → Sent
  deposit_into_wsol_pool node pool_info payer lp_token_amount_out max_base_amount_in
        max_quote_amount_in =
      submit node send payer
        (deposit_ixs pool_info payer lp_token_amount_out max_base_amount_in max_quote_amount_in)

module _ {F : Type 0} ⦃d : Float F⦄ where
  -- `(lp_token_percent * balance as f64) as u64`
  unfoldable pub share_of : F → ℕ → ℕ
  share_of percent balance = d.to_u64 (d.mul percent (d.of_u64 balance))

module _ ⦃chain : Solana⦄ {F : Type 0} ⦃d : Float F⦄ where
  open chain use {
    spl_token_id, get_associated_token_address, create_associated_token_account_idempotent,
  }

  unfoldable pub withdraw_ixs :
      (ℕ → BalanceAnswer F) → ℕ → ℕ → ℕ → F → ℕ → ℕ → Result (List Instruction)
  withdraw_ixs get_balance pool base_mint wallet lp_token_percent min_base_amount_out
        min_quote_amount_out =
      do
        let base_ata = get_associated_token_address wallet base_mint
        let wsol_ata = get_associated_token_address wallet wrapped_sol_mint
        let lp_mint = (calc_lp_mint_pda pool).0
        lp_balance ← answered (get_balance (calc_user_pool_token_account wallet lp_mint).0)
        balance ← parse_u64 lp_balance.amount
        (if balance == 0 then err zero_lp_balance else do
          withdraw_ix ←
              withdraw_instruction pool wallet base_mint base_ata wsol_ata
                (share_of lp_token_percent balance) min_base_amount_out min_quote_amount_out
          close ← close_wsol_ata wallet
          ok (
              create_associated_token_account_idempotent wallet wallet base_mint spl_token_id
              ∷ create_associated_token_account_idempotent wallet wallet wrapped_sol_mint
                  spl_token_id
              ∷ withdraw_ix
              ∷ close
              ∷ []))

  unfoldable pub withdraw_from_wsol_pool :
      Node → (ℕ → BalanceAnswer F) → ℕ → ℕ → ℕ → F → ℕ → ℕ → Sent
  withdraw_from_wsol_pool node get_balance pool base_mint payer lp_token_percent min_base_amount_out
        min_quote_amount_out =
      submit node send payer (
        withdraw_ixs get_balance pool base_mint payer lp_token_percent min_base_amount_out
          min_quote_amount_out)
