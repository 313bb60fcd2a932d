-- ===== src/Instruction/Creator.antt =====
-- The builders that collect, sweep, transfer and distribute creator fees. (src/instruction.rs)
use pump_swap_sdk.Prelude.{ℕ, Bool, true, false, List, [], ◌∷◌, map}
use pump_swap_sdk.Prelude.Outcome.{Result, ok}
use pump_swap_sdk.Constants.{
  pump_swap_program_id, pumpfun_program, pumpfun_global, pumpfun_event_authority, event_authority,
  global_config, wrapped_sol_mint,
}
use pump_swap_sdk.State.Pool.{PoolInfo}
use pump_swap_sdk.Solana.{Solana, Instruction, new, new_readonly}
use pump_swap_sdk.Util.Pda.{
  find_coin_creator_vault_authority, find_coin_creator_vault_ata, sharing_config_pda,
  bonding_curve_pda, pump_creator_vault_pda, token_metadata_pda,
}
use pump_swap_sdk.Instruction.Args.{flag}

module _ ⦃chain : Solana⦄ where
  open chain use {system_program_id, spl_token_id, associated_token_id}

  unfoldable pub make_collect_coin_creator_fee_instruction : ℕ → ℕ → ℕ → ℕ → Result Instruction
  make_collect_coin_creator_fee_instruction coin_creator quote_mint quote_token_program
        coin_creator_token_account =
      let coin_creator_vault_authority = find_coin_creator_vault_authority coin_creator in
      let coin_creator_vault_ata =
        find_coin_creator_vault_ata coin_creator_vault_authority quote_token_program quote_mint in
      let accounts =
        (new_readonly quote_mint false
          ∷ new_readonly quote_token_program false
          ∷ new_readonly coin_creator false
          ∷ new_readonly coin_creator_vault_authority false
          ∷ new coin_creator_vault_ata false
          ∷ new coin_creator_token_account false
          ∷ new_readonly event_authority false
          ∷ new_readonly pump_swap_program_id false
          ∷ []) in
      ok (record {
        program_id = pump_swap_program_id;
        accounts = accounts;
        payload = (160 ∷ 57 ∷ 89 ∷ 42 ∷ 181 ∷ 139 ∷ 43 ∷ 66 ∷ []);
      })

  unfoldable pub migrate_pool_coin_creator_instruction : ℕ → ℕ → Result Instruction
  migrate_pool_coin_creator_instruction pool base_mint =
      let accounts =
        (new pool false
          ∷ new_readonly (sharing_config_pda base_mint) false
          ∷ new_readonly event_authority false
          ∷ new_readonly pump_swap_program_id false
          ∷ []) in
      ok (record {
        program_id = pump_swap_program_id;
        accounts = accounts;
        payload = (208 ∷ 8 ∷ 159 ∷ 4 ∷ 74 ∷ 175 ∷ 16 ∷ 58 ∷ []);
      })

  unfoldable pub set_coin_creator_instruction : ℕ → ℕ → Result Instruction
  set_coin_creator_instruction pool base_mint =
      let accounts =
        (new pool false
          ∷ new_readonly (token_metadata_pda base_mint) false
          ∷ new_readonly (bonding_curve_pda base_mint) false
          ∷ new_readonly event_authority false
          ∷ new_readonly pump_swap_program_id false
          ∷ []) in
      ok (record {
        program_id = pump_swap_program_id;
        accounts = accounts;
        payload = (210 ∷ 149 ∷ 128 ∷ 45 ∷ 188 ∷ 58 ∷ 78 ∷ 175 ∷ []);
      })

  unfoldable pub transfer_creator_fees_to_pump_instruction : ℕ → Result Instruction
  transfer_creator_fees_to_pump_instruction coin_creator =
      let coin_creator_vault_authority = find_coin_creator_vault_authority coin_creator in
      let coin_creator_vault_ata =
        find_coin_creator_vault_ata coin_creator_vault_authority spl_token_id wrapped_sol_mint in
      let accounts =
        (new_readonly wrapped_sol_mint false
          ∷ new_readonly spl_token_id false
          ∷ new_readonly system_program_id false
          ∷ new_readonly associated_token_id false
          ∷ new_readonly coin_creator false
          ∷ new coin_creator_vault_authority false
          ∷ new coin_creator_vault_ata false
          ∷ new (pump_creator_vault_pda coin_creator) false
          ∷ new_readonly event_authority false
          ∷ new_readonly pump_swap_program_id false
          ∷ []) in
      ok (record {
        program_id = pump_swap_program_id;
        accounts = accounts;
        payload = (139 ∷ 52 ∷ 134 ∷ 85 ∷ 228 ∷ 229 ∷ 108 ∷ 241 ∷ []);
      })

  unfoldable pub transfer_creator_fees_to_pump_v2_instruction : ℕ → ℕ → ℕ → ℕ → Result Instruction
  transfer_creator_fees_to_pump_v2_instruction payer coin_creator quote_mint quote_token_program =
      let coin_creator_vault_authority = find_coin_creator_vault_authority coin_creator in
      let coin_creator_vault_ata =
        find_coin_creator_vault_ata coin_creator_vault_authority quote_token_program quote_mint in
      let pump_creator_vault = pump_creator_vault_pda coin_creator in
      let pump_creator_vault_ata =
        find_coin_creator_vault_ata pump_creator_vault quote_token_program quote_mint in
      let accounts =
        (new payer true
          ∷ new_readonly quote_mint false
          ∷ new_readonly quote_token_program false
          ∷ new_readonly system_program_id false
          ∷ new_readonly associated_token_id false
          ∷ new_readonly coin_creator false
          ∷ new coin_creator_vault_authority false
          ∷ new coin_creator_vault_ata false
          ∷ new pump_creator_vault false
          ∷ new pump_creator_vault_ata false
          ∷ new_readonly event_authority false
          ∷ new_readonly pump_swap_program_id false
          ∷ []) in
      ok (record {
        program_id = pump_swap_program_id;
        accounts = accounts;
        payload = (1 ∷ 33 ∷ 78 ∷ 185 ∷ 33 ∷ 67 ∷ 44 ∷ 92 ∷ []);
      })

  unfoldable pub sweep_pool_creator_fee_instruction : ℕ → PoolInfo → Result Instruction
  sweep_pool_creator_fee_instruction payer pool =
      let recipient = find_coin_creator_vault_authority pool.coin_creator in
      let accounts =
        (new payer true
          ∷ new_readonly global_config false
          ∷ new pool.pool false
          ∷ new_readonly pool.quote_mint false
          ∷ new_readonly pool.quote_token_program false
          ∷ new pool.pool_quote_token_account false
          ∷ new_readonly recipient false
          ∷ new (find_coin_creator_vault_ata recipient pool.quote_token_program pool.quote_mint)
              false
          ∷ new_readonly system_program_id false
          ∷ new_readonly associated_token_id false
          ∷ new_readonly event_authority false
          ∷ new_readonly pump_swap_program_id false
          ∷ []) in
      ok (record {
        program_id = pump_swap_program_id;
        accounts = accounts;
        payload = (32 ∷ 246 ∷ 191 ∷ 52 ∷ 8 ∷ 201 ∷ 73 ∷ 186 ∷ []);
      })

  unfoldable pub sweep_bonding_curve_creator_fee_instruction :
      ℕ → ℕ → ℕ → ℕ → ℕ → Result Instruction
  sweep_bonding_curve_creator_fee_instruction payer mint creator quote_mint quote_token_program =
      let bonding_curve = bonding_curve_pda mint in
      let recipient = pump_creator_vault_pda creator in
      let accounts =
        (new payer true
          ∷ new_readonly pumpfun_global false
          ∷ new_readonly mint false
          ∷ new_readonly quote_mint false
          ∷ new_readonly quote_token_program false
          ∷ new_readonly associated_token_id false
          ∷ new_readonly system_program_id false
          ∷ new bonding_curve false
          ∷ new (find_coin_creator_vault_ata bonding_curve quote_token_program quote_mint) false
          ∷ new recipient false
          ∷ new (find_coin_creator_vault_ata recipient quote_token_program quote_mint) false
          ∷ new_readonly pumpfun_event_authority false
          ∷ new_readonly pumpfun_program false
          ∷ []) in
      ok (record {
        program_id = pumpfun_program;
        accounts = accounts;
        payload = (32 ∷ 246 ∷ 191 ∷ 52 ∷ 8 ∷ 201 ∷ 73 ∷ 186 ∷ []);
      })

  unfoldable pub distribute_creator_fees_instruction : ℕ → List ℕ → Result Instruction
  distribute_creator_fees_instruction mint shareholders =
      let sharing_config = sharing_config_pda mint in
      let accounts =
        (new_readonly mint false
          ∷ new_readonly (bonding_curve_pda mint) false
          ∷ new_readonly sharing_config false
          ∷ new (pump_creator_vault_pda sharing_config) false
          ∷ new_readonly system_program_id false
          ∷ new_readonly pumpfun_event_authority false
          ∷ new_readonly pumpfun_program false
          ∷ map (λ holder. new holder false) shareholders) in
      ok (record {
        program_id = pumpfun_program;
        accounts = accounts;
        payload = (165 ∷ 114 ∷ 103 ∷ 0 ∷ 121 ∷ 206 ∷ 247 ∷ 81 ∷ []);
      })

  unfoldable pub distribute_creator_fees_v2_instruction :
      ℕ → ℕ → ℕ → ℕ → Bool → List ℕ → Result Instruction
  distribute_creator_fees_v2_instruction payer mint quote_mint quote_token_program initialize_ata
        shareholders =
      let sharing_config = sharing_config_pda mint in
      let creator_vault = pump_creator_vault_pda sharing_config in
      let accounts =
        (new payer true
          ∷ new_readonly mint false
          ∷ new_readonly (bonding_curve_pda mint) false
          ∷ new_readonly sharing_config false
          ∷ new creator_vault false
          ∷ new_readonly system_program_id false
          ∷ new_readonly pumpfun_event_authority false
          ∷ new_readonly pumpfun_program false
          ∷ new (find_coin_creator_vault_ata creator_vault quote_token_program quote_mint) false
          ∷ new_readonly quote_mint false
          ∷ new_readonly quote_token_program false
          ∷ new_readonly associated_token_id false
          ∷ map (λ holder. new holder false) shareholders) in
      ok (record {
        program_id = pumpfun_program;
        accounts = accounts;
        payload = (255 ∷ 203 ∷ 19 ∷ 79 ∷ 244 ∷ 68 ∷ 8 ∷ 159 ∷ flag initialize_ata ∷ []);
      })
