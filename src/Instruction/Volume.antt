-- ===== src/Instruction/Volume.antt =====
-- The builders on the volume accumulators, and `extend_account`. (src/instruction.rs)
use pump_swap_sdk.Prelude.{ℕ, true, false, [], ◌∷◌}
use pump_swap_sdk.Prelude.Outcome.{Result, ok}
use pump_swap_sdk.Constants.{pump_swap_program_id, event_authority, global_volume_accumulator}
use pump_swap_sdk.Solana.{Solana, Instruction, new, new_readonly}
use pump_swap_sdk.Util.Pda.{find_user_vol_accumulator}
use pump_swap_sdk.Instruction.Args.{claim_cashback_to_vec}

module _ ⦃chain : Solana⦄ where
  open chain use {
    system_program_id, associated_token_id, get_associated_token_address_with_program_id,
  }

  unfoldable pub make_claim_cashback_instruction : ℕ → ℕ → ℕ → Result Instruction
  make_claim_cashback_instruction user quote_mint quote_token_program =
      let user_volume_accumulator = find_user_vol_accumulator user in
      let user_volume_accumulator_quote_ta =
        get_associated_token_address_with_program_id user_volume_accumulator quote_mint
          quote_token_program in
      let user_quote_ta =
        get_associated_token_address_with_program_id user quote_mint quote_token_program in
      let accounts =
        (new user false
          ∷ new user_volume_accumulator false
          ∷ new_readonly quote_mint false
          ∷ new_readonly quote_token_program false
          ∷ new user_volume_accumulator_quote_ta false
          ∷ new user_quote_ta false
          ∷ new_readonly system_program_id false
          ∷ new_readonly event_authority false
          ∷ new_readonly pump_swap_program_id false
          ∷ []) in
      ok (record {
        program_id = pump_swap_program_id;
        accounts = accounts;
        payload = claim_cashback_to_vec;
      })

  unfoldable pub make_extend_account_instruction : ℕ → ℕ → Result Instruction
  make_extend_account_instruction account user =
      let accounts =
        (new account false
          ∷ new_readonly user true
          ∷ new_readonly system_program_id false
          ∷ new_readonly event_authority false
          ∷ new_readonly pump_swap_program_id false
          ∷ []) in
      ok (record {
        program_id = pump_swap_program_id;
        accounts = accounts;
        payload = (234 ∷ 102 ∷ 194 ∷ 203 ∷ 150 ∷ 72 ∷ 62 ∷ 229 ∷ []);
      })

  unfoldable pub make_init_user_volume_accumulator_instruction : ℕ → ℕ → Result Instruction
  make_init_user_volume_accumulator_instruction payer user =
      let accounts =
        (new payer true
          ∷ new_readonly user false
          ∷ new (find_user_vol_accumulator user) false
          ∷ new_readonly system_program_id false
          ∷ new_readonly event_authority false
          ∷ new_readonly pump_swap_program_id false
          ∷ []) in
      ok (record {
        program_id = pump_swap_program_id;
        accounts = accounts;
        payload = (94 ∷ 6 ∷ 202 ∷ 115 ∷ 255 ∷ 96 ∷ 232 ∷ 183 ∷ []);
      })

  unfoldable pub make_sync_user_volume_accumulator_instruction : ℕ → Result Instruction
  make_sync_user_volume_accumulator_instruction user =
      let accounts =
        (new_readonly user false
          ∷ new_readonly global_volume_accumulator false
          ∷ new (find_user_vol_accumulator user) false
          ∷ new_readonly event_authority false
          ∷ new_readonly pump_swap_program_id false
          ∷ []) in
      ok (record {
        program_id = pump_swap_program_id;
        accounts = accounts;
        payload = (86 ∷ 31 ∷ 192 ∷ 87 ∷ 163 ∷ 87 ∷ 79 ∷ 238 ∷ []);
      })

  unfoldable pub make_close_user_volume_accumulator_instruction : ℕ → Result Instruction
  make_close_user_volume_accumulator_instruction user =
      let accounts =
        (new user true
          ∷ new (find_user_vol_accumulator user) false
          ∷ new_readonly event_authority false
          ∷ new_readonly pump_swap_program_id false
          ∷ []) in
      ok (record {
        program_id = pump_swap_program_id;
        accounts = accounts;
        payload = (249 ∷ 69 ∷ 164 ∷ 218 ∷ 150 ∷ 103 ∷ 84 ∷ 138 ∷ []);
      })

  unfoldable pub make_claim_token_incentives_instruction :
      ℕ → ℕ → ℕ → ℕ → ℕ → ℕ → Result Instruction
  make_claim_token_incentives_instruction user payer mint token_program user_token_account
        global_incentive_token_account =
      let accounts =
        (new_readonly user false
          ∷ new user_token_account false
          ∷ new_readonly global_volume_accumulator false
          ∷ new global_incentive_token_account false
          ∷ new (find_user_vol_accumulator user) false
          ∷ new_readonly mint false
          ∷ new_readonly token_program false
          ∷ new_readonly system_program_id false
          ∷ new_readonly associated_token_id false
          ∷ new_readonly event_authority false
          ∷ new_readonly pump_swap_program_id false
          ∷ new payer true
          ∷ []) in
      ok (record {
        program_id = pump_swap_program_id;
        accounts = accounts;
        payload = (16 ∷ 4 ∷ 71 ∷ 28 ∷ 204 ∷ 1 ∷ 40 ∷ 27 ∷ []);
      })
