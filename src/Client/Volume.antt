-- ===== src/Client/Volume.antt =====
-- The single-instruction builders of src/client.rs, which pass their arguments on.
use pump_swap_sdk.Prelude.{ℕ}
use pump_swap_sdk.Prelude.Outcome.{Result}
use pump_swap_sdk.Solana.{Solana, Instruction}
use pump_swap_sdk.Instruction.Volume.{
  make_extend_account_instruction, make_init_user_volume_accumulator_instruction,
  make_sync_user_volume_accumulator_instruction, make_close_user_volume_accumulator_instruction,
}

module _ ⦃chain : Solana⦄ where
  unfoldable pub build_extend_account_ix : ℕ → ℕ → Result Instruction
  build_extend_account_ix account user = make_extend_account_instruction account user

  unfoldable pub build_init_user_volume_accumulator_ix : ℕ → ℕ → Result Instruction
  build_init_user_volume_accumulator_ix payer user =
      make_init_user_volume_accumulator_instruction payer user

  unfoldable pub build_sync_user_volume_accumulator_ix : ℕ → Result Instruction
  build_sync_user_volume_accumulator_ix user = make_sync_user_volume_accumulator_instruction user

  unfoldable pub build_close_user_volume_accumulator_ix : ℕ → Result Instruction
  build_close_user_volume_accumulator_ix user = make_close_user_volume_accumulator_instruction user
