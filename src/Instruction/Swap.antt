-- ===== src/Instruction/Swap.antt =====
-- The swap instructions of src/instruction.rs and their account lists.
pub mod Metas
use pump_swap_sdk.Prelude.{ℕ, Bool, true, false, List, [], ◌∷◌, ◌++◌, ◌==◌, if◌then◌else◌}
use pump_swap_sdk.Prelude.Outcome.{Result, ok}
use pump_swap_sdk.Constants.{
  pump_swap_program_id, event_authority, global_config, global_volume_accumulator, fee_program,
}
use pump_swap_sdk.State.Pool.{PoolInfo}
use pump_swap_sdk.Solana.{Solana, AccountMeta, Instruction, new, new_readonly}
use pump_swap_sdk.Util.Pda.{
  find_coin_creator_vault_authority, find_coin_creator_vault_ata, fee_config_pda,
  find_user_vol_accumulator, user_volume_accumulator_quote_ata, pool_v2_pda,
}
use pump_swap_sdk.Util.Recipients.{pick_protocol_fee_recipient_for_pool, pick_buyback_fee_recipient}
use pump_swap_sdk.Instruction.Args.{
  new_buy, new_buy_exact_quote_in, new_sell, buy_to_vec, buy_exact_quote_in_to_vec, sell_to_vec,
}

pub data SwapKind : Type 0 where
  buy sell : SwapKind

-- `matches!(kind, SwapKind::Buy)` and `matches!(kind, SwapKind::Sell)`
abbrev pub is_buy : SwapKind → Bool
is_buy buy = true
is_buy sell = false

abbrev pub is_sell : SwapKind → Bool
is_sell buy = false
is_sell sell = true

-- The numbers that the random generator gives in one call: for the protocol's recipient, then for the
-- buyback recipient.
pub record Draws : Type 0 where
  pub protocol : ℕ
  pub buyback : ℕ

module _ ⦃chain : Solana⦄ where
  open chain use {
    system_program_id, associated_token_id, get_associated_token_address_with_program_id,
  }

  unfoldable pub append_swap_remaining_accounts :
      List AccountMeta → PoolInfo → ℕ → Bool → ℕ → List AccountMeta
  append_swap_remaining_accounts accounts pool_info user selling draw =
      let cashback_ata =
        user_volume_accumulator_quote_ata user pool_info.quote_mint pool_info.quote_token_program in
      let cashback =
        if pool_info.is_cashback_coin
        then new cashback_ata false
          ∷ (if selling then new (find_user_vol_accumulator user) false ∷ [] else [])
        else [] in
      let pool_v2 =
        if pool_info.coin_creator == 0
        then []
        else new_readonly (pool_v2_pda pool_info.base_mint) false ∷ [] in
      let buyback_recipient = pick_buyback_fee_recipient draw in
      let buyback_recipient_ta =
        get_associated_token_address_with_program_id buyback_recipient pool_info.quote_mint
          pool_info.quote_token_program in
      accounts
      ++ (cashback
          ++ (pool_v2
              ++ (new_readonly buyback_recipient false ∷ new buyback_recipient_ta false ∷ [])))

  unfoldable pub swap_accounts : PoolInfo → ℕ → ℕ → ℕ → SwapKind → Draws → List AccountMeta
  unfolding append_swap_remaining_accounts
  swap_accounts pool_info user user_base_token_account user_quote_token_account kind draws =
      let protocol_fee_recipient =
        pick_protocol_fee_recipient_for_pool pool_info.is_mayhem_mode draws.protocol in
      let protocol_fee_recipient_ta =
        get_associated_token_address_with_program_id protocol_fee_recipient pool_info.quote_mint
          pool_info.quote_token_program in
      let creator_vault_authority = find_coin_creator_vault_authority pool_info.coin_creator in
      let creator_vault_ata =
        find_coin_creator_vault_ata creator_vault_authority pool_info.quote_token_program
          pool_info.quote_mint in
      let named =
        new pool_info.pool false
        ∷ new user true
        ∷ new_readonly global_config false
        ∷ new_readonly pool_info.base_mint false
        ∷ new_readonly pool_info.quote_mint false
        ∷ new user_base_token_account false
        ∷ new user_quote_token_account false
        ∷ new pool_info.pool_base_token_account false
        ∷ new pool_info.pool_quote_token_account false
        ∷ new_readonly protocol_fee_recipient false
        ∷ new protocol_fee_recipient_ta false
        ∷ new_readonly pool_info.base_token_program false
        ∷ new_readonly pool_info.quote_token_program false
        ∷ new_readonly system_program_id false
        ∷ new_readonly associated_token_id false
        ∷ new_readonly event_authority false
        ∷ new_readonly pump_swap_program_id false
        ∷ new creator_vault_ata false
        ∷ new_readonly creator_vault_authority false
        ∷ [] in
      let volume =
        if is_buy kind
        then new_readonly global_volume_accumulator false
          ∷ new (find_user_vol_accumulator user) false
          ∷ []
        else [] in
      let fee = new_readonly fee_config_pda false ∷ new_readonly fee_program false ∷ [] in
      append_swap_remaining_accounts (named ++ (volume ++ fee)) pool_info user (is_sell kind)
        draws.buyback

  unfoldable pub make_buy_instruction :
      ℕ → ℕ → Bool → PoolInfo → ℕ → ℕ → ℕ → Draws → Result Instruction
  make_buy_instruction base_amount_out max_quote_amount_in track_volume pool_info user
        user_base_token_account user_quote_token_account draws =
      ok (record {
        program_id = pump_swap_program_id;
        accounts =
            swap_accounts pool_info user user_base_token_account user_quote_token_account buy draws;
        payload = buy_to_vec (new_buy base_amount_out max_quote_amount_in track_volume);
      })

  unfoldable pub make_buy_exact_quote_in_instruction :
      ℕ → ℕ → Bool → PoolInfo → ℕ → ℕ → ℕ → Draws → Result Instruction
  make_buy_exact_quote_in_instruction spendable_quote_in min_base_amount_out track_volume pool_info
        user user_base_token_account user_quote_token_account draws =
      ok (record {
        program_id = pump_swap_program_id;
        accounts =
            swap_accounts pool_info user user_base_token_account user_quote_token_account buy draws;
        payload =
            buy_exact_quote_in_to_vec
              (new_buy_exact_quote_in spendable_quote_in min_base_amount_out track_volume);
      })

  unfoldable pub make_sell_instruction : ℕ → ℕ → PoolInfo → ℕ → ℕ → ℕ → Draws → Result Instruction
  make_sell_instruction base_amount_in min_quote_amount_out pool_info user user_base_token_account
        user_quote_token_account draws =
      ok (record {
        program_id = pump_swap_program_id;
        accounts =
            swap_accounts pool_info user user_base_token_account user_quote_token_account sell
              draws;
        payload = sell_to_vec (new_sell base_amount_in min_quote_amount_out);
      })
