-- ===== src/Client/Trade.antt =====
-- The swap builders of src/client.rs. What the random generator gives in a call is an argument.
pub mod Same
pub mod Sides
pub mod Lists
pub mod Fails
use pump_swap_sdk.Prelude.{
  ℕ, ◌+◌, ◌%◌, ◌^◌, Bool, true, false, List, [], ◌∷◌, ◌++◌, Option, none, some, ltb, if◌then◌else◌,
}
use pump_swap_sdk.Prelude.Outcome.{Result, ok, err, ◌>>=◌, ok_or, program_error}
use pump_swap_sdk.Constants.{pool_account_new_size, wrapped_sol_mint}
use pump_swap_sdk.State.Pool.{PoolInfo, sol_is_base, token_mint, token_program}
use pump_swap_sdk.Solana.{Solana, Instruction}
use pump_swap_sdk.Util.Pda.{gen_pubkey_with_seed, create_ata_token_or_not_with_program}
use pump_swap_sdk.Instruction.Swap.{
  Draws, make_buy_instruction, make_buy_exact_quote_in_instruction, make_sell_instruction,
}
use pump_swap_sdk.Instruction.Volume.{make_extend_account_instruction}

pub record Randomness : Type 0 where
  pub seed_bytes : List ℕ
  pub draws : Draws

-- `if let Some(ix) = … { instructions.push(ix) }`
abbrev pub optional {ℓ} : {A : Type ℓ} → Option A → List A
optional none = []
optional (some a) = a ∷ []

-- The sum of lamports, which wraps in a release build.
abbrev pub add_u64 : ℕ → ℕ → ℕ
add_u64 x y = (x + y) % 2 ^ 64

-- The user's accounts as (base, quote).
abbrev pub by_position : PoolInfo → ℕ → ℕ → ℕ × ℕ
by_position pool_info wsol_acc ata_acc =
    if sol_is_base pool_info then (wsol_acc, ata_acc) else (ata_acc, wsol_acc)

module _ ⦃chain : Solana⦄ where
  open chain use {
    spl_token_id, minimum_balance, token_account_len, create_account_with_seed, initialize_account,
    close_account, get_associated_token_address_with_program_id,
  }

  unfoldable pub maybe_extend_pool_ix : PoolInfo → ℕ → Result (Option Instruction)
  maybe_extend_pool_ix pool_info payer =
      if ltb pool_info.pool_account_data_len pool_account_new_size
      then (make_extend_account_instruction pool_info.pool payer >>= λ ix. ok (some ix))
      else ok none

  -- `Rent::default().minimum_balance(span)`
  abbrev pub min_rent_exempt : ℕ
  min_rent_exempt = minimum_balance token_account_len

  -- The two instructions that open a fresh WSOL account, which every builder below repeats.
  unfoldable pub open_wsol_account : ℕ → ℕ → List ℕ → ℕ → Result (List Instruction)
  open_wsol_account payer wsol_acc seed lamports = do
    init ← ok_or program_error (initialize_account spl_token_id wsol_acc wrapped_sol_mint payer)
    ok (
        create_account_with_seed payer wsol_acc payer seed lamports token_account_len spl_token_id
        ∷ init
        ∷ [])

  unfoldable pub close_wsol_account : ℕ → ℕ → Result Instruction
  close_wsol_account wsol_acc payer =
      ok_or program_error (close_account spl_token_id wsol_acc payer payer)

  unfoldable pub build_buy_ixs :
      ℕ → ℕ → Bool → PoolInfo → ℕ → Bool → Randomness → Result (List Instruction)
  unfolding maybe_extend_pool_ix open_wsol_account close_wsol_account
  build_buy_ixs base_amount_out max_quote_amount_in track_volume pool_info payer create_ata random =
      do
        extend ← maybe_extend_pool_ix pool_info payer
        (wsol_acc, seed) ← gen_pubkey_with_seed random.seed_bytes payer
        let wsol_lamports =
            if sol_is_base pool_info
            then min_rent_exempt
            else add_u64 min_rent_exempt max_quote_amount_in
        opening ← open_wsol_account payer wsol_acc seed wsol_lamports
        let ata =
            create_ata_token_or_not_with_program payer (token_mint pool_info) payer
              (token_program pool_info) create_ata
        let user = by_position pool_info wsol_acc ata.0
        swap ←
            make_buy_instruction base_amount_out max_quote_amount_in track_volume pool_info payer
              user.0 user.1 random.draws
        close ← close_wsol_account wsol_acc payer
        ok (optional extend ++ (opening ++ (optional ata.1 ++ (swap ∷ close ∷ []))))

  unfoldable pub build_buy_exact_quote_in_ixs :
      ℕ → ℕ → Bool → PoolInfo → ℕ → Bool → Randomness → Result (List Instruction)
  unfolding maybe_extend_pool_ix open_wsol_account close_wsol_account
  build_buy_exact_quote_in_ixs spendable_quote_in min_base_amount_out track_volume pool_info payer
        create_ata random =
      do
        extend ← maybe_extend_pool_ix pool_info payer
        (wsol_acc, seed) ← gen_pubkey_with_seed random.seed_bytes payer
        let wsol_lamports =
            if sol_is_base pool_info
            then min_rent_exempt
            else add_u64 min_rent_exempt spendable_quote_in
        opening ← open_wsol_account payer wsol_acc seed wsol_lamports
        let ata =
            create_ata_token_or_not_with_program payer (token_mint pool_info) payer
              (token_program pool_info) create_ata
        let user = by_position pool_info wsol_acc ata.0
        swap ←
            make_buy_exact_quote_in_instruction spendable_quote_in min_base_amount_out track_volume
              pool_info payer user.0 user.1 random.draws
        close ← close_wsol_account wsol_acc payer
        ok (optional extend ++ (opening ++ (optional ata.1 ++ (swap ∷ close ∷ []))))

  unfoldable pub build_sell_ixs :
      ℕ → ℕ → PoolInfo → ℕ → Bool → Randomness → Result (List Instruction)
  unfolding maybe_extend_pool_ix open_wsol_account close_wsol_account
  build_sell_ixs base_amount_in min_quote_amount_out pool_info payer close_spl_acc random = do
    extend ← maybe_extend_pool_ix pool_info payer
    (wsol_acc, seed) ← gen_pubkey_with_seed random.seed_bytes payer
    let wsol_lamports =
        if sol_is_base pool_info then add_u64 min_rent_exempt base_amount_in else min_rent_exempt
    opening ← open_wsol_account payer wsol_acc seed wsol_lamports
    let token_ata_in =
        get_associated_token_address_with_program_id payer (token_mint pool_info)
          (token_program pool_info)
    let user = by_position pool_info wsol_acc token_ata_in
    swap ←
        make_sell_instruction base_amount_in min_quote_amount_out pool_info payer user.0 user.1
          random.draws
    close ← close_wsol_account wsol_acc payer
    let built = optional extend ++ (opening ++ (swap ∷ close ∷ []))
    (if close_spl_acc
        then (ok_or program_error (close_account (token_program pool_info) token_ata_in payer payer)
            >>= λ closing. ok (built ++ (closing ∷ [])))
        else ok built)

  unfoldable pub build_token_buy_ixs :
      ℕ → ℕ → Bool → PoolInfo → ℕ → Bool → Randomness → Result (List Instruction)
  unfolding maybe_extend_pool_ix open_wsol_account close_wsol_account
  build_token_buy_ixs sol_in min_tokens_out track_volume pool_info payer create_ata random = do
    extend ← maybe_extend_pool_ix pool_info payer
    (wsol_acc, seed) ← gen_pubkey_with_seed random.seed_bytes payer
    opening ← open_wsol_account payer wsol_acc seed (add_u64 min_rent_exempt sol_in)
    let ata =
        create_ata_token_or_not_with_program payer (token_mint pool_info) payer
          (token_program pool_info) create_ata
    swap ←
        if sol_is_base pool_info
        then make_sell_instruction sol_in min_tokens_out pool_info payer wsol_acc ata.0 random.draws
        else make_buy_exact_quote_in_instruction sol_in min_tokens_out track_volume pool_info payer
            ata.0 wsol_acc random.draws
    close ← close_wsol_account wsol_acc payer
    ok (optional extend ++ (opening ++ (optional ata.1 ++ (swap ∷ close ∷ []))))

  unfoldable pub build_token_sell_ixs :
      ℕ → ℕ → PoolInfo → ℕ → Bool → Randomness → Result (List Instruction)
  unfolding maybe_extend_pool_ix open_wsol_account close_wsol_account
  build_token_sell_ixs tokens_in min_sol_out pool_info payer close_token_ata random = do
    extend ← maybe_extend_pool_ix pool_info payer
    (wsol_acc, seed) ← gen_pubkey_with_seed random.seed_bytes payer
    opening ← open_wsol_account payer wsol_acc seed min_rent_exempt
    let token_ata =
        get_associated_token_address_with_program_id payer (token_mint pool_info)
          (token_program pool_info)
    swap ←
        if sol_is_base pool_info
        then make_buy_exact_quote_in_instruction tokens_in min_sol_out false pool_info payer
            wsol_acc token_ata random.draws
        else make_sell_instruction tokens_in min_sol_out pool_info payer token_ata wsol_acc
            random.draws
    close ← close_wsol_account wsol_acc payer
    let built = optional extend ++ (opening ++ (swap ∷ close ∷ []))
    (if close_token_ata
        then (ok_or program_error (close_account (token_program pool_info) token_ata payer payer)
            >>= λ closing. ok (built ++ (closing ∷ [])))
        else ok built)
