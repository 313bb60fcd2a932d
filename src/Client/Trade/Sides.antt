-- ===== src/Client/Trade/Sides.antt =====
-- Which account of a swap stands on which side of the pool, in the token builders of src/client.rs.
use pump_swap_sdk.Prelude.{
  ℕ, ◌≡◌, refl, ap, Bool, false, Bool-cases, inl, inr, List, ◌++◌, Option, some, if◌then◌else◌,
  get_elem?, take,
}
use pump_swap_sdk.Prelude.Bytes.{to_le}
use pump_swap_sdk.Prelude.Outcome.{ok}
use pump_swap_sdk.Constants.{pump_swap_program_id}
use pump_swap_sdk.State.Pool.{PoolInfo, TokenSide, base, quote, sol_is_base, token_side}
use pump_swap_sdk.Solana.{Solana, AccountMeta, Instruction, new}
use pump_swap_sdk.Instruction.Swap.{
  SwapKind, buy, sell, Draws, make_sell_instruction, make_buy_exact_quote_in_instruction,
  swap_accounts, append_swap_remaining_accounts,
}
use pump_swap_sdk.Instruction.Args.{
  sell_to_vec, buy_exact_quote_in_to_vec, new_sell, new_buy_exact_quote_in, sell_discriminator,
  buy_exact_quote_in_discriminator,
}
use pump_swap_sdk.Instruction.Swap.Metas.{IsSwapList, swap_accounts-IsSwapList}
use pump_swap_sdk.Client.Trade.{by_position}

abbrev pub other : TokenSide → TokenSide
other base = quote
other quote = base

-- The user's account on a side of the pool.
abbrev pub user_account : TokenSide → Instruction → Option AccountMeta
user_account base swap = get_elem? swap.accounts 5
user_account quote swap = get_elem? swap.accounts 6

-- A swap that spends the base sells, and one that spends the quote buys for exactly that.
abbrev pub kind_of : TokenSide → SwapKind
kind_of base = sell
kind_of quote = buy

abbrev pub tag_of : TokenSide → List ℕ
tag_of base = sell_discriminator
tag_of quote = buy_exact_quote_in_discriminator

-- The accounts of the user as (base, quote).
abbrev pub Placed : PoolInfo → ℕ → ℕ → ℕ → ℕ → Type 0
Placed p wsol ata base_acc quote_acc = (base_acc, quote_acc) ≡ by_position p wsol ata

module _ ⦃chain : Solana⦄ where
  open chain use {
    spl_token_id, token_account_len, initialize_account, close_account, create_account_with_seed,
    create_associated_token_account_idempotent, get_associated_token_address_with_program_id,
  }

  -- A swap that spends exactly `spent` of a side of the pool for at least `least` of the other: the
  -- instruction for that direction, with all its accounts; the user's account on the token's side is
  -- `ata`, and that on the wrapped SOL's side is `wsol`.
  pub record Trades (p : PoolInfo) (spends : TokenSide) (spent least payer ata wsol : ℕ)
      (swap : Instruction) : Type 0 where
    pub base_acc : ℕ
    pub quote_acc : ℕ
    pub program : swap.program_id ≡ pump_swap_program_id
    pub tagged : take 24 swap.payload ≡ tag_of spends ++ (to_le 8 spent ++ to_le 8 least)
    pub listed : IsSwapList p payer base_acc quote_acc (kind_of spends) swap.accounts
    pub token : user_account (token_side p) swap ≡ some (new ata false)
    pub wrapped : user_account (other (token_side p)) swap ≡ some (new wsol false)

  -- A swap with the accounts placed so trades with them.
  Placed-Trades :
      (p : PoolInfo) (spends : TokenSide) (spent least payer wsol ata base_acc quote_acc : ℕ)
      (swap : Instruction)
      → Placed p wsol ata base_acc quote_acc
      → swap.program_id ≡ pump_swap_program_id
      → take 24 swap.payload ≡ tag_of spends ++ (to_le 8 spent ++ to_le 8 least)
      → IsSwapList p payer base_acc quote_acc (kind_of spends) swap.accounts
      → get_elem? swap.accounts 5 ≡ some (new base_acc false)
      → get_elem? swap.accounts 6 ≡ some (new quote_acc false)
      → Trades p spends spent least payer ata wsol swap
  unfolding token_side
  Placed-Trades p spends spent least payer wsol ata base_acc quote_acc swap placed program tagged
        listed first second =
      let base_eq = ap (λ pair. pair.0) placed in
      let quote_eq = ap (λ pair. pair.1) placed in
      elim (Bool-cases (sol_is_base p)) [
        | inl side ↦ record {
          base_acc = base_acc;
          quote_acc = quote_acc;
          program = program;
          tagged = tagged;
          listed = listed;
          token = simp (side, second, quote_eq);
          wrapped = simp (side, first, base_eq);
        }
        | inr side ↦ record {
          base_acc = base_acc;
          quote_acc = quote_acc;
          program = program;
          tagged = tagged;
          listed = listed;
          token = simp (side, first, base_eq);
          wrapped = simp (side, second, quote_eq);
        }
      ]

  sell-Trades :
      (p : PoolInfo) (spent least payer wsol ata base_acc quote_acc : ℕ) (draws : Draws)
      → Placed p wsol ata base_acc quote_acc
      → (swap : Instruction) × (make_sell_instruction spent least p payer base_acc quote_acc draws
          ≡ ok swap)
        × Trades p base spent least payer ata wsol swap
  unfolding make_sell_instruction swap_accounts append_swap_remaining_accounts sell_to_vec new_sell
      to_le
  sell-Trades p spent least payer wsol ata base_acc quote_acc draws placed =
      let swap : Instruction = record {
        program_id = pump_swap_program_id;
        accounts = swap_accounts p payer base_acc quote_acc sell draws;
        payload = sell_to_vec (new_sell spent least);
      } in
      (
        swap,
        refl,
        Placed-Trades p base spent least payer wsol ata base_acc quote_acc swap placed refl refl
            (swap_accounts-IsSwapList p payer base_acc quote_acc sell draws) refl refl,
      )

  buy_exact_quote_in-Trades :
      (p : PoolInfo) (spent least payer wsol ata base_acc quote_acc : ℕ) (track : Bool)
      (draws : Draws)
      → Placed p wsol ata base_acc quote_acc
      → (swap : Instruction) × (make_buy_exact_quote_in_instruction spent least track p payer
            base_acc quote_acc draws
          ≡ ok swap)
        × Trades p quote spent least payer ata wsol swap
  unfolding make_buy_exact_quote_in_instruction swap_accounts append_swap_remaining_accounts
      buy_exact_quote_in_to_vec new_buy_exact_quote_in to_le
  buy_exact_quote_in-Trades p spent least payer wsol ata base_acc quote_acc track draws placed =
      let swap : Instruction = record {
        program_id = pump_swap_program_id;
        accounts = swap_accounts p payer base_acc quote_acc buy draws;
        payload = buy_exact_quote_in_to_vec (new_buy_exact_quote_in spent least track);
      } in
      (
        swap,
        refl,
        Placed-Trades p quote spent least payer wsol ata base_acc quote_acc swap placed refl refl
            (swap_accounts-IsSwapList p payer base_acc quote_acc buy draws) refl refl,
      )

  -- The swap that `build_token_buy_ixs` chooses.
  pub chosen_to_buy :
      (p : PoolInfo) (spent least payer wsol ata : ℕ) (track : Bool) (draws : Draws)
      → (swap : Instruction) × ((if sol_is_base p
            then make_sell_instruction spent least p payer wsol ata draws
            else make_buy_exact_quote_in_instruction spent least track p payer ata wsol draws)
          ≡ ok swap)
        × Trades p (other (token_side p)) spent least payer ata wsol swap
  unfolding token_side
  chosen_to_buy p spent least payer wsol ata track draws = elim (Bool-cases (sol_is_base p)) [
    | inl side ↦
        let (swap, made, trades) =
          sell-Trades p spent least payer wsol ata wsol ata draws (simp (side)) in
        (swap, simp (side) made, simp (side) trades)
    | inr side ↦
        let (swap, made, trades) =
          buy_exact_quote_in-Trades p spent least payer wsol ata ata wsol track draws
            (simp (side)) in
        (swap, simp (side) made, simp (side) trades)
  ]

  -- The swap that `build_token_sell_ixs` chooses.
  pub chosen_to_sell :
      (p : PoolInfo) (spent least payer wsol ata : ℕ) (draws : Draws)
      → (swap : Instruction) × ((if sol_is_base p
            then make_buy_exact_quote_in_instruction spent least false p payer wsol ata draws
            else make_sell_instruction spent least p payer ata wsol draws)
          ≡ ok swap)
        × Trades p (token_side p) spent least payer ata wsol swap
  unfolding token_side
  chosen_to_sell p spent least payer wsol ata draws = elim (Bool-cases (sol_is_base p)) [
    | inl side ↦
        let (swap, made, trades) =
          buy_exact_quote_in-Trades p spent least payer wsol ata wsol ata false draws
            (simp (side)) in
        (swap, simp (side) made, simp (side) trades)
    | inr side ↦
        let (swap, made, trades) =
          sell-Trades p spent least payer wsol ata ata wsol draws (simp (side)) in
        (swap, simp (side) made, simp (side) trades)
  ]
