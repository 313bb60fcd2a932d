-- ===== src/Tests/Instructions.antt =====
-- Concrete instruction lists of src/instruction.rs and src/client.rs, over a simple stand-in for the
-- libraries.
use pump_swap_sdk.Prelude.{
  ℕ, ◌≡◌, refl, sym, ◌∙◌, ◌↔◌, List, true, false, [], ◌∷◌, ◌++◌, none, some, if◌then◌else◌,
  replicate,
}
use pump_swap_sdk.Prelude.Outcome.{ok}
use pump_swap_sdk.Constants.{pumpfun_program, pumpfun_global, pumpfun_event_authority}
use pump_swap_sdk.State.Pool.{token_side, token_mint, token_program}
use pump_swap_sdk.Solana.{Instruction, new, new_readonly}
use pump_swap_sdk.Util.Pda.{
  gen_pubkey_with_seed, find_coin_creator_vault_ata, pump_creator_vault_pda, bonding_curve_pda,
  sharing_config_pda,
}
use pump_swap_sdk.Instruction.Creator.{sweep_bonding_curve_creator_fee_instruction}
use pump_swap_sdk.Instruction.Swap.{sell, swap_accounts}
use pump_swap_sdk.Instruction.Swap.Metas.{IsSwapList, swap_accounts-IsSwapList}
use pump_swap_sdk.Client.Trade.{add_u64, min_rent_exempt, build_token_buy_ixs, build_token_sell_ixs}
use pump_swap_sdk.Client.Trade.Sides.{Trades, other}
use pump_swap_sdk.Client.Trade.Lists.{
  Opens, ata_of, extension, opening, build_token_buy_ixs_lem, build_token_sell_ixs_lem, Closes,
  closing_of,
}
use pump_swap_sdk.Client.Trade.Fails.{build_token_sell_ixs_iff}
use pump_swap_sdk.Tests.StandIn.{stand_in, signed_ix, empty_ix, pool, plain_pool, draws, random}
use pump_swap_sdk.Client.Chain.{GetAccounts}
use pump_swap_sdk.Client.Creator.{curve_fee_of, build_creator_fee_sweep_ixs, sweep_graduated_pool}
use pump_swap_sdk.Client.Creator.Sweeps.{Swept, build_creator_fee_sweep_ixs_lem}

swap_accounts-IsSwapList_example : IsSwapList pool 1 2 3 sell (swap_accounts pool 1 2 3 sell draws)
swap_accounts-IsSwapList_example = swap_accounts-IsSwapList pool 1 2 3 sell draws

pub derived-eq : gen_pubkey_with_seed random.seed_bytes 1 ≡ ok (33, replicate 32 1)
unfolding gen_pubkey_with_seed
derived-eq = refl

abbrev pub opens : Opens 1 random
opens = record {
  wsol = 33;
  seed = replicate 32 1;
  init = empty_ix;
  close = signed_ix 1;
  derived = derived-eq;
  initialized = refl;
  closed = refl;
}

build_token_buy_ixs_lem_example :
    (swap : Instruction) × (build_token_buy_ixs 1_000 5 true pool 1 true random
      ≡ ok (
          extension pool 1
          ++ (opening 1 opens.seed opens.wsol (add_u64 min_rent_exempt 1_000) opens.init
              ++ ((if true
                    then stand_in.create_associated_token_account_idempotent 1 1
                        (token_mint pool)
                        (token_program pool)
                      ∷ []
                    else [])
                  ++ (swap ∷ opens.close ∷ [])))))
    × Trades pool (other (token_side pool)) 1_000 5 1 (ata_of pool 1) opens.wsol swap
build_token_buy_ixs_lem_example = build_token_buy_ixs_lem 1_000 5 true pool 1 true random opens

plain_closes :
    stand_in.close_account (token_program plain_pool) (ata_of plain_pool 1) 1 1 ≡ some (signed_ix 1)
unfolding token_program
plain_closes = refl

abbrev closes : Closes plain_pool 1 true
closes = (signed_ix 1, plain_closes)

build_token_sell_ixs_lem_example :
    (swap : Instruction) × (build_token_sell_ixs 1_000 5 plain_pool 1 true random
      ≡ ok (
          extension plain_pool 1
          ++ (opening 1 opens.seed opens.wsol min_rent_exempt opens.init
              ++ (swap ∷ opens.close ∷ closing_of plain_pool 1 true closes))))
    × Trades plain_pool (token_side plain_pool) 1_000 5 1 (ata_of plain_pool 1) opens.wsol swap
build_token_sell_ixs_lem_example =
    build_token_sell_ixs_lem 1_000 5 plain_pool 1 true random opens closes

build_token_sell_ixs_iff_example :
    ((ixs : List Instruction) × (build_token_sell_ixs 1_000 5 pool 1 true random ≡ ok ixs))
    ↔ (Opens 1 random × Closes pool 1 true)
build_token_sell_ixs_iff_example = build_token_sell_ixs_iff 1_000 5 pool 1 true random

token_2022_refuses : stand_in.close_account (token_program pool) (ata_of pool 1) 1 1 ≡ none
unfolding token_program
token_2022_refuses = refl

none≢some : {ix : Instruction} → ¬ (none ≡ some ix)
none≢some h = cc

-- The stand-in closes no account of Token-2022, so that such a sale has no list.
no_list : (ixs : List Instruction) → ¬ (build_token_sell_ixs 1_000 5 pool 1 true random ≡ ok ixs)
no_list ixs built =
    let (o, closes) = (build_token_sell_ixs_iff 1_000 5 pool 1 true random).0 (ixs, built) in
    none≢some (sym token_2022_refuses ∙ closes.1)

-- A coin with no curve account that has not graduated.
abbrev nothing_there : GetAccounts
nothing_there = λ keys. ok (none ∷ none ∷ [])

abbrev swept : Instruction
swept = record {
  program_id = pumpfun_program;
  accounts =
      new 1 true
      ∷ new_readonly pumpfun_global false
      ∷ new_readonly 12 false
      ∷ new_readonly 3 false
      ∷ new_readonly 6 false
      ∷ new_readonly 8 false
      ∷ new_readonly 5 false
      ∷ new (bonding_curve_pda 12) false
      ∷ new (find_coin_creator_vault_ata (bonding_curve_pda 12) 6 3) false
      ∷ new (pump_creator_vault_pda (sharing_config_pda 12)) false
      ∷ new (find_coin_creator_vault_ata (pump_creator_vault_pda (sharing_config_pda 12)) 6 3) false
      ∷ new_readonly pumpfun_event_authority false
      ∷ new_readonly pumpfun_program false
      ∷ [];
  payload = 32 ∷ 246 ∷ 191 ∷ 52 ∷ 8 ∷ 201 ∷ 73 ∷ 186 ∷ [];
}

swept-eq : build_creator_fee_sweep_ixs nothing_there 1 12 3 6 ≡ ok (swept ∷ [])
unfolding build_creator_fee_sweep_ixs sweep_graduated_pool
    sweep_bonding_curve_creator_fee_instruction
swept-eq = refl

build_creator_fee_sweep_ixs_lem_example :
    (fee : ℕ) × (curve_fee_of none ≡ ok fee) × Swept 1 12 3 6 fee none (swept ∷ [])
build_creator_fee_sweep_ixs_lem_example =
    build_creator_fee_sweep_ixs_lem nothing_there 1 12 3 6 none none (swept ∷ []) refl swept-eq
