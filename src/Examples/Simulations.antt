-- ===== src/Examples/Simulations.antt =====
-- examples/sim_trade_flow.rs: a purchase and a sale, simulated one after the other.
pub mod Flow
use pump_swap_sdk.Prelude.{
  ℕ, ◌*◌, ◌/◌, ◌%◌, ◌^◌, Bool, true, false, ◌||◌, List, [], ◌∷◌, ◌++◌, Option, none, some,
  if◌then◌else◌, map,
}
use pump_swap_sdk.Prelude.Outcome.{Result, ok, err, ◌>>=◌, ok_or, not_parsed, panicked}
use pump_swap_sdk.State.Pool.{PoolInfo, token_mint, token_program}
use pump_swap_sdk.Math.Float.{Float}
use pump_swap_sdk.Solana.{Solana, Instruction}
use pump_swap_sdk.Util.Load.{GetOwners, load_pool}
use pump_swap_sdk.Util.Pda.{create_ata_token_or_not_with_program}
use pump_swap_sdk.Client.Chain.{GetAccounts, fetch_pool_snapshot, quote_token_buy, quote_token_sell}
use pump_swap_sdk.Client.Chain.Fetch
use pump_swap_sdk.Client.Balance.{BalanceAnswer, fetch_pool_reserves, contains}
use pump_swap_sdk.Client.Trade.{Randomness, optional, build_token_buy_ixs, build_token_sell_ixs}
use pump_swap_sdk.Client.Send.{Transaction, Node, Sent}
use pump_swap_sdk.Client.Send.Trades
use pump_swap_sdk.Examples.Settings.{
  Variable, Parsers, required, required_key, lamports_or, lamports_per_sol,
}
use pump_swap_sdk.Examples.Loads.{Loading}

-- `RpcSimulateTransactionResult`: the error of the transaction, the units and the log.
pub record Simulation : Type 0 where
  pub failure : Option (List ℕ)
  pub units_consumed : Option ℕ
  pub logs : Option (List (List ℕ))

-- `Message::new` in an unsigned transaction, with the default blockhash.
abbrev pub unsigned : List Instruction → ℕ → Transaction
unsigned ixs user = record { instructions = ixs; payer = user; recent_blockhash = 0 }

-- "Instruction:", "Error" and "failed"
abbrev pub marks : List (List ℕ)
marks =
    (b'I' ∷ b'n' ∷ b's' ∷ b't' ∷ b'r' ∷ b'u' ∷ b'c' ∷ b't' ∷ b'i' ∷ b'o' ∷ b'n' ∷ b':' ∷ [])
    ∷ (b'E' ∷ b'r' ∷ b'r' ∷ b'o' ∷ b'r' ∷ [])
    ∷ (b'f' ∷ b'a' ∷ b'i' ∷ b'l' ∷ b'e' ∷ b'd' ∷ [])
    ∷ []

abbrev contains_any : List (List ℕ) → List ℕ → Bool
contains_any [] line = false
contains_any (part ∷ parts) line = contains part line || contains_any parts line

-- The lines of a log that are printed.
unfoldable pub shown_lines : List (List ℕ) → List (List ℕ)
shown_lines [] = []
shown_lines (line ∷ lines) =
    let rest = shown_lines lines in if contains_any marks line then line ∷ rest else rest

-- What is printed: the error if there is one, the units and the lines of the log.
abbrev pub report : Simulation → Simulation
report answer = record {
  failure = answer.failure;
  units_consumed = answer.units_consumed;
  logs = elim answer.logs [ none ↦ none | some lines ↦ some (shown_lines lines) ];
}

-- A list of instructions, or the error that stops the program before it, and the node's answer to
-- its simulation.
pub record Leg : Type 0 where
  pub built : Result (List Instruction)
  pub answer : Transaction → Result Simulation

-- The simulations one after the other: the transactions, and the answers or the first error. An
-- answer that says that the transaction fails is no error.
unfoldable pub simulate_legs : ℕ → List Leg → List Transaction × Result (List Simulation)
simulate_legs user [] = ([], ok [])
simulate_legs user (leg ∷ legs) = elim leg.built [
  | err e ↦ ([], err e)
  | ok ixs ↦
      let tx = unsigned ixs user in
      let (txs, results) = simulate_legs user legs in
      elim (leg.answer tx) [
        | err e ↦ (tx ∷ [], err e)
        | ok answer ↦ (tx ∷ txs, (results >>= λ more. ok (answer ∷ more)))
      ]
]

-- `LAMPORTS_PER_SOL / 1_000`
abbrev pub sol_in : ℕ
sol_in = lamports_per_sol / 1_000

-- `min_tokens_out * 9 / 10`, with the wrap of a release build.
unfoldable pub tokens_to_sell : ℕ → ℕ
tokens_to_sell min_tokens_out = min_tokens_out * 9 % 2 ^ 64 / 10

-- What sim_trade_flow.rs is answered, in the order of its calls.
pub record FlowAnswers : Type 0 where
  pub loading : Loading
  pub snapshot : GetAccounts
  pub buy_accounts : GetAccounts
  pub buy_fees : GetAccounts
  pub buy_random : Randomness
  pub sell_accounts : GetAccounts
  pub sell_fees : GetAccounts
  pub sell_random : Randomness
  pub simulate_buy_leg : Transaction → Result Simulation
  pub simulate_sell_leg : Transaction → Result Simulation

module _ ⦃chain : Solana⦄ (F : Type 0) ⦃d : Float F⦄ where
  -- The two lists of instructions for a pool.
  unfoldable pub flow_legs : FlowAnswers → ℕ → ℕ → Result (List Instruction × List Instruction)
  unfolding tokens_to_sell
  flow_legs a pool user = do
    loaded ← Fetch.load_pool a.loading.get_account_data a.loading.get_owners pool
    (pool_info, reserves) ← fetch_pool_snapshot a.snapshot loaded
    quote ← quote_token_buy a.buy_accounts a.buy_fees sol_in pool_info (d.literal 1 1_000)
    let tokens = tokens_to_sell quote.min_amount_out
    buy_ixs ← build_token_buy_ixs sol_in quote.min_amount_out true pool_info user true a.buy_random
    sell_quote ← quote_token_sell a.sell_accounts a.sell_fees tokens pool_info (d.literal 1 1_000)
    sell_ixs ←
        build_token_sell_ixs tokens sell_quote.min_amount_out pool_info user false a.sell_random
    let ata =
        create_ata_token_or_not_with_program user (token_mint pool_info) user
          (token_program pool_info) true
    ok (buy_ixs, optional ata.1 ++ sell_ixs)

  -- What sim_trade_flow.rs prepares before its first simulation.
  unfoldable pub flow_prepared :
      {K : Type 0}
      → Parsers F K
      → FlowAnswers
      → Variable
      → Variable
      → Variable
      → Result (ℕ × (List Instruction × List Instruction))
  unfolding flow_legs
  flow_prepared parsers a rpc_url pool user = do
    url ← required rpc_url
    pool_text ← required pool
    user_text ← required user
    pool_key ← ok_or not_parsed (parsers.to_pubkey pool_text)
    user_key ← ok_or not_parsed (parsers.to_pubkey user_text)
    legs ← flow_legs a pool_key user_key
    ok (user_key, legs)

  -- `main` of sim_trade_flow.rs: the transactions that it simulates, and what it prints of them.
  unfoldable pub trade_flow :
      {K : Type 0}
      → Parsers F K
      → FlowAnswers
      → Variable
      → Variable
      → Variable
      → List Transaction × Result (List Simulation)
  unfolding flow_prepared simulate_legs
  trade_flow parsers a rpc_url pool user = elim (flow_prepared parsers a rpc_url pool user) [
    | err e ↦ ([], err e)
    | ok (user_key, (buy_ixs, sell_ixs)) ↦
        let legs =
          (record { built = ok buy_ixs; answer = a.simulate_buy_leg }
            ∷ record { built = ok sell_ixs; answer = a.simulate_sell_leg }
            ∷ []) in
        let (txs, results) = simulate_legs user_key legs in
        (txs, (results >>= λ answers. ok (map report answers)))
  ]
