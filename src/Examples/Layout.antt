-- ===== src/Examples/Layout.antt =====
-- examples/verify_layout.rs: the three swap builders against the live program, by simulation.
pub mod Found
pub mod Swaps
use pump_swap_sdk.Prelude.{ℕ, true, false, Bool, ◌&&◌, List, [], ◌∷◌, ◌==◌, if◌then◌else◌}
use pump_swap_sdk.Prelude.Outcome.{Result, ok, err, ◌>>=◌, ok_or, not_parsed, instruction_not_found}
use pump_swap_sdk.Constants.{pump_swap_program_id}
use pump_swap_sdk.State.Pool.{PoolInfo, effective_reserves}
use pump_swap_sdk.Math.Float.{Float}
use pump_swap_sdk.Math.Curve.{calc_amount_out}
use pump_swap_sdk.Solana.{Solana, Instruction}
use pump_swap_sdk.Client.Chain.Fetch.{load_pool}
use pump_swap_sdk.Client.Chain.{GetAccounts, fetch_pool_snapshot}
use pump_swap_sdk.Client.Balance.{starts}
use pump_swap_sdk.Client.Trade.{
  Randomness, build_buy_ixs, build_buy_exact_quote_in_ixs, build_sell_ixs,
}
use pump_swap_sdk.Client.Send.{Transaction}
use pump_swap_sdk.Examples.Settings.{Variable, Parsers, required}
use pump_swap_sdk.Examples.Loads.{Loading}
use pump_swap_sdk.Examples.Simulations.{Simulation, Leg, simulate_legs, sol_in}

abbrev pub matches : List ℕ → Instruction → Bool
matches discriminator ix =
    (ix.program_id == pump_swap_program_id) && starts discriminator ix.payload

unfoldable pub find_pump_amm_ix : List Instruction → List ℕ → Result Instruction
find_pump_amm_ix [] discriminator = err instruction_not_found
find_pump_amm_ix (ix ∷ ixs) discriminator =
    let rest = find_pump_amm_ix ixs discriminator in
    if matches discriminator ix then ok ix else rest

-- The list, if it has the instruction of the program that is looked for.
unfoldable pub checked : Result (List Instruction) → List ℕ → Result (List Instruction)
checked built discriminator = do ixs ← built; ix ← find_pump_amm_ix ixs discriminator; ok ixs

-- What the program is answered, in the order of its calls.
pub record Answers : Type 0 where
  pub loading : Loading
  pub snapshot : GetAccounts
  pub buy_random : Randomness
  pub simulate_buy : Transaction → Result Simulation
  pub exact_random : Randomness
  pub simulate_exact : Transaction → Result Simulation
  pub sell_random : Randomness
  pub simulate_sell : Transaction → Result Simulation

module _ ⦃chain : Solana⦄ (F : Type 0) ⦃d : Float F⦄ where
  -- The three simulations for a pool with its reserves.
  unfoldable pub layout_legs : Answers → PoolInfo → ℕ → ℕ → ℕ → List Leg
  unfolding checked
  layout_legs a pool_info base_reserve quote_reserve user =
      let base_amount_out = calc_amount_out sol_in quote_reserve base_reserve (d.literal 1 10) in
      let buy_ixs = build_buy_ixs base_amount_out sol_in true pool_info user true a.buy_random in
      let bxqi_ixs =
        build_buy_exact_quote_in_ixs sol_in 1 true pool_info user true a.exact_random in
      let sell_ixs = build_sell_ixs 1_000 0 pool_info user false a.sell_random in
      record {
        built = checked buy_ixs (102 ∷ 6 ∷ 61 ∷ 18 ∷ 1 ∷ 218 ∷ 235 ∷ 234 ∷ []);
        answer = a.simulate_buy;
      }
      ∷ record {
        built = checked bxqi_ixs (198 ∷ 46 ∷ 21 ∷ 82 ∷ 180 ∷ 217 ∷ 232 ∷ 112 ∷ []);
        answer = a.simulate_exact;
      }
      ∷ record {
        built = checked sell_ixs (51 ∷ 230 ∷ 133 ∷ 164 ∷ 1 ∷ 127 ∷ 131 ∷ 173 ∷ []);
        answer = a.simulate_sell;
      }
      ∷ []

  -- The pool, its reserves and the user.
  unfoldable pub layout_settings :
      {K : Type 0}
      → Parsers F K
      → Answers
      → Variable
      → Variable
      → Variable
      → Result (PoolInfo × (ℕ × ℕ) × ℕ)
  layout_settings parsers a rpc_url pool user = do
    url ← required rpc_url
    pool_text ← required pool
    user_text ← required user
    pool_key ← ok_or not_parsed (parsers.to_pubkey pool_text)
    user_key ← ok_or not_parsed (parsers.to_pubkey user_text)
    loaded ← load_pool a.loading.get_account_data a.loading.get_owners pool_key
    (pool_info, vaults) ← fetch_pool_snapshot a.snapshot loaded
    ok (pool_info, effective_reserves pool_info vaults.0 vaults.1, user_key)

  -- `main`
  unfoldable pub verify_layout :
      {K : Type 0}
      → Parsers F K
      → Answers
      → Variable
      → Variable
      → Variable
      → List Transaction × Result (List Simulation)
  unfolding layout_settings layout_legs
  verify_layout parsers a rpc_url pool user = elim (layout_settings parsers a rpc_url pool user) [
    | err e ↦ ([], err e)
    | ok (pool_info, reserves, user_key) ↦
        simulate_legs user_key (layout_legs a pool_info reserves.0 reserves.1 user_key)
  ]
