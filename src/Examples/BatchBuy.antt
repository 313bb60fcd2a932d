-- ===== src/Examples/BatchBuy.antt =====
-- examples/batch_buy.rs: one buy from each of several wallets, paced by an interval, over Jito or
-- the RPC node.
pub mod Free
pub mod Deliveries
pub mod Rotation
pub mod Program
use pump_swap_sdk.Prelude.{
  ℕ, zero, suc, true, List, [], ◌∷◌, ◌++◌, Option, none, some, length, map, ◌==◌, if◌then◌else◌,
}
use pump_swap_sdk.Prelude.Outcome.{Result, ok, err, ◌>>=◌, ok_or, not_parsed}
use pump_swap_sdk.State.Pool.{PoolInfo, effective_reserves}
use pump_swap_sdk.Math.Float.{Float}
use pump_swap_sdk.Math.Curve.{calc_amount_out}
use pump_swap_sdk.Solana.{Solana, Instruction}
use pump_swap_sdk.Util.Jito.{JitoPool, new_pool, collect, next_client, send_jito_bundle}
use pump_swap_sdk.Util.Load.{GetOwners}
use pump_swap_sdk.Client.Chain.Fetch.{load_pool}
use pump_swap_sdk.Client.Chain.{GetAccounts, fetch_pool_snapshot}
use pump_swap_sdk.Client.Balance.{parse_u64}
use pump_swap_sdk.Client.Trade.{Randomness, build_buy_ixs}
use pump_swap_sdk.Client.Send.{Transaction}
use pump_swap_sdk.Client.Send.Trades.{compute_budget}
use pump_swap_sdk.Examples.Settings.{Variable, Parsers, required, required_key, parsed_or, entries}

abbrev as_option : {A : Type 0} → Result A → Option A
as_option (err e) = none
as_option (ok a) = some a

abbrev pub keypair_of : {F K : Type 0} → Parsers F K → List ℕ → Result K
keypair_of parsers text = do
  bytes ← ok_or not_parsed (parsers.base58_bytes text)
  ok_or not_parsed (parsers.to_keypair bytes)

unfoldable pub parse_keypairs : {F K : Type 0} → Parsers F K → List ℕ → Result (List K)
parse_keypairs parsers csv = collect (map (keypair_of parsers) (entries csv))

-- `make` builds a client, and `now` is what the clock shows.
unfoldable pub parse_jito_pool : (List ℕ → Option ℕ → ℕ) → Variable → ℕ → Option JitoPool
parse_jito_pool make none now = none
parse_jito_pool make (some endpoints) now =
    let refs = entries endpoints in
    if length refs == 0 then none else as_option (new_pool make refs none 0 now)

-- What the batch buys with.
pub record Settings (F : Type 0) : Type 0 where
  pub amount_in : ℕ
  pub interval_ms : ℕ
  pub slippage : F

-- The environment of the program.
pub record Environment : Type 0 where
  pub rpc_url : Variable
  pub pool : Variable
  pub keypairs : Variable
  pub amount_lamports : Variable
  pub interval_ms : Variable
  pub slippage : Variable
  pub jito_endpoints : Variable

-- What the node, the random generator, the clock and the Jito endpoints answer for one wallet.
pub record Answers : Type 0 where
  pub get_multiple_accounts : GetAccounts
  pub random : Randomness
  pub latest_blockhash : Result ℕ
  pub send_and_confirm : Transaction → Result (Unit {0})
  pub nows : List ℕ
  pub send_bundle : ℕ → List (List ℕ) → Result (Option (List ℕ))

-- `bincode::serialize` and the base64 encoding.
pub record Wire : Type 0 where
  pub encode : Transaction → Result (List ℕ)
  pub base64 : List ℕ → List ℕ

-- A sleep in milliseconds, a bundle over a client of the Jito pool, and a transaction over the node;
-- the answer to a delivery is printed.
pub data Step : Type 0 where
  slept : ℕ → Step
  bundled : ℕ → Transaction → Result (Unit {0}) → Step
  sent : Transaction → Result (Unit {0}) → Step

-- The program ends, or still waits for a client of the Jito pool when the clock's times end.
pub data Ending : Type 0 where
  returned : Result (Unit {0}) → Ending
  waiting : Ending

-- The delivery of one transaction, none while it waits for a client.
unfoldable pub deliver_one :
    Wire → Option JitoPool → Transaction → Answers → Option JitoPool × Option Step
deliver_one wire none tx a = (none, some (sent tx (a.send_and_confirm tx)))
deliver_one wire (some pool) tx a =
    let (after, client) = next_client pool a.nows in
    elim client [
      | none ↦ (some after, none)
      | some c ↦
          let answer = send_jito_bundle wire.encode wire.base64 (a.send_bundle c) (tx ∷ []) in
          (some after, some (bundled c tx answer))
    ]

abbrev pub pause : ℕ → ℕ → List Step
pause zero interval_ms = []
pause (suc i) interval_ms = slept interval_ms ∷ []

module _ ⦃chain : Solana⦄ {F : Type 0} ⦃d : Float F⦄ where
  -- The transaction of one wallet.
  unfoldable pub wallet_transaction : Settings F → PoolInfo → ℕ → Answers → Result Transaction
  wallet_transaction settings loaded payer a = do
    (pool_info, vaults) ← fetch_pool_snapshot a.get_multiple_accounts loaded
    let reserves = effective_reserves pool_info vaults.0 vaults.1
    let amount_out = calc_amount_out settings.amount_in reserves.1 reserves.0 settings.slippage
    built ← build_buy_ixs amount_out settings.amount_in true pool_info payer true a.random
    hash ← a.latest_blockhash
    ok (record {
      instructions = compute_budget 1_000_000 100_000 ++ built;
      payer = payer;
      recent_blockhash = hash;
    })

  -- The loop from the wallet with the number `i` on.
  unfoldable pub batch_from :
      Wire
      → Settings F
      → PoolInfo
      → (ℕ → Answers)
      → Option JitoPool
      → ℕ
      → List ℕ
      → List Step × Ending
  unfolding deliver_one
  batch_from wire settings loaded answers jito i [] = ([], returned (ok tt))
  batch_from wire settings loaded answers jito i (payer ∷ payers) =
      let first = pause i settings.interval_ms in
      elim (wallet_transaction settings loaded payer (answers i)) [
        | err e ↦ (first, returned (err e))
        | ok tx ↦
            let (after, delivered) = deliver_one wire jito tx (answers i) in
            elim delivered [
              | none ↦ (first, waiting)
              | some step ↦
                  let (steps, ending) =
                    batch_from wire settings loaded answers after (suc i) payers in
                  (first ++ (step ∷ steps), ending)
            ]
      ]

  -- The pool, the wallets and the settings that the environment gives.
  unfoldable pub from_environment :
      {K : Type 0} → Parsers F K → Environment → Result (ℕ × List K × Settings F)
  unfolding parse_keypairs
  from_environment parsers env = do
    rpc_url ← required env.rpc_url
    pool ← required_key parsers env.pool
    csv ← required env.keypairs
    keypairs ← parse_keypairs parsers csv
    amount ← required env.amount_lamports
    amount_in ← parse_u64 amount
    ok (
      pool,
      keypairs,
      record {
        amount_in = amount_in;
        interval_ms = parsed_or (λ text. as_option (parse_u64 text)) 700 env.interval_ms;
        slippage = parsed_or parsers.to_f64 (d.literal 1 10) env.slippage;
      },
    )

  -- `main`: `make` builds a client of the Jito pool at the time `now`.
  unfoldable pub batch_buy :
      {K : Type 0}
      → Parsers F K
      → (List ℕ → Option ℕ → ℕ)
      → Wire
      → (ℕ → Result (List ℕ))
      → GetOwners
      → ℕ
      → (ℕ → Answers)
      → Environment
      → List Step × Ending
  unfolding from_environment batch_from parse_jito_pool
  batch_buy parsers make wire get_account_data get_owners now answers env =
      elim (from_environment parsers env) [
        | err e ↦ ([], returned (err e))
        | ok (pool, keypairs, settings) ↦ elim (load_pool get_account_data get_owners pool) [
          | err e ↦ ([], returned (err e))
          | ok loaded ↦
              batch_from wire settings loaded answers (parse_jito_pool make env.jito_endpoints now)
                0 (map parsers.pubkey_of keypairs)
        ]
      ]
