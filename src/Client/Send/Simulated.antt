-- ===== src/Client/Send/Simulated.antt =====
-- What the simulation of a sale in src/client.rs says of the sale.
use pump_swap_sdk.Prelude.{ℕ, ◌≡◌, true, refl, inl, inr, List, ◌++◌, map}
use pump_swap_sdk.Prelude.Outcome.{Result, ok, err, ◌>>=◌, Result-cases}
use pump_swap_sdk.State.Pool.{PoolInfo}
use pump_swap_sdk.Math.Float.{Float}
use pump_swap_sdk.Solana.{Solana, Instruction}
use pump_swap_sdk.Client.Chain.{GetAccounts}
use pump_swap_sdk.Client.Trade.{Randomness, build_sell_ixs}
use pump_swap_sdk.Client.Send.{Transaction, Node, Sent, Delivery, send, simulate, submit}
use pump_swap_sdk.Client.Send.Trades.{price, compute_budget, sell_floor, simulate_sell, sell}

abbrev pub transactions : Sent → List Transaction
transactions sent = map (λ delivered. delivered.1) sent.delivered

-- The transaction with instructions in front.
abbrev pub prefixed : List Instruction → Transaction → Transaction
prefixed ixs tx = record {
  instructions = ixs ++ tx.instructions;
  payer = tx.payer;
  recent_blockhash = tx.recent_blockhash;
}

submit-prefixed :
    (node : Node) (one other : Delivery) (payer : ℕ) (first : List Instruction)
    (built : Result (List Instruction))
    → transactions (submit node one payer (built >>= λ ixs. ok (first ++ ixs)))
      ≡ map (prefixed first) (transactions (submit node other payer built))
unfolding submit
submit-prefixed node one other payer first (err e) = refl
submit-prefixed node one other payer first (ok ixs) = elim (Result-cases node.latest_blockhash) [
  | inl (e, failed) ↦ rw (failed, submit) refl
  | inr (hash, got) ↦ rw (got, submit) refl
]

module _ ⦃chain : Solana⦄ (F : Type 0) ⦃d : Float F⦄ where
  -- On the same answers of the node and with the same draws, a sale sends exactly the transaction that
  -- its simulation simulates, with the compute budget in front, and sends one exactly when the
  -- simulation has one.
  pub sell-simulated :
      (node : Node) (first second : GetAccounts) (pool : PoolInfo) (amount payer : ℕ)
      (random : Randomness)
      → transactions (sell F node first second amount pool payer random)
        ≡ map
            (prefixed (compute_budget 1_000_000 100_000))
            (transactions (simulate_sell F node first second pool amount payer random))
  unfolding sell simulate_sell submit
  sell-simulated node first second pool amount payer random =
      elim (Result-cases (price first second pool)) [
        | inl (e, failed) ↦ simp (failed)
        | inr (p, priced) ↦
            rw (priced, sell, simulate_sell)
              (submit-prefixed node send simulate payer (compute_budget 1_000_000 100_000)
                (build_sell_ixs amount (sell_floor F amount p) p.pool payer true random))
      ]
