-- ===== src/Client/Send.antt =====
-- The transactions of src/client.rs: what a method signs and delivers, and the result it returns. Each
-- answer of the RPC node is an argument.
pub mod Trades
pub mod Liquidity
pub mod Signers
pub mod Lists
pub mod Payers
pub mod Calls
pub mod Delivered
pub mod Share
pub mod Omitted
pub mod Simulated
use pump_swap_sdk.Prelude.{ℕ, List, [], ◌∷◌}
use pump_swap_sdk.Prelude.Outcome.{Result, ok, err}
use pump_swap_sdk.Solana.{Instruction}

-- `Transaction::new_with_payer`, signed by the payer's key pair at a blockhash.
pub record Transaction : Type 0 where
  pub instructions : List Instruction
  pub payer : ℕ
  pub recent_blockhash : ℕ

-- `send_and_confirm_transaction` and `simulate_transaction`
pub data Delivery : Type 0 where
  send simulate : Delivery

-- The node's answers to the last calls of a method.
pub record Node : Type 0 where
  pub latest_blockhash : Result ℕ
  pub deliver : Delivery → Transaction → Result (Unit {0})

-- The transactions that a method delivers, and what it returns.
pub record Sent : Type 0 where
  pub delivered : List (Delivery × Transaction)
  pub result : Result (Unit {0})

-- The end of every method: the instructions with `?`, the blockhash, and the delivery.
unfoldable pub submit : Node → Delivery → ℕ → Result (List Instruction) → Sent
submit node delivery payer (err e) = record { delivered = []; result = err e }
submit node delivery payer (ok ixs) = elim node.latest_blockhash [
  | err e ↦ record { delivered = []; result = err e }
  | ok hash ↦
      let tx : Transaction = record {
        instructions = ixs;
        payer = payer;
        recent_blockhash = hash;
      } in
      record { delivered = (delivery, tx) ∷ []; result = node.deliver delivery tx }
]
