-- ===== src/Client/Send/Delivered.antt =====
-- What the methods of src/client.rs that sign deliver, and what they return.
use pump_swap_sdk.Prelude.{ℕ, ◌≡◌, true, false, refl, ◌⊎◌, inl, inr, List, [], ◌∷◌, ◌++◌, All}
use pump_swap_sdk.Prelude.Outcome.{Result, ok, err, ◌>>=◌, Error, Result-cases}
use pump_swap_sdk.Math.Float.{Float}
use pump_swap_sdk.Solana.{Solana, Instruction}
use pump_swap_sdk.Instruction.Volume.{make_claim_cashback_instruction}
use pump_swap_sdk.Client.Send.{Transaction, Node, Sent, Delivery, submit}
use pump_swap_sdk.Client.Send.Trades.{price, compute_budget, sell_floor, buy_floor}
use pump_swap_sdk.Client.Send.Trades
use pump_swap_sdk.Client.Send.Liquidity.{create_wsol_pool_ixs, deposit_ixs, withdraw_ixs}
use pump_swap_sdk.Client.Send.Liquidity
use pump_swap_sdk.Client.Send.Calls.{
  Call, simulate_sell, simulate_buy, simulate_buy_exact_quote_in, create_wsol_pool,
  create_wsol_pool_with_options, withdraw_from_wsol_pool, deposit_into_wsol_pool, buy,
  buy_exact_quote_in, sell, claim_cashback, withdraw_creator_fees, perform, delivery_of,
}
use pump_swap_sdk.Client.Send.Signers.{AllSignedBy, OnOk, of_ok, >>=-OnOk, unsigned, Documented}
use pump_swap_sdk.Client.Send.Lists.{
  build_buy_ixs-AllSignedBy, build_buy_exact_quote_in_ixs-AllSignedBy, build_sell_ixs-AllSignedBy,
}
use pump_swap_sdk.Client.Send.Payers.{
  create_wsol_pool_ixs-AllSignedBy, deposit_ixs-AllSignedBy, withdraw_ixs-AllSignedBy,
  build_creator_fee_withdraw_ixs-AllSignedBy,
}

-- A delivered transaction is paid by the key, which is the only one that has to sign it.
pub record IsSignable (key : ℕ) (sent : Delivery × Transaction) : Type 0 where
  pub paid : sent.1.payer ≡ key
  pub signed : AllSignedBy key sent.1.instructions

submit-IsSignable :
    (node : Node) (delivery : Delivery) (payer : ℕ) (built : Result (List Instruction))
    → OnOk (AllSignedBy payer) built
    → All (IsSignable payer) (submit node delivery payer built).delivered
unfolding submit
submit-IsSignable node delivery payer (err e) h = tt
submit-IsSignable node delivery payer (ok ixs) h = elim (Result-cases node.latest_blockhash) [
  | inl (e, failed) ↦ rw failed tt
  | inr (hash, got) ↦ rw got (record { paid = refl; signed = h }, tt)
]

-- Either nothing was delivered and the result is an error, or one transaction was delivered, at the
-- latest blockhash, and the result is the node's answer to it.
abbrev pub Reports : Node → Delivery → Sent → Type 0
Reports node delivery sent =
    ((sent.delivered ≡ []) × ((e : Error) × (sent.result ≡ err e)))
    ⊎ ((tx : Transaction) × (sent.delivered ≡ (delivery, tx) ∷ [])
        × (node.latest_blockhash ≡ ok tx.recent_blockhash)
        × (sent.result ≡ node.deliver delivery tx))

submit-Reports :
    (node : Node) (delivery : Delivery) (payer : ℕ) (built : Result (List Instruction))
    → Reports node delivery (submit node delivery payer built)
unfolding submit
submit-Reports node delivery payer (err e) = inl (refl, (e, refl))
submit-Reports node delivery payer (ok ixs) = elim (Result-cases node.latest_blockhash) [
  | inl (e, failed) ↦ inl (rw (failed, submit) refl, (e, rw (failed, submit) refl))
  | inr (hash, got) ↦ inr (
    record { instructions = ixs; payer = payer; recent_blockhash = hash },
    rw (got, submit) refl,
    got,
    rw (got, submit) refl,
  )
]

module _ ⦃chain : Solana⦄ where
  budgeted :
      (limit unit_price payer : ℕ) (built : Result (List Instruction)) (doc : Documented)
      → OnOk (AllSignedBy payer) built
      → OnOk (AllSignedBy payer) (built >>= λ ixs. ok (compute_budget limit unit_price ++ ixs))
  budgeted limit unit_price payer built doc h = >>=-OnOk _ built _ λ ixs e. (
    unsigned payer _ (doc.limited limit),
    (unsigned payer _ (doc.priced unit_price), of_ok (AllSignedBy payer) h e),
  )

module _ ⦃chain : Solana⦄ {F : Type 0} ⦃d : Float F⦄ where
  -- A call submits one list; where the libraries' builders ask for the signers that they document,
  -- only the payer has to sign it.
  record Submits (node : Node) (payer : ℕ) (call : Call F) : Type 0 where
    built : Result (List Instruction)
    submitted : perform node payer call ≡ submit node (delivery_of call) payer built
    signed : Documented → OnOk (AllSignedBy payer) built

  submits : (node : Node) (payer : ℕ) (call : Call F) → Submits node payer call
  unfolding perform Trades.simulate_sell Trades.simulate_buy Trades.simulate_buy_exact_quote_in
      Liquidity.create_wsol_pool Liquidity.create_wsol_pool_with_options
      Liquidity.withdraw_from_wsol_pool Liquidity.deposit_into_wsol_pool Trades.buy
      Trades.buy_exact_quote_in Trades.sell Trades.claim_cashback Trades.withdraw_creator_fees
      make_claim_cashback_instruction
  submits node payer (simulate_sell first second pool amount random) = record {
    built = _;
    submitted = refl;
    signed = λ doc.
        >>=-OnOk _ (price first second pool) _
          λ p e. build_sell_ixs-AllSignedBy doc _ _ p.pool payer true random;
  }
  submits node payer (simulate_buy first second pool amount random) = record {
    built = _;
    submitted = refl;
    signed = λ doc.
        >>=-OnOk _ (price first second pool) _
          λ p e. build_buy_ixs-AllSignedBy doc _ _ true p.pool payer true random;
  }
  submits node payer (simulate_buy_exact_quote_in spend least pool random) = record {
    built = _;
    submitted = refl;
    signed =
        λ doc. build_buy_exact_quote_in_ixs-AllSignedBy doc spend least true pool payer true random;
  }
  submits node payer (create_wsol_pool base quote coin_creator mint) = record {
    built = _;
    submitted = refl;
    signed = λ doc.
        create_wsol_pool_ixs-AllSignedBy doc 0 base quote coin_creator mint _ false false payer;
  }
  submits node payer
        (create_wsol_pool_with_options index base quote coin_creator mint program mayhem cashback) =
      record {
        built = _;
        submitted = refl;
        signed = λ doc.
            create_wsol_pool_ixs-AllSignedBy doc index base quote coin_creator mint program mayhem
              cashback payer;
      }
  submits node payer (withdraw_from_wsol_pool get pool mint percent base quote) = record {
    built = _;
    submitted = refl;
    signed = λ doc. withdraw_ixs-AllSignedBy doc get pool mint payer percent base quote;
  }
  submits node payer (deposit_into_wsol_pool pool lp_out base quote) = record {
    built = _;
    submitted = refl;
    signed = λ doc. deposit_ixs-AllSignedBy doc pool payer lp_out base quote;
  }
  submits node payer (buy first second amount pool random) = record {
    built = _;
    submitted = refl;
    signed = λ doc. >>=-OnOk _ (price first second pool) _ λ p e.
        budgeted 1_000_000 100_000 payer _ doc
          (build_buy_ixs-AllSignedBy doc _ _ true p.pool payer false random);
  }
  submits node payer (buy_exact_quote_in spend least pool random) = record {
    built = _;
    submitted = refl;
    signed = λ doc.
        budgeted 1_000_000 100_000 payer _ doc
          (build_buy_exact_quote_in_ixs-AllSignedBy doc spend least true pool payer false random);
  }
  submits node payer (sell first second amount pool random) = record {
    built = _;
    submitted = refl;
    signed = λ doc. >>=-OnOk _ (price first second pool) _ λ p e.
        budgeted 1_000_000 100_000 payer _ doc
          (build_sell_ixs-AllSignedBy doc _ _ p.pool payer true random);
  }
  submits node payer (claim_cashback mint program) = record {
    built = _;
    submitted = refl;
    signed = λ doc. (unsigned payer _ refl, tt);
  }
  submits node payer (withdraw_creator_fees get_account get mint) = record {
    built = _;
    submitted = refl;
    signed = λ doc.
        budgeted 500_000 50_000 payer _ doc
          (build_creator_fee_withdraw_ixs-AllSignedBy get_account get payer mint);
  }

  -- Where the libraries' builders ask for the signers that they document: the payer of a call is the
  -- payer of every transaction that it delivers, and the only key that has to sign one.
  pub perform-IsSignable :
      (doc : Documented) (node : Node) (payer : ℕ) (call : Call F)
      → All (IsSignable payer) (perform node payer call).delivered
  perform-IsSignable doc node payer call =
      let s = submits node payer call in
      rw s.submitted (submit-IsSignable node (delivery_of call) payer s.built (s.signed doc))

  -- Every call either delivers nothing and returns an error, or delivers one transaction, simulated
  -- where the call is a simulation and sent where it is not, at the latest blockhash, and returns the
  -- node's answer to it.
  pub perform-Reports :
      (node : Node) (payer : ℕ) (call : Call F)
      → Reports node (delivery_of call) (perform node payer call)
  perform-Reports node payer call =
      let s = submits node payer call in
      rw s.submitted (submit-Reports node (delivery_of call) payer s.built)
