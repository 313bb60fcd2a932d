-- ===== src/Examples/Runner/Reserve.antt =====
-- What examples/creator_fees_runner.rs leaves in the admin's wallet, and who signs.
use pump_swap_sdk.Prelude.{
  ℕ, ◌+◌, ◌<◌, ◌≤◌, ◌≡◌, refl, false, Bool-cases, ◌⊎◌, inl, inr, List, [], ◌∷◌, ◌++◌, append-nil,
  leb, ◌==◌, All, IsU64, arith,
}
use pump_swap_sdk.Prelude.Outcome.{ok, err, Error, Result-cases}
use pump_swap_sdk.Math.Float.{Float}
use pump_swap_sdk.Solana.{Solana}
use pump_swap_sdk.Client.Send.{Node, Sent, Delivery, Transaction, send, submit}
use pump_swap_sdk.Client.Send.Signers.{Documented, All-append}
use pump_swap_sdk.Client.Send.Calls.{Call, withdraw_creator_fees, perform}
use pump_swap_sdk.Client.Send.Delivered.{IsSignable, perform-IsSignable}
use pump_swap_sdk.Examples.Runner.{
  Settings, Answers, surplus, after, sweep, claimable, claim, claim_and_sweep, fee_estimate,
}

-- The surplus is what is above the reserve and the fee.
surplus_lem :
    (balance reserve : ℕ)
    → IsU64 balance
    → ((surplus balance reserve ≡ 0) × (balance ≤ reserve + fee_estimate))
      ⊎ ((0 < surplus balance reserve)
          × (surplus balance reserve + reserve + fee_estimate ≡ balance))
unfolding surplus
surplus_lem balance reserve h = ground arith

module _ ⦃chain : Solana⦄ where
  open chain use {transfer}

  -- The transaction that sends lamports from the admin to the target.
  abbrev pub transferring : Settings → ℕ → ℕ → Delivery × Transaction
  transferring s amount hash = (
    send,
    record {
      instructions = transfer s.admin s.target amount ∷ [];
      payer = s.admin;
      recent_blockhash = hash;
    },
  )

  -- After what is delivered already: no transfer, with an error or for want of a surplus, or the
  -- transfer of all that is above the reserve and the fee.
  abbrev pub Sweeps : Settings → ℕ → List (Delivery × Transaction) → Sent → Type 0
  Sweeps s balance earlier run =
      ((run.delivered ≡ earlier)
        × (((e : Error) × (run.result ≡ err e)) ⊎ (balance ≤ s.reserve_lamports + fee_estimate)))
      ⊎ ((amount : ℕ) × (hash : ℕ) × (0 < amount)
          × (amount + s.reserve_lamports + fee_estimate ≡ balance)
          × (run.delivered ≡ earlier ++ (transferring s amount hash ∷ [])))

  sweep-Sweeps :
      (node : Node) (s : Settings) (balance : ℕ) (earlier : List (Delivery × Transaction))
      → IsU64 balance
      → Sweeps s balance earlier (after earlier (sweep node s balance))
  unfolding sweep submit
  sweep-Sweeps node s balance earlier h = elim (surplus_lem balance s.reserve_lamports h) [
    | inl (nothing, low) ↦ rw nothing (inl (append-nil earlier, inr low))
    | inr (there, whole) ↦
        let positive : (surplus balance s.reserve_lamports == 0) ≡ false = ground arith in
        elim (Result-cases node.latest_blockhash) [
          | inl (e, failed) ↦ rw (positive, failed) (inl (append-nil earlier, inl (e, refl)))
          | inr (hash, got) ↦
              rw (positive, got)
                (inr (surplus balance s.reserve_lamports, hash, there, whole, refl))
        ]
  ]

  module _ {F : Type 0} where
    -- What the claim delivers, none where the vault cannot be read.
    abbrev pub claimed : Answers F → Settings → List (Delivery × Transaction)
    claimed a s = elim (claimable a s) [ err e ↦ [] | ok lamports ↦ (claim a s lamports).delivered ]

    -- For a `u64` balance of the admin after the claim: behind the claim the program either makes no
    -- transfer, since a call failed or the balance is at most the reserve and the fee, or it sends
    -- exactly what is above the reserve and the fee, which is not zero, to the target.
    pub claim_and_sweep-Sweeps :
        (a : Answers F) (s : Settings) (balance : ℕ)
        → IsU64 balance
        → a.admin_balance s.admin ≡ ok balance
        → Sweeps s balance (claimed a s) (claim_and_sweep a s)
    unfolding claim_and_sweep
    claim_and_sweep-Sweeps a s balance h read = elim (Result-cases (claimable a s)) [
      | inl (e, failed) ↦ rw (failed, claim_and_sweep, claimed) (inl (refl, inl (e, refl)))
      | inr (lamports, found) ↦ elim (Result-cases (claim a s lamports).result) [
        | inl (e, failed) ↦
            rw (found, failed, claim_and_sweep, claimed) (inl (refl, inl (e, failed)))
        | inr (done, claimed_well) ↦
            rw (found, claimed_well, read, claim_and_sweep, claimed)
              (sweep-Sweeps a.sweeping s balance (claim a s lamports).delivered h)
      ]
    ]

  sweep-IsSignable :
      (doc : Documented) (node : Node) (s : Settings) (balance : ℕ)
      → All (IsSignable s.admin) (sweep node s balance).delivered
  unfolding sweep submit
  sweep-IsSignable doc node s balance =
      elim (Bool-cases (surplus balance s.reserve_lamports == 0)) [
        | inl nothing ↦ rw nothing tt
        | inr there ↦ elim (Result-cases node.latest_blockhash) [
          | inl (e, failed) ↦ rw (there, failed) tt
          | inr (hash, got) ↦
              rw (there, got)
                (record { paid = refl; signed = (doc.transferred s.admin s.target _, tt) }, tt)
        ]
      ]

  module _ {F : Type 0} ⦃d : Float F⦄ where
    claim-IsSignable :
        (doc : Documented) (a : Answers F) (s : Settings) (lamports : ℕ)
        → All (IsSignable s.admin) (claim a s lamports).delivered
    unfolding claim perform
    claim-IsSignable doc a s lamports =
        let call : Call F =
          withdraw_creator_fees a.get_account a.get_multiple_accounts s.token_mint in
        elim (Bool-cases (leb s.min_claimable_lamports lamports)) [
          | inl enough ↦ rw enough (perform-IsSignable doc a.claiming s.admin call)
          | inr short ↦ rw short tt
        ]

    -- Where the builders of the libraries ask for the signers that they document, the admin pays for
    -- every transaction of the program, and is the only key that has to sign it.
    pub claim_and_sweep-IsSignable :
        (doc : Documented) (a : Answers F) (s : Settings)
        → All (IsSignable s.admin) (claim_and_sweep a s).delivered
    unfolding claim_and_sweep
    claim_and_sweep-IsSignable doc a s = elim (Result-cases (claimable a s)) [
      | inl (e, failed) ↦ rw (failed, claim_and_sweep) tt
      | inr (lamports, found) ↦
          let one = claim-IsSignable doc a s lamports in
          elim (Result-cases (claim a s lamports).result) [
            | inl (e, failed) ↦ rw (found, failed, claim_and_sweep) one
            | inr (done, well) ↦ elim (Result-cases (a.admin_balance s.admin)) [
              | inl (e, failed) ↦ rw (found, well, failed, claim_and_sweep) one
              | inr (balance, read) ↦
                  rw (found, well, read, claim_and_sweep)
                    (All-append (IsSignable s.admin) (claim a s lamports).delivered _ one
                      (sweep-IsSignable doc a.sweeping s balance))
            ]
          ]
    ]
