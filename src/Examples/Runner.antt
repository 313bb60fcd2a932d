-- ===== src/Examples/Runner.antt =====
-- examples/creator_fees_runner.rs: pay a coin's shareholders out of its vault, then sweep what the
-- admin's wallet holds above a reserve.
pub mod Reserve
use pump_swap_sdk.Prelude.{
  ℕ, ◌+◌, ◌-◌, ◌/◌, ◌<◌, ◌≡◌, refl, ap, ◌∙◌, sym, true, false, Bool-cases, ◌⊎◌, inl, inr, List, [],
  ◌∷◌, ◌++◌, append-nil, Option, none, some, leb, ltb, ◌==◌, ==_iff, if◌then◌else◌, All, IsU64,
  saturating_add, arith,
}
use pump_swap_sdk.Prelude.Outcome.{Result, ok, err, ◌>>=◌, ok_or, panicked, Result-cases}
use pump_swap_sdk.Constants.{wrapped_sol_mint}
use pump_swap_sdk.Math.Float.{Float}
use pump_swap_sdk.Solana.{Solana}
use pump_swap_sdk.Util.Pda.{find_coin_creator_vault_authority, sharing_config_pda}
use pump_swap_sdk.Client.Chain.{Found, GetAccounts}
use pump_swap_sdk.Client.Balance.{BalanceAnswer, get_token_balance}
use pump_swap_sdk.Client.Send.{Node, Sent, Delivery, Transaction, send, submit}
use pump_swap_sdk.Client.Send.Trades.{withdraw_creator_fees}
use pump_swap_sdk.Examples.Settings.{
  Variable, Parsers, required, required_key, lamports_or, lamports_per_sol,
}

pub record Environment : Type 0 where
  pub rpc_url : Variable
  pub admin_keypair : Variable
  pub token_mint : Variable
  pub target : Variable
  pub min_claimable_sol : Variable
  pub reserve_sol : Variable

pub record Settings : Type 0 where
  pub admin : ℕ
  pub token_mint : ℕ
  pub target : ℕ
  pub min_claimable_lamports : ℕ
  pub reserve_lamports : ℕ

unfoldable pub from_environment : {F K : Type 0} → Parsers F K → Environment → Result Settings
from_environment parsers env = do
  rpc_url ← required env.rpc_url
  secret ← required env.admin_keypair
  admin ← ok_or panicked (parsers.from_base58_string secret)
  token_mint ← required_key parsers env.token_mint
  target ← required_key parsers env.target
  min_claimable_lamports ← lamports_or parsers (lamports_per_sol / 2) env.min_claimable_sol
  reserve_lamports ← lamports_or parsers (lamports_per_sol / 100) env.reserve_sol
  ok (record {
    admin = parsers.pubkey_of admin;
    token_mint = token_mint;
    target = target;
    min_claimable_lamports = min_claimable_lamports;
    reserve_lamports = reserve_lamports;
  })

-- What the node answers, in the order of the calls.
pub record Answers (F : Type 0) : Type 0 where
  pub vault_balance : ℕ → BalanceAnswer F
  pub get_account : ℕ → Result Found
  pub get_multiple_accounts : GetAccounts
  pub claiming : Node
  pub admin_balance : ℕ → Result ℕ
  pub sweeping : Node

abbrev pub fee_estimate : ℕ
fee_estimate = 5_000

-- `saturating_sub` of the reserve and the fee.
unfoldable pub surplus : ℕ → ℕ → ℕ
surplus balance reserve = balance - saturating_add reserve fee_estimate

abbrev pub unwrap_or_zero : Option ℕ → ℕ
unwrap_or_zero none = 0
unwrap_or_zero (some n) = n

-- A run that stops with a result, after what it has delivered.
abbrev pub after : List (Delivery × Transaction) → Sent → Sent
after delivered later = record { delivered = delivered ++ later.delivered; result = later.result }

module _ ⦃chain : Solana⦄ where
  open chain use {spl_token_id, transfer}

  unfoldable pub sweep : Node → Settings → ℕ → Sent
  unfolding surplus
  sweep node s balance =
      let amount = surplus balance s.reserve_lamports in
      if amount == 0
      then record { delivered = []; result = ok tt }
      else submit node send s.admin (ok (transfer s.admin s.target amount ∷ []))

  module _ {F : Type 0} where
    -- The lamports in the vault of the coin.
    unfoldable pub claimable : Answers F → Settings → Result ℕ
    claimable a s = do
      found ←
          get_token_balance a.vault_balance
            (find_coin_creator_vault_authority (sharing_config_pda s.token_mint)) wrapped_sol_mint
            spl_token_id
      ok (unwrap_or_zero found)

    -- The claim, where enough waits in the vault.
    unfoldable pub claim : Answers F → Settings → ℕ → Sent
    claim a s lamports =
        if leb s.min_claimable_lamports lamports
        then withdraw_creator_fees a.claiming a.get_account a.get_multiple_accounts s.admin
            s.token_mint
        else record { delivered = []; result = ok tt }

    unfoldable pub claim_and_sweep : Answers F → Settings → Sent
    unfolding claimable claim sweep
    claim_and_sweep a s = elim (claimable a s) [
      | err e ↦ record { delivered = []; result = err e }
      | ok lamports ↦
          let claimed = claim a s lamports in
          elim claimed.result [
            | err e ↦ claimed
            | ok done ↦ elim (a.admin_balance s.admin) [
              | err e ↦ record { delivered = claimed.delivered; result = err e }
              | ok balance ↦ after claimed.delivered (sweep a.sweeping s balance)
            ]
          ]
    ]

    -- `main`
    unfoldable pub creator_fees_runner : {K : Type 0} → Parsers F K → Answers F → Environment → Sent
    unfolding from_environment claim_and_sweep
    creator_fees_runner parsers a env = elim (from_environment parsers env) [
      | err e ↦ record { delivered = []; result = err e }
      | ok s ↦ claim_and_sweep a s
    ]
