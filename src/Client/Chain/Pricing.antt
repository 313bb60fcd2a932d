-- ===== src/Client/Chain/Pricing.antt =====
-- When src/client.rs gives a quote, and from what it computes it.
use pump_swap_sdk.Prelude.{ℕ, ◌≡◌, refl, true, Bool-cases, inl, inr}
use pump_swap_sdk.Prelude.Outcome.{Result, Error, ok, err, >>=-eq-ok}
use pump_swap_sdk.State.Pool.{PoolInfo}
use pump_swap_sdk.State.Fees.{Fees, FeeConfig}
use pump_swap_sdk.State.Fees
use pump_swap_sdk.Math.Float.{Float}
use pump_swap_sdk.Math.Quote.{SwapQuote, can_quote_fees, token_buy_quote}
use pump_swap_sdk.Solana.{Solana}
use pump_swap_sdk.Util.Pda.{fee_config_pda}
use pump_swap_sdk.Client.Chain.{
  GetAccounts, account_at, fees_from_state, fetch_pool_snapshot, fetch_pool_fees, mint_supply,
  quote_token_buy,
}

err-ok {ℓ} : {A : Type ℓ} {e : Error} {a : A} (m : Result A) → m ≡ err e → ¬ (m ≡ ok a)
err-ok m failed h = cc

module _ ⦃chain : Solana⦄ where
  fetch_pool_fees-ok :
      (get : GetAccounts) (pool : PoolInfo) (base quote : ℕ) (fees : Fees)
      → fetch_pool_fees get pool base quote ≡ ok fees
      → (config : FeeConfig) × (supply : ℕ) × (can_quote_fees pool ≡ true)
        × (fees ≡ fees_from_state config pool supply base quote)
  unfolding fetch_pool_fees
  fetch_pool_fees-ok get pool base quote fees h = elim (Bool-cases (can_quote_fees pool)) [
    | inl can ↦
        let (accounts, got, r1) = >>=-eq-ok (get _) _ (simp (can) at h) in
        let (fee_bytes, found, r2) = >>=-eq-ok (account_at accounts 0 fee_config_pda) _ r1 in
        let (config, decoded, r3) = >>=-eq-ok (Fees.from_account_data fee_bytes) _ r2 in
        let (mint_bytes, there, r4) = >>=-eq-ok (account_at accounts 1 pool.base_mint) _ r3 in
        let (supply, read, r5) = >>=-eq-ok (mint_supply mint_bytes) _ r4 in
        (config, supply, can, cc)
    | inr cannot ↦ absurd (err-ok (err _) refl (simp (cannot) at h))
  ]

module _ ⦃chain : Solana⦄ {F : Type 0} ⦃d : Float F⦄ where
  -- A quote that the client gives is computed from the pool and the reserves of one answer, and only
  -- for a pool whose fees the ladder covers, with the fees of that pool at those reserves.
  pub quote_token_buy_lem :
      (first second : GetAccounts) (sol_in : ℕ) (pool : PoolInfo) (slippage : F) (q : SwapQuote)
      → quote_token_buy first second sol_in pool slippage ≡ ok q
      → (current : PoolInfo) × (base : ℕ) × (quote : ℕ) × (config : FeeConfig) × (supply : ℕ)
        × (fetch_pool_snapshot first pool ≡ ok (current, (base, quote)))
        × (can_quote_fees current ≡ true)
        × (q
            ≡ token_buy_quote sol_in
                (base, quote)
                current
                (fees_from_state config current supply base quote)
                slippage)
  unfolding quote_token_buy
  quote_token_buy_lem first second sol_in pool slippage q h =
      let ((current, (base, quote)), seen, r1) = >>=-eq-ok (fetch_pool_snapshot first pool) _ h in
      let (fees, fetched, r2) = >>=-eq-ok (fetch_pool_fees second current base quote) _ r1 in
      let (config, supply, can, same) = fetch_pool_fees-ok second current base quote fees fetched in
      (current, base, quote, config, supply, seen, can, cc)
