-- ===== src/Client/Trade/Same.antt =====
-- The token builders of src/client.rs against the builders that fix the direction.
use pump_swap_sdk.Prelude.{ℕ, ◌≡◌, Bool, true, false, Bool-cases, inl, inr, if◌then◌else◌}
use pump_swap_sdk.State.Pool.{PoolInfo, sol_is_base}
use pump_swap_sdk.Util.Pda.{create_ata_token_or_not_with_program}
use pump_swap_sdk.Solana.{Solana}
use pump_swap_sdk.Client.Trade.{
  Randomness, build_buy_exact_quote_in_ixs, build_sell_ixs, build_token_buy_ixs,
  build_token_sell_ixs,
}

module _ ⦃chain : Solana⦄ where
  build_token_buy_ixs-quote :
      (sol_in least : ℕ) (track create : Bool) (p : PoolInfo) (payer : ℕ) (random : Randomness)
      → sol_is_base p ≡ false
      → build_token_buy_ixs sol_in least track p payer create random
        ≡ build_buy_exact_quote_in_ixs sol_in least track p payer create random
  unfolding build_token_buy_ixs build_buy_exact_quote_in_ixs
  build_token_buy_ixs-quote sol_in least track create p payer random side = simp (side)

  build_token_buy_ixs-base :
      (sol_in least : ℕ) (track : Bool) (p : PoolInfo) (payer : ℕ) (random : Randomness)
      → sol_is_base p ≡ true
      → build_token_buy_ixs sol_in least track p payer false random
        ≡ build_sell_ixs sol_in least p payer false random
  unfolding build_token_buy_ixs build_sell_ixs create_ata_token_or_not_with_program
  build_token_buy_ixs-base sol_in least track p payer random side = simp (side)

  build_token_sell_ixs-quote :
      (tokens_in least : ℕ) (p : PoolInfo) (payer : ℕ) (close : Bool) (random : Randomness)
      → sol_is_base p ≡ false
      → build_token_sell_ixs tokens_in least p payer close random
        ≡ build_sell_ixs tokens_in least p payer close random
  unfolding build_token_sell_ixs build_sell_ixs
  build_token_sell_ixs-quote tokens_in least p payer close random side = simp (side)

  build_token_sell_ixs-base :
      (tokens_in least : ℕ) (p : PoolInfo) (payer : ℕ) (random : Randomness)
      → sol_is_base p ≡ true
      → build_token_sell_ixs tokens_in least p payer false random
        ≡ build_buy_exact_quote_in_ixs tokens_in least false p payer false random
  unfolding build_token_sell_ixs build_buy_exact_quote_in_ixs create_ata_token_or_not_with_program
  build_token_sell_ixs-base tokens_in least p payer random side = simp (side)

  -- Buying the token with SOL, without creating its account, is the sale of the base side where SOL
  -- is the base, and the purchase for an exact amount of the quote side where it is not.
  pub build_token_buy_ixs-eq :
      (sol_in least : ℕ) (track : Bool) (p : PoolInfo) (payer : ℕ) (random : Randomness)
      → build_token_buy_ixs sol_in least track p payer false random ≡ (
          if sol_is_base p
          then build_sell_ixs sol_in least p payer false random
          else build_buy_exact_quote_in_ixs sol_in least track p payer false random)
  build_token_buy_ixs-eq sol_in least track p payer random = elim (Bool-cases (sol_is_base p)) [
    | inl side ↦ simp (side) (build_token_buy_ixs-base sol_in least track p payer random side)
    | inr side ↦
        simp (side) (build_token_buy_ixs-quote sol_in least track false p payer random side)
  ]

  -- Selling the token for SOL, without closing its account, is the purchase for an exact amount of
  -- the quote side, with no volume tracked, where SOL is the base, and the sale of the base side
  -- where it is not.
  pub build_token_sell_ixs-eq :
      (tokens_in least : ℕ) (p : PoolInfo) (payer : ℕ) (random : Randomness)
      → build_token_sell_ixs tokens_in least p payer false random ≡ (
          if sol_is_base p
          then build_buy_exact_quote_in_ixs tokens_in least false p payer false random
          else build_sell_ixs tokens_in least p payer false random)
  build_token_sell_ixs-eq tokens_in least p payer random = elim (Bool-cases (sol_is_base p)) [
    | inl side ↦ simp (side) (build_token_sell_ixs-base tokens_in least p payer random side)
    | inr side ↦ simp (side) (build_token_sell_ixs-quote tokens_in least p payer false random side)
  ]
