-- ===== src/Examples/Simulations/Flow.antt =====
-- What the two legs of examples/sim_trade_flow.rs trade.
use pump_swap_sdk.Prelude.{
  ℕ, ◌+◌, ◌*◌, ◌%◌, ◌^◌, ◌≤◌, ◌<◌, ◌≡◌, refl, true, false, List, [], ◌∷◌, ◌++◌, append_assoc, arith,
}
use pump_swap_sdk.Prelude.Outcome.{ok}
use pump_swap_sdk.State.Pool.{PoolInfo, TokenSide, token_side, token_mint, token_program}
use pump_swap_sdk.Math.Float.{Float}
use pump_swap_sdk.Math.Quote.{SwapQuote}
use pump_swap_sdk.Solana.{Solana, Instruction}
use pump_swap_sdk.Client.Chain.Fetch.{load_pool}
use pump_swap_sdk.Util.Pda.{create_ata_token_or_not_with_program}
use pump_swap_sdk.Client.Chain.{fetch_pool_snapshot, quote_token_buy, quote_token_sell}
use pump_swap_sdk.Client.Trade.{
  Randomness, build_token_buy_ixs, build_token_sell_ixs, add_u64, min_rent_exempt,
}
use pump_swap_sdk.Client.Trade.Sides.{Trades, other}
use pump_swap_sdk.Client.Trade.Lists.{
  Opens, ata_of, extension, opening, build_token_buy_ixs_lem, build_token_sell_ixs_lem,
}
use pump_swap_sdk.Examples.Simulations.{FlowAnswers, sol_in, tokens_to_sell, flow_legs}

-- Nine tenths of an amount, rounded down, where nine times the amount wraps as a `u64` does; and at
-- most nine tenths in any case.
abbrev pub NineTenths : ℕ → ℕ → Type 0
NineTenths amount part =
    (part * 10 ≤ amount * 9 % 2 ^ 64)
    × (amount * 9 % 2 ^ 64 < part * 10 + 10)
    × (part * 10 ≤ amount * 9)

tokens_to_sell-NineTenths : (least : ℕ) → NineTenths least (tokens_to_sell least)
unfolding tokens_to_sell
tokens_to_sell-NineTenths least = (omega arith, omega arith, omega arith)

module _ ⦃chain : Solana⦄ where
  open chain use {create_associated_token_account_idempotent}

  -- A list that ends with a swap of so much for at least so much, and the close of the WSOL account.
  pub record Swaps (p : PoolInfo) (spends : TokenSide) (spent least payer : ℕ) (random : Randomness)
      (o : Opens payer random) (ixs : List Instruction) : Type 0 where
    pub front : List Instruction
    pub swap : Instruction
    pub listed : ixs ≡ front ++ (swap ∷ o.close ∷ [])
    pub trades : Trades p spends spent least payer (ata_of p payer) o.wsol swap

  assembled :
      (front opening middle rest : List Instruction)
      → front ++ (opening ++ (middle ++ rest)) ≡ (front ++ (opening ++ middle)) ++ rest
  assembled front opening middle rest = simp (append_assoc)

  buy-Swaps :
      (sol least : ℕ) (p : PoolInfo) (payer : ℕ) (random : Randomness) (o : Opens payer random)
      → (ixs : List Instruction) × (build_token_buy_ixs sol least true p payer true random ≡ ok ixs)
        × Swaps p (other (token_side p)) sol least payer random o ixs
  buy-Swaps sol least p payer random o =
      let (swap, made, trades) = build_token_buy_ixs_lem sol least true p payer true random o in
      let creation =
        (create_associated_token_account_idempotent payer payer (token_mint p) (token_program p)
          ∷ []) in
      (
        _,
        made,
        record {
          front =
              extension p payer
              ++ (opening payer o.seed o.wsol (add_u64 min_rent_exempt sol) o.init ++ creation);
          swap = swap;
          listed =
              assembled (extension p payer)
                (opening payer o.seed o.wsol (add_u64 min_rent_exempt sol) o.init) creation
                (swap ∷ o.close ∷ []);
          trades = trades;
        },
      )

  sell-Swaps :
      (tokens least : ℕ) (p : PoolInfo) (payer : ℕ) (random : Randomness) (o : Opens payer random)
      → (ixs : List Instruction) × (build_token_sell_ixs tokens least p payer false random ≡ ok ixs)
        × Swaps p (token_side p) tokens least payer random o ixs
  sell-Swaps tokens least p payer random o =
      let (swap, made, trades) = build_token_sell_ixs_lem tokens least p payer false random o tt in
      (
        _,
        made,
        record {
          front = extension p payer ++ (opening payer o.seed o.wsol min_rent_exempt o.init ++ []);
          swap = swap;
          listed =
              assembled (extension p payer) (opening payer o.seed o.wsol min_rent_exempt o.init) []
                (swap ∷ o.close ∷ []);
          trades = trades;
        },
      )

  -- The two legs for a pool as it is now, and two quotes: a purchase with the SOL for at least the
  -- first floor, and behind the token account's creation a sale of nine tenths of that floor for at
  -- least the second.
  pub record RoundTrip (a : FlowAnswers) (user : ℕ) (bought : Opens user a.buy_random)
      (sold : Opens user a.sell_random) (pool : PoolInfo) (least least_sol : ℕ)
      (buy_ixs sell_ixs : List Instruction) : Type 0 where
    pub tokens : ℕ
    pub sale : List Instruction
    pub buys : Swaps pool (other (token_side pool)) sol_in least user a.buy_random bought buy_ixs
    pub created :
        sell_ixs
        ≡ create_associated_token_account_idempotent user user
            (token_mint pool)
            (token_program pool)
          ∷ sale
    pub sells : Swaps pool (token_side pool) tokens least_sol user a.sell_random sold sale
    pub part : NineTenths least tokens

module _ ⦃chain : Solana⦄ (F : Type 0) ⦃d : Float F⦄ where
  open chain use {create_associated_token_account_idempotent}

  -- Where the pool loads, the quotes succeed, and the fresh accounts can be derived, opened and closed:
  -- the program builds its two legs on the pool that the snapshot gives, a purchase with the SOL for at
  -- least the floor of the purchase's quote, and, behind the creation of the token account, a sale of
  -- nine tenths of that floor, rounded down, for at least the floor of the sale's quote. Nine times the
  -- floor wraps as a `u64` does; the sale is of at most nine tenths in any case.
  pub flow_legs-RoundTrip :
      (a : FlowAnswers) (pool user : ℕ) (bought : Opens user a.buy_random)
      (sold : Opens user a.sell_random) (loaded current : PoolInfo) (reserves : ℕ × ℕ)
      (quote sell_quote : SwapQuote)
      → load_pool a.loading.get_account_data a.loading.get_owners pool ≡ ok loaded
      → fetch_pool_snapshot a.snapshot loaded ≡ ok (current, reserves)
      → quote_token_buy a.buy_accounts a.buy_fees sol_in current (d.literal 1 1_000) ≡ ok quote
      → quote_token_sell a.sell_accounts a.sell_fees
          (tokens_to_sell quote.min_amount_out)
          current
          (d.literal 1 1_000)
        ≡ ok sell_quote
      → (buy_ixs : List Instruction) × (sell_ixs : List Instruction) × (flow_legs F a pool user
          ≡ ok (buy_ixs, sell_ixs))
        × RoundTrip a user bought sold current quote.min_amount_out sell_quote.min_amount_out
            buy_ixs sell_ixs
  unfolding flow_legs create_ata_token_or_not_with_program
  flow_legs-RoundTrip a pool user bought sold loaded current reserves quote sell_quote load read
        buying selling =
      let least = quote.min_amount_out in
      let tokens = tokens_to_sell least in
      let least_sol = sell_quote.min_amount_out in
      let (buy_ixs, built_buy, buys) = buy-Swaps sol_in least current user a.buy_random bought in
      let (sale, built_sell, sells) = sell-Swaps tokens least_sol current user a.sell_random sold in
      let creation =
        create_associated_token_account_idempotent user user (token_mint current)
          (token_program current) in
      (
        buy_ixs,
        creation ∷ sale,
        simp (load, read, buying, built_buy, selling, built_sell),
        record {
          tokens = tokens;
          sale = sale;
          buys = buys;
          created = refl;
          sells = sells;
          part = tokens_to_sell-NineTenths least;
        },
      )
