-- ===== src/Client/Trade/Lists.antt =====
-- The instruction lists that the token builders of src/client.rs give.
use pump_swap_sdk.Prelude.{
  ℕ, ◌≡◌, refl, Bool, true, false, Bool-cases, inl, inr, List, [], ◌∷◌, ◌++◌, append_assoc, Option,
  none, some, ltb, if◌then◌else◌,
}
use pump_swap_sdk.Prelude.Outcome.{ok, err}
use pump_swap_sdk.Constants.{wrapped_sol_mint}
use pump_swap_sdk.State.Pool.{PoolInfo, token_side, token_mint, token_program}
use pump_swap_sdk.Solana.{Solana, Instruction}
use pump_swap_sdk.Util.Pda.{gen_pubkey_with_seed, create_ata_token_or_not_with_program}
use pump_swap_sdk.Instruction.Volume.{make_extend_account_instruction}
use pump_swap_sdk.Client.Trade.{
  Randomness, optional, add_u64, min_rent_exempt, maybe_extend_pool_ix, open_wsol_account,
  close_wsol_account, build_token_buy_ixs, build_token_sell_ixs,
}
use pump_swap_sdk.Client.Trade.Sides.{Trades, other, chosen_to_buy, chosen_to_sell}

module _ ⦃chain : Solana⦄ where
  open chain use {
    spl_token_id, token_account_len, initialize_account, close_account, create_account_with_seed,
    create_associated_token_account_idempotent, get_associated_token_address_with_program_id,
  }

  -- The accounts and instructions that the random generator and spl_token give, when they succeed.
  pub record Opens (payer : ℕ) (random : Randomness) : Type 0 where
    pub wsol : ℕ
    pub seed : List ℕ
    pub init : Instruction
    pub close : Instruction
    pub derived : gen_pubkey_with_seed random.seed_bytes payer ≡ ok (wsol, seed)
    pub initialized : initialize_account spl_token_id wsol wrapped_sol_mint payer ≡ some init
    pub closed : close_account spl_token_id wsol payer payer ≡ some close

  abbrev pub ata_of : PoolInfo → ℕ → ℕ
  ata_of p payer =
      get_associated_token_address_with_program_id payer (token_mint p) (token_program p)

  -- `extend_account`, for a pool account shorter than 301 bytes.
  abbrev pub extension : PoolInfo → ℕ → List Instruction
  extension p payer =
      if ltb p.pool_account_data_len 301
      then elim (make_extend_account_instruction p.pool payer) [ err e ↦ [] | ok ix ↦ ix ∷ [] ]
      else []

  abbrev pub opening : ℕ → List ℕ → ℕ → ℕ → Instruction → List Instruction
  opening payer seed wsol lamports init =
      create_account_with_seed payer wsol payer seed lamports token_account_len spl_token_id
      ∷ init
      ∷ []

  extend_of :
      (p : PoolInfo) (payer : ℕ)
      → (ix : Instruction) × (make_extend_account_instruction p.pool payer ≡ ok ix)
  unfolding make_extend_account_instruction
  extend_of p payer = (_, refl)

  pub extended_by :
      (p : PoolInfo) (payer : ℕ)
      → (extend : Option Instruction) × (maybe_extend_pool_ix p payer ≡ ok extend)
        × (optional extend ≡ extension p payer)
  unfolding maybe_extend_pool_ix
  extended_by p payer =
      let (ix, made) = extend_of p payer in
      elim (Bool-cases (ltb p.pool_account_data_len 301)) [
        | inl short ↦ (some ix, simp (short, made), simp (short, made))
        | inr full ↦ (none, simp (full), simp (full))
      ]

  pub created_by :
      (p : PoolInfo) (payer : ℕ) (create : Bool)
      → (ata : Option Instruction) × (create_ata_token_or_not_with_program payer
            (token_mint p)
            payer
            (token_program p)
            create
          ≡ (ata_of p payer, ata))
        × (optional ata ≡ (
            if create
            then create_associated_token_account_idempotent payer payer
                (token_mint p)
                (token_program p)
              ∷ []
            else []))
  unfolding create_ata_token_or_not_with_program
  created_by p payer true = (_, refl, refl)
  created_by p payer false = (_, refl, refl)

  -- Where the fresh account can be derived, opened and closed: buying the token with SOL funds a fresh WSOL account with the rent and the SOL to spend, extends
  -- a short pool account first, creates the token account if asked, swaps and closes the WSOL
  -- account; the swap spends exactly the SOL for at least the tokens asked for, with the WSOL account
  -- on the wrapped SOL's side of the pool and the token account on the token's.
  pub build_token_buy_ixs_lem :
      (sol_in least : ℕ) (track : Bool) (p : PoolInfo) (payer : ℕ) (create : Bool)
      (random : Randomness) (o : Opens payer random)
      → (swap : Instruction) × (build_token_buy_ixs sol_in least track p payer create random
          ≡ ok (
              extension p payer
              ++ (opening payer o.seed o.wsol (add_u64 min_rent_exempt sol_in) o.init
                  ++ ((if create
                        then create_associated_token_account_idempotent payer payer
                            (token_mint p)
                            (token_program p)
                          ∷ []
                        else [])
                      ++ (swap ∷ o.close ∷ [])))))
        × Trades p (other (token_side p)) sol_in least payer (ata_of p payer) o.wsol swap
  unfolding build_token_buy_ixs open_wsol_account close_wsol_account
  build_token_buy_ixs_lem sol_in least track p payer create random o =
      let (swap, made, trades) =
        chosen_to_buy p sol_in least payer o.wsol (ata_of p payer) track random.draws in
      let (extend, extended, listed) = extended_by p payer in
      let (ata, created, listed_ata) = created_by p payer create in
      (
        swap,
        simp (made, extended, created, listed, listed_ata, o.derived, o.initialized, o.closed),
        trades,
      )

  -- Where a sale is to close the token account, spl_token makes the instruction that closes it.
  abbrev pub Closes : PoolInfo → ℕ → Bool → Type 0
  Closes p payer true =
      (closing : Instruction) × (close_account (token_program p) (ata_of p payer) payer payer
        ≡ some closing)
  Closes p payer false = Unit {0}

  abbrev pub closing_of :
      (p : PoolInfo) (payer : ℕ) (close : Bool) → Closes p payer close → List Instruction
  closing_of p payer true closes = closes.0 ∷ []
  closing_of p payer false closes = []

  -- Where the fresh account can be derived, opened and closed, and the token account closed if that is
  -- asked for: selling the token for SOL funds the fresh WSOL account with the rent alone, and closes
  -- the token account at the end if asked; the swap spends exactly the tokens for at least the SOL
  -- asked for; the rest is as for buying.
  pub build_token_sell_ixs_lem :
      (tokens_in least : ℕ) (p : PoolInfo) (payer : ℕ) (close : Bool) (random : Randomness)
      (o : Opens payer random) (closes : Closes p payer close)
      → (swap : Instruction) × (build_token_sell_ixs tokens_in least p payer close random
          ≡ ok (
              extension p payer
              ++ (opening payer o.seed o.wsol min_rent_exempt o.init
                  ++ (swap ∷ o.close ∷ closing_of p payer close closes))))
        × Trades p (token_side p) tokens_in least payer (ata_of p payer) o.wsol swap
  unfolding build_token_sell_ixs open_wsol_account close_wsol_account
  build_token_sell_ixs_lem tokens_in least p payer true random o (closing, closes) =
      let (swap, made, trades) =
        chosen_to_sell p tokens_in least payer o.wsol (ata_of p payer) random.draws in
      let (extend, extended, listed) = extended_by p payer in
      (
        swap,
        simp (made, extended, listed, append_assoc, o.derived, o.initialized, o.closed, closes),
        trades,
      )
  build_token_sell_ixs_lem tokens_in least p payer false random o closes =
      let (swap, made, trades) =
        chosen_to_sell p tokens_in least payer o.wsol (ata_of p payer) random.draws in
      let (extend, extended, listed) = extended_by p payer in
      (swap, simp (made, extended, listed, o.derived, o.initialized, o.closed), trades)
