-- ===== src/Examples/Layout/Swaps.antt =====
-- The three swap lists of examples/verify_layout.rs, and the whole check.
use pump_swap_sdk.Prelude.Bytes.{to_le}
use pump_swap_sdk.Prelude.{ℕ, refl, Bool, false, [], ◌∷◌, ◌++◌, none, if◌then◌else◌}
use pump_swap_sdk.Constants.{pump_swap_program_id}
use pump_swap_sdk.State.Pool.{PoolInfo, sol_is_base}
use pump_swap_sdk.Math.Float.{Float}
use pump_swap_sdk.Solana.{Solana, Instruction}
use pump_swap_sdk.Instruction.Args.{
  buy_to_vec, new_buy, buy_exact_quote_in_to_vec, new_buy_exact_quote_in, sell_to_vec, new_sell,
}
use pump_swap_sdk.Instruction.Swap.{
  buy, sell, swap_accounts, make_buy_instruction, make_buy_exact_quote_in_instruction,
  make_sell_instruction,
}
use pump_swap_sdk.Instruction.Swap.Metas.{swap_accounts-IsSwapList}
use pump_swap_sdk.Client.Trade.{
  Randomness, optional, by_position, add_u64, min_rent_exempt, open_wsol_account,
  close_wsol_account, build_buy_ixs, build_buy_exact_quote_in_ixs, build_sell_ixs,
}
use pump_swap_sdk.Client.Trade.Lists.{Opens, ata_of, opening, extended_by, created_by}
use pump_swap_sdk.Instruction.Args.{
  buy_discriminator, buy_exact_quote_in_discriminator, sell_discriminator,
}
use pump_swap_sdk.Examples.Layout.Found.{Foreign, Finds, find-built}

module _ ⦃chain : Solana⦄ where
  pub build_buy_ixs-Finds :
      (foreign : Foreign) (x y : ℕ) (track : Bool) (p : PoolInfo) (payer : ℕ) (create : Bool)
      (random : Randomness) (o : Opens payer random)
      → let user = by_position p o.wsol (ata_of p payer) in
        Finds p payer user.0 user.1 buy buy_discriminator x y
          (build_buy_ixs x y track p payer create random)
  unfolding build_buy_ixs open_wsol_account close_wsol_account make_buy_instruction buy_to_vec
      new_buy to_le
  build_buy_ixs-Finds foreign x y track p payer create random o =
      let user = by_position p o.wsol (ata_of p payer) in
      let lamports = if sol_is_base p then min_rent_exempt else add_u64 min_rent_exempt y in
      let swap : Instruction = record {
        program_id = pump_swap_program_id;
        accounts = swap_accounts p payer user.0 user.1 buy random.draws;
        payload = buy_to_vec (new_buy x y track);
      } in
      let (extend, extended, listed) = extended_by p payer in
      let (ata, created, listed_ata) = created_by p payer create in
      record {
        ixs =
            optional extend
            ++ (opening payer o.seed o.wsol lamports o.init
                ++ (optional ata ++ (swap ∷ o.close ∷ [])));
        swap = swap;
        builds = simp (extended, created, o.derived, o.initialized, o.closed);
        finds =
            find-built foreign buy_discriminator p payer create random o lamports extend ata swap
              refl listed listed_ata refl;
        tagged = refl;
        listed = swap_accounts-IsSwapList p payer user.0 user.1 buy random.draws;
      }

  pub build_buy_exact_quote_in_ixs-Finds :
      (foreign : Foreign) (x y : ℕ) (track : Bool) (p : PoolInfo) (payer : ℕ) (create : Bool)
      (random : Randomness) (o : Opens payer random)
      → let user = by_position p o.wsol (ata_of p payer) in
        Finds p payer user.0 user.1 buy buy_exact_quote_in_discriminator x y
          (build_buy_exact_quote_in_ixs x y track p payer create random)
  unfolding build_buy_exact_quote_in_ixs open_wsol_account close_wsol_account
      make_buy_exact_quote_in_instruction buy_exact_quote_in_to_vec new_buy_exact_quote_in to_le
  build_buy_exact_quote_in_ixs-Finds foreign x y track p payer create random o =
      let user = by_position p o.wsol (ata_of p payer) in
      let lamports = if sol_is_base p then min_rent_exempt else add_u64 min_rent_exempt x in
      let swap : Instruction = record {
        program_id = pump_swap_program_id;
        accounts = swap_accounts p payer user.0 user.1 buy random.draws;
        payload = buy_exact_quote_in_to_vec (new_buy_exact_quote_in x y track);
      } in
      let (extend, extended, listed) = extended_by p payer in
      let (ata, created, listed_ata) = created_by p payer create in
      record {
        ixs =
            optional extend
            ++ (opening payer o.seed o.wsol lamports o.init
                ++ (optional ata ++ (swap ∷ o.close ∷ [])));
        swap = swap;
        builds = simp (extended, created, o.derived, o.initialized, o.closed);
        finds =
            find-built foreign buy_exact_quote_in_discriminator p payer create random o lamports
              extend ata swap refl listed listed_ata refl;
        tagged = refl;
        listed = swap_accounts-IsSwapList p payer user.0 user.1 buy random.draws;
      }

  pub build_sell_ixs-Finds :
      (foreign : Foreign) (x y : ℕ) (p : PoolInfo) (payer : ℕ) (random : Randomness)
      (o : Opens payer random)
      → let user = by_position p o.wsol (ata_of p payer) in
        Finds p payer user.0 user.1 sell sell_discriminator x y
          (build_sell_ixs x y p payer false random)
  unfolding build_sell_ixs open_wsol_account close_wsol_account make_sell_instruction sell_to_vec
      new_sell to_le
  build_sell_ixs-Finds foreign x y p payer random o =
      let user = by_position p o.wsol (ata_of p payer) in
      let lamports = if sol_is_base p then add_u64 min_rent_exempt x else min_rent_exempt in
      let swap : Instruction = record {
        program_id = pump_swap_program_id;
        accounts = swap_accounts p payer user.0 user.1 sell random.draws;
        payload = sell_to_vec (new_sell x y);
      } in
      let (extend, extended, listed) = extended_by p payer in
      record {
        ixs =
            optional extend
            ++ (opening payer o.seed o.wsol lamports o.init ++ (swap ∷ o.close ∷ []));
        swap = swap;
        builds = simp (extended, o.derived, o.initialized, o.closed);
        finds =
            find-built foreign sell_discriminator p payer false random o lamports extend none swap
              refl listed refl refl;
        tagged = refl;
        listed = swap_accounts-IsSwapList p payer user.0 user.1 sell random.draws;
      }
