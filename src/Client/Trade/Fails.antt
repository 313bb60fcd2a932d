-- ===== src/Client/Trade/Fails.antt =====
-- When `build_token_sell_ixs` of src/client.rs gives a list, and when an error.
use pump_swap_sdk.Prelude.{
  ℕ, ◌≡◌, ◌↔◌, Bool, true, false, List, [], ◌∷◌, ◌++◌, Option, none, some, if◌then◌else◌,
}
use pump_swap_sdk.Prelude.Outcome.{Error, ok, ◌>>=◌, >>=-eq-ok, ok_or, program_error}
use pump_swap_sdk.Constants.{wrapped_sol_mint}
use pump_swap_sdk.State.Pool.{PoolInfo, sol_is_base, token_program}
use pump_swap_sdk.Solana.{Solana, Instruction}
use pump_swap_sdk.Util.Pda.{gen_pubkey_with_seed}
use pump_swap_sdk.Instruction.Swap.{make_buy_exact_quote_in_instruction, make_sell_instruction}
use pump_swap_sdk.Client.Trade.{
  Randomness, optional, min_rent_exempt, open_wsol_account, close_wsol_account,
  build_token_sell_ixs,
}
use pump_swap_sdk.Client.Trade.Lists.{Opens, Closes, ata_of, extended_by, build_token_sell_ixs_lem}

some_of {ℓ} : {A : Type ℓ} (e : Error) (o : Option A) {a : A} → ok_or e o ≡ ok a → o ≡ some a
some_of e none h = absurd (cc)
some_of e (some b) h = cc

module _ ⦃chain : Solana⦄ where
  open chain use {spl_token_id, initialize_account, close_account}

  closes_of :
      (p : PoolInfo) (payer : ℕ) (close : Bool) (built : List Instruction) {ixs : List Instruction}
      → (if close
          then (ok_or program_error (close_account (token_program p) (ata_of p payer) payer payer)
              >>= λ closing. ok (built ++ (closing ∷ [])))
          else ok built)
        ≡ ok ixs
      → Closes p payer close
  closes_of p payer true built h =
      let (closing, made, _) =
        >>=-eq-ok
          (ok_or program_error (close_account (token_program p) (ata_of p payer) payer payer)) _
          h in
      (closing, some_of program_error _ made)
  closes_of p payer false built h = tt

  -- A sale of the token for SOL has a list exactly when the fresh account can be derived, opened and
  -- closed and, where it is to close the token account, spl_token makes that instruction; whatever the
  -- pool, its side and its length.
  pub build_token_sell_ixs_iff :
      (tokens_in least : ℕ) (p : PoolInfo) (payer : ℕ) (close : Bool) (random : Randomness)
      → ((ixs : List Instruction) × (build_token_sell_ixs tokens_in least p payer close random
            ≡ ok ixs))
        ↔ (Opens payer random × Closes p payer close)
  unfolding build_token_sell_ixs open_wsol_account close_wsol_account
  build_token_sell_ixs_iff tokens_in least p payer close random = (
    λ built.
        let (ixs, made) = built in
        let (extend, extended, listed) = extended_by p payer in
        let (fresh, derived, rest) =
          >>=-eq-ok (gen_pubkey_with_seed random.seed_bytes payer) _ (simp (extended) at made) in
        let (opening, opened, rest) =
          >>=-eq-ok (open_wsol_account payer fresh.0 fresh.1 min_rent_exempt) _ rest in
        let (init, initialized, _) =
          >>=-eq-ok
            (ok_or program_error (initialize_account spl_token_id fresh.0 wrapped_sol_mint payer)) _
            opened in
        let (swap, chosen, rest) =
          >>=-eq-ok
            (if sol_is_base p
              then make_buy_exact_quote_in_instruction tokens_in least false p payer fresh.0
                  (ata_of p payer) random.draws
              else make_sell_instruction tokens_in least p payer (ata_of p payer) fresh.0
                  random.draws)
            _ rest in
        let (closing, closed, last) = >>=-eq-ok (close_wsol_account fresh.0 payer) _ rest in
        (
          record {
            wsol = fresh.0;
            seed = fresh.1;
            init = init;
            close = closing;
            derived = derived;
            initialized = some_of program_error _ initialized;
            closed = some_of program_error _ closed;
          },
          closes_of p payer close (optional extend ++ (opening ++ (swap ∷ closing ∷ []))) last,
        ),
    λ given.
        let (o, closes) = given in
        let (swap, made, trades) =
          build_token_sell_ixs_lem tokens_in least p payer close random o closes in
        (_, made),
  )
