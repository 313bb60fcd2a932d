-- ===== src/Client/Send/Lists.antt =====
-- The signers of the lists that src/client.rs builds for a trade.
use pump_swap_sdk.Prelude.{
  ℕ, Bool, true, false, Option-cases, inl, inr, List, [], ◌∷◌, ◌++◌, if◌then◌else◌,
}
use pump_swap_sdk.Prelude.Outcome.{ok, ◌>>=◌, ok_or, program_error}
use pump_swap_sdk.State.Pool.{PoolInfo, sol_is_base, token_mint, token_program}
use pump_swap_sdk.Solana.{Solana, Instruction}
use pump_swap_sdk.Instruction.Swap.{
  make_buy_instruction, make_buy_exact_quote_in_instruction, make_sell_instruction,
}
use pump_swap_sdk.Util.Pda.{gen_pubkey_with_seed, create_ata_token_or_not_with_program}
use pump_swap_sdk.Client.Trade.{
  Randomness, optional, by_position, add_u64, min_rent_exempt, maybe_extend_pool_ix,
  open_wsol_account, close_wsol_account, build_buy_ixs, build_buy_exact_quote_in_ixs,
  build_sell_ixs,
}
use pump_swap_sdk.Client.Send.Signers.{
  SignedBy, AllSignedBy, OnOk, of_ok, >>=-OnOk, All-append, Documented, buy-SignedBy,
  buy_exact_quote_in-SignedBy, sell-SignedBy, extend-AllSignedBy, open-AllSignedBy, close-SignedBy,
  ata-AllSignedBy,
}

module _ ⦃chain : Solana⦄ (doc : Documented) where
  open chain use {close_account, get_associated_token_address_with_program_id}

  -- The list of a purchase from its parts.
  assembled :
      (payer : ℕ) (extend opening ata : List Instruction) (swap close : Instruction)
      → AllSignedBy payer extend
      → AllSignedBy payer opening
      → AllSignedBy payer ata
      → SignedBy payer swap
      → SignedBy payer close
      → AllSignedBy payer (extend ++ (opening ++ (ata ++ (swap ∷ close ∷ []))))
  assembled payer extend opening ata swap close h1 h2 h3 h4 h5 =
      let P = SignedBy payer in
      All-append P extend _ h1 (All-append P opening _ h2 (All-append P ata _ h3 (h4, (h5, tt))))

  pub build_buy_ixs-AllSignedBy :
      (x y : ℕ) (track : Bool) (p : PoolInfo) (payer : ℕ) (create : Bool) (random : Randomness)
      → OnOk (AllSignedBy payer) (build_buy_ixs x y track p payer create random)
  unfolding build_buy_ixs
  build_buy_ixs-AllSignedBy x y track p payer create random =
      >>=-OnOk _ (maybe_extend_pool_ix p payer) _ λ extend e.
        >>=-OnOk _ (gen_pubkey_with_seed random.seed_bytes payer) _ λ fresh f.
          let lamports = if sol_is_base p then min_rent_exempt else add_u64 min_rent_exempt y in
          let ata =
            create_ata_token_or_not_with_program payer (token_mint p) payer (token_program p)
              create in
          let user = by_position p fresh.0 ata.0 in
          >>=-OnOk _ (open_wsol_account payer fresh.0 fresh.1 lamports) _ λ opening o.
            >>=-OnOk _ (make_buy_instruction x y track p payer user.0 user.1 random.draws) _
              λ swap s. >>=-OnOk _ (close_wsol_account fresh.0 payer) _ λ close c.
                assembled payer (optional extend) opening (optional ata.1) swap close
                  (of_ok (λ e. AllSignedBy payer (optional e)) (extend-AllSignedBy p payer) e)
                  (of_ok (AllSignedBy payer) (open-AllSignedBy doc payer fresh.0 fresh.1 lamports)
                    o)
                  (ata-AllSignedBy doc payer (token_mint p) (token_program p) create)
                  (of_ok (SignedBy payer)
                    (buy-SignedBy x y track p payer user.0 user.1 random.draws) s)
                  (of_ok (SignedBy payer) (close-SignedBy doc fresh.0 payer) c)

  pub build_buy_exact_quote_in_ixs-AllSignedBy :
      (x y : ℕ) (track : Bool) (p : PoolInfo) (payer : ℕ) (create : Bool) (random : Randomness)
      → OnOk (AllSignedBy payer) (build_buy_exact_quote_in_ixs x y track p payer create random)
  unfolding build_buy_exact_quote_in_ixs
  build_buy_exact_quote_in_ixs-AllSignedBy x y track p payer create random =
      >>=-OnOk _ (maybe_extend_pool_ix p payer) _ λ extend e.
        >>=-OnOk _ (gen_pubkey_with_seed random.seed_bytes payer) _ λ fresh f.
          let lamports = if sol_is_base p then min_rent_exempt else add_u64 min_rent_exempt x in
          let ata =
            create_ata_token_or_not_with_program payer (token_mint p) payer (token_program p)
              create in
          let user = by_position p fresh.0 ata.0 in
          >>=-OnOk _ (open_wsol_account payer fresh.0 fresh.1 lamports) _ λ opening o.
            >>=-OnOk _
              (make_buy_exact_quote_in_instruction x y track p payer user.0 user.1 random.draws) _
              λ swap s. >>=-OnOk _ (close_wsol_account fresh.0 payer) _ λ close c.
                assembled payer (optional extend) opening (optional ata.1) swap close
                  (of_ok (λ e. AllSignedBy payer (optional e)) (extend-AllSignedBy p payer) e)
                  (of_ok (AllSignedBy payer) (open-AllSignedBy doc payer fresh.0 fresh.1 lamports)
                    o)
                  (ata-AllSignedBy doc payer (token_mint p) (token_program p) create)
                  (of_ok (SignedBy payer)
                    (buy_exact_quote_in-SignedBy x y track p payer user.0 user.1 random.draws) s)
                  (of_ok (SignedBy payer) (close-SignedBy doc fresh.0 payer) c)

  -- The last step of a sale: the list, and the close of the token account if asked.
  closing-AllSignedBy :
      (closes : Bool) (payer program account : ℕ) (built : List Instruction)
      → AllSignedBy payer built
      → OnOk (AllSignedBy payer) (
          if closes
          then (ok_or program_error (close_account program account payer payer) >>= λ closing.
              ok (built ++ (closing ∷ [])))
          else ok built)
  closing-AllSignedBy false payer program account built h = h
  closing-AllSignedBy true payer program account built h =
      elim (Option-cases (close_account program account payer payer)) [
        | inl refused ↦ rw refused tt
        | inr (ix, made) ↦ rw made (
            All-append (SignedBy payer) built _ h
              (doc.closed program account payer payer ix made, tt))
      ]

  pub build_sell_ixs-AllSignedBy :
      (x y : ℕ) (p : PoolInfo) (payer : ℕ) (closes : Bool) (random : Randomness)
      → OnOk (AllSignedBy payer) (build_sell_ixs x y p payer closes random)
  unfolding build_sell_ixs
  build_sell_ixs-AllSignedBy x y p payer closes random =
      >>=-OnOk _ (maybe_extend_pool_ix p payer) _ λ extend e.
        >>=-OnOk _ (gen_pubkey_with_seed random.seed_bytes payer) _ λ fresh f.
          let lamports = if sol_is_base p then add_u64 min_rent_exempt x else min_rent_exempt in
          let ata =
            get_associated_token_address_with_program_id payer (token_mint p) (token_program p) in
          let user = by_position p fresh.0 ata in
          >>=-OnOk _ (open_wsol_account payer fresh.0 fresh.1 lamports) _ λ opening o.
            >>=-OnOk _ (make_sell_instruction x y p payer user.0 user.1 random.draws) _ λ swap s.
              >>=-OnOk _ (close_wsol_account fresh.0 payer) _ λ close c.
                closing-AllSignedBy closes payer (token_program p) ata
                  (optional extend ++ (opening ++ (swap ∷ close ∷ [])))
                  (assembled payer (optional extend) opening [] swap close
                    (of_ok (λ e. AllSignedBy payer (optional e)) (extend-AllSignedBy p payer) e)
                    (of_ok (AllSignedBy payer) (open-AllSignedBy doc payer fresh.0 fresh.1 lamports)
                      o)
                    tt
                    (of_ok (SignedBy payer) (sell-SignedBy x y p payer user.0 user.1 random.draws)
                      s)
                    (of_ok (SignedBy payer) (close-SignedBy doc fresh.0 payer) c))
