-- ===== src/Client/Send/Payers.antt =====
-- The signers of the lists of src/client.rs for liquidity and creator fees.
use pump_swap_sdk.Prelude.{
  ℕ, ◌≡◌, refl, Bool, false, Bool-cases, Option-cases, inl, inr, List, [], ◌∷◌, map, none, some,
  ltb, not, ◌||◌, ◌==◌,
}
use pump_swap_sdk.Prelude.Outcome.{Result}
use pump_swap_sdk.Constants.{wrapped_sol_mint}
use pump_swap_sdk.State.Pool.{PoolInfo, from_account_data}
use pump_swap_sdk.Math.Float.{Float}
use pump_swap_sdk.Solana.{Solana, new}
use pump_swap_sdk.Instruction.Swap.Metas.{signers}
use pump_swap_sdk.Util.Pda.{
  canonical_pool_pda, bonding_curve_pda, calc_user_pool_token_account, calc_lp_mint_pda,
}
use pump_swap_sdk.Instruction.Liquidity.{
  make_deposit_instruction, create_pool_instruction_with_options, withdraw_instruction,
}
use pump_swap_sdk.Instruction.Creator.{
  sweep_pool_creator_fee_instruction, sweep_bonding_curve_creator_fee_instruction,
  transfer_creator_fees_to_pump_instruction, distribute_creator_fees_instruction,
}
use pump_swap_sdk.Client.Chain.{Found, GetAccounts, active_shareholders}
use pump_swap_sdk.Client.Creator.{
  is_some, indexed, curve_fee_of, sweep_graduated_pool, build_creator_fee_sweep_ixs,
  build_creator_fee_withdraw_ixs,
}
use pump_swap_sdk.Client.Trade.{optional, maybe_extend_pool_ix}
use pump_swap_sdk.Client.Balance.{BalanceAnswer, answered, parse_u64}
use pump_swap_sdk.Client.Send.Liquidity.{
  close_wsol_ata, sync_wsol_ata, create_wsol_pool_ixs, deposit_ixs, withdraw_ixs,
}
use pump_swap_sdk.Client.Send.Signers.{
  SignedBy, AllSignedBy, OnOk, of_ok, if-AllSignedBy, >>=-OnOk, All-append, unsigned, only,
  Documented, extend-AllSignedBy,
}

module _ ⦃chain : Solana⦄ where
  open chain use {close_account, sync_native, spl_token_id, get_associated_token_address}

  holders-signers : (holders : List ℕ) → signers (map (λ holder. new holder false) holders) ≡ []
  holders-signers [] = refl
  holders-signers (h ∷ hs) = holders-signers hs

  swept_pool :
      (payer pool program : ℕ) (found : Found)
      → OnOk (AllSignedBy payer) (sweep_graduated_pool payer pool program found)
  unfolding sweep_graduated_pool sweep_pool_creator_fee_instruction
  swept_pool payer pool program none = tt
  swept_pool payer pool program (some bytes) =
      >>=-OnOk _ (from_account_data pool bytes program program) _ λ info e. (only payer _ refl, tt)

  swept :
      (get : GetAccounts) (payer mint quote_mint program : ℕ)
      → OnOk (AllSignedBy payer) (build_creator_fee_sweep_ixs get payer mint quote_mint program)
  unfolding build_creator_fee_sweep_ixs sweep_bonding_curve_creator_fee_instruction
  swept get payer mint quote_mint program =
      let pool = canonical_pool_pda mint quote_mint in
      >>=-OnOk _ (get (bonding_curve_pda mint ∷ pool ∷ [])) _ λ accounts e.
        >>=-OnOk _ (indexed accounts 0) _ λ curve c. >>=-OnOk _ (curve_fee_of curve) _ λ fee f.
          >>=-OnOk _ (indexed accounts 1) _ λ graduated g.
            >>=-OnOk _ (sweep_graduated_pool payer pool program graduated) _ λ tail t.
              All-append (SignedBy payer) _ tail
                (if-AllSignedBy (not (is_some graduated) || ltb 0 fee) payer _ (only payer _ refl))
                (of_ok (AllSignedBy payer) (swept_pool payer pool program graduated) t)

  pub build_creator_fee_withdraw_ixs-AllSignedBy :
      (get_account : ℕ → Result Found) (get : GetAccounts) (payer mint : ℕ)
      → OnOk (AllSignedBy payer) (build_creator_fee_withdraw_ixs get_account get payer mint)
  unfolding build_creator_fee_withdraw_ixs transfer_creator_fees_to_pump_instruction
      distribute_creator_fees_instruction
  build_creator_fee_withdraw_ixs-AllSignedBy get_account get payer mint =
      >>=-OnOk _ (active_shareholders get_account mint) _ λ holders h.
        >>=-OnOk _ (build_creator_fee_sweep_ixs get payer mint wrapped_sol_mint spl_token_id) _
          λ sweeps s.
            All-append (SignedBy payer) sweeps _
              (of_ok (AllSignedBy payer) (swept get payer mint _ _) s)
              (unsigned payer _ refl, (unsigned payer _ (holders-signers holders), tt))

  module _ (doc : Documented) where
    close_ata : (payer : ℕ) → OnOk (SignedBy payer) (close_wsol_ata payer)
    close_ata payer =
        elim (Option-cases (
          close_account spl_token_id (get_associated_token_address payer wrapped_sol_mint) payer
            payer)) [
              | inl refused ↦ rw refused tt
              | inr (ix, made) ↦ rw made (doc.closed _ _ _ _ ix made)
            ]

    sync_ata : (payer : ℕ) → OnOk (SignedBy payer) (sync_wsol_ata payer)
    sync_ata payer =
        elim (Option-cases
          (sync_native spl_token_id (get_associated_token_address payer wrapped_sol_mint))) [
            | inl refused ↦ rw refused tt
            | inr (ix, made) ↦ rw made (unsigned payer ix (doc.synced _ _ ix made))
          ]

    pub create_wsol_pool_ixs-AllSignedBy :
        (index base_in quote_in coin_creator mint program : ℕ) (mayhem cashback : Bool) (payer : ℕ)
        → OnOk (AllSignedBy payer) (
            create_wsol_pool_ixs index base_in quote_in coin_creator mint program mayhem cashback
              payer)
    unfolding create_wsol_pool_ixs create_pool_instruction_with_options
    create_wsol_pool_ixs-AllSignedBy index base_in quote_in coin_creator mint program mayhem
          cashback payer =
        >>=-OnOk _ (sync_wsol_ata payer) _ λ sync s. >>=-OnOk _ (close_wsol_ata payer) _ λ close c.
          (
            doc.created payer _ _ _,
            (
              doc.transferred payer _ _,
              (
                of_ok (SignedBy payer) (sync_ata payer) s,
                (
                  doc.created payer _ _ _,
                  (
                    doc.created payer _ _ _,
                    (only payer _ refl, (of_ok (SignedBy payer) (close_ata payer) c, tt)),
                  ),
                ),
              ),
            ),
          )

    pub deposit_ixs-AllSignedBy :
        (p : PoolInfo) (payer lp_out base quote : ℕ)
        → OnOk (AllSignedBy payer) (deposit_ixs p payer lp_out base quote)
    unfolding deposit_ixs make_deposit_instruction
    deposit_ixs-AllSignedBy p payer lp_out base quote =
        >>=-OnOk _ (maybe_extend_pool_ix p payer) _ λ extend e.
          >>=-OnOk _ (sync_wsol_ata payer) _ λ sync s.
            >>=-OnOk _ (close_wsol_ata payer) _ λ close c.
              All-append (SignedBy payer) (optional extend) _
                (of_ok (λ e. AllSignedBy payer (optional e)) (extend-AllSignedBy p payer) e)
                (
                  doc.created payer _ _ _,
                  (
                    doc.created payer _ _ _,
                    (
                      doc.transferred payer _ _,
                      (
                        of_ok (SignedBy payer) (sync_ata payer) s,
                        (
                          doc.created payer _ _ _,
                          (only payer _ refl, (of_ok (SignedBy payer) (close_ata payer) c, tt)),
                        ),
                      ),
                    ),
                  ),
                )

    pub withdraw_ixs-AllSignedBy :
        {F : Type 0} ⦃d : Float F⦄ (get : ℕ → BalanceAnswer F) (pool mint payer : ℕ) (percent : F)
        (base quote : ℕ)
        → OnOk (AllSignedBy payer) (withdraw_ixs get pool mint payer percent base quote)
    unfolding withdraw_ixs withdraw_instruction
    withdraw_ixs-AllSignedBy get pool mint payer percent base quote =
        >>=-OnOk _ (answered (get (calc_user_pool_token_account payer (calc_lp_mint_pda pool).0).0))
          _
          λ lp_balance l. >>=-OnOk _ (parse_u64 lp_balance.amount) _ λ balance b.
            elim (Bool-cases (balance == 0)) [
              | inl empty ↦ rw empty tt
              | inr held ↦ rw held (
                  >>=-OnOk _ (close_wsol_ata payer) _ λ close c. (
                    doc.created payer _ _ _,
                    (
                      doc.created payer _ _ _,
                      (only payer _ refl, (of_ok (SignedBy payer) (close_ata payer) c, tt)),
                    ),
                  ))
            ]
