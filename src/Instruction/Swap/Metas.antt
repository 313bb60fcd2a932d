-- ===== src/Instruction/Swap/Metas.antt =====
-- The account list of a swap in src/instruction.rs, as the program's interface has it: the accounts
-- group by group, with the seeds of the derived ones, and who signs.
use pump_swap_sdk.Prelude.{
  ℕ, ◌+◌, ◌≡◌, refl, Bool, true, false, List, [], ◌∷◌, ◌++◌, ◌==◌, if◌then◌else◌, length, arith,
}
use pump_swap_sdk.Constants.{
  pump_swap_program_id, event_authority, global_config, global_volume_accumulator, fee_program,
  protocol_fee_recipients, reserved_fee_recipients, buyback_fee_recipients,
}
use pump_swap_sdk.State.Pool.{PoolInfo}
use pump_swap_sdk.Solana.{Solana, AccountMeta, new, new_readonly}
use pump_swap_sdk.Util.Seeds
use pump_swap_sdk.Util.Pda.{
  key_seed, find_coin_creator_vault_authority, find_coin_creator_vault_ata, fee_config_pda,
  find_user_vol_accumulator, user_volume_accumulator_quote_ata, pool_v2_pda,
}
use pump_swap_sdk.Util.Recipients.{
  Holds, picks_from_lists, pick_protocol_fee_recipient_for_pool, pick_buyback_fee_recipient,
}
use pump_swap_sdk.Instruction.Swap.{
  SwapKind, buy, sell, Draws, append_swap_remaining_accounts, swap_accounts,
}

-- The keys of the accounts that must sign.
abbrev pub signers : List AccountMeta → List ℕ
signers [] = []
signers (a ∷ rest_of) = let rest = signers rest_of in if a.is_signer then a.pubkey ∷ rest else rest

-- The accounts that the program's interface names.
abbrev pub named_count : SwapKind → ℕ
named_count buy = 23
named_count sell = 21

-- The remaining accounts.
abbrev pub cashback_count : SwapKind → ℕ
cashback_count buy = 1
cashback_count sell = 2

-- The list that the protocol's fee recipient of a pool comes from.
abbrev pub recipients_of : Bool → List ℕ
recipients_of is_mayhem_mode =
    if is_mayhem_mode then reserved_fee_recipients else protocol_fee_recipients

picked_from :
    (is_mayhem_mode : Bool) (draw : ℕ)
    → Holds
        (recipients_of is_mayhem_mode)
        (pick_protocol_fee_recipient_for_pool is_mayhem_mode draw)
picked_from true draw = (picks_from_lists draw).0
picked_from false draw = (picks_from_lists draw).1

module _ ⦃chain : Solana⦄ where
  open chain use {
    find_program_address, system_program_id, associated_token_id,
    get_associated_token_address_with_program_id,
  }

  -- The address that the program derives from some seeds.
  abbrev pub derived : List (List ℕ) → ℕ
  derived seeds = (find_program_address seeds pump_swap_program_id).0

  -- The account of an owner for the quote of a pool.
  abbrev pub quote_ata : PoolInfo → ℕ → ℕ
  quote_ata p owner =
      get_associated_token_address_with_program_id owner p.quote_mint p.quote_token_program

  abbrev pub creator_vault : PoolInfo → ℕ
  creator_vault p = derived (Seeds.creator_vault ∷ key_seed p.coin_creator ∷ [])

  abbrev pub user_volume : ℕ → ℕ
  user_volume user = derived (Seeds.user_volume_accumulator ∷ key_seed user ∷ [])

  -- The pool, the trader, the mints and the four token accounts.
  abbrev pub trading : PoolInfo → ℕ → ℕ → ℕ → List AccountMeta
  trading p user base_acc quote_acc =
      new p.pool false
      ∷ new user true
      ∷ new_readonly global_config false
      ∷ new_readonly p.base_mint false
      ∷ new_readonly p.quote_mint false
      ∷ new base_acc false
      ∷ new quote_acc false
      ∷ new p.pool_base_token_account false
      ∷ new p.pool_quote_token_account false
      ∷ []

  -- A fee recipient, and its account for the quote.
  abbrev pub recipient : PoolInfo → ℕ → List AccountMeta
  recipient p owner = new_readonly owner false ∷ new (quote_ata p owner) false ∷ []

  abbrev pub called : PoolInfo → List AccountMeta
  called p =
      new_readonly p.base_token_program false
      ∷ new_readonly p.quote_token_program false
      ∷ new_readonly system_program_id false
      ∷ new_readonly associated_token_id false
      ∷ new_readonly event_authority false
      ∷ new_readonly pump_swap_program_id false
      ∷ []

  abbrev pub vault : PoolInfo → List AccountMeta
  vault p = new (quote_ata p (creator_vault p)) false ∷ new_readonly (creator_vault p) false ∷ []

  -- The volume accumulators, which only a purchase has.
  abbrev pub volumes : SwapKind → ℕ → List AccountMeta
  volumes buy user =
      new_readonly global_volume_accumulator false ∷ new (user_volume user) false ∷ []
  volumes sell user = []

  abbrev pub fee_accounts : List AccountMeta
  fee_accounts =
      new_readonly
        (find_program_address (Seeds.fee_config ∷ key_seed pump_swap_program_id ∷ []) fee_program).0
        false
      ∷ new_readonly fee_program false
      ∷ []

  abbrev pub cashback : SwapKind → PoolInfo → ℕ → List AccountMeta
  cashback buy p user = new (quote_ata p (user_volume user)) false ∷ []
  cashback sell p user =
      new (quote_ata p (user_volume user)) false ∷ new (user_volume user) false ∷ []

  -- The accounts of a swap: all of them, in the order of the interface, with fee recipients from the
  -- lists of the constants, and the user as the only signer.
  pub record IsSwapList (p : PoolInfo) (user base_acc quote_acc : ℕ) (kind : SwapKind)
      (accounts : List AccountMeta) : Type 0 where
    pub protocol : ℕ
    pub buyback : ℕ
    pub protocol_listed : Holds (recipients_of p.is_mayhem_mode) protocol
    pub buyback_listed : Holds buyback_fee_recipients buyback
    pub listed :
        accounts
        ≡ trading p user base_acc quote_acc
          ++ (recipient p protocol
              ++ (called p
                  ++ (vault p
                      ++ (volumes kind user
                          ++ (fee_accounts
                              ++ ((if p.is_cashback_coin then cashback kind p user else [])
                                  ++ ((if p.coin_creator == 0
                                        then []
                                        else new_readonly
                                            (derived (Seeds.pool_v2 ∷ key_seed p.base_mint ∷ []))
                                            false
                                          ∷ [])
                                      ++ recipient p buyback)))))))
    pub count :
        length accounts
        ≡ named_count kind
          + ((if p.is_cashback_coin then cashback_count kind else 0)
              + ((if p.coin_creator == 0 then 0 else 1) + 2))
    pub signed : signers accounts ≡ user ∷ []

  swap_accounts-shape :
      (p : PoolInfo) (user base_acc quote_acc : ℕ) (kind : SwapKind) (draws : Draws)
      → let accounts = swap_accounts p user base_acc quote_acc kind draws in
        (length accounts
          ≡ named_count kind
            + ((if p.is_cashback_coin then cashback_count kind else 0)
                + ((if p.coin_creator == 0 then 0 else 1) + 2)))
        × (signers accounts ≡ user ∷ [])
  unfolding swap_accounts append_swap_remaining_accounts
  swap_accounts-shape p user base_acc quote_acc kind draws = elim kind [
    | buy ↦ (ground arith, ground arith)
    | sell ↦ (ground arith, ground arith)
  ]

  -- A swap has the accounts of the program's interface: 23 named ones for a buy and 21 for a sell, each
  -- with the key that its place calls for, derived addresses down to their seeds; then one account for
  -- a buy and two for a sell of a cashback coin, one if the pool has a coin creator, and the buyback
  -- recipient with its account. The protocol's recipient is from the list of the pool's mode, the
  -- other from the buyback list, whatever the draws; the user is the only signer.
  pub swap_accounts-IsSwapList :
      (p : PoolInfo) (user base_acc quote_acc : ℕ) (kind : SwapKind) (draws : Draws)
      → IsSwapList p user base_acc quote_acc kind
          (swap_accounts p user base_acc quote_acc kind draws)
  unfolding swap_accounts append_swap_remaining_accounts find_coin_creator_vault_authority
      find_coin_creator_vault_ata fee_config_pda find_user_vol_accumulator
      user_volume_accumulator_quote_ata pool_v2_pda
  swap_accounts-IsSwapList p user base_acc quote_acc buy draws =
      let shape = swap_accounts-shape p user base_acc quote_acc buy draws in
      record {
        protocol = pick_protocol_fee_recipient_for_pool p.is_mayhem_mode draws.protocol;
        buyback = pick_buyback_fee_recipient draws.buyback;
        protocol_listed = picked_from p.is_mayhem_mode draws.protocol;
        buyback_listed = (picks_from_lists draws.buyback).2;
        listed = refl;
        count = shape.0;
        signed = shape.1;
      }
  swap_accounts-IsSwapList p user base_acc quote_acc sell draws =
      let shape = swap_accounts-shape p user base_acc quote_acc sell draws in
      record {
        protocol = pick_protocol_fee_recipient_for_pool p.is_mayhem_mode draws.protocol;
        buyback = pick_buyback_fee_recipient draws.buyback;
        protocol_listed = picked_from p.is_mayhem_mode draws.protocol;
        buyback_listed = (picks_from_lists draws.buyback).2;
        listed = refl;
        count = shape.0;
        signed = shape.1;
      }
