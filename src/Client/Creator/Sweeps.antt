-- ===== src/Client/Creator/Sweeps.antt =====
-- The sweeps of a coin's creator fees in src/client.rs.
use pump_swap_sdk.Prelude.{
  ℕ, ◌≡◌, refl, sym, ap, false, not, Bool-cases, ◌||◌, inl, inr, List, [], ◌∷◌, ◌++◌, none, some,
  ltb, if◌then◌else◌, get_elem?,
}
use pump_swap_sdk.Prelude.Outcome.{ok, >>=-eq-ok}
use pump_swap_sdk.Constants.{pumpfun_program, pump_swap_program_id}
use pump_swap_sdk.State.Pool.{PoolInfo, from_account_data}
use pump_swap_sdk.Solana.{Solana, Instruction, new, new_readonly}
use pump_swap_sdk.Instruction.Swap.Metas.{signers}
use pump_swap_sdk.Util.Pda.{
  canonical_pool_pda, bonding_curve_pda, sharing_config_pda, pump_creator_vault_pda,
  find_coin_creator_vault_ata, find_coin_creator_vault_authority,
}
use pump_swap_sdk.Instruction.Creator.{
  sweep_pool_creator_fee_instruction, sweep_bonding_curve_creator_fee_instruction,
}
use pump_swap_sdk.Client.Chain.{Found, GetAccounts}
use pump_swap_sdk.Client.Creator.{
  is_some, curve_fee_of, sweep_graduated_pool, build_creator_fee_sweep_ixs,
}

-- The tag of `sweep_creator_fee`, which both programs have.
abbrev pub sweep_tag : List ℕ
sweep_tag = 32 ∷ 246 ∷ 191 ∷ 52 ∷ 8 ∷ 201 ∷ 73 ∷ 186 ∷ []

pub ok-inj {ℓ} : {A : Type ℓ} {a b : A} → ok a ≡ ok b → a ≡ b
ok-inj h = cc

module _ ⦃chain : Solana⦄ where
  -- The sweep of a coin's bonding curve, by the program of the curve: the fees go from the curve's
  -- accounts to the vault of the coin's sharing config.
  pub record SweepsCurve (payer mint quote_mint quote_program : ℕ) (ix : Instruction) : Type 0 where
    pub program : ix.program_id ≡ pumpfun_program
    pub tagged : ix.payload ≡ sweep_tag
    pub signed : signers ix.accounts ≡ payer ∷ []
    pub curve : get_elem? ix.accounts 7 ≡ some (new (bonding_curve_pda mint) false)
    pub curve_ata :
        get_elem? ix.accounts 8
        ≡ some (
            new
              (find_coin_creator_vault_ata (bonding_curve_pda mint) quote_program quote_mint)
              false)
    pub vault :
        get_elem? ix.accounts 9
        ≡ some (new (pump_creator_vault_pda (sharing_config_pda mint)) false)
    pub vault_ata :
        get_elem? ix.accounts 10
        ≡ some (
            new
              (find_coin_creator_vault_ata
                (pump_creator_vault_pda (sharing_config_pda mint))
                quote_program
                quote_mint)
              false)

  -- The sweep of a pool, by the program of the pools: the fees go from the pool's quote account to the
  -- vault of its coin creator.
  pub record SweepsPool (payer : ℕ) (p : PoolInfo) (ix : Instruction) : Type 0 where
    pub program : ix.program_id ≡ pump_swap_program_id
    pub tagged : ix.payload ≡ sweep_tag
    pub signed : signers ix.accounts ≡ payer ∷ []
    pub of_pool : get_elem? ix.accounts 2 ≡ some (new p.pool false)
    pub from : get_elem? ix.accounts 5 ≡ some (new p.pool_quote_token_account false)
    pub vault :
        get_elem? ix.accounts 6
        ≡ some (new_readonly (find_coin_creator_vault_authority p.coin_creator) false)
    pub vault_ata :
        get_elem? ix.accounts 7
        ≡ some (
            new
              (find_coin_creator_vault_ata
                (find_coin_creator_vault_authority p.coin_creator)
                p.quote_token_program
                p.quote_mint)
              false)

  -- What a sweep of a coin holds, by the fee that is left on the curve and the graduated pool: the
  -- curve's sweep alone, or that of the pool, as its account decodes, behind the curve's if there is a
  -- fee left.
  abbrev pub Swept : ℕ → ℕ → ℕ → ℕ → ℕ → Found → List Instruction → Type 0
  Swept payer mint quote_mint quote_program fee none ixs =
      (curve : Instruction) × SweepsCurve payer mint quote_mint quote_program curve
      × (ixs ≡ curve ∷ [])
  Swept payer mint quote_mint quote_program fee (some bytes) ixs =
      (curve : Instruction) × (p : PoolInfo) × (pool : Instruction) × SweepsCurve payer mint
        quote_mint quote_program curve
      × (from_account_data (canonical_pool_pda mint quote_mint) bytes quote_program quote_program
          ≡ ok p)
      × SweepsPool payer p pool
      × (ixs ≡ (if ltb 0 fee then curve ∷ pool ∷ [] else pool ∷ []))

  curve_swept :
      (payer mint quote_mint quote_program : ℕ)
      → (curve : Instruction) × (sweep_bonding_curve_creator_fee_instruction payer mint
            (sharing_config_pda mint)
            quote_mint
            quote_program
          ≡ ok curve)
        × SweepsCurve payer mint quote_mint quote_program curve
  unfolding sweep_bonding_curve_creator_fee_instruction
  curve_swept payer mint quote_mint quote_program = (
    _,
    refl,
    record {
      program = refl;
      tagged = refl;
      signed = refl;
      curve = refl;
      curve_ata = refl;
      vault = refl;
      vault_ata = refl;
    },
  )

  pool_swept :
      (payer : ℕ) (p : PoolInfo)
      → (pool : Instruction) × (sweep_pool_creator_fee_instruction payer p ≡ ok pool)
        × SweepsPool payer p pool
  unfolding sweep_pool_creator_fee_instruction
  pool_swept payer p = (
    _,
    refl,
    record {
      program = refl;
      tagged = refl;
      signed = refl;
      of_pool = refl;
      from = refl;
      vault = refl;
      vault_ata = refl;
    },
  )

  graduated :
      (payer pool program : ℕ) (bytes : List ℕ) {tail : List Instruction}
      → sweep_graduated_pool payer pool program (some bytes) ≡ ok tail
      → (p : PoolInfo) × (ix : Instruction) × (from_account_data pool bytes program program ≡ ok p)
        × SweepsPool payer p ix
        × (tail ≡ ix ∷ [])
  unfolding sweep_graduated_pool
  graduated payer pool program bytes h =
      let (p, decoded, swept) = >>=-eq-ok (from_account_data pool bytes program program) _ h in
      let (ix, made, sweeps) = pool_swept payer p in
      (p, ix, decoded, sweeps, sym (ok-inj (simp (made) at swept)))

  Swept-append :
      (payer mint quote_mint quote_program fee : ℕ) (found : Found) (curve : Instruction)
      (tail : List Instruction)
      → SweepsCurve payer mint quote_mint quote_program curve
      → sweep_graduated_pool payer (canonical_pool_pda mint quote_mint) quote_program found
        ≡ ok tail
      → Swept payer mint quote_mint quote_program fee found
          ((if not (is_some found) || ltb 0 fee then curve ∷ [] else []) ++ tail)
  unfolding sweep_graduated_pool
  Swept-append payer mint quote_mint quote_program fee none curve tail sweeps h =
      (curve, sweeps, ap (λ rest. curve ∷ rest) (sym (ok-inj h)))
  Swept-append payer mint quote_mint quote_program fee (some bytes) curve tail sweeps h =
      let (p, pool, decoded, of_pool, same) =
        graduated payer (canonical_pool_pda mint quote_mint) quote_program bytes h in
      elim (Bool-cases (ltb 0 fee)) [
        | inl some_left ↦ (curve, p, pool, sweeps, decoded, of_pool, simp (some_left, same))
        | inr none_left ↦ (curve, p, pool, sweeps, decoded, of_pool, simp (none_left, same))
      ]

  -- On an answer for both keys, a sweep that succeeds holds the sweep of the coin's curve for a coin that
  -- has not graduated, that of the pool that the account decodes to for one that has, and both, the
  -- curve's first, when a fee is left on the curve; each pays the fees into the vault of the creator.
  pub build_creator_fee_sweep_ixs_lem :
      (get : GetAccounts) (payer mint quote_mint quote_program : ℕ) (curve pool : Found)
      (ixs : List Instruction)
      → get (bonding_curve_pda mint ∷ canonical_pool_pda mint quote_mint ∷ [])
        ≡ ok (curve ∷ pool ∷ [])
      → build_creator_fee_sweep_ixs get payer mint quote_mint quote_program ≡ ok ixs
      → (fee : ℕ) × (curve_fee_of curve ≡ ok fee)
        × Swept payer mint quote_mint quote_program fee pool ixs
  unfolding build_creator_fee_sweep_ixs
  build_creator_fee_sweep_ixs_lem get payer mint quote_mint quote_program curve pool ixs answer
        built =
      let (sweep, made, sweeps) = curve_swept payer mint quote_mint quote_program in
      let (fee, counted, rest) = >>=-eq-ok (curve_fee_of curve) _ (simp (answer, made) at built) in
      let (tail, swept, last) =
        >>=-eq-ok
          (sweep_graduated_pool payer (canonical_pool_pda mint quote_mint) quote_program pool) _
          rest in
      (
        fee,
        counted,
        rw (ok-inj last) at
            (Swept-append payer mint quote_mint quote_program fee pool sweep tail sweeps swept),
      )
