-- ===== src/Examples/Layout/Found.antt =====
-- The instruction that examples/verify_layout.rs looks for is in every list that it builds.
use pump_swap_sdk.Prelude.Bytes.{to_le}
use pump_swap_sdk.Prelude.{
  take, ℕ, ◌≡◌, refl, ◌∙◌, Bool, true, false, Bool-cases, inl, inr, List, [], ◌∷◌, ◌++◌, Option,
  some, All, ltb, ◌==◌, if◌then◌else◌,
}
use pump_swap_sdk.Prelude.Outcome.{Result, ok}
use pump_swap_sdk.Constants.{pump_swap_program_id}
use pump_swap_sdk.State.Pool.{PoolInfo, token_mint, token_program}
use pump_swap_sdk.Solana.{Solana, Instruction}
use pump_swap_sdk.Instruction.Swap.{SwapKind}
use pump_swap_sdk.Instruction.Swap.Metas.{IsSwapList}
use pump_swap_sdk.Instruction.Volume.{make_extend_account_instruction}
use pump_swap_sdk.Client.Trade.{Randomness, optional}
use pump_swap_sdk.Client.Trade.Lists.{Opens, extension, opening}
use pump_swap_sdk.Client.Balance.{starts}
use pump_swap_sdk.Examples.Layout.{matches, find_pump_amm_ix}

-- An instruction that the search with a discriminator passes over.
pub record Passed (discriminator : List ℕ) (ix : Instruction) : Type 0 where
  pub other : matches discriminator ix ≡ false

find-skip :
    (discriminator : List ℕ) (front rest : List Instruction)
    → All (Passed discriminator) front
    → find_pump_amm_ix (front ++ rest) discriminator ≡ find_pump_amm_ix rest discriminator
unfolding find_pump_amm_ix
find-skip discriminator [] rest h = refl
find-skip discriminator (ix ∷ front) rest h =
    rw (h.0.other) (find-skip discriminator front rest h.1)

find-hit :
    (discriminator : List ℕ) (rest : List Instruction) (ix : Instruction)
    → matches discriminator ix ≡ true
    → find_pump_amm_ix (ix ∷ rest) discriminator ≡ ok ix
unfolding find_pump_amm_ix
find-hit discriminator rest ix h = rw h refl

-- The list of a swap from its parts.
find-swap :
    (discriminator : List ℕ) (extend opening ata rest : List Instruction) (swap : Instruction)
    → All (Passed discriminator) extend
    → All (Passed discriminator) opening
    → All (Passed discriminator) ata
    → matches discriminator swap ≡ true
    → find_pump_amm_ix (extend ++ (opening ++ (ata ++ (swap ∷ rest)))) discriminator ≡ ok swap
find-swap discriminator extend opening ata rest swap h1 h2 h3 found =
    find-skip discriminator extend _ h1
    ∙ find-skip discriminator opening _ h2
    ∙ find-skip discriminator ata _ h3
    ∙ find-hit discriminator rest swap found

Foreign-Passed :
    (discriminator : List ℕ) (ix : Instruction)
    → (ix.program_id == pump_swap_program_id) ≡ false
    → Passed discriminator ix
Foreign-Passed discriminator ix h = record { other = rw h refl }

module _ ⦃chain : Solana⦄ where
  open chain use {
    spl_token_id, token_account_len, create_associated_token_account_idempotent,
    create_account_with_seed, initialize_account,
  }

  -- The builders of the libraries make no instruction of the pump-amm program.
  pub record Foreign : Type 0 where
    pub created :
        (payer wallet mint program : ℕ)
        → ((create_associated_token_account_idempotent payer wallet mint program).program_id
            == pump_swap_program_id)
          ≡ false
    pub seeded :
        (from to base : ℕ) (seed : List ℕ) (lamports space owner : ℕ)
        → ((create_account_with_seed from to base seed lamports space owner).program_id
            == pump_swap_program_id)
          ≡ false
    pub initialized :
        (program account mint owner : ℕ) (ix : Instruction)
        → initialize_account program account mint owner ≡ some ix
        → (ix.program_id == pump_swap_program_id) ≡ false

  -- A list whose search finds a swap of two amounts, with all the accounts that its pool calls for, in
  -- their places.
  pub record Finds (p : PoolInfo) (user base_acc quote_acc : ℕ) (kind : SwapKind)
      (discriminator : List ℕ) (x y : ℕ) (built : Result (List Instruction)) : Type 0 where
    pub ixs : List Instruction
    pub swap : Instruction
    pub builds : built ≡ ok ixs
    pub finds : find_pump_amm_ix ixs discriminator ≡ ok swap
    pub tagged : take 24 swap.payload ≡ discriminator ++ (to_le 8 x ++ to_le 8 y)
    pub listed : IsSwapList p user base_acc quote_acc kind swap.accounts

  -- The data of `extend_account`.
  abbrev pub extend_data : List ℕ
  extend_data = 234 ∷ 102 ∷ 194 ∷ 203 ∷ 150 ∷ 72 ∷ 62 ∷ 229 ∷ []

  extend-Passed :
      (discriminator : List ℕ) (p : PoolInfo) (payer : ℕ) (extend : Option Instruction)
      → starts discriminator extend_data ≡ false
      → optional extend ≡ extension p payer
      → All (Passed discriminator) (optional extend)
  unfolding make_extend_account_instruction
  extend-Passed discriminator p payer extend apart listed =
      elim (Bool-cases (ltb p.pool_account_data_len 301)) [
        | inl short ↦ rw (listed, short) (record { other = apart }, tt)
        | inr full ↦ rw (listed, full) tt
      ]

  open-Passed :
      (foreign : Foreign) (discriminator : List ℕ) (payer : ℕ) (random : Randomness) (lamports : ℕ)
      (o : Opens payer random)
      → All (Passed discriminator) (opening payer o.seed o.wsol lamports o.init)
  open-Passed foreign discriminator payer random lamports o = (
    Foreign-Passed discriminator _ (foreign.seeded _ _ _ _ _ _ _),
    (Foreign-Passed discriminator o.init (foreign.initialized _ _ _ _ o.init o.initialized), tt),
  )

  ata-Passed :
      (foreign : Foreign) (discriminator : List ℕ) (p : PoolInfo) (payer : ℕ) (create : Bool)
      (ata : Option Instruction)
      → optional ata ≡ (
          if create
          then create_associated_token_account_idempotent payer payer
              (token_mint p)
              (token_program p)
            ∷ []
          else [])
      → All (Passed discriminator) (optional ata)
  ata-Passed foreign discriminator p payer true ata listed =
      rw listed (Foreign-Passed discriminator _ (foreign.created _ _ _ _), tt)
  ata-Passed foreign discriminator p payer false ata listed = rw listed tt

  -- The search through a list with the parts that the builders give it.
  pub find-built :
      (foreign : Foreign) (discriminator : List ℕ) (p : PoolInfo) (payer : ℕ) (create : Bool)
      (random : Randomness) (o : Opens payer random) (lamports : ℕ)
      (extend ata : Option Instruction) (swap : Instruction)
      → starts discriminator extend_data ≡ false
      → optional extend ≡ extension p payer
      → optional ata ≡ (
          if create
          then create_associated_token_account_idempotent payer payer
              (token_mint p)
              (token_program p)
            ∷ []
          else [])
      → matches discriminator swap ≡ true
      → find_pump_amm_ix
          (optional extend
            ++ (opening payer o.seed o.wsol lamports o.init
                ++ (optional ata ++ (swap ∷ o.close ∷ []))))
          discriminator
        ≡ ok swap
  find-built foreign discriminator p payer create random o lamports extend ata swap apart listed
        listed_ata found =
      find-swap discriminator (optional extend) (opening payer o.seed o.wsol lamports o.init)
        (optional ata) (o.close ∷ []) swap (extend-Passed discriminator p payer extend apart listed)
        (open-Passed foreign discriminator payer random lamports o)
        (ata-Passed foreign discriminator p payer create ata listed_ata) found
