-- ===== src/Client/Send/Signers.antt =====
-- Who must sign the instructions that src/client.rs puts together. `Transaction::sign` panics where a
-- required signer is missing, and each method signs with one key pair.
use pump_swap_sdk.Prelude.{
  ℕ, ◌≡◌, refl, Bool, true, false, Bool-cases, Option-cases, inl, inr, List, [], ◌∷◌, ◌++◌, some,
  All, ltb, if◌then◌else◌,
}
use pump_swap_sdk.Prelude.Outcome.{Result, ok, err, ◌>>=◌}
use pump_swap_sdk.Constants.{wrapped_sol_mint}
use pump_swap_sdk.State.Pool.{PoolInfo}
use pump_swap_sdk.Solana.{Solana, Instruction}
use pump_swap_sdk.Instruction.Swap.{
  buy, sell, Draws, make_buy_instruction, make_buy_exact_quote_in_instruction,
  make_sell_instruction,
}
use pump_swap_sdk.Instruction.Swap.Metas.{signers, swap_accounts-IsSwapList}
use pump_swap_sdk.Instruction.Volume.{make_extend_account_instruction}
use pump_swap_sdk.Util.Pda.{create_ata_token_or_not_with_program}
use pump_swap_sdk.Client.Trade.{
  optional, maybe_extend_pool_ix, open_wsol_account, close_wsol_account,
}

-- The key is the only one that must sign the instruction.
pub record SignedBy (key : ℕ) (ix : Instruction) : Type 0 where
  pub by_key : All (λ s. s ≡ key) (signers ix.accounts)

abbrev pub AllSignedBy : ℕ → List Instruction → Type 0
AllSignedBy key ixs = All (SignedBy key) ixs

-- A predicate on the value of a result, where there is one.
abbrev pub OnOk {ℓ} : {A : Type ℓ} → (A → Type 0) → Result A → Type 0
OnOk P (err e) = Unit {0}
OnOk P (ok a) = P a

-- What a success says of a predicate that holds of every success.
pub of_ok : {A : Type 0} (P : A → Type 0) {m : Result A} {a : A} → OnOk P m → m ≡ ok a → P a
of_ok P h e = rw e at h

pub >>=-OnOk {ℓ κ} :
    {A : Type ℓ} {B : Type κ} (P : B → Type 0) (m : Result A) (next : A → Result B)
    → ((a : A) → m ≡ ok a → OnOk P (next a))
    → OnOk P (m >>= next)
>>=-OnOk P (err e) next h = tt
>>=-OnOk P (ok a) next h = h a refl

pub if-AllSignedBy :
    (b : Bool) (key : ℕ) (ix : Instruction)
    → SignedBy key ix
    → AllSignedBy key (if b then ix ∷ [] else [])
if-AllSignedBy true key ix h = (h, tt)
if-AllSignedBy false key ix h = tt

pub All-append {ℓ κ} :
    {A : Type ℓ} (P : A → Type κ) (xs ys : List A) → All P xs → All P ys → All P (xs ++ ys)
All-append P [] ys h k = k
All-append P (x ∷ xs) ys h k = (h.0, All-append P xs ys h.1 k)

module _ ⦃chain : Solana⦄ where
  open chain use {
    spl_token_id, token_account_len, create_associated_token_account_idempotent,
    create_account_with_seed, transfer, initialize_account, close_account, sync_native,
    set_compute_unit_limit, set_compute_unit_price,
  }

  -- The signers that the libraries' builders document: the payer of a token account, the funder of
  -- an account with a seed of its own, the sender of lamports, and the owner that closes an account.
  pub record Documented : Type 0 where
    pub created :
        (payer wallet mint program : ℕ)
        → SignedBy payer (create_associated_token_account_idempotent payer wallet mint program)
    pub seeded :
        (from to : ℕ) (seed : List ℕ) (lamports space owner : ℕ)
        → SignedBy from (create_account_with_seed from to from seed lamports space owner)
    pub transferred : (from to lamports : ℕ) → SignedBy from (transfer from to lamports)
    pub initialized :
        (program account mint owner : ℕ) (ix : Instruction)
        → initialize_account program account mint owner ≡ some ix
        → signers ix.accounts ≡ []
    pub closed :
        (program account to owner : ℕ) (ix : Instruction)
        → close_account program account to owner ≡ some ix
        → SignedBy owner ix
    pub synced :
        (program account : ℕ) (ix : Instruction)
        → sync_native program account ≡ some ix
        → signers ix.accounts ≡ []
    pub limited : (units : ℕ) → signers (set_compute_unit_limit units).accounts ≡ []
    pub priced : (units : ℕ) → signers (set_compute_unit_price units).accounts ≡ []

  pub unsigned : (key : ℕ) (ix : Instruction) → signers ix.accounts ≡ [] → SignedBy key ix
  unsigned key ix h = record { by_key = rw h tt }

  pub only : (key : ℕ) (ix : Instruction) → signers ix.accounts ≡ key ∷ [] → SignedBy key ix
  only key ix h = record { by_key = rw h (refl, tt) }

  pub buy-SignedBy :
      (x y : ℕ) (track : Bool) (p : PoolInfo) (user base quote : ℕ) (draws : Draws)
      → OnOk (SignedBy user) (make_buy_instruction x y track p user base quote draws)
  unfolding make_buy_instruction
  buy-SignedBy x y track p user base quote draws =
      only user _ (swap_accounts-IsSwapList p user base quote buy draws).signed

  pub buy_exact_quote_in-SignedBy :
      (x y : ℕ) (track : Bool) (p : PoolInfo) (user base quote : ℕ) (draws : Draws)
      → OnOk (SignedBy user) (make_buy_exact_quote_in_instruction x y track p user base quote draws)
  unfolding make_buy_exact_quote_in_instruction
  buy_exact_quote_in-SignedBy x y track p user base quote draws =
      only user _ (swap_accounts-IsSwapList p user base quote buy draws).signed

  pub sell-SignedBy :
      (x y : ℕ) (p : PoolInfo) (user base quote : ℕ) (draws : Draws)
      → OnOk (SignedBy user) (make_sell_instruction x y p user base quote draws)
  unfolding make_sell_instruction
  sell-SignedBy x y p user base quote draws =
      only user _ (swap_accounts-IsSwapList p user base quote sell draws).signed

  pub extend-AllSignedBy :
      (p : PoolInfo) (payer : ℕ)
      → OnOk (λ e. AllSignedBy payer (optional e)) (maybe_extend_pool_ix p payer)
  unfolding maybe_extend_pool_ix make_extend_account_instruction
  extend-AllSignedBy p payer = elim (Bool-cases (ltb p.pool_account_data_len 301)) [
    | inl short ↦ rw short (only payer _ refl, tt)
    | inr full ↦ rw full tt
  ]

  module _ (doc : Documented) where
    pub open-AllSignedBy :
        (payer wsol : ℕ) (seed : List ℕ) (lamports : ℕ)
        → OnOk (AllSignedBy payer) (open_wsol_account payer wsol seed lamports)
    unfolding open_wsol_account
    open-AllSignedBy payer wsol seed lamports =
        elim (Option-cases (initialize_account spl_token_id wsol wrapped_sol_mint payer)) [
          | inl refused ↦ rw refused tt
          | inr (init, made) ↦ rw made (
            doc.seeded payer wsol seed lamports token_account_len spl_token_id,
            (unsigned payer init (doc.initialized _ _ _ _ init made), tt),
          )
        ]

    pub close-SignedBy : (wsol payer : ℕ) → OnOk (SignedBy payer) (close_wsol_account wsol payer)
    unfolding close_wsol_account
    close-SignedBy wsol payer = elim (Option-cases (close_account spl_token_id wsol payer payer)) [
      | inl refused ↦ rw refused tt
      | inr (ix, made) ↦ rw made (doc.closed _ _ _ _ ix made)
    ]

    pub ata-AllSignedBy :
        (payer mint program : ℕ) (create : Bool)
        → AllSignedBy payer
            (optional (create_ata_token_or_not_with_program payer mint payer program create).1)
    unfolding create_ata_token_or_not_with_program
    ata-AllSignedBy payer mint program true = (doc.created payer payer mint program, tt)
    ata-AllSignedBy payer mint program false = tt
