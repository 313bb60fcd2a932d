-- ===== src/Solana.antt =====
-- What the library takes from solana_sdk, spl_token, spl_associated_token_account and bs58: the types
-- of an instruction, and the functions that it calls, as a parameter of the model.
use pump_swap_sdk.Prelude.{ℕ, Bool, true, false, List, Option}

pub record AccountMeta : Type 0 where
  pub pubkey : ℕ
  pub is_signer : Bool
  pub is_writable : Bool

-- `AccountMeta::new` and `AccountMeta::new_readonly`
abbrev pub new : ℕ → Bool → AccountMeta
new key signer = record { pubkey = key; is_signer = signer; is_writable = true }

abbrev pub new_readonly : ℕ → Bool → AccountMeta
new_readonly key signer = record { pubkey = key; is_signer = signer; is_writable = false }

-- `payload` is the field `data`.
pub record Instruction : Type 0 where
  pub program_id : ℕ
  pub accounts : List AccountMeta
  pub payload : List ℕ

pub record Solana : Type 0 where
  -- `Pubkey::find_program_address`, seeds and program
  pub find_program_address : List (List ℕ) → ℕ → ℕ × ℕ
  -- `Pubkey::create_with_seed`, base, seed and owner
  pub create_with_seed : ℕ → List ℕ → ℕ → Option ℕ
  -- `bs58::encode`, as code points
  pub base58 : List ℕ → List ℕ
  -- wallet, mint and token program; the second form is for `spl_token::ID`
  pub get_associated_token_address_with_program_id : ℕ → ℕ → ℕ → ℕ
  pub get_associated_token_address : ℕ → ℕ → ℕ
  pub system_program_id : ℕ
  pub spl_token_id : ℕ
  pub spl_token_2022_id : ℕ
  pub associated_token_id : ℕ
  -- payer, wallet, mint and token program
  pub create_associated_token_account_idempotent : ℕ → ℕ → ℕ → ℕ → Instruction
  -- from, to, base, seed, lamports, space and owner
  pub create_account_with_seed : ℕ → ℕ → ℕ → List ℕ → ℕ → ℕ → ℕ → Instruction
  -- from, to and lamports
  pub transfer : ℕ → ℕ → ℕ → Instruction
  -- token program, account, mint and owner; none is a `ProgramError`
  pub initialize_account : ℕ → ℕ → ℕ → ℕ → Option Instruction
  -- token program, account, destination and owner
  pub close_account : ℕ → ℕ → ℕ → ℕ → Option Instruction
  -- token program and account
  pub sync_native : ℕ → ℕ → Option Instruction
  -- `Rent::default().minimum_balance` and `spl_token::state::Account::LEN`
  pub minimum_balance : ℕ → ℕ
  pub token_account_len : ℕ
  -- `ComputeBudgetInstruction::set_compute_unit_limit` and `set_compute_unit_price`
  pub set_compute_unit_limit : ℕ → Instruction
  pub set_compute_unit_price : ℕ → Instruction
