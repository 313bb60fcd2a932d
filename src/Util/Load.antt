-- ===== src/Util/Load.antt =====
-- `load_pool` of src/util.rs: a pool account, and the token programs that own its mints.
pub mod Programs
use pump_swap_sdk.Prelude.{
  ℕ, ◌+◌, List, [], ◌∷◌, Option, none, some, ltb, if◌then◌else◌, length, get_elem?,
}
use pump_swap_sdk.Prelude.Outcome.{Result, ok, err, ◌>>=◌, panicked, size_mismatch}
use pump_swap_sdk.State.Pool.{PoolInfo, pool_size, pool_slice, pool_from_bytes, from_account_data}
use pump_swap_sdk.Solana.{Solana}

-- `get_multiple_accounts`, of which only the owners are read: none where there is no account.
abbrev pub GetOwners : Type 0
GetOwners = List ℕ → Result (List (Option ℕ))

module _ ⦃chain : Solana⦄ where
  open chain use {spl_token_id}

  -- The owner of a mint account, and spl_token where there is no account.
  abbrev pub program_of : Option ℕ → ℕ
  program_of none = spl_token_id
  program_of (some owner) = owner

  -- `mint_accounts[index]`, which panics past the end, and `.as_ref().map(…).unwrap_or(…)`
  abbrev pub owner_at : List (Option ℕ) → ℕ → Result ℕ
  owner_at owners index = elim (get_elem? owners index) [
    | none ↦ err panicked
    | some found ↦ ok (program_of found)
  ]

  -- The `None` branch of `load_pool_with_token_program`.
  unfoldable pub detect_programs : GetOwners → List ℕ → Result (ℕ × ℕ)
  detect_programs get_owners bytes =
      if ltb (length bytes) (pool_size + 8)
      then err (size_mismatch (pool_size + 8) (length bytes))
      else do
        let pool_data = pool_from_bytes (pool_slice bytes)
        owners ← get_owners (pool_data.base_mint ∷ pool_data.quote_mint ∷ [])
        base ← owner_at owners 0
        quote ← owner_at owners 1
        ok (base, quote)

  unfoldable pub load_pool_with_token_program :
      (ℕ → Result (List ℕ)) → GetOwners → ℕ → Option ℕ → Result PoolInfo
  unfolding detect_programs
  load_pool_with_token_program get_account_data get_owners pool_pubkey token_program = do
    bytes ← get_account_data pool_pubkey
    programs ← elim token_program [
      | some program ↦ ok (program, program)
      | none ↦ detect_programs get_owners bytes
    ]
    from_account_data pool_pubkey bytes programs.0 programs.1

  unfoldable pub load_pool : (ℕ → Result (List ℕ)) → GetOwners → ℕ → Result PoolInfo
  unfolding load_pool_with_token_program
  load_pool get_account_data get_owners pool_pubkey =
      load_pool_with_token_program get_account_data get_owners pool_pubkey none
