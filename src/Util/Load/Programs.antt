-- ===== src/Util/Load/Programs.antt =====
-- What `load_pool` of src/util.rs answers.
use pump_swap_sdk.Prelude.{ℕ, ◌≤◌, ◌≡◌, ◌∙◌, false, List, [], ◌∷◌, Option, length, ltb, arith}
use pump_swap_sdk.Prelude.Outcome.{Result, ok}
use pump_swap_sdk.State.Pool.{pool_from_bytes, pool_slice, from_account_data}
use pump_swap_sdk.State.Pool.{Pool}
use pump_swap_sdk.State.Pool.Layout.{
  IsPool, Trailing, IsTrailing, account_bytes, trailing_bytes, info_of, length-account,
  pool_of_account, from_account_data-account_bytes,
}
use pump_swap_sdk.Solana.{Solana}
use pump_swap_sdk.Util.Load.{GetOwners, program_of, load_pool}

ltb-of-le : (n m : ℕ) → m ≤ n → ltb n m ≡ false
ltb-of-le n m h = ground arith

module _ ⦃chain : Solana⦄ where
  -- A pool account that is long enough, and an answer with both mints, are decoded with the owners of
  -- the mints as its token programs, and spl_token for a mint with no account.
  pub load_pool_lem :
      (get : ℕ → Result (List ℕ)) (get_owners : GetOwners) (key : ℕ) (bytes : List ℕ)
      (base quote : Option ℕ)
      → get key ≡ ok bytes
      → 245 ≤ length bytes
      → get_owners (
          (pool_from_bytes (pool_slice bytes)).base_mint
          ∷ (pool_from_bytes (pool_slice bytes)).quote_mint
          ∷ [])
        ≡ ok (base ∷ quote ∷ [])
      → load_pool get get_owners key
        ≡ from_account_data key bytes (program_of base) (program_of quote)
  unfolding load_pool
  load_pool_lem get get_owners key bytes base quote got long owners =
      simp (got, ltb-of-le (length bytes) 245 long, owners)

  -- A node that holds an account of the current layout with every field within its width, and that
  -- answers for the pool's two mints: the pool is loaded with every field that was written, and with
  -- the owners of the mints as its token programs, spl_token for a mint with no account.
  pub load_pool-account_bytes :
      (get : ℕ → Result (List ℕ)) (get_owners : GetOwners) (key : ℕ) (disc : List ℕ) (p : Pool)
      (t : Trailing) (spare : List ℕ) (base quote : Option ℕ)
      → get key ≡ ok (account_bytes disc p t spare)
      → length disc ≡ 8
      → IsPool p
      → IsTrailing t
      → get_owners (p.base_mint ∷ p.quote_mint ∷ []) ≡ ok (base ∷ quote ∷ [])
      → load_pool get get_owners key
        ≡ ok (
            info_of key
              (length (account_bytes disc p t spare))
              p
              t
              (program_of base)
              (program_of quote))
  load_pool-account_bytes get get_owners key disc p t spare base quote got eight v w owners =
      let bytes = account_bytes disc p t spare in
      let long : 245 ≤ length bytes =
        omega (arith, length-account disc p (trailing_bytes t spare) eight) in
      let same = pool_of_account disc p (trailing_bytes t spare) eight v in
      load_pool_lem get get_owners key bytes base quote got long (rw same owners)
      ∙ from_account_data-account_bytes key disc p t spare (program_of base) (program_of quote)
          eight v w
