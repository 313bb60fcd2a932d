-- ===== src/Client/Balance.antt =====
-- The token balances of src/client.rs: an amount is a text, which `str::parse` reads as a `u64`.
pub mod Rounds
use pump_swap_sdk.Prelude.{
  ℕ, zero, suc, ◌+◌, ◌-◌, ◌*◌, ◌^◌, ◌<◌, ◌≤◌, Bool, true, false, ◌&&◌, ◌||◌, List, [], ◌∷◌, Option,
  none, some, ltb, leb, ◌==◌, if◌then◌else◌, min, u64_max,
}
use pump_swap_sdk.Prelude.Outcome.{
  Result, ok, err, ◌>>=◌, ok_or, Error, not_a_number, no_ui_amount, no_pooled_amounts, rpc_failed,
}
use pump_swap_sdk.State.Pool.{PoolInfo}
use pump_swap_sdk.Solana.{Solana}

-- `str::parse::<u64>` behind an optional plus sign: the digits after a value, refused at a character
-- that is no digit and past the largest `u64`.
unfoldable pub digits_from : ℕ → List ℕ → Result ℕ
digits_from value [] = ok value
digits_from value (c ∷ cs) =
    let grown = value * 10 + (c - b'0') in
    let rest = digits_from grown cs in
    if (leb b'0' c && leb c b'9') && leb grown u64_max then rest else err not_a_number

abbrev pub digits : List ℕ → Result ℕ
digits [] = err not_a_number
digits (c ∷ cs) = digits_from 0 (c ∷ cs)

unfoldable pub parse_u64 : List ℕ → Result ℕ
unfolding digits_from
parse_u64 [] = err not_a_number
parse_u64 (c ∷ cs) = if c == b'+' then digits cs else digits (c ∷ cs)

-- `UiTokenAmount`, with its fields `amount` and `ui_amount`.
pub record UiTokenAmount (F : Type 0) : Type 0 where
  pub amount : List ℕ
  pub ui_amount : Option F

-- `get_token_account_balance`: an error of the node for the user carries its message.
pub data BalanceAnswer (F : Type 0) : Type 0 where
  balance : UiTokenAmount F → BalanceAnswer F
  for_user : List ℕ → BalanceAnswer F
  failed : BalanceAnswer F

abbrev pub answered : {F : Type 0} → BalanceAnswer F → Result (UiTokenAmount F)
answered (balance b) = ok b
answered (for_user message) = err rpc_failed
answered failed = err rpc_failed

unfoldable pub fetch_pool_reserves :
    {F : Type 0} → (ℕ → BalanceAnswer F) → (ℕ → BalanceAnswer F) → PoolInfo → Result (ℕ × ℕ)
fetch_pool_reserves first second pool = do
  base_reserve ← answered (first pool.pool_base_token_account)
  quote_reserve ← answered (second pool.pool_quote_token_account)
  base ← parse_u64 base_reserve.amount
  quote ← parse_u64 quote_reserve.amount
  ok (base, quote)

-- One round of `fetch_ui_pooled_amounts`.
unfoldable pub ui_pooled_amounts :
    {F : Type 0} → (ℕ → BalanceAnswer F) → (ℕ → BalanceAnswer F) → PoolInfo → Result (F × F × ℕ × ℕ)
ui_pooled_amounts first second pool = do
  base ← answered (first pool.pool_base_token_account)
  quote ← answered (second pool.pool_quote_token_account)
  base_ui ← ok_or no_ui_amount base.ui_amount
  quote_ui ← ok_or no_ui_amount quote.ui_amount
  base_amount ← parse_u64 base.amount
  quote_amount ← parse_u64 quote.amount
  ok (base_ui, quote_ui, base_amount, quote_amount)

-- The loop of `fetch_ui_pooled_amounts`: the rounds left, the number of the round, the delay in
-- milliseconds. The milliseconds slept come with the result. `answers` gives the two answers of a
-- round.
unfoldable pub ui_rounds :
    {F : Type 0}
    → (ℕ → (ℕ → BalanceAnswer F) × (ℕ → BalanceAnswer F))
    → PoolInfo
    → ℕ
    → ℕ
    → ℕ
    → ℕ × Result (F × F × ℕ × ℕ)
ui_rounds answers pool zero round delay = (0, err no_pooled_amounts)
ui_rounds answers pool (suc left) round delay =
    let (slept, result) = ui_rounds answers pool left (suc round) (min (delay * 2) 3_000) in
    elim (ui_pooled_amounts (answers round).0 (answers round).1 pool) [
      | ok v ↦ (0, ok v)
      | err e ↦ (delay + slept, result)
    ]

unfoldable pub fetch_ui_pooled_amounts :
    {F : Type 0}
    → (ℕ → (ℕ → BalanceAnswer F) × (ℕ → BalanceAnswer F))
    → PoolInfo
    → ℕ × Result (F × F × ℕ × ℕ)
unfolding ui_rounds
fetch_ui_pooled_amounts answers pool = ui_rounds answers pool 6 0 200

-- `str::contains`
abbrev pub starts : List ℕ → List ℕ → Bool
starts [] text = true
starts (c ∷ cs) [] = false
starts (c ∷ cs) (t ∷ ts) = c == t && starts cs ts

abbrev pub contains : List ℕ → List ℕ → Bool
contains part [] = starts part []
contains part (t ∷ ts) = starts part (t ∷ ts) || contains part ts

-- "AccountNotFound" and "could not find account"
abbrev pub account_not_found_text : List ℕ
account_not_found_text =
    b'A' ∷ b'c' ∷ b'c' ∷ b'o' ∷ b'u' ∷ b'n' ∷ b't' ∷ b'N' ∷ b'o' ∷ b't' ∷ b'F' ∷ b'o' ∷ b'u' ∷ b'n'
    ∷ b'd' ∷ []

abbrev pub no_account_text : List ℕ
no_account_text =
    b'c' ∷ b'o' ∷ b'u' ∷ b'l' ∷ b'd' ∷ b' ' ∷ b'n' ∷ b'o' ∷ b't' ∷ b' ' ∷ b'f' ∷ b'i' ∷ b'n' ∷ b'd'
    ∷ b' ' ∷ b'a' ∷ b'c' ∷ b'c' ∷ b'o' ∷ b'u' ∷ b'n' ∷ b't' ∷ []

module _ ⦃chain : Solana⦄ where
  open chain use {get_associated_token_address_with_program_id}

  unfoldable pub get_token_balance :
      {F : Type 0} → (ℕ → BalanceAnswer F) → ℕ → ℕ → ℕ → Result (Option ℕ)
  get_token_balance get_balance owner mint token_program =
      let token_account = get_associated_token_address_with_program_id owner mint token_program in
      elim (get_balance token_account) [
        | balance b ↦ (parse_u64 b.amount >>= λ amount. ok (some amount))
        | for_user message ↦
            if contains account_not_found_text message || contains no_account_text message
            then ok none
            else err rpc_failed
        | failed ↦ err rpc_failed
      ]
