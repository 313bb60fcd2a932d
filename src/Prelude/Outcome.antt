-- ===== src/Prelude/Outcome.antt =====
-- The results and errors of the library: `anyhow::Result`, with a constructor for each message.
use Prim.Native.Nat.{ℕ}
use mathlib.Core.Path.{◌≡◌, refl}
use mathlib.Core.List.{List}
use mathlib.Core.Logic.{◌⊎◌, inl, inr}
use mathlib.Core.Option.{Option, none, some}

-- The account whose discriminator a message is about.
pub data Account : Type 0 where
  fee_config global_config user_volume_accumulator global_volume_accumulator : Account
  sharing_config : Account

pub data Error : Type 0 where
  -- Pool account too short: expected, got
  pool_too_short : ℕ → ℕ → Error
  not_a_bonding_curve : Error
  no_discriminator : Account → Error
  -- found, expected
  unexpected_discriminator : Account → List ℕ → List ℕ → Error
  offset_overflow : Error
  -- need, got
  truncated : ℕ → ℕ → Error
  invalid_bool : ℕ → Error
  -- length, remaining bytes
  vector_too_long : ℕ → ℕ → Error
  invalid_status : ℕ → Error
  -- `Pubkey::create_with_seed` and the spl_token builders failed
  bad_seed : Error
  program_error : Error
  rpc_failed : Error
  -- an index out of the answer's range
  panicked : Error
  account_not_found : ℕ → Error
  -- the length
  token_account_too_short : ℕ → Error
  mint_account_too_short : ℕ → Error
  -- the pool and its quote mint
  fees_not_quotable : ℕ → ℕ → Error
  -- the pool
  fees_are_shared : ℕ → Error
  -- the mint
  no_sharing_config : ℕ → Error
  sharing_not_active : ℕ → Error
  -- the number of retries
  failed_to_send : ℕ → Error
  no_endpoints : Error
  no_bundle_uuid : Error
  -- a text that is no `u64`
  not_a_number : Error
  no_ui_amount : Error
  no_pooled_amounts : Error
  -- expected at least, got
  size_mismatch : ℕ → ℕ → Error
  zero_lp_balance : Error
  -- an environment variable that is not set, a text that does not parse, and a list of instructions
  -- without the one that is looked for
  not_set : Error
  not_parsed : Error
  instruction_not_found : Error

pub data Result {ℓ} (A : Type ℓ) : Type ℓ where
  ok : A → Result A
  err : Error → Result A

-- `ok_or_else(…)?`
abbrev pub ok_or {ℓ} : {A : Type ℓ} → Error → Option A → Result A
ok_or e none = err e
ok_or e (some a) = ok a

infixl 5 ◌>>=◌
abbrev pub ◌>>=◌ {ℓ κ} : {X : Type ℓ} {Y : Type κ} → Result X → (X → Result Y) → Result Y
err failure >>= next = err failure
ok value >>= next = next value

-- The success of a chain is the success of its first step and of what follows it.
pub >>=-eq-ok {ℓ κ} :
    {X : Type ℓ} {Y : Type κ} (first : Result X) (next : X → Result Y) {y : Y}
    → first >>= next ≡ ok y
    → (x : X) × (first ≡ ok x) × (next x ≡ ok y)
>>=-eq-ok (err failure) next success = cc
>>=-eq-ok (ok value) next success = (value, refl, success)

pub Result-cases {ℓ} :
    {A : Type ℓ} (r : Result A) → ((e : Error) × (r ≡ err e)) ⊎ ((a : A) × (r ≡ ok a))
Result-cases (err e) = inl (e, refl)
Result-cases (ok a) = inr (a, refl)
