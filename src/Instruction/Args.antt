-- ===== src/Instruction/Args.antt =====
-- The argument structs of src/instruction.rs and their byte layouts.
pub mod Wire
use pump_swap_sdk.Prelude.{ℕ, ◌≡◌, Bool, true, false, List, [], ◌∷◌, ◌++◌, if◌then◌else◌}
use pump_swap_sdk.Prelude.Bytes.{to_le}

-- `flag as u8`
abbrev pub flag : Bool → ℕ
flag b = if b then 1 else 0

pub record BuyInstruction : Type 0 where
  pub base_amount_out : ℕ
  pub max_quote_amount_in : ℕ
  pub track_volume : Bool

pub record BuyExactQuoteInInstruction : Type 0 where
  pub spendable_quote_in : ℕ
  pub min_base_amount_out : ℕ
  pub track_volume : Bool

pub record SellInstruction : Type 0 where
  pub discriminator : List ℕ
  pub base_amount_in : ℕ
  pub min_quote_amount_out : ℕ

pub record DepositInstruction : Type 0 where
  pub discriminator : List ℕ
  pub lp_token_amount_out : ℕ
  pub max_base_amount_in : ℕ
  pub max_quote_amount_in : ℕ

pub record WithdrawInstruction : Type 0 where
  pub discriminator : List ℕ
  pub lp_token_amount_in : ℕ
  pub min_base_amount_out : ℕ
  pub min_quote_amount_out : ℕ

pub record CreatePoolInstruction : Type 0 where
  pub discriminator : List ℕ
  pub index : ℕ
  pub base_amount_in : ℕ
  pub quote_amount_in : ℕ
  pub coin_creator : ℕ
  pub is_mayhem_mode : ℕ
  pub is_cashback_coin : ℕ

abbrev pub buy_discriminator : List ℕ
buy_discriminator = 102 ∷ 6 ∷ 61 ∷ 18 ∷ 1 ∷ 218 ∷ 235 ∷ 234 ∷ []

abbrev pub buy_exact_quote_in_discriminator : List ℕ
buy_exact_quote_in_discriminator = 198 ∷ 46 ∷ 21 ∷ 82 ∷ 180 ∷ 217 ∷ 232 ∷ 112 ∷ []

abbrev pub sell_discriminator : List ℕ
sell_discriminator = 51 ∷ 230 ∷ 133 ∷ 164 ∷ 1 ∷ 127 ∷ 131 ∷ 173 ∷ []

abbrev pub deposit_discriminator : List ℕ
deposit_discriminator = 242 ∷ 35 ∷ 198 ∷ 137 ∷ 82 ∷ 225 ∷ 242 ∷ 182 ∷ []

abbrev pub withdraw_discriminator : List ℕ
withdraw_discriminator = 183 ∷ 18 ∷ 70 ∷ 156 ∷ 148 ∷ 109 ∷ 161 ∷ 34 ∷ []

abbrev pub create_pool_discriminator : List ℕ
create_pool_discriminator = 233 ∷ 146 ∷ 209 ∷ 142 ∷ 207 ∷ 104 ∷ 64 ∷ 188 ∷ []

abbrev pub claim_cashback_discriminator : List ℕ
claim_cashback_discriminator = 37 ∷ 58 ∷ 35 ∷ 126 ∷ 190 ∷ 53 ∷ 228 ∷ 197 ∷ []

-- The constructors `new`.
unfoldable pub new_buy : ℕ → ℕ → Bool → BuyInstruction
new_buy base_amount_out max_quote_amount_in track_volume = record {
  base_amount_out = base_amount_out;
  max_quote_amount_in = max_quote_amount_in;
  track_volume = track_volume;
}

unfoldable pub new_buy_exact_quote_in : ℕ → ℕ → Bool → BuyExactQuoteInInstruction
new_buy_exact_quote_in spendable_quote_in min_base_amount_out track_volume = record {
  spendable_quote_in = spendable_quote_in;
  min_base_amount_out = min_base_amount_out;
  track_volume = track_volume;
}

unfoldable pub new_sell : ℕ → ℕ → SellInstruction
new_sell base_amount_in min_quote_amount_out = record {
  discriminator = sell_discriminator;
  base_amount_in = base_amount_in;
  min_quote_amount_out = min_quote_amount_out;
}

unfoldable pub new_deposit : ℕ → ℕ → ℕ → DepositInstruction
new_deposit lp_token_amount_out max_base_amount_in max_quote_amount_in = record {
  discriminator = deposit_discriminator;
  lp_token_amount_out = lp_token_amount_out;
  max_base_amount_in = max_base_amount_in;
  max_quote_amount_in = max_quote_amount_in;
}

unfoldable pub new_withdraw : ℕ → ℕ → ℕ → WithdrawInstruction
new_withdraw lp_token_amount_in min_base_amount_out min_quote_amount_out = record {
  discriminator = withdraw_discriminator;
  lp_token_amount_in = lp_token_amount_in;
  min_base_amount_out = min_base_amount_out;
  min_quote_amount_out = min_quote_amount_out;
}

unfoldable pub new_create_pool : ℕ → ℕ → ℕ → ℕ → Bool → Bool → CreatePoolInstruction
new_create_pool index base_amount_in quote_amount_in coin_creator is_mayhem_mode is_cashback_coin =
    record {
      discriminator = create_pool_discriminator;
      index = index;
      base_amount_in = base_amount_in;
      quote_amount_in = quote_amount_in;
      coin_creator = coin_creator;
      is_mayhem_mode = flag is_mayhem_mode;
      is_cashback_coin = flag is_cashback_coin;
    }

abbrev pub new_default_create_pool : ℕ → ℕ → ℕ → CreatePoolInstruction
new_default_create_pool base_amount_in quote_amount_in coin_creator =
    new_create_pool 0 base_amount_in quote_amount_in coin_creator false false

abbrev pub claim_cashback_to_vec : List ℕ
claim_cashback_to_vec = claim_cashback_discriminator

-- The functions `to_vec`; those of the `Pod` structs write the fields in `repr(C)` order, which has no
-- padding, since a discriminator and every field of these has 8 bytes.
unfoldable pub buy_to_vec : BuyInstruction → List ℕ
buy_to_vec i =
    buy_discriminator
    ++ (to_le 8 i.base_amount_out ++ (to_le 8 i.max_quote_amount_in ++ (flag i.track_volume ∷ [])))

unfoldable pub buy_exact_quote_in_to_vec : BuyExactQuoteInInstruction → List ℕ
buy_exact_quote_in_to_vec i =
    buy_exact_quote_in_discriminator
    ++ (to_le 8 i.spendable_quote_in
        ++ (to_le 8 i.min_base_amount_out ++ (flag i.track_volume ∷ [])))

unfoldable pub sell_to_vec : SellInstruction → List ℕ
sell_to_vec i = i.discriminator ++ (to_le 8 i.base_amount_in ++ to_le 8 i.min_quote_amount_out)

unfoldable pub deposit_to_vec : DepositInstruction → List ℕ
deposit_to_vec i =
    i.discriminator
    ++ (to_le 8 i.lp_token_amount_out
        ++ (to_le 8 i.max_base_amount_in ++ to_le 8 i.max_quote_amount_in))

unfoldable pub withdraw_to_vec : WithdrawInstruction → List ℕ
withdraw_to_vec i =
    i.discriminator
    ++ (to_le 8 i.lp_token_amount_in
        ++ (to_le 8 i.min_base_amount_out ++ to_le 8 i.min_quote_amount_out))

unfoldable pub create_pool_to_vec : CreatePoolInstruction → List ℕ
create_pool_to_vec i =
    i.discriminator
    ++ (to_le 2 i.index
        ++ (to_le 8 i.base_amount_in
            ++ (to_le 8 i.quote_amount_in
                ++ (to_le 32 i.coin_creator ++ (i.is_mayhem_mode ∷ i.is_cashback_coin ∷ [])))))
