-- ===== src/State/Pool/Layout.antt =====
-- `PoolInfo::from_account_data` of src/state.rs against the account's layout: what it decodes from
-- an account that was written field by field, and what it refuses.
use pump_swap_sdk.Prelude.{
  ℕ, ◌+◌, ◌^◌, ◌<◌, ◌≡◌, refl, sym, ap, ◌∙◌, false, not, List, [], ◌++◌, ltb, ◌==◌, length, take,
  drop, take-append, drop-append, drop-drop, length-append, arith,
}
use pump_swap_sdk.Prelude.Int.{ℤ, pos, to_word, IsSigned}
use pump_swap_sdk.Prelude.Bytes.{to_le, length-to_le}
use pump_swap_sdk.Prelude.Outcome.{ok, err, pool_too_short}
use pump_swap_sdk.State.Pool.Offsets.{
  At-next, field-At, trailing_u64-At, trailing_i128-At, trailing_flag-At, trailing_u64-absent,
  trailing_i128-absent, trailing_flag-absent,
}
use pump_swap_sdk.State.Pool.{
  Pool, PoolInfo, pool_size, pool_slice, pool_from_bytes, from_account_data,
}

abbrev pub pool_bytes : Pool → List ℕ
pool_bytes p =
    to_le 1 p.pool_bump
    ++ (to_le 2 p.index
        ++ (to_le 32 p.creator
            ++ (to_le 32 p.base_mint
                ++ (to_le 32 p.quote_mint
                    ++ (to_le 32 p.lp_mint
                        ++ (to_le 32 p.pool_base_token_account
                            ++ (to_le 32 p.pool_quote_token_account
                                ++ (to_le 8 p.lp_supply
                                    ++ (to_le 32 p.coin_creator
                                        ++ (to_le 1 p.is_mayhem_mode
                                            ++ (to_le 1 p.is_cashback_coin ++ [])))))))))))

abbrev pub IsKey : ℕ → Type 0
IsKey k = k < 256 ^ 32

-- Every field fits its width.
pub record IsPool (p : Pool) : Type 0 where
  pub pool_bump : p.pool_bump < 256 ^ 1
  pub index : p.index < 256 ^ 2
  pub creator : IsKey p.creator
  pub base_mint : IsKey p.base_mint
  pub quote_mint : IsKey p.quote_mint
  pub lp_mint : IsKey p.lp_mint
  pub pool_base_token_account : IsKey p.pool_base_token_account
  pub pool_quote_token_account : IsKey p.pool_quote_token_account
  pub lp_supply : p.lp_supply < 256 ^ 8
  pub coin_creator : IsKey p.coin_creator
  pub is_mayhem_mode : p.is_mayhem_mode < 256 ^ 1
  pub is_cashback_coin : p.is_cashback_coin < 256 ^ 1

pool_from_bytes-pool_bytes : (p : Pool) → IsPool p → pool_from_bytes (pool_bytes p) ≡ p
unfolding pool_from_bytes
pool_from_bytes-pool_bytes p v =
    let bytes = pool_bytes p in
    let a1 = At-next 0 1 p.pool_bump bytes _ refl in
    let a2 = At-next 1 2 p.index bytes _ a1 in
    let a3 = At-next 3 32 p.creator bytes _ a2 in
    let a4 = At-next 35 32 p.base_mint bytes _ a3 in
    let a5 = At-next 67 32 p.quote_mint bytes _ a4 in
    let a6 = At-next 99 32 p.lp_mint bytes _ a5 in
    let a7 = At-next 131 32 p.pool_base_token_account bytes _ a6 in
    let a8 = At-next 163 32 p.pool_quote_token_account bytes _ a7 in
    let a9 = At-next 195 8 p.lp_supply bytes _ a8 in
    let a10 = At-next 203 32 p.coin_creator bytes _ a9 in
    let a11 = At-next 235 1 p.is_mayhem_mode bytes _ a10 in
    λ i. record {
      pool_bump = field-At 0 1 p.pool_bump bytes _ refl v.pool_bump i;
      index = field-At 1 2 p.index bytes _ a1 v.index i;
      creator = field-At 3 32 p.creator bytes _ a2 v.creator i;
      base_mint = field-At 35 32 p.base_mint bytes _ a3 v.base_mint i;
      quote_mint = field-At 67 32 p.quote_mint bytes _ a4 v.quote_mint i;
      lp_mint = field-At 99 32 p.lp_mint bytes _ a5 v.lp_mint i;
      pool_base_token_account =
          field-At 131 32 p.pool_base_token_account bytes _ a6 v.pool_base_token_account i;
      pool_quote_token_account =
          field-At 163 32 p.pool_quote_token_account bytes _ a7 v.pool_quote_token_account i;
      lp_supply = field-At 195 8 p.lp_supply bytes _ a8 v.lp_supply i;
      coin_creator = field-At 203 32 p.coin_creator bytes _ a9 v.coin_creator i;
      is_mayhem_mode = field-At 235 1 p.is_mayhem_mode bytes _ a10 v.is_mayhem_mode i;
      is_cashback_coin = field-At 236 1 p.is_cashback_coin bytes _ a11 v.is_cashback_coin i;
    }

length-pool_bytes : (p : Pool) → length (pool_bytes p) ≡ pool_size
length-pool_bytes p = simp (length-append, length-to_le)

-- What follows the `Pool` struct in a current account, and a reserved byte.
pub record Trailing : Type 0 where
  pub virtual_quote_reserves : ℤ
  pub creator_fee_bps : ℕ
  pub can_edit_creator_fee : ℕ
  pub is_holder_reward : ℕ
  pub protocol_fees : ℕ
  pub creator_fees : ℕ

abbrev pub trailing_bytes : Trailing → List ℕ → List ℕ
trailing_bytes t spare =
    to_le 16 (to_word (2 ^ 127) t.virtual_quote_reserves)
    ++ (to_le 8 t.creator_fee_bps
        ++ (to_le 1 t.can_edit_creator_fee
            ++ (to_le 1 t.is_holder_reward
                ++ (to_le 8 t.protocol_fees ++ (to_le 8 t.creator_fees ++ spare)))))

pub record IsTrailing (t : Trailing) : Type 0 where
  pub virtual_quote_reserves : IsSigned (2 ^ 127) t.virtual_quote_reserves
  pub creator_fee_bps : t.creator_fee_bps < 256 ^ 8
  pub is_holder_reward : t.is_holder_reward < 256 ^ 1
  pub protocol_fees : t.protocol_fees < 256 ^ 8
  pub creator_fees : t.creator_fees < 256 ^ 8

-- An account of the current layout: the discriminator, the struct, the trailing fields, spare bytes.
abbrev pub account_bytes : List ℕ → Pool → Trailing → List ℕ → List ℕ
account_bytes disc p t spare = disc ++ (pool_bytes p ++ trailing_bytes t spare)

-- The `PoolInfo` that such an account of `len` bytes stands for.
abbrev pub info_of : ℕ → ℕ → Pool → Trailing → ℕ → ℕ → PoolInfo
info_of pool len p t base_token_program quote_token_program = record {
  pool = pool;
  pool_account_data_len = len;
  base_mint = p.base_mint;
  quote_mint = p.quote_mint;
  lp_mint = p.lp_mint;
  pool_base_token_account = p.pool_base_token_account;
  pool_quote_token_account = p.pool_quote_token_account;
  creator = p.creator;
  coin_creator = p.coin_creator;
  is_mayhem_mode = not (p.is_mayhem_mode == 0);
  is_cashback_coin = not (p.is_cashback_coin == 0);
  virtual_quote_reserves = t.virtual_quote_reserves;
  creator_fee_bps = t.creator_fee_bps;
  is_holder_reward = not (t.is_holder_reward == 0);
  protocol_fees = t.protocol_fees;
  creator_fees = t.creator_fees;
  base_token_program = base_token_program;
  quote_token_program = quote_token_program;
}

abbrev pub no_trailing : Trailing
no_trailing = record {
  virtual_quote_reserves = pos 0;
  creator_fee_bps = 0;
  can_edit_creator_fee = 0;
  is_holder_reward = 0;
  protocol_fees = 0;
  creator_fees = 0;
}

pool_slice-eq :
    (disc : List ℕ) (p : Pool) (rest : List ℕ)
    → length disc ≡ 8
    → pool_slice (disc ++ (pool_bytes p ++ rest)) ≡ pool_bytes p
pool_slice-eq disc p rest e =
    ap (take pool_size) (rw e at (drop-append disc (pool_bytes p ++ rest)))
    ∙ rw (length-pool_bytes p) at (take-append (pool_bytes p) rest)

-- The struct of an account is read back.
pub pool_of_account :
    (disc : List ℕ) (p : Pool) (rest : List ℕ)
    → length disc ≡ 8
    → IsPool p
    → pool_from_bytes (pool_slice (disc ++ (pool_bytes p ++ rest))) ≡ p
pool_of_account disc p rest e v =
    ap pool_from_bytes (pool_slice-eq disc p rest e) ∙ pool_from_bytes-pool_bytes p v

pub length-account :
    (disc : List ℕ) (p : Pool) (rest : List ℕ)
    → length disc ≡ 8
    → length (disc ++ (pool_bytes p ++ rest)) ≡ 245 + length rest
length-account disc p rest e = omega (
  arith,
  length-append disc (pool_bytes p ++ rest),
  length-append (pool_bytes p) rest,
  length-pool_bytes p,
)

trailing_here :
    (disc : List ℕ) (p : Pool) (rest : List ℕ)
    → length disc ≡ 8
    → drop 245 (disc ++ (pool_bytes p ++ rest)) ≡ rest
trailing_here disc p rest e =
    let before : length disc + length (pool_bytes p) ≡ 245 = omega (arith, length-pool_bytes p) in
    rw before at (
      sym (drop-drop (length (pool_bytes p)) (length disc) (disc ++ (pool_bytes p ++ rest)))
      ∙ ap (drop (length (pool_bytes p))) (drop-append disc (pool_bytes p ++ rest))
      ∙ drop-append (pool_bytes p) rest)

ltb-add : (n k m : ℕ) → n ≡ k + m → ltb n k ≡ false
ltb-add n k m e = ground arith

-- The current layout, with a discriminator of 8 bytes and every field within its width: every field
-- is read back, whatever the discriminator and the spare bytes are.
pub from_account_data-account_bytes :
    (pool : ℕ) (disc : List ℕ) (p : Pool) (t : Trailing) (spare : List ℕ) (b q : ℕ)
    → length disc ≡ 8
    → IsPool p
    → IsTrailing t
    → let bytes = account_bytes disc p t spare in
      from_account_data pool bytes b q ≡ ok (info_of pool (length bytes) p t b q)
unfolding from_account_data
from_account_data-account_bytes pool disc p t spare b q e v w =
    let bytes = account_bytes disc p t spare in
    let rest = trailing_bytes t spare in
    let word = to_word (2 ^ 127) t.virtual_quote_reserves in
    let a0 : drop 245 bytes ≡ rest = trailing_here disc p rest e in
    let a1 = At-next 245 16 word bytes _ a0 in
    let a2 = At-next 261 8 t.creator_fee_bps bytes _ a1 in
    let a3 = At-next 269 1 t.can_edit_creator_fee bytes _ a2 in
    let a4 = At-next 270 1 t.is_holder_reward bytes _ a3 in
    let a5 = At-next 271 8 t.protocol_fees bytes _ a4 in
    let long : ltb (length bytes) 245 ≡ false = ltb-add _ 245 _ (length-account disc p rest e) in
    rw (
      long,
      pool_slice-eq disc p rest e,
      pool_from_bytes-pool_bytes p v,
      trailing_i128-At 245 t.virtual_quote_reserves bytes _ a0 w.virtual_quote_reserves,
      trailing_u64-At 261 t.creator_fee_bps bytes _ a1 w.creator_fee_bps,
      trailing_flag-At 270 t.is_holder_reward bytes _ a3 w.is_holder_reward,
      trailing_u64-At 271 t.protocol_fees bytes _ a4 w.protocol_fees,
      trailing_u64-At 279 t.creator_fees bytes _ a5 w.creator_fees,
    )

-- An account shorter than the struct and its discriminator is refused, with both lengths.
pub from_account_data_short :
    (pool : ℕ) (bytes : List ℕ) (b q : ℕ)
    → length bytes < 245
    → from_account_data pool bytes b q ≡ err (pool_too_short 245 (length bytes))
unfolding from_account_data
from_account_data_short pool bytes b q h = ground arith

-- A legacy account, which ends less than 16 bytes behind the struct, with every field within its
-- width: the struct's fields are read back, and the trailing ones are zero.
pub from_account_data_legacy :
    (pool : ℕ) (disc : List ℕ) (p : Pool) (spare : List ℕ) (b q : ℕ)
    → length disc ≡ 8
    → IsPool p
    → length spare < 16
    → from_account_data pool (disc ++ (pool_bytes p ++ spare)) b q
      ≡ ok (info_of pool (245 + length spare) p no_trailing b q)
unfolding from_account_data
from_account_data_legacy pool disc p spare b q e v h =
    let bytes = disc ++ (pool_bytes p ++ spare) in
    let size : length bytes ≡ 245 + length spare = length-account disc p spare e in
    rw (
      ltb-add _ 245 _ size,
      pool_slice-eq disc p spare e,
      pool_from_bytes-pool_bytes p v,
      trailing_i128-absent bytes 245 (omega arith),
      trailing_u64-absent bytes 261 (omega arith),
      trailing_flag-absent bytes 270 (omega arith),
      trailing_u64-absent bytes 271 (omega arith),
      trailing_u64-absent bytes 279 (omega arith),
      size,
    )
