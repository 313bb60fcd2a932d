-- ===== src/Instruction/Args/Wire.antt =====
-- The byte layouts of src/instruction.rs are read back by the reader of src/state.rs: the arguments
-- that were written are the ones that a decoder of the layout finds.
use pump_swap_sdk.Prelude.{
  ℕ, ◌^◌, ◌<◌, ◌≡◌, refl, Bool, true, false, List, [], ◌∷◌, length, length-append, IsU64,
}
use pump_swap_sdk.Prelude.Bytes.{to_le, length-to_le}
use pump_swap_sdk.State.Reader.{Decoder, ◌>>=◌, pure, u16, u64, pubkey, bool, take_bytes}
use pump_swap_sdk.State.Reader.Encoding.{
  Reads, Reads-bind, Reads-map, Reads-uint, Reads-bool, Reads-take_bytes,
}
use pump_swap_sdk.Instruction.Args.{
  BuyInstruction, BuyExactQuoteInInstruction, buy_to_vec, buy_exact_quote_in_to_vec,
  create_pool_to_vec, buy_discriminator, buy_exact_quote_in_discriminator, new_create_pool,
  create_pool_discriminator, flag,
}

-- The on-chain layout of `buy` and `buy_exact_quote_in`: discriminator, two amounts, a flag.
abbrev pub read_amounts : Decoder (List ℕ × ℕ × ℕ × Bool)
read_amounts = do
  disc ← take_bytes 8
  first ← u64
  second ← u64
  track ← bool
  pure (disc, first, second, track)

flag_byte : (b : Bool) → Reads bool b (flag b ∷ [])
unfolding to_le
flag_byte true = Reads-bool true
flag_byte false = Reads-bool false

-- An exact-out buy of `u64` amounts writes 25 bytes, from which its discriminator, amounts and flag
-- are read back.
pub Reads-buy_to_vec :
    (i : BuyInstruction)
    → IsU64 i.base_amount_out
    → IsU64 i.max_quote_amount_in
    → Reads read_amounts
        (buy_discriminator, i.base_amount_out, i.max_quote_amount_in, i.track_volume)
        (buy_to_vec i)
      × (length (buy_to_vec i) ≡ 25)
unfolding buy_to_vec
Reads-buy_to_vec i h k = (
  Reads-bind _ (Reads-take_bytes 8 buy_discriminator refl) (
      Reads-bind _ (Reads-uint 8 i.base_amount_out h) (
        Reads-bind _ (Reads-uint 8 i.max_quote_amount_in k)
          (Reads-map _ (flag_byte i.track_volume)))),
  simp (length-append, length-to_le),
)

pub Reads-buy_exact_quote_in_to_vec :
    (i : BuyExactQuoteInInstruction)
    → IsU64 i.spendable_quote_in
    → IsU64 i.min_base_amount_out
    → Reads read_amounts
        (
          buy_exact_quote_in_discriminator, i.spendable_quote_in, i.min_base_amount_out,
          i.track_volume,
        )
        (buy_exact_quote_in_to_vec i)
      × (length (buy_exact_quote_in_to_vec i) ≡ 25)
unfolding buy_exact_quote_in_to_vec
Reads-buy_exact_quote_in_to_vec i h k = (
  Reads-bind _ (Reads-take_bytes 8 buy_exact_quote_in_discriminator refl) (
      Reads-bind _ (Reads-uint 8 i.spendable_quote_in h) (
        Reads-bind _ (Reads-uint 8 i.min_base_amount_out k)
          (Reads-map _ (flag_byte i.track_volume)))),
  simp (length-append, length-to_le),
)

-- The on-chain layout of `create_pool`.
abbrev pub read_create_pool : Decoder (List ℕ × ℕ × ℕ × ℕ × ℕ × Bool × Bool)
read_create_pool = do
  disc ← take_bytes 8
  index ← u16
  base ← u64
  quote ← u64
  creator ← pubkey
  mayhem ← bool
  cashback ← bool
  pure (disc, index, base, quote, creator, mayhem, cashback)

-- The arguments of `create_pool` are read back, the two flags as Booleans.
pub Reads-create_pool_to_vec :
    (index base quote creator : ℕ) (mayhem cashback : Bool)
    → index < 2 ^ 16
    → IsU64 base
    → IsU64 quote
    → creator < 2 ^ 256
    → Reads read_create_pool
        (create_pool_discriminator, index, base, quote, creator, mayhem, cashback)
        (create_pool_to_vec (new_create_pool index base quote creator mayhem cashback))
unfolding create_pool_to_vec new_create_pool
Reads-create_pool_to_vec index base quote creator mayhem cashback hi hb hq hc =
    Reads-bind _ (Reads-take_bytes 8 create_pool_discriminator refl) (
      Reads-bind _ (Reads-uint 2 index hi) (
        Reads-bind _ (Reads-uint 8 base hb) (
          Reads-bind _ (Reads-uint 8 quote hq) (
            Reads-bind _ (Reads-uint 32 creator hc)
              (Reads-bind _ (flag_byte mayhem) (Reads-map _ (flag_byte cashback)))))))
