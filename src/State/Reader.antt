-- ===== src/State/Reader.antt =====
-- `struct Reader` of src/state.rs, the sequential borsh reader over raw account bytes.
-- A `usize` is 64 bits wide; a method on `&mut self` returns the reader that it leaves.
pub mod Encoding
pub mod Extent
pub mod Accounts
use pump_swap_sdk.Prelude.{
  ℕ, zero, suc, ◌+◌, ◌-◌, ◌*◌, ◌^◌, Bool, true, false, ◌&&◌, List, [], ◌∷◌, none, some, ltb, leb,
  ◌==◌, if◌then◌else◌, length, take, drop, get_range, u64_max, saturate,
}
use pump_swap_sdk.Prelude.Int.{ℤ, signed}
use pump_swap_sdk.Prelude.Bytes.{from_le}
use pump_swap_sdk.Prelude.Outcome.{
  Account, Result, ok, err, no_discriminator, unexpected_discriminator, offset_overflow, truncated,
  invalid_bool, vector_too_long,
}

pub record Reader : Type 0 where
  pub bytes : List ℕ
  pub pos : ℕ

abbrev pub Decoder : Type 0 → Type 0
Decoder A = Reader → Result (A × Reader)

infixl 5 ◌>>=◌
abbrev pub ◌>>=◌ : {A B : Type 0} → Decoder A → (A → Decoder B) → Decoder B
◌>>=◌ m f r = elim (m r) [ ok (a, s) ↦ f a s | err e ↦ err e ]

abbrev pub pure : {A : Type 0} → A → Decoder A
pure a r = ok (a, r)

abbrev pub fail : {A : Type 0} → Result A → Decoder A
fail (ok a) r = ok (a, r)
fail (err e) r = err e

unfoldable pub eq_bytes : List ℕ → List ℕ → Bool
eq_bytes [] [] = true
eq_bytes (a ∷ as') (b ∷ bs) = a == b && eq_bytes as' bs
eq_bytes _ _ = false

unfoldable pub after_discriminator : List ℕ → List ℕ → Account → Result Reader
unfolding eq_bytes
after_discriminator bytes expected account = elim (get_range bytes 0 8) [
  | none ↦ err (no_discriminator account)
  | some found ↦
      if eq_bytes found expected
      then ok (record { bytes = bytes; pos = 8 })
      else err (unexpected_discriminator account found expected)
]

unfoldable pub take_bytes : ℕ → Decoder (List ℕ)
take_bytes len r =
    let end = r.pos + len in
    if ltb u64_max end then err offset_overflow else elim (get_range r.bytes r.pos end) [
      | none ↦ err (truncated end (length r.bytes))
      | some slice ↦ ok (slice, record r { pos = end })
    ]

-- `u8` to `u128` read an unsigned integer of 1 to 16 bytes.
unfoldable pub uint : ℕ → Decoder ℕ
uint width = do slice ← take_bytes width; pure (from_le slice)

abbrev pub u8 : Decoder ℕ
u8 = uint 1

abbrev pub u16 : Decoder ℕ
u16 = uint 2

abbrev pub u32 : Decoder ℕ
u32 = uint 4

abbrev pub u64 : Decoder ℕ
u64 = uint 8

abbrev pub u128 : Decoder ℕ
u128 = uint 16

unfoldable pub i64 : Decoder ℤ
i64 = do word ← uint 8; pure (signed (2 ^ 63) word)

-- A public key is the number whose 32 little-endian digits are its bytes.
abbrev pub pubkey : Decoder ℕ
pubkey = uint 32

abbrev pub to_bool : ℕ → Result Bool
to_bool zero = ok false
to_bool (suc zero) = ok true
to_bool (suc (suc n)) = err (invalid_bool (suc (suc n)))

unfoldable pub bool : Decoder Bool
bool = do byte ← u8; fail (to_bool byte)

-- The loop of `u64_array`, `pubkey_array` and `vec`: one read for each slot.
unfoldable pub array : {A : Type 0} → ℕ → Decoder A → Decoder (List A)
array zero read = pure []
array (suc n) read = do x ← read; xs ← array n read; pure (x ∷ xs)

abbrev pub u64_array : ℕ → Decoder (List ℕ)
u64_array n = array n u64

abbrev pub pubkey_array : ℕ → Decoder (List ℕ)
pubkey_array n = array n pubkey

unfoldable pub vec : {A : Type 0} → ℕ → Decoder A → Decoder (List A)
vec min_element_len read = do
  len ← u32
  λ r.
      let remaining = length r.bytes - r.pos in
      if ltb remaining (saturate (len * min_element_len))
      then err (vector_too_long len remaining)
      else array len read r

-- Runs a record's decoder behind the discriminator; what is left of the account is ignored.
unfoldable pub decode_account : {A : Type 0} → List ℕ → Account → Decoder A → List ℕ → Result A
decode_account expected account read bytes = elim (after_discriminator bytes expected account) [
  | err e ↦ err e
  | ok reader ↦ elim (read reader) [ ok (value, _) ↦ ok value | err e ↦ err e ]
]
