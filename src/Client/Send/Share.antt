-- ===== src/Client/Send/Share.antt =====
-- The share of the LP tokens that `withdraw_from_wsol_pool` of src/client.rs burns.
use native.Mathlib.Nat.{div-mul-le_self, lt-div-mul-add, div-le_of_le-mul, le-div_iff_mul-le}
use pump_swap_sdk.Prelude.{
  ℕ, ◌+◌, ◌*◌, ◌/◌, ◌^◌, ◌≤◌, ◌<◌, ◌≡◌, false, some, saturate, mul_le_right, mul_le_left, arith,
}
use pump_swap_sdk.Math.Binary64.{Magnitude, number, units, nearest, infinite}
use pump_swap_sdk.Math.Binary64.Magnitudes.{
  one_unit-pos, of_u64-units, u64-finite, whole-IsDouble, whole-lt-infinite,
}
use pump_swap_sdk.Math.Binary64.Estimates.{times-lower}
use pump_swap_sdk.Math.Binary64.Opposites.{times-upper}
use pump_swap_sdk.Math.Binary64.Arithmetic.{binary64, one_unit, times, mul, of_u64, to_u64}
use pump_swap_sdk.Math.Binary64.Bounds.{whole_portion}
use pump_swap_sdk.Client.Send.Liquidity.{share_of}

share_of-eq :
    (m c : Magnitude) (balance : ℕ)
    → times m (nearest (balance * one_unit) 1) ≡ some c
    → share_of (number false m) balance ≡ saturate (units c / one_unit)
unfolding share_of mul of_u64 to_u64
share_of-eq m c balance product = simp (product)

some-inj : {a b : Magnitude} → some a ≡ some b → a ≡ b
some-inj h = cc

-- The product by a converted amount, between two whole numbers around its exact value.
product_between :
    (m : Magnitude) (balance low high : ℕ)
    → balance < 2 ^ 53
    → units m ≤ one_unit
    → low ≤ balance
    → high ≤ 2 ^ 53
    → low * one_unit ≤ balance * units m
    → balance * units m ≤ high * one_unit
    → (c : Magnitude) × (times m (nearest (balance * one_unit) 1) ≡ some c)
      × (low * one_unit ≤ units c)
      × (units c ≤ high * one_unit)
product_between m balance low high small most within room under over =
    let whole = nearest (balance * one_unit) 1 in
    let exact : units whole ≡ balance * one_unit = of_u64-units balance (omega (arith, small)) in
    let finite_m : units m < units infinite =
      omega (arith, most, whole-lt-infinite 1 (omega arith)) in
    let finite_whole : units whole < units infinite = u64-finite balance (omega (arith, small)) in
    let (c, product, below) =
      times-lower m whole (low * one_unit) finite_m finite_whole
        (whole-IsDouble low (omega (arith, within, small)))
        (rw exact (omega (arith, mul_le_right one_unit under))) in
    let (e, same, above) =
      times-upper m whole (high * one_unit) finite_m finite_whole (whole-IsDouble high room)
        (rw exact (omega (arith, mul_le_right one_unit over))) in
    let one : e ≡ c = some-inj cc in (c, product, below, rw one at above)

saturated :
    (n low high : ℕ) → high ≤ 2 ^ 53 → low ≤ n → n ≤ high → (low ≤ saturate n) × (saturate n ≤ high)
saturated n low high small under over = (ground arith, ground arith)

bounds :
    (c : Magnitude) (low high : ℕ)
    → high ≤ 2 ^ 53
    → low * one_unit ≤ units c
    → units c ≤ high * one_unit
    → (low ≤ saturate (units c / one_unit)) × (saturate (units c / one_unit) ≤ high)
bounds c low high small under over =
    saturated (units c / one_unit) low high small ((le-div_iff_mul-le one_unit-pos).1 under)
      (div-le_of_le-mul one_unit (omega (arith, over)))

-- For a balance below 2^53 and a fraction from 0 to 1, as a binary64: the share is the product of the
-- two rounded down, or one more, and at most the balance.
pub share_of-part :
    (m : Magnitude) (balance : ℕ)
    → units m ≤ one_unit
    → balance < 2 ^ 53
    → let part = balance * units m / one_unit in
      let share = share_of (number false m) balance in
      (part ≤ share) × (share ≤ part + 1) × (share ≤ balance)
share_of-part m balance most small =
    let part = balance * units m / one_unit in
    let exact : balance * units m ≤ balance * one_unit = mul_le_left balance most in
    let within : part ≤ balance = div-le_of_le-mul one_unit (omega (arith, exact)) in
    let under : part * one_unit ≤ balance * units m =
      div-mul-le_self (balance * units m) one_unit in
    let over : balance * units m ≤ (part + 1) * one_unit =
      omega (arith, lt-div-mul-add {a = balance * units m} one_unit-pos) in
    let (c, product, low, high) =
      product_between m balance part (part + 1) small most within (omega (arith, within, small))
        under over in
    let (e, again, _, top) =
      product_between m balance part balance small most within (omega (arith, small)) under exact in
    let one : e ≡ c = some-inj cc in
    rw (share_of-eq m c balance product) (
      (bounds c part (part + 1) (omega (arith, within, small)) low high).0,
      (bounds c part (part + 1) (omega (arith, within, small)) low high).1,
      (bounds c part balance (omega (arith, small)) low (rw one at top)).1,
    )

-- The fraction 1 of a balance up to 2^53 is the balance.
pub share_of-whole : (balance : ℕ) → balance ≤ 2 ^ 53 → share_of binary64.one_f balance ≡ balance
unfolding share_of
share_of-whole balance h = whole_portion balance h
