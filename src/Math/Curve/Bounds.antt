-- ===== src/Math/Curve/Bounds.antt =====
-- What `constant_product_out` and `market_cap_lamports` of src/math.rs compute on `u64` inputs.
use native.Mathlib.Nat.{
  le-div_iff_mul-le, div-mul-le_self, div-le_of_le-mul, lt-div-mul-add, div-le_self, le_refl,
  mul-le-mul,
}
use pump_swap_sdk.Prelude.{
  ℕ, ◌+◌, ◌-◌, ◌*◌, ◌/◌, ◌^◌, ◌≤◌, ◌<◌, ◌≡◌, ap, ◌⊎◌, ◌↔◌, false, inl, inr, IsU64, ◌==◌,
  if◌then◌else◌, saturate, u64_max, mul_u128-eq, add_u128-eq, mul_le_right, arith,
}
use pump_swap_sdk.Math.Curve.{constant_product_out, market_cap_lamports}

pub div-le : (a r out : ℕ) → out * a / (r + a) ≤ out
div-le a r out = div-le_of_le-mul (r + a) (omega arith)

guarded : (n d : ℕ) → n / d ≤ u64_max → (if d == 0 then 0 else saturate (n / d)) ≡ n / d
guarded n d h = ground arith

-- The intermediate products fit `u128` and the quotient fits `u64`: the result is the exact floor.
pub constant_product_out-eq :
    (a r out : ℕ) → IsU64 a → IsU64 r → IsU64 out → constant_product_out a r out ≡ out * a / (r + a)
unfolding constant_product_out
constant_product_out-eq a r out ha hr ho =
    rw (mul_u128-eq out a ho ha, add_u128-eq r a hr ha)
      (guarded (out * a) (r + a) (omega (arith, div-le a r out)))

-- The product of the reserves after a payout `z` for an input `a`, in terms that are linear in each.
pub product_after :
    (a r out z : ℕ) → z ≤ out → (r + a) * (out - z) + z * (r + a) ≡ r * out + out * a
product_after a r out z h =
    let whole : out ≡ z + (out - z) = omega arith in
    omega (arith, ap (λ (t : ℕ). r * t) whole, ap (λ (t : ℕ). t * a) whole)

-- For `u64` amounts and a pool that is not empty, the payout is at most the reserve, and it does not
-- shrink the product of the reserves.
pub constant_product_out_invariant :
    (a r out : ℕ)
    → IsU64 a
    → IsU64 r
    → IsU64 out
    → 0 < r + a
    → let y = constant_product_out a r out in (y ≤ out) × (r * out ≤ (r + a) * (out - y))
constant_product_out_invariant a r out ha hr ho h =
    let y = out * a / (r + a) in
    let small = div-le a r out in
    rw (constant_product_out-eq a r out ha hr ho)
      (small, omega (arith, product_after a r out y small, div-mul-le_self (out * a) (r + a)))

-- For `u64` amounts and a pool that is not empty: a payout is within the reserve and keeps the
-- product of the reserves exactly when it is at most the payout of the curve.
pub constant_product_out_keeps_iff :
    (a r out z : ℕ)
    → IsU64 a
    → IsU64 r
    → IsU64 out
    → 0 < r + a
    → ((z ≤ out) × (r * out ≤ (r + a) * (out - z))) ↔ (z ≤ constant_product_out a r out)
constant_product_out_keeps_iff a r out z ha hr ho h =
    let y = out * a / (r + a) in
    let paid : y ≤ out = div-le a r out in
    let most = le-div_iff_mul-le {k = r + a} {x = z} {y = out * a} h in
    rw (constant_product_out-eq a r out ha hr ho) (
      λ kept.
          let (within, keeps) = kept in
          most.1 (omega (arith, product_after a r out z within, keeps)),
      λ le. (
        omega (arith, paid, le),
        omega (arith, product_after a r out z (omega (arith, paid, le)), most.0 le),
      ),
    )

floor_mono : (a b r out : ℕ) → 0 < r + b → a ≤ b → out * a / (r + a) ≤ out * b / (r + b)
floor_mono a b r out h le =
    let y = out * a / (r + a) in
    let whole : b ≡ a + (b - a) = omega arith in
    (le-div_iff_mul-le h).1 (
      omega (
        arith,
        div-mul-le_self (out * a) (r + a),
        mul_le_right (b - a) (div-le a r out),
        ap (λ (t : ℕ). y * t) whole,
        ap (λ (t : ℕ). out * t) whole,
      ))

zero-or-pos : (n : ℕ) → (n ≡ 0) ⊎ (0 < n)
zero-or-pos n = omega arith

-- For `u64` amounts, a larger input never buys less.
pub constant_product_out_mono :
    (a b r out : ℕ)
    → IsU64 b
    → IsU64 r
    → IsU64 out
    → a ≤ b
    → constant_product_out a r out ≤ constant_product_out b r out
constant_product_out_mono a b r out hb hr ho le =
    rw
      (
        constant_product_out-eq a r out (omega arith) hr ho,
        constant_product_out-eq b r out hb hr ho,
      )
      (elim (zero-or-pos (r + b)) [
        | inl none_at_all ↦ let same : a ≡ b = omega arith in rw same (le_refl (out * b / (r + b)))
        | inr some_there ↦ floor_mono a b r out some_there le
      ])

quotient_bounds :
    (n d : ℕ) → 0 < d → let m = if d == 0 then 0 else n / d in (m * d ≤ n) × (n < m * d + d)
quotient_bounds n d h =
    let there : (d == 0) ≡ false = ground arith in rw there (div-mul-le_self n d, lt-div-mul-add h)

quotient_fits : (n d : ℕ) → n < 2 ^ 128 → (if d == 0 then 0 else n / d) < 2 ^ 128
quotient_fits n d h = ground (arith, div-le_self n d)

-- For `u64` inputs and a base reserve, the market cap is the exact floor, and fits `u128`.
pub market_cap_lamports_lem :
    (supply base quote : ℕ)
    → IsU64 supply
    → IsU64 quote
    → 0 < base
    → (market_cap_lamports supply base quote * base ≤ supply * quote)
      × (supply * quote < market_cap_lamports supply base quote * base + base)
      × (market_cap_lamports supply base quote < 2 ^ 128)
unfolding market_cap_lamports
market_cap_lamports_lem supply base quote hs hq h =
    let (low, high) = quotient_bounds (supply * quote) base h in
    rw (mul_u128-eq supply quote hs hq) (
      low,
      high,
      quotient_fits (supply * quote) base (omega (arith, mul-le-mul (below hs) (below hq))),
    )
  where
    below : {n : ℕ} → IsU64 n → n ≤ u64_max
    below h = omega arith
