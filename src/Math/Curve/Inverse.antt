-- ===== src/Math/Curve/Inverse.antt =====
-- `constant_product_in` of src/math.rs as the inverse of `constant_product_out`.
use native.Mathlib.Nat.{le-div_iff_mul-le, div-le_of_le-mul, div-mul-le_self}
use pump_swap_sdk.Prelude.{
  ℕ, ◌+◌, ◌-◌, ◌*◌, ◌/◌, ◌≤◌, ◌<◌, ◌≡◌, ap, ◌↔◌, ◌⊎◌, inl, inr, none, some, IsU64, saturate,
  u64_max, div_ceil, mul_u128-eq, arith,
}
use pump_swap_sdk.Prelude.Division.{div_ceil-le_iff}
use pump_swap_sdk.Math.Curve.{constant_product_out, constant_product_in}
use pump_swap_sdk.Math.Curve.Bounds.{constant_product_out-eq, div-le}

-- There is a price exactly for the amounts below the reserve; it is the quotient rounded up, or the
-- largest `u64` where that is larger.
pub constant_product_in_cases :
    (y r out : ℕ)
    → IsU64 y
    → IsU64 r
    → (y < out → constant_product_in y r out ≡ some (saturate (div_ceil (r * y) (out - y))))
      × (out ≤ y → constant_product_in y r out ≡ none)
unfolding constant_product_in
constant_product_in_cases y r out hy hr =
    (λ h. ground (arith, mul_u128-eq r y hr hy), λ h. ground (arith, mul_u128-eq r y hr hy))

lt-or-le : (a b : ℕ) → (a < b) ⊎ (b ≤ a)
lt-or-le a b = omega arith

saturated : (n x : ℕ) → some (saturate n) ≡ some x → x < u64_max → x ≡ n
saturated n x e h = ground arith

-- What `y` for `a` asks of the curve, from the side of the output and from that of the input.
products : (y r out a : ℕ) → y ≤ out → (y * (r + a) ≤ out * a) ↔ (r * y ≤ a * (out - y))
products y r out a h =
    let whole : out ≡ y + (out - y) = omega arith in
    let multiplied = ap (λ (t : ℕ). t * a) whole in
    (λ k. omega (arith, multiplied), λ k. omega (arith, multiplied))

-- For `u64` amounts, an input reserve and a price of `y` that does not saturate: a `u64` input buys
-- `y` exactly when it is at least the price, the least input that the curve pays `y` for.
pub constant_product_in_galois :
    (y r out x : ℕ)
    → IsU64 y
    → IsU64 r
    → IsU64 out
    → 0 < r
    → constant_product_in y r out ≡ some x
    → x < u64_max
    → (a : ℕ) → IsU64 a
    → (y ≤ constant_product_out a r out) ↔ (x ≤ a)
constant_product_in_galois y r out x hy hr ho h e small a ha = elim (lt-or-le y out) [
  | inr drained ↦ absurd (cc ((constant_product_in_cases y r out hy hr).1 drained))
  | inl below ↦
      let price : x ≡ div_ceil (r * y) (out - y) =
        saturated (div_ceil (r * y) (out - y)) x
          (cc ((constant_product_in_cases y r out hy hr).0 below)) small in
      let bought = le-div_iff_mul-le {k = r + a} {x = y} {y = out * a} (omega arith) in
      let paid = div_ceil-le_iff (r * y) (out - y) a (omega arith) in
      let same = products y r out a (omega arith) in
      rw (constant_product_out-eq a r out ha hr ho, price)
        (λ k. paid.1 (same.0 (bought.0 k)), λ k. bought.1 (same.1 (paid.0 k)))
]

-- Where the payout reserve and the grown input reserve are `u64`: putting back at once what the curve
-- paid, on the reserves that are then left, gets at most what was put in.
pub constant_product_out_round_trip :
    (a r out : ℕ)
    → IsU64 out
    → IsU64 (r + a)
    → let y = constant_product_out a r out in constant_product_out y (out - y) (r + a) ≤ a
constant_product_out_round_trip a r out ho h =
    let y = out * a / (r + a) in
    let small = div-le a r out in
    let whole : out - y + y ≡ out = omega arith in
    rw
      (
        constant_product_out-eq a r out (omega arith) (omega arith) ho,
        constant_product_out-eq y (out - y) (r + a) (omega arith) (omega arith) h,
        whole,
      )
      (div-le_of_le-mul out (omega (arith, div-mul-le_self (out * a) (r + a))))
