-- ===== src/Math/Quote/Slippage.antt =====
-- The slippage bounds of src/math.rs, from the facts on `f64`.
use pump_swap_sdk.Prelude.{ℕ, ◌+◌, ◌<◌, IsU64, ◌^◌, ◌≤◌, inl, inr, arith}
use pump_swap_sdk.Math.Float.{Float, IsIeee, ◌≼◌, clamp}
use pump_swap_sdk.Math.Quote.{apply_slippage, raise_by_slippage}

module _ {F : Type 0} ⦃d : Float F⦄ (laws : IsIeee F) where
  open d use {zero_f, one_f, of_u64, to_u64, add, sub, mul, floor, ceil, max, min}

  clamp_num :
      (x : F)
      → clamp x zero_f one_f ≼ clamp x zero_f one_f
      → (zero_f ≼ clamp x zero_f one_f) × (clamp x zero_f one_f ≼ one_f)
  clamp_num x h = ground (
    arith,
    laws.le_of_not_lt x zero_f,
    laws.le_of_not_lt one_f x,
    laws.zero_num,
    laws.zero_le_one,
    laws.num_of_le zero_f one_f,
  )

  -- Scaling by a factor of at most 1, rounding down and converting back does not exceed the amount
  -- that is converted.
  scaled-le :
      (amount : ℕ) (x : F)
      → IsU64 amount
      → let q = floor (mul (of_u64 amount) (clamp x zero_f one_f)) in
        q ≼ q → to_u64 q ≤ to_u64 (of_u64 amount)
  scaled-le amount x h num =
      let a = of_u64 amount in
      let f = clamp x zero_f one_f in
      let product = laws.floor_num (mul a f) num in
      let (low, high) = clamp_num x (laws.mul_num a f product) in
      let down =
        laws.le_trans _ _ _ (laws.floor_le (mul a f) product) (laws.mul_le amount f h low high) in
      laws.to_u64_mono (floor (mul a f)) a down

  apply_slippage-le_converted :
      (amount : ℕ) (slippage : F)
      → IsU64 amount
      → apply_slippage amount slippage ≤ to_u64 (of_u64 amount)
  unfolding apply_slippage
  apply_slippage-le_converted amount slippage h =
      let q = floor (mul (of_u64 amount) (clamp (sub one_f slippage) zero_f one_f)) in
      elim (laws.max_cases q zero_f laws.zero_num).0 [
        | inl e ↦
            rw (e, apply_slippage)
              (laws.to_u64_mono zero_f (of_u64 amount) (laws.of_u64_nonneg amount))
        | inr (e, num) ↦ rw (e, apply_slippage) (scaled-le amount (sub one_f slippage) h num)
      ]

  -- The minimum never exceeds the amount, for every slippage, NaN and out-of-range values included,
  -- and every amount that an `f64` holds exactly.
  pub apply_slippage-le :
      (amount : ℕ) (slippage : F) → amount ≤ 2 ^ 53 → apply_slippage amount slippage ≤ amount
  apply_slippage-le amount slippage h =
      rw (laws.of_u64_exact amount h) at
        (apply_slippage-le_converted amount slippage (omega (arith, h)))

  -- For every `u64` amount, the minimum is less than 2^11 above it.
  pub apply_slippage-lt :
      (amount : ℕ) (slippage : F) → IsU64 amount → apply_slippage amount slippage < amount + 2 ^ 11
  apply_slippage-lt amount slippage h =
      omega (arith, apply_slippage-le_converted amount slippage h, laws.of_u64_near amount h)

  -- The cap is never below the amount, for every slippage and every amount that an `f64` holds
  -- exactly.
  pub le-raise_by_slippage :
      (amount : ℕ) (slippage : F) → amount ≤ 2 ^ 53 → amount ≤ raise_by_slippage amount slippage
  unfolding raise_by_slippage
  le-raise_by_slippage amount slippage h =
      let a = of_u64 amount in
      let grown =
        laws.add_ge one_f (max slippage zero_f) laws.zero_le_one
          (laws.max_cases slippage zero_f laws.zero_num).1 in
      let top = laws.one_le_of_u64 0xffff_ffff (omega arith) in
      let factor = min (add one_f (max slippage zero_f)) (of_u64 0xffff_ffff) in
      let factor_ge : one_f ≼ factor = at_least grown top in
      let factor_le =
        (laws.min_cases _ _ (laws.num_of_le _ _ grown).1 (laws.num_of_le _ _ top).1).1 in
      let product = laws.mul_ge amount 0xffff_ffff factor h (omega arith) factor_ge factor_le in
      let up =
        laws.le_trans _ _ _ product
          (laws.ceil_ge (mul a factor) (laws.num_of_le a (mul a factor) product).1) in
      rw (laws.of_u64_exact amount h) at (laws.to_u64_mono a (ceil (mul a factor)) up)
    where
      at_least : {x y : F} → one_f ≼ x → one_f ≼ y → one_f ≼ min x y
      at_least {x} {y} hx hy =
          elim (laws.min_cases x y (laws.num_of_le one_f x hx).1 (laws.num_of_le one_f y hy).1).0 [
            | inl e ↦ rw e hx
            | inr e ↦ rw e hy
          ]
