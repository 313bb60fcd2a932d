-- ===== src/State/Fees/Rounding.antt =====
-- The rounding of `Fees::fee_on` of src/state.rs.
use pump_swap_sdk.Prelude.{
  ℕ, ◌+◌, ◌*◌, ◌≤◌, ◌<◌, ◌≡◌, ap, mul_le_left, mul_le_right, IsU64, u64_max, saturate,
  saturating_add, mul_u128-eq, div_ceil, arith,
}
use pump_swap_sdk.State.Fees.{Fees, ceil_div_bps, total_bps, fee_on}

-- Every component is a `u64`, and together they are at most the whole amount.
pub record IsSchedule (f : Fees) : Type 0 where
  pub all_lp : f.lp_fee_bps + f.protocol_fee_bps + f.creator_fee_bps ≤ 10_000

pub div_ceil_bounds :
    (n : ℕ) → (n ≤ div_ceil n 10_000 * 10_000) × (div_ceil n 10_000 * 10_000 < n + 10_000)
div_ceil_bounds n = ground arith

pub saturate-eq : (n : ℕ) → n ≤ u64_max → saturate n ≡ n
saturate-eq n h = ground arith

pub ceil_div_bps-eq :
    (amount bps : ℕ)
    → IsU64 amount
    → bps ≤ 10_000
    → ceil_div_bps amount bps ≡ div_ceil (amount * bps) 10_000
unfolding ceil_div_bps
ceil_div_bps-eq amount bps h k =
    let product : amount * bps ≤ amount * 10_000 = grind arith in
    rw (
      mul_u128-eq amount bps h (omega arith),
      saturate-eq (div_ceil (amount * bps) 10_000) (omega (arith, div_ceil_bounds (amount * bps))),
    )

saturate_between :
    (low n : ℕ)
    → low ≤ n
    → n ≤ low + 2
    → low ≤ u64_max
    → (low ≤ saturate n) × (saturate n ≤ low + 2)
saturate_between low n h k m = ground arith

saturate-twice :
    (a b c : ℕ) → saturating_add (saturating_add (saturating_add 0 a) b) c ≡ saturate (a + b + c)
saturate-twice a b c = ground arith

-- The three components, each rounded up.
abbrev pub rounded_apart : Fees → ℕ → ℕ
rounded_apart f amount =
    div_ceil (amount * f.lp_fee_bps) 10_000
    + div_ceil (amount * f.protocol_fee_bps) 10_000
    + div_ceil (amount * f.creator_fee_bps) 10_000

pub fee_on-eq :
    (f : Fees) (amount : ℕ)
    → IsU64 amount
    → IsSchedule f
    → fee_on f amount ≡ saturate (rounded_apart f amount)
unfolding fee_on
fee_on-eq f amount h s =
    let lp = ceil_div_bps-eq amount f.lp_fee_bps h (omega (arith, s.all_lp)) in
    let protocol = ceil_div_bps-eq amount f.protocol_fee_bps h (omega (arith, s.all_lp)) in
    let creator = ceil_div_bps-eq amount f.creator_fee_bps h (omega (arith, s.all_lp)) in
    rw (lp, protocol, creator) (saturate-twice _ _ _)

pub total_bps-eq :
    (f : Fees) → IsSchedule f → total_bps f ≡ f.lp_fee_bps + f.protocol_fee_bps + f.creator_fee_bps
unfolding total_bps
total_bps-eq f s = ground (arith, s.all_lp)

split_ceil :
    (a b c : ℕ)
    → a + b + c ≤ u64_max * 10_000
    → let single = div_ceil (a + b + c) 10_000 in
      let apart = saturate (div_ceil a 10_000 + div_ceil b 10_000 + div_ceil c 10_000) in
      (single ≤ apart) × (apart ≤ single + 2)
split_ceil a b c h =
    saturate_between (div_ceil (a + b + c) 10_000)
      (div_ceil a 10_000 + div_ceil b 10_000 + div_ceil c 10_000)
      (omega (
        arith,
        div_ceil_bounds (a + b + c),
        div_ceil_bounds a,
        div_ceil_bounds b,
        div_ceil_bounds c,
      ))
      (omega (
        arith,
        div_ceil_bounds (a + b + c),
        div_ceil_bounds a,
        div_ceil_bounds b,
        div_ceil_bounds c,
      ))
      (omega (arith, div_ceil_bounds (a + b + c)))

-- For a `u64` amount and a schedule of at most 100%, the fee is at least the combined rate rounded up once, and at
-- most two units more.
pub fee_on_rounding :
    (f : Fees) (amount : ℕ)
    → IsU64 amount
    → IsSchedule f
    → let single = div_ceil (amount * total_bps f) 10_000 in
      (single ≤ fee_on f amount) × (fee_on f amount ≤ single + 2)
fee_on_rounding f amount h s =
    let l = f.lp_fee_bps in
    let p = f.protocol_fee_bps in
    let c = f.creator_fee_bps in
    let total : amount * total_bps f ≡ amount * l + amount * p + amount * c =
      omega (arith, ap (λ (t : ℕ). amount * t) (total_bps-eq f s)) in
    let most : amount * total_bps f ≤ amount * 10_000 =
      mul_le_left amount (omega (arith, total_bps-eq f s, s.all_lp)) in
    rw (fee_on-eq f amount h s, total)
      (split_ceil (amount * l) (amount * p) (amount * c) (omega arith))

div_ceil_mono : (m n : ℕ) → m ≤ n → div_ceil m 10_000 ≤ div_ceil n 10_000
div_ceil_mono m n h = omega (arith, div_ceil_bounds m, div_ceil_bounds n)

saturate_mono : (m n : ℕ) → m ≤ n → saturate m ≤ saturate n
saturate_mono m n h = ground arith

-- For a schedule of at most 100%, a larger `u64` amount never pays a smaller fee.
pub fee_on_mono :
    (f : Fees) (small large : ℕ)
    → IsU64 large
    → IsSchedule f
    → small ≤ large
    → fee_on f small ≤ fee_on f large
fee_on_mono f small large h s le =
    let lp = div_ceil_mono _ _ (mul_le_right f.lp_fee_bps le) in
    let protocol = div_ceil_mono _ _ (mul_le_right f.protocol_fee_bps le) in
    let creator = div_ceil_mono _ _ (mul_le_right f.creator_fee_bps le) in
    rw (fee_on-eq f small (omega arith) s, fee_on-eq f large h s)
      (saturate_mono (rounded_apart f small) (rounded_apart f large)
        (omega (arith, lp, protocol, creator)))
