-- ===== src/Math/Binary64/Laws.antt =====
-- The facts on `f64` that the slippage bounds of src/math.rs need, for binary64.
use native.Mathlib.Nat.{
  div-eq_of_lt, le-div_iff_mul-le, div-mul-le_self, mul-div_cancel, mul_comm, div-le_of_le-mul,
}
use pump_swap_sdk.Prelude.{
  ℕ, ◌+◌, ◌*◌, ◌/◌, ◌^◌, ◌≤◌, ◌<◌, ◌≡◌, refl, ap, some, Bool, inl, inr, true, false, Bool-cases,
  ◌&&◌, ltb, ◌==◌, saturate, mul_le_right, IsU64, arith,
}
use pump_swap_sdk.Math.Float.{IsIeee, ◌≼◌}
use pump_swap_sdk.Math.Binary64.{Magnitude, finite, infinite, F64, number, nan, units, nearest}
use pump_swap_sdk.Math.Binary64.Order.{nearest-ge, units-IsDouble}
use pump_swap_sdk.Math.Binary64.Magnitudes.{
  padded, one_unit-pos, zero-units, one-units, of_u64-units, leb-of-le, le-of-leb, down-le, up-ge,
  plus-ge, times-le, times-ge, infinite-pos, zero-plus, padded-lt, of_u64-le, u64-finite,
}
use pump_swap_sdk.Math.Binary64.Arithmetic.{
  binary64, one_unit, opposite_of, times, plus, minus, down, up, of_u64, to_u64, add, mul, floor,
  ceil, le,
}
use pump_swap_sdk.Math.Binary64.Comparison.{
  not_below, below_one, above_one, not_nan, nan_never, minus-above_one, f64-le_trans,
  f64-le_of_not_lt, number-le_self, f64-num_of_le, minus-le, plus-le, minuses-le, f64-max_cases,
  f64-min_cases,
}

zeros : (m n : ℕ) → (m == 0 && n == 0) ≡ true → (m ≡ 0) × (n ≡ 0)
zeros m n h = ground arith

saturate-le : (n : ℕ) → saturate n ≤ n
saturate-le n = ground arith

saturate_mono : (m n : ℕ) → m ≤ n → saturate m ≤ saturate n
saturate_mono m n h = ground arith

f64-to_u64_mono : (x y : F64) → x ≼ y → to_u64 x ≤ to_u64 y
unfolding le to_u64
f64-to_u64_mono nan y h = absurd (cc)
f64-to_u64_mono (number s a) nan h = absurd (ground arith)
f64-to_u64_mono (number true a) (number t b) h = omega arith
f64-to_u64_mono (number false a) (number true b) h =
    rw
      (div-eq_of_lt {n = units a} {m = one_unit}
        (omega (arith, (zeros (units a) (units b) h).0, one_unit-pos)))
      (omega arith)
f64-to_u64_mono (number false a) (number false b) h =
    saturate_mono (units a / one_unit) (units b / one_unit) (
      (le-div_iff_mul-le one_unit-pos).1
        (omega (arith, le-of-leb (units a) (units b) h, div-mul-le_self (units a) one_unit)))

f64-of_u64_nonneg : (n : ℕ) → binary64.zero_f ≼ of_u64 n
unfolding of_u64 le
f64-of_u64_nonneg n = leb-of-le _ _ (rw zero-units (omega arith))

f64-of_u64_exact : (n : ℕ) → n ≤ 2 ^ 53 → to_u64 (of_u64 n) ≡ n
unfolding of_u64 to_u64
f64-of_u64_exact n h =
    let kept : n * one_unit / one_unit ≡ n = mul-div_cancel n one_unit-pos in
    rw (of_u64-units n h, kept) (ground arith)

f64-of_u64_near : (n : ℕ) → IsU64 n → to_u64 (of_u64 n) < n + 2 ^ 11
unfolding of_u64 to_u64
f64-of_u64_near n h =
    let quotient : units (nearest (n * one_unit) 1) / one_unit ≤ padded n * 2 ^ 11 =
      div-le_of_le-mul one_unit (omega (arith, of_u64-le n h)) in
    let kept : saturate (units (nearest (n * one_unit) 1) / one_unit)
        ≤ units (nearest (n * one_unit) 1) / one_unit =
      saturate-le _ in
    omega (arith, quotient, kept, padded-lt n)

f64-one_le_of_u64 : (n : ℕ) → 1 ≤ n → binary64.one_f ≼ of_u64 n
unfolding of_u64 le
f64-one_le_of_u64 n h = leb-of-le _ _ (
    rw one-units (
      nearest-ge (n * one_unit) 1 one_unit (omega arith)
        (rw one-units at (units-IsDouble (nearest one_unit 1)))
        (omega (arith, mul_le_right one_unit h))))

f64-mul_le :
    (n : ℕ) (f : F64)
    → IsU64 n
    → binary64.zero_f ≼ f
    → f ≼ binary64.one_f
    → mul (of_u64 n) f ≼ of_u64 n
unfolding of_u64 mul
f64-mul_le n nan l h k = absurd (nan_never false (nearest 0 1) h)
f64-mul_le n (number true b) l h k =
    let (c, product, below) =
      times-le (nearest (n * one_unit) 1) b (u64-finite n l) (omega (arith, not_below b h)) in
    rw product (minus-le c (nearest (n * one_unit) 1))
f64-mul_le n (number false b) l h k =
    let (c, product, below) =
      times-le (nearest (n * one_unit) 1) b (u64-finite n l) (below_one b k) in
    rw product (plus-le c (nearest (n * one_unit) 1) below)

le-whole :
    (k : ℕ) (b : Magnitude) → k ≤ 2 ^ 53 → number false b ≼ of_u64 k → units b < units infinite
unfolding of_u64 le
le-whole k b l h = omega (arith, le-of-leb _ _ h, u64-finite k (omega (arith, l)))

f64-mul_ge :
    (n k : ℕ) (f : F64)
    → n ≤ 2 ^ 53
    → k ≤ 2 ^ 53
    → binary64.one_f ≼ f
    → f ≼ of_u64 k
    → of_u64 n ≼ mul (of_u64 n) f
unfolding of_u64 mul
f64-mul_ge n k nan l m h g = absurd (nan_never false (nearest one_unit 1) h)
f64-mul_ge n k (number true b) l m h g = absurd (minus-above_one b h)
f64-mul_ge n k (number false b) l m h g =
    let (c, product, above) =
      times-ge (nearest (n * one_unit) 1) b (u64-finite n (omega (arith, l))) (le-whole k b m g)
        (above_one b h) in
    rw product (plus-le (nearest (n * one_unit) 1) c above)

-- Minus zero, and what it is with a number added.
zero-minus : (a b : Magnitude) → units a ≡ 0 → number true a ≼ minus true a b
unfolding minus
zero-minus infinite b h = absurd (omega (arith, h, infinite-pos))
zero-minus (finite f) infinite h = minus-le (finite f) infinite
zero-minus (finite f) (finite g) h =
    let not_less : ltb (units (finite g)) (units (finite f)) ≡ false = ground arith in
    rw not_less (elim (Bool-cases (ltb (units (finite f)) (units (finite g)))) [
      | inl less ↦ rw less (minus-le (finite f) _)
      | inr same ↦ rw same (minus-le (finite f) _)
    ])

minus-zero : (a b : Magnitude) → units b ≡ 0 → number false a ≼ minus false a b
unfolding minus
minus-zero a infinite h = absurd (omega (arith, h, infinite-pos))
minus-zero infinite (finite g) h = plus-le infinite infinite (omega arith)
minus-zero (finite f) (finite g) h = elim (Bool-cases (ltb (units (finite g)) (units (finite f)))) [
  | inl less ↦ rw less (
      plus-le (finite f) _ (
        nearest-ge _ 1 (units (finite f)) (omega arith) (units-IsDouble (finite f))
          (omega (arith, h))))
  | inr not_less ↦
      let empty : units (finite f) ≡ 0 = ground arith in
      let same : ltb (units (finite f)) (units (finite g)) ≡ false = ground arith in
      rw (not_less, same) (plus-le (finite f) _ (omega (arith, empty)))
]

f64-add_ge : (x y : F64) → binary64.zero_f ≼ x → binary64.zero_f ≼ y → x ≼ add x y
unfolding add
f64-add_ge nan y h k = absurd (nan_never false (nearest 0 1) h)
f64-add_ge (number s a) nan h k = absurd (nan_never false (nearest 0 1) k)
f64-add_ge (number true a) (number true b) h k =
    minuses-le a (plus a b) (zero-plus a b (not_below a h) (not_below b k))
f64-add_ge (number true a) (number false b) h k = zero-minus a b (not_below a h)
f64-add_ge (number false a) (number true b) h k = minus-zero a b (not_below b k)
f64-add_ge (number false a) (number false b) h k = plus-le a (plus a b) (plus-ge a b)

f64-floor_le : (x : F64) → x ≼ x → floor x ≼ x
unfolding floor
f64-floor_le nan h = h
f64-floor_le (number true a) h = minuses-le (up a) a (up-ge a)
f64-floor_le (number false a) h = plus-le (down a) a (down-le a)

f64-ceil_ge : (x : F64) → x ≼ x → x ≼ ceil x
unfolding ceil
f64-ceil_ge nan h = h
f64-ceil_ge (number true a) h = minuses-le a (down a) (down-le a)
f64-ceil_ge (number false a) h = plus-le a (up a) (up-ge a)

f64-mul_num : (x f : F64) → mul x f ≼ mul x f → f ≼ f
unfolding mul
f64-mul_num nan f h = absurd (not_nan nan h)
f64-mul_num (number s a) nan h = h
f64-mul_num (number s a) (number t b) h = number-le_self t b

f64-floor_num : (x : F64) → floor x ≼ floor x → x ≼ x
unfolding floor
f64-floor_num nan h = h
f64-floor_num (number s a) h = number-le_self s a

opposite_of_comm : (s t : Bool) → opposite_of s t ≡ opposite_of t s
opposite_of_comm true true = refl
opposite_of_comm true false = refl
opposite_of_comm false true = refl
opposite_of_comm false false = refl

times_comm : (a b : Magnitude) → times a b ≡ times b a
unfolding times
times_comm (finite f) (finite g) =
    ap (λ (n : ℕ). some (nearest n one_unit)) (mul_comm (units (finite f)) (units (finite g)))
times_comm (finite f) infinite = refl
times_comm infinite (finite g) = refl
times_comm infinite infinite = refl

pub f64-mul_comm : (x y : F64) → mul x y ≡ mul y x
unfolding mul
f64-mul_comm nan nan = refl
f64-mul_comm nan (number t b) = refl
f64-mul_comm (number s a) nan = refl
f64-mul_comm (number s a) (number t b) = rw (opposite_of_comm s t, times_comm a b) refl

pub Binary64-IsIeee : IsIeee F64
Binary64-IsIeee = record {
  zero_num = number-le_self false (nearest 0 1);
  zero_le_one = plus-le (nearest 0 1) (nearest one_unit 1) (rw zero-units (omega arith));
  le_trans = f64-le_trans;
  le_of_not_lt = f64-le_of_not_lt;
  num_of_le = f64-num_of_le;
  of_u64_nonneg = f64-of_u64_nonneg;
  of_u64_exact = f64-of_u64_exact;
  of_u64_near = f64-of_u64_near;
  one_le_of_u64 = f64-one_le_of_u64;
  to_u64_mono = f64-to_u64_mono;
  mul_le = f64-mul_le;
  mul_ge = f64-mul_ge;
  add_ge = f64-add_ge;
  floor_le = f64-floor_le;
  ceil_ge = f64-ceil_ge;
  mul_num = f64-mul_num;
  floor_num = f64-floor_num;
  max_cases = f64-max_cases;
  min_cases = f64-min_cases;
}
