-- ===== src/Math/Binary64/Nearest.antt =====
-- Rounding to the nearest binary64 keeps an order with a binary64.
use native.Mathlib.Nat.{
  div-le_of_le-mul, le-div_iff_mul-le, div-add-mod', pow-suc, le_of_mul-le-mul_right,
  pow-le-pow_right,
}
use pump_swap_sdk.Prelude.{
  ℕ, zero, suc, ◌+◌, ◌-◌, ◌*◌, ◌/◌, ◌%◌, ◌^◌, ◌≤◌, ◌<◌, ◌≡◌, refl, ap, ◌∙◌, ◌⊎◌, inl, inr, Bool,
  true, false, ltb, leb, if◌then◌else◌, mul_le_right, arith,
}
use pump_swap_sdk.Math.Binary64.{units, decided, pack_by, pack, settle, nearest_integer, last_power}

pub lt-or-le : (a b : ℕ) → (a < b) ⊎ (b ≤ a)
lt-or-le a b = omega arith

-- A quotient with a remainder is below every integer that it is at most.
inexact-lt : (p d m : ℕ) → 0 < d → 0 < p % d → p ≤ m * d → p / d < m
inexact-lt p d m h left le = elim (lt-or-le (p / d) m) [
  | inl below ↦ below
  | inr above ↦ absurd (omega (arith, div-add-mod' p d, mul_le_right d above))
]

zero-or-pos : (n : ℕ) → (n ≡ 0) ⊎ (0 < n)
zero-or-pos n = omega arith

pub nearest_integer-le : (p d m : ℕ) → 0 < d → p ≤ m * d → nearest_integer p d ≤ m
unfolding nearest_integer
nearest_integer-le p d m h le = elim (zero-or-pos (p % d)) [
  | inl exact ↦ let low : p / d ≤ m = div-le_of_le-mul d (omega (arith, le)) in ground arith
  | inr left ↦ let low = inexact-lt p d m h left le in ground arith
]

le-nearest_integer : (p d m : ℕ) → 0 < d → m * d ≤ p → m ≤ nearest_integer p d
unfolding nearest_integer
le-nearest_integer p d m h le = let low : m ≤ p / d = (le-div_iff_mul-le h).1 le in ground arith

packed-units :
    (k e : ℕ)
    → k < 2 ^ 53
    → e ≤ 2_045
    → (small : (ltb k (2 ^ 53) ≡ true) ⊎ (ltb k (2 ^ 53) ≡ false))
    → (bounded : (leb e 2_045 ≡ true) ⊎ (leb e 2_045 ≡ false))
    → units (pack_by k e small bounded) ≡ k * 2 ^ e
unfolding units
packed-units k e h l (inl small) (inl bounded) = refl
packed-units k e h l (inl small) (inr beyond) = absurd (ground arith)
packed-units k e h l (inr wide) bounded = absurd (ground arith)

overflown-units :
    (k e : ℕ)
    → 2_045 < e
    → (small : (ltb k (2 ^ 53) ≡ true) ⊎ (ltb k (2 ^ 53) ≡ false))
    → (bounded : (leb e 2_045 ≡ true) ⊎ (leb e 2_045 ≡ false))
    → units (pack_by k e small bounded) ≡ 2 ^ 53 * last_power
unfolding units
overflown-units k e l (inl small) (inl bounded) = absurd (ground arith)
overflown-units k e l (inl small) (inr beyond) = refl
overflown-units k e l (inr wide) bounded = refl

pub doubled : (e : ℕ) → 2 ^ suc e ≡ 2 * 2 ^ e
doubled e = omega (arith, pow-suc 2 e)

pack-units : (k e : ℕ) → k < 2 ^ 53 → e ≤ 2_045 → units (pack k e) ≡ k * 2 ^ e
unfolding pack
pack-units k e h l = packed-units k e h l (decided _) (decided _)

overflow-units : (k e : ℕ) → 2_045 < e → units (pack k e) ≡ 2 ^ 53 * last_power
unfolding pack
overflow-units k e l = overflown-units k e l (decided _) (decided _)

pub last_power-eq : last_power ≡ 2 ^ 2_045
unfolding last_power
last_power-eq = refl

half_doubled : (k e : ℕ) → k ≡ 2 ^ 53 → (k / 2) * 2 ^ suc e ≡ k * 2 ^ e
half_doubled k e full = let power = doubled e in rw (full, power) (omega arith)

first_of : {A : Type 0} (b : Bool) (x y : A) → b ≡ true → (if b then x else y) ≡ x
first_of b x y h = rw h refl

second_of : {A : Type 0} (b : Bool) (x y : A) → b ≡ false → (if b then x else y) ≡ y
second_of b x y h = rw h refl

-- The units that a significand settles on, up to the end of the exponents.
pub settle-units : (k e : ℕ) → k ≤ 2 ^ 53 → e ≤ 2_045 → units (settle k e) ≡ k * 2 ^ e
unfolding settle
settle-units k e small bounded = elim (lt-or-le k (2 ^ 53)) [
  | inl below ↦
      let is_below : ltb k (2 ^ 53) ≡ true = ground arith in
      ap units (first_of _ (pack k e) (pack (k / 2) (suc e)) is_below)
      ∙ pack-units k e below bounded
  | inr above ↦
      let is_above : ltb k (2 ^ 53) ≡ false = ground arith in
      let full : k ≡ 2 ^ 53 = omega arith in
      ap units (second_of _ (pack k e) (pack (k / 2) (suc e)) is_above) ∙ elim (lt-or-le e 2_045) [
        | inl inside ↦
            pack-units (k / 2) (suc e) (omega arith) (omega arith) ∙ half_doubled k e full
        | inr last ↦
            let final : e ≡ 2_045 = omega arith in
            overflow-units (k / 2) (suc e) (omega arith) ∙ rw (full, final, last_power-eq) refl
      ]
]

-- A number of units that a magnitude has.
pub record IsDouble (x : ℕ) : Type 0 where
  pub m : ℕ
  pub e : ℕ
  pub small : m ≤ 2 ^ 53
  pub bounded : e ≤ 2_045
  pub value : x ≡ m * 2 ^ e

pub pow_add : (i e : ℕ) → 2 ^ (i + e) ≡ 2 ^ i * 2 ^ e
pow_add zero e = let none_more : 0 + e ≡ e = omega arith in rw none_more (omega arith)
pow_add (suc i) e =
    let one_more : suc i + e ≡ suc (i + e) = omega arith in
    rw one_more (
      omega (arith, doubled (i + e), doubled i, pow_add i e, ap (λ (t : ℕ). t * 2 ^ e) (doubled i)))

-- Against the power of an exponent: a double is a multiple of it, or at most half its range.
pub against :
    (x e : ℕ) → IsDouble x → ((k : ℕ) × (x ≡ k * 2 ^ e)) ⊎ ((0 < e) × (2 * x ≤ 2 ^ 53 * 2 ^ e))
against x e v = elim (lt-or-le v.e e) [
  | inl finer ↦
      let half : 2 * 2 ^ v.e ≤ 2 ^ e =
        rw (doubled v.e) at (pow-le-pow_right {n = 2} (omega arith) {i = suc v.e} {j = e} finer) in
      inr (omega (arith, finer), omega (arith, v.value, mul_le_right (2 ^ v.e) v.small, half))
  | inr coarser ↦
      let whole : v.e - e + e ≡ v.e = omega arith in
      inl (
        v.m * 2 ^ (v.e - e),
        omega (arith, v.value, ap (λ (t : ℕ). v.m * t) (rw whole at (pow_add (v.e - e) e))),
      )
]

pub multiple-le :
    (power q p d x k : ℕ)
    → d ≡ power * q
    → 0 < d
    → x ≡ k * power
    → p ≤ x * q
    → nearest_integer p d * power ≤ x
multiple-le power q p d x k scaled there is_multiple le =
    let most : p ≤ k * d =
      omega (arith, le, ap (λ (t : ℕ). t * q) is_multiple, ap (λ (t : ℕ). k * t) scaled) in
    omega (arith, is_multiple, mul_le_right power (nearest_integer-le p d k there most))

pub finer-le :
    (power q p d x : ℕ)
    → d ≡ power * q
    → 0 < q
    → 0 < d
    → 2 * x ≤ 2 ^ 53 * power
    → 2 ^ 53 * d ≤ 2 * p
    → p ≤ x * q
    → nearest_integer p d * power ≤ x
finer-le power q p d x scaled some_q there half outgrown le =
    let most : p ≤ 2 ^ 52 * d = omega (arith, le, mul_le_right q half, scaled) in
    let full : 2 ^ 53 * power ≤ 2 * x =
      le_of_mul-le-mul_right {k = q} (omega (arith, le, outgrown, scaled)) some_q in
    omega (arith, full, mul_le_right power (nearest_integer-le p d (2 ^ 52) there most))

pub multiple-ge :
    (power q p d x k : ℕ)
    → d ≡ power * q
    → 0 < d
    → x ≡ k * power
    → x * q ≤ p
    → x ≤ nearest_integer p d * power
multiple-ge power q p d x k scaled there is_multiple le =
    let least : k * d ≤ p =
      omega (arith, le, ap (λ (t : ℕ). t * q) is_multiple, ap (λ (t : ℕ). k * t) scaled) in
    omega (arith, is_multiple, mul_le_right power (le-nearest_integer p d k there least))

pub finer-ge :
    (power p d x : ℕ)
    → 0 < d
    → 2 * x ≤ 2 ^ 53 * power
    → 2 ^ 53 * d ≤ 2 * p
    → x ≤ nearest_integer p d * power
finer-ge power p d x there half outgrown = omega (
  arith,
  half,
  mul_le_right power (le-nearest_integer p d (2 ^ 52) there (omega (arith, outgrown))),
)
