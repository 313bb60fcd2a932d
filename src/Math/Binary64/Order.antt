-- ===== src/Math/Binary64/Order.antt =====
-- The magnitude nearest to a quotient is on the side of a binary64 that the quotient is on.
use native.Mathlib.Nat.{mul-pos, one-le-pow, le_of_mul-le-mul_right, pow-le-pow_right, mul-le-mul}
use pump_swap_sdk.Prelude.{
  ℕ, zero, suc, ◌+◌, ◌*◌, ◌^◌, ◌≤◌, ◌<◌, ◌≡◌, refl, ap, ◌⊎◌, inl, inr, true, false, ltb, leb, arith,
}
use pump_swap_sdk.Math.Binary64.{
  Magnitude, finite, infinite, units, settle, nearest_integer, fit, nearest, last_power,
}
use pump_swap_sdk.Math.Binary64.Nearest.{
  IsDouble, against, multiple-le, multiple-ge, finer-le, finer-ge, settle-units, nearest_integer-le,
  doubled, lt-or-le, last_power-eq,
}

-- The search of `fit` at an exponent: the divisor is `q` times its power, and the exponent before it
-- had no room.
record Searches (e p d q : ℕ) : Type 0 where
  scaled : d ≡ 2 ^ e * q
  some_q : 0 < q
  outgrown : (e ≡ 0) ⊎ (2 ^ 53 * d ≤ 2 * p)

divisor-pos : (e p d q : ℕ) → Searches e p d q → 0 < d
divisor-pos e p d q s =
    omega (arith, s.scaled, mul-pos {m = 2 ^ e} {n = q} (one-le-pow e 2 (omega arith)) s.some_q)

widened : (e p d q : ℕ) → Searches e p d q → 2 ^ 53 * d ≤ p → Searches (suc e) p (2 * d) q
widened e p d q s wide = record {
  scaled = omega (arith, s.scaled, ap (λ (t : ℕ). t * q) (doubled e));
  some_q = s.some_q;
  outgrown = inr (omega (arith, wide));
}

found :
    (e p d q : ℕ)
    → Searches e p d q
    → p < 2 ^ 53 * d
    → e ≤ 2_045
    → units (settle (nearest_integer p d) e) ≡ nearest_integer p d * 2 ^ e
found e p d q s fits bounded =
    settle-units (nearest_integer p d) e
      (nearest_integer-le p d (2 ^ 53) (divisor-pos e p d q s) (omega (arith, fits))) bounded

found-le :
    (e p d q x : ℕ) → Searches e p d q → IsDouble x → p ≤ x * q → nearest_integer p d * 2 ^ e ≤ x
found-le e p d q x s v le =
    let there = divisor-pos e p d q s in
    elim (against x e v) [
      | inl (k, is_multiple) ↦ multiple-le (2 ^ e) q p d x k s.scaled there is_multiple le
      | inr (later, half) ↦ elim s.outgrown [
        | inl first ↦ absurd (omega (arith, later, first))
        | inr full ↦ finer-le (2 ^ e) q p d x s.scaled s.some_q there half full le
      ]
    ]

found-ge :
    (e p d q x : ℕ) → Searches e p d q → IsDouble x → x * q ≤ p → x ≤ nearest_integer p d * 2 ^ e
found-ge e p d q x s v le =
    let there = divisor-pos e p d q s in
    elim (against x e v) [
      | inl (k, is_multiple) ↦ multiple-ge (2 ^ e) q p d x k s.scaled there is_multiple le
      | inr (later, half) ↦ elim s.outgrown [
        | inl first ↦ absurd (omega (arith, later, first))
        | inr full ↦ finer-ge (2 ^ e) p d x there half full
      ]
    ]

-- Past the last exponent the quotient is beyond every finite magnitude.
beyond-le :
    (p d q x top : ℕ) → d ≡ 2 * top * q → 0 < q → 2 ^ 53 * d ≤ 2 * p → p ≤ x * q → 2 ^ 53 * top ≤ x
beyond-le p d q x top scaled some_q full le =
    le_of_mul-le-mul_right {k = q} (omega (arith, scaled, full, le)) some_q

double-le : (x top : ℕ) → (v : IsDouble x) → 2 ^ v.e ≤ top → x ≤ 2 ^ 53 * top
double-le x top v power = omega (arith, v.value, mul-le-mul v.small power)

pub infinite-units : units infinite ≡ 2 ^ 53 * last_power
unfolding units
infinite-units = refl

twice_last : (e : ℕ) → 0 + e ≡ 2_046 → 2 ^ e ≡ 2 * last_power
unfolding last_power
twice_last e h = let last : e ≡ 2_046 = omega (arith, h) in rw last refl

out_of_exponents :
    (e p d q : ℕ)
    → Searches e p d q
    → 0 + e ≡ 2_046
    → (d ≡ 2 * last_power * q) × (2 ^ 53 * d ≤ 2 * p)
out_of_exponents e p d q s all = (
  rw (twice_last e all) at s.scaled,
  elim s.outgrown [ inl first ↦ absurd (omega (arith, first, all)) | inr full ↦ full ],
)

fit-le :
    (left e p d q x : ℕ)
    → Searches e p d q
    → left + e ≡ 2_046
    → IsDouble x
    → p ≤ x * q
    → units (fit left e p d) ≤ x
unfolding fit
fit-le zero e p d q x s all v le =
    let (scaled, full) = out_of_exponents e p d q s all in
    rw infinite-units (beyond-le p d q x last_power scaled s.some_q full le)
fit-le (suc left) e p d q x s all v le = elim (lt-or-le p (2 ^ 53 * d)) [
  | inl fits ↦
      let is_inside : ltb p (2 ^ 53 * d) ≡ true = ground arith in
      rw (is_inside, fit)
        (rw (found e p d q s fits (omega (arith, all))) (found-le e p d q x s v le))
  | inr wide ↦
      let is_wide : ltb p (2 ^ 53 * d) ≡ false = ground arith in
      rw (is_wide, fit)
        (fit-le left (suc e) p (2 * d) q x (widened e p d q s wide) (omega (arith, all)) v le)
]

fit-ge :
    (left e p d q x : ℕ)
    → Searches e p d q
    → left + e ≡ 2_046
    → IsDouble x
    → x * q ≤ p
    → x ≤ units (fit left e p d)
unfolding fit
fit-ge zero e p d q x s all v le =
    rw (infinite-units, last_power-eq)
      (double-le x (2 ^ 2_045) v (pow-le-pow_right {n = 2} (omega arith) v.bounded))
fit-ge (suc left) e p d q x s all v le = elim (lt-or-le p (2 ^ 53 * d)) [
  | inl fits ↦
      let is_inside : ltb p (2 ^ 53 * d) ≡ true = ground arith in
      rw (is_inside, fit)
        (rw (found e p d q s fits (omega (arith, all))) (found-ge e p d q x s v le))
  | inr wide ↦
      let is_wide : ltb p (2 ^ 53 * d) ≡ false = ground arith in
      rw (is_wide, fit)
        (fit-ge left (suc e) p (2 * d) q x (widened e p d q s wide) (omega (arith, all)) v le)
]

start : (p q : ℕ) → 0 < q → Searches 0 p q q
start p q h = record { scaled = omega arith; some_q = h; outgrown = inl refl }

-- Rounding a quotient that is at most a binary64 gives at most that.
pub nearest-le : (p q x : ℕ) → 0 < q → IsDouble x → p ≤ x * q → units (nearest p q) ≤ x
unfolding nearest
nearest-le p q x h v le = fit-le 2_046 0 p q q x (start p q h) refl v le

-- Rounding a quotient that is at least a binary64 gives at least that.
pub nearest-ge : (p q x : ℕ) → 0 < q → IsDouble x → x * q ≤ p → x ≤ units (nearest p q)
unfolding nearest
nearest-ge p q x h v le = fit-ge 2_046 0 p q q x (start p q h) refl v le

le-of-ltb : (a b : ℕ) → ltb a b ≡ true → a ≤ b
le-of-ltb a b h = ground arith

le-of-leb : (a b : ℕ) → leb a b ≡ true → a ≤ b
le-of-leb a b h = ground arith

-- Every magnitude stands for a binary64.
pub units-IsDouble : (a : Magnitude) → IsDouble (units a)
unfolding units last_power
units-IsDouble (finite f) = record {
  m = f.significand;
  e = f.exponent;
  small = le-of-ltb f.significand (2 ^ 53) f.is_small;
  bounded = le-of-leb f.exponent 2_045 f.is_bounded;
  value = refl;
}
units-IsDouble infinite = record {
  m = 2 ^ 53;
  e = 2_045;
  small = omega arith;
  bounded = omega arith;
  value = refl;
}

pub IsDouble-le_infinite : (x : ℕ) → IsDouble x → x ≤ units infinite
IsDouble-le_infinite x v =
    rw (infinite-units, last_power-eq)
      (double-le x (2 ^ 2_045) v (pow-le-pow_right {n = 2} (omega arith) v.bounded))

pub le-infinite : (a : Magnitude) → units a ≤ units infinite
le-infinite a = IsDouble-le_infinite (units a) (units-IsDouble a)
