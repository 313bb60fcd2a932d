-- ===== src/Math/Binary64/Arithmetic.antt =====
-- The operations on binary64: each one gives the number nearest to its exact value.
use pump_swap_sdk.Prelude.{
  ℕ, ◌+◌, ◌-◌, ◌*◌, ◌/◌, ◌^◌, Bool, true, false, not, ◌&&◌, Option, none, some, ltb, leb, ◌==◌,
  if◌then◌else◌, saturate,
}
use pump_swap_sdk.Math.Float.{Float}
use pump_swap_sdk.Math.Binary64.{Magnitude, finite, infinite, F64, number, nan, units, nearest}

-- The units of one.
unfoldable pub one_unit : ℕ
one_unit = 2 ^ 1_074

-- Plus or minus a magnitude, NaN where there is none.
abbrev pub signed : Bool → Option Magnitude → F64
signed negative none = nan
signed negative (some a) = number negative a

abbrev pub opposite_of : Bool → Bool → Bool
opposite_of true t = not t
opposite_of false t = t

-- Infinity times zero is NaN.
unfoldable pub times : Magnitude → Magnitude → Option Magnitude
times (finite a) (finite b) = some (nearest (units (finite a) * units (finite b)) one_unit)
times (finite a) infinite = if units (finite a) == 0 then none else some infinite
times infinite b = if units b == 0 then none else some infinite

unfoldable pub over : Magnitude → Magnitude → Option Magnitude
over (finite a) (finite b) =
    if units (finite b) == 0
    then (if units (finite a) == 0 then none else some infinite)
    else some (nearest (units (finite a) * one_unit) (units (finite b)))
over (finite a) infinite = some (nearest 0 1)
over infinite (finite b) = some infinite
over infinite infinite = none

unfoldable pub plus : Magnitude → Magnitude → Magnitude
plus (finite a) (finite b) = nearest (units (finite a) + units (finite b)) 1
plus (finite a) infinite = infinite
plus infinite b = infinite

-- A magnitude with a sign, less another one.
unfoldable pub minus : Bool → Magnitude → Magnitude → F64
minus s (finite a) (finite b) =
    let x = units (finite a) in
    let y = units (finite b) in
    if ltb y x
    then number s (nearest (x - y) 1)
    else (if ltb x y then number (not s) (nearest (y - x) 1) else number false (nearest 0 1))
minus s (finite a) infinite = number (not s) infinite
minus s infinite (finite b) = number s infinite
minus s infinite infinite = nan

-- The whole units of one below and above.
unfoldable pub down : Magnitude → Magnitude
unfolding one_unit
down (finite a) = nearest (units (finite a) / one_unit * one_unit) 1
down infinite = infinite

unfoldable pub up : Magnitude → Magnitude
unfolding one_unit
up (finite a) = nearest ((units (finite a) + (one_unit - 1)) / one_unit * one_unit) 1
up infinite = infinite

-- Halves go away from zero.
unfoldable pub half_away : Magnitude → Magnitude
unfolding one_unit
half_away (finite a) = nearest ((2 * units (finite a) + one_unit) / (2 * one_unit) * one_unit) 1
half_away infinite = infinite

unfoldable pub of_u64 : ℕ → F64
of_u64 n = number false (nearest (n * one_unit) 1)

unfoldable pub to_u64 : F64 → ℕ
to_u64 nan = 0
to_u64 (number true a) = 0
to_u64 (number false a) = saturate (units a / one_unit)

unfoldable pub add : F64 → F64 → F64
add (number true a) (number true b) = number true (plus a b)
add (number false a) (number false b) = number false (plus a b)
add (number true a) (number false b) = minus true a b
add (number false a) (number true b) = minus false a b
add nan y = nan
add (number s a) nan = nan

abbrev pub negate : F64 → F64
negate nan = nan
negate (number s a) = number (not s) a

unfoldable pub mul : F64 → F64 → F64
mul (number s a) (number t b) = signed (opposite_of s t) (times a b)
mul (number s a) nan = nan
mul nan y = nan

unfoldable pub div : F64 → F64 → F64
div (number s a) (number t b) = signed (opposite_of s t) (over a b)
div (number s a) nan = nan
div nan y = nan

unfoldable pub floor : F64 → F64
floor nan = nan
floor (number true a) = number true (up a)
floor (number false a) = number false (down a)

unfoldable pub ceil : F64 → F64
ceil nan = nan
ceil (number true a) = number true (down a)
ceil (number false a) = number false (up a)

abbrev pub round : F64 → F64
round nan = nan
round (number s a) = number s (half_away a)

-- The two zeros are equal.
unfoldable pub le : F64 → F64 → Bool
le (number true a) (number true b) = leb (units b) (units a)
le (number true a) (number false b) = true
le (number false a) (number true b) = units a == 0 && units b == 0
le (number false a) (number false b) = leb (units a) (units b)
le (number s a) nan = false
le nan y = false

unfoldable pub lt : F64 → F64 → Bool
lt (number true a) (number true b) = ltb (units b) (units a)
lt (number true a) (number false b) = not (units a == 0 && units b == 0)
lt (number false a) (number true b) = false
lt (number false a) (number false b) = ltb (units a) (units b)
lt (number s a) nan = false
lt nan y = false

unfoldable pub max : F64 → F64 → F64
max nan y = y
max (number s a) nan = number s a
max (number s a) (number t b) = if lt (number s a) (number t b) then number t b else number s a

unfoldable pub min : F64 → F64 → F64
min nan y = y
min (number s a) nan = number s a
min (number s a) (number t b) = if lt (number t b) (number s a) then number t b else number s a

instance abbrev pub binary64 : Float F64
binary64 = record {
  zero_f = number false (nearest 0 1);
  one_f = number false (nearest one_unit 1);
  literal = λ n k. number false (nearest (n * one_unit) k);
  of_u64 = of_u64;
  to_u64 = to_u64;
  add = add;
  sub = λ x y. add x (negate y);
  mul = mul;
  div = div;
  floor = floor;
  ceil = ceil;
  round = round;
  max = max;
  min = min;
  lt = lt;
  le = le;
}
