-- ===== src/State/Volume/Days.antt =====
-- The days of `GlobalVolumeAccumulator` in src/state.rs.
use pump_swap_sdk.Prelude.{
  if◌then◌else◌, ltb, ℕ, suc, ◌+◌, ◌/◌, ◌^◌, ◌<◌, ◌≡◌, ◌↔◌, ◌⊎◌, true, none, some, arith,
}
use pump_swap_sdk.Prelude.Int.{ℤ, pos, negsuc, ◌≤ℤ◌, ◌<ℤ◌, ◌+ℤ◌, IsSigned}
use pump_swap_sdk.State.Volume.{
  GlobalVolumeAccumulator, is_active_at, day_index, wrapping_sub_i64, volume_accumulator_days,
}

-- The window is closed below and open above.
pub is_active_at_iff :
    (g : GlobalVolumeAccumulator) (t : ℤ)
    → (is_active_at g t ≡ true) ↔ ((g.start_time ≤ℤ t) × (t <ℤ g.end_time))
unfolding is_active_at
is_active_at_iff g t = ground arith

-- The elapsed seconds, where an `i64` holds them.
wrapping_sub_i64-eq :
    (a b : ℤ) (e : ℕ)
    → IsSigned (2 ^ 63) a
    → IsSigned (2 ^ 63) b
    → a ≡ b +ℤ pos e
    → e < 2 ^ 63
    → wrapping_sub_i64 a b ≡ pos e
unfolding wrapping_sub_i64 ◌+ℤ◌
wrapping_sub_i64-eq a b e ha hb sum h = ground arith

-- Inside the window, `e` seconds after the start and with days of `s` seconds, the index is the
-- number of whole days elapsed if the arrays have that day, and none otherwise.
pub day_index_inside :
    (g : GlobalVolumeAccumulator) (t : ℤ) (s e : ℕ)
    → IsSigned (2 ^ 63) t
    → IsSigned (2 ^ 63) g.start_time
    → g.seconds_in_a_day ≡ pos s
    → 0 < s
    → t ≡ g.start_time +ℤ pos e
    → e < 2 ^ 63
    → t <ℤ g.end_time
    → day_index g t ≡ (if ltb (e / s) volume_accumulator_days then some (e / s) else none)
unfolding day_index ◌+ℤ◌
day_index_inside g t s e ht hs days some_day at h before =
    ground (arith, wrapping_sub_i64-eq t g.start_time e ht hs at h)

-- Outside the window, or with days of no positive length, there is no index.
pub day_index_outside :
    (g : GlobalVolumeAccumulator) (t : ℤ)
    → (t <ℤ g.start_time) ⊎ (g.end_time ≤ℤ t) ⊎ (g.seconds_in_a_day ≤ℤ pos 0)
    → day_index g t ≡ none
unfolding day_index
day_index_outside g t h = ground arith

wrapping_sub_i64-wrap :
    (a b : ℤ) (e j : ℕ)
    → IsSigned (2 ^ 63) a
    → IsSigned (2 ^ 63) b
    → a ≡ b +ℤ pos e
    → e + suc j ≡ 2 ^ 64
    → j < 2 ^ 63
    → wrapping_sub_i64 a b ≡ negsuc j
unfolding wrapping_sub_i64 ◌+ℤ◌
wrapping_sub_i64-wrap a b e j ha hb sum wrap h = ground arith

-- Inside the window, but so far from the start that the `i64` difference wraps to less than a day
-- below zero: a release build then answers day 0, though 2^63 seconds and more have elapsed.
pub day_index_wraps :
    (g : GlobalVolumeAccumulator) (t : ℤ) (s e j : ℕ)
    → IsSigned (2 ^ 63) t
    → IsSigned (2 ^ 63) g.start_time
    → g.seconds_in_a_day ≡ pos s
    → t ≡ g.start_time +ℤ pos e
    → e + suc j ≡ 2 ^ 64
    → suc j < s
    → s < 2 ^ 63
    → t <ℤ g.end_time
    → day_index g t ≡ some 0
unfolding day_index ◌+ℤ◌
day_index_wraps g t s e j ht hs days at wrap small big before =
    ground (arith, wrapping_sub_i64-wrap t g.start_time e j ht hs at wrap)
