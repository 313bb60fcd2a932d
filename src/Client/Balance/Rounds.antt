-- ===== src/Client/Balance/Rounds.antt =====
-- The rounds of `fetch_ui_pooled_amounts` of src/client.rs, and how long it sleeps between them.
use pump_swap_sdk.Prelude.{ℕ, zero, suc, ◌+◌, ◌*◌, ◌<◌, ◌≡◌, refl, ◌⊎◌, inl, inr, min, arith}
use pump_swap_sdk.Prelude.Outcome.{Result, ok, err, Error, Result-cases, no_pooled_amounts}
use pump_swap_sdk.State.Pool.{PoolInfo}
use pump_swap_sdk.Client.Balance.{
  BalanceAnswer, ui_pooled_amounts, ui_rounds, fetch_ui_pooled_amounts,
}

-- The milliseconds after so many failed rounds, from a first delay that doubles up to three seconds.
abbrev pub slept_in : ℕ → ℕ → ℕ
slept_in zero delay = 0
slept_in (suc failed) delay = delay + slept_in failed (min (delay * 2) 3_000)

module _ {F : Type 0} (answers : ℕ → (ℕ → BalanceAnswer F) × (ℕ → BalanceAnswer F))
    (pool : PoolInfo) where
  abbrev pub round_of : ℕ → Result (F × F × ℕ × ℕ)
  round_of round = ui_pooled_amounts (answers round).0 (answers round).1 pool

  abbrev pub Fails : ℕ → Type 0
  Fails round = (e : Error) × (round_of round ≡ err e)

  -- The first success among the rounds from `from`, after `k` failures, with the time slept so far; or
  -- no success, after all of them.
  pub record IsFirst (from left delay k : ℕ) (v : F × F × ℕ × ℕ) : Type 0 where
    pub inside : k < left
    pub succeeds : round_of (from + k) ≡ ok v
    pub before : (i : ℕ) → i < k → Fails (from + i)
    pub reported : ui_rounds answers pool left from delay ≡ (slept_in k delay, ok v)

  pub record IsFailure (from left delay : ℕ) : Type 0 where
    pub all_fail : (i : ℕ) → i < left → Fails (from + i)
    pub reported :
        ui_rounds answers pool left from delay ≡ (slept_in left delay, err no_pooled_amounts)

  -- A round after the first one.
  shifted :
      (from n : ℕ)
      → Fails from
      → ((i : ℕ) → i < n → Fails (suc from + i))
      → (i : ℕ) → i < suc n
      → Fails (from + i)
  shifted from n first later zero h = let here : from + 0 ≡ from = omega arith in rw here first
  shifted from n first later (suc i) h =
      let next : from + suc i ≡ suc from + i = omega arith in rw next (later i (omega arith))

  rounds_lem :
      (left from delay : ℕ)
      → ((k : ℕ) × (v : F × F × ℕ × ℕ) × IsFirst from left delay k v) ⊎ IsFailure from left delay
  unfolding ui_rounds
  rounds_lem zero from delay =
      inr (record { all_fail = λ i h. absurd (omega arith); reported = refl })
  rounds_lem (suc left) from delay = elim (Result-cases (round_of from)) [
    | inr (v, good) ↦ inl (
      0,
      v,
      record {
        inside = omega arith;
        succeeds = (let here : from + 0 ≡ from = omega arith in rw here good);
        before = λ i h. absurd (omega arith);
        reported = rw (good, ui_rounds) refl;
      },
    )
    | inl (e, bad) ↦ elim (rounds_lem left (suc from) (min (delay * 2) 3_000)) [
      | inl (k, v, r) ↦ inl (
        suc k,
        v,
        record {
          inside = omega (arith, r.inside);
          succeeds = (let next : from + suc k ≡ suc from + k = omega arith in rw next r.succeeds);
          before = shifted from k (e, bad) r.before;
          reported = rw (bad, r.reported, ui_rounds) refl;
        },
      )
      | inr r ↦ inr (record {
        all_fail = shifted from left (e, bad) r.all_fail;
        reported = rw (bad, r.reported, ui_rounds) refl;
      })
    ]
  ]

  from_zero : (P : ℕ → Type 0) (k : ℕ) → P (0 + k) → P k
  from_zero P k h = let same : 0 + k ≡ k = omega arith in rw same at h

  -- Two token accounts are asked for at most six rounds: the answer is that of the first round that
  -- succeeds, after the sleeps of the rounds before it, which all failed; or no round succeeds, and
  -- the answer is an error after nine seconds of sleep.
  pub fetch_ui_pooled_amounts_lem :
      ((k : ℕ) × (v : F × F × ℕ × ℕ) × (k < 6)
        × (round_of k ≡ ok v)
        × ((i : ℕ) → i < k → Fails i)
        × (fetch_ui_pooled_amounts answers pool ≡ (slept_in k 200, ok v)))
      ⊎ (((i : ℕ) → i < 6 → Fails i)
          × (fetch_ui_pooled_amounts answers pool ≡ (9_000, err no_pooled_amounts)))
  unfolding fetch_ui_pooled_amounts
  fetch_ui_pooled_amounts_lem = elim (rounds_lem 6 0 200) [
    | inl (k, v, r) ↦ inl (
      k,
      v,
      r.inside,
      from_zero (λ n. round_of n ≡ ok v) k r.succeeds,
      λ i h. from_zero Fails i (r.before i h),
      r.reported,
    )
    | inr r ↦ inr (λ i h. from_zero Fails i (r.all_fail i h), r.reported)
  ]
