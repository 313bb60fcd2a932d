-- ===== src/Util/Jito/Cooldown.antt =====
-- The cooldown of `JitoPool` in src/util.rs, for any interleaving of reservations.
use pump_swap_sdk.Prelude.{
  ℕ, zero, suc, ◌+◌, ◌≤◌, ◌<◌, ◌≡◌, refl, ap, ◌∙◌, Bool-cases, inl, inr, List, [], ◌∷◌, none, some,
  leb, length, arith,
}
use pump_swap_sdk.Util.Jito.{JitoPool, set, entry, reserve}

-- One pass of any task: the slot it wants and the time it sees.
pub record Pass : Type 0 where
  pub slot : ℕ
  pub now : ℕ

-- The passes of all tasks, in the order in which they take the lock.
abbrev pub run : JitoPool → List Pass → JitoPool
run pool [] = pool
run pool (e ∷ es) = run (reserve pool e.slot e.now).0 es

entry-set_le : (xs : List ℕ) (i j x : ℕ) → entry xs j ≤ x → entry xs i ≤ entry (set xs j x) i
entry-set_le [] i j x h = omega arith
entry-set_le (y ∷ ys) zero zero x h = h
entry-set_le (y ∷ ys) (suc i) zero x h = omega arith
entry-set_le (y ∷ ys) zero (suc j) x h = omega arith
entry-set_le (y ∷ ys) (suc i) (suc j) x h = entry-set_le ys i j x h

entry-set : (xs : List ℕ) (i x : ℕ) → i < length xs → entry (set xs i x) i ≡ x
entry-set [] i x h = absurd (omega arith)
entry-set (y ∷ ys) zero x h = refl
entry-set (y ∷ ys) (suc i) x h = entry-set ys i x (omega arith)

reserve_le :
    (pool : JitoPool) (i j now : ℕ)
    → (entry pool.last i ≤ entry (reserve pool j now).0.last i)
      × ((reserve pool j now).0.interval ≡ pool.interval)
unfolding reserve
reserve_le pool i j now = elim (Bool-cases (leb (entry pool.last j) now)) [
  | inl free ↦
      (simp (free) (entry-set_le pool.last i j (now + pool.interval) (ground arith)), simp (free))
  | inr busy ↦ (simp (busy) (omega arith), simp (busy))
]

run_le :
    (es : List Pass) (pool : JitoPool) (i : ℕ)
    → (entry pool.last i ≤ entry (run pool es).last i) × ((run pool es).interval ≡ pool.interval)
run_le [] pool i = (omega arith, refl)
run_le (e ∷ es) pool i =
    let (first, kept) = reserve_le pool i e.slot e.now in
    let (later, still) = run_le es (reserve pool e.slot e.now).0 i in
    (omega (arith, first, later), still ∙ kept)

granted_at :
    (pool : JitoPool) (i now : ℕ)
    → (reserve pool i now).1 ≡ none
    → (entry pool.last i ≤ now)
      × ((reserve pool i now).0.last ≡ set pool.last i (now + pool.interval))
unfolding reserve
granted_at pool i now granted = elim (Bool-cases (leb (entry pool.last i) now)) [
  | inl free ↦ (ground arith, simp (free))
  | inr busy ↦ absurd (ground arith)
]

-- Whatever passes the tasks make in between, and whatever times they see, two reservations of one
-- slot of the table are at least the interval apart.
pub reserve-run_lem :
    (pool : JitoPool) (i first second : ℕ) (between : List Pass)
    → i < length pool.last
    → (reserve pool i first).1 ≡ none
    → (reserve (run (reserve pool i first).0 between) i second).1 ≡ none
    → first + pool.interval ≤ second
reserve-run_lem pool i first second between inside granted again =
    let after = (reserve pool i first).0 in
    let (free, updated) = granted_at pool i first granted in
    let (later, same) = granted_at (run after between) i second again in
    let (kept, constant) = run_le between after i in
    let here : entry after.last i ≡ first + pool.interval =
      ap (λ xs. entry xs i) updated ∙ entry-set pool.last i (first + pool.interval) inside in
    omega (arith, here, kept, later)

-- The wait that a refused pass is told is enough: a pass that sees the table unchanged, no sooner
-- than that, reserves the slot.
pub reserve-wait :
    (pool : JitoPool) (i now wait later : ℕ)
    → (reserve pool i now).1 ≡ some wait
    → now + wait ≤ later
    → ((reserve pool i now).0 ≡ pool) × ((reserve pool i later).1 ≡ none)
unfolding reserve
reserve-wait pool i now wait later refused enough =
    elim (Bool-cases (leb (entry pool.last i) now)) [
      | inl free ↦ absurd (ground arith)
      | inr busy ↦ (simp (busy), ground arith)
    ]
