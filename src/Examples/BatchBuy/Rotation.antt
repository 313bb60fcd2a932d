-- ===== src/Examples/BatchBuy/Rotation.antt =====
-- Which client of the Jito pool carries which bundle of examples/batch_buy.rs.
use pump_swap_sdk.Prelude.{
  ℕ, zero, suc, ◌+◌, ◌%◌, ◌^◌, ◌<◌, ◌≡◌, refl, ap, ◌∙◌, inl, inr, List, [], ◌∷◌, ◌++◌, Option, some,
  length, get_elem?, arith,
}
use native.Mathlib.Nat.{mod-eq_of_lt}
use pump_swap_sdk.Prelude.Outcome.{Result-cases}
use pump_swap_sdk.State.Pool.{PoolInfo}
use pump_swap_sdk.Math.Float.{Float}
use pump_swap_sdk.Solana.{Solana}
use pump_swap_sdk.Util.Jito.{JitoPool}
use pump_swap_sdk.Examples.BatchBuy.{
  Settings, Answers, Wire, Step, pause, wallet_transaction, batch_from,
}
use pump_swap_sdk.Examples.BatchBuy.Free.{IsFree, next_client-free}
use pump_swap_sdk.Examples.BatchBuy.Deliveries.{
  Clock, clients_of, before_error, attempts, deliver_one-free, batch_from-ok,
}

-- The clients of so many bundles, in turn.
abbrev pub rotation : List ℕ → ℕ → ℕ → List (Option ℕ)
rotation clients rr zero = []
rotation clients rr (suc n) = get_elem? clients (rr % length clients) ∷ rotation clients (rr + 1) n

clients_of-pause :
    (i ms : ℕ) (steps : List Step) → clients_of (pause i ms ++ steps) ≡ clients_of steps
clients_of-pause zero ms steps = refl
clients_of-pause (suc i) ms steps = refl

module _ ⦃chain : Solana⦄ {F : Type 0} ⦃d : Float F⦄ where
  -- With a clock that never goes back, and a Jito pool as the program makes it: the bundles go over
  -- the clients of the pool in turn, one each, as long as the counter of the pool does not wrap.
  pub batch_from-rotation :
      (wire : Wire) (settings : Settings F) (loaded : PoolInfo) (answers : ℕ → Answers)
      (clock : Clock answers) (pool : JitoPool) (i : ℕ) (payers : List ℕ)
      → IsFree (clock.at i) pool
      → pool.rr + length payers < 2 ^ 64
      → let run = batch_from wire settings loaded answers (some pool) i payers in
        let made = before_error (attempts settings loaded answers i payers) in
        clients_of run.0 ≡ rotation pool.clients pool.rr (length made)
  unfolding batch_from
  batch_from-rotation wire settings loaded answers clock pool i [] free below = refl
  batch_from-rotation wire settings loaded answers clock pool i (payer ∷ payers) free below =
      elim (Result-cases (wallet_transaction settings loaded payer (answers i))) [
        | inl (e, failed) ↦ rw (failed, batch_from) (no_client i settings.interval_ms)
        | inr (tx, made) ↦
            let hands =
              next_client-free pool (clock.at i) (clock.at (suc i)) (clock.later i)
                (clock.forward i) free in
            let counted : hands.after.rr ≡ pool.rr + 1 =
              hands.counted ∙ mod-eq_of_lt (omega arith) in
            let rest =
              batch_from-rotation wire settings loaded answers clock hands.after (suc i) payers
                hands.still_free (rw counted (omega arith)) in
            rw
              (
                batch_from-ok wire settings loaded answers (some pool) (some hands.after) i payer
                    payers tx _ made (deliver_one-free wire answers clock i pool tx hands),
                made,
              )
              (clients_of-pause i settings.interval_ms _
                ∙ rw (hands.in_turn)
                    (ap (◌∷◌ (some hands.client)) (rw (hands.same_clients, counted) at rest)))
      ]
    where
      no_client : (i ms : ℕ) → clients_of (pause i ms) ≡ []
      no_client zero ms = refl
      no_client (suc i) ms = refl
