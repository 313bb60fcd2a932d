-- ===== src/Examples/BatchBuy/Deliveries.antt =====
-- What the loop of examples/batch_buy.rs delivers.
use pump_swap_sdk.Prelude.{
  ℕ, zero, suc, append-nil, sym, ◌+◌, ◌*◌, ◌≤◌, ◌≡◌, refl, ap, ◌∙◌, ◌⊎◌, inl, inr, List, [], ◌∷◌,
  ◌++◌, Option, none, some, arith,
}
use pump_swap_sdk.Prelude.Outcome.{Error, Result, ok, err, Result-cases}
use pump_swap_sdk.State.Pool.{PoolInfo}
use pump_swap_sdk.Math.Float.{Float}
use pump_swap_sdk.Solana.{Solana}
use pump_swap_sdk.Util.Jito.{JitoPool, next_client, send_jito_bundle}
use pump_swap_sdk.Client.Send.{Transaction}
use pump_swap_sdk.Examples.BatchBuy.Free.{IsFree, Hands, next_client-free}
use pump_swap_sdk.Examples.BatchBuy.{
  Settings, Answers, Wire, Step, slept, bundled, sent, returned, pause, deliver_one,
  wallet_transaction, batch_from,
}

-- The transactions, the clients of the bundles, and the sleeps of the steps.
abbrev pub delivered : List Step → List Transaction
delivered [] = []
delivered (slept ms ∷ steps) = delivered steps
delivered (bundled client tx answer ∷ steps) = tx ∷ delivered steps
delivered (sent tx answer ∷ steps) = tx ∷ delivered steps

abbrev pub clients_of : List Step → List (Option ℕ)
clients_of [] = []
clients_of (slept ms ∷ steps) = clients_of steps
clients_of (bundled client tx answer ∷ steps) = some client ∷ clients_of steps
clients_of (sent tx answer ∷ steps) = clients_of steps

abbrev pub asleep : List Step → ℕ
asleep [] = 0
asleep (slept ms ∷ steps) = ms + asleep steps
asleep (bundled client tx answer ∷ steps) = asleep steps
asleep (sent tx answer ∷ steps) = asleep steps

-- The sleeps and the transactions of the steps, in their order.
abbrev pub timeline : List Step → List (ℕ ⊎ Transaction)
timeline [] = []
timeline (slept ms ∷ steps) = inl ms ∷ timeline steps
timeline (bundled client tx answer ∷ steps) = inr tx ∷ timeline steps
timeline (sent tx answer ∷ steps) = inr tx ∷ timeline steps

-- A sleep before each result, and the values up to the first error.
abbrev pub paced : ℕ → List (Result Transaction) → List (ℕ ⊎ Transaction)
paced ms [] = []
paced ms (err e ∷ rs) = inl ms ∷ []
paced ms (ok tx ∷ rs) = inl ms ∷ inr tx ∷ paced ms rs

-- The same with no sleep before the first result.
abbrev pub schedule : ℕ → List (Result Transaction) → List (ℕ ⊎ Transaction)
schedule ms [] = []
schedule ms (err e ∷ rs) = []
schedule ms (ok tx ∷ rs) = inr tx ∷ paced ms rs

-- What is left of the schedule when the wallet with the number `i` is next.
abbrev pub schedule_from : ℕ → ℕ → List (Result Transaction) → List (ℕ ⊎ Transaction)
schedule_from zero = schedule
schedule_from (suc i) = paced

-- The values of the results before the first error, that error, and how many results are looked at.
abbrev pub before_error {ℓ} : {A : Type ℓ} → List (Result A) → List A
before_error [] = []
before_error (err e ∷ rs) = []
before_error (ok a ∷ rs) = a ∷ before_error rs

abbrev pub first_error {ℓ} : {A : Type ℓ} → List (Result A) → Result (Unit {0})
first_error [] = ok tt
first_error (err e ∷ rs) = err e
first_error (ok a ∷ rs) = first_error rs

abbrev pub looked_at {ℓ} : {A : Type ℓ} → List (Result A) → ℕ
looked_at [] = 0
looked_at (err e ∷ rs) = 1
looked_at (ok a ∷ rs) = suc (looked_at rs)

-- The clock of the program: what it shows first while the `i`-th wallet waits for a client, which
-- never decreases.
pub record Clock (answers : ℕ → Answers) : Type 0 where
  pub at : ℕ → ℕ
  pub later : ℕ → List ℕ
  pub shown : (i : ℕ) → (answers i).nows ≡ at i ∷ later i
  pub forward : (i : ℕ) → at i ≤ at (suc i)

-- The pool of a program that has one.
abbrev pub Ready : ℕ → Option JitoPool → Type 0
Ready time none = Unit {0}
Ready time (some pool) = IsFree time pool

-- The pauses up to the last of so many wallets: there is none before the first wallet of all.
abbrev pub pauses : ℕ → ℕ → ℕ
pauses zero zero = 0
pauses zero (suc n) = n
pauses (suc i) n = n

asleep-pause :
    (i ms : ℕ) (steps : List Step) → asleep (pause i ms ++ steps) ≡ pauses i 1 * ms + asleep steps
asleep-pause zero ms steps = omega arith
asleep-pause (suc i) ms steps = omega arith

delivered-pause : (i ms : ℕ) (steps : List Step) → delivered (pause i ms ++ steps) ≡ delivered steps
delivered-pause zero ms steps = refl
delivered-pause (suc i) ms steps = refl

timeline-failed :
    (i ms : ℕ) (e : Error) (rs : List (Result Transaction))
    → timeline (pause i ms) ≡ schedule_from i ms (err e ∷ rs)
timeline-failed zero ms e rs = refl
timeline-failed (suc i) ms e rs = refl

timeline-made :
    (i ms : ℕ) (tx : Transaction) (steps : List Step) (rs : List (Result Transaction))
    → timeline steps ≡ inr tx ∷ paced ms rs
    → timeline (pause i ms ++ steps) ≡ schedule_from i ms (ok tx ∷ rs)
timeline-made zero ms tx steps rs h = h
timeline-made (suc i) ms tx steps rs h = ap (λ rest. inl ms ∷ rest) h

pauses-suc : (i n ms : ℕ) → pauses i (suc n) * ms ≡ pauses i 1 * ms + n * ms
pauses-suc zero n ms = omega arith
pauses-suc (suc i) n ms = omega arith

-- A step that delivers a transaction.
record Delivers (tx : Transaction) (step : Step) : Type 0 where
  adds : (steps : List Step) → delivered (step ∷ steps) ≡ tx ∷ delivered steps
  in_time : (steps : List Step) → timeline (step ∷ steps) ≡ inr tx ∷ timeline steps
  awake : (steps : List Step) → asleep (step ∷ steps) ≡ asleep steps

-- A bundle goes over the client that a free pool hands out.
pub deliver_one-free :
    (wire : Wire) (answers : ℕ → Answers) (clock : Clock answers) (i : ℕ) (pool : JitoPool)
    (tx : Transaction) (hands : Hands pool (clock.at i) (clock.at (suc i)) (clock.later i))
    → let answer =
        send_jito_bundle wire.encode wire.base64 ((answers i).send_bundle hands.client) (tx ∷ []) in
      deliver_one wire (some pool) tx (answers i)
      ≡ (some hands.after, some (bundled hands.client tx answer))
unfolding deliver_one
deliver_one-free wire answers clock i pool tx hands =
    let now = ap (next_client pool) (clock.shown i) ∙ hands.handed in
    rw (now, deliver_one) (rw now refl)

-- A delivery from a ready pool is made, and leaves the pool ready.
deliver_one-Ready :
    (wire : Wire) (answers : ℕ → Answers) (clock : Clock answers) (i : ℕ) (jito : Option JitoPool)
    (tx : Transaction)
    → Ready (clock.at i) jito
    → (after : Option JitoPool) × (step : Step) × (deliver_one wire jito tx (answers i)
        ≡ (after, some step))
      × Delivers tx step
      × Ready (clock.at (suc i)) after
unfolding deliver_one
deliver_one-Ready wire answers clock i none tx h = (
  none,
  sent tx _,
  refl,
  record { adds = λ steps. refl; in_time = λ steps. refl; awake = λ steps. refl },
  tt,
)
deliver_one-Ready wire answers clock i (some pool) tx h =
    let hands =
      next_client-free pool (clock.at i) (clock.at (suc i)) (clock.later i) (clock.forward i) h in
    (
      some hands.after,
      bundled hands.client tx (
          send_jito_bundle wire.encode wire.base64 ((answers i).send_bundle hands.client)
            (tx ∷ [])),
      deliver_one-free wire answers clock i pool tx hands,
      record { adds = λ steps. refl; in_time = λ steps. refl; awake = λ steps. refl },
      hands.still_free,
    )

module _ ⦃chain : Solana⦄ {F : Type 0} ⦃d : Float F⦄ where
  -- The transactions of the wallets from the number `i` on, or their errors.
  abbrev pub attempts :
      Settings F → PoolInfo → (ℕ → Answers) → ℕ → List ℕ → List (Result Transaction)
  attempts settings loaded answers i [] = []
  attempts settings loaded answers i (payer ∷ payers) =
      wallet_transaction settings loaded payer (answers i)
      ∷ attempts settings loaded answers (suc i) payers

  pub batch_from-ok :
      (wire : Wire) (settings : Settings F) (loaded : PoolInfo) (answers : ℕ → Answers)
      (jito after : Option JitoPool) (i payer : ℕ) (payers : List ℕ) (tx : Transaction)
      (step : Step)
      → wallet_transaction settings loaded payer (answers i) ≡ ok tx
      → deliver_one wire jito tx (answers i) ≡ (after, some step)
      → let rest = batch_from wire settings loaded answers after (suc i) payers in
        batch_from wire settings loaded answers jito i (payer ∷ payers)
        ≡ (pause i settings.interval_ms ++ (step ∷ rest.0), rest.1)
  unfolding batch_from
  batch_from-ok wire settings loaded answers jito after i payer payers tx step made delivery =
      rw (made, delivery, batch_from) (rw delivery refl)

  -- With a clock that never goes back, and a Jito pool as the program makes it or none: the run
  -- delivers the transactions of the wallets in order, up to the first wallet whose transaction cannot
  -- be built, whatever the answers to the deliveries are; it returns that error, or none, and sleeps
  -- the interval before each wallet but the first of all.
  pub batch_from-attempts :
      (wire : Wire) (settings : Settings F) (loaded : PoolInfo) (answers : ℕ → Answers)
      (clock : Clock answers) (jito : Option JitoPool) (i : ℕ) (payers : List ℕ)
      → Ready (clock.at i) jito
      → let run = batch_from wire settings loaded answers jito i payers in
        let tries = attempts settings loaded answers i payers in
        (delivered run.0 ≡ before_error tries)
        × (run.1 ≡ returned (first_error tries))
        × (asleep run.0 ≡ pauses i (looked_at tries) * settings.interval_ms)
        × (timeline run.0 ≡ schedule_from i settings.interval_ms tries)
  unfolding batch_from
  batch_from-attempts wire settings loaded answers clock jito i [] ready =
      (refl, refl, none_left i, nothing i)
    where
      none_left : (i : ℕ) → 0 ≡ pauses i 0 * settings.interval_ms
      none_left zero = omega arith
      none_left (suc i) = omega arith

      nothing : (i : ℕ) → [] ≡ schedule_from i settings.interval_ms []
      nothing zero = refl
      nothing (suc i) = refl
  batch_from-attempts wire settings loaded answers clock jito i (payer ∷ payers) ready =
      elim (Result-cases (wallet_transaction settings loaded payer (answers i))) [
        | inl (e, failed) ↦
            let ms = settings.interval_ms in
            rw (failed, batch_from)
              (
                ap delivered (sym (append-nil (pause i ms))) ∙ delivered-pause i ms [],
                refl,
                ap asleep (sym (append-nil (pause i ms))) ∙ (asleep-pause i ms [] ∙ omega arith),
                timeline-failed i ms e (attempts settings loaded answers (suc i) payers),
              )
        | inr (tx, made) ↦
            let (after, step, delivery, delivers, ready_after) =
              deliver_one-Ready wire answers clock i jito tx ready in
            let (all, ended, slept_all, in_order) =
              batch_from-attempts wire settings loaded answers clock after (suc i) payers
                ready_after in
            let ms = settings.interval_ms in
            let tries = attempts settings loaded answers (suc i) payers in
            rw
              (
                batch_from-ok wire settings loaded answers jito after i payer payers tx step made
                    delivery,
                made,
              )
              (
                delivered-pause i ms _ ∙ (delivers.adds _ ∙ ap (◌∷◌ tx) all),
                ended,
                asleep-pause i ms _
                    ∙ (ap (◌+◌ (pauses i 1 * ms)) (delivers.awake _ ∙ slept_all)
                        ∙ sym (pauses-suc i (looked_at tries) ms)),
                timeline-made i ms tx _ tries
                    (delivers.in_time _ ∙ ap (λ rest. inr tx ∷ rest) in_order),
              )
      ]
