-- ===== src/Examples/BatchBuy/Program.antt =====
-- What examples/batch_buy.rs does from its start.
use pump_swap_sdk.Prelude.{
  ℕ, zero, suc, ◌*◌, ◌≤◌, ◌≡◌, refl, true, Bool-cases, inl, inr, List, [], ◌∷◌, ◌++◌, Option, none,
  some, ◌==◌, length, map, replicate, length-map, All, arith,
}
use pump_swap_sdk.Prelude.Outcome.{Result, ok, Result-cases}
use pump_swap_sdk.State.Pool.{PoolInfo, effective_reserves}
use pump_swap_sdk.Math.Float.{Float}
use pump_swap_sdk.Math.Curve.{calc_amount_out}
use pump_swap_sdk.Solana.{Solana}
use pump_swap_sdk.Util.Jito.{new_pool, api_path}
use pump_swap_sdk.Util.Load.{GetOwners}
use pump_swap_sdk.Client.Chain.Fetch.{load_pool}
use pump_swap_sdk.Client.Chain.{fetch_pool_snapshot}
use pump_swap_sdk.Client.Trade.{build_buy_ixs}
use pump_swap_sdk.Client.Send.{Transaction}
use pump_swap_sdk.Client.Send.Signers.{AllSignedBy, OnOk, of_ok, >>=-OnOk, unsigned, Documented}
use pump_swap_sdk.Client.Send.Lists.{build_buy_ixs-AllSignedBy}
use pump_swap_sdk.Examples.Settings.{Variable, Parsers, entries}
use pump_swap_sdk.Examples.BatchBuy.{
  Settings, Answers, Wire, Environment, returned, parse_jito_pool, wallet_transaction, batch_from,
  from_environment, batch_buy,
}
use pump_swap_sdk.Examples.BatchBuy.Deliveries.{
  Clock, Ready, delivered, asleep, timeline, schedule, before_error, first_error, looked_at, pauses,
  attempts, batch_from-attempts,
}

replicate-All : (n now time : ℕ) → now ≤ time → All (λ t. t ≤ time) (replicate n now)
replicate-All zero now time h = tt
replicate-All (suc n) now time h = (h, replicate-All n now time h)

-- The pool that the program makes is free from then on.
parse_jito_pool-Ready :
    (make : List ℕ → Option ℕ → ℕ) (variable : Variable) (now time : ℕ)
    → now ≤ time
    → Ready time (parse_jito_pool make variable now)
unfolding parse_jito_pool new_pool
parse_jito_pool-Ready make none now time h = tt
parse_jito_pool-Ready make (some endpoints) now time h =
    elim (Bool-cases (length (entries endpoints) == 0)) [
      | inl empty ↦ rw empty tt
      | inr there ↦
          let clients = map (λ base. make (base ++ api_path) none) (entries endpoints) in
          rw there (record {
            no_interval = refl;
            some_client =
                ground
                  (arith, length-map (entries endpoints) (λ base. make (base ++ api_path) none));
            free = replicate-All (length clients) now time h;
          })
    ]

-- A transaction that its wallet pays for, and that only the wallet has to sign.
pub record IsOwn (payer : ℕ) (tx : Transaction) : Type 0 where
  pub paid : tx.payer ≡ payer
  pub signed : AllSignedBy payer tx.instructions

-- The wallets own the transactions one by one, as far as these go.
abbrev pub Own : List ℕ → List Transaction → Type 0
Own payers [] = Unit {0}
Own [] (tx ∷ txs) = ⊥
Own (payer ∷ payers) (tx ∷ txs) = IsOwn payer tx × Own payers txs

module _ ⦃chain : Solana⦄ {F : Type 0} ⦃d : Float F⦄ where
  wallet_transaction-IsOwn :
      (doc : Documented) (settings : Settings F) (loaded : PoolInfo) (payer : ℕ) (a : Answers)
      → OnOk (IsOwn payer) (wallet_transaction settings loaded payer a)
  unfolding wallet_transaction
  wallet_transaction-IsOwn doc settings loaded payer a =
      >>=-OnOk _ (fetch_pool_snapshot a.get_multiple_accounts loaded) _ λ current _.
        let reserves = effective_reserves current.0 current.1.0 current.1.1 in
        let out = calc_amount_out settings.amount_in reserves.1 reserves.0 settings.slippage in
        >>=-OnOk _ (build_buy_ixs out settings.amount_in true current.0 payer true a.random) _
          λ built e. >>=-OnOk _ a.latest_blockhash _ λ hash _. record {
            paid = refl;
            signed = (
              unsigned payer _ (doc.limited 1_000_000),
              (
                unsigned payer _ (doc.priced 100_000),
                of_ok (AllSignedBy payer)
                    (build_buy_ixs-AllSignedBy doc out settings.amount_in true current.0 payer true
                      a.random)
                    e,
              ),
            );
          }

  attempts-Own :
      (doc : Documented) (settings : Settings F) (loaded : PoolInfo) (answers : ℕ → Answers) (i : ℕ)
      (payers : List ℕ)
      → Own payers (before_error (attempts settings loaded answers i payers))
  attempts-Own doc settings loaded answers i [] = tt
  attempts-Own doc settings loaded answers i (payer ∷ payers) =
      elim (Result-cases (wallet_transaction settings loaded payer (answers i))) [
        | inl (e, failed) ↦ rw failed tt
        | inr (tx, made) ↦ rw made (
          of_ok (IsOwn payer) (wallet_transaction-IsOwn doc settings loaded payer (answers i)) made,
          attempts-Own doc settings loaded answers (suc i) payers,
        )
      ]

  batch_buy-eq :
      {K : Type 0} (parsers : Parsers F K) (make : List ℕ → Option ℕ → ℕ) (wire : Wire)
      (get_account_data : ℕ → Result (List ℕ)) (get_owners : GetOwners) (now : ℕ)
      (answers : ℕ → Answers) (env : Environment) (pool : ℕ) (keypairs : List K)
      (settings : Settings F) (loaded : PoolInfo)
      → from_environment parsers env ≡ ok (pool, keypairs, settings)
      → load_pool get_account_data get_owners pool ≡ ok loaded
      → batch_buy parsers make wire get_account_data get_owners now answers env
        ≡ batch_from wire settings loaded answers
            (parse_jito_pool make env.jito_endpoints now)
            0
            (map parsers.pubkey_of keypairs)
  unfolding batch_buy
  batch_buy-eq parsers make wire get_account_data get_owners now answers env pool keypairs settings
        loaded read load =
      rw (read, load, batch_buy) refl

  -- Where the environment gives the settings, the pool loads and the clock never goes back: whatever
  -- the answers to the deliveries are, and over Jito or not, the program delivers the transactions of
  -- its wallets in their order up to the first one that cannot be built, returns the error of that
  -- one, or none, and sleeps the interval before each wallet but the first: the sleeps and the
  -- transactions follow each other in that order.
  pub batch_buy_lem :
      {K : Type 0} (parsers : Parsers F K) (make : List ℕ → Option ℕ → ℕ) (wire : Wire)
      (get_account_data : ℕ → Result (List ℕ)) (get_owners : GetOwners) (now : ℕ)
      (answers : ℕ → Answers) (env : Environment) (pool : ℕ) (keypairs : List K)
      (settings : Settings F) (loaded : PoolInfo) (clock : Clock answers)
      → from_environment parsers env ≡ ok (pool, keypairs, settings)
      → load_pool get_account_data get_owners pool ≡ ok loaded
      → now ≤ clock.at 0
      → let run = batch_buy parsers make wire get_account_data get_owners now answers env in
        let tries = attempts settings loaded answers 0 (map parsers.pubkey_of keypairs) in
        (delivered run.0 ≡ before_error tries)
        × (run.1 ≡ returned (first_error tries))
        × (asleep run.0 ≡ pauses 0 (looked_at tries) * settings.interval_ms)
        × (timeline run.0 ≡ schedule settings.interval_ms tries)
  batch_buy_lem parsers make wire get_account_data get_owners now answers env pool keypairs settings
        loaded clock read load started =
      rw
        (batch_buy-eq parsers make wire get_account_data get_owners now answers env pool keypairs
          settings loaded read load)
        (batch_from-attempts wire settings loaded answers clock
          (parse_jito_pool make env.jito_endpoints now) 0 (map parsers.pubkey_of keypairs)
          (parse_jito_pool-Ready make env.jito_endpoints now (clock.at 0) started))

  -- Under the same conditions, and where the builders of the libraries ask for the signers that they
  -- document: the transactions belong to the wallets one by one, from the first on; each is paid for
  -- by its wallet, which is the only key that has to sign it.
  pub batch_buy-Own :
      {K : Type 0} (parsers : Parsers F K) (make : List ℕ → Option ℕ → ℕ) (wire : Wire)
      (get_account_data : ℕ → Result (List ℕ)) (get_owners : GetOwners) (now : ℕ)
      (answers : ℕ → Answers) (env : Environment) (pool : ℕ) (keypairs : List K)
      (settings : Settings F) (loaded : PoolInfo) (clock : Clock answers) (doc : Documented)
      → from_environment parsers env ≡ ok (pool, keypairs, settings)
      → load_pool get_account_data get_owners pool ≡ ok loaded
      → now ≤ clock.at 0
      → let run = batch_buy parsers make wire get_account_data get_owners now answers env in
        Own (map parsers.pubkey_of keypairs) (delivered run.0)
  batch_buy-Own parsers make wire get_account_data get_owners now answers env pool keypairs settings
        loaded clock doc read load started =
      let (all, _, _, _) =
        batch_buy_lem parsers make wire get_account_data get_owners now answers env pool keypairs
          settings loaded clock read load started in
      rw all (attempts-Own doc settings loaded answers 0 (map parsers.pubkey_of keypairs))
