-- ===== src/Client/Send/Omitted.antt =====
-- What the simulation of a purchase in src/client.rs says of the purchase: it creates the token account,
-- which the purchase does not.
use pump_swap_sdk.Prelude.{
  ℕ, ◌≡◌, refl, ap, sym, ◌⊎◌, inl, inr, Bool, true, false, List, [], ◌∷◌, ◌++◌, append_assoc,
}
use pump_swap_sdk.Prelude.Outcome.{Result, ok, err, ◌>>=◌, Error, Result-cases}
use pump_swap_sdk.State.Pool.{PoolInfo, token_mint, token_program}
use pump_swap_sdk.Math.Float.{Float}
use pump_swap_sdk.Solana.{Solana, Instruction}
use pump_swap_sdk.Instruction.Swap.{make_buy_instruction, make_buy_exact_quote_in_instruction}
use pump_swap_sdk.Util.Pda.{gen_pubkey_with_seed, create_ata_token_or_not_with_program}
use pump_swap_sdk.Client.Chain.{GetAccounts}
use pump_swap_sdk.Client.Trade.{
  Randomness, optional, maybe_extend_pool_ix, open_wsol_account, close_wsol_account, build_buy_ixs,
  build_buy_exact_quote_in_ixs,
}
use pump_swap_sdk.Client.Send.{Transaction, Node, Sent, send, simulate, submit}
use pump_swap_sdk.Client.Send.Trades.{
  Priced, price, compute_budget, buy_floor, simulate_buy, buy, simulate_buy_exact_quote_in,
  buy_exact_quote_in,
}
use pump_swap_sdk.Client.Send.Simulated.{transactions}

-- Two lists fail with the same error, or the second one lacks one instruction of the first.
unfoldable pub Omits : Instruction → Result (List Instruction) → Result (List Instruction) → Type 0
Omits ix full less =
    ((e : Error) × (full ≡ err e) × (less ≡ err e))
    ⊎ ((before : List Instruction) × (after : List Instruction) × (full
          ≡ ok (before ++ (ix ∷ after)))
        × (less ≡ ok (before ++ after)))

>>=-Omits :
    {A : Type 0} (ix : Instruction) (m : Result A) (f g : A → Result (List Instruction))
    → ((a : A) → Omits ix (f a) (g a))
    → Omits ix (m >>= f) (m >>= g)
unfolding Omits
>>=-Omits ix (err e) f g h = inl (e, refl, refl)
>>=-Omits ix (ok a) f g h = h a

assembled-Omits :
    (ix : Instruction) (extend opening tail : List Instruction)
    → Omits ix (ok (extend ++ (opening ++ (ix ∷ tail)))) (ok (extend ++ (opening ++ tail)))
unfolding Omits
assembled-Omits ix extend opening tail = inr (
  extend ++ opening,
  tail,
  ap ok (sym (append_assoc extend opening (ix ∷ tail))),
  ap ok (sym (append_assoc extend opening tail)),
)

abbrev pub paid : ℕ → ℕ → List Instruction → Transaction
paid payer hash ixs = record { instructions = ixs; payer = payer; recent_blockhash = hash }

-- What a simulation and a method that sends deliver: nothing both, or one transaction each, where the
-- second one has instructions in front and lacks one.
abbrev pub SendsLess : List Instruction → Instruction → ℕ → Sent → Sent → Type 0
SendsLess first ix payer simulated sent =
    ((transactions simulated ≡ []) × (transactions sent ≡ []))
    ⊎ ((hash : ℕ) × (before : List Instruction) × (after : List Instruction) × (transactions
            simulated
          ≡ paid payer hash (before ++ (ix ∷ after)) ∷ [])
        × (transactions sent ≡ paid payer hash (first ++ (before ++ after)) ∷ []))

submit-SendsLess :
    (node : Node) (payer : ℕ) (first : List Instruction) (ix : Instruction)
    (full less : Result (List Instruction))
    → Omits ix full less
    → SendsLess first ix payer
        (submit node simulate payer full)
        (submit node send payer (less >>= λ built. ok (first ++ built)))
unfolding Omits submit
submit-SendsLess node payer first ix full less (inl (e, fails, too)) =
    inl (rw (fails, submit) refl, rw (too, submit) refl)
submit-SendsLess node payer first ix full less (inr (before, after, whole, rest)) =
    elim (Result-cases node.latest_blockhash) [
      | inl (e, failed) ↦ inl (rw (whole, failed, submit) refl, rw (rest, failed, submit) refl)
      | inr (hash, got) ↦
          inr (hash, before, after, rw (whole, got, submit) refl, rw (rest, got, submit) refl)
    ]

module _ ⦃chain : Solana⦄ where
  open chain use {create_associated_token_account_idempotent}

  -- The creation of the token account.
  abbrev pub creation : PoolInfo → ℕ → Instruction
  creation p payer =
      create_associated_token_account_idempotent payer payer (token_mint p) (token_program p)

  build_buy_ixs-Omits :
      (x y : ℕ) (track : Bool) (p : PoolInfo) (payer : ℕ) (random : Randomness)
      → Omits
          (creation p payer)
          (build_buy_ixs x y track p payer true random)
          (build_buy_ixs x y track p payer false random)
  unfolding build_buy_ixs create_ata_token_or_not_with_program
  build_buy_ixs-Omits x y track p payer random =
      let ix = creation p payer in
      >>=-Omits ix (maybe_extend_pool_ix p payer) _ _ λ extend.
        >>=-Omits ix (gen_pubkey_with_seed random.seed_bytes payer) _ _ λ fresh.
          >>=-Omits ix (open_wsol_account payer fresh.0 fresh.1 _) _ _ λ opening.
            >>=-Omits ix (make_buy_instruction x y track p payer _ _ random.draws) _ _ λ swap.
              >>=-Omits ix (close_wsol_account fresh.0 payer) _ _
                λ close. assembled-Omits ix (optional extend) opening (swap ∷ close ∷ [])

  build_buy_exact_quote_in_ixs-Omits :
      (x y : ℕ) (track : Bool) (p : PoolInfo) (payer : ℕ) (random : Randomness)
      → Omits
          (creation p payer)
          (build_buy_exact_quote_in_ixs x y track p payer true random)
          (build_buy_exact_quote_in_ixs x y track p payer false random)
  unfolding build_buy_exact_quote_in_ixs create_ata_token_or_not_with_program
  build_buy_exact_quote_in_ixs-Omits x y track p payer random =
      let ix = creation p payer in
      >>=-Omits ix (maybe_extend_pool_ix p payer) _ _ λ extend.
        >>=-Omits ix (gen_pubkey_with_seed random.seed_bytes payer) _ _ λ fresh.
          >>=-Omits ix (open_wsol_account payer fresh.0 fresh.1 _) _ _ λ opening.
            >>=-Omits ix (make_buy_exact_quote_in_instruction x y track p payer _ _ random.draws) _
              _
              λ swap.
                >>=-Omits ix (close_wsol_account fresh.0 payer) _ _
                  λ close. assembled-Omits ix (optional extend) opening (swap ∷ close ∷ [])

  -- On the same draws, a purchase for an exact spend and its simulation both deliver nothing, or the
  -- purchase sends the simulated transaction without the creation of the token account and with the
  -- compute budget in front.
  pub buy_exact_quote_in-simulated :
      (node : Node) (spend least : ℕ) (pool : PoolInfo) (payer : ℕ) (random : Randomness)
      → SendsLess
          (compute_budget 1_000_000 100_000)
          (creation pool payer)
          payer
          (simulate_buy_exact_quote_in node spend least pool payer random)
          (buy_exact_quote_in node spend least pool payer random)
  unfolding simulate_buy_exact_quote_in buy_exact_quote_in
  buy_exact_quote_in-simulated node spend least pool payer random =
      submit-SendsLess node payer (compute_budget 1_000_000 100_000) (creation pool payer) _ _
        (build_buy_exact_quote_in_ixs-Omits spend least true pool payer random)

module _ ⦃chain : Solana⦄ (F : Type 0) ⦃d : Float F⦄ where
  -- On the same answers of the node and the same draws, a purchase and its simulation both deliver
  -- nothing, or the purchase sends the simulated transaction without the creation of the token account
  -- of the pool that was read and with the compute budget in front.
  pub buy-simulated :
      (node : Node) (first second : GetAccounts) (amount : ℕ) (pool : PoolInfo) (payer : ℕ)
      (random : Randomness)
      → ((transactions (simulate_buy F node first second pool amount payer random) ≡ [])
          × (transactions (buy F node first second amount pool payer random) ≡ []))
        ⊎ ((p : Priced) × (price first second pool ≡ ok p)
            × SendsLess
                (compute_budget 1_000_000 100_000)
                (creation p.pool payer)
                payer
                (simulate_buy F node first second pool amount payer random)
                (buy F node first second amount pool payer random))
  unfolding simulate_buy buy submit
  buy-simulated node first second amount pool payer random =
      elim (Result-cases (price first second pool)) [
        | inl (e, failed) ↦ inl (simp (failed), simp (failed))
        | inr (p, priced) ↦ inr (
          p,
          priced,
          rw (priced, simulate_buy, buy)
              (submit-SendsLess node payer (compute_budget 1_000_000 100_000)
                (creation p.pool payer) _ _
                (build_buy_ixs-Omits (buy_floor F amount p) amount true p.pool payer random)),
        )
      ]
