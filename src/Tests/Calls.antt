-- ===== src/Tests/Calls.antt =====
-- Concrete calls of the client methods of src/client.rs, over the stand-in for the libraries.
use pump_swap_sdk.Prelude.{
  ℕ, ◌<◌, ◌+◌, ◌*◌, ◌/◌, false, ◌≤◌, arith, ◌≡◌, refl, sym, ap, Bool-cases, ◌⊎◌, inl, inr, [], ◌∷◌,
  none, some, map, All, if◌then◌else◌, ltb, ◌==◌,
}
use pump_swap_sdk.Prelude.Outcome.{ok, err, no_pooled_amounts}
use pump_swap_sdk.Math.Binary64.{Magnitude, F64, number}
use pump_swap_sdk.Math.Binary64.Arithmetic.{binary64, one_unit}
use pump_swap_sdk.Solana.{Instruction}
use pump_swap_sdk.Instruction.Swap.Metas.{signers}
use pump_swap_sdk.Client.Balance.{
  UiTokenAmount, BalanceAnswer, balance, failed, ui_pooled_amounts, parse_u64,
  fetch_ui_pooled_amounts,
}
use pump_swap_sdk.Client.Balance.Rounds.{slept_in, round_of, Fails, fetch_ui_pooled_amounts_lem}
use pump_swap_sdk.Client.Send.{Node}
use pump_swap_sdk.Client.Send.Trades.{Priced, price, compute_budget}
use pump_swap_sdk.Client.Send.Trades
use pump_swap_sdk.Client.Send.Signers.{SignedBy, Documented}
use pump_swap_sdk.Client.Send.Calls.{Call, buy_exact_quote_in, perform, delivery_of}
use pump_swap_sdk.Client.Send.Delivered.{IsSignable, Reports, perform-IsSignable, perform-Reports}
use pump_swap_sdk.Client.Send.Omitted.{SendsLess, creation, buy-simulated}
use pump_swap_sdk.Client.Send.Liquidity.{share_of}
use pump_swap_sdk.Client.Send.Share.{share_of-part}
use pump_swap_sdk.Math.Binary64.{units, nearest}
use pump_swap_sdk.Client.Send.Simulated.{transactions, prefixed, sell-simulated}
use pump_swap_sdk.Client.Chain.Store.{reads}
use pump_swap_sdk.Tests.Store.{store, known}
use pump_swap_sdk.Tests.StandIn.{stand_in, signed_ix, empty_ix, pool, random}

some-inj : {ix other : Instruction} → some ix ≡ some other → ix ≡ other
some-inj h = cc

some≢none : {ix : Instruction} → ¬ (none ≡ some ix)
some≢none h = cc

closes-SignedBy :
    (program account to owner : ℕ) (ix : Instruction)
    → stand_in.close_account program account to owner ≡ some ix
    → SignedBy owner ix
closes-SignedBy program account to owner ix h = elim (Bool-cases (program == 6)) [
  | inl own ↦
      let signed : SignedBy owner (signed_ix owner) = record { by_key = (refl, tt) } in
      rw (some-inj (rw own at h)) at signed
  | inr other ↦ absurd (some≢none (rw other at h))
]

nobody-signs : (ix : Instruction) → some empty_ix ≡ some ix → signers ix.accounts ≡ []
nobody-signs ix h = ap (λ (i : Instruction). signers i.accounts) (sym (some-inj h))

pub documented : Documented
documented = record {
  created = λ payer wallet mint program. record { by_key = (refl, tt) };
  seeded = λ from to seed lamports space owner. record { by_key = (refl, tt) };
  transferred = λ from to lamports. record { by_key = (refl, tt) };
  initialized = λ program account mint owner ix h. nobody-signs ix h;
  closed = closes-SignedBy;
  synced = λ program account ix h. nobody-signs ix h;
  limited = λ units. refl;
  priced = λ units. refl;
}

-- A node that accepts every transaction at the blockhash 7.
abbrev pub node : Node
node = record { latest_blockhash = ok 7; deliver = λ delivery tx. ok tt }

abbrev spending : Call F64
spending = buy_exact_quote_in 1_000 5 pool random

perform-IsSignable_example : All (IsSignable 1) (perform node 1 spending).delivered
perform-IsSignable_example = perform-IsSignable documented node 1 spending

perform-Reports_example : Reports node (delivery_of spending) (perform node 1 spending)
perform-Reports_example = perform-Reports node 1 spending

abbrev half : Magnitude
half = nearest one_unit 2

half-le_one : units half ≤ one_unit
unfolding units nearest one_unit
half-le_one = omega arith

sell-simulated_example :
    transactions (Trades.sell F64 node (reads store) (reads store) 1_000 known 1 random)
    ≡ map (prefixed (compute_budget 1_000_000 100_000)) (
        transactions
          (Trades.simulate_sell F64 node (reads store) (reads store) known 1_000 1 random))
sell-simulated_example = sell-simulated F64 node (reads store) (reads store) known 1_000 1 random

buy-simulated_example :
    ((transactions (Trades.simulate_buy F64 node (reads store) (reads store) known 1_000 1 random)
        ≡ [])
      × (transactions (Trades.buy F64 node (reads store) (reads store) 1_000 known 1 random) ≡ []))
    ⊎ ((p : Priced) × (price (reads store) (reads store) known ≡ ok p)
        × SendsLess
            (compute_budget 1_000_000 100_000)
            (creation p.pool 1)
            1
            (Trades.simulate_buy F64 node (reads store) (reads store) known 1_000 1 random)
            (Trades.buy F64 node (reads store) (reads store) 1_000 known 1 random))
buy-simulated_example = buy-simulated F64 node (reads store) (reads store) 1_000 known 1 random

share_of-part_example :
    let part = 1_001 * units half / one_unit in
    let share = share_of (number false half) 1_001 in
    (part ≤ share) × (share ≤ part + 1) × (share ≤ 1_001)
share_of-part_example = share_of-part half 1_001 half-le_one (omega arith)

-- A node that answers for the vaults from the third round on.
abbrev amount : UiTokenAmount F64
amount = record { amount = b'4' ∷ b'2' ∷ []; ui_amount = some (binary64.literal 42 1) }

abbrev late : ℕ → (ℕ → BalanceAnswer F64) × (ℕ → BalanceAnswer F64)
late round =
    if ltb round 2
    then (λ key. failed, λ key. failed)
    else (λ key. balance amount, λ key. balance amount)

fetch_ui_pooled_amounts_lem_example :
    ((k : ℕ) × (v : F64 × F64 × ℕ × ℕ) × (k < 6)
      × (round_of late pool k ≡ ok v)
      × ((i : ℕ) → i < k → Fails late pool i)
      × (fetch_ui_pooled_amounts late pool ≡ (slept_in k 200, ok v)))
    ⊎ (((i : ℕ) → i < 6 → Fails late pool i)
        × (fetch_ui_pooled_amounts late pool ≡ (9_000, err no_pooled_amounts)))
fetch_ui_pooled_amounts_lem_example = fetch_ui_pooled_amounts_lem late pool

late_run : (fetch_ui_pooled_amounts late pool).0 ≡ 600
unfolding fetch_ui_pooled_amounts ui_pooled_amounts parse_u64
late_run = refl
