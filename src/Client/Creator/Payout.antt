-- ===== src/Client/Creator/Payout.antt =====
-- What src/client.rs pays out of a coin's creator fees.
use pump_swap_sdk.Prelude.{
  ℕ, ◌≡◌, refl, sym, ap, ◌∙◌, Bool, true, false, not, Bool-cases, ◌↔◌, inl, inr, List, [], ◌∷◌,
  ◌++◌, map, Option, none, some, if◌then◌else◌, drop,
}
use pump_swap_sdk.Prelude.Outcome.{
  Result, ok, err, ◌>>=◌, >>=-eq-ok, ok_or, Error, fees_are_shared, no_sharing_config,
  sharing_not_active,
}
use pump_swap_sdk.Constants.{wrapped_sol_mint}
use pump_swap_sdk.State.Pool.{PoolInfo}
use pump_swap_sdk.State.Sharing.{
  SharingConfig, Shareholder, ConfigStatus, active, is_active, bonding_curve_creator_fee,
}
use pump_swap_sdk.State.Sharing
use pump_swap_sdk.Solana.{Solana, Instruction, new}
use pump_swap_sdk.Util.Pda.{fee_sharing_config, sharing_config_pda}
use pump_swap_sdk.Instruction.Creator.{
  make_collect_coin_creator_fee_instruction, sweep_pool_creator_fee_instruction,
  transfer_creator_fees_to_pump_instruction, distribute_creator_fees_instruction,
}
use pump_swap_sdk.Client.Chain.{Found, GetAccounts, active_shareholders, fetch_sharing_config}
use pump_swap_sdk.Client.Creator.Sweeps.{ok-inj}
use pump_swap_sdk.Client.Creator.{
  is_some, build_collect_coin_creator_fee_ixs, build_collect_pool_creator_fee_ixs,
  build_creator_fee_sweep_ixs, build_creator_fee_withdraw_ixs,
}

err≢ok {ℓ} : {A : Type ℓ} {e : Error} {m : Result A} {a : A} → m ≡ err e → ¬ (m ≡ ok a)
err≢ok failed h = cc

-- What a config that is read lists.
abbrev pub payees : SharingConfig → List ℕ
payees config = map (λ holder. holder.address) config.shareholders

map-payees :
    (hs : List Shareholder)
    → map (λ holder. new holder false) (map (λ holder. holder.address) hs)
      ≡ map (λ holder. new holder.address false) hs
map-payees [] = refl
map-payees (h ∷ hs) = ap (λ rest. new h.address false ∷ rest) (map-payees hs)

active_config :
    (mint : ℕ) {holders : List ℕ} (found : Option SharingConfig)
    → (ok_or (no_sharing_config mint) found >>= λ config.
        (if not (is_active config) then err (sharing_not_active mint) else ok (payees config)))
      ≡ ok holders
    → (config : SharingConfig) × (found ≡ some config)
      × (is_active config ≡ true)
      × (holders ≡ payees config)
active_config mint none h = absurd (cc)
active_config mint (some config) h = elim (Bool-cases (is_active config)) [
  | inl on ↦ (config, refl, on, sym (ok-inj (simp (on) at h)))
  | inr off ↦ absurd (err≢ok refl (simp (off) at h))
]

module _ ⦃chain : Solana⦄ where
  decoded_config :
      {config : SharingConfig} (found : Found)
      → elim found [
        | none ↦ ok none
        | some bytes ↦ (Sharing.from_account_data bytes >>= λ c. ok (some c))
      ]
        ≡ ok (some config)
      → (bytes : List ℕ) × (found ≡ some bytes) × (Sharing.from_account_data bytes ≡ ok config)
  decoded_config none h = absurd (cc)
  decoded_config (some bytes) h =
      let (c, decoded, same) = >>=-eq-ok (Sharing.from_account_data bytes) _ h in (bytes, refl, cc)

  active_shareholders_lem :
      (get_account : ℕ → Result Found) (mint : ℕ) {holders : List ℕ}
      → active_shareholders get_account mint ≡ ok holders
      → (bytes : List ℕ) × (config : SharingConfig) × (get_account (sharing_config_pda mint)
          ≡ ok (some bytes))
        × (Sharing.from_account_data bytes ≡ ok config)
        × (is_active config ≡ true)
        × (holders ≡ payees config)
  unfolding active_shareholders fetch_sharing_config
  active_shareholders_lem get_account mint h =
      let (found, fetched, rest) = >>=-eq-ok (fetch_sharing_config get_account mint) _ h in
      let (config, is_found, on, listed) = active_config mint found rest in
      let (answer, got, decoding) =
        >>=-eq-ok (get_account (sharing_config_pda mint)) _ (fetched ∙ ap ok is_found) in
      let (bytes, there, decoded) = decoded_config answer decoding in
      (bytes, config, got ∙ ap ok there, decoded, on, listed)

  distributed :
      (mint : ℕ) (holders : List ℕ)
      → (distribute : Instruction) × (distribute_creator_fees_instruction mint holders
          ≡ ok distribute)
        × (drop 7 distribute.accounts ≡ map (λ holder. new holder false) holders)
  unfolding distribute_creator_fees_instruction
  distributed mint holders = (_, refl, refl)

  transferred :
      (key : ℕ)
      → (transfer : Instruction) × (transfer_creator_fees_to_pump_instruction key ≡ ok transfer)
  unfolding transfer_creator_fees_to_pump_instruction
  transferred key = (_, refl)

  -- The direct collection is refused exactly for a pool whose creator fees go to a sharing config.
  pub build_collect_pool_creator_fee_ixs_iff :
      (p : PoolInfo) (payer : ℕ) (create : Bool)
      → (build_collect_pool_creator_fee_ixs p payer create ≡ err (fees_are_shared p.pool))
        ↔ (is_some (fee_sharing_config p) ≡ true)
  unfolding build_collect_pool_creator_fee_ixs build_collect_coin_creator_fee_ixs
      sweep_pool_creator_fee_instruction make_collect_coin_creator_fee_instruction
  build_collect_pool_creator_fee_ixs_iff p payer create =
      elim (Bool-cases (is_some (fee_sharing_config p))) [
        | inl shared ↦ (λ refused. shared, λ shares. simp (shared))
        | inr single ↦
            (λ refused. absurd (err≢ok (simp (single) at refused) refl), λ shares. absurd (cc))
      ]

  -- A payout that succeeds reads a sharing config of the mint that is active, sweeps, transfers, and
  -- last distributes to the config's shareholders in stored order, behind seven fixed accounts.
  pub build_creator_fee_withdraw_ixs_lem :
      (get_account : ℕ → Result Found) (get : GetAccounts) (payer mint : ℕ) (ixs : List Instruction)
      → build_creator_fee_withdraw_ixs get_account get payer mint ≡ ok ixs
      → (bytes : List ℕ) × (config : SharingConfig) × (sweeps : List Instruction)
        × (transfer : Instruction) × (distribute : Instruction) × (get_account
              (sharing_config_pda mint)
            ≡ ok (some bytes))
        × (Sharing.from_account_data bytes ≡ ok config)
        × (is_active config ≡ true)
        × (ixs ≡ sweeps ++ (transfer ∷ distribute ∷ []))
        × (drop 7 distribute.accounts
            ≡ map (λ holder. new holder.address false) config.shareholders)
  unfolding build_creator_fee_withdraw_ixs
  build_creator_fee_withdraw_ixs_lem get_account get payer mint ixs built =
      let (holders, listed, rest) = >>=-eq-ok (active_shareholders get_account mint) _ built in
      let (sweeps, swept, last) =
        >>=-eq-ok (build_creator_fee_sweep_ixs get payer mint wrapped_sol_mint _) _ rest in
      let (bytes, config, got, decoded, on, same) =
        active_shareholders_lem get_account mint listed in
      let (transfer, moved) = transferred (sharing_config_pda mint) in
      let (distribute, paid, to) = distributed mint holders in
      (
        bytes,
        config,
        sweeps,
        transfer,
        distribute,
        got,
        decoded,
        on,
        sym (ok-inj (simp (moved, paid) at last)),
        to ∙ ap (λ xs. map (λ holder. new holder false) xs) same ∙ map-payees config.shareholders,
      )
