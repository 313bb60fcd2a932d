-- ===== src/State/Fees/Ladder.antt =====
-- The market-cap ladder of src/state.rs: which tier `tier_for_market_cap` picks, and the schedule
-- that `fees_for_pool` returns.
use mathlib.Core.List.{reverse, reverse-append}
use pump_swap_sdk.Prelude.{
  ℕ, ◌≤◌, ◌<◌, ◌≡◌, refl, ap, ◌∙◌, inl, inr, Bool, true, false, List, [], ◌∷◌, ◌++◌, Option, none,
  some, leb, if◌then◌else◌, All, Bool-cases, Option-cases, arith,
}
use pump_swap_sdk.State.Fees.{
  FeeTier, FeeConfig, find, or_else, tier_for_market_cap, fees_for_pool, first,
}

leb→le : (a b : ℕ) → leb a b ≡ true → a ≤ b
leb→le a b h = ground arith

leb→lt : (a b : ℕ) → leb a b ≡ false → b < a
leb→lt a b h = ground arith

find-append :
    {A : Type 0} (p : A → Bool) (xs ys : List A)
    → find p (xs ++ ys) ≡ or_else (find p xs) (find p ys)
find-append p [] ys = refl
find-append p (x ∷ xs) ys = ground (arith, find-append p xs ys)

-- The threshold of every tier of the list lies above the market cap.
abbrev pub AllAbove : ℕ → List FeeTier → Type 0
AllAbove cap tiers = All (λ t. cap < t.market_cap_lamports_threshold) tiers

tier-cons :
    (t : FeeTier) (tiers : List FeeTier) (cap : ℕ)
    → tier_for_market_cap (t ∷ tiers) cap
      ≡ or_else
          (tier_for_market_cap tiers cap)
          (if leb t.market_cap_lamports_threshold cap then some t else none)
unfolding tier_for_market_cap
tier-cons t tiers cap =
    let reached = λ (u : FeeTier). leb u.market_cap_lamports_threshold cap in
    ap (find reached) (reverse-append (t ∷ []) tiers) ∙ find-append reached (reverse tiers) (t ∷ [])

tier-nil : (cap : ℕ) → tier_for_market_cap [] cap ≡ none
unfolding tier_for_market_cap
tier-nil cap = refl

-- The tier stands in the ladder, its threshold is reached, and no later threshold is.
abbrev pub IsLastReached : List FeeTier → ℕ → FeeTier → Type 0
IsLastReached tiers cap t =
    (before : List FeeTier) × (after : List FeeTier) × (tiers ≡ before ++ (t ∷ after))
    × (t.market_cap_lamports_threshold ≤ cap)
    × AllAbove cap after

abbrev pub Picks : List FeeTier → ℕ → Option FeeTier → Type 0
Picks tiers cap none = AllAbove cap tiers
Picks tiers cap (some t) = IsLastReached tiers cap t

here :
    (t : FeeTier) (tiers : List FeeTier) (cap : ℕ)
    → AllAbove cap tiers
    → Picks (t ∷ tiers) cap (if leb t.market_cap_lamports_threshold cap then some t else none)
here t tiers cap above = elim (Bool-cases (leb t.market_cap_lamports_threshold cap)) [
  | inl e ↦ rw e ([], tiers, refl, leb→le _ _ e, above)
  | inr e ↦ rw e (leb→lt _ _ e, above)
]

-- `tier_for_market_cap` picks the last tier whose threshold is at most the market cap, and none only
-- if every threshold lies above it.
pub tier_for_market_cap_lem :
    (tiers : List FeeTier) (cap : ℕ) → Picks tiers cap (tier_for_market_cap tiers cap)
tier_for_market_cap_lem [] cap = rw (tier-nil cap) tt
tier_for_market_cap_lem (t ∷ tiers) cap =
    let rest = tier_for_market_cap_lem tiers cap in
    elim (Option-cases (tier_for_market_cap tiers cap)) [
      | inl e ↦ rw (tier-cons t tiers cap, e) (here t tiers cap (rw e at rest))
      | inr (u, e) ↦
          let (before, after, split, reached, above) =
            let found : Picks tiers cap (some u) = rw e at rest in found in
          rw (tier-cons t tiers cap, e) (t ∷ before, after, ap (◌∷◌ t) split, reached, above)
    ]

tier-none :
    (tiers : List FeeTier) (cap : ℕ) → AllAbove cap tiers → tier_for_market_cap tiers cap ≡ none
tier-none [] cap h = tier-nil cap
tier-none (t ∷ tiers) cap (above, h) = tier-cons t tiers cap ∙ ground (arith, tier-none tiers cap h)

tier-some :
    (before after : List FeeTier) (t : FeeTier) (cap : ℕ)
    → t.market_cap_lamports_threshold ≤ cap
    → AllAbove cap after
    → tier_for_market_cap (before ++ (t ∷ after)) cap ≡ some t
tier-some [] after t cap reached above =
    tier-cons t after cap ∙ ground (arith, tier-none after cap above)
tier-some (u ∷ before) after t cap reached above =
    tier-cons u (before ++ (t ∷ after)) cap
    ∙ ground (arith, tier-some before after t cap reached above)

-- A tiered pool pays the fees of the last tier whose threshold its market cap reaches.
pub fees_for_pool-reached :
    (c : FeeConfig) (cap quote_mint : ℕ) (t : FeeTier)
    → IsLastReached c.fee_tiers cap t
    → fees_for_pool c true cap quote_mint ≡ t.fees
unfolding fees_for_pool
fees_for_pool-reached c cap quote_mint t (before, after, split, reached, above) =
    let e = ap (λ (l : List FeeTier). tier_for_market_cap l cap) split in
    rw (e, tier-some before after t cap reached above)

fees_for_ladder :
    (c : FeeConfig) (cap quote_mint : ℕ) (ladder : List FeeTier)
    → c.fee_tiers ≡ ladder
    → AllAbove cap ladder
    → fees_for_pool c true cap quote_mint
      ≡ elim (first ladder) [ none ↦ c.flat_fees | some t ↦ t.fees ]
unfolding fees_for_pool
fees_for_ladder c cap quote_mint [] split above =
    let e = ap (λ (l : List FeeTier). tier_for_market_cap l cap) split in
    rw (e, tier-nil cap, split)
fees_for_ladder c cap quote_mint (t ∷ ts) split above =
    let e = ap (λ (l : List FeeTier). tier_for_market_cap l cap) split in
    rw (e, tier-none (t ∷ ts) cap above, split)

-- A tiered pool whose market cap is below every threshold pays the fees of the first tier, and the
-- flat fees where the ladder is empty.
pub fees_for_pool-below :
    (c : FeeConfig) (cap quote_mint : ℕ)
    → AllAbove cap c.fee_tiers
    → fees_for_pool c true cap quote_mint
      ≡ elim (first c.fee_tiers) [ none ↦ c.flat_fees | some t ↦ t.fees ]
fees_for_pool-below c cap quote_mint above = fees_for_ladder c cap quote_mint c.fee_tiers refl above

-- Thresholds do not fall along the ladder.
abbrev pub IsAscending : ℕ → List FeeTier → Type 0
IsAscending floor [] = Unit {0}
IsAscending floor (t ∷ ts) =
    (floor ≤ t.market_cap_lamports_threshold) × IsAscending t.market_cap_lamports_threshold ts

tier-floor :
    (tiers : List FeeTier) (floor cap : ℕ) (u : FeeTier)
    → IsAscending floor tiers
    → tier_for_market_cap tiers cap ≡ some u
    → floor ≤ u.market_cap_lamports_threshold
tier-floor [] floor cap u h e = cc (tier-nil cap)
tier-floor (t ∷ tiers) floor cap u (low, h) e =
    ground (arith, tier-cons t tiers cap, tier-floor tiers t.market_cap_lamports_threshold cap u h)

-- A pick stays a pick, and its threshold does not fall.
abbrev pub Rises : Option FeeTier → Option FeeTier → Type 0
Rises none after = Unit {0}
Rises (some t) none = ⊥
Rises (some t) (some u) = t.market_cap_lamports_threshold ≤ u.market_cap_lamports_threshold

-- On an ascending ladder a larger market cap never falls back to a lower rung.
pub tier_for_market_cap_mono :
    (tiers : List FeeTier) (floor small large : ℕ)
    → IsAscending floor tiers
    → small ≤ large
    → Rises (tier_for_market_cap tiers small) (tier_for_market_cap tiers large)
tier_for_market_cap_mono [] floor small large h le = rw (tier-nil small) tt
tier_for_market_cap_mono (t ∷ tiers) floor small large (low, h) le =
    let rest = tier_for_market_cap_mono tiers t.market_cap_lamports_threshold small large h le in
    rw (tier-cons t tiers small, tier-cons t tiers large)
      (joined t (tier_for_market_cap tiers small) (tier_for_market_cap tiers large) small large le
        rest (λ u e. tier-floor tiers t.market_cap_lamports_threshold large u h e))
  where
    joined :
        (t : FeeTier) (o p : Option FeeTier) (small large : ℕ)
        → small ≤ large
        → Rises o p
        → ((u : FeeTier)
            → p ≡ some u
            → t.market_cap_lamports_threshold ≤ u.market_cap_lamports_threshold)
        → Rises
            (or_else o (if leb t.market_cap_lamports_threshold small then some t else none))
            (or_else p (if leb t.market_cap_lamports_threshold large then some t else none))
    joined t none none small large le r f = ground arith
    joined t none (some u) small large le r f = ground (arith, f u refl)
    joined t (some v) none small large le r f = elim r [ ]
    joined t (some v) (some u) small large le r f = r
