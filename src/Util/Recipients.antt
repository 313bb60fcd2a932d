-- ===== src/Util/Recipients.antt =====
-- The random choice of fee recipients in src/util.rs. `draw` is the number that the random generator
-- gives; the choice is the element at its remainder.
use pump_swap_sdk.Prelude.{
  ℕ, zero, suc, ◌%◌, ◌<◌, ◌≡◌, refl, Bool, true, false, List, [], ◌∷◌, Option, none, some,
  if◌then◌else◌, length, get_elem?, arith,
}
use native.Mathlib.Nat.{mod-lt}
use pump_swap_sdk.Constants.{
  protocol_fee_recipients, reserved_fee_recipients, buyback_fee_recipients,
}

-- `choose(…)`, and `expect` on its result: `fallback` stands for the panic on an empty list.
abbrev pub choose : List ℕ → ℕ → Option ℕ
choose xs draw = get_elem? xs (draw % length xs)

abbrev pub expect : ℕ → Option ℕ → ℕ
expect fallback none = fallback
expect fallback (some x) = x

unfoldable pub pick_protocol_fee_recipient : ℕ → ℕ
pick_protocol_fee_recipient draw = expect 0 (choose protocol_fee_recipients draw)

unfoldable pub pick_reserved_fee_recipient : ℕ → ℕ
pick_reserved_fee_recipient draw = expect 0 (choose reserved_fee_recipients draw)

unfoldable pub pick_protocol_fee_recipient_for_pool : Bool → ℕ → ℕ
unfolding pick_protocol_fee_recipient pick_reserved_fee_recipient
pick_protocol_fee_recipient_for_pool is_mayhem_mode draw =
    if is_mayhem_mode then pick_reserved_fee_recipient draw else pick_protocol_fee_recipient draw

unfoldable pub pick_buyback_fee_recipient : ℕ → ℕ
pick_buyback_fee_recipient draw = expect 0 (choose buyback_fee_recipients draw)

-- Where an element of the list stands.
abbrev pub Holds : List ℕ → ℕ → Type 0
Holds xs a = (i : ℕ) × (i < length xs) × (get_elem? xs i ≡ some a)

get_elem?-lt : (xs : List ℕ) (i : ℕ) → i < length xs → (a : ℕ) × (get_elem? xs i ≡ some a)
get_elem?-lt [] i h = absurd (omega arith)
get_elem?-lt (x ∷ xs) zero h = (x, refl)
get_elem?-lt (x ∷ xs) (suc i) h = get_elem?-lt xs i (omega arith)

Holds-expect : (xs : List ℕ) (draw : ℕ) → 0 < length xs → Holds xs (expect 0 (choose xs draw))
Holds-expect xs draw h =
    let (a, here) = get_elem?-lt xs (draw % length xs) (mod-lt draw h) in
    rw (here, expect) (draw % length xs, mod-lt draw h, here)

-- Whatever the draw, a Mayhem pool gets one of the reserved recipients, any other pool one of the
-- protocol's, and the buyback recipient is one of its list.
pub picks_from_lists :
    (draw : ℕ)
    → Holds reserved_fee_recipients (pick_protocol_fee_recipient_for_pool true draw)
      × Holds protocol_fee_recipients (pick_protocol_fee_recipient_for_pool false draw)
      × Holds buyback_fee_recipients (pick_buyback_fee_recipient draw)
unfolding pick_protocol_fee_recipient_for_pool pick_buyback_fee_recipient
picks_from_lists draw = (
  Holds-expect reserved_fee_recipients draw (omega arith),
  Holds-expect protocol_fee_recipients draw (omega arith),
  Holds-expect buyback_fee_recipients draw (omega arith),
)
