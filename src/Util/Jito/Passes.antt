-- ===== src/Util/Jito/Passes.antt =====
-- The passes of `next_client` of src/util.rs: when a call hands out a client.
use native.Mathlib.Nat.{mod-lt}
use pump_swap_sdk.Prelude.{
  ℕ, zero, suc, ◌+◌, ◌%◌, ◌≤◌, ◌<◌, ◌≡◌, refl, ap, ◌∙◌, true, false, Bool-cases, ◌⊎◌, inl, inr,
  List, [], ◌∷◌, Option, some, leb, length, get_elem?, arith,
}
use pump_swap_sdk.Util.Jito.{JitoPool, set, entry, reserve, reserve_loop, next_slot, next_client}

-- Some of the times is not before a given one.
abbrev pub Reaches : ℕ → List ℕ → Type 0
Reaches time [] = ⊥
Reaches time (now ∷ later) = (time ≤ now) ⊎ Reaches time later

get_elem?-lt : (xs : List ℕ) (i : ℕ) → i < length xs → (a : ℕ) × (get_elem? xs i ≡ some a)
get_elem?-lt [] i h = absurd (omega arith)
get_elem?-lt (x ∷ xs) zero h = (x, refl)
get_elem?-lt (x ∷ xs) (suc i) h = get_elem?-lt xs i (omega arith)

-- A call that hands out a client and keeps the clients of the pool.
abbrev Serves : JitoPool → JitoPool × Option ℕ → Type 0
Serves pool call =
    (after : JitoPool) × (client : ℕ) × (call ≡ (after, some client))
    × (after.clients ≡ pool.clients)

reserve_loop-busy :
    (pool : JitoPool) (i now : ℕ) (later : List ℕ)
    → leb (entry pool.last i) now ≡ false
    → reserve_loop pool i (now ∷ later) ≡ reserve_loop pool i later
unfolding reserve_loop reserve
reserve_loop-busy pool i now later h = rw (h, reserve, reserve_loop) (rw (h, reserve) refl)

-- The pool once a slot is reserved.
abbrev pub reserved : JitoPool → ℕ → ℕ → JitoPool
reserved pool i now = record {
  clients = pool.clients;
  last = set pool.last i (now + pool.interval);
  interval = pool.interval;
  rr = pool.rr;
}

pub reserve_loop-free :
    (pool : JitoPool) (i now : ℕ) (later : List ℕ)
    → leb (entry pool.last i) now ≡ true
    → reserve_loop pool i (now ∷ later) ≡ (reserved pool i now, get_elem? pool.clients i)
unfolding reserve_loop reserve
reserve_loop-free pool i now later h = rw (h, reserve, reserve_loop) (rw (h, reserve) refl)

reserve_loop-Serves :
    (pool : JitoPool) (i : ℕ) (nows : List ℕ)
    → i < length pool.clients
    → Reaches (entry pool.last i) nows
    → Serves pool (reserve_loop pool i nows)
reserve_loop-Serves pool i [] below reaches = absurd reaches
reserve_loop-Serves pool i (now ∷ later) below reaches =
    elim (Bool-cases (leb (entry pool.last i) now)) [
      | inl free ↦
          let (client, at) = get_elem?-lt pool.clients i below in
          (
            reserved pool i now,
            client,
            reserve_loop-free pool i now later free ∙ ap (λ o. (reserved pool i now, o)) at,
            refl,
          )
      | inr busy ↦ elim reaches [
        | inl soon ↦ absurd (ground arith)
        | inr late ↦
            let (after, client, handed, kept) = reserve_loop-Serves pool i later below late in
            (after, client, reserve_loop-busy pool i now later busy ∙ handed, kept)
      ]
    ]

pub next_client-Serves :
    (pool : JitoPool) (nows : List ℕ)
    → 0 < length pool.clients
    → Reaches (entry pool.last (pool.rr % length pool.clients)) nows
    → Serves pool (next_client pool nows)
unfolding next_client next_slot
next_client-Serves pool nows some_client reaches =
    reserve_loop-Serves _ (pool.rr % length pool.clients) nows (mod-lt pool.rr some_client) reaches
