-- ===== src/Examples/BatchBuy/Free.antt =====
-- The Jito pool of examples/batch_buy.rs, whose clients are always free.
use native.Mathlib.Nat.{mod-lt}
use pump_swap_sdk.Prelude.{
  ℕ, zero, suc, ◌+◌, ◌%◌, ◌^◌, ◌≤◌, ◌<◌, ◌≡◌, refl, ap, ◌∙◌, true, List, [], ◌∷◌, some, leb, length,
  get_elem?, All, arith,
}
use pump_swap_sdk.Util.Jito.Passes.{reserve_loop-free}
use pump_swap_sdk.Util.Jito.{JitoPool, set, entry, next_client, next_slot}

-- A pool as `parse_jito_pool` makes it, with clients that are free at a time.
pub record IsFree (time : ℕ) (pool : JitoPool) : Type 0 where
  pub no_interval : pool.interval ≡ 0
  pub some_client : 0 < length pool.clients
  pub free : All (λ t. t ≤ time) pool.last

entry-le : (time i : ℕ) (last : List ℕ) → All (λ t. t ≤ time) last → entry last i ≤ time
entry-le time i [] h = omega arith
entry-le time zero (t ∷ ts) h = h.0
entry-le time (suc i) (t ∷ ts) h = entry-le time i ts h.1

set-All :
    (time next i : ℕ) (last : List ℕ)
    → time ≤ next
    → All (λ t. t ≤ time) last
    → All (λ t. t ≤ next) (set last i (time + 0))
set-All time next i [] later h = tt
set-All time next zero (t ∷ ts) later h = (omega arith, raised ts h.1)
  where
    raised : (ts : List ℕ) → All (λ t. t ≤ time) ts → All (λ t. t ≤ next) ts
    raised [] h = tt
    raised (t ∷ ts) h = (omega (arith, h.0), raised ts h.1)
set-All time next (suc i) (t ∷ ts) later h = (omega (arith, h.0), set-All time next i ts later h.1)

get_elem?-lt :
    {A : Type 0} (xs : List A) (i : ℕ) → i < length xs → (a : A) × (get_elem? xs i ≡ some a)
get_elem?-lt [] i h = absurd (omega arith)
get_elem?-lt (x ∷ xs) zero h = (x, refl)
get_elem?-lt (x ∷ xs) (suc i) h = get_elem?-lt xs i (omega arith)

-- A free pool hands out its next client on the first pass, and is free later.
pub record Hands (pool : JitoPool) (time next : ℕ) (later : List ℕ) : Type 0 where
  pub after : JitoPool
  pub client : ℕ
  pub handed : next_client pool (time ∷ later) ≡ (after, some client)
  pub in_turn : get_elem? pool.clients (pool.rr % length pool.clients) ≡ some client
  pub same_clients : after.clients ≡ pool.clients
  pub counted : after.rr ≡ (pool.rr + 1) % 2 ^ 64
  pub still_free : IsFree next after

pub next_client-free :
    (pool : JitoPool) (time next : ℕ) (later : List ℕ)
    → time ≤ next
    → IsFree time pool
    → Hands pool time next later
unfolding next_client next_slot
next_client-free pool time next later forward h =
    let i = pool.rr % length pool.clients in
    let (client, at) = get_elem?-lt pool.clients i (mod-lt pool.rr h.some_client) in
    let counted : JitoPool = record {
      clients = pool.clients;
      last = pool.last;
      interval = pool.interval;
      rr = (pool.rr + 1) % 2 ^ 64;
    } in
    let now : leb (entry pool.last i) time ≡ true =
      ground (arith, entry-le time i pool.last h.free) in
    let after : JitoPool = record {
      clients = pool.clients;
      last = set pool.last i (time + pool.interval);
      interval = pool.interval;
      rr = (pool.rr + 1) % 2 ^ 64;
    } in
    record {
      after = after;
      client = client;
      handed = reserve_loop-free counted i time later now ∙ ap (λ o. (after, o)) at;
      in_turn = at;
      same_clients = refl;
      counted = refl;
      still_free = record {
        no_interval = h.no_interval;
        some_client = h.some_client;
        free = rw h.no_interval (set-All time next i pool.last forward h.free);
      };
    }
