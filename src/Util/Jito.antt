-- ===== src/Util/Jito.antt =====
-- The Jito sender of src/util.rs: the round robin of `JitoPool` as explicit state passing, and the
-- retry loop. Times are numbers; what the clock shows on each pass of a loop is an argument.
pub mod Cooldown
pub mod Passes
pub mod Retry
use pump_swap_sdk.Prelude.{
  ℕ, zero, suc, ◌+◌, ◌-◌, ◌%◌, ◌^◌, Bool, true, false, List, [], ◌∷◌, Option, none, some, leb,
  if◌then◌else◌, length, get_elem?, replicate, map, ◌++◌, ◌==◌,
}
use pump_swap_sdk.Prelude.Outcome.{
  Result, ok, err, ◌>>=◌, ok_or, Error, failed_to_send, no_endpoints, no_bundle_uuid,
}

-- "/api/v1"
abbrev pub api_path : List ℕ
api_path = b'/' ∷ b'a' ∷ b'p' ∷ b'i' ∷ b'/' ∷ b'v' ∷ b'1' ∷ []

-- `rr` is an atomic counter of 64 bits.
pub record JitoPool : Type 0 where
  pub clients : List ℕ
  pub last : List ℕ
  pub interval : ℕ
  pub rr : ℕ

abbrev pub set : List ℕ → ℕ → ℕ → List ℕ
set [] i x = []
set (y ∷ ys) zero x = x ∷ ys
set (y ∷ ys) (suc i) x = y ∷ set ys i x

abbrev pub entry : List ℕ → ℕ → ℕ
entry [] i = 0
entry (y ∷ ys) zero = y
entry (y ∷ ys) (suc i) = entry ys i

-- `JitoPool::new`: `make` builds a client from its URL and the identifier, and `now` is what the clock
-- shows.
unfoldable pub new_pool :
    (List ℕ → Option ℕ → ℕ) → List (List ℕ) → Option ℕ → ℕ → ℕ → Result JitoPool
new_pool make endpoints uuid interval now =
    if length endpoints == 0
    then err no_endpoints
    else let clients = map (λ base. make (base ++ api_path) uuid) endpoints in
      ok (record {
        clients = clients;
        last = replicate (length clients) now;
        interval = interval;
        rr = 0;
      })

-- `collect` into a `Result`: the first error, or all values.
abbrev pub collect {ℓ} : {A : Type ℓ} → List (Result A) → Result (List A)
collect [] = ok []
collect (r ∷ rs) = let rest = collect rs in r >>= λ a. rest >>= λ as_list. ok (a ∷ as_list)

-- `clone_keypairs`, over `to_bytes` and `try_from` of a key pair.
unfoldable pub clone_keypairs :
    {K : Type 0} → (K → List ℕ) → (List ℕ → Result K) → List K → Result (List K)
clone_keypairs to_bytes try_from slice = collect (map (λ pair. try_from (to_bytes pair)) slice)

-- `send_jito_bundle`: `encode` is the serialization of a transaction, `base64` the encoding of its
-- bytes, and `send` the call of the client on the texts, with the text under "result" if there is one.
unfoldable pub send_jito_bundle :
    {T : Type 0}
    → (T → Result (List ℕ))
    → (List ℕ → List ℕ)
    → (List (List ℕ) → Result (Option (List ℕ)))
    → List T
    → Result (Unit {0})
send_jito_bundle encode base64 send txs = do
  serialized_txs ← collect (map (λ tx. encode tx >>= λ bytes. ok (base64 bytes)) txs)
  response ← send serialized_txs
  uuid ← ok_or no_bundle_uuid response
  ok tt

-- One pass of the loop in `next_client`, under the lock: the new table, and how long to wait.
unfoldable pub reserve : JitoPool → ℕ → ℕ → JitoPool × Option ℕ
reserve pool i now =
    if leb (entry pool.last i) now
    then (
      record {
        clients = pool.clients;
        last = set pool.last i (now + pool.interval);
        interval = pool.interval;
        rr = pool.rr;
      },
      none,
    )
    else (pool, some (entry pool.last i - now))

-- `fetch_add` and the remainder, for a pool of at least one client: the slot of the next call.
unfoldable pub next_slot : JitoPool → JitoPool × ℕ
next_slot pool = (
  record {
    clients = pool.clients;
    last = pool.last;
    interval = pool.interval;
    rr = (pool.rr + 1) % 2 ^ 64;
  },
  pool.rr % length pool.clients,
)

-- The loop of `next_client` after `fetch_add`, for the times that the clock shows on its passes; none
-- when the times end before a reservation.
unfoldable pub reserve_loop : JitoPool → ℕ → List ℕ → JitoPool × Option ℕ
reserve_loop pool i [] = (pool, none)
reserve_loop pool i (now ∷ later) =
    let (after, wait) = reserve pool i now in
    let rest = reserve_loop after i later in
    elim wait [ none ↦ (after, get_elem? after.clients i) | some ms ↦ rest ]

unfoldable pub next_client : JitoPool → List ℕ → JitoPool × Option ℕ
unfolding next_slot reserve_loop
next_client pool nows = let (counted, i) = next_slot pool in reserve_loop counted i nows

-- What one attempt is answered: what the clock shows on the passes of its call of `next_client`, from
-- the pool as the call finds it, and what each client answers to the texts of the bundle.
pub record Attempt : Type 0 where
  pub nows : JitoPool → List ℕ
  pub answer : ℕ → List (List ℕ) → Result (Option (List ℕ))

-- A bundle over a client and its answer, and a rest in milliseconds.
pub data RetryStep : Type 0 where
  tried : ℕ → Result (Unit {0}) → RetryStep
  rested : ℕ → RetryStep

-- The loop ends; or it still waits for a client when the clock's times end; or the fuel is gone.
pub data RetryEnding : Type 0 where
  finished : Result (Unit {0}) → RetryEnding
  unserved : RetryEnding
  no_fuel : RetryEnding

-- What follows the answer of a client to the attempt with the number `attempt`; `rest` is the run of
-- the next attempts.
abbrev pub after_send :
    ℕ
    → Result (Unit {0})
    → JitoPool
    → JitoPool × List RetryStep × RetryEnding
    → ℕ
    → ℕ
    → JitoPool × List RetryStep × RetryEnding
after_send client (ok u) pool rest max_retries attempt =
    (pool, tried client (ok u) ∷ [], finished (ok tt))
after_send client (err e) pool rest max_retries attempt =
    if leb max_retries (suc attempt)
    then (pool, tried client (err e) ∷ [], finished (err (failed_to_send max_retries)))
    else (rest.0, tried client (err e) ∷ rested 1_000 ∷ rest.1, rest.2)

-- The loop of `send_bundle_with_retry` from the attempt with the number `attempt` on: each attempt takes
-- its client from the pool. The pool after it, its steps and its ending.
unfoldable pub send_loop :
    {T : Type 0}
    → (T → Result (List ℕ))
    → (List ℕ → List ℕ)
    → ℕ
    → (ℕ → Attempt)
    → List T
    → JitoPool
    → ℕ
    → ℕ
    → JitoPool × List RetryStep × RetryEnding
unfolding next_client
send_loop encode base64 zero attempts bundle pool max_retries attempt = (pool, [], no_fuel)
send_loop encode base64 (suc fuel) attempts bundle pool max_retries attempt =
    let current = attempts attempt in
    let (after, client) = next_client pool (current.nows pool) in
    let rest = send_loop encode base64 fuel attempts bundle after max_retries (suc attempt) in
    elim client [
      | none ↦ (after, [], unserved)
      | some c ↦
          after_send c (send_jito_bundle encode base64 (current.answer c) bundle) after rest
            max_retries attempt
    ]

unfoldable pub send_bundle_with_retry :
    {T : Type 0}
    → (T → Result (List ℕ))
    → (List ℕ → List ℕ)
    → (ℕ → Attempt)
    → List T
    → JitoPool
    → ℕ
    → JitoPool × List RetryStep × RetryEnding
unfolding send_loop
send_bundle_with_retry encode base64 attempts bundle pool max_retries =
    send_loop encode base64 (suc max_retries) attempts bundle pool max_retries 1
