-- ===== src/Util/Jito/Retry.antt =====
-- The attempts of `send_bundle_with_retry` of src/util.rs.
use pump_swap_sdk.Prelude.{
  ℕ, zero, suc, ◌+◌, ◌-◌, ◌%◌, ◌≤◌, ◌<◌, ◌≡◌, refl, Bool-cases, inl, inr, List, [], ◌∷◌, some, leb,
  if◌then◌else◌, length, arith,
}
use pump_swap_sdk.Prelude.Outcome.{Result, ok, err, failed_to_send, Result-cases}
use pump_swap_sdk.Util.Jito.{
  JitoPool, entry, next_client, send_jito_bundle, Attempt, RetryStep, tried, rested, RetryEnding,
  finished, after_send, send_loop, send_bundle_with_retry,
}
use pump_swap_sdk.Util.Jito.Passes.{Reaches, next_client-Serves}

-- The last attempt that the loop makes.
abbrev pub limit : ℕ → ℕ
limit max_retries = if leb max_retries 2 then 1 else max_retries - 1

-- A sleep lasts at least as long as it is asked for: some pass of each call comes when the slot of the
-- call is free.
abbrev pub Awakes : (ℕ → Attempt) → Type 0
Awakes attempts =
    (n : ℕ) (pool : JitoPool)
    → Reaches (entry pool.last (pool.rr % length pool.clients)) ((attempts n).nows pool)

-- From the attempt with the number `n` on, the steps are sends with a rest of a second between two of
-- them, each with the answer of its client; the last one is the first that is accepted, or the one at
-- the limit.
abbrev pub Ends : (ℕ → ℕ → Result (Unit {0})) → ℕ → ℕ → List RetryStep → RetryEnding → Type 0
Ends answer max_retries n [] ending = ⊥
Ends answer max_retries n (rested ms ∷ steps) ending = ⊥
Ends answer max_retries n (tried client (ok u) ∷ []) ending =
    (answer n client ≡ ok u) × (n ≤ limit max_retries) × (ending ≡ finished (ok tt))
Ends answer max_retries n (tried client (ok u) ∷ step ∷ steps) ending = ⊥
Ends answer max_retries n (tried client (err e) ∷ []) ending =
    (answer n client ≡ err e)
    × (n ≡ limit max_retries)
    × (ending ≡ finished (err (failed_to_send max_retries)))
Ends answer max_retries n (tried client (err e) ∷ tried other a ∷ steps) ending = ⊥
Ends answer max_retries n (tried client (err e) ∷ rested ms ∷ steps) ending =
    (answer n client ≡ err e)
    × (n < limit max_retries)
    × (ms ≡ 1_000)
    × Ends answer max_retries (suc n) steps ending

send_loop-served :
    {T : Type 0} (encode : T → Result (List ℕ)) (base64 : List ℕ → List ℕ) (fuel : ℕ)
    (attempts : ℕ → Attempt) (bundle : List T) (pool after : JitoPool)
    (client max_retries attempt : ℕ)
    → next_client pool ((attempts attempt).nows pool) ≡ (after, some client)
    → send_loop encode base64 (suc fuel) attempts bundle pool max_retries attempt
      ≡ after_send client
          (send_jito_bundle encode base64 ((attempts attempt).answer client) bundle)
          after
          (send_loop encode base64 fuel attempts bundle after max_retries (suc attempt))
          max_retries
          attempt
unfolding send_loop
send_loop-served encode base64 fuel attempts bundle pool after client max_retries attempt handed =
    rw (handed, send_loop) (rw handed refl)

module _ {T : Type 0} (encode : T → Result (List ℕ)) (base64 : List ℕ → List ℕ)
    (attempts : ℕ → Attempt) (bundle : List T) where
  -- The answer of a client to an attempt.
  abbrev pub answers : ℕ → ℕ → Result (Unit {0})
  answers n client = send_jito_bundle encode base64 ((attempts n).answer client) bundle

  send_loop_lem :
      (fuel : ℕ) (pool : JitoPool) (max_retries attempt : ℕ)
      → Awakes attempts
      → 0 < length pool.clients
      → 0 < attempt
      → attempt ≤ limit max_retries
      → limit max_retries < fuel + attempt
      → let run = send_loop encode base64 fuel attempts bundle pool max_retries attempt in
        Ends answers max_retries attempt run.1 run.2
  send_loop_lem zero pool max_retries attempt awakes some_client started within enough =
      absurd (omega arith)
  send_loop_lem (suc fuel) pool max_retries attempt awakes some_client started within enough =
      let (after, client, handed, kept) =
        next_client-Serves pool ((attempts attempt).nows pool) some_client (awakes attempt pool) in
      rw
        (send_loop-served encode base64 fuel attempts bundle pool after client max_retries attempt
          handed)
        (elim (Result-cases (answers attempt client)) [
          | inr (u, taken) ↦ rw (taken, after_send) (taken, within, refl)
          | inl (e, refused) ↦ elim (Bool-cases (leb max_retries (suc attempt))) [
            | inl last ↦ simp (refused, last) (refl, ground arith, refl)
            | inr more ↦
                let rest =
                  send_loop_lem fuel after max_retries (suc attempt) awakes (rw kept some_client)
                    (omega arith) (ground arith) (omega arith) in
                simp (refused, more) (refl, ground arith, refl, rest)
          ]
        ])

  -- Where the pool has a client and each wait for one ends: whatever the answers of the clients, the loop
  -- ends within its fuel. It sends the bundle until a send is accepted, with a rest of a second after
  -- each refusal, and at most `max_retries` less one times, or once when `max_retries` is at most two;
  -- only when none of these is accepted does it report a failure after `max_retries` retries.
  pub send_bundle_with_retry_lem :
      (pool : JitoPool) (max_retries : ℕ)
      → Awakes attempts
      → 0 < length pool.clients
      → let run = send_bundle_with_retry encode base64 attempts bundle pool max_retries in
        Ends answers max_retries 1 run.1 run.2
  unfolding send_bundle_with_retry
  send_bundle_with_retry_lem pool max_retries awakes some_client =
      send_loop_lem (suc max_retries) pool max_retries 1 awakes some_client (omega arith)
        (ground arith) (ground arith)
