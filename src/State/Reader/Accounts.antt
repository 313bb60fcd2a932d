-- ===== src/State/Reader/Accounts.antt =====
-- Whole accounts behind their Anchor discriminator: when the `from_account_data` functions of
-- src/state.rs succeed.
use pump_swap_sdk.Prelude.{
  ℕ, ◌+◌, ◌^◌, ◌≤◌, ◌<◌, ◌≡◌, refl, ◌⊎◌, inl, inr, true, List, [], ◌∷◌, ◌++◌, length, length-append,
  take, drop, take-append, drop-append, arith,
}
use pump_swap_sdk.Prelude.Outcome.{Account, Result, ok, err, Error}
use pump_swap_sdk.State.Reader.{Reader, Decoder, eq_bytes, after_discriminator, decode_account}
use pump_swap_sdk.State.Reader.Encoding.{Sits, Reads}
use pump_swap_sdk.State.Reader.Extent.{Needs, Fixed}

pub eq_bytes_refl : (xs : List ℕ) → eq_bytes xs xs ≡ true
unfolding eq_bytes
eq_bytes_refl [] = refl
eq_bytes_refl (x ∷ xs) = ground (arith, eq_bytes_refl xs)

-- The test of the discriminator is equality of the bytes.
pub eq_bytes→eq : (xs ys : List ℕ) → eq_bytes xs ys ≡ true → xs ≡ ys
unfolding eq_bytes
eq_bytes→eq [] [] h = refl
eq_bytes→eq [] (y ∷ ys) h = cc
eq_bytes→eq (x ∷ xs) [] h = cc
eq_bytes→eq (x ∷ xs) (y ∷ ys) h = ground (arith, eq_bytes→eq xs ys)

after-eq-ok :
    (bytes expected : List ℕ) (account : Account)
    → take 8 bytes ≡ expected
    → 8 ≤ length bytes
    → after_discriminator bytes expected account ≡ ok (record { bytes = bytes; pos = 8 })
unfolding after_discriminator
after-eq-ok bytes expected account e h = ground (arith, eq_bytes_refl expected)

after_inversion :
    (bytes expected : List ℕ) (account : Account) (r : Reader)
    → after_discriminator bytes expected account ≡ ok r
    → (r ≡ record { bytes = bytes; pos = 8 }) × (8 ≤ length bytes) × (take 8 bytes ≡ expected)
unfolding after_discriminator
after_inversion bytes expected account r e = ground (arith, eq_bytes→eq (take 8 bytes) expected)

take_eight : (xs ys : List ℕ) → length xs ≡ 8 → take 8 (xs ++ ys) ≡ xs
take_eight xs ys e = rw e at (take-append xs ys)

drop_eight : (xs ys : List ℕ) → length xs ≡ 8 → drop 8 (xs ++ ys) ≡ ys
drop_eight xs ys e = rw e at (drop-append xs ys)

Result-cases {ℓ} :
    {A : Type ℓ} (r : Result A) → ((a : A) × (r ≡ ok a)) ⊎ ((e : Error) × (r ≡ err e))
Result-cases (ok a) = inl (a, refl)
Result-cases (err e) = inr (e, refl)

module _ {A : Type 0} (expected : List ℕ) (account : Account) (read : Decoder A) where
  -- The bytes that a decoder reads, behind the right discriminator and before anything else.
  pub decode_account-Reads :
      (v : A) (w tail : List ℕ)
      → length expected ≡ 8
      → length (expected ++ (w ++ tail)) < 2 ^ 63
      → Reads read v w
      → decode_account expected account read (expected ++ (w ++ tail)) ≡ ok v
  unfolding decode_account
  decode_account-Reads v w tail e fits reads =
      let bytes = expected ++ (w ++ tail) in
      let long : 8 ≤ length bytes = omega (arith, length-append expected (w ++ tail)) in
      let start : Reader = record { bytes = bytes; pos = 8 } in
      let sits : Sits start w tail = record {
        here = drop_eight expected (w ++ tail) e;
        inside = long;
        fits = fits;
      } in
      rw (
        after-eq-ok bytes expected account (take_eight expected (w ++ tail) e) long,
        decode_account,
        reads.run start tail sits,
      )

  decode_inversion :
      (bytes : List ℕ) (v : A)
      → decode_account expected account read bytes ≡ ok v
      → (r : Reader) × (s : Reader) × (after_discriminator bytes expected account ≡ ok r)
        × (read r ≡ ok (v, s))
  unfolding decode_account
  decode_inversion bytes v e = elim (Result-cases (after_discriminator bytes expected account)) [
    | inr (x, bad) ↦ absurd (ground arith)
    | inl (r, good) ↦ elim (Result-cases (read r)) [
      | inr (x, bad) ↦ absurd (ground arith)
      | inl ((u, s), fine) ↦ (r, s, good, ground arith)
    ]
  ]

  -- A success has the discriminator in front, and as many bytes behind it as the decoder needs.
  pub decode_account-Needs :
      {n : ℕ} (bytes : List ℕ) (v : A)
      → Needs read n
      → decode_account expected account read bytes ≡ ok v
      → (8 + n ≤ length bytes) × (take 8 bytes ≡ expected)
  unfolding decode_account
  decode_account-Needs bytes v needs e =
      let (r, s, after, fine) = decode_inversion bytes v e in
      let (start, long, disc) = after_inversion bytes expected account r after in
      let fine' = rw start at fine in
      let taken = needs.run (record { bytes = bytes; pos = 8 }) v s long fine' in
      (omega (arith, taken), disc)

  pub decode_account-Fixed :
      {n : ℕ} (bytes : List ℕ)
      → Fixed read n
      → take 8 bytes ≡ expected
      → 8 + n ≤ length bytes
      → length bytes < 2 ^ 63
      → (v : A) × (decode_account expected account read bytes ≡ ok v)
  unfolding decode_account
  decode_account-Fixed {n} bytes fixed disc room fits =
      let start : Reader = record { bytes = bytes; pos = 8 } in
      let (v, here) = fixed.run start room fits in
      (v, rw (after-eq-ok bytes expected account disc (omega arith), decode_account, here))
