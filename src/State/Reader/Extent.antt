-- ===== src/State/Reader/Extent.antt =====
-- How many bytes a decoder of src/state.rs takes: at least so many whenever it succeeds, or exactly
-- so many whenever they are there.
use pump_swap_sdk.Prelude.{
  ℕ, zero, suc, ◌+◌, ◌-◌, ◌*◌, ◌^◌, ◌≤◌, ◌<◌, ◌≡◌, refl, ap, ◌∙◌, [], ◌∷◌, length, take, drop,
  arith,
}
use pump_swap_sdk.Prelude.Int.{signed}
use pump_swap_sdk.Prelude.Bytes.{from_le}
use pump_swap_sdk.Prelude.Outcome.{Result, ok, err}
use pump_swap_sdk.State.Reader.{
  Reader, Decoder, ◌>>=◌, pure, fail, to_bool, take_bytes, uint, i64, bool, array,
}

-- A success takes at least `n` bytes, all of them from the account.
pub record Needs {A : Type 0} (m : Decoder A) (n : ℕ) : Type 0 where
  pub run :
      (r : Reader) (v : A) (s : Reader)
      → r.pos ≤ length r.bytes
      → m r ≡ ok (v, s)
      → (s.bytes ≡ r.bytes) × (r.pos + n ≤ s.pos) × (s.pos ≤ length r.bytes)

-- Wherever `n` bytes are left the decoder succeeds, and takes exactly those.
pub record Fixed {A : Type 0} (m : Decoder A) (n : ℕ) : Type 0 where
  pub run :
      (r : Reader)
      → r.pos + n ≤ length r.bytes
      → length r.bytes < 2 ^ 63
      → (v : A) × (m r ≡ ok (v, record r { pos = r.pos + n }))

-- A successful chain is a success of its first step and then of the next.
bind_inversion :
    {A B : Type 0} (m : Decoder A) (f : A → Decoder B) (r : Reader) (u : B) (t : Reader)
    → (m >>= f) r ≡ ok (u, t)
    → (v : A) × (s : Reader) × (m r ≡ ok (v, s)) × (f v s ≡ ok (u, t))
bind_inversion {A} {B} m f r u t e = go (m r) refl e
  where
    go :
        (o : Result (A × Reader))
        → m r ≡ o
        → (elim o [ ok (a, s) ↦ f a s | err e ↦ err e ]) ≡ ok (u, t)
        → (v : A) × (s : Reader) × (m r ≡ ok (v, s)) × (f v s ≡ ok (u, t))
    go (ok (v, s)) here h = (v, s, here, h)
    go (err x) here h = cc

pub Needs-bind :
    {A B : Type 0} {m : Decoder A} (f : A → Decoder B) {j k : ℕ}
    → Needs m j
    → ((v : A) → Needs (f v) k)
    → Needs (m >>= f) (j + k)
Needs-bind {m = m} f first second = record {
  run = λ r u t h e.
      let (v, s, e1, e2) = bind_inversion m f r u t e in
      let one = first.run r v s h e1 in
      let same = ap (length {A = ℕ}) one.0 in
      let two = (second v).run s u t (omega (arith, one, same)) e2 in
      (two.0 ∙ one.0, omega (arith, one, two), omega (arith, same, two));
}

pub Fixed-bind :
    {A B : Type 0} {m : Decoder A} (f : A → Decoder B) {j k : ℕ}
    → Fixed m j
    → ((v : A) → Fixed (f v) k)
    → Fixed (m >>= f) (j + k)
Fixed-bind {m = m} f {j} {k} first second = record {
  run = λ r h fits.
      let (v, one) = first.run r (omega arith) fits in
      let (u, two) = (second v).run (record r { pos = r.pos + j }) (omega arith) fits in
      let place : r.pos + j + k ≡ r.pos + (j + k) = omega arith in (u, rw (one, ◌>>=◌, two, place));
}

pub Needs-pure : {A : Type 0} (v : A) → Needs (pure v) 0
Needs-pure v = record { run = λ r u s h e. ground arith }

pub Fixed-pure : {A : Type 0} (v : A) → Fixed (pure v) 0
Fixed-pure v = record {
  run = λ r h fits.
      (v, ap (λ (k : ℕ). ok (v, record r { pos = k })) {x = r.pos} {y = r.pos + 0} (omega arith));
}

Needs-take_bytes : (n : ℕ) → Needs (take_bytes n) n
unfolding take_bytes
Needs-take_bytes n = record { run = λ r v s h e. ground arith }

Fixed-take_bytes : (n : ℕ) → Fixed (take_bytes n) n
unfolding take_bytes
Fixed-take_bytes n = record {
  run = λ r h fits. (take (r.pos + n - r.pos) (drop r.pos r.bytes), ground arith);
}

pub Needs-le : {A : Type 0} {m : Decoder A} {k : ℕ} (n : ℕ) → Needs m k → n ≤ k → Needs m n
Needs-le n all le = record {
  run = λ r v s h e. let one = all.run r v s h e in (one.0, omega arith, one.2);
}

pub Fixed-eq : {A : Type 0} {m : Decoder A} {k : ℕ} (n : ℕ) → Fixed m k → k ≡ n → Fixed m n
Fixed-eq n all e = rw e at all

pub Needs-uint : (width : ℕ) → Needs (uint width) width
unfolding uint
Needs-uint width =
    Needs-le width (Needs-bind _ (Needs-take_bytes width) (λ w. Needs-pure (from_le w)))
      (omega arith)

pub Fixed-uint : (width : ℕ) → Fixed (uint width) width
unfolding uint
Fixed-uint width =
    Fixed-eq width (Fixed-bind _ (Fixed-take_bytes width) (λ w. Fixed-pure (from_le w)))
      (omega arith)

pub Needs-i64 : Needs i64 8
unfolding i64
Needs-i64 = Needs-bind _ (Needs-uint 8) (λ w. Needs-pure (signed (2 ^ 63) w))

pub Fixed-i64 : Fixed i64 8
unfolding i64
Fixed-i64 = Fixed-bind _ (Fixed-uint 8) (λ w. Fixed-pure (signed (2 ^ 63) w))

Needs-fail : {A : Type 0} (o : Result A) → Needs (fail o) 0
Needs-fail (ok v) = Needs-pure v
Needs-fail (err e) = record { run = λ r u s h e. cc }

pub Needs-bool : Needs bool 1
unfolding bool
Needs-bool = Needs-bind _ (Needs-uint 1) (λ b. Needs-fail (to_bool b))

pub Needs-array :
    {A : Type 0} {m : Decoder A} (n : ℕ) {k : ℕ} → Needs m k → Needs (array n m) (n * k)
unfolding array
Needs-array zero all = Needs-le _ (Needs-pure []) (omega arith)
Needs-array (suc n) all =
    Needs-le _
      (Needs-bind _ all (λ x. Needs-bind _ (Needs-array n all) (λ xs. Needs-pure (x ∷ xs))))
      (omega arith)

pub Fixed-array :
    {A : Type 0} {m : Decoder A} (n : ℕ) {k : ℕ} → Fixed m k → Fixed (array n m) (n * k)
unfolding array
Fixed-array zero all = Fixed-eq _ (Fixed-pure []) (omega arith)
Fixed-array (suc n) all =
    Fixed-eq _
      (Fixed-bind _ all (λ x. Fixed-bind _ (Fixed-array n all) (λ xs. Fixed-pure (x ∷ xs))))
      (omega arith)
