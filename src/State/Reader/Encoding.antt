-- ===== src/State/Reader/Encoding.antt =====
-- What the reader of src/state.rs reads back: a decoder reads a value from the bytes that encode it.
use pump_swap_sdk.Prelude.{
  ℕ, zero, suc, ◌+◌, ◌-◌, ◌*◌, ◌^◌, ◌≤◌, ◌<◌, ◌≡◌, refl, sym, ap, ◌∙◌, Bool, true, false,
  if◌then◌else◌, List, [], ◌∷◌, ◌++◌, append-nil, append_assoc, length, drop, take, take-append,
  drop-append, length-append, length-drop, drop-drop, All, arith,
}
use pump_swap_sdk.Prelude.Int.{ℤ, signed, to_word, IsSigned, signed-to_word, to_word-lt}
use pump_swap_sdk.Prelude.Outcome.{ok}
use pump_swap_sdk.Prelude.Bytes.{to_le, from_le, length-to_le, from_le-to_le}
use pump_swap_sdk.State.Reader.{
  Reader, Decoder, ◌>>=◌, pure, take_bytes, uint, i64, bool, array, vec,
}

-- What is left to read in `r` begins with `w`, and `tail` follows. A slice has at most 2^63 - 1 bytes.
pub record Sits (r : Reader) (w tail : List ℕ) : Type 0 where
  pub here : drop r.pos r.bytes ≡ w ++ tail
  pub inside : r.pos ≤ length r.bytes
  pub fits : length r.bytes < 2 ^ 63

abbrev pub advance : ℕ → Reader → Reader
advance n r = record r { pos = r.pos + n }

-- `m` reads the value `v` from the bytes `w`, whatever follows them, and stops behind them.
pub record Reads {A : Type 0} (m : Decoder A) (v : A) (w : List ℕ) : Type 0 where
  pub run : (r : Reader) (tail : List ℕ) → Sits r w tail → m r ≡ ok (v, advance (length w) r)

pub room :
    {r : Reader} {w tail : List ℕ} → Sits r w tail → r.pos + length w + length tail ≡ length r.bytes
room {r} {w} {tail} s =
    omega
      (arith, length-drop r.pos r.bytes, ap (length {A = ℕ}) s.here, length-append w tail, s.inside)

Sits-next :
    {r : Reader} (w v : List ℕ) {tail : List ℕ}
    → Sits r (w ++ v) tail
    → Sits (advance (length w) r) v tail
Sits-next {r} w v {tail} s = record {
  here =
      sym (drop-drop (length w) r.pos r.bytes)
      ∙ ap (drop (length w)) (s.here ∙ append_assoc w v tail)
      ∙ drop-append w (v ++ tail);
  inside = omega (arith, room s, length-append w v);
  fits = s.fits;
}

Sits-first :
    {r : Reader} (w v : List ℕ) {tail : List ℕ} → Sits r (w ++ v) tail → Sits r w (v ++ tail)
Sits-first w v {tail} s = record {
  here = s.here ∙ append_assoc w v tail;
  inside = s.inside;
  fits = s.fits;
}

take_here :
    (p n : ℕ) (w xs : List ℕ) (tail : List ℕ)
    → n ≡ length w
    → drop p xs ≡ w ++ tail
    → take (p + n - p) (drop p xs) ≡ w
take_here p n w xs tail e h =
    let size : p + n - p ≡ length w = omega arith in rw (size, h) (take-append w tail)

pub Reads-take_bytes : (n : ℕ) (w : List ℕ) → length w ≡ n → Reads (take_bytes n) w w
unfolding take_bytes
Reads-take_bytes n w e = record {
  run = λ r tail s. ground (arith, room s, take_here r.pos n w r.bytes tail (sym e) s.here);
}

pub Reads-bind :
    {A B : Type 0} {m : Decoder A} (f : A → Decoder B) {v : A} {u : B} {w x : List ℕ}
    → Reads m v w
    → Reads (f v) u x
    → Reads (m >>= f) u (w ++ x)
Reads-bind {m = m} f {v = v} {u = u} {w = w} {x = x} first second = record {
  run = λ r tail s.
      let one = first.run r (x ++ tail) (Sits-first w x s) in
      let two = second.run (advance (length w) r) tail (Sits-next w x s) in
      let place : r.pos + length w + length x ≡ r.pos + length (w ++ x) =
        omega (arith, length-append w x) in
      rw (one, ◌>>=◌, two) (ap (λ (k : ℕ). ok (u, record r { pos = k })) place);
}

pub Reads-pure : {A : Type 0} (v : A) → Reads (pure v) v []
Reads-pure v = record {
  run = λ r tail s.
      ap (λ (k : ℕ). ok (v, record r { pos = k })) {x = r.pos} {y = r.pos + 0} (omega arith);
}

-- A last step that reads nothing more.
pub Reads-check :
    {A B : Type 0} {m : Decoder A} (f : A → Decoder B) {v : A} {u : B} {w : List ℕ}
    → Reads m v w
    → ((r : Reader) → f v r ≡ ok (u, r))
    → Reads (m >>= f) u w
Reads-check f {u = u} {w = w} first last = rw append-nil at (
    Reads-bind f {x = []} first (record {
      run = λ r tail s.
          last r
          ∙ ap (λ (k : ℕ). ok (u, record r { pos = k })) {x = r.pos} {y = r.pos + 0} (omega arith);
    }))

pub Reads-map :
    {A B : Type 0} {m : Decoder A} (g : A → B) {v : A} {w : List ℕ}
    → Reads m v w
    → Reads (m >>= λ a. pure (g a)) (g v) w
Reads-map g first = Reads-check (λ a. pure (g a)) first (λ r. refl)

pub Reads-uint : (width n : ℕ) → n < 256 ^ width → Reads (uint width) n (to_le width n)
unfolding uint
Reads-uint width n h =
    rw (from_le-to_le width n h) at
      (Reads-map from_le (Reads-take_bytes width (to_le width n) (length-to_le width n)))

abbrev pub i64_bytes : ℤ → List ℕ
i64_bytes i = to_le 8 (to_word (2 ^ 63) i)

pub Reads-i64 : (i : ℤ) → IsSigned (2 ^ 63) i → Reads i64 i (i64_bytes i)
unfolding i64
Reads-i64 i h =
    rw (signed-to_word (2 ^ 63) i h) at
      (Reads-map (signed (2 ^ 63)) (Reads-uint 8 (to_word (2 ^ 63) i) (to_word-lt (2 ^ 63) i h)))

abbrev pub bool_byte : Bool → ℕ
bool_byte b = if b then 1 else 0

pub Reads-bool : (b : Bool) → Reads bool b (to_le 1 (bool_byte b))
unfolding bool
Reads-bool true = Reads-check _ (Reads-uint 1 1 (omega arith)) (λ r. refl)
Reads-bool false = Reads-check _ (Reads-uint 1 0 (omega arith)) (λ r. refl)

-- The encodings of the elements, one after the other.
abbrev pub concat : {A : Type 0} → (A → List ℕ) → List A → List ℕ
concat enc [] = []
concat enc (x ∷ xs) = enc x ++ concat enc xs

pub Reads-array :
    {A : Type 0} (read : Decoder A) (enc : A → List ℕ) (P : A → Type 0)
    → ((x : A) → P x → Reads read x (enc x))
    → (n : ℕ) (xs : List A) → length xs ≡ n
    → All P xs
    → Reads (array n read) xs (concat enc xs)
unfolding array
Reads-array read enc P one zero [] e h = Reads-pure []
Reads-array read enc P one zero (x ∷ xs) e h = absurd (omega arith)
Reads-array read enc P one (suc n) [] e h = absurd (omega arith)
Reads-array read enc P one (suc n) (x ∷ xs) e (p, ps) =
    Reads-bind _ (one x p)
      (Reads-map (λ ys. x ∷ ys) (Reads-array read enc P one n xs (omega arith) ps))

length-concat :
    {A : Type 0} (min_element_len : ℕ) (enc : A → List ℕ) (P : A → Type 0)
    → ((x : A) → P x → min_element_len ≤ length (enc x))
    → (xs : List A) → All P xs
    → length xs * min_element_len ≤ length (concat enc xs)
length-concat k enc P long [] h = omega arith
length-concat k enc P long (x ∷ xs) (p, ps) =
    omega (arith, long x p, length-concat k enc P long xs ps, length-append (enc x) (concat enc xs))

pub Reads-vec :
    {A : Type 0} (min_element_len : ℕ) (read : Decoder A) (enc : A → List ℕ) (P : A → Type 0)
    → ((x : A) → P x → Reads read x (enc x))
    → ((x : A) → P x → min_element_len ≤ length (enc x))
    → (xs : List A) → length xs < 2 ^ 32
    → All P xs
    → Reads (vec min_element_len read) xs (to_le 4 (length xs) ++ concat enc xs)
unfolding vec
Reads-vec k read enc P one long xs short h =
    let elements = Reads-array read enc P one (length xs) xs refl h in
    Reads-bind _ (Reads-uint 4 (length xs) (omega arith)) (record {
      run = λ r tail s.
          ground (arith, elements.run r tail s, room s, length-concat k enc P long xs h);
    })
