-- ===== src/State/Pool/Offsets.antt =====
-- Reading a pool account of src/state.rs at an offset, where the bytes there are known.
use pump_swap_sdk.Prelude.{
  ℕ, ◌+◌, ◌-◌, ◌%◌, ◌^◌, ◌≤◌, ◌<◌, ◌≡◌, refl, sym, ap, ◌∙◌, false, not, zero, suc, List, [], ◌∷◌,
  ◌++◌, none, some, ◌==◌, length, take, drop, get_elem?, get_range, length-drop, take-append,
  drop-append, drop-drop, length-append, arith,
}
use pump_swap_sdk.Prelude.Int.{ℤ, pos, to_word, IsSigned, signed-to_word, to_word-lt}
use pump_swap_sdk.Prelude.Bytes.{from_le, to_le, length-to_le, from_le-to_le}
use pump_swap_sdk.State.Pool.{field, trailing_u64, trailing_i128, trailing_flag}

abbrev pub At : ℕ → List ℕ → List ℕ → List ℕ → Type 0
At offset bytes w tail = drop offset bytes ≡ w ++ tail

pub At-next :
    (offset k n : ℕ) (bytes tail : List ℕ)
    → At offset bytes (to_le k n) tail
    → drop (offset + k) bytes ≡ tail
At-next offset k n bytes tail h =
    sym (drop-drop k offset bytes)
    ∙ ap (drop k) h
    ∙ rw (length-to_le k n) at (drop-append (to_le k n) tail)

pub take-At : (k n : ℕ) (tail : List ℕ) → take k (to_le k n ++ tail) ≡ to_le k n
take-At k n tail = rw (length-to_le k n) at (take-append (to_le k n) tail)

pub field-At :
    (offset k n : ℕ) (bytes tail : List ℕ)
    → At offset bytes (to_le k n) tail
    → n < 256 ^ k
    → field offset k bytes ≡ n
field-At offset k n bytes tail h fits =
    ap (λ (xs : List ℕ). from_le (take k xs)) h
    ∙ ap from_le (take-At k n tail)
    ∙ from_le-to_le k n fits

pub At-length :
    (offset k n : ℕ) (bytes tail : List ℕ)
    → At offset bytes (to_le k n) tail
    → 0 < k
    → offset + k + length tail ≡ length bytes
At-length offset k n bytes tail h pos' = omega (
  arith,
  length-drop offset bytes,
  ap (length {A = ℕ}) h,
  length-append (to_le k n) tail,
  length-to_le k n,
)

pub get_range-At :
    (offset k n : ℕ) (bytes tail : List ℕ)
    → At offset bytes (to_le k n) tail
    → 0 < k
    → get_range bytes offset (offset + k) ≡ some (to_le k n)
get_range-At offset k n bytes tail h some_byte =
    let size : offset + k - offset ≡ k = omega arith in
    let slice : take (offset + k - offset) (drop offset bytes) ≡ to_le k n =
      rw (size, h) (take-At k n tail) in
    ground (arith, At-length offset k n bytes tail h some_byte, slice)

pub trailing_u64-At :
    (offset n : ℕ) (bytes tail : List ℕ)
    → At offset bytes (to_le 8 n) tail
    → n < 256 ^ 8
    → trailing_u64 bytes offset ≡ n
trailing_u64-At offset n bytes tail h fits =
    rw (get_range-At offset 8 n bytes tail h (omega arith), trailing_u64) (from_le-to_le 8 n fits)

pub trailing_i128-At :
    (offset : ℕ) (i : ℤ) (bytes tail : List ℕ)
    → At offset bytes (to_le 16 (to_word (2 ^ 127) i)) tail
    → IsSigned (2 ^ 127) i
    → trailing_i128 bytes offset ≡ i
trailing_i128-At offset i bytes tail h fits =
    let word = to_word (2 ^ 127) i in
    rw
      (
        get_range-At offset 16 word bytes tail h (omega arith),
        trailing_i128,
        from_le-to_le 16 word (to_word-lt (2 ^ 127) i fits),
      )
      (signed-to_word (2 ^ 127) i fits)

pub get_elem?-drop : (n : ℕ) (xs : List ℕ) → get_elem? xs n ≡ get_elem? (drop n xs) 0
get_elem?-drop zero xs = refl
get_elem?-drop (suc n) [] = refl
get_elem?-drop (suc n) (x ∷ xs) = get_elem?-drop n xs

pub trailing_flag-At :
    (offset n : ℕ) (bytes tail : List ℕ)
    → At offset bytes (to_le 1 n) tail
    → n < 256 ^ 1
    → trailing_flag bytes offset ≡ not (n == 0)
unfolding to_le
trailing_flag-At offset n bytes tail h fits =
    let small : n % 256 ≡ n = omega arith in
    rw (get_elem?-drop offset bytes, trailing_flag, h, small)

-- An account that ends before the end of a trailing field has 0 there.
pub trailing_u64-absent :
    (bytes : List ℕ) (offset : ℕ) → length bytes < offset + 8 → trailing_u64 bytes offset ≡ 0
trailing_u64-absent bytes offset h = ground arith

pub trailing_i128-absent :
    (bytes : List ℕ) (offset : ℕ) → length bytes < offset + 16 → trailing_i128 bytes offset ≡ pos 0
trailing_i128-absent bytes offset h = ground arith

get_elem?-absent : (bytes : List ℕ) (i : ℕ) → length bytes ≤ i → get_elem? bytes i ≡ none
get_elem?-absent [] i h = refl
get_elem?-absent (x ∷ xs) zero h = absurd (omega arith)
get_elem?-absent (x ∷ xs) (suc i) h = get_elem?-absent xs i (omega arith)

pub trailing_flag-absent :
    (bytes : List ℕ) (offset : ℕ) → length bytes ≤ offset → trailing_flag bytes offset ≡ false
trailing_flag-absent bytes offset h = rw (get_elem?-absent bytes offset h, trailing_flag)
