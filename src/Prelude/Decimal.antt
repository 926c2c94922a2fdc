-- ===== src/Prelude/Decimal.antt =====
-- Decimal numerals, as JavaScript writes natural numbers in a text.
use opsup.Prelude.{
  ℕ, zero, suc, ◌+◌, ◌-◌, ◌*◌, ◌/◌, ◌%◌, ◌≤◌, ◌<◌, All, All-append, ◌≡◌, refl, List, [], ◌∷◌, ◌++◌,
  arith, ltb, if◌then◌else◌, inl, inr, Bool-cases,
}

-- One digit for each round; the fuel `n + 1` is enough, as a number has at most that many digits.
decimal_from : ℕ → ℕ → List ℕ
decimal_from zero n = []
decimal_from (suc fuel) n =
    let rest = decimal_from fuel (n / 10) in
    if ltb n 10 then (b'0' + n) ∷ [] else rest ++ (b'0' + n % 10) ∷ []

unfoldable pub decimal : ℕ → List ℕ
unfolding decimal_from
decimal n = decimal_from (n + 1) n

-- The number that a row of digits stands for, read from the left.
unfoldable pub read_digits : ℕ → List ℕ → ℕ
read_digits acc [] = acc
read_digits acc (d ∷ ds) = read_digits (acc * 10 + (d - b'0')) ds

read_digits-concat :
    (acc : ℕ) (ds : List ℕ) (d : ℕ)
    → read_digits acc (ds ++ d ∷ []) ≡ read_digits acc ds * 10 + (d - b'0')
unfolding read_digits
read_digits-concat acc [] d = refl
read_digits-concat acc (e ∷ ds) d = read_digits-concat (acc * 10 + (e - b'0')) ds d

read_digits-decimal_from : (fuel n : ℕ) → n < fuel → read_digits 0 (decimal_from fuel n) ≡ n
unfolding decimal_from read_digits
read_digits-decimal_from zero n h = elim h [ ]
read_digits-decimal_from (suc fuel) n h = elim (Bool-cases (ltb n 10)) [
  | inl small ↦ rw small (omega arith)
  | inr large ↦ rw large (
      omega (
        arith,
        read_digits-concat 0 (decimal_from fuel (n / 10)) (b'0' + n % 10),
        read_digits-decimal_from fuel (n / 10) (ground arith),
      ))
]

-- The numeral of a number reads back as that number.
pub read_digits-decimal : (n : ℕ) → read_digits 0 (decimal n) ≡ n
unfolding decimal
read_digits-decimal n = read_digits-decimal_from (n + 1) n (omega arith)

decimal_from-digits : (fuel n : ℕ) → All (λ d. b'0' ≤ d) (decimal_from fuel n)
unfolding decimal_from
decimal_from-digits zero n = tt
decimal_from-digits (suc fuel) n = elim (Bool-cases (ltb n 10)) [
  | inl small ↦ rw small (omega arith, tt)
  | inr large ↦ rw large (
      All-append (λ d. b'0' ≤ d) (decimal_from fuel (n / 10)) ((b'0' + n % 10) ∷ [])
        (decimal_from-digits fuel (n / 10)) (omega arith, tt))
]

-- A numeral has no character below the digit 0.
pub decimal-digits : (n : ℕ) → All (λ d. b'0' ≤ d) (decimal n)
unfolding decimal
decimal-digits n = decimal_from-digits (n + 1) n
