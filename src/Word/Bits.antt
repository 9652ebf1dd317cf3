-- ===== src/Word/Bits.antt =====
-- The bits of a number, as numbers 0 and 1, and what the bit operations do to them.
use metajit_cpp.Word.Step.{and_halve, or_halve, xor_halve}
use metajit_cpp.Base.{
  ℕ, zero, suc, ◌+◌, ◌/◌, ◌%◌, ◌≤◌, min, max, bit_and, bit_or, bit_xor, ◌≡◌, refl, arith,
}

-- Bit `i` of `x`.
unfoldable pub bit : ℕ → ℕ → ℕ
bit x zero = x % 2
bit x (suc i) = bit (x / 2) i

pub bit-le : (x i : ℕ) → bit x i ≤ 1
unfolding bit
bit-le x zero = omega arith
bit-le x (suc i) = bit-le (x / 2) i

pub bit-and : (x y i : ℕ) → bit (bit_and x y) i ≡ min (bit x i) (bit y i)
unfolding bit
bit-and x y zero = omega (arith, and_halve x y)
bit-and x y (suc i) =
    let e : bit_and x y / 2 ≡ bit_and (x / 2) (y / 2) = omega (arith, and_halve x y) in
    rw e (bit-and (x / 2) (y / 2) i)

pub bit-or : (x y i : ℕ) → bit (bit_or x y) i ≡ max (bit x i) (bit y i)
unfolding bit
bit-or x y zero = omega (arith, or_halve x y)
bit-or x y (suc i) =
    let e : bit_or x y / 2 ≡ bit_or (x / 2) (y / 2) = omega (arith, or_halve x y) in
    rw e (bit-or (x / 2) (y / 2) i)

pub bit-xor : (x y i : ℕ) → bit (bit_xor x y) i ≡ (bit x i + bit y i) % 2
unfolding bit
bit-xor x y zero = omega (arith, xor_halve x y)
bit-xor x y (suc i) =
    let e : bit_xor x y / 2 ≡ bit_xor (x / 2) (y / 2) = omega (arith, xor_halve x y) in
    rw e (bit-xor (x / 2) (y / 2) i)

pub bit-zero : (i : ℕ) → bit 0 i ≡ 0
unfolding bit
bit-zero zero = refl
bit-zero (suc i) = bit-zero i

-- A number is its bits.
ext_fuel : (n x y : ℕ) → x ≤ n → y ≤ n → ((i : ℕ) → bit x i ≡ bit y i) → x ≡ y
unfolding bit
ext_fuel zero x y p q h = omega arith
ext_fuel (suc n) x y p q h =
    omega (arith, h 0, ext_fuel n (x / 2) (y / 2) (omega arith) (omega arith) (λ i. h (suc i)))

pub bit_ext : (x y : ℕ) → ((i : ℕ) → bit x i ≡ bit y i) → x ≡ y
bit_ext x y h = ext_fuel (x + y) x y (omega arith) (omega arith) h

pub zero-bit_and : (x : ℕ) → bit_and 0 x ≡ 0
zero-bit_and x = bit_ext _ _ λ i. omega (arith, bit-and 0 x i, bit-zero i)

pub bit_and-zero : (x : ℕ) → bit_and x 0 ≡ 0
bit_and-zero x = bit_ext _ _ λ i. omega (arith, bit-and x 0 i, bit-zero i)
