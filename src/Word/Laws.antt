-- ===== src/Word/Laws.antt =====
-- Laws of `&`, `|` and `^` on numbers, by their single bits.
use metajit_cpp.Word.Bits.{bit, bit-le, bit-and, bit-or, bit-xor, bit-zero, bit_ext}
use metajit_cpp.Base.{ℕ, ◌≤◌, bit_and, bit_or, bit_xor, ◌≡◌, ap, arith}

-- What `omega` needs to read the bits of `&`, `|` and `^`.
pub ruleset pointwise = (arith, bit-and, bit-or, bit-xor, bit-le, bit-zero)

pub and_comm : (x y : ℕ) → bit_and x y ≡ bit_and y x
and_comm x y = bit_ext _ _ λ i. omega (arith, bit-and x y i, bit-and y x i)

pub or_comm : (x y : ℕ) → bit_or x y ≡ bit_or y x
or_comm x y = bit_ext _ _ λ i. omega (arith, bit-or x y i, bit-or y x i)

pub xor_comm : (x y : ℕ) → bit_xor x y ≡ bit_xor y x
xor_comm x y = bit_ext _ _ λ i. omega (arith, bit-xor x y i, bit-xor y x i)

pub and_self : (x : ℕ) → bit_and x x ≡ x
and_self x = bit_ext _ _ λ i. omega (arith, bit-and x x i)

pub or_self : (x : ℕ) → bit_or x x ≡ x
or_self x = bit_ext _ _ λ i. omega (arith, bit-or x x i)

pub or-zero : (x : ℕ) → bit_or x 0 ≡ x
or-zero x = bit_ext _ _ λ i. omega (arith, bit-or x 0 i, bit-zero i)

pub xor-zero : (x : ℕ) → bit_xor x 0 ≡ x
xor-zero x = bit_ext _ _ λ i. omega (arith, bit-xor x 0 i, bit-zero i, bit-le x i)

pub xor-xor : (x m : ℕ) → bit_xor (bit_xor x m) m ≡ x
xor-xor x m = bit_ext _ _ λ i. omega (pointwise, bit-le x i, bit-le m i)

pub or-and-or : (x c d : ℕ) → bit_or (bit_and x c) (bit_and x d) ≡ bit_and x (bit_or c d)
or-and-or x c d = bit_ext _ _ λ i. omega (pointwise, bit-le x i)

pub and-or-and_disjoint :
    (x y m n : ℕ) → bit_and m n ≡ 0 → bit_and (bit_or x (bit_and y m)) n ≡ bit_and x n
and-or-and_disjoint x y m n h =
    bit_ext _ _ λ i. omega (pointwise, ap (λ (t : ℕ). bit t i) h, bit-and m n i)

module _ (m x : ℕ) (within : (i : ℕ) → bit x i ≤ bit m i) where
  pub and_within : bit_and x m ≡ x
  and_within = bit_ext _ _ λ i. omega (arith, bit-and x m i, within i)

  pub or_within : bit_or x m ≡ m
  or_within = bit_ext _ _ λ i. omega (arith, bit-or x m i, within i)

  pub and-xor_within : bit_and (bit_xor x m) x ≡ 0
  and-xor_within = bit_ext _ _ λ i. omega (pointwise, within i, bit-le m i)
