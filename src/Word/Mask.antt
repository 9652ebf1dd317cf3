-- ===== src/Word/Mask.antt =====
-- Bits under a mask, a complement, a remainder by a power of two, and a shift.
use native.Mathlib.Nat.{pow-succ', one-le-pow, div-div-eq-div-mul, div-add-mod', mod-lt}
use native.Mathlib.Nat.{mul-add-mod_self_right, mod-eq_of_lt}
use native.Mathlib.Decide.{dec_lt}
use metajit_cpp.Word.Bits.{bit, bit-le, bit-zero, bit-and, bit-or, bit-xor, bit_ext}
use metajit_cpp.Base.{
  ℕ, zero, suc, ◌+◌, ◌-◌, ◌*◌, ◌/◌, ◌%◌, ◌^◌, ◌≤◌, ◌<◌, bit_and, bit_or, bit_xor, ◌≡◌, refl, ap,
  sym, ◌∙◌, arith,
}

-- `2 ^ suc n`, in the form that `omega` reads.
pub two_pow-suc : (n : ℕ) → 2 ^ suc n ≡ 2 * 2 ^ n
two_pow-suc n = pow-succ' 2 n

mul_two_pow-suc : (s x : ℕ) → x * 2 ^ suc s ≡ 2 * (x * 2 ^ s)
mul_two_pow-suc s x = omega (arith, ap (λ (t : ℕ). x * t) (two_pow-suc s))

pub two_pow_pos : (n : ℕ) → 1 ≤ 2 ^ n
two_pow_pos n = one-le-pow n 2 (omega arith)

-- No bit of a number below 2 ^ n stands at `n` or above.
pub bit_of_lt : (n x i : ℕ) → x < 2 ^ n → n ≤ i → bit x i ≡ 0
unfolding bit
bit_of_lt zero x i h p = let e : x ≡ 0 = omega arith in rw e (bit-zero i)
bit_of_lt (suc n) x zero h p = absurd (omega arith)
bit_of_lt (suc n) x (suc i) h p = bit_of_lt n (x / 2) i (omega (arith, two_pow-suc n)) (omega arith)

pub bit-complement_lt : (n x i : ℕ) → x < 2 ^ n → i < n → bit (2 ^ n - 1 - x) i ≡ 1 - bit x i
unfolding bit
bit-complement_lt zero x i h p = absurd (omega arith)
bit-complement_lt (suc n) x zero h p = omega (arith, two_pow-suc n)
bit-complement_lt (suc n) x (suc i) h p =
    let e : (2 ^ suc n - 1 - x) / 2 ≡ 2 ^ n - 1 - x / 2 = omega (arith, two_pow-suc n) in
    rw e (bit-complement_lt n (x / 2) i (omega (arith, two_pow-suc n)) (omega arith))

pub bit-ones_lt : (n i : ℕ) → i < n → bit (2 ^ n - 1) i ≡ 1
bit-ones_lt n i p =
    let e : 2 ^ n - 1 - 0 ≡ 2 ^ n - 1 = omega arith in
    rw e at (bit-complement_lt n 0 i (two_pow_pos n) p) ∙ rw bit-zero refl

pub bit-ones_ge : (n i : ℕ) → n ≤ i → bit (2 ^ n - 1) i ≡ 0
bit-ones_ge n i p = bit_of_lt n (2 ^ n - 1) i (omega (arith, two_pow_pos n)) p

pub mod-two_mul : (x m : ℕ) → 1 ≤ m → x % (2 * m) ≡ 2 * (x / 2 % m) + x % 2
mod-two_mul x m h =
    let q = x / 2 / m in
    let r = 2 * (x / 2 % m) + x % 2 in
    let e : x ≡ q * (2 * m) + r = omega (arith, div-add-mod' (x / 2) m) in
    let p : r < 2 * m = omega (arith, mod-lt (x / 2) h) in
    ap (λ (t : ℕ). t % (2 * m)) e ∙ mul-add-mod_self_right q (2 * m) r ∙ mod-eq_of_lt p

pub bit-mod_lt : (n x i : ℕ) → i < n → bit (x % 2 ^ n) i ≡ bit x i
unfolding bit
bit-mod_lt zero x i p = absurd (omega arith)
bit-mod_lt (suc n) x zero p = rw two_pow-suc (omega (arith, mod-two_mul x (2 ^ n) (two_pow_pos n)))
bit-mod_lt (suc n) x (suc i) p =
    let e : x % 2 ^ suc n / 2 ≡ x / 2 % 2 ^ n =
      rw two_pow-suc (omega (arith, mod-two_mul x (2 ^ n) (two_pow_pos n))) in
    rw e (bit-mod_lt n (x / 2) i (omega arith))

pub bit-mod_ge : (n x i : ℕ) → n ≤ i → bit (x % 2 ^ n) i ≡ 0
bit-mod_ge n x i p = bit_of_lt n (x % 2 ^ n) i (omega (arith, two_pow_pos n)) p

pub bit-div : (s x i : ℕ) → bit (x / 2 ^ s) i ≡ bit x (s + i)
unfolding bit
bit-div zero x i = let e : x / 1 ≡ x = omega arith in let f : 0 + i ≡ i = omega arith in rw (e, f)
bit-div (suc s) x i =
    let e : x / 2 ^ suc s ≡ x / 2 / 2 ^ s = rw two_pow-suc (sym (div-div-eq-div-mul x 2 (2 ^ s))) in
    let f : suc s + i ≡ suc (s + i) = omega arith in rw (e, f) (bit-div s (x / 2) i)

pub bit-mul_lt : (s x i : ℕ) → i < s → bit (x * 2 ^ s) i ≡ 0
unfolding bit
bit-mul_lt zero x i p = absurd (omega arith)
bit-mul_lt (suc s) x zero p = omega (arith, mul_two_pow-suc s x)
bit-mul_lt (suc s) x (suc i) p =
    let e : x * 2 ^ suc s / 2 ≡ x * 2 ^ s = omega (arith, mul_two_pow-suc s x) in
    rw e (bit-mul_lt s x i (omega arith))

pub bit-mul_ge : (s x i : ℕ) → bit (x * 2 ^ s) (s + i) ≡ bit x i
unfolding bit
bit-mul_ge zero x i =
    let e : x * 1 ≡ x = omega arith in let f : 0 + i ≡ i = omega arith in rw (e, f)
bit-mul_ge (suc s) x i =
    let e : x * 2 ^ suc s / 2 ≡ x * 2 ^ s = omega (arith, mul_two_pow-suc s x) in
    let f : suc s + i ≡ suc (s + i) = omega arith in
    ap (bit (x * 2 ^ suc s)) f ∙ ap (λ (t : ℕ). bit t (s + i)) e ∙ bit-mul_ge s x i

-- A number with no bit at `n` or above is below 2 ^ n.
pub lt_of_bits : (n x : ℕ) → ((i : ℕ) → n ≤ i → bit x i ≡ 0) → x < 2 ^ n
unfolding bit
lt_of_bits zero x h =
    let e : x ≡ 0 = bit_ext x 0 (λ i. h i (omega arith) ∙ sym (bit-zero i)) in omega arith
lt_of_bits (suc n) x h =
    omega (arith, two_pow-suc n, lt_of_bits n (x / 2) (λ i p. h (suc i) (omega arith)))

-- Numbers below 2 ^ n that agree on their first `n` bits are equal.
pub word_ext : (n x y : ℕ) → x < 2 ^ n → y < 2 ^ n → ((i : ℕ) → i < n → bit x i ≡ bit y i) → x ≡ y
word_ext n x y p q h = bit_ext x y (λ i. elim (dec_lt i n) [
  | yes r ↦ h i r
  | no r ↦ bit_of_lt n x i p (omega arith) ∙ sym (bit_of_lt n y i q (omega arith))
])

pub and-lt_left : (n x y : ℕ) → x < 2 ^ n → bit_and x y < 2 ^ n
and-lt_left n x y h =
    lt_of_bits n (bit_and x y) (λ i p. omega (arith, bit-and x y i, bit_of_lt n x i h p))

pub and-lt_right : (n x y : ℕ) → y < 2 ^ n → bit_and x y < 2 ^ n
and-lt_right n x y h =
    lt_of_bits n (bit_and x y) (λ i p. omega (arith, bit-and x y i, bit_of_lt n y i h p))

pub or-lt : (n x y : ℕ) → x < 2 ^ n → y < 2 ^ n → bit_or x y < 2 ^ n
or-lt n x y h k =
    lt_of_bits n (bit_or x y)
      (λ i p. omega (arith, bit-or x y i, bit_of_lt n x i h p, bit_of_lt n y i k p))

pub xor-lt : (n x y : ℕ) → x < 2 ^ n → y < 2 ^ n → bit_xor x y < 2 ^ n
xor-lt n x y h k =
    lt_of_bits n (bit_xor x y)
      (λ i p. omega (arith, bit-xor x y i, bit_of_lt n x i h p, bit_of_lt n y i k p))

-- `x & (2 ^ n - 1)` is the remainder of `x` by 2 ^ n.
pub and-ones : (n x : ℕ) → bit_and x (2 ^ n - 1) ≡ x % 2 ^ n
and-ones n x = bit_ext _ _ (λ i. elim (dec_lt i n) [
  | yes p ↦
      omega (arith, bit-and x (2 ^ n - 1) i, bit-ones_lt n i p, bit-mod_lt n x i p, bit-le x i)
  | no p ↦ omega (
    arith,
    bit-and x (2 ^ n - 1) i,
    bit-ones_ge n i (omega arith),
    bit-mod_ge n x i (omega arith),
  )
])
