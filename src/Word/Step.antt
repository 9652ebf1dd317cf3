-- ===== src/Word/Step.antt =====
-- The native bit operations, one binary digit at a time.
use Prim.Native.Nat.{digits, bitwise, differ, bit_and-bitwise, bit_or-bitwise, bit_xor-bitwise}
use metajit_cpp.Base.{
  ℕ, zero, suc, ◌+◌, ◌*◌, ◌/◌, ◌%◌, ◌-◌, ◌≤◌, ◌∙◌, min, max, bit_and, bit_or, bit_xor, ◌≡◌, refl,
  arith,
}

-- The digits of `x` are those of any fuel from `x` on.
module _ (tail : ℕ → ℕ) (op : ℕ → ℕ → ℕ) where
  one_more : (fuel x y : ℕ) → x ≤ fuel → digits tail op (suc fuel) x y ≡ digits tail op fuel x y
  one_more zero zero y h = refl
  one_more (suc fuel) zero y h = refl
  one_more zero (suc x) y h = absurd (omega arith)
  one_more (suc fuel) (suc x) y h = rw (one_more fuel (suc x / 2) (y / 2) (omega arith)) refl

  spare : (k fuel x y : ℕ) → x ≤ fuel → digits tail op (k + fuel) x y ≡ digits tail op fuel x y
  spare zero fuel x y h = let e : 0 + fuel ≡ fuel = omega arith in rw e refl
  spare (suc k) fuel x y h =
      let e : suc k + fuel ≡ suc (k + fuel) = omega arith in
      rw e (one_more (k + fuel) x y (omega arith) ∙ spare k fuel x y h)

  halved : (x y : ℕ) → digits tail op x (suc x / 2) y ≡ digits tail op (suc x / 2) (suc x / 2) y
  halved x y =
      let enough : x - suc x / 2 + suc x / 2 ≡ x = omega arith in
      rw enough at (spare (x - suc x / 2) (suc x / 2) (suc x / 2) y (omega arith))

  bitwise_halve :
      (x y : ℕ)
      → bitwise tail op (suc x) y ≡ bitwise tail op (suc x / 2) (y / 2) * 2 + op (suc x % 2) (y % 2)
  bitwise_halve x y = omega (arith, halved x (y / 2))

pub and_halve : (a b : ℕ) → bit_and a b ≡ bit_and (a / 2) (b / 2) * 2 + min (a % 2) (b % 2)
and_halve zero b = simp bit_and-bitwise (omega arith)
and_halve (suc a) b = simp bit_and-bitwise (bitwise_halve (λ y. 0) min a b)

pub or_halve : (a b : ℕ) → bit_or a b ≡ bit_or (a / 2) (b / 2) * 2 + max (a % 2) (b % 2)
or_halve zero b = simp bit_or-bitwise (omega arith)
or_halve (suc a) b = simp bit_or-bitwise (bitwise_halve (λ y. y) max a b)

differ_parity : (a b : ℕ) → a ≤ 1 → b ≤ 1 → differ a b ≡ (a + b) % 2
differ_parity zero zero p q = refl
differ_parity zero (suc zero) p q = refl
differ_parity (suc zero) zero p q = refl
differ_parity (suc zero) (suc zero) p q = refl
differ_parity (suc (suc a)) b p q = absurd (omega arith)
differ_parity zero (suc (suc b)) p q = absurd (omega arith)
differ_parity (suc zero) (suc (suc b)) p q = absurd (omega arith)

pub xor_halve : (a b : ℕ) → bit_xor a b ≡ bit_xor (a / 2) (b / 2) * 2 + (a + b) % 2
xor_halve zero b = simp bit_xor-bitwise (omega arith)
xor_halve (suc a) b = omega (
  arith,
  differ_parity (suc a % 2) (b % 2),
  bit_xor-bitwise (suc a) b,
  bit_xor-bitwise (suc a / 2) (b / 2),
  bitwise_halve (λ y. y) differ a b,
)
