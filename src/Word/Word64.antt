-- ===== src/Word/Word64.antt =====
-- The single bits of the results of the uint64_t operators.
use native.Mathlib.Nat.{div-le_self, sub_self, pow-le-pow_right}
use metajit_cpp.Word.Ops.{word, add64, sub64, not64, shl64, shr64}
use metajit_cpp.Word.Bits.{bit, bit-zero, bit-and, bit-or, bit-xor, bit-le}
use metajit_cpp.Word.Mask.{
  bit-complement_lt, bit-mod_lt, bit-div, bit-mul_lt, bit-mul_ge, two_pow_pos,
}
use metajit_cpp.Base.{bit_and, refl, ℕ, ◌+◌, ◌-◌, ◌*◌, ◌^◌, ◌≤◌, ◌<◌, ◌≡◌, ap, ◌∙◌, arith}

pub not64-lt : (x : ℕ) → not64 x < 2 ^ 64
unfolding not64
not64-lt x = omega arith

pub bit-not64 : (x i : ℕ) → x < 2 ^ 64 → i < 64 → bit (not64 x) i ≡ 1 - bit x i
unfolding not64
bit-not64 x i h p = bit-complement_lt 64 x i h p

pub add64-lt : (x y : ℕ) → add64 x y < 2 ^ 64
unfolding add64
add64-lt x y = omega arith

pub sub64-lt : (x y : ℕ) → sub64 x y < 2 ^ 64
unfolding sub64
sub64-lt x y = omega arith

pub shl64-lt : (x s : ℕ) → shl64 x s < 2 ^ 64
unfolding shl64
shl64-lt x s = omega arith

pub shr64-lt : (x s : ℕ) → x < 2 ^ 64 → shr64 x s < 2 ^ 64
unfolding shr64
shr64-lt x s h = omega (arith, div-le_self x (2 ^ s))

pub bit-shl64_lt : (x s i : ℕ) → i < s → i < 64 → bit (shl64 x s) i ≡ 0
unfolding shl64
bit-shl64_lt x s i p q = bit-mod_lt 64 (x * 2 ^ s) i q ∙ bit-mul_lt s x i p

pub bit-shl64_ge : (x s i : ℕ) → s ≤ i → i < 64 → bit (shl64 x s) i ≡ bit x (i - s)
unfolding shl64
bit-shl64_ge x s i p q =
    let e : i ≡ s + (i - s) = omega arith in
    bit-mod_lt 64 (x * 2 ^ s) i q ∙ ap (bit (x * 2 ^ s)) e ∙ bit-mul_ge s x (i - s)

pub bit-shr64 : (x s i : ℕ) → bit (shr64 x s) i ≡ bit x (s + i)
unfolding shr64
bit-shr64 x s i = bit-div s x i

-- Subtraction is addition of the complement, with a carry.
pub sub64-eq-add : (x y : ℕ) → y < 2 ^ 64 → sub64 x y ≡ word (x + not64 y + 1)
unfolding sub64 not64
sub64-eq-add x y h = omega arith

pub bit-add64 : (x y i : ℕ) → i < 64 → bit (add64 x y) i ≡ bit (x + y) i
unfolding add64
bit-add64 x y i p = bit-mod_lt 64 (x + y) i p

pub bit-sub64 : (x y i : ℕ) → y < 2 ^ 64 → i < 64 → bit (sub64 x y) i ≡ bit (x + not64 y + 1) i
bit-sub64 x y i h p = ap (λ (t : ℕ). bit t i) (sub64-eq-add x y h) ∙ bit-mod_lt 64 _ i p

-- What `omega` needs to read the single bits of `&`, `|`, `^` and `~`.
pub ruleset bit_laws = (arith, bit-and, bit-or, bit-xor, bit-not64, bit-le)

-- `x & (1 << i)` tests bit `i`.
pub bit-one_shifted : (i : ℕ) → i < 64 → bit (shl64 1 i) i ≡ 1
unfolding bit
bit-one_shifted i p = bit-shl64_ge 1 i i (omega arith) p ∙ rw (sub_self i) refl

pub and-one_shifted_zero : (x i : ℕ) → i < 64 → bit_and x (shl64 1 i) ≡ 0 → bit x i ≡ 0
and-one_shifted_zero x i p e =
    omega (bit_laws, bit-one_shifted i p, ap (λ (t : ℕ). bit t i) e, bit-zero i)

-- `(1 << s) - 1`
pub low_ones : (s : ℕ) → s < 64 → sub64 (shl64 1 s) 1 ≡ 2 ^ s - 1
unfolding sub64 shl64
low_ones s p =
    let e : 2 ^ s ≤ 2 ^ 63 = pow-le-pow_right (omega arith) {i = s} {j = 63} (omega arith) in
    omega (arith, e, two_pow_pos s)
