-- ===== src/Folding/Modular.antt =====
-- The numbers of a type under `+`, `-`, `*` and `%` (`Interpreter::Bits` in jitir.tmpl.hpp).
use metajit_cpp.Types.{
  IrType, void, bool, int8, int16, int32, int64, float32, float64, ptr, type_width,
}
use metajit_cpp.KnownBits.Contains.{and-type_mask}
use metajit_cpp.Word.Ops.{add64, sub64, mul64}
use metajit_cpp.Word.Bits.{bit, bit-le, bit-xor, bit-zero, bit_ext, bit_and-zero}
use metajit_cpp.Word.Step.{and_halve}
use metajit_cpp.Word.Mask.{mod-two_mul}
use metajit_cpp.Word.Laws.{and_self}
use metajit_cpp.Folding.Operands.{Fits, cut}
use native.Mathlib.Decide.{dec_lt}
use metajit_cpp.Base.{
  ℕ, zero, suc, ◌-◌, ◌*◌, ◌/◌, ◌%◌, ◌^◌, ◌<◌, ◌≤◌, bit_and, bit_xor, ◌≡◌, ap, ◌∙◌, arith,
}

mod_add_assoc :
    (t : IrType) (x c v : ℕ)
    → add64 (add64 x c % 2 ^ type_width t) v % 2 ^ type_width t
      ≡ add64 x (add64 c v % 2 ^ type_width t) % 2 ^ type_width t
unfolding type_width add64
mod_add_assoc void x c v = omega arith
mod_add_assoc bool x c v = omega arith
mod_add_assoc int8 x c v = omega arith
mod_add_assoc int16 x c v = omega arith
mod_add_assoc int32 x c v = omega arith
mod_add_assoc int64 x c v = omega arith
mod_add_assoc float32 x c v = omega arith
mod_add_assoc float64 x c v = omega arith
mod_add_assoc ptr x c v = omega arith

pub add_assoc :
    (t : IrType) (x c v : ℕ)
    → cut t (add64 (cut t (add64 x c)) v) ≡ cut t (add64 x (cut t (add64 c v)))
add_assoc t x c v = simp and-type_mask (mod_add_assoc t x c v)

mod_sub_add :
    (t : IrType) (x v : ℕ)
    → x < 2 ^ type_width t
    → v < 2 ^ type_width t
    → sub64 x v % 2 ^ type_width t ≡ add64 x (sub64 0 v % 2 ^ type_width t) % 2 ^ type_width t
unfolding type_width add64 sub64
mod_sub_add void x v p q = omega arith
mod_sub_add bool x v p q = omega arith
mod_sub_add int8 x v p q = omega arith
mod_sub_add int16 x v p q = omega arith
mod_sub_add int32 x v p q = omega arith
mod_sub_add int64 x v p q = omega arith
mod_sub_add float32 x v p q = omega arith
mod_sub_add float64 x v p q = omega arith
mod_sub_add ptr x v p q = omega arith

pub sub_add :
    (t : IrType) (x v : ℕ)
    → Fits t x
    → Fits t v
    → cut t (sub64 x v) ≡ cut t (add64 x (cut t (sub64 0 v)))
sub_add t x v p q = simp and-type_mask (mod_sub_add t x v p q)

pub Fits-lt : (t : IrType) (x : ℕ) → Fits t x → x < 2 ^ 64
unfolding type_width
Fits-lt void x h = omega arith
Fits-lt bool x h = omega arith
Fits-lt int8 x h = omega arith
Fits-lt int16 x h = omega arith
Fits-lt int32 x h = omega arith
Fits-lt int64 x h = omega arith
Fits-lt float32 x h = omega arith
Fits-lt float64 x h = omega arith
Fits-lt ptr x h = omega arith

pub add64-zero : (x : ℕ) → x < 2 ^ 64 → add64 x 0 ≡ x
unfolding add64
add64-zero x h = omega arith

pub sub64-zero : (x : ℕ) → x < 2 ^ 64 → sub64 x 0 ≡ x
unfolding sub64
sub64-zero x h = omega arith

pub mul64-zero : (x : ℕ) → mul64 x 0 ≡ 0
unfolding mul64
mul64-zero x = omega arith

pub mul64-one : (x : ℕ) → x < 2 ^ 64 → mul64 x 1 ≡ x
unfolding mul64
mul64-one x h = omega arith

pub add64_comm : (x y : ℕ) → add64 x y ≡ add64 y x
unfolding add64
add64_comm x y = omega arith

pub mul64_comm : (x y : ℕ) → mul64 x y ≡ mul64 y x
unfolding mul64
mul64_comm x y = omega arith

-- A power of two shares no bit with its predecessor.
power_fuel : (n v x : ℕ) → v ≤ n → 1 ≤ v → bit_and v (v - 1) ≡ 0 → bit_and x (v - 1) ≡ x % v
power_fuel zero v x p q h = absurd (omega arith)
power_fuel (suc n) v x p q h = elim (dec_lt (v % 2) 1) [
  | yes even ↦
      let m = v / 2 in
      let e : bit_and m (m - 1) ≡ 0 =
        let f : (v - 1) / 2 ≡ m - 1 = omega arith in
        omega (arith, and_halve v (v - 1), ap (bit_and m) f) in
      let r = power_fuel n m (x / 2) (omega arith) (omega arith) e in
      let f : (v - 1) / 2 ≡ m - 1 = omega arith in
      let w : v ≡ 2 * m = omega arith in
      omega (
        arith,
        and_halve x (v - 1),
        ap (bit_and (x / 2)) f,
        r,
        mod-two_mul x m (omega arith),
        ap (λ (i : ℕ). x % i) w,
      )
  | no odd ↦
      let f : (v - 1) / 2 ≡ v / 2 = omega arith in
      let m : v / 2 ≡ 0 =
        omega (arith, and_halve v (v - 1), ap (bit_and (v / 2)) f, and_self (v / 2)) in
      let o : v ≡ 1 = omega arith in rw o (bit_and-zero x ∙ omega arith)
]

pub and-power_of_two : (v x : ℕ) → 1 ≤ v → bit_and v (v - 1) ≡ 0 → bit_and x (v - 1) ≡ x % v
and-power_of_two v x p h = power_fuel v v x (omega arith) p h

-- Two numbers that differ in no bit are equal.
pub xor-eq-zero : (x y : ℕ) → bit_xor x y ≡ 0 → x ≡ y
xor-eq-zero x y h =
    bit_ext x y λ i.
      omega (arith, ap (λ (t : ℕ). bit t i) h, bit-xor x y i, bit-zero i, bit-le x i, bit-le y i)

pub xor_self : (x : ℕ) → bit_xor x x ≡ 0
xor_self x = bit_ext _ _ λ i. omega (arith, bit-xor x x i, bit-zero i)
