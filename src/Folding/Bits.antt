-- ===== src/Folding/Bits.antt =====
-- The rules of `fold_and`, `fold_or` and `fold_xor` (jitir.tmpl.hpp) on the numbers of a type.
use native.Mathlib.Decide.{dec_lt}
use metajit_cpp.Types.{IrType, type_mask, type_width}
use metajit_cpp.Types.Masks.{bit-type_mask_lt, type_mask-eq-ones}
use metajit_cpp.Word.Bits.{bit, bit-le}
use metajit_cpp.Word.Mask.{bit_of_lt, two_pow_pos}
use metajit_cpp.Word.Laws.{and_within, or_within, and-xor_within}
use metajit_cpp.Folding.Operands.{Fits}
use metajit_cpp.Base.{ℕ, ◌≤◌, bit_and, bit_or, bit_xor, ◌≡◌, arith}

pub Fits-within : (t : IrType) (x : ℕ) → Fits t x → (i : ℕ) → bit x i ≤ bit (type_mask t) i
Fits-within t x h i = elim (dec_lt i (type_width t)) [
  | yes p ↦ omega (arith, bit-type_mask_lt t i p, bit-le x i)
  | no p ↦ omega (arith, bit_of_lt (type_width t) x i h (omega arith))
]

pub type_mask-Fits : (t : IrType) → Fits t (type_mask t)
type_mask-Fits t = rw type_mask-eq-ones (omega (arith, two_pow_pos (type_width t)))

pub zero-Fits : (t : IrType) → Fits t 0
zero-Fits t = two_pow_pos (type_width t)

pub and-mask : (t : IrType) (x : ℕ) → Fits t x → bit_and x (type_mask t) ≡ x
and-mask t x h = and_within (type_mask t) x (Fits-within t x h)

pub or-mask : (t : IrType) (x : ℕ) → Fits t x → bit_or x (type_mask t) ≡ type_mask t
or-mask t x h = or_within (type_mask t) x (Fits-within t x h)

pub and-inverted : (t : IrType) (x : ℕ) → Fits t x → bit_and (bit_xor x (type_mask t)) x ≡ 0
and-inverted t x h = and-xor_within (type_mask t) x (Fits-within t x h)
