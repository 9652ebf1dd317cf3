-- ===== src/Soundness/Freeze.antt =====
-- `freeze` in `KnownBits::Bits::eval` and in `Interpreter` (jitir.tmpl.hpp).
use metajit_cpp.Types.{IrType, type_mask}
use metajit_cpp.Ir.{Value, freeze_inst, NameMap}
use metajit_cpp.KnownBits as K
use metajit_cpp.KnownBits.Eval as KE
use metajit_cpp.KnownBits.Contains.{Contains}
use metajit_cpp.Interpreter as I
use metajit_cpp.Interpreter.Eval as IE
use metajit_cpp.Soundness.Relation.{Approximates}
use metajit_cpp.Word.Bits.{bit_and-zero, zero-bit_and}
use metajit_cpp.Base.{true, false, some, ◌≡◌, ◌≢◌, refl, sym, ap, ◌∙◌, bit_and}

-- A poison value is frozen to 0.
freeze-poison :
    (x : I.Bits) → x.is_poison ≡ true → ((I.freeze x).is_poison ≡ false) × ((I.freeze x).value ≡ 0)
unfolding I.freeze I.constant
freeze-poison x h = (rw h refl, rw h (zero-bit_and (type_mask x.ty)))

-- `KnownBits::Bits::eval` is not sound for `freeze`. If the known bits of the operand approximate
-- its value, which is poison, and claim a bit that is 1, then `eval` and the interpreter both give
-- the `freeze` a result, the interpreter's is not poison, and the known bits do not contain it.
pub eval-freeze_unsound :
    (floats : IE.FloatUnit) (values : NameMap K.Bits) (run : NameMap I.Bits) (t : IrType)
    (a : Value) (k : K.Bits) (x : I.Bits)
    → KE.at_value values a ≡ some k
    → IE.at_value run a ≡ some x
    → Approximates k x
    → x.is_poison ≡ true
    → k.value ≢ 0
    → (k' : K.Bits) × (r : I.Bits) × (KE.eval values t (freeze_inst a) ≡ some k')
      × (IE.eval floats run t (freeze_inst a) ≡ some r)
      × (r.is_poison ≡ false)
      × ¬ (Contains k' r.value)
unfolding KE.eval IE.eval
eval-freeze_unsound floats values run t a k x e f p h n =
    let (plain, zero_value) = freeze-poison x h in
    (
      k,
      I.freeze x,
      e,
      rw f refl,
      plain,
      λ c. n (sym c.agrees ∙ ap (bit_and k.mask) zero_value ∙ bit_and-zero k.mask),
    )
