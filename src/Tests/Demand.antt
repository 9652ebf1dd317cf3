-- ===== src/Tests/Demand.antt =====
-- Two runs that differ in bits that nobody uses.
use mathlib.Core.Path.{subst}
use metajit_cpp.Types.{int8, type_mask, type_width}
use metajit_cpp.Ir.{named, const, type_of, NameMap, get, add_inst, binary}
use metajit_cpp.UsedBits.{Uses, uses_of, smear}
use metajit_cpp.UsedBits.Demand.{Agree}
use metajit_cpp.UsedBits.Demand.Runs.{SameUse, AllSame, demands}
use metajit_cpp.UsedBits.Demand.Sound.{demand_sound}
use metajit_cpp.Interpreter as I
use metajit_cpp.Interpreter.Eval as IE
use metajit_cpp.Soundness.Typing.{IsOf}
use metajit_cpp.Word.Bits.{bit, bit-zero}
use metajit_cpp.Word.Ops.{add64, shr64}
use metajit_cpp.Base.{ℕ, zero, suc, ◌<◌, false, [], ◌∷◌, some, ◌≡◌, refl, some_eq, arith}

abbrev byte : ℕ → I.Bits
byte v = record { ty = int8; is_poison = false; value = v }

abbrev run : NameMap I.Bits
run = record { size = 1; entry = λ n. byte 147 }

abbrev run' : NameMap I.Bits
run' = record { size = 1; entry = λ n. byte 19 }

-- Add %0, 3, of which the low half is used.
abbrev uses : Uses
uses = (named 0 int8, 15) ∷ (const int8 3, 15) ∷ []

low_half : Agree 15 147 19
unfolding Agree bit
low_half zero e = refl
low_half (suc zero) e = refl
low_half (suc (suc zero)) e = refl
low_half (suc (suc (suc zero))) e = refl
low_half (suc (suc (suc (suc i)))) e = absurd (omega (arith, bit-zero i))

byte-IsOf : (v : ℕ) → v < 256 → IsOf int8 (byte v)
unfolding type_width
byte-IsOf v h = record { ty = refl; range = omega arith }

named-SameUse :
    (x y : I.Bits)
    → IE.at_value run (named 0 int8) ≡ some x
    → IE.at_value run' (named 0 int8) ≡ some y
    → SameUse run run' (named 0 int8) 15 x y
unfolding IE.at_value get type_of
named-SameUse x y e e' =
    subst (λ (z : I.Bits). SameUse run run' (named 0 int8) 15 z y) (some_eq e)
      (subst (λ (z : I.Bits). SameUse run run' (named 0 int8) 15 (byte 147) z) (some_eq e')
        (record {
          live = (refl, refl);
          typed = byte-IsOf 147 (omega arith);
          typed' = byte-IsOf 19 (omega arith);
          agree = low_half;
        }))

const-SameUse :
    (x y : I.Bits)
    → IE.at_value run (const int8 3) ≡ some x
    → IE.at_value run' (const int8 3) ≡ some y
    → SameUse run run' (const int8 3) 15 x y
unfolding IE.at_value type_of I.constant type_mask Agree
const-SameUse x y e e' =
    subst (λ (z : I.Bits). SameUse run run' (const int8 3) 15 z y) (some_eq e)
      (subst (λ (z : I.Bits). SameUse run run' (const int8 3) 15 (byte 3) z) (some_eq e')
        (record {
          live = (refl, refl);
          typed = byte-IsOf 3 (omega arith);
          typed' = byte-IsOf 3 (omega arith);
          agree = λ i h. refl;
        }))

demand_sound_example : Agree 15 150 22
unfolding demands uses_of smear shr64 AllSame IE.eval add64 type_mask I.constant
demand_sound_example =
    demand_sound (λ o w x y. 0) run run' int8 15 (omega arith) (byte 150) (byte 22)
      (binary add_inst (named 0 int8) (const int8 3)) uses refl refl
      (named-SameUse, (const-SameUse, tt)) refl refl
