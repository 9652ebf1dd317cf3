-- ===== src/Tests.antt =====
-- Runs of the definitions at concrete inputs, and the theorems applied to them.
mod Samples
pub mod Runs
pub mod Aliases
pub mod Folds
pub mod Sweeps
pub mod Demand
pub mod Allocations
use metajit_cpp.Types.{bool, int8, int16, type_mask, type_width, is_int_or_bool, int_type_of_width}
use metajit_cpp.Types.Masks.{type_mask-eq-ones, int_type_of_width-type_width}
use metajit_cpp.Ir.{add_inst, freeze_inst, named, NameMap, get}
use metajit_cpp.Ir.Checks.{binary_checks}
use metajit_cpp.KnownBits as K
use metajit_cpp.KnownBits.Eval as KE
use metajit_cpp.KnownBits.Contains.{Contains}
use metajit_cpp.KnownBits.Consts.{const_value, eq-Contains, and_idempotent}
use metajit_cpp.KnownBits.Matches.{matches_const-at}
use metajit_cpp.KnownBits.Sums.{add-Contains, sub-Contains}
use metajit_cpp.Interpreter as I
use metajit_cpp.Interpreter.Eval as IE
use metajit_cpp.Soundness.Relation.{Approximates}
use metajit_cpp.Soundness.Unary.{select_sound, resize_u_sound}
use metajit_cpp.Soundness.Freeze.{eval-freeze_unsound}
use metajit_cpp.Soundness.Extend.{resize_s_sound}
use metajit_cpp.Soundness.Shifts.{shr_s_sound}
use metajit_cpp.Soundness.Instructions.{eval_binary_sound}
use metajit_cpp.Word.Ops.{add64, sub64, not64, shl64, shr64}
use metajit_cpp.Word.Signed.{signed_shift, to_signed, to_word}
use metajit_cpp.Base.{
  ℕ, ◌<◌, Bool, not, ◌↔◌, ◌-◌, ◌^◌, bit_and, true, false, some, ◌≡◌, refl, inl, arith, ◌==◌,
  if◌then◌else◌,
}
use metajit_cpp.Tests.Samples.{
  half_known, half_known_byte, half_known-Contains, half_known-Approximates, three, three_byte,
  three-Contains, three-Approximates, unknown_test, true_test, unknown_test-Approximates,
  poison-half_known,
}

-- A carry out of an unknown bit: only the bits above it that cannot change stay known.
add_halves : K.add half_known three ≡ record { ty = int8; mask = 192; value = 128 }
unfolding K.add not64 add64 type_mask
add_halves = refl

const_value_example : three_byte.value ≡ three.value
unfolding K.is_const type_mask
const_value_example = const_value three 3 three-Contains refl

-- At bit 7 of 0x9_ the bit that `at` reports is the one of 147.
matches_const-at_example : (K.matches_const half_known 147 ≡ true) ↔ (
    (i : ℕ) (q : Bool)
    → i < 64
    → K.at half_known i ≡ some q
    → q ≡ not (bit_and 147 (shl64 1 i) == 0))
matches_const-at_example = matches_const-at half_known 147 (omega arith)

-- A value that differs from the known bits only by having them clear.
matches_const_refuses : K.matches_const half_known 3 ≡ false
unfolding K.matches_const
matches_const_refuses = refl

add-Contains_example : Contains (K.add half_known three) (bit_and (add64 147 3) (type_mask int8))
add-Contains_example = add-Contains half_known three 147 3 half_known-Contains three-Contains

sub-Contains_example : Contains (K.sub half_known three) (bit_and (sub64 147 3) (type_mask int8))
sub-Contains_example = sub-Contains half_known three 147 3 half_known-Contains three-Contains

-- Only the constant 0xFF does not clear a bit of the half that is known.
abbrev ones : K.Bits
ones = record { ty = int8; mask = 255; value = 255 }

ones-Contains : Contains ones 255
unfolding type_width
ones-Contains = record { masked = omega arith; typed = omega arith; agrees = refl }

and_idempotent_example : bit_and 147 255 ≡ 147
unfolding type_width K.and_idempotent_condition type_mask not64
and_idempotent_example =
    and_idempotent half_known ones 147 255 half_known-Contains ones-Contains (omega arith) refl

eq-Contains_example : Contains (K.eq half_known three) (if 147 == 3 then 1 else 0)
eq-Contains_example = eq-Contains half_known three 147 3 half_known-Contains three-Contains

select_sound_example :
    Approximates
      (K.select unknown_test half_known three)
      (I.select true_test half_known_byte three_byte)
select_sound_example =
    select_sound unknown_test half_known three true_test half_known_byte three_byte
      unknown_test-Approximates half_known-Approximates three-Approximates refl

resize_u_sound_example :
    Approximates (K.resize_u half_known int16) (I.resize_u half_known_byte int16)
resize_u_sound_example = resize_u_sound half_known half_known_byte half_known-Approximates int16

resize_s_sound_example :
    Approximates
      (record { ty = int16; mask = 65520; value = 65424 })
      (record { ty = int16; is_poison = false; value = 65427 })
unfolding K.resize_s I.resize_s type_width type_mask not64
resize_s_sound_example =
    resize_s_sound half_known half_known_byte half_known-Approximates int16 refl _ _ refl refl

shr_s_sound_example :
    Approximates
      (record { ty = int8; mask = 254; value = 242 })
      (record { ty = int8; is_poison = false; value = 242 })
unfolding K.shr_s I.shr_s type_mask type_width signed_shift to_signed shr64 to_word
shr_s_sound_example =
    shr_s_sound half_known three half_known_byte three_byte _ half_known-Approximates
      three-Approximates _ refl refl refl refl

eval_binary_sound_example :
    Approximates
      (record { ty = int8; mask = 192; value = 128 })
      (record { ty = int8; is_poison = false; value = 150 })
unfolding binary_checks KE.is_folded KE.eval_binary IE.eval_binary not64 add64 type_mask
eval_binary_sound_example =
    eval_binary_sound half_known three half_known_byte three_byte _ half_known-Approximates
      three-Approximates (λ o w x y. 0) add_inst int8 _ refl refl refl refl

abbrev one_known : NameMap K.Bits
one_known = record { size = 1; entry = λ n. half_known }

abbrev one_poison : NameMap I.Bits
one_poison = record { size = 1; entry = λ n. I.poison int8 }

eval-freeze_unsound_example :
    (k' : K.Bits) × (r : I.Bits) × (KE.eval one_known int8 (freeze_inst (named 0 int8)) ≡ some k')
    × (IE.eval (λ o w x y. 0) one_poison int8 (freeze_inst (named 0 int8)) ≡ some r)
    × (r.is_poison ≡ false)
    × ¬ (Contains k' r.value)
unfolding KE.at_value IE.at_value get I.poison
eval-freeze_unsound_example =
    eval-freeze_unsound (λ o w x y. 0) one_known one_poison int8 (named 0 int8) half_known
      (I.poison int8) refl refl poison-half_known refl (omega arith)

int_type_of_width-type_width_example : int_type_of_width 16 ≡ some int16
unfolding type_width is_int_or_bool
int_type_of_width-type_width_example = int_type_of_width-type_width int16 refl

type_mask-eq-ones_example : type_mask int16 ≡ 2 ^ type_width int16 - 1
type_mask-eq-ones_example = type_mask-eq-ones int16
