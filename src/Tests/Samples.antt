-- ===== src/Tests/Samples.antt =====
-- Known bits and values that the tests share.
use metajit_cpp.Types.{bool, int8, type_mask, type_width}
use metajit_cpp.KnownBits as K
use metajit_cpp.KnownBits.Contains.{Contains}
use metajit_cpp.Interpreter as I
use metajit_cpp.Soundness.Relation.{Approximates}
use metajit_cpp.Base.{false, refl, inl, arith}

-- The high half of a byte is 9, and its low half is not known; the byte is 0x93.
abbrev pub half_known : K.Bits
half_known = record { ty = int8; mask = 240; value = 144 }

abbrev pub half_known_byte : I.Bits
half_known_byte = record { ty = int8; is_poison = false; value = 147 }

pub half_known-Contains : Contains half_known 147
unfolding type_width
half_known-Contains = record { masked = omega arith; typed = omega arith; agrees = refl }

pub half_known-Approximates : Approximates half_known half_known_byte
unfolding type_width
half_known-Approximates = record {
  label = inl refl;
  in_type = omega arith;
  contained = λ h. half_known-Contains;
}

-- The byte 3, all of it known.
abbrev pub three : K.Bits
three = record { ty = int8; mask = 255; value = 3 }

abbrev pub three_byte : I.Bits
three_byte = record { ty = int8; is_poison = false; value = 3 }

pub three-Contains : Contains three 3
unfolding type_width
three-Contains = record { masked = omega arith; typed = omega arith; agrees = refl }

pub three-Approximates : Approximates three three_byte
unfolding type_width
three-Approximates = record {
  label = inl refl;
  in_type = omega arith;
  contained = λ h. three-Contains;
}

-- A condition that is not known, and true.
abbrev pub unknown_test : K.Bits
unknown_test = record { ty = bool; mask = 0; value = 0 }

abbrev pub true_test : I.Bits
true_test = record { ty = bool; is_poison = false; value = 1 }

pub unknown_test-Approximates : Approximates unknown_test true_test
unfolding type_width
unknown_test-Approximates = record {
  label = inl refl;
  in_type = omega arith;
  contained = λ h. record { masked = omega arith; typed = omega arith; agrees = refl };
}

-- A poison byte of which the analysis claims the high half.
pub poison-half_known : Approximates half_known (I.poison int8)
unfolding type_width I.poison type_mask
poison-half_known = record { label = inl refl; in_type = omega arith; contained = λ h. cc }
