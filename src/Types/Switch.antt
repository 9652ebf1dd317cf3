-- ===== src/Types/Switch.antt =====
-- The macro `switch_type`, which `KnownBits::Bits` and `Interpreter::Bits` define alike: a signed
-- operator at the width of a type. `none` is "Unsupported type" or undefined behaviour.
use metajit_cpp.Types.{IrType, int8, int16, int32, int64}
use metajit_cpp.Word.Signed.{
  to_signed, to_word, signed_quotient, signed_remainder, signed_ltb, signed_shift,
}
use metajit_cpp.Base.{ℕ, Bool, Option, none, some, ◌>>=◌}

unfoldable pub signed_width : IrType → Option ℕ
signed_width int8 = some 8
signed_width int16 = some 16
signed_width int32 = some 32
signed_width int64 = some 64
signed_width _ = none

-- `switch_type(/)`
unfoldable pub switch_quotient : IrType → ℕ → ℕ → Option ℕ
unfolding signed_width
switch_quotient t a b = do
  w ← signed_width t
  q ← signed_quotient w (to_signed w a) (to_signed w b)
  some (to_word q)

-- `switch_type(%)`
unfoldable pub switch_remainder : IrType → ℕ → ℕ → Option ℕ
unfolding signed_width
switch_remainder t a b = do
  w ← signed_width t
  q ← signed_remainder w (to_signed w a) (to_signed w b)
  some (to_word q)

-- `switch_type(<)`
unfoldable pub switch_less : IrType → ℕ → ℕ → Option Bool
unfolding signed_width
switch_less t a b = do w ← signed_width t; some (signed_ltb (to_signed w a) (to_signed w b))

-- `switch_type(>>)`
unfoldable pub switch_shift : IrType → ℕ → ℕ → Option ℕ
unfolding signed_width
switch_shift t a b = do
  w ← signed_width t
  q ← signed_shift w (to_signed w a) (to_signed w b)
  some (to_word q)
