-- ===== src/Word/Ops.antt =====
-- The operators of uint64_t. Operands are below 2 ^ 64, and so are the results.
use metajit_cpp.Base.{ℕ, ◌+◌, ◌-◌, ◌*◌, ◌/◌, ◌%◌, ◌^◌, Option, none, some, ◌==◌, if◌then◌else◌}

abbrev pub word : ℕ → ℕ
word x = x % 2 ^ 64

-- `a + b`, `a - b`, `a * b`, which wrap.
unfoldable pub add64 : ℕ → ℕ → ℕ
add64 a b = word (a + b)

unfoldable pub sub64 : ℕ → ℕ → ℕ
sub64 a b = word (a + 2 ^ 64 - b)

unfoldable pub mul64 : ℕ → ℕ → ℕ
mul64 a b = word (a * b)

-- `~a`
unfoldable pub not64 : ℕ → ℕ
not64 a = 2 ^ 64 - 1 - a

-- `a << s` and `a >> s`, for `s` below 64.
unfoldable pub shl64 : ℕ → ℕ → ℕ
shl64 a s = word (a * 2 ^ s)

unfoldable pub shr64 : ℕ → ℕ → ℕ
shr64 a s = a / 2 ^ s

-- `a / b` and `a % b`; a zero divisor is undefined behaviour.
unfoldable pub div64 : ℕ → ℕ → Option ℕ
div64 a b = if b == 0 then none else some (a / b)

unfoldable pub mod64 : ℕ → ℕ → Option ℕ
mod64 a b = if b == 0 then none else some (a % b)
