-- ===== src/Memory.antt =====
-- The bytes that `Bits::store` writes and `Bits::load` reads through a pointer (jitir.tmpl.hpp).
-- The host is little-endian, and every address holds a byte.
pub mod Bytes
use metajit_cpp.Base.{ℕ, zero, suc, ◌+◌, ◌*◌, ◌/◌, ◌%◌, Bool, ◌||◌, ◌==◌, if◌then◌else◌}

abbrev pub Memory : Type 0
Memory = ℕ → ℕ

-- `*ptr = byte`
unfoldable pub poke : Memory → ℕ → ℕ → Memory
poke m p byte a = if a == p then byte % 256 else m a

-- A value of `n` bytes at `p`.
unfoldable pub write_bytes : ℕ → Memory → ℕ → ℕ → Memory
unfolding poke
write_bytes zero m p v = m
write_bytes (suc n) m p v = write_bytes n (poke m p v) (p + 1) (v / 256)

unfoldable pub read_bytes : ℕ → Memory → ℕ → ℕ
read_bytes zero m p = 0
read_bytes (suc n) m p = m p + 256 * read_bytes n m (p + 1)

-- The cases of `switch (type_size(type))`.
unfoldable pub is_access_size : ℕ → Bool
is_access_size n = n == 1 || n == 2 || n == 4 || n == 8
