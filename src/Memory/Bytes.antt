-- ===== src/Memory/Bytes.antt =====
-- What a write of bytes leaves to read.
use native.Mathlib.Nat.{pow-succ'}
use metajit_cpp.Memory.{Memory, poke, write_bytes, read_bytes}
use metajit_cpp.Base.{
  ℕ, zero, suc, ◌+◌, ◌*◌, ◌/◌, ◌%◌, ◌^◌, ◌<◌, ◌≤◌, ◌≡◌, ◌≢◌, ◌⊎◌, inl, inr, refl, ◌∙◌, arith,
}

poke_same : (m : Memory) (p v : ℕ) → poke m p v p ≡ v % 256
unfolding poke
poke_same m p v = ground arith

poke_other : (m : Memory) (p v a : ℕ) → a ≢ p → poke m p v a ≡ m a
unfolding poke
poke_other m p v a h = ground arith

-- Bytes outside the range written keep their value.
pub write_bytes-outside :
    (n : ℕ) (m : Memory) (p v a : ℕ) → (a < p) ⊎ (p + n ≤ a) → write_bytes n m p v a ≡ m a
unfolding write_bytes
write_bytes-outside zero m p v a h = refl
write_bytes-outside (suc n) m p v a (inl h) =
    write_bytes-outside n (poke m p v) (p + 1) (v / 256) a (inl (omega arith))
    ∙ poke_other m p v a (omega arith)
write_bytes-outside (suc n) m p v a (inr h) =
    write_bytes-outside n (poke m p v) (p + 1) (v / 256) a (inr (omega arith))
    ∙ poke_other m p v a (omega arith)

-- A read looks at its range alone.
read_bytes-cong :
    (n : ℕ) (m m' : Memory) (p : ℕ)
    → ((a : ℕ) → p ≤ a → a < p + n → m a ≡ m' a)
    → read_bytes n m p ≡ read_bytes n m' p
unfolding read_bytes
read_bytes-cong zero m m' p h = refl
read_bytes-cong (suc n) m m' p h = omega (
  arith,
  h p (omega arith) (omega arith),
  read_bytes-cong n m m' (p + 1) (λ a x y. h a (omega arith) (omega arith)),
)

pub read-write_other :
    (n k : ℕ) (m : Memory) (p q v : ℕ)
    → (q + k ≤ p) ⊎ (p + n ≤ q)
    → read_bytes k (write_bytes n m p v) q ≡ read_bytes k m q
read-write_other n k m p q v (inl h) =
    read_bytes-cong k _ _ q λ a x y. write_bytes-outside n m p v a (inl (omega arith))
read-write_other n k m p q v (inr h) =
    read_bytes-cong k _ _ q λ a x y. write_bytes-outside n m p v a (inr (omega arith))

pow256-suc : (n : ℕ) → 256 ^ suc n ≡ 256 * 256 ^ n
pow256-suc n = pow-succ' 256 n

pub read-write_same :
    (n : ℕ) (m : Memory) (p v : ℕ) → v < 256 ^ n → read_bytes n (write_bytes n m p v) p ≡ v
unfolding read_bytes write_bytes
read-write_same zero m p v h = omega arith
read-write_same (suc n) m p v h = omega (
  arith,
  pow256-suc n,
  write_bytes-outside n (poke m p v) (p + 1) (v / 256) p (inl (omega arith)),
  poke_same m p v,
  read-write_same n (poke m p v) (p + 1) (v / 256) (omega (arith, pow256-suc n)),
)
