-- ===== src/Interpreter/Storage.antt =====
-- Loads after stores.
use mathlib.Core.Path.{subst}
use mathlib.Core.Bool.{and-eq-true_iff}
use metajit_cpp.Types.{
  IrType, void, bool, int8, int16, int32, int64, float32, float64, ptr, type_size, type_width,
  type_mask,
}
use metajit_cpp.KnownBits.Contains.{and-type_mask}
use metajit_cpp.Memory.{Memory, is_access_size, read_bytes, write_bytes}
use metajit_cpp.Memory.Bytes.{read-write_same, read-write_other}
use metajit_cpp.Interpreter.{Bits, constant}
use metajit_cpp.Interpreter.Machine.{load, store}
use native.Mathlib.Nat.{mod-eq_of_lt}
use metajit_cpp.Base.{
  ℕ, ◌+◌, ◌^◌, ◌<◌, ◌≤◌, Bool, true, false, not, ◌&&◌, some, none, ◌≡◌, refl, sym, ap, ap₂, ◌∙◌,
  ◌⊎◌, inl, inr, bit_and, some_eq, arith, if◌then◌else◌, Bool-cases,
}

width-fits : (t : IrType) → 2 ^ type_width t ≤ 256 ^ type_size t
unfolding type_width type_size
width-fits void = omega arith
width-fits bool = omega arith
width-fits int8 = omega arith
width-fits int16 = omega arith
width-fits int32 = omega arith
width-fits int64 = omega arith
width-fits float32 = omega arith
width-fits float64 = omega arith
width-fits ptr = omega arith

-- A store that does not fail, taken apart.
stored :
    (b : Bits) (m m' : Memory) (p : ℕ)
    → store b m p ≡ some m'
    → (b.is_poison ≡ false)
      × (is_access_size (type_size b.ty) ≡ true)
      × (write_bytes (type_size b.ty) m p b.value ≡ m')
unfolding store
stored b m m' p h = elim (Bool-cases (not b.is_poison && is_access_size (type_size b.ty))) [
  | inl y ↦ let (u, v) = (and-eq-true_iff _ _).0 y in (live b.is_poison u, v, some_eq (rw y at h))
  | inr n ↦ let q : none ≡ some m' = rw n at h in cc
]
  where
    live : (c : Bool) → not c ≡ true → c ≡ false
    live true e = cc
    live false e = refl

-- If `store` of a value that fits its type succeeds, then `load` of the same type at the same
-- address gives the value back.
pub load-store :
    (b : Bits) (m m' : Memory) (p : ℕ)
    → b.value < 2 ^ type_width b.ty
    → store b m p ≡ some m'
    → load m' p b.ty ≡ some b
unfolding load constant
load-store b m m' p h e =
    let (live, ok, w) = stored b m m' p e in
    let bytes : read_bytes (type_size b.ty) m' p ≡ b.value =
      subst (λ (z : Memory). read_bytes (type_size b.ty) z p ≡ b.value) w
        (read-write_same (type_size b.ty) m p b.value (omega (arith, width-fits b.ty))) in
    let cut : bit_and b.value (type_mask b.ty) ≡ b.value =
      and-type_mask b.ty b.value ∙ mod-eq_of_lt h in
    rw ok (
      ap some (
        ap₂ (λ (c : Bool) (v : ℕ). record { ty = b.ty; is_poison = c; value = v }) (sym live)
          (ap (λ (v : ℕ). bit_and v (type_mask b.ty)) bytes ∙ cut)))

-- If `store` succeeds, then a `load` of any type from bytes that do not overlap those written
-- gives what it gave before.
pub load-store_other :
    (b : Bits) (m m' : Memory) (p q : ℕ) (t : IrType)
    → (q + type_size t ≤ p) ⊎ (p + type_size b.ty ≤ q)
    → store b m p ≡ some m'
    → load m' q t ≡ load m q t
unfolding load
load-store_other b m m' p q t h e =
    let (live, ok, w) = stored b m m' p e in
    let bytes : read_bytes (type_size t) m' q ≡ read_bytes (type_size t) m q =
      subst (λ (z : Memory). read_bytes (type_size t) z q ≡ read_bytes (type_size t) m q) w
        (read-write_other (type_size b.ty) (type_size t) m p q b.value h) in
    ap (λ (v : ℕ). if is_access_size (type_size t) then some (constant t v) else none) bytes
