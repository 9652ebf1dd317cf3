-- ===== src/KnownBits/Consts.antt =====
-- Constants, the tests on known bits, and the operators that only fold constants.
use metajit_cpp.Types.{IrType, bool, type_mask, type_width}
use metajit_cpp.Types.Masks.{type_width-le, bit-type_mask_lt}
use metajit_cpp.KnownBits.{
  Bits, known, constant, constant_bool, is_const, eq, select, and_idempotent_condition,
}
use metajit_cpp.KnownBits.Contains.{
  Contains, known-Contains, agrees_at, value-lt, value-lt_width, mask-lt, and-type_mask_lt,
  element-lt,
}
use metajit_cpp.Word.Ops.{not64}
use metajit_cpp.Word.Bits.{bit, bit-le, bit-zero, bit_ext}
use metajit_cpp.Word.Mask.{bit_of_lt, word_ext, bit-complement_lt}
use metajit_cpp.Word.Word64.{bit_laws}
use native.Mathlib.Decide.{dec_lt}
use mathlib.Core.Bool.{and-eq-true_iff}
use metajit_cpp.Base.{
  ℕ, ◌-◌, ◌<◌, ◌^◌, bit_and, bit_xor, ◌≡◌, ◌≢◌, refl, ap, ◌∙◌, sym, arith, Bool, not, true, false,
  ◌==◌, ==→eq, eq→==, ◌&&◌, if◌then◌else◌,
}

-- A constant contains its value, cut to the width.
pub constant-Contains : (t : IrType) (v : ℕ) → Contains (constant t v) (bit_and v (type_mask t))
unfolding constant
constant-Contains t v =
    known-Contains t (type_mask t) v (bit_and v (type_mask t)) (and-type_mask_lt t v)
      (λ i p h. omega bit_laws)

pub constant_bool-Contains : (b : Bool) → Contains (constant_bool b) (if b then 1 else 0)
unfolding constant_bool type_mask
constant_bool-Contains true = constant-Contains bool 1
constant_bool-Contains false = constant-Contains bool 0

-- On either branch of a test.
pub if-Contains :
    (c : Bool) (p q : Bits) (v : ℕ)
    → (c ≡ true → Contains p v)
    → (c ≡ false → Contains q v)
    → Contains (if c then p else q) v
if-Contains true p q v h k = h refl
if-Contains false p q v h k = k refl

bool_fits : (b : Bool) → (if b then 1 else 0) < 2 ^ type_width bool
unfolding type_width
bool_fits true = omega arith
bool_fits false = omega arith

-- Nothing known.
pub unknown-Contains : (t : IrType) (v : ℕ) → v < 2 ^ type_width t → Contains (known t 0 0) v
unknown-Contains t v h = known-Contains t 0 0 v h (λ i p e. absurd (omega (arith, bit-zero i)))

module _ (b : Bits) (v : ℕ) (c : Contains b v) where
  -- If `b` contains `v` and `b.is_const()` holds, then `v` is the value that `b` stores.
  pub const_value : is_const b ≡ true → v ≡ b.value
  unfolding is_const
  const_value h =
      let e : b.mask ≡ type_mask b.ty = ==→eq b.mask (type_mask b.ty) h in
      word_ext 64 v b.value (element-lt b v c) (value-lt b v c) λ i p.
        elim (dec_lt i (type_width b.ty)) [
          | yes q ↦ omega (
            arith,
            agrees_at b v c i,
            bit-type_mask_lt b.ty i q,
            ap (λ (m : ℕ). bit m i) e,
            bit-le v i,
          )
          | no q ↦
              bit_of_lt (type_width b.ty) v i c.typed (omega arith)
              ∙ sym (bit_of_lt (type_width b.ty) b.value i (value-lt_width b v c) (omega arith))
        ]

  -- Masks that are all of the type.
  const_mask : is_const b ≡ true → b.mask ≡ type_mask b.ty
  unfolding is_const
  const_mask h = ==→eq b.mask (type_mask b.ty) h

module _ (a b : Bits) (x y : ℕ) (ca : Contains a x) (cb : Contains b y) where
  -- Values that differ on a bit that both know are not equal.
  differ_on_known :
      (bit_and (bit_and a.mask b.mask) a.value == bit_and (bit_and a.mask b.mask) b.value) ≡ false
      → x ≢ y
  differ_on_known h e = cc (eq→== _ _ common)
    where
      common : bit_and (bit_and a.mask b.mask) a.value ≡ bit_and (bit_and a.mask b.mask) b.value
      common =
          bit_ext _ _
            λ i. omega (bit_laws, agrees_at a x ca i, agrees_at b y cb i, ap (λ (t : ℕ). bit t i) e)

  -- If `a` contains `x` and `b` contains `y`, then `a.eq(b)` contains 1 where `x` equals `y` and 0
  -- where it does not, on each of its three branches.
  pub eq-Contains : Contains (eq a b) (if x == y then 1 else 0)
  unfolding eq
  eq-Contains =
      if-Contains (not (agree == agree')) _ _ _
        (λ h. rw (eq_false (differ_on_known (not_true h))) (constant_bool-Contains false))
        (λ _.
          if-Contains (is_const a && is_const b) _ _ _
            (λ h.
              let (ha, hb) = (and-eq-true_iff _ _).0 h in
              rw (const_value a x ca ha, const_value b y cb hb) (constant_bool-Contains _))
            (λ _. unknown-Contains bool _ (bool_fits (x == y))))
    where
      agree : ℕ
      agree = bit_and (bit_and a.mask b.mask) a.value

      agree' : ℕ
      agree' = bit_and (bit_and a.mask b.mask) b.value

      not_true : not (agree == agree') ≡ true → (agree == agree') ≡ false
      not_true h = ground arith

      eq_false : x ≢ y → (x == y) ≡ false
      eq_false h = ground arith

  -- If `a` contains `x`, `b` contains `y`, `x` fits the type of `b`, and
  -- `a.and_idempotent_condition(b)` holds, then `x & y` is `x`.
  pub and_idempotent :
      x < 2 ^ type_width b.ty → and_idempotent_condition a b ≡ true → bit_and x y ≡ x
  unfolding and_idempotent_condition
  and_idempotent q h = bit_ext _ _ λ i. elim (dec_lt i (type_width b.ty)) [
    | yes r ↦ omega (
      bit_laws,
      agrees_at a x ca i,
      agrees_at b y cb i,
      bit-type_mask_lt b.ty i r,
      type_width-le b.ty,
      mask-lt a x ca,
      ap (λ (t : ℕ). bit t i) (==→eq _ 0 h),
      bit-zero i,
    )
    | no r ↦ omega (bit_laws, bit_of_lt (type_width b.ty) x i q (omega arith))
  ]

-- A clear bit, seen through its complement.
clear_of_not : (x i : ℕ) → i < 64 → bit (not64 x) i ≡ 1 → bit x i ≡ 0
unfolding not64
clear_of_not x i p h = elim (dec_lt x (2 ^ 64)) [
  | yes q ↦ omega (bit_laws, bit-complement_lt 64 x i q p)
  | no q ↦
      let e : 2 ^ 64 - 1 - x ≡ 0 = omega arith in
      absurd (omega (arith, bit-zero i, ap (λ (t : ℕ). bit t i) e))
]

-- `select` contains the value that the condition chooses, whatever the other operand is.
module _ (k a b : Bits) (z : ℕ) (ck : Contains k z) where
  same_value :
      (i : ℕ)
      → i < 64
      → bit (bit_and (bit_and a.mask b.mask) (not64 (bit_xor a.value b.value))) i ≡ 1
      → (bit a.mask i ≡ 1) × (bit b.mask i ≡ 1) × (bit a.value i ≡ bit b.value i)
  same_value i p h =
      let d =
        clear_of_not (bit_xor a.value b.value) i p
          (omega (bit_laws, bit-le (not64 (bit_xor a.value b.value)) i)) in
      omega (bit_laws, d)

  pub select-Contains_left : (x : ℕ) → Contains a x → (z == 0) ≡ false → Contains (select k a b) x
  unfolding select
  select-Contains_left x ca e =
      if-Contains (is_const k) _ _ _ (λ h. rw (← const_value k z ck h, e) ca)
        (λ _. known-Contains a.ty _ _ _ ca.typed λ i p h. omega (
          arith,
          agrees_at a x ca i,
          same_value i (omega (arith, type_width-le a.ty)) h,
          bit-le x i,
        ))

  pub select-Contains_right :
      (y : ℕ) → Contains b y → y < 2 ^ type_width a.ty → (z == 0) ≡ true → Contains (select k a b) y
  unfolding select
  select-Contains_right y cb fits e =
      if-Contains (is_const k) _ _ _ (λ h. rw (← const_value k z ck h, e) cb)
        (λ _. known-Contains a.ty _ _ _ fits λ i p h. omega (
          arith,
          agrees_at b y cb i,
          same_value i (omega (arith, type_width-le a.ty)) h,
          bit-le y i,
        ))
