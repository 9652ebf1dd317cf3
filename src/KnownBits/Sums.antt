-- ===== src/KnownBits/Sums.antt =====
-- `operator+` and `operator-` of `KnownBits::Bits`, which are those of tristate numbers.
use metajit_cpp.Types.{type_mask, type_width}
use metajit_cpp.Types.Masks.{type_width-le}
use metajit_cpp.KnownBits.{Bits, add, sub}
use metajit_cpp.KnownBits.Contains.{
  Contains, known-Contains, agrees_at, mask-lt, element-lt, value-lt, and-type_mask_lt,
}
use metajit_cpp.Types.Masks.{bit-type_mask_lt}
use metajit_cpp.Word.Ops.{word, add64, sub64, not64}
use metajit_cpp.Word.Bits.{bit, bit-le}
use metajit_cpp.Word.Carry.{Sub, Sub-refl, not64-Sub, add-eq-or, bit-word_squeeze}
use metajit_cpp.Word.Mask.{bit_of_lt, or-lt, xor-lt}
use native.Mathlib.Decide.{dec_lt}
use metajit_cpp.Word.Word64.{bit_laws, bit-not64, not64-lt, add64-lt, sub64-lt, sub64-eq-add}
use metajit_cpp.Base.{ℕ, ◌+◌, ◌<◌, ◌^◌, bit_and, bit_or, bit_xor, ◌≡◌, ◌∙◌, sym, arith}

-- The value has every bit that is known to be set, and no other than those and the unknown ones.
module _ (b : Bits) (v : ℕ) (c : Contains b v) where
  value-Sub : Sub b.value v
  value-Sub i = omega (arith, agrees_at b v c i)

  abbrev greatest : ℕ
  greatest = b.value + not64 b.mask

  greatest-eq-or : greatest ≡ bit_or b.value (not64 b.mask)
  greatest-eq-or = add-eq-or b.value (not64 b.mask) λ i. elim (dec_lt i 64) [
    | yes p ↦
        omega (arith, agrees_at b v c i, bit-not64 b.mask i (mask-lt b v c) p, bit-le b.mask i)
    | no p ↦ omega (arith, bit_of_lt 64 b.value i (value-lt b v c) (omega arith))
  ]

  greatest-lt : greatest < 2 ^ 64
  greatest-lt =
      rw greatest-eq-or (or-lt 64 b.value (not64 b.mask) (value-lt b v c) (not64-lt b.mask))

  -- Below 64 an unknown bit may be set, and a known one is as it is stored.
  bit-greatest_known : (i : ℕ) → i < 64 → bit b.mask i ≡ 1 → bit greatest i ≡ bit b.value i
  bit-greatest_known i p k = rw greatest-eq-or (omega (bit_laws, mask-lt b v c))

  Sub-greatest : Sub v greatest
  Sub-greatest i = elim (dec_lt i 64) [
    | yes p ↦ rw greatest-eq-or (omega (bit_laws, agrees_at b v c i, mask-lt b v c))
    | no p ↦ omega (arith, bit_of_lt 64 v i (element-lt b v c) (omega arith))
  ]

add64-eq-word : (x y : ℕ) → add64 x y ≡ word (x + y + 0)
unfolding add64
add64-eq-word x y = omega arith

-- A bit that is in none of the three unknown sets.
known_of_unknowns :
    (u v w i : ℕ)
    → u < 2 ^ 64
    → v < 2 ^ 64
    → w < 2 ^ 64
    → i < 64
    → bit (not64 (bit_or (bit_or u v) w)) i ≡ 1
    → (bit u i ≡ 0) × (bit v i ≡ 0) × (bit w i ≡ 0)
known_of_unknowns u v w i p q r s e =
    let n = bit-not64 (bit_or (bit_or u v) w) i (or-lt 64 _ w (or-lt 64 u v p q) r) s in
    omega (bit_laws, n)

unknown_known : (m i : ℕ) → m < 2 ^ 64 → i < 64 → bit (not64 m) i ≡ 0 → bit m i ≡ 1
unknown_known m i p q e = omega bit_laws

same_bit : (x y i : ℕ) → bit (bit_xor x y) i ≡ 0 → bit x i ≡ bit y i
same_bit x y i e = omega bit_laws

module _ (a b : Bits) (x y : ℕ) (ca : Contains a x) (cb : Contains b y) where
  -- The bits of the operators' results, where an operand of `known` is `s & ~u`.
  masked_bit :
      (s r u i : ℕ)
      → i < type_width a.ty
      → bit (not64 u) i ≡ 1
      → bit r i ≡ bit s i
      → bit (bit_and r (type_mask a.ty)) i ≡ bit (bit_and s (not64 u)) i
  masked_bit s r u i p h e = omega (bit_laws, bit-type_mask_lt a.ty i p)

  all_carries-eq :
      add64 (add64 a.value b.value) (add64 (not64 a.mask) (not64 b.mask))
      ≡ word (greatest a x ca + greatest b y cb + 0)
  unfolding add64
  all_carries-eq = omega arith

  add_bit :
      (i : ℕ)
      → i < 64
      → bit a.mask i ≡ 1
      → bit b.mask i ≡ 1
      → bit (add64 (add64 a.value b.value) (add64 (not64 a.mask) (not64 b.mask))) i
        ≡ bit (add64 a.value b.value) i
      → bit (add64 x y) i ≡ bit (add64 a.value b.value) i
  add_bit i p ka kb e =
      rw (add64-eq-word x y, add64-eq-word a.value b.value)
        (bit-word_squeeze i 0 a.value x (greatest a x ca) b.value y (greatest b y cb) p
          (omega arith) (value-Sub a x ca) (Sub-greatest a x ca) (value-Sub b y cb)
          (Sub-greatest b y cb) (sym (bit-greatest_known a x ca i p ka))
          (sym (bit-greatest_known b y cb i p kb))
          (rw (all_carries-eq, add64-eq-word a.value b.value) at (sym e)))

  -- `operator+` of `KnownBits`, the tristate addition with its carries: if `a` contains `x` and
  -- `b` contains `y`, then `a + b` contains the 64-bit sum of `x` and `y` cut to the type of `a`.
  pub add-Contains : Contains (add a b) (bit_and (add64 x y) (type_mask a.ty))
  unfolding add
  add-Contains = known-Contains a.ty _ _ _ (and-type_mask_lt a.ty (add64 x y)) λ i p h.
      let q : i < 64 = omega (arith, type_width-le a.ty) in
      let (ua, ub, uc) =
        known_of_unknowns _ _ _ i (not64-lt a.mask) (not64-lt b.mask)
          (xor-lt 64 _ _ (add64-lt _ _) (add64-lt a.value b.value)) q h in
      masked_bit _ _ _ i p h (
        add_bit i q (unknown_known a.mask i (mask-lt a x ca) q ua)
          (unknown_known b.mask i (mask-lt b y cb) q ub) (same_bit _ _ i uc))

  -- Borrows are carries of the complement.
  least_difference :
      sub64 (sub64 a.value b.value) (not64 b.mask) ≡ word (a.value + not64 (greatest b y cb) + 1)
  unfolding sub64 not64
  least_difference = let g = greatest-lt b y cb in omega arith

  greatest_difference :
      add64 (sub64 a.value b.value) (not64 a.mask) ≡ word (greatest a x ca + not64 b.value + 1)
  unfolding sub64 add64 not64
  greatest_difference = let g = value-lt b y cb in omega arith

  sub_bit :
      (i : ℕ)
      → i < 64
      → bit a.mask i ≡ 1
      → bit b.mask i ≡ 1
      → bit (add64 (sub64 a.value b.value) (not64 a.mask)) i
        ≡ bit (sub64 (sub64 a.value b.value) (not64 b.mask)) i
      → bit (sub64 x y) i ≡ bit (sub64 a.value b.value) i
  sub_bit i p ka kb e =
      let g = greatest-lt b y cb in
      let vb = value-lt b y cb in
      let ly = element-lt b y cb in
      let known_a = sym (bit-greatest_known a x ca i p ka) in
      let known_b : bit (not64 (greatest b y cb)) i ≡ bit (not64 b.value) i = omega (
        arith,
        bit-not64 (greatest b y cb) i g p,
        bit-not64 b.value i vb p,
        bit-greatest_known b y cb i p kb,
      ) in
      let low_y = not64-Sub y (greatest b y cb) ly g (Sub-greatest b y cb) in
      let y_high = not64-Sub b.value y vb ly (value-Sub b y cb) in
      let low_value =
        not64-Sub b.value (greatest b y cb) vb g
          (λ j. omega (arith, value-Sub b y cb j, Sub-greatest b y cb j)) in
      let agree = rw (greatest_difference, least_difference) at (sym e) in
      rw (sub64-eq-add x y ly, sub64-eq-add a.value b.value vb)
        (bit-word_squeeze i 1 a.value x (greatest a x ca) _ (not64 y) (not64 b.value) p
            (omega arith) (value-Sub a x ca) (Sub-greatest a x ca) low_y y_high known_a known_b
            agree
          ∙ sym (
              bit-word_squeeze i 1 a.value a.value (greatest a x ca) _ (not64 b.value)
                (not64 b.value) p (omega arith) (Sub-refl _)
                (λ j. omega (arith, value-Sub a x ca j, Sub-greatest a x ca j)) low_value
                (Sub-refl _) known_a known_b agree))

  -- `operator-` of `KnownBits`, the tristate subtraction with its borrows: if `a` contains `x` and
  -- `b` contains `y`, then `a - b` contains the 64-bit difference of `x` and `y` cut to the type
  -- of `a`.
  pub sub-Contains : Contains (sub a b) (bit_and (sub64 x y) (type_mask a.ty))
  unfolding sub
  sub-Contains = known-Contains a.ty _ _ _ (and-type_mask_lt a.ty (sub64 x y)) λ i p h.
      let q : i < 64 = omega (arith, type_width-le a.ty) in
      let (ua, ub, uc) =
        known_of_unknowns _ _ _ i (not64-lt a.mask) (not64-lt b.mask)
          (xor-lt 64 _ _ (add64-lt _ _) (sub64-lt _ _)) q h in
      masked_bit _ _ _ i p h (
        sub_bit i q (unknown_known a.mask i (mask-lt a x ca) q ua)
          (unknown_known b.mask i (mask-lt b y cb) q ub) (same_bit _ _ i uc))
