-- ===== src/KnownBits/Signs.antt =====
-- The sign bit of known bits, and the two operations that extend it.
use Prim.Native.Nat.add
use mathlib.Core.Bool.{false≢true}
use native.Mathlib.Decide.{dec_lt}
use metajit_cpp.Types.{IrType, type_mask, type_width}
use metajit_cpp.Types.Masks.{type_width-le, type_mask-lt, bit-type_mask_lt, type_mask-lt_width}
use metajit_cpp.KnownBits.{Bits, at, upper_bits, extend_sign, shr_s_below_64, resize_s_signed}
use metajit_cpp.KnownBits.Contains.{
  Contains, below_width, known-Contains, agrees_at, value-lt, element-lt, two_pow-le,
}
use metajit_cpp.KnownBits.Shifts.{bit-upper_bits}
use metajit_cpp.Word.Ops.{not64, shl64}
use metajit_cpp.Word.Bits.{bit, bit-le, bit-zero, bit_ext}
use metajit_cpp.Word.Mask.{bit_of_lt, or-lt, and-lt_left}
use metajit_cpp.Word.Word64.{
  bit_laws, shl64-lt, bit-shr64, and-one_shifted_zero, bit-shl64_lt, bit-shl64_ge,
}
use metajit_cpp.Word.SignBits.{shifted_bit}
use metajit_cpp.Base.{
  ℕ, ◌+◌, ◌-◌, ◌<◌, ◌≤◌, ◌^◌, bit_and, ◌≡◌, ◌∙◌, sym, ap, refl, Option, some, none, Bool, true,
  false, not, ltb, ◌==◌, ==→eq, eq→==, if◌then◌else◌, Bool-cases, inl, inr, arith,
}

abbrev pub bit_of : Bool → ℕ
bit_of b = if b then 1 else 0

-- `x & (1 << i)` is zero where bit `i` is clear.
clear_and : (x i : ℕ) → i < 64 → bit x i ≡ 0 → bit_and x (shl64 1 i) ≡ 0
clear_and x i p e = bit_ext _ _ λ j. elim (dec_lt j 64) [
  | yes q ↦ elim (dec_lt j i) [
    | yes r ↦ omega (bit_laws, bit-shl64_lt 1 i j r q, bit-zero j)
    | no r ↦ elim (dec_lt i j) [
      | yes t ↦ omega (
        bit_laws,
        bit-shl64_ge 1 i j (omega arith) q,
        bit_of_lt 1 1 (j - i) (omega arith) (omega arith),
        bit-zero j,
      )
      | no t ↦ let f : j ≡ i = omega arith in rw f (omega (bit_laws, bit-zero i))
    ]
  ]
  | no q ↦ omega (bit_laws, bit_of_lt 64 (shl64 1 i) j (shl64-lt 1 i) (omega arith), bit-zero j)
]

-- `(x & (1 << i)) != 0` is bit `i`.
pub test_bit : (x i : ℕ) → i < 64 → bit_of (not (bit_and x (shl64 1 i) == 0)) ≡ bit x i
test_bit x i p = elim (Bool-cases (bit_and x (shl64 1 i) == 0)) [
  | inl z ↦ rw z (sym (and-one_shifted_zero x i p (==→eq _ 0 z)))
  | inr n ↦ rw n (omega (arith, bit-le x i, clear_and_not x i p n))
]
  where
    clear_and_not : (x i : ℕ) → i < 64 → (bit_and x (shl64 1 i) == 0) ≡ false → 1 ≤ bit x i
    clear_and_not x i p n = elim (dec_lt 0 (bit x i)) [
      | yes q ↦ q
      | no q ↦ absurd (false≢true (sym n ∙ eq→== _ 0 (clear_and x i p (omega arith))))
    ]

guarded : (k q s : Bool) → (if k then some q else none) ≡ some s → (k ≡ true) × (q ≡ s)
guarded true q s e = (refl, cc)
guarded false q s e = cc

not-ltb : {m n : ℕ} → n ≤ m → ltb m n ≡ false
not-ltb h = ground arith

sign_position : (t : IrType) → type_width t - 1 < 64
sign_position t = omega (arith, type_width-le t)

-- A bit that `at` gives is the value's.
pub at-bit :
    (b : Bits) (v i : ℕ) (s : Bool) → Contains b v → i < 64 → at b i ≡ some s → bit v i ≡ bit_of s
unfolding at
at-bit b v i s c p e =
    let (k, q) = guarded _ _ s e in
    let m = sym (test_bit b.mask i p) ∙ ap bit_of k in
    let x = sym (test_bit b.value i p) ∙ ap bit_of q in
    sym (omega (arith, agrees_at b v c i, m, bit-le v i)) ∙ x

pub extend_sign-Contains :
    (r : Bits) (s : Option Bool) (upper w : ℕ)
    → Contains r w
    → upper < 2 ^ type_width r.ty
    → ((σ : Bool) → s ≡ some σ → (i : ℕ) → bit upper i ≡ 1 → bit w i ≡ bit_of σ)
    → Contains (extend_sign r s upper) w
unfolding extend_sign
extend_sign-Contains r none upper w c u h = c
extend_sign-Contains r (some true) upper w c u h = record {
  masked = or-lt (type_width r.ty) r.mask upper c.masked u;
  typed = c.typed;
  agrees = bit_ext _ _ λ i. elim (dec_lt 0 (bit upper i)) [
    | yes o ↦
        let unit : bit upper i ≡ 1 = omega (arith, bit-le upper i) in
        omega (bit_laws, agrees_at r w c i, h true refl i unit)
    | no o ↦ omega (bit_laws, agrees_at r w c i)
  ];
}
extend_sign-Contains r (some false) upper w c u h = record {
  masked = or-lt (type_width r.ty) r.mask upper c.masked u;
  typed = c.typed;
  agrees = bit_ext _ _ λ i. elim (dec_lt i 64) [
    | yes q ↦ elim (dec_lt 0 (bit upper i)) [
      | yes o ↦
          let unit : bit upper i ≡ 1 = omega (arith, bit-le upper i) in
          omega (bit_laws, agrees_at r w c i, h false refl i unit, u, two_pow-le r.ty)
      | no o ↦ omega (bit_laws, agrees_at r w c i, u, two_pow-le r.ty)
    ]
    | no q ↦ omega (
      bit_laws,
      bit_of_lt 64 w i (element-lt r w c) (omega arith),
      bit_of_lt 64 r.value i (value-lt r w c) (omega arith),
    )
  ];
}

module _ (b : Bits) (v : ℕ) (c : Contains b v) where
  -- The shift to the right that repeats the sign bit.
  pub shr_s-Contains :
      (s w : ℕ)
      → 0 < type_width b.ty
      → w < 2 ^ type_width b.ty
      → ((i : ℕ) → i < type_width b.ty → bit w i ≡ shifted_bit (type_width b.ty) v s i)
      → Contains (shr_s_below_64 b s) w
  unfolding shr_s_below_64
  shr_s-Contains s w pos fits bits =
      extend_sign-Contains _ _ (upper_bits b.ty s) w
        (known-Contains b.ty _ _ _ fits λ i p h. elim (Bool-cases (ltb (s + i) (type_width b.ty))) [
          | inl y ↦
              bits i p
              ∙ rw y (
                  omega (
                    arith,
                    agrees_at b v c (s + i),
                    bit-shr64 b.value s i,
                    bit-shr64 b.mask s i,
                    bit-le v (s + i),
                  ))
          | inr n ↦ absurd (
              omega (
                arith,
                bit-shr64 b.mask s i,
                bit_of_lt (type_width b.ty) b.mask (s + i) c.masked (ground arith),
              ))
        ])
        (unfold upper_bits in
          and-lt_left (type_width b.ty) _ _ (omega (arith, type_mask-lt_width b.ty)))
        λ σ e i h.
          let p = below_width b.ty i (unfold upper_bits in omega (bit_laws, h)) in
          let out : (type_width b.ty) ≤ s + i = elim (dec_lt (s + i) (type_width b.ty)) [
            | yes q ↦
                absurd
                  (omega (arith, bit-upper_bits b.ty s i p, bit-type_mask_lt b.ty (s + i) q, h))
            | no q ↦ omega arith
          ] in
          bits i p ∙ rw (not-ltb out) (at-bit b v (type_width b.ty - 1) σ c (sign_position b.ty) e)

  pub resize_s-Contains :
      (to : IrType) (w : ℕ)
      → 0 < type_width b.ty
      → w < 2 ^ type_width to
      → ((i : ℕ) → i < type_width to → bit w i ≡ shifted_bit (type_width b.ty) v 0 i)
      → Contains (resize_s_signed b to) w
  unfolding resize_s_signed
  resize_s-Contains to w pos fits bits =
      extend_sign-Contains _ _ (bit_and (type_mask to) (not64 (type_mask b.ty))) w
        (known-Contains to _ _ _ fits λ i p h. elim (Bool-cases (ltb (0 + i) (type_width b.ty))) [
          | inl y ↦
              bits i p
              ∙ rw y (
                  rw add.zero (
                    omega (
                      bit_laws,
                      agrees_at b v c i,
                      bit-type_mask_lt to i p,
                      bit-type_mask_lt b.ty i (ground arith),
                      bit-le v i,
                    )))
          | inr n ↦
              absurd
                (omega (bit_laws, bit_of_lt (type_width b.ty) b.mask i c.masked (ground arith)))
        ])
        (and-lt_left (type_width to) _ _ (type_mask-lt_width to))
        λ σ e i h.
          let p = below_width to i (omega (bit_laws, h)) in
          let out : (type_width b.ty) ≤ 0 + i = elim (dec_lt i (type_width b.ty)) [
            | yes q ↦ absurd (
                omega (bit_laws, bit-type_mask_lt b.ty i q, h, type_mask-lt b.ty, type_width-le to))
            | no q ↦ omega arith
          ] in
          bits i p ∙ rw (not-ltb out) (at-bit b v (type_width b.ty - 1) σ c (sign_position b.ty) e)
