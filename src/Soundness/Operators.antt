-- ===== src/Soundness/Operators.antt =====
-- `+`, `-`, `&`, `|` and `^` of `KnownBits::Bits` and of `Interpreter::Bits`.
use mathlib.Core.Path.{subst}
use metajit_cpp.Types.{IrType, type_width, type_mask}
use metajit_cpp.KnownBits as K
use metajit_cpp.KnownBits.Contains.{Contains, and-type_mask}
use metajit_cpp.KnownBits.Bitwise.{and_bits-Contains, or_bits-Contains, xor_bits-Contains}
use metajit_cpp.KnownBits.Sums.{add-Contains, sub-Contains}
use metajit_cpp.Interpreter as I
use metajit_cpp.Soundness.Relation.{LabelFits, Approximates, label-width, constant-Approximates}
use metajit_cpp.Word.Mask.{and-lt_left, or-lt, xor-lt}
use metajit_cpp.Word.Ops.{add64, sub64}
use native.Mathlib.Nat.{mod-eq_of_lt, pow-le-pow_right}
use metajit_cpp.Base.{ℕ, ◌<◌, ◌≤◌, ◌^◌, some, ◌≡◌, refl, ◌∙◌, inl, bit_and, bit_or, bit_xor, arith}

-- A value of the type is left as it is by the mask.
pub masked_self : (t : IrType) (v : ℕ) → v < 2 ^ type_width t → bit_and v (type_mask t) ≡ v
masked_self t v h = and-type_mask t v ∙ mod-eq_of_lt h

pub fits_wider :
    (k t : IrType) (v : ℕ) → LabelFits k t → v < 2 ^ type_width t → v < 2 ^ type_width k
fits_wider k t v l h =
    let q : 2 ^ type_width t ≤ 2 ^ type_width k =
      pow-le-pow_right {n = 2} (omega arith) {i = type_width t} {j = type_width k}
        (label-width k t l) in
    omega arith

module _ (ka kb : K.Bits) (a b r : I.Bits) (pa : Approximates ka a) (pb : Approximates kb b) where
  -- The type that the bits carry and the value's type.
  retyped :
      (k : K.Bits) (v : ℕ)
      → ka.ty ≡ a.ty
      → Contains k (bit_and v (type_mask ka.ty))
      → Contains k (bit_and v (type_mask a.ty))
  retyped k v t = subst (λ (u : IrType). Contains k (bit_and v (type_mask u))) t

  pub add_sound : ka.ty ≡ a.ty → I.add a b ≡ some r → Approximates (K.add ka kb) r
  unfolding I.add K.add
  add_sound t e =
      constant-Approximates ka kb a b pa pb I.add_expr (K.add ka kb) a.ty (add64 a.value b.value) r
        refl e (inl t) (λ x y. retyped (K.add ka kb) _ t (add-Contains ka kb a.value b.value x y))

  pub sub_sound : ka.ty ≡ a.ty → I.sub a b ≡ some r → Approximates (K.sub ka kb) r
  unfolding I.sub K.sub
  sub_sound t e =
      constant-Approximates ka kb a b pa pb I.sub_expr (K.sub ka kb) a.ty (sub64 a.value b.value) r
        refl e (inl t) (λ x y. retyped (K.sub ka kb) _ t (sub-Contains ka kb a.value b.value x y))

  -- The operands of a bitwise operator have one type, which may be Boolean.
  right_fits : a.ty ≡ b.ty → b.value < 2 ^ type_width ka.ty
  right_fits t = fits_wider ka.ty a.ty b.value pa.label (rw t pb.in_type)

  pub and_sound : I.and_bits a b ≡ some r → Approximates (K.and_bits ka kb) r
  unfolding I.and_bits K.and_bits
  and_sound e =
      constant-Approximates ka kb a b pa pb I.and_expr (K.and_bits ka kb) a.ty
        (bit_and a.value b.value) r refl e pa.label
        (λ x y.
          rw (masked_self a.ty _ (and-lt_left (type_width a.ty) a.value b.value pa.in_type))
            (and_bits-Contains ka kb a.value b.value x y))

  pub or_sound : a.ty ≡ b.ty → I.or_bits a b ≡ some r → Approximates (K.or_bits ka kb) r
  unfolding I.or_bits K.or_bits
  or_sound t e =
      constant-Approximates ka kb a b pa pb I.or_expr (K.or_bits ka kb) a.ty
        (bit_or a.value b.value) r refl e pa.label
        (λ x y.
          rw
            (masked_self a.ty _
              (or-lt (type_width a.ty) a.value b.value pa.in_type (rw t pb.in_type)))
            (or_bits-Contains ka kb a.value b.value x y (right_fits t)))

  pub xor_sound : a.ty ≡ b.ty → I.xor_bits a b ≡ some r → Approximates (K.xor_bits ka kb) r
  unfolding I.xor_bits K.xor_bits
  xor_sound t e =
      constant-Approximates ka kb a b pa pb I.xor_expr (K.xor_bits ka kb) a.ty
        (bit_xor a.value b.value) r refl e pa.label
        (λ x y.
          rw
            (masked_self a.ty _
              (xor-lt (type_width a.ty) a.value b.value pa.in_type (rw t pb.in_type)))
            (xor_bits-Contains ka kb a.value b.value x y (right_fits t)))
