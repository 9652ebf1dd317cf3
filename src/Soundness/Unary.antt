-- ===== src/Soundness/Unary.antt =====
-- `resize_u`, `resize_x` and `select` of `KnownBits::Bits` and `Interpreter::Bits`.

use metajit_cpp.Types.{IrType, type_mask}
use metajit_cpp.KnownBits as K
use metajit_cpp.KnownBits.Contains.{Contains, and-type_mask_lt}
use metajit_cpp.KnownBits.Consts.{select-Contains_left, select-Contains_right}
use metajit_cpp.KnownBits.Resizes.{resize_u-Contains, resize_x-Contains}
use metajit_cpp.Interpreter as I
use metajit_cpp.Soundness.Relation.{LabelFits, Approximates}
use metajit_cpp.Soundness.Operators.{fits_wider}
use metajit_cpp.Base.{
  ℕ, Bool, true, false, ◌≡◌, refl, sym, inl, inr, bit_and, if◌then◌else◌, ◌==◌, not, Bool-cases,
}

-- A poison value of a type, which stands for nothing.
pub poison-Approximates : (k : K.Bits) (t : IrType) → k.ty ≡ t → Approximates k (I.poison t)
unfolding I.poison
poison-Approximates k t e = record {
  label = inl e;
  in_type = and-type_mask_lt t 0;
  contained = λ h. cc;
}

pub constant-Approximates :
    (k : K.Bits) (t : IrType) (v : ℕ)
    → k.ty ≡ t
    → Contains k (bit_and v (type_mask t))
    → Approximates k (I.constant t v)
unfolding I.constant
constant-Approximates k t v e c = record {
  label = inl e;
  in_type = and-type_mask_lt t v;
  contained = λ h. c;
}

resized :
    (k : K.Bits) (a : I.Bits) (to : IrType) (p : Bool)
    → a.is_poison ≡ p
    → k.ty ≡ to
    → (a.is_poison ≡ false → Contains k (bit_and a.value (type_mask to)))
    → Approximates k (if p then I.poison to else I.constant to a.value)
resized k a to true e t c = poison-Approximates k to t
resized k a to false e t c = constant-Approximates k to a.value t (c e)

module _ (ka : K.Bits) (a : I.Bits) (pa : Approximates ka a) (to : IrType) where
  -- If known bits approximate a value, then zero-extending or cutting both by `resize_u` to any
  -- type gives known bits that approximate the result.
  pub resize_u_sound : Approximates (K.resize_u ka to) (I.resize_u a to)
  unfolding I.resize_u
  resize_u_sound =
      resized _ a to a.is_poison refl (unfold K.resize_u in refl)
        (λ h. resize_u-Contains ka a.value (pa.contained h) to)

  pub resize_x_sound : Approximates (K.resize_x ka to) (I.resize_x a to)
  unfolding I.resize_x
  resize_x_sound =
      resized _ a to a.is_poison refl (unfold K.resize_x in refl)
        (λ h. resize_x-Contains ka a.value (pa.contained h) to)

module _ (kc ka kb : K.Bits) (c a b : I.Bits) (pc : Approximates kc c) (pa : Approximates ka a)
    (pb : Approximates kb b) where
  either_label :
      (q : Bool) → a.ty ≡ b.ty → (t : IrType) → t ≡ a.ty → LabelFits (if q then ka else kb).ty t
  either_label true e t u = rw u pa.label
  either_label false e t u = rw (u, e) pb.label

  select_label : a.ty ≡ b.ty → (t : IrType) → t ≡ a.ty → LabelFits (K.select kc ka kb).ty t
  unfolding K.select
  select_label e t u = elim (Bool-cases (K.is_const kc)) [
    | inl y ↦ rw y (either_label (not (kc.value == 0)) e t u)
    | inr n ↦ rw n (rw u pa.label)
  ]

  chosen :
      (q : Bool)
      → (c.value == 0) ≡ q
      → a.ty ≡ b.ty
      → c.is_poison ≡ false
      → Approximates (K.select kc ka kb) (if not q then a else b)
  chosen true e t h = record {
    label = select_label t b.ty (sym t);
    in_type = pb.in_type;
    contained = λ g.
        select-Contains_right kc ka kb c.value (pc.contained h) b.value (pb.contained g)
          (fits_wider ka.ty a.ty b.value pa.label (rw t pb.in_type)) e;
  }
  chosen false e t h = record {
    label = select_label t a.ty refl;
    in_type = pa.in_type;
    contained =
        λ g. select-Contains_left kc ka kb c.value (pc.contained h) a.value (pa.contained g) e;
  }

  select_at :
      (p : Bool)
      → c.is_poison ≡ p
      → a.ty ≡ b.ty
      → Approximates
          (K.select kc ka kb)
          (if p then I.poison a.ty else if not (c.value == 0) then a else b)
  unfolding I.poison
  select_at true e t = record {
    label = select_label t a.ty refl;
    in_type = and-type_mask_lt a.ty 0;
    contained = λ h. cc;
  }
  select_at false e t = chosen (c.value == 0) refl t e

  -- If the known bits of a condition and of two operands of one type approximate their values,
  -- then `select` of the known bits approximates the operand that the interpreter selects, for a
  -- condition that is known, unknown or poison.
  pub select_sound : a.ty ≡ b.ty → Approximates (K.select kc ka kb) (I.select c a b)
  unfolding I.select
  select_sound t = select_at c.is_poison refl t
