-- ===== src/Soundness/Relation.antt =====
-- How known bits and run-time values are related, and the lifting of a binary operator.
use mathlib.Core.Path.{subst}
use metajit_cpp.Types.{IrType, bool, type_width, type_mask}
use metajit_cpp.KnownBits as K
use metajit_cpp.KnownBits.Contains.{Contains, and-type_mask_lt}
use metajit_cpp.Interpreter as I
use metajit_cpp.Base.{
  ℕ, ◌<◌, ◌≤◌, ◌^◌, Bool, true, false, ◌||◌, Option, some, none, ◌≡◌, refl, sym, ap, ◌∙◌, ◌⊎◌, inl,
  inr, ◌>>=◌, if◌then◌else◌, bit_and, arith,
}

-- The type that known bits carry: the value's type, or a wider one for a Boolean.
abbrev pub LabelFits : IrType → IrType → Type 0
LabelFits k t = (k ≡ t) ⊎ ((t ≡ bool) × (1 ≤ type_width k))

-- A value that is not poison is one of those that the known bits allow.
pub record Approximates (k : K.Bits) (r : I.Bits) : Type 0 where
  pub label : LabelFits k.ty r.ty
  pub in_type : r.value < 2 ^ type_width r.ty
  pub contained : r.is_poison ≡ false → Contains k r.value

pub label-width : (k t : IrType) → LabelFits k t → type_width t ≤ type_width k
label-width k t (inl e) = rw e (omega arith)
label-width k t (inr (e, p)) = rw e (unfold type_width in p)

pub label_of_not_bool : (k t : IrType) → (t ≡ bool → ⊥) → LabelFits k t → k ≡ t
label_of_not_bool k t h (inl e) = e
label_of_not_bool k t h (inr (e, p)) = absurd (h e)

-- What a successful `propagating_binop` gives.
pub record Propagated (f : IrType → ℕ → ℕ → Option I.Bits) (a b r : I.Bits) : Type 0 where
  pub plain : I.Bits
  pub runs : f a.ty a.value b.value ≡ some plain
  pub same_ty : r.ty ≡ plain.ty
  pub unpoisoned : r.is_poison ≡ false → (a.is_poison ≡ false) × (b.is_poison ≡ false) × (r ≡ plain)
  pub in_range : plain.value < 2 ^ type_width plain.ty → r.value < 2 ^ type_width r.ty

poisoned_range : (t : IrType) → bit_and 0 (type_mask t) < 2 ^ type_width t
poisoned_range t = and-type_mask_lt t 0

or_cases :
    (p q : Bool) (plain : I.Bits)
    → let r = if p || q then I.poison plain.ty else plain in
      (r.ty ≡ plain.ty)
      × (r.is_poison ≡ false → (p ≡ false) × (q ≡ false) × (r ≡ plain))
      × (plain.value < 2 ^ type_width plain.ty → r.value < 2 ^ type_width r.ty)
unfolding I.poison
or_cases true q plain = (refl, (λ h. cc), λ h. poisoned_range plain.ty)
or_cases false true plain = (refl, (λ h. cc), λ h. poisoned_range plain.ty)
or_cases false false plain = (refl, (λ h. (refl, refl, refl)), λ h. h)

split_result :
    (f : IrType → ℕ → ℕ → Option I.Bits) (a b r : I.Bits) (o : Option I.Bits)
    → f a.ty a.value b.value ≡ o
    → (o >>= λ x. some (if a.is_poison || b.is_poison then I.poison x.ty else x)) ≡ some r
    → Propagated f a b r
split_result f a b r none e h = cc
split_result f a b r (some x) e h =
    let q : (if a.is_poison || b.is_poison then I.poison x.ty else x) ≡ r = cc in
    let (s, u, v) = or_cases a.is_poison b.is_poison x in
    record {
      plain = x;
      runs = e;
      same_ty = sym (ap (λ (z : I.Bits). z.ty) q) ∙ s;
      unpoisoned =
          subst (λ z. z.is_poison ≡ false → (a.is_poison ≡ false) × (b.is_poison ≡ false) × (z ≡ x))
            q u;
      in_range = subst (λ z. x.value < 2 ^ type_width x.ty → z.value < 2 ^ type_width z.ty) q v;
    }

pub propagated :
    (f : IrType → ℕ → ℕ → Option I.Bits) (a b r : I.Bits)
    → I.propagating_binop f a b ≡ some r
    → Propagated f a b r
unfolding I.propagating_binop
propagated f a b r h = split_result f a b r (f a.ty a.value b.value) refl h

pub constant_range :
    (t : IrType) (v : ℕ) → (I.constant t v).value < 2 ^ type_width (I.constant t v).ty
unfolding I.constant
constant_range t v = and-type_mask_lt t v

module _ (ka kb : K.Bits) (a b : I.Bits) (pa : Approximates ka a) (pb : Approximates kb b) where
  -- The lifting of what holds of an operator on values that are not poison.
  pub propagating-Approximates :
      (f : IrType → ℕ → ℕ → Option I.Bits) (k : K.Bits) (r : I.Bits)
      → I.propagating_binop f a b ≡ some r
      → ((p : I.Bits)
          → f a.ty a.value b.value ≡ some p
          → LabelFits k.ty p.ty × (p.value < 2 ^ type_width p.ty))
      → ((p : I.Bits)
          → f a.ty a.value b.value ≡ some p
          → Contains ka a.value
          → Contains kb b.value
          → Contains k p.value)
      → Approximates k r
  propagating-Approximates f k r e shape sound =
      let q = propagated f a b r e in
      let (l, n) = shape q.plain q.runs in
      record {
        label = subst (LabelFits k.ty) (sym q.same_ty) l;
        in_type = q.in_range n;
        contained = λ h.
            let (x, y, z) = q.unpoisoned h in
            subst (λ (w : I.Bits). Contains k w.value) (sym z)
              (sound q.plain q.runs (pa.contained x) (pb.contained y));
      }

  -- The same for an operator that always gives a value.
  pub total-Approximates :
      (f : IrType → ℕ → ℕ → Option I.Bits) (k : K.Bits) (p r : I.Bits)
      → f a.ty a.value b.value ≡ some p
      → I.propagating_binop f a b ≡ some r
      → LabelFits k.ty p.ty
      → p.value < 2 ^ type_width p.ty
      → (Contains ka a.value → Contains kb b.value → Contains k p.value)
      → Approximates k r
  total-Approximates f k p r runs e l n sound =
      propagating-Approximates f k r e
        (λ p' h.
          subst (λ (w : I.Bits). LabelFits k.ty w.ty × (w.value < 2 ^ type_width w.ty)) (same p' h)
            (l, n))
        (λ p' h x y. subst (λ (w : I.Bits). Contains k w.value) (same p' h) (sound x y))
    where
      same : (p' : I.Bits) → f a.ty a.value b.value ≡ some p' → p ≡ p'
      same p' h = let q : some p ≡ some p' = sym runs ∙ h in cc

  -- The same for a result that is cut to its type.
  pub constant-Approximates :
      (f : IrType → ℕ → ℕ → Option I.Bits) (k : K.Bits) (t : IrType) (v : ℕ) (r : I.Bits)
      → f a.ty a.value b.value ≡ some (I.constant t v)
      → I.propagating_binop f a b ≡ some r
      → LabelFits k.ty t
      → (Contains ka a.value → Contains kb b.value → Contains k (bit_and v (type_mask t)))
      → Approximates k r
  unfolding I.constant
  constant-Approximates f k t v r runs e l sound =
      total-Approximates f k (I.constant t v) r runs e l (constant_range t v) sound
