-- ===== src/Soundness/Tests.antt =====
-- `eq`, `lt_u` and `lt_s` of `KnownBits::Bits` and of `Interpreter::Bits`.
use mathlib.Core.Path.{subst}
use metajit_cpp.Types.{IrType, bool, type_width, type_mask}
use metajit_cpp.Types.Switch.{switch_less}
use metajit_cpp.KnownBits as K
use metajit_cpp.KnownBits.Contains.{Contains}
use metajit_cpp.KnownBits.Consts.{
  constant_bool-Contains, unknown-Contains, const_value, eq-Contains,
}
use metajit_cpp.Interpreter as I
use metajit_cpp.Soundness.Relation.{
  LabelFits, Approximates, constant-Approximates, propagating-Approximates,
}
use metajit_cpp.Soundness.Folds.{const_binop_cases}
use metajit_cpp.Word.Mask.{two_pow_pos}
use native.Mathlib.Nat.{pow-le-pow_right}
use metajit_cpp.Base.{
  ℕ, ◌<◌, ◌≤◌, ◌^◌, Bool, true, false, Option, some, none, ◌≡◌, refl, sym, ap, ◌⊎◌, inl, inr,
  bit_and, arith, ◌>>=◌, if◌then◌else◌, ◌==◌, ltb,
}

bit_masked : (c : Bool) → bit_and (if c then 1 else 0) (type_mask bool) ≡ (if c then 1 else 0)
unfolding type_mask
bit_masked true = refl
bit_masked false = refl

bool_in_type : (c : Bool) → (I.constant_bool c).value < 2 ^ type_width bool
unfolding I.constant_bool type_width type_mask
bool_in_type true = omega arith
bool_in_type false = omega arith

bool_below : (n : ℕ) (c : Bool) → 1 ≤ n → (I.constant_bool c).value < 2 ^ n
unfolding I.constant_bool type_mask
bool_below n true h =
    let q : 2 ^ 1 ≤ 2 ^ n = pow-le-pow_right {n = 2} (omega arith) {i = 1} {j = n} h in omega arith
bool_below n false h = two_pow_pos n

test_ty :
    (o : Option Bool) (k : K.Bits) → (o >>= λ v. some (K.constant_bool v)) ≡ some k → k.ty ≡ bool
unfolding K.constant_bool
test_ty none k h = cc
test_ty (some v) k h = let e : K.constant_bool v ≡ k = cc in sym (ap (λ (z : K.Bits). z.ty) e)

test_run :
    (o : Option Bool) (p : I.Bits)
    → (o >>= λ v. some (I.constant_bool v)) ≡ some p
    → (c : Bool) × (o ≡ some c) × (I.constant_bool c ≡ p)
test_run none p h = cc
test_run (some v) p h = (v, refl, cc)

test_agrees :
    (o : Option Bool) (k : K.Bits) (p : I.Bits)
    → (o >>= λ v. some (K.constant_bool v)) ≡ some k
    → (o >>= λ v. some (I.constant_bool v)) ≡ some p
    → Contains k p.value
test_agrees none k p h g = cc
test_agrees (some v) k p h g =
    let e : K.constant_bool v ≡ k = cc in
    let f : I.constant_bool v ≡ p = cc in
    subst (λ (z : K.Bits). Contains z p.value) e
      (subst (λ (z : I.Bits). Contains (K.constant_bool v) z.value) f
        (unfold I.constant_bool in rw (bit_masked v) (constant_bool-Contains v)))

eq-ty : (ka kb : K.Bits) → (K.eq ka kb).ty ≡ bool
unfolding K.eq K.constant_bool
eq-ty ka kb = ground arith

module _ (ka kb : K.Bits) (a b r : I.Bits) (pa : Approximates ka a) (pb : Approximates kb b) where
  -- A test, both through one partial function on numbers.
  test_sound :
      (m : IrType → ℕ → ℕ → Option Bool) (k : K.Bits)
      → ka.ty ≡ a.ty
      → 1 ≤ type_width a.ty
      → K.const_binop (λ t x y. m t x y >>= λ v. some (K.constant_bool v)) ka kb ≡ some k
      → I.propagating_binop (λ t x y. m t x y >>= λ v. some (I.constant_bool v)) a b ≡ some r
      → Approximates k r
  unfolding I.constant_bool
  test_sound m k t pos h e =
      propagating-Approximates ka kb a b pa pb _ k r e
        (λ p g.
          let (c, u, w) = test_run (m a.ty a.value b.value) p g in
          (
            subst (λ (z : I.Bits). LabelFits k.ty z.ty) w
                (label (const_binop_cases ka kb a b r pa pb _ k h)),
            subst (λ (z : I.Bits). z.value < 2 ^ type_width z.ty) w
                (unfold I.constant_bool in bool_in_type c),
          ))
        (λ p g x y. contains p g x y (const_binop_cases ka kb a b r pa pb _ k h))
    where
      Cases : Type 0
      Cases =
          ((K.is_const ka ≡ true)
            × (K.is_const kb ≡ true)
            × ((m ka.ty ka.value kb.value >>= λ v. some (K.constant_bool v)) ≡ some k))
          ⊎ (K.known ka.ty 0 0 ≡ k)

      label : Cases → LabelFits k.ty bool
      label (inl (p, q, g)) = inl (test_ty (m ka.ty ka.value kb.value) k g)
      label (inr g) =
          inr (refl, subst (λ (z : K.Bits). 1 ≤ type_width z.ty) g (unfold K.known in rw t pos))

      contains :
          (p : I.Bits)
          → (m a.ty a.value b.value >>= λ v. some (I.constant_bool v)) ≡ some p
          → Contains ka a.value
          → Contains kb b.value
          → Cases
          → Contains k p.value
      contains p g x y (inl (cx, cy, h')) =
          let ex = const_value ka a.value x cx in
          let ey = const_value kb b.value y cy in
          test_agrees (m a.ty a.value b.value) k p (rw (← ex, ← ey, t) at h') g
      contains p g x y (inr h') =
          let (c, u, w) = test_run (m a.ty a.value b.value) p g in
          subst (λ (z : K.Bits). Contains z p.value) h'
            (unknown-Contains ka.ty p.value (
              subst (λ (z : I.Bits). z.value < 2 ^ type_width ka.ty) w
                (bool_below (type_width ka.ty) c (rw t pos))))

  pub lt_u_sound :
      (k : K.Bits)
      → ka.ty ≡ a.ty
      → 1 ≤ type_width a.ty
      → K.lt_u ka kb ≡ some k
      → I.lt_u a b ≡ some r
      → Approximates k r
  unfolding K.lt_u I.lt_u K.fold_lt_u
  lt_u_sound = test_sound (λ t x y. some (ltb x y))

  pub lt_s_sound :
      (k : K.Bits)
      → ka.ty ≡ a.ty
      → 1 ≤ type_width a.ty
      → K.lt_s ka kb ≡ some k
      → I.lt_s a b ≡ some r
      → Approximates k r
  unfolding K.lt_s I.lt_s K.fold_lt_s I.eval_lt_s
  lt_s_sound = test_sound switch_less

  pub eq_sound : I.eq a b ≡ some r → Approximates (K.eq ka kb) r
  unfolding I.eq
  eq_sound e =
      constant-Approximates ka kb a b pa pb I.eq_expr (K.eq ka kb) bool
        (if a.value == b.value then 1 else 0) r (unfold I.constant_bool in refl) e
        (inl (eq-ty ka kb))
        (λ x y. rw (bit_masked (a.value == b.value)) (eq-Contains ka kb a.value b.value x y))
