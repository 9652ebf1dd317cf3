-- ===== src/Soundness/Folds.antt =====
-- `const_binop` of `KnownBits::Bits`, and the interpreter's multiplication and division.
use mathlib.Core.Path.{subst}
use mathlib.Core.Bool.{and-eq-true_iff}
use metajit_cpp.Types.{IrType, type_width}
use metajit_cpp.Types.Switch.{switch_quotient, switch_remainder}
use metajit_cpp.KnownBits as K
use metajit_cpp.KnownBits.Contains.{Contains, and-type_mask_lt}
use metajit_cpp.KnownBits.Consts.{constant-Contains, unknown-Contains, const_value, if-Contains}
use metajit_cpp.Interpreter as I
use metajit_cpp.Soundness.Relation.{
  Approximates, constant-Approximates, propagating-Approximates, constant_range,
}
use metajit_cpp.Word.Ops.{mul64, div64, mod64}
use metajit_cpp.Base.{
  ℕ, ◌<◌, ◌^◌, Bool, true, false, ◌&&◌, Option, some, none, ◌≡◌, refl, sym, ap, ◌∙◌, ◌⊎◌, inl, inr,
  ◌>>=◌, if◌then◌else◌, Bool-cases,
}

-- Two folds of one number, or of one test.
module _ (t : IrType) where
  fold_ty : (o : Option ℕ) (k : K.Bits) → (o >>= λ v. some (K.constant t v)) ≡ some k → k.ty ≡ t
  unfolding K.constant
  fold_ty none k h = cc
  fold_ty (some v) k h = let e : K.constant t v ≡ k = cc in sym (ap (λ (z : K.Bits). z.ty) e)

  run_shape :
      (o : Option ℕ) (p : I.Bits)
      → (o >>= λ v. some (I.constant t v)) ≡ some p
      → (p.ty ≡ t) × (p.value < 2 ^ type_width p.ty)
  unfolding I.constant
  run_shape none p h = cc
  run_shape (some v) p h =
      let e : I.constant t v ≡ p = cc in
      subst (λ (z : I.Bits). (z.ty ≡ t) × (z.value < 2 ^ type_width z.ty)) e
        (refl, constant_range t v)

  fold_agrees :
      (o : Option ℕ) (k : K.Bits) (p : I.Bits)
      → (o >>= λ v. some (K.constant t v)) ≡ some k
      → (o >>= λ v. some (I.constant t v)) ≡ some p
      → Contains k p.value
  fold_agrees none k p h g = cc
  fold_agrees (some v) k p h g =
      let e : K.constant t v ≡ k = cc in
      let f : I.constant t v ≡ p = cc in
      subst (λ (z : K.Bits). Contains z p.value) e
        (subst (λ (z : I.Bits). Contains (K.constant t v) z.value) f
          (unfold I.constant in constant-Contains t v))

module _ (ka kb : K.Bits) (a b r : I.Bits) (pa : Approximates ka a) (pb : Approximates kb b) where
  pub const_binop_cases :
      (f : IrType → ℕ → ℕ → Option K.Bits) (k : K.Bits)
      → K.const_binop f ka kb ≡ some k
      → ((K.is_const ka ≡ true) × (K.is_const kb ≡ true) × (f ka.ty ka.value kb.value ≡ some k))
        ⊎ (K.known ka.ty 0 0 ≡ k)
  unfolding K.const_binop
  const_binop_cases f k h = elim (Bool-cases (K.is_const ka && K.is_const kb)) [
    | inl y ↦ let (p, q) = (and-eq-true_iff _ _).0 y in inl (p, q, rw y at h)
    | inr n ↦ inr (some_eq (rw n at h))
  ]
    where
      some_eq : {x y : K.Bits} → some x ≡ some y → x ≡ y
      some_eq e = cc

  -- A fold and the operator, both through one partial function on numbers.
  fold_sound :
      (m : IrType → ℕ → ℕ → Option ℕ) (k : K.Bits)
      → ka.ty ≡ a.ty
      → K.const_binop (λ t x y. m t x y >>= λ v. some (K.constant t v)) ka kb ≡ some k
      → I.propagating_binop (λ t x y. m t x y >>= λ v. some (I.constant t v)) a b ≡ some r
      → Approximates k r
  fold_sound m k t h e =
      propagating-Approximates ka kb a b pa pb _ k r e
        (λ p g.
          let (u, w) = run_shape a.ty (m a.ty a.value b.value) p g in
          (inl (k_ty (const_binop_cases _ k h) ∙ t ∙ sym u), w))
        (λ p g x y. contains p g x y (const_binop_cases _ k h))
    where
      k_ty :
          ((K.is_const ka ≡ true)
              × (K.is_const kb ≡ true)
              × ((m ka.ty ka.value kb.value >>= λ v. some (K.constant ka.ty v)) ≡ some k))
            ⊎ (K.known ka.ty 0 0 ≡ k)
          → k.ty ≡ ka.ty
      k_ty (inl (p, q, g)) = fold_ty ka.ty (m ka.ty ka.value kb.value) k g
      k_ty (inr g) = sym (ap (λ (z : K.Bits). z.ty) g) ∙ unfold K.known in refl

      contains :
          (p : I.Bits)
          → (m a.ty a.value b.value >>= λ v. some (I.constant a.ty v)) ≡ some p
          → Contains ka a.value
          → Contains kb b.value
          → ((K.is_const ka ≡ true)
              × (K.is_const kb ≡ true)
              × ((m ka.ty ka.value kb.value >>= λ v. some (K.constant ka.ty v)) ≡ some k))
            ⊎ (K.known ka.ty 0 0 ≡ k)
          → Contains k p.value
      contains p g x y (inl (cx, cy, h')) =
          let ex = const_value ka a.value x cx in
          let ey = const_value kb b.value y cy in
          fold_agrees a.ty (m a.ty a.value b.value) k p (rw (← ex, ← ey, t) at h') g
      contains p g x y (inr h') =
          subst (λ (z : K.Bits). Contains z p.value) h'
            (unknown-Contains ka.ty p.value (
              let (u, w) = run_shape a.ty (m a.ty a.value b.value) p g in
              subst (λ (z : IrType). p.value < 2 ^ type_width z) (u ∙ sym t) w))

  pub div_u_sound :
      (k : K.Bits) → ka.ty ≡ a.ty → K.div_u ka kb ≡ some k → I.div_u a b ≡ some r → Approximates k r
  unfolding K.div_u I.div_u K.fold_div_u I.eval_div_u
  div_u_sound = fold_sound (λ t x y. div64 x y)

  pub mod_u_sound :
      (k : K.Bits) → ka.ty ≡ a.ty → K.mod_u ka kb ≡ some k → I.mod_u a b ≡ some r → Approximates k r
  unfolding K.mod_u I.mod_u K.fold_mod_u I.eval_mod_u
  mod_u_sound = fold_sound (λ t x y. mod64 x y)

  pub div_s_sound :
      (k : K.Bits) → ka.ty ≡ a.ty → K.div_s ka kb ≡ some k → I.div_s a b ≡ some r → Approximates k r
  unfolding K.div_s I.div_s K.fold_div_s I.eval_div_s
  div_s_sound = fold_sound switch_quotient

  pub mod_s_sound :
      (k : K.Bits) → ka.ty ≡ a.ty → K.mod_s ka kb ≡ some k → I.mod_s a b ≡ some r → Approximates k r
  unfolding K.mod_s I.mod_s K.fold_mod_s I.eval_mod_s
  mod_s_sound = fold_sound switch_remainder

  pub mul_sound : ka.ty ≡ a.ty → I.mul a b ≡ some r → Approximates (K.mul ka kb) r
  unfolding I.mul K.mul K.is_const
  mul_sound t e =
      constant-Approximates ka kb a b pa pb I.mul_expr (K.mul ka kb) a.ty (mul64 a.value b.value) r
        refl e (inl (mul_ty (K.is_const ka && K.is_const kb) ∙ t))
        (λ x y.
          unfold K.mul in
          if-Contains (K.is_const ka && K.is_const kb) _ _ _
            (λ h.
              let (cx, cy) = (and-eq-true_iff _ _).0 h in
              rw (const_value ka a.value x cx, const_value kb b.value y cy, sym t)
                (constant-Contains ka.ty (mul64 ka.value kb.value)))
            (λ h. rw (sym t) (unknown-Contains ka.ty _ (and-type_mask_lt ka.ty _))))
    where
      mul_ty :
          (c : Bool)
          → (if c then K.constant ka.ty (mul64 ka.value kb.value) else K.known ka.ty 0 0).ty ≡ ka.ty
      mul_ty true = unfold K.constant in refl
      mul_ty false = unfold K.known in refl
