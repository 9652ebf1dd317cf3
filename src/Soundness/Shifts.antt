-- ===== src/Soundness/Shifts.antt =====
-- `shl`, `shr_u` and `shr_s` of `KnownBits::Bits` and of `Interpreter::Bits`.
use mathlib.Core.Path.{subst}
use metajit_cpp.Types.{
  IrType, void, bool, int8, int16, int32, int64, float32, float64, ptr, type_width, type_mask,
}
use metajit_cpp.Types.Masks.{type_width-le, bit-type_mask_lt}
use metajit_cpp.Types.Switch.{switch_shift, signed_width}
use metajit_cpp.KnownBits as K
use metajit_cpp.KnownBits.Contains.{Contains, and-type_mask_lt}
use metajit_cpp.KnownBits.Consts.{unknown-Contains, const_value}
use metajit_cpp.KnownBits.Shifts.{shl-Contains, shr_u-Contains, shr64-lt_width}
use metajit_cpp.KnownBits.Signs.{shr_s-Contains}
use metajit_cpp.Interpreter as I
use metajit_cpp.Soundness.Relation.{Approximates, propagating-Approximates, constant_range}
use metajit_cpp.Soundness.Operators.{masked_self}
use metajit_cpp.Word.Ops.{shl64, shr64}
use metajit_cpp.Word.Signed.{to_signed, to_word, signed_shift}
use metajit_cpp.Word.Bits.{bit}
use metajit_cpp.Word.Word64.{bit_laws}
use metajit_cpp.Word.SignBits.{bit-signed_shift, shifted_bit, signed_shift_count}
use metajit_cpp.Base.{
  ℕ, ◌<◌, ◌≤◌, ◌^◌, Bool, true, false, Option, some, none, ◌≡◌, refl, sym, ap, ◌∙◌, ◌⊎◌, inl, inr,
  bit_and, arith, >>=-eq-some, ◌-◌, if◌then◌else◌, ltb→lt, Bool-cases,
}

module _ (ka kb : K.Bits) (a b r : I.Bits) (pa : Approximates ka a) (pb : Approximates kb b) where
  shift_cases :
      (f : K.Bits → ℕ → Option K.Bits) (k : K.Bits)
      → K.shift_by_const f ka kb ≡ some k
      → ((K.is_const kb ≡ true) × (f ka kb.value ≡ some k)) ⊎ (K.known ka.ty 0 0 ≡ k)
  unfolding K.shift_by_const
  shift_cases f k h = elim (Bool-cases (K.is_const kb)) [
    | inl y ↦ inl (y, rw y at h)
    | inr n ↦ inr (some_eq (rw n at h))
  ]
    where
      some_eq : {x y : K.Bits} → some x ≡ some y → x ≡ y
      some_eq e = cc

  -- A shift that the interpreter can do, by its effect on the operand's value.
  shift_sound :
      (f : K.Bits → ℕ → Option K.Bits) (g : IrType → ℕ → ℕ → Option I.Bits) (k : K.Bits)
      → ka.ty ≡ a.ty
      → ((s : ℕ) (k' : K.Bits) → f ka s ≡ some k' → k'.ty ≡ ka.ty)
      → ((p : I.Bits)
          → g a.ty a.value b.value ≡ some p
          → (p.ty ≡ a.ty) × (p.value < 2 ^ type_width a.ty))
      → ((k' : K.Bits) (p : I.Bits)
          → Contains ka a.value
          → f ka b.value ≡ some k'
          → g a.ty a.value b.value ≡ some p
          → Contains k' p.value)
      → K.shift_by_const f ka kb ≡ some k
      → I.propagating_binop g a b ≡ some r
      → Approximates k r
  shift_sound f g k t keeps shape sound h e =
      propagating-Approximates ka kb a b pa pb g k r e
        (λ p q.
          let (u, w) = shape p q in
          (
            inl (k_ty (shift_cases f k h) ∙ t ∙ sym u),
            subst (λ (z : IrType). p.value < 2 ^ type_width z) (sym u) w,
          ))
        (λ p q x y. contains p q x y (shift_cases f k h))
    where
      k_ty :
          ((K.is_const kb ≡ true) × (f ka kb.value ≡ some k)) ⊎ (K.known ka.ty 0 0 ≡ k)
          → k.ty ≡ ka.ty
      k_ty (inl (c, q)) = keeps kb.value k q
      k_ty (inr q) = sym (ap (λ (z : K.Bits). z.ty) q) ∙ unfold K.known in refl

      contains :
          (p : I.Bits)
          → g a.ty a.value b.value ≡ some p
          → Contains ka a.value
          → Contains kb b.value
          → ((K.is_const kb ≡ true) × (f ka kb.value ≡ some k)) ⊎ (K.known ka.ty 0 0 ≡ k)
          → Contains k p.value
      contains p q x y (inl (c, h')) = sound k p x (rw (← const_value kb b.value y c) at h') q
      contains p q x y (inr h') =
          let (u, w) = shape p q in
          subst (λ (z : K.Bits). Contains z p.value) h'
            (unknown-Contains ka.ty p.value
              (subst (λ (z : IrType). p.value < 2 ^ type_width z) (sym t) w))

if_some {ℓ} :
    {A : Type ℓ} (c : Bool) {x y : A} → (if c then some x else none) ≡ some y → (c ≡ true) × (x ≡ y)
if_some true h = (refl, cc)
if_some false h = cc

shl_keeps : (k k' : K.Bits) (s : ℕ) → K.shl_by k s ≡ some k' → k'.ty ≡ k.ty
unfolding K.shl_by
shl_keeps k k' s h = let (c, e) = if_some _ h in sym (ap (λ (z : K.Bits). z.ty) e)

shr_u_keeps : (k k' : K.Bits) (s : ℕ) → K.shr_u_by k s ≡ some k' → k'.ty ≡ k.ty
unfolding K.shr_u_by
shr_u_keeps k k' s h = let (c, e) = if_some _ h in sym (ap (λ (z : K.Bits). z.ty) e)

constant_shape :
    (t : IrType) (v : ℕ) (p : I.Bits)
    → I.constant t v ≡ p
    → (p.ty ≡ t) × (p.value < 2 ^ type_width t)
unfolding I.constant
constant_shape t v p e =
    subst (λ (z : I.Bits). (z.ty ≡ t) × (z.value < 2 ^ type_width t)) e (refl, constant_range t v)

module _ (ka kb : K.Bits) (a b r : I.Bits) (pa : Approximates ka a) (pb : Approximates kb b) where
  pub shl_sound :
      (k : K.Bits) → ka.ty ≡ a.ty → K.shl ka kb ≡ some k → I.shl a b ≡ some r → Approximates k r
  unfolding K.shl I.shl
  shl_sound k t h e =
      shift_sound ka kb a b r pa pb K.shl_by I.shl_expr k t (λ s k'. shl_keeps ka k' s)
        (λ p q. let (c, w) = if_some _ q in constant_shape a.ty _ p w)
        (λ k' p x f q.
          let (c, w) = if_some _ q in
          let (c', w') = if_some _ f in
          subst (λ (z : K.Bits). Contains z p.value) w'
            (subst (λ (z : I.Bits). Contains (K.shl_below_64 ka b.value) z.value) w
              (unfold I.constant in
                subst
                  (λ (u : IrType).
                    Contains (K.shl_below_64 ka b.value)
                      (bit_and (shl64 a.value b.value) (type_mask u)))
                  t (shl-Contains ka a.value x b.value (ltb→lt _ _ c)))))
        h e

  pub shr_u_sound :
      (k : K.Bits) → ka.ty ≡ a.ty → K.shr_u ka kb ≡ some k → I.shr_u a b ≡ some r → Approximates k r
  unfolding K.shr_u I.shr_u
  shr_u_sound k t h e =
      shift_sound ka kb a b r pa pb K.shr_u_by I.shr_u_expr k t (λ s k'. shr_u_keeps ka k' s)
        (λ p q. let (c, w) = if_some _ q in constant_shape a.ty _ p w)
        (λ k' p x f q.
          let (c, w) = if_some _ q in
          let (c', w') = if_some _ f in
          let in_type = shr64-lt_width a.value b.value pa.in_type in
          subst (λ (z : K.Bits). Contains z p.value) w'
            (subst (λ (z : I.Bits). Contains (K.shr_u_below_64 ka b.value) z.value) w
              (unfold I.constant in
                rw (masked_self a.ty _ in_type)
                  (shr_u-Contains ka a.value x b.value (ltb→lt _ _ c)))))
        h e

signed_width-eq :
    (t : IrType) (w : ℕ) → signed_width t ≡ some w → (w ≡ type_width t) × (1 ≤ type_width t)
unfolding signed_width type_width
signed_width-eq void w h = cc
signed_width-eq bool w h = cc
signed_width-eq int8 w h = ground arith
signed_width-eq int16 w h = ground arith
signed_width-eq int32 w h = ground arith
signed_width-eq int64 w h = ground arith
signed_width-eq float32 w h = cc
signed_width-eq float64 w h = cc
signed_width-eq ptr w h = cc

-- A signed shift that is defined: its bits are the operand's, then its sign.
switch_shift_bits :
    (t : IrType) (x y res : ℕ)
    → x < 2 ^ type_width t
    → y < 2 ^ type_width t
    → switch_shift t x y ≡ some res
    → (1 ≤ type_width t)
      × ((i : ℕ) → i < type_width t → bit res i ≡ shifted_bit (type_width t) x y i)
unfolding switch_shift
switch_shift_bits t x y res hx hy e =
    let (w, f, g) = >>=-eq-some (signed_width t) _ e in
    let (q, p, s) = >>=-eq-some (signed_shift w (to_signed w x) (to_signed w y)) _ g in
    let (u, n) = signed_width-eq t w f in
    let p' = rw u at p in
    let s' : to_word q ≡ res = cc in
    (
      n,
      λ i h. rw (sym s') (
          bit-signed_shift (type_width t) x y i (type_width-le t) hx h
            (signed_shift_count (type_width t) y 0 _ q hy p')),
    )

shr_s_keeps : (k k' : K.Bits) (s : ℕ) → K.shr_s_by k s ≡ some k' → k'.ty ≡ k.ty
unfolding K.shr_s_by
shr_s_keeps k k' s h =
    let (c, e) = if_some _ h in
    sym (ap (λ (z : K.Bits). z.ty) e) ∙ extend_ty (K.at k (type_width k.ty - 1))
  where
    extend_ty :
        (o : Option Bool)
        → (K.extend_sign
            (K.known k.ty (shr64 k.mask s) (shr64 k.value s))
            o
            (K.upper_bits k.ty s)).ty
          ≡ k.ty
    extend_ty none = refl
    extend_ty (some true) = refl
    extend_ty (some false) = refl

module _ (ka kb : K.Bits) (a b r : I.Bits) (pa : Approximates ka a) (pb : Approximates kb b) where
  -- If the known bits of two operands of one type approximate their values and carry the type of
  -- the first, and both `shr_s` of the known bits and the arithmetic shift `>>` of the interpreter
  -- run, then the known bits of the result, their sign fill included, approximate the
  -- interpreter's value.
  pub shr_s_sound :
      (k : K.Bits)
      → ka.ty ≡ a.ty
      → a.ty ≡ b.ty
      → K.shr_s ka kb ≡ some k
      → I.shr_s a b ≡ some r
      → Approximates k r
  unfolding K.shr_s I.shr_s
  shr_s_sound k t u h e =
      shift_sound ka kb a b r pa pb K.shr_s_by I.eval_shr_s k t (λ s k'. shr_s_keeps ka k' s)
        (λ p q. let (res, f, g) = runs p q in constant_shape a.ty res p g)
        (λ k' p x f q.
          let (res, f', g) = runs p q in
          let (c', w') = if_some _ f in
          subst (λ (z : K.Bits). Contains z p.value) w'
            (subst (λ (z : I.Bits). Contains (K.shr_s_below_64 ka b.value) z.value) g
              (unfold I.constant in shifted res f' x)))
        h e
    where
      runs :
          (p : I.Bits)
          → I.eval_shr_s a.ty a.value b.value ≡ some p
          → (res : ℕ) × (switch_shift a.ty a.value b.value ≡ some res) × (I.constant a.ty res ≡ p)
      runs p q =
          let (res, f, g) =
            >>=-eq-some (switch_shift a.ty a.value b.value) _ (unfold I.eval_shr_s in q) in
          (res, f, cc)

      shifted :
          (res : ℕ)
          → switch_shift a.ty a.value b.value ≡ some res
          → Contains ka a.value
          → Contains (K.shr_s_below_64 ka b.value) (bit_and res (type_mask a.ty))
      shifted res f x =
          let (n, bits) =
            switch_shift_bits a.ty a.value b.value res pa.in_type (rw u pb.in_type) f in
          shr_s-Contains ka a.value x b.value _ (rw t n)
            (subst (λ (z : IrType). bit_and res (type_mask a.ty) < 2 ^ type_width z) (sym t)
              (and-type_mask_lt a.ty res))
            λ i p.
              let p' : i < type_width a.ty = rw t at p in
              let low : bit (bit_and res (type_mask a.ty)) i ≡ bit res i =
                omega (bit_laws, bit-type_mask_lt a.ty i p') in
              rw t (low ∙ bits i p')
