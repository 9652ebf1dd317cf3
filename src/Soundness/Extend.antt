-- ===== src/Soundness/Extend.antt =====
-- `resize_s` of `KnownBits::Bits` and of `Interpreter::Bits`.
use Prim.Native.Nat.add
use mathlib.Core.Path.{subst}
use metajit_cpp.Types.{IrType, type_width, type_mask}
use metajit_cpp.Types.Masks.{
  type_width-le, bit-type_mask_lt, bit-type_mask_ge, type_mask-lt, type_mask-lt_width,
}
use metajit_cpp.KnownBits as K
use metajit_cpp.KnownBits.Contains.{Contains, and-type_mask_lt}
use metajit_cpp.KnownBits.Signs.{resize_s-Contains, test_bit, bit_of}
use metajit_cpp.Interpreter as I
use metajit_cpp.Soundness.Relation.{Approximates}
use metajit_cpp.Soundness.Unary.{poison-Approximates}
use metajit_cpp.Word.Ops.{not64, shl64}
use metajit_cpp.Word.Bits.{bit}
use metajit_cpp.Word.Mask.{bit_of_lt, or-lt, and-lt_left}
use metajit_cpp.Word.Word64.{bit_laws}
use metajit_cpp.Word.SignBits.{shifted_bit}
use metajit_cpp.Base.{
  ℕ, ◌+◌, ◌-◌, ◌<◌, ◌≤◌, ◌^◌, Bool, true, false, Option, some, none, ◌≡◌, refl, sym, ap, ◌∙◌, inl,
  inr, bit_and, bit_or, arith, if◌then◌else◌, ◌==◌, ltb, ltb→lt, not, Bool-cases, ◌>>=◌,
  >>=-eq-some, some_eq,
}

-- The value that `resize_s` of the interpreter gives.
abbrev extended : IrType → IrType → ℕ → Bool → ℕ
extended from to v sign =
    let low = bit_and v (type_mask to) in
    if sign then bit_or low (bit_and (type_mask to) (not64 (type_mask from))) else low

extended-lt : (from to : IrType) (v : ℕ) (s : Bool) → extended from to v s < 2 ^ type_width to
extended-lt from to v true =
    or-lt (type_width to) _ _ (and-type_mask_lt to v)
      (and-lt_left (type_width to) _ _ (type_mask-lt_width to))
extended-lt from to v false = and-type_mask_lt to v

module _ (from to : IrType) (v : ℕ) (fits : v < 2 ^ type_width from) where
  bit-extended_low :
      (s : Bool) (i : ℕ)
      → i < type_width to
      → i < type_width from
      → bit (extended from to v s) i ≡ bit v i
  bit-extended_low true i p q = omega (
    bit_laws,
    bit-type_mask_lt to i p,
    bit-type_mask_lt from i q,
    type_mask-lt from,
    type_width-le to,
  )
  bit-extended_low false i p q = omega (bit_laws, bit-type_mask_lt to i p)

  bit-extended_high :
      (s : Bool) (i : ℕ)
      → i < type_width to
      → type_width from ≤ i
      → bit (extended from to v s) i ≡ bit_of s
  bit-extended_high true i p q = omega (
    bit_laws,
    bit-type_mask_lt to i p,
    bit-type_mask_ge from i q,
    type_mask-lt from,
    type_width-le to,
    bit_of_lt (type_width from) v i fits q,
  )
  bit-extended_high false i p q = omega (bit_laws, bit_of_lt (type_width from) v i fits q)

  bit-extended :
      (s : Bool) (i : ℕ)
      → bit_of s ≡ bit v (type_width from - 1)
      → i < type_width to
      → bit (extended from to v s) i ≡ shifted_bit (type_width from) v 0 i
  bit-extended s i e p = elim (Bool-cases (ltb (0 + i) (type_width from))) [
    | inl y ↦ rw y (rw add.zero (bit-extended_low s i p (ground arith)))
    | inr n ↦ rw n (bit-extended_high s i p (ground arith) ∙ e)
  ]

if_some {ℓ} :
    {A : Type ℓ} (c : Bool) {x y : A} → (if c then some x else none) ≡ some y → (c ≡ true) × (x ≡ y)
if_some true h = (refl, cc)
if_some false h = cc

if_then {ℓ} :
    {A : Type ℓ} (c : Bool) {o : Option A} {y : A}
    → (if c then o else none) ≡ some y
    → (c ≡ true) × (o ≡ some y)
if_then true h = (refl, h)
if_then false h = cc

extend_ty : (r : K.Bits) (o : Option Bool) (upper : ℕ) → (K.extend_sign r o upper).ty ≡ r.ty
unfolding K.extend_sign
extend_ty r none upper = refl
extend_ty r (some true) upper = refl
extend_ty r (some false) upper = refl

resize_s-ty : (ka : K.Bits) (to : IrType) → (K.resize_s_signed ka to).ty ≡ to
unfolding K.resize_s_signed
resize_s-ty ka to = extend_ty _ (K.at ka (type_width ka.ty - 1)) _

-- The last step of the interpreter's `resize_s`.
abbrev extended_bits : I.Bits → IrType → Bool → I.Bits
extended_bits a to s =
    let low = I.constant to a.value in
    if s
    then record low { value = bit_or low.value (bit_and (type_mask to) (not64 (type_mask a.ty))) }
    else low

module _ (ka : K.Bits) (a : I.Bits) (pa : Approximates ka a) (to : IrType) (t : ka.ty ≡ a.ty) where
  extended-Contains :
      (s : Bool)
      → 1 ≤ type_width a.ty
      → bit_of s ≡ bit a.value (type_width a.ty - 1)
      → Contains ka a.value
      → Contains (K.resize_s_signed ka to) (extended a.ty to a.value s)
  extended-Contains s pos e c =
      resize_s-Contains ka a.value c to _ (rw t pos) (extended-lt a.ty to a.value s)
        λ i p. rw t (bit-extended a.ty to a.value pa.in_type s i e p)

  extended-Approximates :
      (s : Bool)
      → 1 ≤ type_width a.ty
      → bit_of s ≡ bit a.value (type_width a.ty - 1)
      → a.is_poison ≡ false
      → Approximates (K.resize_s_signed ka to) (extended_bits a to s)
  unfolding I.constant
  extended-Approximates true pos e h = record {
    label = inl (resize_s-ty ka to);
    in_type = extended-lt a.ty to a.value true;
    contained = λ g. extended-Contains true pos e (pa.contained h);
  }
  extended-Approximates false pos e h = record {
    label = inl (resize_s-ty ka to);
    in_type = extended-lt a.ty to a.value false;
    contained = λ g. extended-Contains false pos e (pa.contained h);
  }

  -- A sign bit that the interpreter reads.
  sign_read :
      (s : Bool)
      → I.at a (type_width a.ty - 1) ≡ some s
      → (a.is_poison ≡ false) × (bit_of s ≡ bit a.value (type_width a.ty - 1))
  unfolding I.at
  sign_read s e = read a.is_poison refl e
    where
      read :
          (p : Bool)
          → a.is_poison ≡ p
          → (if p then none else some (not (bit_and a.value (shl64 1 (type_width a.ty - 1)) == 0)))
            ≡ some s
          → (a.is_poison ≡ false) × (bit_of s ≡ bit a.value (type_width a.ty - 1))
      read true q g = cc
      read false q g =
          let f : not (bit_and a.value (shl64 1 (type_width a.ty - 1)) == 0) ≡ s = cc in
          (
            q,
            sym (ap bit_of f)
                ∙ test_bit a.value (type_width a.ty - 1) (omega (arith, type_width-le a.ty)),
          )

  -- If known bits of the operand's own type approximate its value, and `resize_s` runs in the
  -- analysis and in the interpreter, then the resized known bits approximate the sign-extended or
  -- cut value, whether or not the sign bit is known.
  pub resize_s_sound :
      (k : K.Bits) (r : I.Bits)
      → K.resize_s ka to ≡ some k
      → I.resize_s a to ≡ some r
      → Approximates k r
  unfolding K.resize_s I.resize_s
  resize_s_sound k r h e =
      let (c, f) = if_some _ h in subst (λ (z : K.Bits). Approximates z r) f (run a.is_poison e)
    where
      run :
          (p : Bool)
          → (if p
              then some (I.poison to)
              else if ltb 0 (type_width a.ty)
              then (I.at a (type_width a.ty - 1) >>= λ sign. some (extended_bits a to sign))
              else none)
            ≡ some r
          → Approximates (K.resize_s_signed ka to) r
      run true g =
          let q : I.poison to ≡ r = cc in
          subst (Approximates (K.resize_s_signed ka to)) q
            (poison-Approximates _ to (resize_s-ty ka to))
      run false g =
          let (pos, g') = if_then _ g in
          let (sign, read, final) = >>=-eq-some (I.at a (type_width a.ty - 1)) _ g' in
          let q : extended_bits a to sign ≡ r = cc in
          let (live, bits) = sign_read sign read in
          subst (Approximates (K.resize_s_signed ka to)) q
            (extended-Approximates sign (ltb→lt 0 (type_width a.ty) pos) bits live)

extended_bits-shape :
    (a : I.Bits) (to : IrType) (s : Bool) (r : I.Bits)
    → extended_bits a to s ≡ r
    → (r.ty ≡ to) × (r.value < 2 ^ type_width r.ty)
unfolding I.constant
extended_bits-shape a to true r e =
    subst (λ (z : I.Bits). (z.ty ≡ to) × (z.value < 2 ^ type_width z.ty)) e
      (refl, extended-lt a.ty to a.value true)
extended_bits-shape a to false r e =
    subst (λ (z : I.Bits). (z.ty ≡ to) × (z.value < 2 ^ type_width z.ty)) e
      (refl, extended-lt a.ty to a.value false)

-- The result of `resize_s` is a value of the type asked for.
pub resize_s-shape :
    (a : I.Bits) (to : IrType) (r : I.Bits)
    → I.resize_s a to ≡ some r
    → (r.ty ≡ to) × (r.value < 2 ^ type_width r.ty)
unfolding I.resize_s
resize_s-shape a to r e = run a.is_poison e
  where
    run :
        (p : Bool)
        → (if p
            then some (I.poison to)
            else if ltb 0 (type_width a.ty)
            then (I.at a (type_width a.ty - 1) >>= λ sign. some (extended_bits a to sign))
            else none)
          ≡ some r
        → (r.ty ≡ to) × (r.value < 2 ^ type_width r.ty)
    run true g =
        let q : I.poison to ≡ r = cc in
        subst (λ (z : I.Bits). (z.ty ≡ to) × (z.value < 2 ^ type_width z.ty)) q
          (unfold I.poison in (refl, and-type_mask_lt to 0))
    run false g =
        let (pos, g') = if_then _ g in
        let (sign, read, final) =
          >>=-eq-some (I.at a (type_width a.ty - 1)) (λ s. some (extended_bits a to s)) g' in
        let q : extended_bits a to sign ≡ r = some_eq final in extended_bits-shape a to sign r q
