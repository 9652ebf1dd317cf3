-- ===== src/UsedBits/Demand/Runs.antt =====
-- `uses_of` against two runs of the interpreter that differ in bits that are not used.
use mathlib.Core.Path.{subst}
use native.Mathlib.Decide.{dec_lt}
use metajit_cpp.Types.{IrType, type_mask, type_width}
use metajit_cpp.Types.Masks.{bit-type_mask_lt}
use metajit_cpp.Ir.{
  Value, const, type_of, BinOp, add_inst, sub_inst, mul_inst, and_inst, or_inst, xor_inst, Op,
  select_inst, resize_u_inst, resize_x_inst, binary, NameMap,
}
use metajit_cpp.UsedBits.{Uses}
use metajit_cpp.UsedBits.Demand.{Agree}
use metajit_cpp.Interpreter as I
use metajit_cpp.Interpreter.Eval as IE
use metajit_cpp.KnownBits.Contains.{two_pow-le}
use metajit_cpp.Soundness.Typing.{IsOf}
use metajit_cpp.Word.Ops.{not64}
use metajit_cpp.Word.Bits.{bit, bit-zero}
use metajit_cpp.Word.Mask.{word_ext, bit_of_lt}
use metajit_cpp.Word.Word64.{bit_laws}
use metajit_cpp.Base.{
  ℕ, ◌<◌, ◌^◌, Bool, true, false, ◌||◌, [], ◌∷◌, Option, some, ◌≡◌, refl, sym, ap, ◌∙◌, bit_and,
  bit_or, ◌>>=◌, >>=-eq-some, some_eq, if◌then◌else◌, ◌==◌, ==→eq, arith,
}

-- In both runs the operand is a value of its type that is not poison, and they agree on the bits.
pub record SameUse (run run' : NameMap I.Bits) (v : Value) (m : ℕ) (x y : I.Bits) : Type 0 where
  pub live : (x.is_poison ≡ false) × (y.is_poison ≡ false)
  pub typed : IsOf (type_of v) x
  pub typed' : IsOf (type_of v) y
  pub agree : Agree m x.value y.value

unfoldable pub AllSame : NameMap I.Bits → NameMap I.Bits → Uses → Type 0
AllSame run run' [] = Unit {0}
AllSame run run' ((v, m) ∷ rest) =
    ((x y : I.Bits)
      → IE.at_value run v ≡ some x
      → IE.at_value run' v ≡ some y
      → SameUse run run' v m x y)
    × AllSame run run' rest

-- The assertion of the constructor `Const`.
unfoldable pub const_fits : Value → Bool
const_fits (const t c) = bit_and c (type_mask t) == c
const_fits _ = true

-- The instructions with a case of their own for the bits they use, the shifts excepted.
unfoldable pub demands : Op → Bool
unfolding const_fits
demands (resize_u_inst a) = true
demands (resize_x_inst a) = true
demands (select_inst c a b) = true
demands (binary and_inst a b) = true
demands (binary or_inst a b) = const_fits b
demands (binary xor_inst a b) = true
demands (binary add_inst a b) = true
demands (binary sub_inst a b) = true
demands (binary mul_inst a b) = true
demands _ = false

value-lt : (t : IrType) (x : I.Bits) → IsOf t x → x.value < 2 ^ 64
value-lt t x h = omega (arith, h.range, two_pow-le x.ty)

live_result : (p q : Bool) (r x : I.Bits) → p ≡ false → q ≡ false → (if p || q then r else x) ≡ x
live_result true q r x e f = cc
live_result false true r x e f = cc
live_result false false r x e f = refl

-- An operator on values that are not poison.
plain :
    (f : IrType → ℕ → ℕ → Option I.Bits) (x y p r : I.Bits)
    → x.is_poison ≡ false
    → y.is_poison ≡ false
    → f x.ty x.value y.value ≡ some p
    → I.propagating_binop f x y ≡ some r
    → p ≡ r
unfolding I.propagating_binop
plain f x y p r a b e h =
    let g : some (if x.is_poison || y.is_poison then I.poison p.ty else p) ≡ some r =
      ap
        (λ (o : Option I.Bits).
          o >>= λ z. some (if x.is_poison || y.is_poison then I.poison z.ty else z))
        (sym e)
      ∙ h in
    sym (live_result x.is_poison y.is_poison (I.poison p.ty) p a b) ∙ some_eq g

pub masked_Agree : (u x y m : ℕ) → Agree u x y → Agree u (bit_and x m) (bit_and y m)
unfolding Agree
masked_Agree u x y m h i e = omega (bit_laws, h i e)

pub zero_Agree : (u x y : ℕ) → (u == 0) ≡ true → Agree u x y
unfolding Agree
zero_Agree u x y h i e =
    let z : u ≡ 0 = ==→eq u 0 h in absurd (omega (arith, bit-zero i, ap (λ (w : ℕ). bit w i) z))

-- Values of a type that agree on all of its bits are one.
pub full_Agree :
    (t : IrType) (x y : I.Bits)
    → IsOf t x
    → IsOf t y
    → Agree (type_mask t) x.value y.value
    → x.value ≡ y.value
unfolding Agree
full_Agree t x y p q h =
    word_ext (type_width t) x.value y.value (subst (λ u. x.value < 2 ^ type_width u) p.ty p.range)
      (subst (λ u. y.value < 2 ^ type_width u) q.ty q.range) λ i l. h i (bit-type_mask_lt t i l)

pub and_const_Agree :
    (u c m x y : ℕ)
    → Agree (bit_and u c) x y
    → Agree u (bit_and x (bit_and c m)) (bit_and y (bit_and c m))
unfolding Agree
and_const_Agree u c m x y h i e = elim (dec_lt (bit c i) 1) [
  | yes p ↦ omega bit_laws
  | no p ↦ omega (bit_laws, h i (omega bit_laws))
]

pub or_const_Agree :
    (u c x y : ℕ)
    → u < 2 ^ 64
    → c < 2 ^ 64
    → Agree (bit_and u (not64 c)) x y
    → Agree u (bit_or x c) (bit_or y c)
unfolding Agree
or_const_Agree u c x y lu lc h i e = elim (dec_lt i 64) [
  | no q ↦ absurd (omega (arith, bit_of_lt 64 u i lu (omega arith)))
  | yes q ↦ elim (dec_lt (bit c i) 1) [
    | no p ↦ omega bit_laws
    | yes p ↦ omega (bit_laws, h i (omega bit_laws))
  ]
]

pub op_Agree :
    (f : IrType → ℕ → ℕ → Option I.Bits) (g : ℕ → ℕ → ℕ)
    → ((t : IrType) (v w : ℕ) → f t v w ≡ some (I.constant t (g v w)))
    → (used : ℕ) (t : IrType) (x y x' y' r r' : I.Bits)
    → (x.is_poison ≡ false) × (x'.is_poison ≡ false)
    → (y.is_poison ≡ false) × (y'.is_poison ≡ false)
    → IsOf t x
    → IsOf t x'
    → Agree used (g x.value y.value) (g x'.value y'.value)
    → I.propagating_binop f x y ≡ some r
    → I.propagating_binop f x' y' ≡ some r'
    → Agree used r.value r'.value
op_Agree f g fg used t x y x' y' r r' (lx, lx') (ly, ly') tx tx' h e e' =
    let p = plain f x y _ r lx ly (fg x.ty x.value y.value) e in
    let p' = plain f x' y' _ r' lx' ly' (fg x'.ty x'.value y'.value) e' in
    let same : x'.ty ≡ x.ty = tx'.ty ∙ sym tx.ty in
    subst (λ (z : I.Bits). Agree used z.value r'.value) p
      (subst (λ (z : I.Bits). Agree used (I.constant x.ty (g x.value y.value)).value z.value) p'
        (subst
          (λ u.
            Agree used (I.constant x.ty (g x.value y.value)).value
              (I.constant u (g x'.value y'.value)).value)
          (sym same) (unfold I.constant in masked_Agree used _ _ (type_mask x.ty) h)))

module _ (floats : IE.FloatUnit) (run run' : NameMap I.Bits) (t : IrType) (used : ℕ)
    (small : used < 2 ^ 64) (r r' : I.Bits) where
  -- Both runs of an operator on two operands, with what is used of each.
  pub both_runs :
      (o : BinOp) (a b : Value) (m n : ℕ)
      → AllSame run run' ((a, m) ∷ (b, n) ∷ [])
      → IE.eval floats run t (binary o a b) ≡ some r
      → IE.eval floats run' t (binary o a b) ≡ some r'
      → ((x y x' y' : I.Bits)
          → SameUse run run' a m x x'
          → SameUse run run' b n y y'
          → IE.eval_binary floats o x y ≡ some r
          → IE.eval_binary floats o x' y' ≡ some r'
          → Agree used r.value r'.value)
      → Agree used r.value r'.value
  unfolding AllSame IE.eval
  both_runs o a b m n (sa, (sb, _)) e e' h =
      let (x, fx, e1) = >>=-eq-some (IE.at_value run a) _ e in
      let (y, fy, e2) = >>=-eq-some (IE.at_value run b) _ e1 in
      let (x', fx', e1') = >>=-eq-some (IE.at_value run' a) _ e' in
      let (y', fy', e2') = >>=-eq-some (IE.at_value run' b) _ e1' in
      h x y x' y' (sa x x' fx fx') (sb y y' fy fy') e2 e2'

  pub binary_Agree :
      (f : IrType → ℕ → ℕ → Option I.Bits) (g : ℕ → ℕ → ℕ) (o : BinOp)
      → ((v : IrType) (p q : ℕ) → f v p q ≡ some (I.constant v (g p q)))
      → IE.eval_binary floats o ≡ I.propagating_binop f
      → (a b : Value) (m n : ℕ)
      → ((x y x' y' : ℕ)
          → y < 2 ^ 64
          → y' < 2 ^ 64
          → Agree m x x'
          → Agree n y y'
          → Agree used (g x y) (g x' y'))
      → AllSame run run' ((a, m) ∷ (b, n) ∷ [])
      → IE.eval floats run t (binary o a b) ≡ some r
      → IE.eval floats run' t (binary o a b) ≡ some r'
      → Agree used r.value r'.value
  binary_Agree f g o fg q a b m n h s e e' = both_runs o a b m n s e e' λ x y x' y' sx sy d d'.
      op_Agree f g fg used (type_of a) x y x' y' r r' sx.live sy.live sx.typed sx.typed'
        (h x.value y.value x'.value y'.value (value-lt _ y sy.typed) (value-lt _ y' sy.typed')
          sx.agree sy.agree)
        (ap (λ (k : I.Bits → I.Bits → Option I.Bits). k x y) (sym q) ∙ d)
        (ap (λ (k : I.Bits → I.Bits → Option I.Bits). k x' y') (sym q) ∙ d')
