-- ===== src/UsedBits/Demand/Sound.antt =====
-- `UsedBits` against `Interpreter`: the uses of an instruction in two runs.
use mathlib.Core.Path.{subst}
use metajit_cpp.Types.{IrType, type_mask}
use metajit_cpp.Ir.{
  Value, const, poison, symbol, named, type_of, BinOp, add_inst, sub_inst, mul_inst, and_inst,
  or_inst, xor_inst, Op, select_inst, resize_u_inst, resize_x_inst, binary, NameMap,
}
use metajit_cpp.UsedBits.{Uses, uses_of, uses_of_and, uses_of_or}
use metajit_cpp.UsedBits.Demand.{
  Agree, and_Agree, or_Agree, xor_Agree, add_Agree, mul_Agree, sub_Agree,
}
use metajit_cpp.UsedBits.Demand.Runs.{
  AllSame, const_fits, demands, op_Agree, binary_Agree, masked_Agree, zero_Agree, full_Agree,
  and_const_Agree, or_const_Agree,
}
use metajit_cpp.Interpreter as I
use metajit_cpp.Interpreter.Eval as IE
use metajit_cpp.KnownBits.Contains.{and-type_mask_lt, two_pow-le}
use metajit_cpp.Word.Ops.{not64, add64, sub64, mul64}
use metajit_cpp.Base.{
  ℕ, ◌<◌, ◌^◌, Bool, true, false, not, [], ◌∷◌, Option, some, ◌≡◌, refl, sym, ap, ◌∙◌, inl, inr,
  bit_and, bit_or, bit_xor, ◌>>=◌, >>=-eq-some, some_eq, if◌then◌else◌, ◌==◌, ==→eq, Bool-cases,
  arith,
}

module _ (floats : IE.FloatUnit) (run run' : NameMap I.Bits) (t : IrType) (used : ℕ)
    (small : used < 2 ^ 64) (r r' : I.Bits) where
  Ran : Op → Type 0
  Ran op = (IE.eval floats run t op ≡ some r) × (IE.eval floats run' t op ≡ some r')

  -- An operator whose second operand is a constant.
  const_Agree :
      (f : IrType → ℕ → ℕ → Option I.Bits) (g : ℕ → ℕ → ℕ) (o : BinOp)
      → ((v : IrType) (p q : ℕ) → f v p q ≡ some (I.constant v (g p q)))
      → IE.eval_binary floats o ≡ I.propagating_binop f
      → (a : Value) (u : IrType) (c m n : ℕ)
      → ((x x' : ℕ)
          → Agree m x x'
          → Agree used (g x (bit_and c (type_mask u))) (g x' (bit_and c (type_mask u))))
      → AllSame run run' ((a, m) ∷ (const u c, n) ∷ [])
      → Ran (binary o a (const u c))
      → Agree used r.value r'.value
  unfolding AllSame IE.eval IE.at_value Ran I.constant
  const_Agree f g o fg q a u c m n h (sa, sb) (e, e') =
      let (x, fx, d) = >>=-eq-some (IE.at_value run a) _ e in
      let (x', fx', d') = >>=-eq-some (IE.at_value run' a) _ e' in
      let sx = sa x x' fx fx' in
      op_Agree f g fg used (type_of a) x (I.constant u c) x' (I.constant u c) r r' sx.live
        (refl, refl) sx.typed sx.typed' (h x.value x'.value sx.agree)
        (ap (λ (k : I.Bits → I.Bits → Option I.Bits). k x (I.constant u c)) (sym q) ∙ d)
        (ap (λ (k : I.Bits → I.Bits → Option I.Bits). k x' (I.constant u c)) (sym q) ∙ d')

  and_demand :
      (a b : Value)
      → AllSame run run' (uses_of_and a b used)
      → Ran (binary and_inst a b)
      → Agree used r.value r'.value
  unfolding uses_of_and Ran IE.eval_binary I.and_bits
  and_demand a (const u c) s e =
      const_Agree I.and_expr bit_and and_inst (λ v p q. refl) refl a u c (bit_and used c) used
        (λ x x' h. and_const_Agree used c (type_mask u) x x' h) s e
  and_demand a (named n u) s (e, e') =
      binary_Agree floats run run' t used small r r' I.and_expr bit_and and_inst (λ v p q. refl)
        refl a (named n u) used used (λ x y x' y' l l' h k. and_Agree used x x' y y' small h k) s e
        e'
  and_demand a (poison u) s (e, e') =
      binary_Agree floats run run' t used small r r' I.and_expr bit_and and_inst (λ v p q. refl)
        refl a (poison u) used used (λ x y x' y' l l' h k. and_Agree used x x' y y' small h k) s e
        e'
  and_demand a (symbol u n) s (e, e') =
      binary_Agree floats run run' t used small r r' I.and_expr bit_and and_inst (λ v p q. refl)
        refl a (symbol u n) used used (λ x y x' y' l l' h k. and_Agree used x x' y y' small h k) s e
        e'

  or_demand :
      (a b : Value)
      → const_fits b ≡ true
      → AllSame run run' (uses_of_or a b used)
      → Ran (binary or_inst a b)
      → Agree used r.value r'.value
  unfolding uses_of_or Ran IE.eval_binary I.or_bits const_fits
  or_demand a (const u c) w s e =
      let fits : bit_and c (type_mask u) ≡ c = ==→eq _ c w in
      let small_c : c < 2 ^ 64 =
        subst (λ (z : ℕ). z < 2 ^ 64) fits (omega (arith, and-type_mask_lt u c, two_pow-le u)) in
      const_Agree I.or_expr bit_or or_inst (λ v p q. refl) refl a u c (bit_and used (not64 c)) used
        (λ x x' h. rw fits (or_const_Agree used c x x' small small_c h)) s e
  or_demand a (named n u) w s (e, e') =
      binary_Agree floats run run' t used small r r' I.or_expr bit_or or_inst (λ v p q. refl) refl a
        (named n u) used used (λ x y x' y' l l' h k. or_Agree used x x' y y' small h k) s e e'
  or_demand a (poison u) w s (e, e') =
      binary_Agree floats run run' t used small r r' I.or_expr bit_or or_inst (λ v p q. refl) refl a
        (poison u) used used (λ x y x' y' l l' h k. or_Agree used x x' y y' small h k) s e e'
  or_demand a (symbol u n) w s (e, e') =
      binary_Agree floats run run' t used small r r' I.or_expr bit_or or_inst (λ v p q. refl) refl a
        (symbol u n) used used (λ x y x' y' l l' h k. or_Agree used x x' y y' small h k) s e e'

  resized :
      (x y : I.Bits)
      → (x.is_poison ≡ false) × (y.is_poison ≡ false)
      → Agree used x.value y.value
      → I.resize_u x t ≡ r
      → I.resize_u y t ≡ r'
      → Agree used r.value r'.value
  unfolding I.resize_u I.constant
  resized x y (lx, ly) h e e' =
      subst (λ (z : I.Bits). Agree used z.value r'.value) (rw lx at e)
        (subst (λ (z : I.Bits). Agree used (I.constant t x.value).value z.value) (rw ly at e')
          (unfold I.constant in masked_Agree used _ _ (type_mask t) h))

  resize_demand :
      (a : Value)
      → AllSame run run' ((a, used) ∷ [])
      → (IE.at_value run a >>= λ x. some (I.resize_u x t)) ≡ some r
      → (IE.at_value run' a >>= λ x. some (I.resize_u x t)) ≡ some r'
      → Agree used r.value r'.value
  unfolding AllSame
  resize_demand a (sa, _) e e' =
      let (x, f, g) = >>=-eq-some (IE.at_value run a) _ e in
      let (x', f', g') = >>=-eq-some (IE.at_value run' a) _ e' in
      let s = sa x x' f f' in resized x x' s.live s.agree (some_eq g) (some_eq g')

  chosen :
      (p q x y x' y' : I.Bits)
      → p.is_poison ≡ false
      → q.is_poison ≡ false
      → p.value ≡ q.value
      → Agree used x.value x'.value
      → Agree used y.value y'.value
      → I.select p x y ≡ r
      → I.select q x' y' ≡ r'
      → Agree used r.value r'.value
  unfolding I.select
  chosen p q x y x' y' lp lq v hx hy e e' =
      either (not (q.value == 0)) (rw (lp, v) at e) (rw lq at e')
    where
      either :
          (k : Bool)
          → (if k then x else y) ≡ r
          → (if k then x' else y') ≡ r'
          → Agree used r.value r'.value
      either true d d' =
          subst (λ (z : I.Bits). Agree used z.value r'.value) d
            (subst (λ (z : I.Bits). Agree used x.value z.value) d' hx)
      either false d d' =
          subst (λ (z : I.Bits). Agree used z.value r'.value) d
            (subst (λ (z : I.Bits). Agree used y.value z.value) d' hy)

  select_demand :
      (c a b : Value)
      → AllSame run run' (
          if not (used == 0)
          then (c, type_mask (type_of c)) ∷ (a, used) ∷ (b, used) ∷ []
          else (a, used) ∷ (b, used) ∷ [])
      → Ran (select_inst c a b)
      → Agree used r.value r'.value
  unfolding AllSame Ran IE.eval
  select_demand c a b s (e, e') = elim (Bool-cases (used == 0)) [
    | inl y ↦ zero_Agree used r.value r'.value y
    | inr n ↦
        let (p, fp, e1) = >>=-eq-some (IE.at_value run c) _ e in
        let (x, fx, e2) = >>=-eq-some (IE.at_value run a) _ e1 in
        let (y, fy, e3) = >>=-eq-some (IE.at_value run b) _ e2 in
        let (q, fq, d1) = >>=-eq-some (IE.at_value run' c) _ e' in
        let (x', fx', d2) = >>=-eq-some (IE.at_value run' a) _ d1 in
        let (y', fy', d3) = >>=-eq-some (IE.at_value run' b) _ d2 in
        let all : AllSame run run' ((c, type_mask (type_of c)) ∷ (a, used) ∷ (b, used) ∷ []) =
          rw n at s in
        let sc = all.0 p q fp fq in
        chosen p q x y x' y' sc.live.0 sc.live.1
          (full_Agree (type_of c) p q sc.typed sc.typed' sc.agree) (all.1.0 x x' fx fx').agree
          (all.1.1.0 y y' fy fy').agree (some_eq e3) (some_eq d3)
  ]

  -- What `UsedBits` asks of the operands is enough, for ResizeU, ResizeX, Select, And, Or, Xor,
  -- Add, Sub and Mul, the cases of And and Or with a constant (one that fits its type, for Or)
  -- included: take two runs in which every operand that is asked for is a value of its type and
  -- not poison, and agrees on the bits asked for. If the interpreter gives the instruction a value
  -- in both, then the two values agree on the used bits of the result.
  pub demand_sound :
      (op : Op) (uses : Uses)
      → demands op ≡ true
      → uses_of t op used ≡ some uses
      → AllSame run run' uses
      → IE.eval floats run t op ≡ some r
      → IE.eval floats run' t op ≡ some r'
      → Agree used r.value r'.value
  unfolding demands uses_of IE.eval Ran IE.eval_binary I.xor_bits I.add I.sub I.mul I.resize_x
  demand_sound (resize_u_inst a) uses w u s e e' =
      resize_demand a (subst (AllSame run run') (sym (some_eq u)) s) e e'
  demand_sound (resize_x_inst a) uses w u s e e' =
      resize_demand a (subst (AllSame run run') (sym (some_eq u)) s) e e'
  demand_sound (select_inst c a b) uses w u s e e' =
      select_demand c a b (subst (AllSame run run') (sym (some_eq u)) s) (e, e')
  demand_sound (binary and_inst a b) uses w u s e e' =
      and_demand a b (subst (AllSame run run') (sym (some_eq u)) s) (e, e')
  demand_sound (binary or_inst a b) uses w u s e e' =
      or_demand a b w (subst (AllSame run run') (sym (some_eq u)) s) (e, e')
  demand_sound (binary xor_inst a b) uses w u s e e' =
      binary_Agree floats run run' t used small r r' I.xor_expr bit_xor xor_inst (λ v p q. refl)
        refl a b _ _ (λ x y x' y' l l' h k. xor_Agree used x x' y y' small h k)
        (subst (AllSame run run') (sym (some_eq u)) s) e e'
  demand_sound (binary add_inst a b) uses w u s e e' =
      binary_Agree floats run run' t used small r r' I.add_expr add64 add_inst (λ v p q. refl) refl
        a b _ _ (λ x y x' y' l l' h k. add_Agree used x x' y y' small h k)
        (subst (AllSame run run') (sym (some_eq u)) s) e e'
  demand_sound (binary sub_inst a b) uses w u s e e' =
      binary_Agree floats run run' t used small r r' I.sub_expr sub64 sub_inst (λ v p q. refl) refl
        a b _ _ (λ x y x' y' l l' h k. sub_Agree used x x' y y' small l l' h k)
        (subst (AllSame run run') (sym (some_eq u)) s) e e'
  demand_sound (binary mul_inst a b) uses w u s e e' =
      binary_Agree floats run run' t used small r r' I.mul_expr mul64 mul_inst (λ v p q. refl) refl
        a b _ _ (λ x y x' y' l l' h k. mul_Agree used x x' y y' small h k)
        (subst (AllSame run run') (sym (some_eq u)) s) e e'
  demand_sound _ uses w u s e e' = cc
