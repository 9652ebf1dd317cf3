-- ===== src/Soundness/Eval.antt =====
-- `KnownBits::Bits::eval` against the interpreter, for a whole instruction.
use mathlib.Core.Path.{subst}
use mathlib.Core.Bool.{and-eq-true_iff}
use metajit_cpp.Types.{IrType, ptr, type_width, is_int, same_type}
use metajit_cpp.Ir.{
  Value, type_of, BinOp, Op, freeze_inst, promote_inst, assume_const_inst, select_inst,
  resize_u_inst, resize_s_inst, resize_x_inst, ptr_to_int_inst, binary, args_of, NameMap,
}
use metajit_cpp.Ir.Checks.{op_checks, binary_type, same_type→eq, is_int_facts}
use metajit_cpp.KnownBits as K
use metajit_cpp.KnownBits.Contains.{and-type_mask_lt}
use metajit_cpp.KnownBits.Eval as KE
use metajit_cpp.KnownBits.Consts.{unknown-Contains}
use metajit_cpp.Interpreter as I
use metajit_cpp.Interpreter.Eval as IE
use metajit_cpp.Soundness.Relation.{Approximates, label_of_not_bool}
use metajit_cpp.Soundness.Typing.{IsOf, eval_binary-IsOf, constant-IsOf}
use metajit_cpp.Soundness.Unary.{select_sound, resize_u_sound, resize_x_sound}
use metajit_cpp.Soundness.Extend.{resize_s_sound, resize_s-shape}
use metajit_cpp.Soundness.Instructions.{eval_binary_sound}
use metajit_cpp.Base.{
  ◌<◌, ◌^◌, Bool, true, false, some, none, List, [], ◌∷◌, ◌≡◌, refl, sym, ◌∙◌, inl, ◌>>=◌,
  >>=-eq-some, some_eq, if◌then◌else◌, not, ◌==◌,
}

-- The operand `v` has a value of its type, which its known bits approximate.
pub record Tracked (values : NameMap K.Bits) (run : NameMap I.Bits) (v : Value) : Type 0 where
  pub typed : (r : I.Bits) → IE.at_value run v ≡ some r → IsOf (type_of v) r
  pub approximated :
      (k : K.Bits) (r : I.Bits)
      → KE.at_value values v ≡ some k
      → IE.at_value run v ≡ some r
      → Approximates k r

unfoldable pub AllTracked : NameMap K.Bits → NameMap I.Bits → List Value → Type 0
AllTracked values run [] = Unit {0}
AllTracked values run (v ∷ rest) = Tracked values run v × AllTracked values run rest

-- The instructions whose known bits are claimed to be right: not `freeze`, and not the sign
-- extension of a Bool.
unfoldable pub tracks : Op → Bool
unfolding is_int type_of
tracks (freeze_inst a) = false
tracks (resize_s_inst a) = is_int (type_of a)
tracks _ = true

retype : (t u : IrType) (r : I.Bits) → same_type t u ≡ true → IsOf u r → IsOf t r
retype t u r h = subst (λ z. IsOf z r) (sym (same_type→eq t u h))

pub poison-IsOf : (t : IrType) → IsOf t (I.poison t)
unfolding I.poison
poison-IsOf t = record { ty = refl; range = and-type_mask_lt t 0 }

freeze-IsOf : (t : IrType) (x : I.Bits) → IsOf t x → IsOf t (I.freeze x)
unfolding I.freeze
freeze-IsOf t x h = either x.is_poison
  where
    either : (p : Bool) → IsOf t (if p then I.constant x.ty 0 else x)
    either true = subst (λ z. IsOf z (I.constant x.ty 0)) h.ty (constant-IsOf x.ty 0)
    either false = h

select-IsOf : (t : IrType) (z x y : I.Bits) → IsOf t x → IsOf t y → IsOf t (I.select z x y)
unfolding I.select
select-IsOf t z x y h k = either z.is_poison (not (z.value == 0))
  where
    either : (p q : Bool) → IsOf t (if p then I.poison x.ty else if q then x else y)
    either true q = subst (λ u. IsOf u (I.poison x.ty)) h.ty (poison-IsOf x.ty)
    either false true = h
    either false false = k

pub resize_u-IsOf : (t : IrType) (x : I.Bits) → IsOf t (I.resize_u x t)
unfolding I.resize_u
resize_u-IsOf t x = either x.is_poison
  where
    either : (p : Bool) → IsOf t (if p then I.poison t else I.constant t x.value)
    either true = poison-IsOf t
    either false = constant-IsOf t x.value

some-Is : (t : IrType) (x r : I.Bits) → IsOf t x → some x ≡ some r → IsOf t r
some-Is t x r h e = let q : x ≡ r = cc in subst (IsOf t) q h

same : (k : K.Bits) (x r : I.Bits) → Approximates k x → some x ≡ some r → Approximates k r
same k x r h e = let q : x ≡ r = cc in subst (Approximates k) q h

both :
    (k k' : K.Bits) (x r : I.Bits)
    → Approximates k x
    → some k ≡ some k'
    → some x ≡ some r
    → Approximates k' r
both k k' x r h d e =
    let q : k ≡ k' = cc in subst (λ (z : K.Bits). Approximates z r) q (same k x r h e)

pub unknown-Approximates : (t : IrType) (r : I.Bits) → IsOf t r → Approximates (K.known t 0 0) r
unfolding K.known
unknown-Approximates t r h = record {
  label = inl (sym h.ty);
  in_type = h.range;
  contained = λ _.
      unfold K.known in
      unknown-Contains t r.value (subst (λ u. r.value < 2 ^ type_width u) h.ty h.range);
}

module _ (floats : IE.FloatUnit) (values : NameMap K.Bits) (run : NameMap I.Bits) (t : IrType)
    (r : I.Bits) where
  -- Type preservation: if an instruction that computes a value passes its type checks and its
  -- operands have values of their types, which their known bits approximate, then a value that the
  -- interpreter gives it, also a poisoned one, has the instruction's type and fits its width.
  pub eval-IsOf :
      (op : Op)
      → op_checks t op ≡ true
      → AllTracked values run (args_of op)
      → IE.eval floats run t op ≡ some r
      → IsOf t r
  unfolding op_checks args_of AllTracked IE.eval
  eval-IsOf (promote_inst a) c (p, _) e = retype t (type_of a) r c (p.typed r e)
  eval-IsOf (assume_const_inst a) c (p, _) e = retype t (type_of a) r c (p.typed r e)
  eval-IsOf (freeze_inst a) c (p, _) e =
      let (x, f, g) = >>=-eq-some (IE.at_value run a) _ e in
      some-Is t _ r (freeze-IsOf t x (retype t (type_of a) x c (p.typed x f))) g
  eval-IsOf (select_inst z a b) c (pz, (pa, (pb, _))) e =
      let (c0, cs) = (and-eq-true_iff _ _).0 c in
      let (_, c1) = (and-eq-true_iff _ _).0 cs in
      let (vz, _, ez) = >>=-eq-some (IE.at_value run z) _ e in
      let (va, fa, ea) = >>=-eq-some (IE.at_value run a) _ ez in
      let (vb, fb, eb) = >>=-eq-some (IE.at_value run b) _ ea in
      some-Is t _ r
        (select-IsOf t vz va vb (retype t (type_of a) va c0 (pa.typed va fa))
          (retype t (type_of a) vb c0 (retype (type_of a) (type_of b) vb c1 (pb.typed vb fb))))
        eb
  eval-IsOf (resize_u_inst a) c p e =
      let (x, f, g) = >>=-eq-some (IE.at_value run a) _ e in some-Is t _ r (resize_u-IsOf t x) g
  eval-IsOf (resize_x_inst a) c p e =
      let (x, f, g) = >>=-eq-some (IE.at_value run a) _ e in
      some-Is t _ r (unfold I.resize_x in resize_u-IsOf t x) g
  eval-IsOf (resize_s_inst a) c p e =
      let (x, f, g) = >>=-eq-some (IE.at_value run a) _ e in
      let (u, w) = resize_s-shape x t r g in record { ty = u; range = w }
  eval-IsOf (ptr_to_int_inst a) c p e =
      let (x, f, g) = >>=-eq-some (IE.at_value run a) _ e in
      ptr_to_int-IsOf x (same_type x.ty ptr) (unfold I.ptr_to_int in g)
    where
      ptr_to_int-IsOf :
          (x : I.Bits) (q : Bool)
          → (if q then some (I.constant t x.value) else none) ≡ some r
          → IsOf t r
      ptr_to_int-IsOf x true h = some-Is t _ r (constant-IsOf t x.value) h
      ptr_to_int-IsOf x false h = cc
  eval-IsOf (binary o a b) c (pa, (pb, _)) e =
      let (c0, c1) = (and-eq-true_iff _ _).0 c in
      let (va, fa, ea) = >>=-eq-some (IE.at_value run a) _ e in
      let (vb, fb, eb) = >>=-eq-some (IE.at_value run b) _ ea in
      let ta = (pa.typed va fa).ty in
      let tb = (pb.typed vb fb).ty in
      retype t (binary_type o (type_of a)) r c0 (
        subst (λ u. IsOf (binary_type o u) r) ta
          (eval_binary-IsOf va vb r floats o (rw (ta, tb) c1) eb))
  eval-IsOf _ c p e = cc

  binary_known-Approximates :
      (o : BinOp) (a b : Value)
      → op_checks t (binary o a b) ≡ true
      → (f : Bool) → KE.is_folded o ≡ f
      → AllTracked values run (a ∷ b ∷ [])
      → (k : K.Bits)
      → (if f
          then KE.at_value values a
            >>= (λ ka. KE.at_value values b >>= λ kb. KE.eval_binary o t ka kb)
          else some (K.known t 0 0))
        ≡ some k
      → IE.eval floats run t (binary o a b) ≡ some r
      → Approximates k r
  unfolding op_checks IE.eval AllTracked args_of
  binary_known-Approximates o a b c true f (pa, (pb, _)) k h e =
      let (_, c1) = (and-eq-true_iff _ _).0 c in
      let (va, fa, ea) = >>=-eq-some (IE.at_value run a) _ e in
      let (vb, fb, eb) = >>=-eq-some (IE.at_value run b) _ ea in
      let (ka, ga, ha) = >>=-eq-some (KE.at_value values a) _ h in
      let (kb, gb, hb) = >>=-eq-some (KE.at_value values b) _ ha in
      eval_binary_sound ka kb va vb r (pa.approximated ka va ga fa) (pb.approximated kb vb gb fb)
        floats o t k (rw ((pa.typed va fa).ty, (pb.typed vb fb).ty) c1) f hb eb
  binary_known-Approximates o a b c false f p k h e =
      subst (λ (z : K.Bits). Approximates z r) (some_eq h)
        (unknown-Approximates t r (eval-IsOf (binary o a b) c p e))

  -- `KnownBits::Bits::eval` of one instruction of a class that computes a value from its operands
  -- alone, `freeze` and the sign extension of a Bool excepted: if it passes its type checks, each
  -- operand has a value of its type that the operand's known bits approximate, and both `eval` and
  -- the interpreter give a result, then the known bits of the result approximate the interpreter's
  -- value.
  pub eval_sound :
      (op : Op) (k : K.Bits)
      → op_checks t op ≡ true
      → tracks op ≡ true
      → AllTracked values run (args_of op)
      → KE.eval values t op ≡ some k
      → IE.eval floats run t op ≡ some r
      → Approximates k r
  unfolding op_checks tracks args_of AllTracked KE.eval IE.eval
  eval_sound (freeze_inst a) k c w p h e = cc
  eval_sound (promote_inst a) k c w (p, _) h e = p.approximated k r h e
  eval_sound (assume_const_inst a) k c w (p, _) h e = p.approximated k r h e
  eval_sound (select_inst z a b) k c w (pz, (pa, (pb, _))) h e =
      let (_, cs) = (and-eq-true_iff _ _).0 c in
      let (_, c1) = (and-eq-true_iff _ _).0 cs in
      let (vz, fz, ez) = >>=-eq-some (IE.at_value run z) _ e in
      let (va, fa, ea) = >>=-eq-some (IE.at_value run a) _ ez in
      let (vb, fb, eb) = >>=-eq-some (IE.at_value run b) _ ea in
      let (kz, gz, hz) = >>=-eq-some (KE.at_value values z) _ h in
      let (ka, ga, ha) = >>=-eq-some (KE.at_value values a) _ hz in
      let (kb, gb, hb) = >>=-eq-some (KE.at_value values b) _ ha in
      let ty : va.ty ≡ vb.ty =
        (pa.typed va fa).ty ∙ same_type→eq (type_of a) (type_of b) c1 ∙ sym (pb.typed vb fb).ty in
      both _ k _ r
        (select_sound kz ka kb vz va vb (pz.approximated kz vz gz fz) (pa.approximated ka va ga fa)
          (pb.approximated kb vb gb fb) ty)
        hb eb
  eval_sound (resize_u_inst a) k c w (p, _) h e =
      let (x, f, e') = >>=-eq-some (IE.at_value run a) _ e in
      let (kx, g, h') = >>=-eq-some (KE.at_value values a) _ h in
      both _ k _ r (resize_u_sound kx x (p.approximated kx x g f) t) h' e'
  eval_sound (resize_x_inst a) k c w (p, _) h e =
      let (x, f, e') = >>=-eq-some (IE.at_value run a) _ e in
      let (kx, g, h') = >>=-eq-some (KE.at_value values a) _ h in
      both _ k _ r (resize_x_sound kx x (p.approximated kx x g f) t) h' e'
  eval_sound (resize_s_inst a) k c w (p, _) h e =
      let (x, f, e') = >>=-eq-some (IE.at_value run a) _ e in
      let (kx, g, h') = >>=-eq-some (KE.at_value values a) _ h in
      let px = p.approximated kx x g f in
      let (n, _) = is_int_facts (type_of a) w in
      let ty : kx.ty ≡ x.ty =
        label_of_not_bool kx.ty x.ty (λ q. n (sym (p.typed x f).ty ∙ q)) px.label in
      resize_s_sound kx x px t ty k r h' e'
  eval_sound (binary o a b) k c w p h e =
      binary_known-Approximates o a b c (KE.is_folded o) refl p k h e
  eval_sound (ptr_to_int_inst a) k c w p h e =
      both _ k r r (unknown-Approximates t r (eval-IsOf (ptr_to_int_inst a) c p e)) h refl
  eval_sound _ k c w p h e = cc
