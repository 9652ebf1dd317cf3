-- ===== src/Soundness/Body.antt =====
-- The loop of `KnownBits` over the instructions of a block, and `run_for` of the interpreter.
use mathlib.Core.Path.{subst}
use mathlib.Core.Bool.{and-eq-true_iff}
use metajit_cpp.Types.{IrType}
use metajit_cpp.Ir.{Op, comment_inst, Inst, Block, NameMap, set, args_of}
use metajit_cpp.Ir.Scopes.{
  Scope, is_comment, declare, is_new, inst_checks, body_checks, scope_after,
}
use metajit_cpp.KnownBits as K
use metajit_cpp.KnownBits.Eval as KE
use metajit_cpp.Interpreter.Machine.{
  Machine, Host, Event, none_event, is_exit, step_inst, step_at, step, run_for,
}
use metajit_cpp.Soundness.Eval.{tracks}
use metajit_cpp.Soundness.Step.{step_inst-Gives}
use metajit_cpp.Soundness.Pass.{TracksScope, args-Tracked, new_known, new_value}
use metajit_cpp.Base.{
  Bool, true, false, not, ◌&&◌, List, [], ◌∷◌, ◌++◌, length, Option, some, none, ◌≡◌, refl, sym, ap,
  ◌∙◌, inl, inr, >>=-eq-some, some_eq, Bool-cases,
}

unfoldable pub all_track : List Inst → Bool
unfolding tracks
all_track [] = true
all_track (inst ∷ rest) = tracks inst.op && all_track rest

new_name-eq : (o : Option IrType) → is_new o ≡ true → o ≡ none
unfolding is_new
new_name-eq none h = refl
new_name-eq (some t) h = cc

not_eq : (c : Bool) → not c ≡ true → c ≡ false
not_eq false h = refl
not_eq true h = cc

module _ (host : Host) (blocks : List Block) where
  -- A comment changes no value.
  comment_step :
      (inst : Inst) (op : Op) (rest : List Inst) (m : Machine) (s : Machine × Event)
      → is_comment op ≡ true
      → step_inst host blocks inst op rest m ≡ some s
      → (record m { insts = rest }, none_event) ≡ s
  unfolding is_comment step_inst
  comment_step inst comment_inst rest m s h e = some_eq e
  comment_step inst _ rest m s h e = cc

  -- What holds after an instruction of the body.
  pub record After (scope : Scope) (values : NameMap K.Bits) (rest : List Inst)
      (s : Machine × Event) : Type 0 where
    pub moved : s.0.insts ≡ rest
    pub quiet : s.1 ≡ none_event
    pub tracked : TracksScope scope values s.0.values

  module _ (scope : Scope) (values values' : NameMap K.Bits) (inst : Inst) (rest : List Inst)
      (m : Machine) (s : Machine × Event) (k : K.Bits) where
    one_step :
        inst_checks scope inst ≡ true
        → tracks inst.op ≡ true
        → TracksScope scope values m.values
        → KE.eval values inst.ty inst.op ≡ some k
        → set values inst.name k ≡ some values'
        → step_inst host blocks inst inst.op rest m ≡ some s
        → After (declare scope inst.name inst.ty inst.op) values' rest s
    unfolding inst_checks declare TracksScope
    one_step c w p h hk e =
        let (c0, c1) = (and-eq-true_iff _ _).0 c in
        let (c2, c3) = (and-eq-true_iff _ _).0 c1 in
        let (c4, c5) = (and-eq-true_iff _ _).0 c3 in
        elim (Bool-cases (is_comment inst.op)) [
          | inl y ↦
              let q = comment_step inst inst.op rest m s y e in
              subst (After (declare scope inst.name inst.ty inst.op) values' rest) q (record {
                moved = refl;
                quiet = refl;
                tracked = λ j u d.
                    new_known scope values values' m.values m.values inst.name k p hk
                      (new_name-eq _ c5) j u (rw y at d);
              })
          | inr n ↦
              let g =
                step_inst-Gives host blocks values inst rest m s inst.op c0 w (not_eq _ c2) n
                  (args-Tracked scope values m.values p (args_of inst.op) c4) e in
              record {
                moved = g.moved;
                quiet = g.quiet;
                tracked = λ j u d.
                    new_value scope values values' m.values s.0.values inst.name k p hk g.result
                      g.stored inst.ty g.typed (g.approximated k h) j u (rw n at d);
              }
        ]

  no_exit : (e : Event) → e ≡ none_event → is_exit e ≡ false
  unfolding is_exit
  no_exit e h = subst (λ z. is_exit z ≡ false) (sym h) refl

  step_of :
      (m : Machine) (inst : Inst) (tail : List Inst)
      → m.insts ≡ inst ∷ tail
      → step host blocks m ≡ step_inst host blocks inst inst.op tail m
  unfolding step step_at
  step_of m inst tail h = ap (λ (is : List Inst). step_at host blocks is m) h

  -- The pass of `KnownBits` over the instructions of a block, against `run_for` of the interpreter
  -- with one step for each of them. The instructions pass their type checks, end before the
  -- terminator, use names in scope and have new names; none is a `freeze`, or a sign extension of
  -- a Bool. If before them each name in scope has a value of its declared type that its known bits
  -- approximate, and both the pass and the run go through without a failed assertion or undefined
  -- behaviour, then the run ends without an event, the interpreter stands at the instructions that
  -- follow, and every name in scope, the new ones included, has a value of its declared type that
  -- the known bits that the pass has stored approximate.
  pub body_sound :
      (insts tail : List Inst) (scope : Scope) (values values' : NameMap K.Bits) (m : Machine)
      (s : Machine × Event)
      → body_checks scope insts ≡ true
      → all_track insts ≡ true
      → m.insts ≡ insts ++ tail
      → TracksScope scope values m.values
      → KE.eval_insts insts values ≡ some values'
      → run_for host blocks (length insts) m ≡ some s
      → After (scope_after scope insts) values' tail s
  unfolding body_checks all_track KE.eval_insts run_for scope_after
  body_sound [] tail scope values values' m s c w i p h e =
      subst (After scope values' tail) (some_eq e) (record {
        moved = i;
        quiet = refl;
        tracked = subst (λ (z : NameMap K.Bits). TracksScope scope z m.values) (some_eq h) p;
      })
  body_sound (inst ∷ rest) tail scope values values' m s c w i p h e =
      let (c0, c1) = (and-eq-true_iff _ _).0 c in
      let (w0, w1) = (and-eq-true_iff _ _).0 w in
      let (k, hk, h1) = >>=-eq-some (KE.eval values inst.ty inst.op) _ h in
      let (mid, hm, h2) = >>=-eq-some (set values inst.name k) _ h1 in
      let (st, es, e1) = >>=-eq-some (step host blocks m) _ e in
      let a =
        one_step scope values mid inst (rest ++ tail) m st k c0 w0 p hk hm
          (sym (step_of m inst (rest ++ tail) i) ∙ es) in
      body_sound rest tail (declare scope inst.name inst.ty inst.op) mid values' st.0 s c1 w1
        a.moved a.tracked h2 (rw (no_exit st.1 a.quiet) at e1)
