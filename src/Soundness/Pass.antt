-- ===== src/Soundness/Pass.antt =====
-- The pass of `KnownBits` over a block against a run of the interpreter through it.
use mathlib.Core.Path.{subst}
use mathlib.Core.Bool.{and-eq-true_iff}
use metajit_cpp.Types.{IrType}
use metajit_cpp.Ir.{Value, const, poison, symbol, named, type_of, NameMap, get, set}
use metajit_cpp.Ir.Checks.{same_type→eq}
use metajit_cpp.Ir.Scopes.{Scope, in_scope, is_declared, all_in_scope, get-set, set-size}
use metajit_cpp.KnownBits as K
use metajit_cpp.KnownBits.Eval as KE
use metajit_cpp.KnownBits.Consts.{constant-Contains}
use metajit_cpp.Interpreter as I
use metajit_cpp.Interpreter.Eval as IE
use metajit_cpp.Soundness.Relation.{Approximates}
use metajit_cpp.Soundness.Typing.{IsOf, constant-IsOf}
use metajit_cpp.Soundness.Unary.{constant-Approximates}
use metajit_cpp.Soundness.Eval.{Tracked, AllTracked, poison-IsOf, unknown-Approximates}
use metajit_cpp.Base.{
  ℕ, Bool, true, false, List, [], ◌∷◌, Option, some, none, ◌≡◌, refl, sym, ap, ◌∙◌, inl, inr,
  some_eq, if◌then◌else◌, ltb, ◌==◌, ==→eq, Bool-cases,
}

-- The names in scope have values of their types, which their known bits approximate.
unfoldable pub TracksScope : Scope → NameMap K.Bits → NameMap I.Bits → Type 0
TracksScope scope values run =
    (n : ℕ) (t : IrType) → scope n ≡ some t → Tracked values run (named n t)

declared_eq : (o : Option IrType) (t : IrType) → is_declared o t ≡ true → o ≡ some t
unfolding is_declared
declared_eq none t h = cc
declared_eq (some u) t h = ap some (same_type→eq u t h)

const-Tracked :
    (values : NameMap K.Bits) (run : NameMap I.Bits) (t : IrType) (v : ℕ)
    → Tracked values run (const t v)
unfolding KE.at_value IE.at_value type_of K.constant
const-Tracked values run t v = record {
  typed = λ r e. subst (IsOf t) (some_eq e) (constant-IsOf t v);
  approximated = λ k r h e. subst (Approximates k) (some_eq e) (
      subst (λ (z : K.Bits). Approximates z (I.constant t v)) (some_eq h)
        (constant-Approximates (K.constant t v) t v (unfold K.constant in refl)
          (constant-Contains t v)));
}

value-Tracked :
    (scope : Scope) (values : NameMap K.Bits) (run : NameMap I.Bits)
    → TracksScope scope values run
    → (v : Value) → in_scope scope v ≡ true
    → Tracked values run v
unfolding in_scope KE.at_value IE.at_value type_of TracksScope
value-Tracked scope values run p (named n t) h = p n t (declared_eq (scope n) t h)
value-Tracked scope values run p (const t v) h = const-Tracked values run t v
value-Tracked scope values run p (poison t) h = record {
  typed = λ r e. subst (IsOf t) (some_eq e) (poison-IsOf t);
  approximated = λ k r d e. cc;
}
value-Tracked scope values run p (symbol t s) h = record {
  typed = λ r e. cc;
  approximated = λ k r d e. cc;
}

pub args-Tracked :
    (scope : Scope) (values : NameMap K.Bits) (run : NameMap I.Bits)
    → TracksScope scope values run
    → (vs : List Value) → all_in_scope scope vs ≡ true
    → AllTracked values run vs
unfolding all_in_scope AllTracked
args-Tracked scope values run p [] h = tt
args-Tracked scope values run p (v ∷ vs) h =
    let (a, b) = (and-eq-true_iff _ _).0 h in
    (value-Tracked scope values run p v a, args-Tracked scope values run p vs b)

module _ (scope : Scope) (values values' : NameMap K.Bits) (run run' : NameMap I.Bits) (n : ℕ)
    (k : K.Bits) (p : TracksScope scope values run) (hk : set values n k ≡ some values') where
  -- Another name keeps its known bits.
  kept :
      (j : ℕ) (u : IrType)
      → (j == n) ≡ false
      → KE.at_value values' (named j u) ≡ KE.at_value values (named j u)
  unfolding KE.at_value
  kept j u e =
      let g : get values' j ≡ get values j = rw e at (get-set values values' n k hk j) in
      let z = (set-size values values' n k hk).0 in
      ap (λ (o : Option K.Bits). if ltb values'.size j then some (K.known u 0 0) else o) g
      ∙ ap (λ (c : ℕ). if ltb c j then some (K.known u 0 0) else get values j) z

  -- A name that is not in scope may get known bits.
  pub new_known : scope n ≡ none → TracksScope scope values' run
  unfolding TracksScope
  new_known h j u e = elim (Bool-cases (j == n)) [
    | inl y ↦
        let q : scope n ≡ some u = ap scope (sym (==→eq j n y)) ∙ e in
        let z : none ≡ some u = sym h ∙ q in cc
    | inr w ↦ record {
      typed = (p j u e).typed;
      approximated = λ k' r d g. (p j u e).approximated k' r (sym (kept j u w) ∙ d) g;
    }
  ]

  module _ (b : I.Bits) (hb : set run n b ≡ some run') (t : IrType) (tb : IsOf t b)
      (ab : Approximates k b) where
    new_name : (j : ℕ) → (j == n) ≡ true → (u : IrType) → t ≡ u → Tracked values' run' (named j u)
    unfolding KE.at_value IE.at_value type_of
    new_name j y u q =
        let gb : get run' j ≡ some b = rw y at (get-set run run' n b hb j) in
        let gk : get values' j ≡ some k = rw y at (get-set values values' n k hk j) in
        let is : (r : I.Bits) → get run' j ≡ some r → b ≡ r = λ r e. some_eq (sym gb ∙ e) in
        let typed_b : IsOf u b = subst (λ z. IsOf z b) q tb in
        record {
          typed = λ r e. subst (IsOf u) (is r e) typed_b;
          approximated = λ k' r d e.
              subst (Approximates k') (is r e) (either gk typed_b k' (ltb values'.size j) d);
        }
      where
        either :
            get values' j ≡ some k
            → IsOf u b
            → (k' : K.Bits) (c : Bool)
            → (if c then some (K.known u 0 0) else get values' j) ≡ some k'
            → Approximates k' b
        either gk tu k' true d =
            subst (λ (z : K.Bits). Approximates z b) (some_eq d) (unknown-Approximates u b tu)
        either gk tu k' false d = subst (λ (z : K.Bits). Approximates z b) (some_eq (sym gk ∙ d)) ab

    pub new_value : TracksScope (λ j. if j == n then some t else scope j) values' run'
    unfolding TracksScope KE.at_value IE.at_value
    new_value j u e = elim (Bool-cases (j == n)) [
      | inl y ↦ new_name j y u (some_eq (rw y at e))
      | inr w ↦
          let old = p j u (rw w at e) in
          let same : get run' j ≡ get run j = rw w at (get-set run run' n b hb j) in
          record {
            typed = λ r g. old.typed r (sym same ∙ g);
            approximated = λ k' r d g. old.approximated k' r (sym (kept j u w) ∙ d) (sym same ∙ g);
          }
    ]
