-- ===== src/Passes/Stepped.antt =====
-- A step of the interpreter before and after `DeadCodeElim` (jitir.tmpl.hpp).
use mathlib.Core.Path.{subst}
use metajit_cpp.Types.{IrType, ptr}
use metajit_cpp.Ir.{
  Value, const, poison, symbol, named, Op, freeze_inst, promote_inst, assume_const_inst,
  select_inst, resize_u_inst, resize_s_inst, resize_x_inst, ptr_to_int_inst, binary, load_inst,
  store_inst, alloca_inst, branch_inst, jump_inst, exit_inst, comment_inst, Inst, Block, NameMap,
  get, set, args_of, has_side_effect, is_terminator,
}
use metajit_cpp.Ir.Scopes.{is_comment}
use metajit_cpp.Interpreter as I
use metajit_cpp.Interpreter.{constant}
use metajit_cpp.Interpreter.Eval.{FloatUnit, at_value, eval}
use metajit_cpp.Interpreter.Machine.{
  Machine, Event, none_event, Host, assign, step_inst, load, store, address, no_bits,
}
use metajit_cpp.Passes.DeadCode.{is_root}
use metajit_cpp.Passes.Closed.{ArgsMarked}
use metajit_cpp.Base.{
  ℕ, Bool, true, false, not, ◌&&◌, ◌==◌, ltb, List, [], ◌∷◌, ◌++◌, Option, none, some, ◌>>=◌,
  >>=-eq-some, some_eq, if◌then◌else◌, ◌≡◌, refl, sym, ◌∙◌, ==→eq, Bool-cases, inl, inr,
}

unfoldable pub is_alloca : Op → Bool
is_alloca (alloca_inst s) = true
is_alloca _ = false

module _ (is_inst : ℕ → Bool) (used : NameMap Bool) where
  -- Instructions before the end of a block; storage that is not marked is not allocated.
  unfoldable pub BodyOf : List Inst → Type 0
  unfolding is_terminator is_alloca
  BodyOf [] = Unit {0}
  BodyOf (inst ∷ rest) =
      (is_inst inst.name ≡ true)
      × (is_terminator inst.op ≡ false)
      × (is_alloca inst.op ≡ true → used.entry inst.name ≡ true)
      × BodyOf rest

  -- The values of arguments and of marked instructions are the same, and so is the memory.
  pub record Same (m m' : Machine) : Type 0 where
    pub sizes : m.values.size ≡ m'.values.size
    pub agree :
        (n : ℕ) → (is_inst n ≡ true → used.entry n ≡ true) → m.values.entry n ≡ m'.values.entry n
    pub memory : m.memory ≡ m'.memory
    pub storage : m.alloca_storage ≡ m'.alloca_storage

  module _ (m m' : Machine) (s : Same m m') where
    first_arg :
        (v : Value) (rest : List Value)
        → ArgsMarked is_inst used (v ∷ rest)
        → (at_value m.values v ≡ at_value m'.values v) × ArgsMarked is_inst used rest
    unfolding ArgsMarked at_value get
    first_arg (named n t) rest (p, q) = (rw (s.sizes, s.agree n p) refl, q)
    first_arg (const t v) rest p = (refl, p)
    first_arg (poison t) rest p = (refl, p)
    first_arg (symbol t k) rest p = (refl, p)

    eval_same :
        (floats : FloatUnit) (t : IrType) (op : Op)
        → ArgsMarked is_inst used (args_of op)
        → eval floats m.values t op ≡ eval floats m'.values t op
    unfolding eval args_of
    eval_same floats t (freeze_inst a) p = rw ((first_arg a [] p).0) refl
    eval_same floats t (promote_inst a) p = (first_arg a [] p).0
    eval_same floats t (assume_const_inst a) p = (first_arg a [] p).0
    eval_same floats t (select_inst c a b) p =
        let (e, q) = first_arg c (a ∷ b ∷ []) p in
        let (f, r) = first_arg a (b ∷ []) q in let (g, _) = first_arg b [] r in rw (e, f, g) refl
    eval_same floats t (resize_u_inst a) p = rw ((first_arg a [] p).0) refl
    eval_same floats t (resize_s_inst a) p = rw ((first_arg a [] p).0) refl
    eval_same floats t (resize_x_inst a) p = rw ((first_arg a [] p).0) refl
    eval_same floats t (ptr_to_int_inst a) p = rw ((first_arg a [] p).0) refl
    eval_same floats t (binary o a b) p =
        let (e, q) = first_arg a (b ∷ []) p in let (f, _) = first_arg b [] q in rw (e, f) refl
    eval_same floats t _ p = refl

  -- Both machines have moved on.
  pub record Stepped (rest rest' : List Inst) (s s' : Machine × Event) : Type 0 where
    pub same : Same s.0 s'.0
    pub insts : s.0.insts ≡ rest
    pub insts' : s'.0.insts ≡ rest'
    pub event : s.1 ≡ none_event
    pub event' : s'.1 ≡ none_event

  assign_same :
      (inst : Inst) (rest rest' : List Inst) (m m' : Machine) (b : I.Bits) (s : Machine × Event)
      → Same m m'
      → assign inst rest m b ≡ some s
      → (s' : Machine × Event) × (assign inst rest' m' b ≡ some s') × Stepped rest rest' s s'
  unfolding assign set
  assign_same inst rest rest' m m' b s h e = elim (Bool-cases (ltb inst.name m.values.size)) [
    | inl l ↦
        let l' : ltb inst.name m'.values.size ≡ true = rw h.sizes at l in
        let t : Machine × Event = (
          record m' {
            values = record m'.values {
              entry = λ k. if k == inst.name then b else m'.values.entry k;
            };
            insts = rest';
          },
          none_event,
        ) in
        (
          t,
          rw l' refl,
          subst (λ (z : Machine × Event). Stepped rest rest' z t) (some_eq (rw l at e))
              record {
                same = record {
                  sizes = h.sizes;
                  agree = λ n v. elim (Bool-cases (n == inst.name)) [
                    | inl k ↦ rw k refl
                    | inr k ↦ rw k (h.agree n v)
                  ];
                  memory = h.memory;
                  storage = h.storage;
                };
                insts = refl;
                insts' = refl;
                event = refl;
                event' = refl;
              },
        )
    | inr l ↦ let f : none ≡ some s = rw l at e in cc
  ]

  -- A value that is not marked.
  assign_dead :
      (inst : Inst) (rest : List Inst) (m m' : Machine) (b : I.Bits) (s : Machine × Event)
      → is_inst inst.name ≡ true
      → used.entry inst.name ≡ false
      → Same m m'
      → assign inst rest m b ≡ some s
      → Same s.0 m' × (s.0.insts ≡ rest) × (s.1 ≡ none_event)
  unfolding assign set
  assign_dead inst rest m m' b s i u h e = elim (Bool-cases (ltb inst.name m.values.size)) [
    | inl l ↦
        subst (λ (z : Machine × Event). Same z.0 m' × (z.0.insts ≡ rest) × (z.1 ≡ none_event))
          (some_eq (rw l at e))
          (
            record {
              sizes = h.sizes;
              agree = λ n v. elim (Bool-cases (n == inst.name)) [
                | inl k ↦
                    let f : used.entry inst.name ≡ true =
                      subst (λ j. is_inst j ≡ true → used.entry j ≡ true) (==→eq n inst.name k) v
                        i in
                    cc
                | inr k ↦ rw k (h.agree n v)
              ];
              memory = h.memory;
              storage = h.storage;
            },
            refl,
            refl,
          )
    | inr l ↦ let f : none ≡ some s = rw l at e in cc
  ]

  module _ (host : Host) (blocks : List Block) (inst : Inst) (rest rest' : List Inst)
      (m m' : Machine) (h : Same m m') where
    evaluated :
        (o o' : Option I.Bits) (s : Machine × Event)
        → o ≡ o'
        → (o >>= λ b. assign inst rest m b) ≡ some s
        → (s' : Machine × Event) × ((o' >>= λ b. assign inst rest' m' b) ≡ some s')
          × Stepped rest rest' s s'
    evaluated o o' s e k =
        let (b, p, q) = >>=-eq-some o _ k in
        let (s', u, v) = assign_same inst rest rest' m m' b s h q in (s', rw (sym e ∙ p) u, v)

    -- A marked instruction does the same.
    pub live_step :
        (op : Op) (s : Machine × Event)
        → is_terminator op ≡ false
        → ArgsMarked is_inst used (args_of op)
        → step_inst host blocks inst op rest m ≡ some s
        → (s' : Machine × Event) × (step_inst host blocks inst op rest' m' ≡ some s')
          × Stepped rest rest' s s'
    unfolding step_inst args_of is_terminator
    live_step (load_inst p g offset) s t a e =
        let (f, _) = first_arg m m' h p [] a in
        let (pb, x, y) = >>=-eq-some (at_value m.values p) _ e in
        let o = if not pb.is_poison then load m.memory (address pb offset) inst.ty else none in
        let (s', u, v) =
          evaluated o
            (if not pb.is_poison then load m'.memory (address pb offset) inst.ty else none) s
            (rw h.memory refl) y in
        (s', rw (sym f ∙ x) u, v)
    live_step (store_inst p w g offset) s t a e =
        let (f, a') = first_arg m m' h p (w ∷ []) a in
        let (k, _) = first_arg m m' h w [] a' in
        let (pb, x, y) = >>=-eq-some (at_value m.values p) _ e in
        let (wb, x', y') = >>=-eq-some (at_value m.values w) _ y in
        let o = if not pb.is_poison then store wb m.memory (address pb offset) else none in
        let (memory, i, j) = >>=-eq-some o _ y' in
        let r = record m { memory = memory } in
        let r' = record m' { memory = memory } in
        let same : Same r r' = record {
          sizes = h.sizes;
          agree = h.agree;
          memory = refl;
          storage = h.storage;
        } in
        let (s', u, v) = assign_same inst rest rest' r r' no_bits s same j in
        (s', rw (sym f ∙ x, sym k ∙ x', sym h.memory, i) u, v)
    live_step (alloca_inst size) s t a e =
        let (f, _) = first_arg m m' h size [] a in
        let (b, x, y) = >>=-eq-some (at_value m.values size) _ e in
        elim (Bool-cases (not b.is_poison && ltb 0 b.value)) [
          | inl l ↦
              let z = host.new_storage m.alloca_storage b.value in
              let r = record m { alloca_storage = m.alloca_storage ++ (z ∷ []) } in
              let r' = record m' { alloca_storage = m.alloca_storage ++ (z ∷ []) } in
              let same : Same r r' = record {
                sizes = h.sizes;
                agree = h.agree;
                memory = h.memory;
                storage = refl;
              } in
              let (s', u, v) =
                assign_same inst rest rest' r r' (constant ptr z) s same (rw l at y) in
              (s', rw (sym f ∙ x, l, sym h.storage) u, v)
          | inr l ↦ let k : none ≡ some s = rw l at y in cc
        ]
    live_step (branch_inst c x y) s t a e = cc
    live_step (jump_inst b vs) s t a e = cc
    live_step exit_inst s t a e = cc
    live_step comment_inst s t a e =
        let t : Machine × Event = (record m' { insts = rest' }, none_event) in
        (
          t,
          refl,
          subst (λ (z : Machine × Event). Stepped rest rest' z t) (some_eq e)
              record {
                same = record {
                  sizes = h.sizes;
                  agree = h.agree;
                  memory = h.memory;
                  storage = h.storage;
                };
                insts = refl;
                insts' = refl;
                event = refl;
                event' = refl;
              },
        )
    live_step op s t a e =
        evaluated (eval host.floats m.values inst.ty op) (eval host.floats m'.values inst.ty op) s
          (eval_same m m' h host.floats inst.ty op a) e

    -- An instruction that is not marked changes nothing that is.
    module _ (i : is_inst inst.name ≡ true) (d : used.entry inst.name ≡ false) where
      unmarked :
          (o : Option I.Bits) (s : Machine × Event)
          → (o >>= λ b. assign inst rest m b) ≡ some s
          → Same s.0 m' × (s.0.insts ≡ rest) × (s.1 ≡ none_event)
      unmarked o s e = let (b, p, q) = >>=-eq-some o _ e in assign_dead inst rest m m' b s i d h q

      pub dead_step :
          (op : Op) (s : Machine × Event)
          → is_root is_inst op ≡ false
          → is_alloca op ≡ false
          → step_inst host blocks inst op rest m ≡ some s
          → Same s.0 m' × (s.0.insts ≡ rest) × (s.1 ≡ none_event)
      unfolding step_inst is_root is_alloca has_side_effect is_terminator is_comment
      dead_step (load_inst p g offset) s r a e =
          let (pb, x, y) = >>=-eq-some (at_value m.values p) _ e in
          unmarked (if not pb.is_poison then load m.memory (address pb offset) inst.ty else none) s
            y
      dead_step (store_inst p w g offset) s r a e = cc
      dead_step (alloca_inst size) s r a e = cc
      dead_step (branch_inst c x y) s r a e = cc
      dead_step (jump_inst b vs) s r a e = cc
      dead_step exit_inst s r a e = cc
      dead_step comment_inst s r a e = cc
      dead_step op s r a e = unmarked (eval host.floats m.values inst.ty op) s e
