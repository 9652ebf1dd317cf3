-- ===== src/Interpreter/Entry.antt =====
-- The arguments of a block after `enter`.
use mathlib.Core.Path.{subst}
use mathlib.Core.Bool.{and-eq-true_iff}
use metajit_cpp.Types.{same_type}
use metajit_cpp.Ir.{Arg, Block, NameMap, get, set}
use metajit_cpp.Ir.Scopes.{get-set}
use metajit_cpp.Interpreter.{Bits}
use metajit_cpp.Interpreter.Machine.{Machine, Host, bind_args, enter}
use metajit_cpp.Base.{
  ℕ, zero, suc, Bool, true, false, not, ◌&&◌, ◌||◌, List, [], ◌∷◌, Option, some, none, ◌≡◌, refl,
  sym, ap, ◌∙◌, inl, inr, some_eq, if◌then◌else◌, ◌==◌, eq→==, Bool-cases, get_elem?, >>=-eq-some,
  length,
}

-- The name is that of an argument.
unfoldable pub is_arg : ℕ → List Arg → Bool
is_arg n [] = false
is_arg n (arg ∷ rest) = n == arg.name || is_arg n rest

unfoldable pub distinct_args : List Arg → Bool
unfolding is_arg
distinct_args [] = true
distinct_args (arg ∷ rest) = not (is_arg arg.name rest) && distinct_args rest

or_false : (a b : Bool) → (a || b) ≡ false → (a ≡ false) × (b ≡ false)
or_false false b h = (refl, h)
or_false true b h = cc

unnegated : (a : Bool) → not a ≡ true → a ≡ false
unnegated false h = refl
unnegated true h = cc

-- One turn of the loop.
bound_head :
    (arg : Arg) (rest : List Arg) (b : Bits) (bits : List Bits) (values values' : NameMap Bits)
    → bind_args (arg ∷ rest) (b ∷ bits) values ≡ some values'
    → (mid : NameMap Bits) × (set values arg.name b ≡ some mid)
      × (bind_args rest bits mid ≡ some values')
unfolding bind_args
bound_head arg rest b bits values values' h = elim (Bool-cases (same_type b.ty arg.ty)) [
  | inl y ↦ >>=-eq-some (set values arg.name b) _ (rw y at h)
  | inr n ↦ let q : none ≡ some values' = rw n at h in cc
]

pub bind_args-keeps :
    (args : List Arg) (bits : List Bits) (values values' : NameMap Bits) (n : ℕ)
    → is_arg n args ≡ false
    → bind_args args bits values ≡ some values'
    → get values' n ≡ get values n
unfolding is_arg
bind_args-keeps [] bits values values' n d h =
    ap (λ (z : NameMap Bits). get z n) (sym (some_eq (unfold bind_args in h)))
bind_args-keeps (arg ∷ rest) [] values values' n d h =
    let q : none ≡ some values' = unfold bind_args in h in cc
bind_args-keeps (arg ∷ rest) (b ∷ bits) values values' n d h =
    let (d0, d1) = or_false (n == arg.name) _ d in
    let (mid, hs, hb) = bound_head arg rest b bits values values' h in
    bind_args-keeps rest bits mid values' n d1 hb ∙ rw d0 at (get-set values mid arg.name b hs n)

pub bind_args-binds :
    (args : List Arg) (bits : List Bits) (values values' : NameMap Bits) (i : ℕ) (arg : Arg)
    → distinct_args args ≡ true
    → get_elem? args i ≡ some arg
    → bind_args args bits values ≡ some values'
    → get values' arg.name ≡ get_elem? bits i
unfolding distinct_args
bind_args-binds [] bits values values' i arg d g h = cc
bind_args-binds (a ∷ rest) [] values values' i arg d g h =
    let q : none ≡ some values' = unfold bind_args in h in cc
bind_args-binds (a ∷ rest) (b ∷ bits) values values' zero arg d g h =
    let (d0, d1) = (and-eq-true_iff _ _).0 d in
    let (mid, hs, hb) = bound_head a rest b bits values values' h in
    let q : a.name ≡ arg.name = ap (λ (z : Arg). z.name) (some_eq g) in
    subst (λ n. get values' n ≡ some b) q
      (bind_args-keeps rest bits mid values' a.name (unnegated _ d0) hb
        ∙ rw (eq→== a.name a.name refl) at (get-set values mid a.name b hs a.name))
bind_args-binds (a ∷ rest) (b ∷ bits) values values' (suc i) arg d g h =
    let (d0, d1) = (and-eq-true_iff _ _).0 d in
    let (mid, hs, hb) = bound_head a rest b bits values values' h in
    bind_args-binds rest bits mid values' i arg d1 g hb

module _ (host : Host) (blocks : List Block) where
  -- If `enter` succeeds on a block whose arguments have distinct names, then each argument has the
  -- value passed at its index, whatever the arguments held before, and the interpreter stands at
  -- the first instruction of that block.
  pub enter-binds :
      (target : ℕ) (bits : List Bits) (m m' : Machine) (block : Block) (i : ℕ) (arg : Arg)
      → get_elem? blocks target ≡ some block
      → distinct_args block.args ≡ true
      → get_elem? block.args i ≡ some arg
      → enter host blocks target bits m ≡ some m'
      → (get m'.values arg.name ≡ get_elem? bits i) × (m'.insts ≡ block.insts) × (m'.block ≡ target)
  unfolding enter
  enter-binds target bits m m' block i arg f d g h =
      let (found, e, h1) = >>=-eq-some (get_elem? blocks target) _ h in
      let same : found ≡ block = some_eq (sym e ∙ f) in
      let (values, v, h2) =
        >>=-eq-some
          (if length bits == length found.args then bind_args found.args bits m.values else none) _
          h1 in
      let bound : bind_args found.args bits m.values ≡ some values =
        passed (length bits == length found.args) v in
      let bound' : bind_args block.args bits m.values ≡ some values =
        subst (λ (z : Block). bind_args z.args bits m.values ≡ some values) same bound in
      subst
        (λ (z : Machine).
          (get z.values arg.name ≡ get_elem? bits i) × (z.insts ≡ block.insts) × (z.block ≡ target))
        (some_eq h2)
        (
          bind_args-binds block.args bits m.values values i arg d g bound',
          ap (λ (z : Block). z.insts) same,
          refl,
        )
    where
      passed :
          {o : Option (NameMap Bits)} {x : NameMap Bits} (c : Bool)
          → (if c then o else none) ≡ some x
          → o ≡ some x
      passed true h = h
      passed false h = cc
