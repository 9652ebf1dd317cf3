-- ===== src/Passes/Collected.antt =====
-- What `access` of `RefineAliasing` (jitir.tmpl.hpp) asks of the accesses of a group.
use mathlib.Core.Path.{subst}
use metajit_cpp.Types.{type_size, same_type}
use metajit_cpp.Ir.{Value, Op, load_inst, store_inst, Inst, Block}
use metajit_cpp.Word.Ops.{mod64}
use metajit_cpp.Word.Signed.{ℤ, pos, negsuc}
use metajit_cpp.Passes.Refine.{
  GroupInfo, Access, Refine, start, set_group, access, visit_op, visit, visit_insts, visit_blocks,
}
use metajit_cpp.Ir.Checks.{same_type→eq}
use metajit_cpp.Base.{
  ℕ, zero, suc, ◌%◌, Bool, true, false, not, ◌||◌, ◌==◌, List, [], ◌∷◌, ◌++◌, Option, none, some,
  >>=-eq-some, some_eq, if◌then◌else◌, ◌≡◌, refl, sym, ap, ◌∙◌, ◌⊎◌, inl, inr, get_elem?, eq→==,
  ==→eq, Bool-cases,
}

-- A group that is valid has the base and the type of the access, whose offset is the first of the
-- group or a multiple of its size.
unfoldable pub Placed : ℕ → GroupInfo → Access → Type 0
Placed first info a =
    info.is_invalid ≡ false
    → (info.base ≡ some a.ptr)
      × (info.ty ≡ a.ty)
      × ((a.offset ≡ first) ⊎ (a.offset % type_size a.ty ≡ 0))

-- `firsts` is the first offset of each group.
unfoldable pub PlacedIn : (ℕ → ℕ) → Refine → Access → Type 0
unfolding Placed
PlacedIn firsts r a = Placed (firsts a.group) (r.groups a.group) a

unfoldable pub AllPlaced : (ℕ → ℕ) → Refine → List Access → Type 0
unfolding PlacedIn
AllPlaced firsts r us = (i : ℕ) (a : Access) → get_elem? us i ≡ some a → PlacedIn firsts r a

append-AllPlaced :
    (firsts : ℕ → ℕ) (r : Refine) (us : List Access) (b : Access)
    → AllPlaced firsts r us
    → PlacedIn firsts r b
    → AllPlaced firsts r (us ++ (b ∷ []))
unfolding AllPlaced
append-AllPlaced firsts r [] b h k zero a e = subst (PlacedIn firsts r) (some_eq e) k
append-AllPlaced firsts r [] b h k (suc i) a e = cc
append-AllPlaced firsts r (c ∷ us) b h k zero a e = h zero a e
append-AllPlaced firsts r (c ∷ us) b h k (suc i) a e =
    append-AllPlaced firsts r us b (λ j d f. h (suc j) d f) k i a e

-- What `access` does to the first offsets.
record Tested (firsts : ℕ → ℕ) (a : Access) (r r' : Refine) : Type 0 where
  firsts' : ℕ → ℕ
  placed : PlacedIn firsts' r' a
  keeps : (b : Access) → PlacedIn firsts r b → PlacedIn firsts' r' b
  loads : r'.loads ≡ r.loads
  stores : r'.stores ≡ r.stores

-- A group that becomes invalid.
invalid_now :
    (firsts : ℕ → ℕ) (a : Access) (r : Refine) (info : GroupInfo)
    → info.is_invalid ≡ true
    → Tested firsts a r (set_group r a.group info)
unfolding set_group PlacedIn Placed
invalid_now firsts a r info h = record {
  firsts' = firsts;
  placed = rw (eq→== a.group a.group refl) (λ k. cc);
  keeps = λ b p. elim (Bool-cases (b.group == a.group)) [ inl e ↦ rw e (λ k. cc) | inr e ↦ rw e p ];
  loads = refl;
  stores = refl;
}

-- The first access of a group.
first_now :
    (firsts : ℕ → ℕ) (a : Access) (r : Refine)
    → (r.groups a.group).is_invalid ≡ false
    → (r.groups a.group).base ≡ none
    → Tested firsts a r
        (set_group r a.group record (r.groups a.group) { base = some a.ptr; ty = a.ty })
unfolding set_group PlacedIn Placed
first_now firsts a r v f = record {
  firsts' = λ h. if h == a.group then a.offset else firsts h;
  placed = rw (eq→== a.group a.group refl) (λ k. (refl, refl, inl refl));
  keeps = λ b p. elim (Bool-cases (b.group == a.group)) [
    | inl e ↦
        let i = ==→eq b.group a.group e in
        let v' : (r.groups b.group).is_invalid ≡ false = rw i v in
        let f' : (r.groups b.group).base ≡ none = rw i f in
        let (q, _, _) = p v' in let z : none ≡ some b.ptr = sym f' ∙ q in cc
    | inr e ↦ rw e p
  ];
  loads = refl;
  stores = refl;
}

option_cases : (o : Option Value) → (o ≡ none) ⊎ ((x : Value) × (o ≡ some x))
option_cases none = inl refl
option_cases (some x) = inr (x, refl)

mod64-zero : (x y : ℕ) (z : ℕ) → mod64 x y ≡ some z → (z == 0) ≡ true → x % y ≡ 0
unfolding mod64
mod64-zero x y z h e = elim (Bool-cases (y == 0)) [
  | inl b ↦ let f : none ≡ some z = rw b at h in cc
  | inr b ↦ let f : some (x % y) ≡ some z = rw b at h in some_eq f ∙ ==→eq z 0 e
]

was : {b : Bool} → not b ≡ false → b ≡ true
was {b = true} h = refl
was {b = false} h = cc

both_hold : (x y : Bool) → (not x || not y) ≡ false → (x ≡ true) × (y ≡ true)
both_hold true true h = (refl, refl)
both_hold true false h = cc
both_hold false y h = cc

module _ (same : Value → Value → Bool) (same-eq : (x y : Value) → same x y ≡ true → x ≡ y) where
  access-Tested :
      (firsts : ℕ → ℕ) (a : Access) (r r' : Refine)
      → access same a r ≡ some r'
      → Tested firsts a r r'
  unfolding access PlacedIn Placed
  access-Tested firsts a r r' h = elim (Bool-cases (r.groups a.group).is_invalid) [
    | inl b ↦
        let e : r ≡ r' = some_eq (rw b at h) in
        subst (Tested firsts a r) e record {
          firsts' = firsts;
          placed = λ k. cc;
          keeps = λ c p. p;
          loads = refl;
          stores = refl;
        }
    | inr b ↦ elim (option_cases (r.groups a.group).base) [
      | inl f ↦ subst (Tested firsts a r) (some_eq (rw (b, f) at h)) (first_now firsts a r b f)
      | inr (base, f) ↦
          let info = r.groups a.group in
          let off = record info { is_invalid = true } in
          elim (Bool-cases (not (same base a.ptr) || not (same_type info.ty a.ty))) [
            | inl m ↦
                subst (Tested firsts a r) (some_eq (rw (b, f, m) at h))
                  (invalid_now firsts a r off refl)
            | inr m ↦
                let (rest, p, q) =
                  >>=-eq-some (mod64 a.offset (type_size a.ty)) _ (rw (b, f, m) at h) in
                elim (Bool-cases (not (rest == 0))) [
                  | inl n ↦
                      subst (Tested firsts a r) (some_eq (rw n at q))
                        (invalid_now firsts a r off refl)
                  | inr n ↦
                      let (u, v) = both_hold (same base a.ptr) (same_type info.ty a.ty) m in
                      let z = mod64-zero a.offset (type_size a.ty) rest p (was n) in
                      subst (Tested firsts a r) (some_eq (rw n at q)) record {
                        firsts' = firsts;
                        placed = λ k. (
                          f ∙ ap some (same-eq base a.ptr u),
                          same_type→eq info.ty a.ty v,
                          inr z,
                        );
                        keeps = λ c j. j;
                        loads = refl;
                        stores = refl;
                      }
                ]
          ]
    ]
  ]

  -- Every load and store of a group that is not exact, so far.
  pub record Collected (r : Refine) : Type 0 where
    pub firsts : ℕ → ℕ
    pub loads : AllPlaced firsts r r.loads
    pub stores : AllPlaced firsts r r.stores

  module _ (r r' : Refine) (c : Collected r) where
    add_load :
        (a : Access)
        → access same a (record r { loads = r.loads ++ (a ∷ []) }) ≡ some r'
        → Collected r'
    unfolding AllPlaced PlacedIn
    add_load a e =
        let s = access-Tested c.firsts a (record r { loads = r.loads ++ (a ∷ []) }) r' e in
        record {
          firsts = s.firsts';
          loads = rw s.loads (
              append-AllPlaced s.firsts' r' r.loads a (λ i b f. s.keeps b (c.loads i b f))
                s.placed);
          stores = rw s.stores (λ i b f. s.keeps b (c.stores i b f));
        }

    add_store :
        (a : Access)
        → access same a (record r { stores = r.stores ++ (a ∷ []) }) ≡ some r'
        → Collected r'
    unfolding AllPlaced PlacedIn
    add_store a e =
        let s = access-Tested c.firsts a (record r { stores = r.stores ++ (a ∷ []) }) r' e in
        record {
          firsts = s.firsts';
          loads = rw s.loads (λ i b f. s.keeps b (c.loads i b f));
          stores = rw s.stores (
              append-AllPlaced s.firsts' r' r.stores a (λ i b f. s.keeps b (c.stores i b f))
                s.placed);
        }

    lowered : (x : ℤ) → some (record r { min_exact_group = x }) ≡ some r' → Collected r'
    unfolding AllPlaced PlacedIn
    lowered x e =
        subst Collected (some_eq e) record { firsts = c.firsts; loads = c.loads; stores = c.stores }

    visit_op-Collected : (inst : Inst) (op : Op) → visit_op same inst op r ≡ some r' → Collected r'
    unfolding visit_op
    visit_op-Collected inst (load_inst p (pos g) offset) h = add_load _ h
    visit_op-Collected inst (load_inst p (negsuc g) offset) h = lowered _ h
    visit_op-Collected inst (store_inst p v (pos g) offset) h = add_store _ h
    visit_op-Collected inst (store_inst p v (negsuc g) offset) h = lowered _ h
    visit_op-Collected inst _ h = subst Collected (some_eq h) c

  visit_insts-Collected :
      (insts : List Inst) (r r' : Refine)
      → visit_insts same insts r ≡ some r'
      → Collected r
      → Collected r'
  unfolding visit_insts visit
  visit_insts-Collected [] r r' h c = subst Collected (some_eq h) c
  visit_insts-Collected (inst ∷ rest) r r' h c =
      let (r1, p, q) = >>=-eq-some (visit_op same inst inst.op r) _ h in
      visit_insts-Collected rest r1 r' q (visit_op-Collected r r1 c inst inst.op p)

  pub visit_blocks-Collected :
      (blocks : List Block) (r r' : Refine)
      → visit_blocks same blocks r ≡ some r'
      → Collected r
      → Collected r'
  unfolding visit_blocks
  visit_blocks-Collected [] r r' h c = subst Collected (some_eq h) c
  visit_blocks-Collected (block ∷ rest) r r' h c =
      let (r1, p, q) = >>=-eq-some (visit_insts same block.insts r) _ h in
      visit_blocks-Collected rest r1 r' q (visit_insts-Collected block.insts r r1 p c)

  pub start-Collected : Collected start
  unfolding start AllPlaced
  start-Collected = record { firsts = λ g. 0; loads = λ i a e. cc; stores = λ i a e. cc }
