-- ===== src/Folding/Shift.antt =====
-- The shifts among the folds of `Builder`. A shift of a number by 64 or more is undefined.
use metajit_cpp.Types.{IrType, type_mask, type_width, type_size}
use metajit_cpp.Ir.{and_inst, shl_inst, shr_u_inst, shr_s_inst}
use metajit_cpp.Word.Ops.{shl64, shr64}
use metajit_cpp.Folding.{Node, konst, binary, node_type, build_const, as_konst, when_some}
use metajit_cpp.Folding.Consts.{do_binop_const_prop, or_else}
use metajit_cpp.Folding.Bitwise.{fold_and, size}
use metajit_cpp.Folding.Arith.{all_folds}
use metajit_cpp.Base.{
  ℕ, zero, suc, ◌+◌, ◌-◌, ◌*◌, Bool, ◌&&◌, Option, none, some, ◌==◌, ltb, leb, bit_and,
  if◌then◌else◌, ◌>>=◌,
}

-- `x << s` and `x >> s` in the compiler.
unfoldable pub shl_number : ℕ → ℕ → Option ℕ
unfolding shl64
shl_number x s = if ltb s 64 then some (shl64 x s) else none

unfoldable pub shr_number : ℕ → ℕ → Option ℕ
unfolding shr64
shr_number x s = if ltb s 64 then some (shr64 x s) else none

-- `x`, `c1` and `m` of `(x >> c1) & m`.
unfoldable pub as_masked_shr : Node → Option (Node × ℕ × ℕ)
as_masked_shr (binary and_inst (binary shr_u_inst x (konst t c1)) (konst u m)) = some (x, c1, m)
as_masked_shr _ = none

-- The same of `(x << c1) & m`.
unfoldable pub as_masked_shl : Node → Option (Node × ℕ × ℕ)
as_masked_shl (binary and_inst (binary shl_inst x (konst t c1)) (konst u m)) = some (x, c1, m)
as_masked_shl _ = none

module _ (same : Node → Node → Bool) where
  unfoldable pub fold_shr_u : Node → Node → Option Node
  unfolding do_binop_const_prop all_folds shr_number as_konst
  fold_shr_u a b =
      or_else (do_binop_const_prop same (all_folds same) a b (node_type a) shr_number) (
        when_some (as_konst b) (λ v. some (if v == 0 then a else binary shr_u_inst a b))
          (some (binary shr_u_inst a b)))

  -- The rules of `fold_shl` for a masked shift; `again` is its call of itself.
  unfoldable pub shl_masked_shr :
      (Node → Node → Option Node) → IrType → Node → ℕ → ℕ → ℕ → Option Node
  unfolding shl_number fold_and fold_shr_u build_const
  shl_masked_shr again t x c1 m c2 = do
    mask ← shl_number m c2
    let new_mask = build_const t (bit_and (type_mask t) mask)
    if c1 == c2
        then fold_and same x new_mask
        else if ltb c2 c1
        then (do y ← fold_shr_u x (build_const t (c1 - c2)); fold_and same y new_mask)
        else (do y ← again x (build_const t (c2 - c1)); fold_and same y new_mask)

  -- `built` is the instruction where no rule applies.
  unfoldable pub shl_masked_shl :
      (Node → Node → Option Node) → IrType → Node → ℕ → ℕ → ℕ → Node → Option Node
  unfolding shl_number fold_and build_const type_width
  shl_masked_shl again t x c1 m c2 built = do
    mask ← shl_number m c2
    if ltb c1 (type_width t) && (ltb c2 (type_width t) && ltb (c1 + c2) (type_width t))
        then (do
          y ← again x (build_const t (c1 + c2))
          fold_and same y (build_const t (bit_and (type_mask t) mask)))
        else if ltb c1 (type_width t) && (ltb c2 (type_width t) && leb (type_width t) (c1 + c2))
        then some (build_const t 0)
        else some built

  -- `fold_shl` by a constant.
  unfoldable pub shl_const : (Node → Node → Option Node) → Node → Node → ℕ → Option Node
  unfolding as_konst shl_number build_const as_masked_shr as_masked_shl shl_masked_shr
      shl_masked_shl
  shl_const again a b c2 =
      when_some (as_konst a)
        (λ v. do
          result ← shl_number v c2
          some (build_const (node_type a) (bit_and result (type_mask (node_type a)))))
        (if c2 == 0
          then some a
          else when_some (as_masked_shr a) (λ p. shl_masked_shr again (node_type a) p.0 p.1 p.2 c2)
              (when_some (as_masked_shl a)
                (λ p. shl_masked_shl again (node_type a) p.0 p.1 p.2 c2 (binary shl_inst a b))
                (some (binary shl_inst a b))))

  unfoldable pub fold_shl_to : ℕ → Node → Node → Option Node
  unfolding do_binop_const_prop all_folds shl_number as_konst shl_const
  fold_shl_to zero a b = none
  fold_shl_to (suc n) a b =
      let again = fold_shl_to n in
      or_else (do_binop_const_prop same (all_folds same) a b (node_type a) shl_number)
        (when_some (as_konst b) (λ c2. shl_const again a b c2) (some (binary shl_inst a b)))

  unfoldable pub fold_shl : Node → Node → Option Node
  unfolding fold_shl_to size
  fold_shl a b = fold_shl_to (1 + (size a + size b)) a b

  unfoldable pub fold_shr_s : Node → Node → Option Node
  unfolding as_konst
  fold_shr_s a b =
      when_some (as_konst b) (λ v. some (if v == 0 then a else binary shr_s_inst a b))
        (some (binary shr_s_inst a b))

  -- The overloads for a number, with their assertion.
  unfoldable pub by_number : (Node → Node → Option Node) → Node → ℕ → Option Node
  unfolding type_size build_const
  by_number fold a shift =
      if leb shift (type_size (node_type a) * 8)
      then fold a (build_const (node_type a) shift)
      else none

  unfoldable pub fold_shl_number : Node → ℕ → Option Node
  unfolding by_number fold_shl
  fold_shl_number = by_number fold_shl

  unfoldable pub fold_shr_u_number : Node → ℕ → Option Node
  unfolding by_number fold_shr_u
  fold_shr_u_number = by_number fold_shr_u

  unfoldable pub fold_shr_s_number : Node → ℕ → Option Node
  unfolding by_number fold_shr_s
  fold_shr_s_number = by_number fold_shr_s
