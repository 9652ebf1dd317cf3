-- ===== src/Tests/Sweeps.antt =====
-- Runs of `RefineAliasing`, `DeadStoreElim` and `DeadCodeElim` (jitir.tmpl.hpp).
use metajit_cpp.Types.{void, int8, int64, ptr, type_size, type_mask, same_type}
use metajit_cpp.Ir.{
  Value, const, named, and_inst, add_inst, binary, load_inst, store_inst, exit_inst, type_of, Inst,
  Block, NameMap,
}
use metajit_cpp.Interpreter.Machine.{Machine, Event, none_event, Host, run_for}
use metajit_cpp.Word.Signed.{pos, negsuc}
use metajit_cpp.Aliasing.{could_alias, same_group, interval, intersects}
use metajit_cpp.Passes.Refine.{Access, Refine, start, apply_all, visit_blocks, refine_aliasing}
use metajit_cpp.Passes.Groups.{refined_groups_disjoint, one_offset_aligned}
use metajit_cpp.Passes.Unaligned.{load_and_store, refine_aliasing-splits_overlap}
use metajit_cpp.Passes.DeadCode as D
use metajit_cpp.Passes.Closed.{InOrder, mentions, all_insts}
use metajit_cpp.Passes.Stepped.{Same, BodyOf}
use metajit_cpp.Passes.Simulation.{unmarked_names, dead_code_elim-simulates}
use metajit_cpp.Passes.DeadStore.{dead_store_elim}
use metajit_cpp.Passes.Overwritten.{absent, Distinct}
use metajit_cpp.Passes.Ranges.{Named}
use metajit_cpp.Passes.Trimmed.{blocks_without_dead, dead_store_elim-blocks_without_dead}
use metajit_cpp.Base.{
  ℕ, Bool, true, false, ◌&&◌, ◌==◌, ltb, List, [], ◌∷◌, ◌++◌, Option, none, some, ◌≡◌, refl, length,
  ◌+◌, ◌%◌, ◌≤◌, ◌⊎◌, arith, ==→eq, ap₂,
}
use metajit_cpp.Ir.Checks.{same_type→eq}
use metajit_cpp.Folding.Checked.{both_true}

abbrev or_else {ℓ} : {A : Type ℓ} → Option A → A → A
or_else (some x) y = x
or_else none y = y

abbrev floats_and_storage : Host
floats_and_storage = record { floats = λ o w x y. 0; new_storage = λ storage size. 4096 }

abbrev argument : Value
argument = named 0 int8

-- Instruction 1 is dead; instruction 3 stores what 2 computes.
abbrev swept : List Inst
swept =
    record { name = 1; ty = int8; op = binary and_inst argument (const int8 15) }
    ∷ record { name = 2; ty = int8; op = binary add_inst argument (const int8 7) }
    ∷ record { name = 3; ty = void; op = store_inst (const ptr 100) (named 2 int8) (negsuc 0) 4 }
    ∷ []

abbrev leave : List Inst
leave = record { name = 4; ty = void; op = exit_inst } ∷ []

abbrev section : List Block
section = record { args = record { name = 0; ty = int8 } ∷ []; insts = swept ++ leave } ∷ []

abbrev is_inst : ℕ → Bool
is_inst n = ltb 0 n

abbrev marks : NameMap Bool
marks = or_else (D.visit_blocks is_inst section (unmarked_names 5)) (unmarked_names 5)

abbrev left : List Inst
left = or_else (D.filter_used is_inst marks swept) []

left_two : length left ≡ 2
unfolding D.visit_blocks D.filter_used
left_two = refl

abbrev at_start : List Inst → Machine
at_start insts = record {
  values = record { size = 5; entry = λ n. record { ty = int8; is_poison = false; value = 93 } };
  memory = λ p. 0;
  alloca_storage = [];
  block = 0;
  insts = insts;
}

abbrev ran : Machine × Event
ran =
    or_else (run_for floats_and_storage section 3 (at_start (swept ++ leave)))
      (at_start [], none_event)

dead_code_elim-simulates_example :
    (s' : Machine × Event) × (run_for floats_and_storage section
        (length left)
        (at_start (left ++ leave))
      ≡ some s')
    × Same is_inst marks ran.0 s'.0
    × (ran.0.insts ≡ leave)
    × (s'.0.insts ≡ leave)
unfolding D.visit_blocks D.filter_used run_for InOrder mentions all_insts BodyOf type_mask
dead_code_elim-simulates_example =
    dead_code_elim-simulates is_inst 5 marks section [] swept leave left leave leave
      floats_and_storage (at_start (swept ++ leave)) (at_start (left ++ leave)) ran in_order refl
      refl body refl refl refl
      record { sizes = refl; agree = λ n v. refl; memory = refl; storage = refl } refl
  where
    in_order : InOrder (all_insts section)
    in_order = (
      (refl, refl, (refl, refl, (refl, refl, tt))),
      ((refl, refl, (refl, refl, tt)), ((refl, refl, tt), (tt, tt))),
    )

    body : BodyOf is_inst marks swept
    body = (refl, refl, (λ e. cc), (refl, refl, (λ e. cc), (refl, refl, (λ e. cc), tt)))

-- Constants and names are compared by what they hold.
abbrev same_value : Value → Value → Bool
same_value (named n t) (named m u) = n == m && same_type t u
same_value _ _ = false

same_value-eq : (x y : Value) → same_value x y ≡ true → x ≡ y
same_value-eq (named n t) (named m u) h =
    let (p, q) = both_true h in ap₂ named (==→eq n m p) (same_type→eq t u q)
same_value-eq _ _ h = cc

abbrev slots : List Block
slots = load_and_store argument (const int64 5) (pos 0) (pos 0) 8

abbrev collected : Refine
collected = or_else (visit_blocks same_value slots start) start

abbrev loaded : Access
loaded = record { name = 0; group = 0; ptr = argument; offset = 8; ty = int64 }

abbrev stored : Access
stored = record { name = 1; group = 0; ptr = argument; offset = 0; ty = int64 }

refined_groups_disjoint_example :
    (argument ≡ argument) × ((8 + type_size int64 ≤ 0) ⊎ (0 + type_size int64 ≤ 8))
unfolding visit_blocks start apply_all type_size same_group
refined_groups_disjoint_example =
    refined_groups_disjoint same_value same_value-eq slots collected 0 0 0 1 loaded stored
      (negsuc 0) (negsuc 1) refl refl refl refl refl refl refl refl refl

-- A load at offset 4, then a store at offset 0, of 8 bytes each.
abbrev uneven : List Block
uneven = load_and_store argument (const int64 5) (pos 0) (pos 0) 4

abbrev collected_uneven : Refine
collected_uneven = or_else (visit_blocks same_value uneven start) start

abbrev loaded_uneven : Access
loaded_uneven = record { name = 0; group = 0; ptr = argument; offset = 4; ty = int64 }

one_offset_aligned_example : (4 % type_size int64 ≡ 0) ⊎ (0 % type_size int64 ≡ 0)
unfolding visit_blocks start apply_all type_size same_group
one_offset_aligned_example =
    one_offset_aligned same_value same_value-eq uneven collected_uneven 0 0 0 1 loaded_uneven stored
      (negsuc 0) (negsuc 1) refl refl refl refl refl refl refl

splits_overlap_example :
    (refine_aliasing same_value (load_and_store argument (const int64 5) (pos 0) (pos 0) 4)
      ≡ some (load_and_store argument (const int64 5) (negsuc 0) (negsuc 1) 4))
    × (could_alias same_value
          record { ptr = argument; ty = int64; aliasing = negsuc 0; offset = 4 }
          record { ptr = argument; value = const int64 5; aliasing = negsuc 1; offset = 0 }
        ≡ false)
    × (intersects (interval 4 int64) (interval 0 int64) ≡ true)
splits_overlap_example =
    refine_aliasing-splits_overlap same_value argument (const int64 5) 4 (unfold same_type in refl)
      (unfold type_of in refl) (omega arith) (omega arith)

abbrev store_to : ℕ → ℕ → Inst
store_to n g = record { name = n; ty = void; op = store_inst argument (const int64 5) (negsuc g) 0 }

abbrev load_from : ℕ → ℕ → Inst
load_from n g = record { name = n; ty = int64; op = load_inst argument (negsuc g) 0 }

-- Of the four stores only number 1 is overwritten with no load of its group in between.
abbrev stores : List Block
stores =
    record {
      args = [];
      insts =
          store_to 1 0
          ∷ load_from 2 1
          ∷ store_to 3 0
          ∷ load_from 4 0
          ∷ store_to 5 0
          ∷ store_to 6 1
          ∷ [];
    }
    ∷ []

abbrev without_first : List Block
without_first =
    record {
      args = [];
      insts = load_from 2 1 ∷ store_to 3 0 ∷ load_from 4 0 ∷ store_to 5 0 ∷ store_to 6 1 ∷ [];
    }
    ∷ []

dead_store_elim-blocks_without_dead_example : dead_store_elim 7 stores ≡ some without_first
unfolding Distinct absent all_insts Named blocks_without_dead
dead_store_elim-blocks_without_dead_example =
    dead_store_elim-blocks_without_dead 7 stores (refl, (refl, (refl, (refl, (refl, (refl, tt))))))
      (refl, (refl, (refl, (refl, (refl, (refl, tt))))))
