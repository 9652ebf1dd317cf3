-- ===== src/Tests/Runs.antt =====
-- A block that runs, and the theorems on the interpreter applied to it.
use mathlib.Core.Path.{subst}
use metajit_cpp.Types.{void, bool, int8, int16, type_width, type_mask, type_size}
use metajit_cpp.Memory.{Memory}
use metajit_cpp.Ir.{
  const, named, type_of, add_inst, lt_u_inst, binary, exit_inst, Inst, Block, NameMap, get, args_of,
}
use metajit_cpp.Ir.Checks.{op_checks}
use metajit_cpp.Ir.Scopes.{Scope, body_checks, scope_after}
use metajit_cpp.KnownBits as K
use metajit_cpp.KnownBits.Eval as KE
use metajit_cpp.Interpreter as I
use metajit_cpp.Interpreter.Eval as IE
use metajit_cpp.Interpreter.Machine.{
  Machine, Host, Event, none_event, exit_event, run_for, run_until, enter, load, store, is_exit,
}
use metajit_cpp.Interpreter.Entry.{distinct_args, enter-binds}
use metajit_cpp.Interpreter.Runs.{run_for-add, run_until-run_for, run_for-run_until}
use metajit_cpp.Interpreter.Storage.{load-store, load-store_other}
use metajit_cpp.Soundness.Relation.{Approximates}
use metajit_cpp.Soundness.Typing.{IsOf}
use metajit_cpp.Soundness.Eval.{Tracked, AllTracked, tracks, eval-IsOf, eval_sound}
use metajit_cpp.Soundness.Pass.{TracksScope}
use metajit_cpp.Soundness.Body.{After, all_track, body_sound}
use metajit_cpp.Tests.Samples.{half_known, half_known_byte, half_known-Approximates}
use metajit_cpp.Word.Ops.{add64, not64}
use metajit_cpp.Base.{
  ◌+◌, true, false, List, [], ◌∷◌, Option, some, none, ◌≡◌, refl, sym, inl, inr, arith, ◌==◌, ==→eq,
  if◌then◌else◌, Bool-cases, some_eq,
}

abbrev from_some {ℓ} : {A : Type ℓ} → Option A → A → A
from_some none d = d
from_some (some a) d = a

-- %1 = Add %0, 3; %2 = LtU %1, 3
abbrev add_three : Inst
add_three = record { name = 1; ty = int8; op = binary add_inst (named 0 int8) (const int8 3) }

abbrev below_three : Inst
below_three = record { name = 2; ty = bool; op = binary lt_u_inst (named 1 int8) (const int8 3) }

abbrev exit : Inst
exit = record { name = 3; ty = void; op = exit_inst }

abbrev body : List Inst
body = add_three ∷ below_three ∷ []

abbrev block : Block
block = record {
  args = record { name = 0; ty = int8 } ∷ [];
  insts = add_three ∷ below_three ∷ exit ∷ [];
}

abbrev host : Host
host = record { floats = λ o w x y. 0; new_storage = λ storage size. 4096 }

abbrev values : NameMap K.Bits
values = record { size = 4; entry = λ n. half_known }

abbrev run : NameMap I.Bits
run = record { size = 4; entry = λ n. half_known_byte }

abbrev machine : Machine
machine = record {
  values = run;
  memory = λ a. 0;
  alloca_storage = [];
  block = 0;
  insts = add_three ∷ below_three ∷ exit ∷ [];
}

abbrev scope : Scope
scope n = if n == 0 then some int8 else none

half_known-IsOf : IsOf int8 half_known_byte
unfolding type_width
half_known-IsOf = record { ty = refl; range = omega arith }

named_zero-Tracked : Tracked values run (named 0 int8)
unfolding type_of KE.at_value IE.at_value get
named_zero-Tracked = record {
  typed = λ r e. subst (IsOf int8) (some_eq e) half_known-IsOf;
  approximated = λ k r d e.
      subst (Approximates k) (some_eq e) (
        subst (λ (z : K.Bits). Approximates z half_known_byte) (some_eq d) half_known-Approximates);
}

in_scope-Tracked : TracksScope scope values run
unfolding TracksScope
in_scope-Tracked n t e = elim (Bool-cases (n == 0)) [
  | inl y ↦
      let zero_name : 0 ≡ n = sym (==→eq n 0 y) in
      let is_byte : int8 ≡ t = some_eq (rw y at e) in
      subst (λ m. Tracked values run (named m t)) zero_name
        (subst (λ u. Tracked values run (named 0 u)) is_byte named_zero-Tracked)
  | inr w ↦ let q : none ≡ some t = rw w at e in cc
]

abbrev values_after : NameMap K.Bits
values_after = from_some (KE.eval_insts body values) values

abbrev ran_body : Machine × Event
ran_body = from_some (run_for host (block ∷ []) 2 machine) (machine, exit_event)

body_sound_example :
    After host (block ∷ []) (scope_after scope body) values_after (exit ∷ []) ran_body
unfolding body_checks all_track KE.eval_insts run_for type_mask not64 add64 args_of
body_sound_example =
    body_sound host (block ∷ []) body (exit ∷ []) scope values values_after machine ran_body refl
      refl refl in_scope-Tracked refl refl

abbrev ran_one : Machine
ran_one = (from_some (run_for host (block ∷ []) 1 machine) (machine, exit_event)).0

abbrev ran_all : Machine × Event
ran_all = from_some (run_for host (block ∷ []) 3 machine) (machine, none_event)

-- The exit comes in the third step.
exits_third : ran_all.1 ≡ exit_event
unfolding run_for
exits_third = refl

run_for-add_example :
    run_for host (block ∷ []) (1 + 2) machine ≡ run_for host (block ∷ []) 2 ran_one
unfolding run_for
run_for-add_example = run_for-add host (block ∷ []) 1 2 machine ran_one refl

run_until-run_for_example :
    (run_for host (block ∷ []) 3 machine ≡ some ran_all) × (is_exit ran_all.1 ≡ true)
unfolding run_until run_for
run_until-run_for_example = run_until-run_for host (block ∷ []) 3 machine ran_all refl

run_for-run_until_example : run_until host (block ∷ []) 3 exit_event machine ≡ some ran_all
unfolding run_for is_exit
run_for-run_until_example = run_for-run_until host (block ∷ []) 3 machine ran_all refl refl

abbrev entered : Machine
entered = from_some (enter host (block ∷ []) 0 (half_known_byte ∷ []) machine) machine

enter-binds_example :
    (get entered.values 0 ≡ some half_known_byte)
    × (entered.insts ≡ block.insts)
    × (entered.block ≡ 0)
unfolding enter distinct_args
enter-binds_example =
    enter-binds host (block ∷ []) 0 (half_known_byte ∷ []) machine entered block 0 _ refl refl refl
      refl

abbrev word_bits : I.Bits
word_bits = record { ty = int16; is_poison = false; value = 4660 }

abbrev stored_word : Memory
stored_word = from_some (store word_bits (λ a. 7) 100) (λ a. 7)

load-store_example : load stored_word 100 int16 ≡ some word_bits
unfolding type_width store
load-store_example = load-store word_bits (λ a. 7) stored_word 100 (omega arith) refl

load-store_other_example : load stored_word 102 int8 ≡ load (λ a. 7) 102 int8
unfolding type_size store
load-store_other_example =
    load-store_other word_bits (λ a. 7) stored_word 100 102 int8 (inr (omega arith)) refl

eval_sound_example :
    Approximates
      (record { ty = int8; mask = 224; value = 32 })
      (record { ty = int8; is_poison = false; value = 38 })
unfolding op_checks tracks AllTracked args_of KE.eval IE.eval type_mask not64 add64
eval_sound_example =
    eval_sound host.floats values run int8 _ (binary add_inst (named 0 int8) (named 0 int8)) _ refl
      refl (named_zero-Tracked, (named_zero-Tracked, tt)) refl refl

eval-IsOf_example : IsOf int8 (record { ty = int8; is_poison = false; value = 38 })
unfolding op_checks AllTracked args_of IE.eval type_mask add64
eval-IsOf_example =
    eval-IsOf host.floats values run int8 _ (binary add_inst (named 0 int8) (named 0 int8)) refl
      (named_zero-Tracked, (named_zero-Tracked, tt)) refl
