-- ===== src/Folding/Totals.antt =====
-- The operators of the interpreter (jitir.tmpl.hpp) that have a result on all numbers.

use metajit_cpp.Ir.{add_inst, sub_inst, mul_inst, and_inst, or_inst, xor_inst, eq_inst, lt_u_inst}
use metajit_cpp.Ir.Checks.{binary_checks, binary_type, same_type→eq}
use metajit_cpp.Word.Ops.{add64, sub64, mul64}
use metajit_cpp.Interpreter as I
use metajit_cpp.Interpreter.Eval as IE
use metajit_cpp.Folding.Checked.{both_true}
use metajit_cpp.Folding.Numbers.{unpoisoned}
use metajit_cpp.Folding.Operands.{IsTotal}
use metajit_cpp.Base.{ℕ, ltb, ◌==◌, if◌then◌else◌, refl, bit_and, bit_or, bit_xor}

abbrev pub eq_number : ℕ → ℕ → ℕ
eq_number x y = if x == y then 1 else 0

abbrev pub lt_number : ℕ → ℕ → ℕ
lt_number x y = if ltb x y then 1 else 0

module _ (floats : IE.FloatUnit) where
  pub add-IsTotal : IsTotal floats add_inst add64
  unfolding IE.eval_binary I.add I.propagating_binop I.constant binary_checks binary_type unpoisoned
  add-IsTotal = record {
    runs = λ t x y. refl;
    same_types = λ t u h. same_type→eq t u (both_true h).0;
  }

  pub sub-IsTotal : IsTotal floats sub_inst sub64
  unfolding IE.eval_binary I.sub I.propagating_binop I.constant binary_checks binary_type unpoisoned
  sub-IsTotal = record {
    runs = λ t x y. refl;
    same_types = λ t u h. same_type→eq t u (both_true h).0;
  }

  pub mul-IsTotal : IsTotal floats mul_inst mul64
  unfolding IE.eval_binary I.mul I.propagating_binop I.constant binary_checks binary_type unpoisoned
  mul-IsTotal = record {
    runs = λ t x y. refl;
    same_types = λ t u h. same_type→eq t u (both_true h).0;
  }

  pub and-IsTotal : IsTotal floats and_inst bit_and
  unfolding IE.eval_binary I.and_bits I.propagating_binop I.constant binary_checks binary_type
      unpoisoned
  and-IsTotal = record {
    runs = λ t x y. refl;
    same_types = λ t u h. same_type→eq t u (both_true h).0;
  }

  pub or-IsTotal : IsTotal floats or_inst bit_or
  unfolding IE.eval_binary I.or_bits I.propagating_binop I.constant binary_checks binary_type
      unpoisoned
  or-IsTotal = record {
    runs = λ t x y. refl;
    same_types = λ t u h. same_type→eq t u (both_true h).0;
  }

  pub xor-IsTotal : IsTotal floats xor_inst bit_xor
  unfolding IE.eval_binary I.xor_bits I.propagating_binop I.constant binary_checks binary_type
      unpoisoned
  xor-IsTotal = record {
    runs = λ t x y. refl;
    same_types = λ t u h. same_type→eq t u (both_true h).0;
  }

  pub eq-IsTotal : IsTotal floats eq_inst eq_number
  unfolding IE.eval_binary I.eq I.propagating_binop I.constant I.constant_bool binary_checks
      binary_type unpoisoned
  eq-IsTotal = record { runs = λ t x y. refl; same_types = λ t u h. same_type→eq t u h }

  pub lt_u-IsTotal : IsTotal floats lt_u_inst lt_number
  unfolding IE.eval_binary I.lt_u I.propagating_binop I.constant I.constant_bool binary_checks
      binary_type unpoisoned
  lt_u-IsTotal = record {
    runs = λ t x y. refl;
    same_types = λ t u h. same_type→eq t u (both_true h).0;
  }
