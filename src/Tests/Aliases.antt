-- ===== src/Tests/Aliases.antt =====
-- A load and a store through one pointer, side by side.
use metajit_cpp.Types.{int8, int16, ptr, type_size}
use metajit_cpp.Ir.{Value, const, named, poison, symbol, type_of, NameMap, get}
use metajit_cpp.Aliasing.{Load, Store, could_alias, same_group}
use metajit_cpp.Aliasing.Disjoint.{could_alias-load}
use metajit_cpp.Memory.{Memory}
use metajit_cpp.Interpreter as I
use metajit_cpp.Interpreter.Eval as IE
use metajit_cpp.Interpreter.Machine as M
use metajit_cpp.Word.Signed.{pos}
use metajit_cpp.Base.{
  Bool, true, false, Option, some, none, ◌≡◌, refl, ap, ◌==◌, ==→eq, if◌then◌else◌, arith,
}

abbrev is_pointer : Value → Bool
is_pointer (named n ptr) = n == 0
is_pointer _ = false

abbrev both_pointer : Bool → Bool → Bool
both_pointer true b = b
both_pointer false b = false

-- Two occurrences of %0 are one object.
abbrev same : Value → Value → Bool
same u v = both_pointer (is_pointer u) (is_pointer v)

pointer_eq : (u : Value) → is_pointer u ≡ true → u ≡ named 0 ptr
pointer_eq (named n ptr) h = ap (λ m. named m ptr) (==→eq n 0 h)
pointer_eq (named n _) h = cc
pointer_eq (const t v) h = cc
pointer_eq (poison t) h = cc
pointer_eq (symbol t s) h = cc

both_true : (a b : Bool) → both_pointer a b ≡ true → (a ≡ true) × (b ≡ true)
both_true true b h = (refl, h)
both_true false b h = cc

same_eq : (u v : Value) → same u v ≡ true → u ≡ v
same_eq u v h =
    let (a, b) = both_true _ _ h in
    let p : u ≡ named 0 ptr = pointer_eq u a in let q : v ≡ named 0 ptr = pointer_eq v b in cc

abbrev pointer : I.Bits
pointer = record { ty = ptr; is_poison = false; value = 64 }

abbrev stored : I.Bits
stored = record { ty = int16; is_poison = false; value = 513 }

abbrev run : NameMap I.Bits
run = record { size = 2; entry = λ n. if n == 0 then pointer else stored }

abbrev load : Load
load = record { ptr = named 0 ptr; ty = int8; aliasing = pos 1; offset = 2 }

abbrev store : Store
store = record { ptr = named 0 ptr; value = named 1 int16; aliasing = pos 1; offset = 0 }

abbrev from_some : Option Memory → Memory
from_some none = λ a. 0
from_some (some m) = m

abbrev written : Memory
written = from_some (M.store stored (λ a. 9) (M.address pointer 0))

could_alias-load_example :
    M.load written (M.address pointer 2) int8 ≡ M.load (λ a. 9) (M.address pointer 2) int8
unfolding could_alias same_group IE.at_value type_of get type_size M.store
could_alias-load_example =
    could_alias-load same same_eq run load store pointer pointer stored (λ a. 9) written refl refl
      refl refl refl (omega arith) (omega arith) refl
