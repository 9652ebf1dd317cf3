-- ===== src/Lib.antt =====
-- metajit.cpp: an SSA intermediate representation for just-in-time compilers, with a builder,
-- analyses and passes, an interpreter, a tracer and back ends for x86 and LLVM. This library models
-- the core of jitir.tmpl.hpp: the types and instructions, the analyses KnownBits and UsedBits, the
-- interpreter, the folds of the Builder, and the allocator. It sets what the analyses say of an instruction against the
-- values that the interpreter computes.
--
-- How the parts interact. A Section holds blocks of instructions, allocated from an ArenaAllocator.
-- KnownBits walks the blocks in dominator order and stores, for each name, a mask of known bits and
-- their values in a NameMap; UsedBits walks them backwards and collects, for each instruction, the
-- bits that its users look at. The passes rewrite instructions by what both say. The interpreter
-- runs a section one instruction at a time and stores a value, which may be poison, for each name.
--
-- The files, and the code they model (paths from the root of the repository):
--   Base             shared names: tests, Option chains, lists over the native numbers
--   Word             uint64_t and intN_t arithmetic of C++; Ops and Signed are the operators, Bits,
--                    Mask, Word64, Carry and SignBits read results bit by bit
--   Types            enum class Type and its functions; Types/Switch: the macro switch_type
--   Ir               Value, Inst, Arg, Block and BaseNameMap of jitir.tmpl.hpp, and the instruction
--                    list of jitir.py; Ir/Checks: its type checks; Ir/Scopes: names in scope
--   Memory           the bytes behind Bits::store and Bits::load
--   Arena            ArenaAllocator: align_pad, alloc, dealloc_all
--   KnownBits        class KnownBits: Bits with every operator; KnownBits/Eval: at, eval and the
--                    loops of the constructor
--   UsedBits         class UsedBits: Bits, use, and the uses of each instruction
--   Aliasing         Interval and could_alias
--   Interpreter      class Interpreter: Bits with every operator; Interpreter/Eval: the
--                    instructions that compute a value; Interpreter/Machine: enter, step, run_for,
--                    run_until
--   Soundness        KnownBits against Interpreter; Soundness/Freeze: where they do not agree
--   Folding          class Builder: the fold_* functions on trees of values; Folding/Consts, Bitwise,
--                    Arith, Compare, Shift and Effects are the code, Folding/Numbers the number that a
--                    tree holds, and the other files below it the single rules and the folds
--   Passes           RefineAliasing, DeadStoreElim and DeadCodeElim; Passes/Exact, Collected,
--                    Apart, Groups and Unaligned: the groups of the first; Passes/Marks,
--                    Overwritten, Held, Kept, Ranges and Trimmed: the stores that the second
--                    removes; Passes/Closed, Stepped and Simulation: the marks of the last, and
--                    runs before and after it
--   Tests            runs at concrete inputs
--
-- State. An assertion that fails and undefined behaviour (a shift by 64 or more, a division by zero,
-- an access out of bounds) are `none`. Numbers are the native ones with the wrap-around of uint64_t
-- written out. The interpreter's state is the record Machine: the values, the memory, the storage of
-- alloca, the block and the instructions left in it; `_inst` is the head of that list. Pointers to
-- blocks are their indices. The code compares types by their index in the enumeration.
--
-- Parameters: floating point arithmetic, and the addresses that `new` and `malloc` give. The host is
-- little-endian with 64-bit pointers, and the memory of the model has a byte at every address.
--
-- The folds look through the operands of a value. A value is a tree there, a value that no fold looks
-- into is a leaf with a name, and whether two values are one object is a parameter. A fold that calls
-- itself or another runs on a depth of calls that the size of its operands bounds.
--
-- Bounds and fuel. `run_until` loops until an event; the model takes a number of steps, and has no
-- result where they run out. It is related to `run_for`, which needs no fuel, in both directions, so
-- a run that ends within n steps is found with n steps. AliasingGroup is int32_t in the source and an
-- integer with no bound here; the two differ only after 2^31 exact groups in one section, where
-- `--_min_exact_group` overflows.
--
-- Not modelled: Calls and the conversions between integers and floats, which the interpreter rejects
-- (they are instructions of Ir, and have no value); printing, hashing and JSON; the alignment
-- operand of Alloca; the textual reader; the build_* functions of the Builder; the passes (Simplify,
-- CommonSubexprElim, SimplifyCFG, Mem2Reg) and DominatorTree; the
-- tracer; x86gen.hpp, llvmgen.hpp, lowerllvm.hpp and genext.tmpl.hpp, which emit code for a
-- processor or for the LLVM library; tv.hpp, which calls Z3; interactive.hpp and main.cpp.
pub mod Base
pub mod Word
pub mod Arena
pub mod Types
pub mod Memory
pub mod KnownBits
pub mod Interpreter
pub mod Ir
pub mod UsedBits
pub mod Aliasing
pub mod Soundness
pub mod Folding
pub mod Passes
pub mod Tests
