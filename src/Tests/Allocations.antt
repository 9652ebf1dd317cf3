-- ===== src/Tests/Allocations.antt =====
-- Allocations at concrete states.
use metajit_cpp.Arena.{Arena, initial, alloc, is_full, usable_size, chunk_size}
use metajit_cpp.Arena.Bounds.{IsValid, initial-IsValid, Fits, alloc-Fits, alloc-overruns}
use metajit_cpp.Base.{ℕ, ◌+◌, ◌*◌, ◌%◌, ◌≡◌, refl, some, arith}

-- Chunks of 1 MiB, one after the other.
abbrev chunk_at : ℕ → ℕ
chunk_at k = (k + 1) * 1048576

abbrev first_state : Arena
first_state = record { count = 1; current = 0; left = 0; ptr = 0 }

first-IsValid : IsValid chunk_at first_state
first-IsValid = unfold initial in initial-IsValid chunk_at

ends_aligned : (k : ℕ) → (chunk_at k + chunk_size) % 8 ≡ 0
ends_aligned k = omega arith

alloc-Fits_example :
    (r : ℕ × Arena) × (alloc chunk_at first_state 24 8 ≡ some r) × Fits chunk_at first_state 24 8 r
alloc-Fits_example =
    alloc-Fits chunk_at first_state 24 8 (omega arith) first-IsValid ends_aligned (omega arith)
      (omega arith)

alloc-overruns_example :
    (r : ℕ × Arena) × (alloc chunk_at first_state usable_size 16 ≡ some r)
    × (r.0 + usable_size ≡ chunk_at r.1.current + chunk_size + 8)
unfolding is_full
alloc-overruns_example = alloc-overruns chunk_at first_state refl refl
