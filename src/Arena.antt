-- ===== src/Arena.antt =====
-- `ArenaAllocator` of jitir.tmpl.hpp: a list of chunks, and a pointer that moves through them.
pub mod Padding
pub mod Bounds
use metajit_cpp.Word.Ops.{sub64}
use metajit_cpp.Base.{
  ℕ, zero, suc, ◌+◌, ◌-◌, ◌*◌, ◌%◌, ◌^◌, Bool, true, false, Option, none, some, ltb, leb, ◌==◌,
  if◌then◌else◌,
}

abbrev pub chunk_size : ℕ
chunk_size = 1024 * 1024

-- `sizeof(Chunk)`: one pointer of the host, which is a 64-bit one.
abbrev pub usable_size : ℕ
usable_size = chunk_size - 8

-- The chunks of the list are numbered from `_first`, `count` of them; `malloc` gives their addresses.
pub record Arena : Type 0 where
  pub count : ℕ
  pub current : ℕ
  pub left : ℕ
  pub ptr : ℕ

unfoldable pub align_pad : ℕ → ℕ → ℕ
align_pad ptr align = let delta = ptr % align in if delta == 0 then 0 else align - delta

module _ (malloc : ℕ → ℕ) where
  -- `chunk->data`
  unfoldable pub data_of : ℕ → ℕ
  data_of k = malloc k + 8

  unfoldable pub initial : Arena
  initial = record { count = 1; current = 0; left = 0; ptr = 0 }

  unfoldable pub next_chunk : Arena → Arena
  unfolding data_of
  next_chunk s =
      let next = suc s.current in
      record {
        count = if ltb next s.count then s.count else suc s.count;
        current = next;
        left = usable_size;
        ptr = data_of next;
      }

  -- The end of `alloc`: the padding, and then the size, are taken.
  unfoldable pub take : Arena → ℕ → ℕ → ℕ × Arena
  unfolding sub64
  take s size pad =
      (s.ptr + pad, record s { left = sub64 (sub64 s.left pad) size; ptr = s.ptr + pad + size })

  -- `_left - align_padding < size`, in size_t.
  unfoldable pub is_full : Arena → ℕ → ℕ → Bool
  unfolding sub64 align_pad
  is_full s size align = ltb (sub64 s.left (align_pad s.ptr align)) size

  unfoldable pub alloc : Arena → ℕ → ℕ → Option (ℕ × Arena)
  unfolding align_pad next_chunk take is_full
  alloc s size align =
      if leb size usable_size
      then some (
          let s' = if is_full s size align then next_chunk s else s in
          take s' size (align_pad s'.ptr align))
      else none

  unfoldable pub dealloc_all : Arena → Arena
  unfolding data_of
  dealloc_all s = record s { current = 0; left = usable_size; ptr = data_of 0 }
