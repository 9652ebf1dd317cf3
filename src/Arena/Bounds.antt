-- ===== src/Arena/Bounds.antt =====
-- Where the allocations of `ArenaAllocator::alloc` lie.
use native.Mathlib.Nat.{mod-eq_of_lt}
use metajit_cpp.Arena.{
  Arena, chunk_size, usable_size, align_pad, data_of, next_chunk, take, is_full, alloc, initial,
  dealloc_all,
}
use metajit_cpp.Arena.Padding.{align_pad-lt, padded-aligned, padded-le}
use metajit_cpp.Word.Ops.{sub64}
use metajit_cpp.Base.{
  ℕ, suc, ◌+◌, ◌-◌, ◌%◌, ◌^◌, ◌<◌, ◌≤◌, true, false, some, ◌≡◌, refl, ap, ◌⊎◌, inl, inr, ltb,
  ltb→lt, leb, Bool-cases, arith,
}

room_of : (a b : ℕ) → ltb a b ≡ false → b ≤ a
room_of a b h = ground arith

fits_chunk : (a b : ℕ) → a ≤ b → leb a b ≡ true
fits_chunk a b h = ground arith

module _ (malloc : ℕ → ℕ) where
  -- The pointer and what is left reach to the end of the chunk.
  pub InChunk : Arena → Type 0
  InChunk s = (data_of malloc s.current ≤ s.ptr) × (s.ptr + s.left ≡ malloc s.current + chunk_size)

  -- Before the first allocation there is no pointer and nothing left.
  pub IsValid : Arena → Type 0
  IsValid s = (s.current < s.count) × (((s.ptr ≡ 0) × (s.left ≡ 0)) ⊎ InChunk s)

  pub initial-IsValid : IsValid (initial malloc)
  unfolding initial IsValid
  initial-IsValid = (omega arith, inl (refl, refl))

  pub dealloc_all-IsValid : (s : Arena) → 0 < s.count → IsValid (dealloc_all malloc s)
  unfolding dealloc_all IsValid InChunk data_of
  dealloc_all-IsValid s h = (h, inr (omega arith, omega arith))

  pub record Fits (s : Arena) (size align : ℕ) (r : ℕ × Arena) : Type 0 where
    pub valid : IsValid r.1
    pub aligned : r.0 % align ≡ 0
    pub starts : data_of malloc r.1.current ≤ r.0
    pub next : r.0 + size ≡ r.1.ptr
    pub ends : r.0 + size ≤ malloc r.1.current + chunk_size
    pub later : ((r.1.current ≡ s.current) × (s.ptr ≤ r.0)) ⊎ (r.1.current ≡ suc s.current)

  module _ (s : Arena) (size align : ℕ) (pos : 0 < align) where
    sub64-le : (a b : ℕ) → b ≤ a → a < 2 ^ 64 → sub64 a b ≡ a - b
    unfolding sub64
    sub64-le a b h l = omega arith

    left-lt : (u : Arena) → InChunk u → u.left ≤ usable_size
    unfolding InChunk data_of
    left-lt u (a, b) = omega arith

    -- The end of `alloc` where the rest of the chunk is enough.
    take-Fits :
        (u : Arena)
        → u.current < u.count
        → InChunk u
        → align_pad u.ptr align + size ≤ u.left
        → ((u.current ≡ s.current) × (s.ptr ≤ u.ptr)) ⊎ (u.current ≡ suc s.current)
        → Fits s size align (take malloc u size (align_pad u.ptr align))
    unfolding take IsValid InChunk data_of
    take-Fits u c (a, b) h l = record {
      valid = (
        c,
        inr (
          omega arith,
          omega (
            arith,
            left-lt u (a, b),
            sub64-le u.left (align_pad u.ptr align) (omega arith) (omega (arith, left-lt u (a, b))),
            sub64-le (u.left - align_pad u.ptr align) size (omega arith)
                (omega (arith, left-lt u (a, b))),
            ap (λ (z : ℕ). sub64 z size)
                (sub64-le u.left (align_pad u.ptr align) (omega arith)
                  (omega (arith, left-lt u (a, b)))),
          ),
        ),
      );
      aligned = padded-aligned u.ptr align pos;
      starts = omega arith;
      next = refl;
      ends = omega arith;
      later = further l;
    }
      where
        further :
            ((u.current ≡ s.current) × (s.ptr ≤ u.ptr)) ⊎ (u.current ≡ suc s.current)
            → ((u.current ≡ s.current) × (s.ptr ≤ u.ptr + align_pad u.ptr align))
              ⊎ (u.current ≡ suc s.current)
        further (inl (e, q)) = inl (e, omega arith)
        further (inr e) = inr e

    zero_pad : align_pad 0 align ≡ 0
    unfolding align_pad
    zero_pad = let z : 0 % align ≡ 0 = mod-eq_of_lt pos in rw z refl

    -- A chunk that is not full has room: its end is aligned, so the padding does not pass it.
    not_full-room :
        IsValid s
        → (malloc s.current + chunk_size) % align ≡ 0
        → 1 ≤ size
        → is_full malloc s size align ≡ false
        → InChunk s × (align_pad s.ptr align + size ≤ s.left)
    unfolding IsValid InChunk is_full
    not_full-room (c, inl (p, l)) h n f =
        let z : align_pad s.ptr align ≡ 0 = rw p zero_pad in
        let e : sub64 s.left (align_pad s.ptr align) ≡ 0 = rw (z, l) (unfold sub64 in refl) in
        absurd (omega (arith, room_of _ size f))
    not_full-room (c, inr (a, b)) h n f =
        let q : s.ptr + align_pad s.ptr align ≤ malloc s.current + chunk_size =
          padded-le s.ptr align pos (malloc s.current + chunk_size) h (omega arith) in
        let e =
          sub64-le s.left (align_pad s.ptr align) (omega arith) (omega (arith, left-lt s (a, b))) in
        ((a, b), omega (arith, room_of _ size f))

    next-InChunk : InChunk (next_chunk malloc s)
    unfolding InChunk next_chunk data_of
    next-InChunk = (omega arith, omega arith)

    next-counted : s.current < s.count → (next_chunk malloc s).current < (next_chunk malloc s).count
    unfolding next_chunk
    next-counted h = elim (Bool-cases (ltb (suc s.current) s.count)) [
      | inl y ↦ rw y (ltb→lt _ _ y)
      | inr n ↦ rw n (omega arith)
    ]

    -- `alloc` where every chunk ends at a multiple of the alignment, for a size of at least 1 that
    -- leaves room for the alignment in a chunk: from a valid state it returns, the state stays
    -- valid, the address is aligned, the allocation lies within the current chunk and ends where
    -- the pointer stands, and it begins at or after the old pointer in the same chunk, or in the
    -- next chunk. The unsigned `_left - align_padding` does not wrap.
    pub alloc-Fits :
        IsValid s
        → ((k : ℕ) → (malloc k + chunk_size) % align ≡ 0)
        → 1 ≤ size
        → size + align ≤ usable_size
        → (r : ℕ × Arena) × (alloc malloc s size align ≡ some r) × Fits s size align r
    unfolding alloc
    alloc-Fits v h n u = elim (Bool-cases (is_full malloc s size align)) [
      | inl y ↦
          let t = next_chunk malloc s in
          (
            take malloc t size (align_pad t.ptr align),
            rw (fits_chunk size usable_size (omega arith), y) refl,
            take-Fits t (next-counted (unfold IsValid in v.0)) next-InChunk
                (room t next-InChunk refl) (inr (unfold next_chunk in refl)),
          )
      | inr w ↦
          let (c, q) = not_full-room v (h s.current) n w in
          (
            take malloc s size (align_pad s.ptr align),
            rw (fits_chunk size usable_size (omega arith), w) refl,
            take-Fits s (unfold IsValid in v.0) c q (inl (refl, omega arith)),
          )
    ]
      where
        room :
            (t : Arena) → InChunk t → t.left ≡ usable_size → align_pad t.ptr align + size ≤ t.left
        room t c e = omega (arith, align_pad-lt t.ptr align pos)

  -- `data` of a 16-aligned chunk is 8 bytes past a multiple of 16.
  shifted_pad : (m : ℕ) → m % 16 ≡ 0 → align_pad (m + 8) 16 ≡ 8
  unfolding align_pad
  shifted_pad m h = let e : (m + 8) % 16 ≡ 8 = omega arith in rw e refl

  -- The assertion `size <= USABLE_SIZE` does not allow for the padding: where the current chunk is
  -- full and the next one lies at a multiple of 16, an allocation of USABLE_SIZE bytes aligned to
  -- 16 returns, and ends 8 bytes past its chunk.
  pub alloc-overruns :
      (s : Arena)
      → malloc (suc s.current) % 16 ≡ 0
      → is_full malloc s usable_size 16 ≡ true
      → (r : ℕ × Arena) × (alloc malloc s usable_size 16 ≡ some r)
        × (r.0 + usable_size ≡ malloc r.1.current + chunk_size + 8)
  unfolding alloc take next_chunk data_of
  alloc-overruns s h f = (
    take malloc (next_chunk malloc s) usable_size (align_pad (next_chunk malloc s).ptr 16),
    rw f refl,
    omega (arith, shifted_pad (malloc (suc s.current)) h),
  )
