-- ===== src/KnownBits/Matches.antt =====
-- `KnownBits::Bits::matches_const` and `at` of jitir.tmpl.hpp.
use metajit_cpp.KnownBits.{Bits, matches_const, at}
use metajit_cpp.KnownBits.Signs.{bit_of, test_bit}
use metajit_cpp.Word.Ops.{shl64}
use metajit_cpp.Word.Bits.{bit, bit_ext}
use metajit_cpp.Word.Mask.{bit_of_lt}
use metajit_cpp.Word.Word64.{bit_laws}
use native.Mathlib.Decide.{dec_lt}
use metajit_cpp.Base.{
  ℕ, ◌^◌, ◌<◌, bit_and, Bool, true, false, not, ◌==◌, some, none, some_eq, ◌≡◌, ◌↔◌, ◌∙◌, sym, refl,
  ap, inl, inr, ==→eq, eq→==, Bool-cases, arith,
}

-- The test of a bit, as `at` writes it.
abbrev test : ℕ → ℕ → Bool
test x i = not (bit_and x (shl64 1 i) == 0)

bit_of_eq : (p q : Bool) → bit_of p ≡ bit_of q → p ≡ q
bit_of_eq true true h = refl
bit_of_eq false false h = refl
bit_of_eq true false h = absurd (omega arith)
bit_of_eq false true h = absurd (omega arith)

test-bit : (x y i : ℕ) → i < 64 → bit x i ≡ bit y i → test x i ≡ test y i
test-bit x y i p h = bit_of_eq _ _ (test_bit x i p ∙ h ∙ sym (test_bit y i p))

bit-test : (x y i : ℕ) → i < 64 → test x i ≡ test y i → bit x i ≡ bit y i
bit-test x y i p h = sym (test_bit x i p) ∙ ap bit_of h ∙ test_bit y i p

test-true : (x i : ℕ) → i < 64 → test x i ≡ true → bit x i ≡ 1
test-true x i p h = sym (test_bit x i p) ∙ ap bit_of h

test-false : (x i : ℕ) → i < 64 → test x i ≡ false → bit x i ≡ 0
test-false x i p h = sym (test_bit x i p) ∙ ap bit_of h

-- A bit that `at` reports is in the mask, and is the stored one.
at-mask :
    (b : Bits) (i : ℕ) (q : Bool) → at b i ≡ some q → (test b.mask i ≡ true) × (q ≡ test b.value i)
unfolding at
at-mask b i q h = elim (Bool-cases (test b.mask i)) [
  | inl e ↦ let f : some (test b.value i) ≡ some q = rw e at h in (e, sym (some_eq f))
  | inr e ↦ let f : none ≡ some q = rw e at h in cc
]

module _ (b : Bits) (v : ℕ) (in_range : b.mask < 2 ^ 64) where
  reported : matches_const b v ≡ true → (i : ℕ) (q : Bool) → i < 64 → at b i ≡ some q → q ≡ test v i
  unfolding matches_const
  reported h i q p e =
      let (m, s) = at-mask b i q e in
      let same = ap (λ (t : ℕ). bit t i) (==→eq _ _ h) in
      s ∙ test-bit b.value v i p (omega (bit_laws, same, test-true b.mask i p m))

  at-bit :
      ((i : ℕ) (q : Bool) → i < 64 → at b i ≡ some q → q ≡ test v i)
      → (i : ℕ) → i < 64
      → test b.mask i ≡ true
      → bit b.value i ≡ bit v i
  unfolding at
  at-bit h i p e = bit-test b.value v i p (h i (test b.value i) p (rw e refl))

  all_same :
      ((i : ℕ) (q : Bool) → i < 64 → at b i ≡ some q → q ≡ test v i) → matches_const b v ≡ true
  unfolding matches_const
  all_same h = eq→== _ _ (
      bit_ext _ _ λ i. elim (dec_lt i 64) [
        | no p ↦ omega (bit_laws, bit_of_lt 64 b.mask i in_range (omega arith))
        | yes p ↦ elim (Bool-cases (test b.mask i)) [
          | inl e ↦ omega (bit_laws, at-bit h i p e)
          | inr e ↦ omega (bit_laws, test-false b.mask i p e)
        ]
      ])

  -- For known bits with a mask of 64 bits, `b.matches_const(v)` is true exactly when each of the
  -- 64 bits that `b.at(i)` reports is the bit of `v` at `i`.
  pub matches_const-at :
      (matches_const b v ≡ true)
      ↔ ((i : ℕ) (q : Bool) → i < 64 → at b i ≡ some q → q ≡ not (bit_and v (shl64 1 i) == 0))
  matches_const-at = (reported, all_same)
