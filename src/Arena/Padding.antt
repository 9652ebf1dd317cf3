-- ===== src/Arena/Padding.antt =====
-- The padding of `align_pad`.
use native.Mathlib.Nat.{div-add-mod', mod-lt, mul-mod_left, mul-le-mul_right}
use native.Mathlib.Decide.{dec_lt}
use metajit_cpp.Arena.{align_pad}
use metajit_cpp.Base.{
  ℕ, suc, ◌+◌, ◌*◌, ◌/◌, ◌%◌, ◌<◌, ◌≤◌, false, ◌≡◌, ◌⊎◌, inl, inr, ◌==◌, ==→eq, Bool-cases, arith,
}

module _ (p a : ℕ) (pos : 0 < a) where
  pub align_pad-lt : align_pad p a < a
  unfolding align_pad
  align_pad-lt = elim (Bool-cases (p % a == 0)) [
    | inl y ↦ rw y pos
    | inr n ↦ rw n (omega (arith, nonzero n, mod-lt p pos))
  ]
    where
      nonzero : (p % a == 0) ≡ false → 1 ≤ p % a
      nonzero h = ground arith

  -- The padded address is a multiple of the alignment: the quotient, or the one after it.
  padded :
      (p + align_pad p a ≡ p / a * a) ⊎ ((p + align_pad p a ≡ suc (p / a) * a) × (p / a * a < p))
  unfolding align_pad
  padded = elim (Bool-cases (p % a == 0)) [
    | inl y ↦ inl (rw y (omega (arith, ==→eq _ 0 y, div-add-mod' p a)))
    | inr n ↦ inr (
        rw n (
          omega (arith, div-add-mod' p a, mod-lt p pos, succ_times (p / a)),
          omega (arith, nonzero n, div-add-mod' p a),
        ))
  ]
    where
      nonzero : (p % a == 0) ≡ false → 1 ≤ p % a
      nonzero h = ground arith

      succ_times : (q : ℕ) → suc q * a ≡ q * a + a
      succ_times q = omega arith

  pub padded-aligned : (p + align_pad p a) % a ≡ 0
  padded-aligned = elim padded [
    | inl e ↦ rw e (mul-mod_left (p / a) a)
    | inr (e, h) ↦ rw e (mul-mod_left (suc (p / a)) a)
  ]

  -- Padding does not pass an end that is aligned itself.
  pub padded-le : (e : ℕ) → e % a ≡ 0 → p ≤ e → p + align_pad p a ≤ e
  padded-le e h le = elim padded [
    | inl q ↦ omega (arith, div-add-mod' p a)
    | inr (q, lt) ↦ elim (dec_lt (p / a) (e / a)) [
      | yes less ↦
          let m : suc (p / a) * a ≤ e / a * a = mul-le-mul_right a less in
          omega (arith, div-add-mod' e a)
      | no more ↦
          let m : e / a * a ≤ p / a * a = mul-le-mul_right a (omega arith) in
          absurd (omega (arith, div-add-mod' e a))
    ]
  ]
