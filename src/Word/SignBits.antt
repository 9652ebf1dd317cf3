-- ===== src/Word/SignBits.antt =====
-- The bits of a signed number after an arithmetic shift.
use native.Mathlib.Decide.{dec_lt}
use native.Mathlib.Nat.{mod-eq_of_lt}
use metajit_cpp.Word.Ops.{word}
use metajit_cpp.Word.Signed.{ℤ, pos, negsuc, to_signed, to_word, signed_shift, promoted_width}
use metajit_cpp.Word.Bits.{bit, bit-le}
use metajit_cpp.Word.Mask.{
  bit_of_lt, lt_of_bits, bit-div, bit-complement_lt, bit-mod_lt, two_pow_pos,
}
use metajit_cpp.Word.Word64.{bit-not64}
use metajit_cpp.Base.{
  ℕ, ◌+◌, ◌-◌, ◌/◌, ◌≤◌, ◌<◌, ◌^◌, ◌≡◌, sym, some, none, Bool, true, false, ltb, ltb→lt, lt→ltb,
  if◌then◌else◌, Bool-cases, inl, inr, arith, ◌⊎◌,
}

shift_value : (b : Bool) {x q : ℤ} → (if b then some x else none) ≡ some q → x ≡ q
shift_value true h = cc
shift_value false h = cc

-- The sign bit of a value of `w` bits.
pub sign_clear : (w v : ℕ) → v < 2 ^ (w - 1) → bit v (w - 1) ≡ 0
sign_clear w v h = bit_of_lt (w - 1) v (w - 1) h (omega arith)

pub sign_set : (w v : ℕ) → v < 2 ^ w → 2 ^ (w - 1) ≤ v → bit v (w - 1) ≡ 1
sign_set w v h k = elim (dec_lt (bit v (w - 1)) 1) [
  | yes p ↦ absurd (omega (arith, lt_of_bits (w - 1) v (above p)))
  | no p ↦ omega (arith, bit-le v (w - 1))
]
  where
    above : bit v (w - 1) < 1 → (i : ℕ) → w - 1 ≤ i → bit v i ≡ 0
    above p i q = elim (dec_lt i w) [
      | yes r ↦ let e : i ≡ w - 1 = omega arith in rw e (omega arith)
      | no r ↦ bit_of_lt w v i h (omega arith)
    ]

to_signed-pos : (w v : ℕ) → v < 2 ^ (w - 1) → v < 2 ^ w → to_signed w v ≡ pos v
unfolding to_signed
to_signed-pos w v h k = rw (mod-eq_of_lt k) (rw (lt→ltb v (2 ^ (w - 1)) h))

to_signed-negsuc : (w v : ℕ) → 2 ^ (w - 1) ≤ v → v < 2 ^ w → to_signed w v ≡ negsuc (2 ^ w - 1 - v)
unfolding to_signed
to_signed-negsuc w v h k = rw (mod-eq_of_lt k) (ground arith)

-- Bit `i` of `v >> s`: a bit of `v`, or its sign bit.
abbrev pub shifted_bit : ℕ → ℕ → ℕ → ℕ → ℕ
shifted_bit w v s i = if ltb (s + i) w then bit v (s + i) else bit v (w - 1)

bit-shifted_pos :
    (w v s i : ℕ)
    → w ≤ 64
    → v < 2 ^ (w - 1)
    → v < 2 ^ w
    → i < w
    → bit (to_word (pos (v / 2 ^ s))) i ≡ shifted_bit w v s i
unfolding to_word
bit-shifted_pos w v s i r h k p =
    let low = bit-mod_lt 64 (v / 2 ^ s) i (omega arith) in
    let shifted = bit-div s v i in
    elim (Bool-cases (ltb (s + i) w)) [
      | inl y ↦ rw y (omega arith)
      | inr n ↦ rw n (omega (arith, sign_clear w v h, bit_of_lt w v (s + i) k (ground arith)))
    ]

bit-shifted_neg :
    (w v s i : ℕ)
    → w ≤ 64
    → 2 ^ (w - 1) ≤ v
    → v < 2 ^ w
    → i < w
    → bit (to_word (negsuc ((2 ^ w - 1 - v) / 2 ^ s))) i ≡ shifted_bit w v s i
unfolding to_word
bit-shifted_neg w v s i r h k p =
    let n = 2 ^ w - 1 - v in
    let low = bit-mod_lt 64 (n / 2 ^ s) i (omega arith) in
    let complement = bit-not64 (word (n / 2 ^ s)) i (omega arith) (omega arith) in
    let shifted = bit-div s n i in
    elim (Bool-cases (ltb (s + i) w)) [
      | inl y ↦
          rw y (omega (arith, bit-complement_lt w v (s + i) k (ltb→lt _ _ y), bit-le v (s + i)))
      | inr o ↦ rw o (
          omega (
            arith,
            sign_set w v k h,
            bit_of_lt w n (s + i) (omega (arith, two_pow_pos w)) (ground arith),
          ))
    ]

pub bit-signed_shift :
    (w v s i : ℕ) {q : ℤ}
    → w ≤ 64
    → v < 2 ^ w
    → i < w
    → signed_shift w (to_signed w v) (pos s) ≡ some q
    → bit (to_word q) i ≡ shifted_bit w v s i
unfolding signed_shift
bit-signed_shift w v s i {q} r h k e = elim (dec_lt v (2 ^ (w - 1))) [
  | yes p ↦
      let f = rw (to_signed-pos w v p h) at e in
      rw (sym (shift_value (ltb s (promoted_width w)) f)) (bit-shifted_pos w v s i r p h k)
  | no p ↦
      let p' : 2 ^ (w - 1) ≤ v = omega arith in
      let f = rw (to_signed-negsuc w v p' h) at e in
      rw (sym (shift_value (ltb s (promoted_width w)) f)) (bit-shifted_neg w v s i r p' h k)
]

-- A value of `w` bits, read as a signed number, is itself or negative.
pub to_signed_cases :
    (w v : ℕ) → v < 2 ^ w → (to_signed w v ≡ pos v) ⊎ ((n : ℕ) × (to_signed w v ≡ negsuc n))
to_signed_cases w v h = elim (dec_lt v (2 ^ (w - 1))) [
  | yes p ↦ inl (to_signed-pos w v p h)
  | no p ↦ inr (2 ^ w - 1 - v, to_signed-negsuc w v (omega arith) h)
]

-- A shift by a negative number is undefined.
pub signed_shift_count :
    (w v s : ℕ) (x q : ℤ)
    → v < 2 ^ w
    → signed_shift w x (to_signed w v) ≡ some q
    → signed_shift w x (pos v) ≡ some q
unfolding signed_shift
signed_shift_count w v s x q h e = elim (to_signed_cases w v h) [
  | inl p ↦ rw p at e
  | inr (n, p) ↦ let f : none ≡ some q = rw p at e in cc
]
