-- ===== src/UsedBits/Demand.antt =====
-- The bits that `UsedBits` asks of the operands of an operator on words.
pub mod Runs
pub mod Sound
use native.Mathlib.Decide.{dec_lt}
use native.Mathlib.Nat.{add-mod, mul-add-mod_self_left, div-add-mod, mod-lt}
use metajit_cpp.UsedBits.{smear}
use metajit_cpp.Word.Ops.{not64, shr64, add64, sub64, mul64}
use metajit_cpp.Word.Bits.{bit, bit-le, bit-or, bit-and, bit-xor}
use metajit_cpp.Word.Mask.{word_ext, bit_of_lt, bit-mod_lt, bit-mod_ge, two_pow_pos}
use metajit_cpp.Word.Word64.{bit_laws, bit-shr64, bit-add64, bit-sub64, bit-not64}
use metajit_cpp.Base.{
  ℕ, zero, suc, ◌+◌, ◌-◌, ◌*◌, ◌/◌, ◌%◌, ◌^◌, ◌<◌, ◌≤◌, min, max, bit_and, bit_or, bit_xor, ◌≡◌,
  refl, sym, ap, ap₂, ◌∙◌, arith,
}

-- `x` and `y` have the same bits at the places of `u`.
unfoldable pub Agree : ℕ → ℕ → ℕ → Type 0
Agree u x y = (i : ℕ) → bit u i ≡ 1 → bit x i ≡ bit y i

-- Each bit of `u` sets the `n` bits of `v` that end there.
Covers : ℕ → ℕ → ℕ → Type 0
Covers u v n = (i d : ℕ) → d < n → bit u (i + d) ≡ 1 → bit v i ≡ 1

doubled : (u v n : ℕ) → Covers u v n → Covers u (bit_or v (shr64 v n)) (n + n)
unfolding Covers
doubled u v n h i d l e = elim (dec_lt d n) [
  | yes p ↦ omega (arith, h i d p e, bit-or v (shr64 v n) i, bit-le (shr64 v n) i)
  | no p ↦
      let q : i + d ≡ n + i + (d - n) = omega arith in
      omega (
        arith,
        h (n + i) (d - n) (omega arith) (rw q at e),
        bit-or v (shr64 v n) i,
        bit-shr64 v n i,
        bit-le v i,
      )
]

one_bit : (u : ℕ) → Covers u u 1
unfolding Covers
one_bit u i d l e = let q : i + d ≡ i = omega arith in rw q at e

-- The loop sets every bit below a used one.
smear-Covers : (u : ℕ) → Covers u (smear u) 64
unfolding smear
smear-Covers u =
    doubled u _ 32
      (doubled u _ 16 (doubled u _ 8 (doubled u _ 4 (doubled u _ 2 (doubled u u 1 (one_bit u))))))

module _ (u x y : ℕ) (h : Agree (smear u) x y) where
  -- Below a used bit, all bits agree.
  smear-low : (j : ℕ) → j < 64 → bit u j ≡ 1 → x % 2 ^ suc j ≡ y % 2 ^ suc j
  unfolding Agree Covers
  smear-low j l e =
      word_ext (suc j) _ _ (mod-lt x (two_pow_pos (suc j))) (mod-lt y (two_pow_pos (suc j))) λ i p.
        let q : i + (j - i) ≡ j = omega arith in
        bit-mod_lt (suc j) x i p
        ∙ h i (smear-Covers u i (j - i) (omega arith) (rw q e))
        ∙ sym (bit-mod_lt (suc j) y i p)

add_mod_cong : (m x x' y y' : ℕ) → x % m ≡ x' % m → y % m ≡ y' % m → (x + y) % m ≡ (x' + y') % m
add_mod_cong m x x' y y' p q =
    add-mod x y m ∙ ap₂ (λ (a b : ℕ). (a + b) % m) p q ∙ sym (add-mod x' y' m)

mul-mod_left : (m x y : ℕ) → x * y % m ≡ x % m * y % m
mul-mod_left m x y =
    let e : x * y ≡ m * (x / m * y) + x % m * y =
      omega (arith, ap (λ (z : ℕ). z * y) (div-add-mod x m)) in
    ap (λ (z : ℕ). z % m) e ∙ mul-add-mod_self_left m (x / m * y) (x % m * y)

mul_mod_cong : (m x x' y y' : ℕ) → x % m ≡ x' % m → y % m ≡ y' % m → x * y % m ≡ x' * y' % m
mul_mod_cong m x x' y y' p q = reduced x y ∙ ap₂ (λ (a b : ℕ). a * b % m) p q ∙ sym (reduced x' y')
  where
    reduced : (a b : ℕ) → a * b % m ≡ (a % m) * (b % m) % m
    reduced a b =
        let c : a % m * b ≡ b * (a % m) = omega arith in
        let d : b % m * (a % m) ≡ a % m * (b % m) = omega arith in
        mul-mod_left m a b
        ∙ ap (λ (z : ℕ). z % m) c
        ∙ mul-mod_left m b (a % m)
        ∙ ap (λ (z : ℕ). z % m) d

-- A bit is read off a remainder above it.
bit-cong_mod : (j x y : ℕ) → x % 2 ^ suc j ≡ y % 2 ^ suc j → bit x j ≡ bit y j
bit-cong_mod j x y e =
    sym (bit-mod_lt (suc j) x j (omega arith))
    ∙ ap (λ (z : ℕ). bit z j) e
    ∙ bit-mod_lt (suc j) y j (omega arith)

module _ (u x x' y y' : ℕ) (lu : u < 2 ^ 64) where
  below : (j : ℕ) → bit u j ≡ 1 → j < 64
  below j e = elim (dec_lt j 64) [
    | yes p ↦ p
    | no p ↦ absurd (omega (arith, bit_of_lt 64 u j lu (omega arith)))
  ]

  pub and_Agree : Agree u x x' → Agree u y y' → Agree u (bit_and x y) (bit_and x' y')
  unfolding Agree
  and_Agree h k i e = omega (bit_laws, h i e, k i e)

  pub or_Agree : Agree u x x' → Agree u y y' → Agree u (bit_or x y) (bit_or x' y')
  unfolding Agree
  or_Agree h k i e = omega (bit_laws, h i e, k i e)

  pub xor_Agree : Agree u x x' → Agree u y y' → Agree u (bit_xor x y) (bit_xor x' y')
  unfolding Agree
  xor_Agree h k i e = omega (bit_laws, h i e, k i e)

  pub add_Agree : Agree (smear u) x x' → Agree (smear u) y y' → Agree u (add64 x y) (add64 x' y')
  unfolding Agree
  add_Agree h k j e =
      let l = below j e in
      bit-add64 x y j l
      ∙ bit-cong_mod j _ _
          (add_mod_cong _ x x' y y' (smear-low u x x' h j l e) (smear-low u y y' k j l e))
      ∙ sym (bit-add64 x' y' j l)

  pub mul_Agree : Agree (smear u) x x' → Agree (smear u) y y' → Agree u (mul64 x y) (mul64 x' y')
  unfolding Agree mul64
  mul_Agree h k j e =
      let l = below j e in
      bit-mod_lt 64 (x * y) j l
      ∙ bit-cong_mod j _ _
          (mul_mod_cong _ x x' y y' (smear-low u x x' h j l e) (smear-low u y y' k j l e))
      ∙ sym (bit-mod_lt 64 (x' * y') j l)

  not_low :
      (j : ℕ)
      → j < 64
      → y < 2 ^ 64
      → y' < 2 ^ 64
      → y % 2 ^ suc j ≡ y' % 2 ^ suc j
      → not64 y % 2 ^ suc j ≡ not64 y' % 2 ^ suc j
  not_low j l p q e =
      word_ext (suc j) _ _ (mod-lt (not64 y) (two_pow_pos (suc j)))
        (mod-lt (not64 y') (two_pow_pos (suc j)))
        λ i r. omega (
          arith,
          bit-mod_lt (suc j) (not64 y) i r,
          bit-mod_lt (suc j) (not64 y') i r,
          bit-not64 y i p (omega arith),
          bit-not64 y' i q (omega arith),
          bit-mod_lt (suc j) y i r,
          bit-mod_lt (suc j) y' i r,
          ap (λ (z : ℕ). bit z i) e,
        )

  pub sub_Agree :
      y < 2 ^ 64
      → y' < 2 ^ 64
      → Agree (smear u) x x'
      → Agree (smear u) y y'
      → Agree u (sub64 x y) (sub64 x' y')
  unfolding Agree
  sub_Agree p q h k j e =
      let l = below j e in
      let n = not_low j l p q (smear-low u y y' k j l e) in
      bit-sub64 x y j p l
      ∙ bit-cong_mod j _ _ (
          add_mod_cong _ _ _ 1 1
            (add_mod_cong _ x x' (not64 y) (not64 y') (smear-low u x x' h j l e) n) refl)
      ∙ sym (bit-sub64 x' y' j q l)
