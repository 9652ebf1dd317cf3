-- ===== src/Word/Carry.antt =====
-- Sums of numbers of which only bounds on the single bits are known: where the least and the
-- greatest sum agree on a bit, each sum in between has that bit.
use native.Mathlib.Decide.{dec_lt}
use metajit_cpp.Word.Step.{or_halve}
use metajit_cpp.Word.Ops.{word, not64}
use metajit_cpp.Word.Bits.{bit}
use metajit_cpp.Word.Mask.{bit_of_lt, bit-mod_lt}
use metajit_cpp.Word.Word64.{not64-lt, bit-not64}
use metajit_cpp.Base.{ℕ, zero, suc, ◌+◌, ◌/◌, ◌%◌, ◌^◌, ◌≤◌, ◌<◌, ◌≡◌, min, bit_or, arith}

-- Each bit of `x` is a bit of `y`.
abbrev pub Sub : ℕ → ℕ → Type 0
Sub x y = (i : ℕ) → bit x i ≤ bit y i

Sub-parity : (x y : ℕ) → Sub x y → x % 2 ≤ y % 2
unfolding bit
Sub-parity x y h = h 0

Sub-half : (x y : ℕ) → Sub x y → Sub (x / 2) (y / 2)
unfolding bit
Sub-half x y h i = h (suc i)

pub Sub-refl : (x : ℕ) → Sub x x
Sub-refl x i = omega arith

pub not64-Sub : (x y : ℕ) → x < 2 ^ 64 → y < 2 ^ 64 → Sub x y → Sub (not64 y) (not64 x)
not64-Sub x y p q h i = elim (dec_lt i 64) [
  | yes r ↦ omega (arith, bit-not64 x i p r, bit-not64 y i q r, h i)
  | no r ↦ omega (arith, bit_of_lt 64 (not64 y) i (not64-lt y) (omega arith))
]

-- A sum with no common bit is a union.
add-or_fuel :
    (n x y : ℕ) → x ≤ n → y ≤ n → ((i : ℕ) → min (bit x i) (bit y i) ≡ 0) → x + y ≡ bit_or x y
unfolding bit
add-or_fuel zero x y p q h = let e : x ≡ 0 = omega arith in let f : y ≡ 0 = omega arith in rw (e, f)
add-or_fuel (suc n) x y p q h = omega (
  arith,
  h 0,
  or_halve x y,
  add-or_fuel n (x / 2) (y / 2) (omega arith) (omega arith) (λ i. h (suc i)),
)

pub add-eq-or : (x y : ℕ) → ((i : ℕ) → min (bit x i) (bit y i) ≡ 0) → x + y ≡ bit_or x y
add-eq-or x y h = add-or_fuel (x + y) x y (omega arith) (omega arith) h

halve_sum : (x y c : ℕ) → (x + y + c) / 2 ≡ x / 2 + y / 2 + (x % 2 + y % 2 + c) / 2
halve_sum x y c = omega arith

pub bit-add_squeeze :
    (i l x h l' x' h' cl c ch : ℕ)
    → Sub l x
    → Sub x h
    → Sub l' x'
    → Sub x' h'
    → cl ≤ c
    → c ≤ ch
    → ch ≤ 1
    → bit l i ≡ bit h i
    → bit l' i ≡ bit h' i
    → bit (l + l' + cl) i ≡ bit (h + h' + ch) i
    → bit (x + x' + c) i ≡ bit (l + l' + cl) i
unfolding bit
bit-add_squeeze zero l x h l' x' h' cl c ch lx xh lx' xh' p q r e e' s =
    omega (arith, Sub-parity l x lx, Sub-parity x h xh, Sub-parity l' x' lx', Sub-parity x' h' xh')
bit-add_squeeze (suc i) l x h l' x' h' cl c ch lx xh lx' xh' p q r e e' s =
    let a = Sub-parity l x lx in
    let b = Sub-parity x h xh in
    let a' = Sub-parity l' x' lx' in
    let b' = Sub-parity x' h' xh' in
    rw (halve_sum x x' c, halve_sum l l' cl)
      (bit-add_squeeze i (l / 2) (x / 2) (h / 2) (l' / 2) (x' / 2) (h' / 2)
        ((l % 2 + l' % 2 + cl) / 2) ((x % 2 + x' % 2 + c) / 2) ((h % 2 + h' % 2 + ch) / 2)
        (Sub-half l x lx) (Sub-half x h xh) (Sub-half l' x' lx') (Sub-half x' h' xh') (omega arith)
        (omega arith) (omega arith) e e' (rw (halve_sum l l' cl, halve_sum h h' ch) at s))

pub bit-word_squeeze :
    (i c l x h l' x' h' : ℕ)
    → i < 64
    → c ≤ 1
    → Sub l x
    → Sub x h
    → Sub l' x'
    → Sub x' h'
    → bit l i ≡ bit h i
    → bit l' i ≡ bit h' i
    → bit (word (l + l' + c)) i ≡ bit (word (h + h' + c)) i
    → bit (word (x + x' + c)) i ≡ bit (word (l + l' + c)) i
bit-word_squeeze i c l x h l' x' h' p q lx xh lx' xh' e e' s =
    let at_low = bit-mod_lt 64 (l + l' + c) i p in
    let at_high = bit-mod_lt 64 (h + h' + c) i p in
    let at_sum = bit-mod_lt 64 (x + x' + c) i p in
    omega (
      arith,
      bit-add_squeeze i l x h l' x' h' c c c lx xh lx' xh' (omega arith) (omega arith) q e e'
          (omega arith),
    )
