-- ===== src/Word/Signed.antt =====
-- The signed operators of C++ on intN_t values held in a uint64_t. `none` is undefined behaviour.
use metajit_cpp.Word.Ops.{word, not64}
use metajit_cpp.Base.{
  ℕ, suc, ◌-◌, ◌/◌, ◌%◌, ◌^◌, Bool, true, false, ◌&&◌, ◌||◌, Option, none, some, ltb, leb, ◌==◌,
  if◌then◌else◌,
}

-- `negsuc n` is -(n + 1).
pub data ℤ : Type 0 where
  pos : ℕ → ℤ
  negsuc : ℕ → ℤ

-- `intN_t(a)` with N = w: the low `w` bits, read in two's complement.
unfoldable pub to_signed : ℕ → ℕ → ℤ
to_signed w a =
    let low = a % 2 ^ w in if ltb low (2 ^ (w - 1)) then pos low else negsuc (2 ^ w - 1 - low)

-- The conversion to uint64_t.
unfoldable pub to_word : ℤ → ℕ
unfolding not64
to_word (pos n) = word n
to_word (negsuc n) = not64 (word n)

abbrev magnitude : ℤ → ℕ
magnitude (pos n) = n
magnitude (negsuc n) = suc n

abbrev is_negative : ℤ → Bool
is_negative (pos n) = false
is_negative (negsuc n) = true

abbrev negate : ℕ → ℤ
negate n = if n == 0 then pos 0 else negsuc (n - 1)

abbrev signed_of : Bool → ℕ → ℤ
signed_of true n = negate n
signed_of false n = pos n

abbrev differ_in_sign : Bool → Bool → Bool
differ_in_sign true s = if s then false else true
differ_in_sign false s = s

-- intN_t operands are promoted to at least 32 bits.
unfoldable pub promoted_width : ℕ → ℕ
promoted_width w = if leb w 32 then 32 else w

-- The quotient or remainder is undefined: a zero divisor, or the least promoted value by -1.
unfoldable pub division_fails : ℕ → ℤ → ℤ → Bool
unfolding promoted_width
division_fails w x y =
    magnitude y == 0
    || (is_negative x
        && magnitude x == 2 ^ (promoted_width w - 1)
        && (is_negative y && magnitude y == 1))

-- `x / y` and `x % y`, which truncate towards zero.
unfoldable pub signed_quotient : ℕ → ℤ → ℤ → Option ℤ
unfolding division_fails
signed_quotient w x y =
    if division_fails w x y
    then none
    else some
        (signed_of (differ_in_sign (is_negative x) (is_negative y)) (magnitude x / magnitude y))

unfoldable pub signed_remainder : ℕ → ℤ → ℤ → Option ℤ
unfolding division_fails
signed_remainder w x y =
    if division_fails w x y
    then none
    else some (signed_of (is_negative x) (magnitude x % magnitude y))

unfoldable pub signed_ltb : ℤ → ℤ → Bool
signed_ltb (pos a) (pos b) = ltb a b
signed_ltb (pos a) (negsuc b) = false
signed_ltb (negsuc a) (pos b) = true
signed_ltb (negsuc a) (negsuc b) = ltb b a

-- `x >> y`, an arithmetic shift of a promoted value.
unfoldable pub signed_shift : ℕ → ℤ → ℤ → Option ℤ
unfolding promoted_width
signed_shift w x (negsuc s) = none
signed_shift w (pos n) (pos s) = if ltb s (promoted_width w) then some (pos (n / 2 ^ s)) else none
signed_shift w (negsuc n) (pos s) =
    if ltb s (promoted_width w) then some (negsuc (n / 2 ^ s)) else none
