-- ===== src/Common/Bits.antt =====
-- The bits of a machine word under `|` and `&`, from the digit definitions of the native
-- operations. `bit x i` is bit `i` of `x`; `clear_mask w i` is `~(1 << i)` in `w` bits.
use Prim.Native.Nat.{
  ℕ, zero, suc, ◌+◌, ◌-◌, ◌*◌, ◌/◌, ◌%◌, ◌^◌, ◌≤◌, ◌<◌, min, max, bit_and, bit_or, digits,
  bit_and-bitwise, bit_or-bitwise,
}
use mathlib.Core.Path.{◌≡◌, refl, ◌∙◌}
use mathlib.Core.Bool.{Bool, true, false, not, ◌&&◌, ◌||◌}
use mathlib.Core.Logic.{inl, inr}
use native.Mathlib.Nat.{pow-suc}
use native.Mathlib.Omega.{arith}
use zosys.Common.Tests.{◌==◌, if◌then◌else◌, ltb, ltb→lt, ==_iff, Bool-cases}

unfoldable pub bit : ℕ → ℕ → Bool
bit x zero = x % 2 == 1
bit x (suc i) = bit (x / 2) i

-- More rounds than digits change nothing.
digits_enough :
    (z : ℕ → ℕ) (f : ℕ → ℕ → ℕ) (k l a b : ℕ) → a ≤ k → a ≤ l → digits z f k a b ≡ digits z f l a b
digits_enough z f zero zero a b p q = refl
digits_enough z f (suc k) zero zero b p q = refl
digits_enough z f zero (suc l) zero b p q = refl
digits_enough z f (suc k) (suc l) zero b p q = refl
digits_enough z f zero (suc l) (suc a) b p q = absurd (omega arith)
digits_enough z f (suc k) zero (suc a) b p q = absurd (omega arith)
digits_enough z f (suc k) (suc l) (suc a) b p q =
    omega (arith, digits_enough z f k l (suc a / 2) (b / 2) (omega arith) (omega arith))

or_low : (a b : ℕ) → bit_or a b ≡ bit_or (a / 2) (b / 2) * 2 + max (a % 2) (b % 2)
or_low zero b = omega (arith, bit_or-bitwise 0 b, bit_or-bitwise 0 (b / 2))
or_low (suc a) b = omega (
  arith,
  bit_or-bitwise (suc a) b,
  bit_or-bitwise (suc a / 2) (b / 2),
  digits_enough (λ y. y) max a (suc a / 2) (suc a / 2) (b / 2) (omega arith) (omega arith),
)

and_low : (a b : ℕ) → bit_and a b ≡ bit_and (a / 2) (b / 2) * 2 + min (a % 2) (b % 2)
and_low zero b = omega (arith, bit_and-bitwise 0 b, bit_and-bitwise 0 (b / 2))
and_low (suc a) b = omega (
  arith,
  bit_and-bitwise (suc a) b,
  bit_and-bitwise (suc a / 2) (b / 2),
  digits_enough (λ y. 0) min a (suc a / 2) (suc a / 2) (b / 2) (omega arith) (omega arith),
)

or_half : (a b : ℕ) → bit_or a b / 2 ≡ bit_or (a / 2) (b / 2)
or_half a b = omega (arith, or_low a b)

and_half : (a b : ℕ) → bit_and a b / 2 ≡ bit_and (a / 2) (b / 2)
and_half a b = omega (arith, and_low a b)

pub bit-or : (a b i : ℕ) → bit (bit_or a b) i ≡ (bit a i || bit b i)
unfolding bit
bit-or a b zero = ground (arith, or_low a b)
bit-or a b (suc i) = rw or_half (bit-or (a / 2) (b / 2) i)

pub bit-and : (a b i : ℕ) → bit (bit_and a b) i ≡ (bit a i && bit b i)
unfolding bit
bit-and a b zero = ground (arith, and_low a b)
bit-and a b (suc i) = rw and_half (bit-and (a / 2) (b / 2) i)

pub bit-zero : (i : ℕ) → bit 0 i ≡ false
unfolding bit
bit-zero zero = refl
bit-zero (suc i) = bit-zero i

pow_half : (i : ℕ) → 2 ^ suc i / 2 ≡ 2 ^ i
pow_half i = omega (arith, pow-suc 2 i)

-- `1 << i` has one bit.
pub bit-pow : (i j : ℕ) → bit (2 ^ i) j ≡ (i == j)
unfolding bit
bit-pow zero zero = refl
bit-pow zero (suc j) = bit-zero j ∙ ground arith
bit-pow (suc i) zero = ground (arith, pow-suc 2 i)
bit-pow (suc i) (suc j) = rw pow_half (bit-pow i j ∙ ground arith)

-- `x & (1 << i)` is zero exactly if bit `i` is clear.
and-zero : (n x : ℕ) → x ≤ n → bit_and x 0 ≡ 0
and-zero zero (suc x) h = absurd (omega arith)
and-zero n zero h = refl
and-zero (suc n) (suc x) h = omega (arith, and_low (suc x) 0, and-zero n (suc x / 2) (omega arith))

pub and-pow : (x i : ℕ) → (bit_and x (2 ^ i) == 0) ≡ not (bit x i)
unfolding bit
and-pow x zero = ground (arith, and_low x 1, and-zero (x / 2) (x / 2) (omega arith))
and-pow x (suc i) =
    ground (arith, and-pow (x / 2) i, and_low x (2 ^ suc i), pow-suc 2 i, pow_half i)

-- `x & 0xF` is the lowest digit in base 16.
pub and_15 : (x : ℕ) → bit_and x 0xF ≡ x % 16
and_15 x = omega (
  arith,
  and_low x 15,
  and_low (x / 2) 7,
  and_low (x / 2 / 2) 3,
  and_low (x / 2 / 2 / 2) 1,
  and-zero (x / 2 / 2 / 2 / 2) (x / 2 / 2 / 2 / 2) (omega arith),
)

and_127 : (x : ℕ) → bit_and x 0x7F ≡ x % 128
and_127 x =
    omega (arith, and_low x 127, and_low (x / 2) 63, and_low (x / 2 / 2) 31, and_15 (x / 2 / 2 / 2))

-- `x & 0xFF` is the lowest byte.
pub and_255 : (x : ℕ) → bit_and x 0xFF ≡ x % 256
and_255 x = omega (arith, and_low x 255, and_127 (x / 2))

pub and_1 : (x : ℕ) → bit_and x 1 ≡ x % 2
and_1 x = omega (arith, and_low x 1, and-zero (x / 2) (x / 2) (omega arith))

or_zero_up_to : (n a : ℕ) → a ≤ n → bit_or a 0 ≡ a
or_zero_up_to zero (suc a) h = absurd (omega arith)
or_zero_up_to n zero h = omega (arith, bit_or-bitwise 0 0)
or_zero_up_to (suc n) (suc a) h =
    omega (arith, or_low (suc a) 0, or_zero_up_to n (suc a / 2) (omega arith))

pub or_zero : (a : ℕ) → bit_or a 0 ≡ a
or_zero a = or_zero_up_to a a (omega arith)

-- `x | y` and `x & y` stay within the width.
pub or-lt : (w a b : ℕ) → a < 2 ^ w → b < 2 ^ w → bit_or a b < 2 ^ w
or-lt zero zero zero p q = omega arith
or-lt zero zero (suc b) p q = absurd (omega arith)
or-lt zero (suc a) b p q = absurd (omega arith)
or-lt (suc w) a b p q = omega (
  arith,
  or_low a b,
  pow-suc 2 w,
  or-lt w (a / 2) (b / 2) (omega (arith, pow-suc 2 w)) (omega (arith, pow-suc 2 w)),
)

pub and-lt : (w a b : ℕ) → a < 2 ^ w → bit_and a b < 2 ^ w
and-lt zero zero b p = omega (arith, bit_and-bitwise 0 b)
and-lt zero (suc a) b p = absurd (omega arith)
and-lt (suc w) a b p =
    omega (arith, and_low a b, pow-suc 2 w, and-lt w (a / 2) (b / 2) (omega (arith, pow-suc 2 w)))

-- A word of `w` bits, all clear or all set.
pub eq-zero_of_bits : (w x : ℕ) → x < 2 ^ w → ((i : ℕ) → i < w → bit x i ≡ false) → x ≡ 0
unfolding bit
eq-zero_of_bits zero x h f = omega arith
eq-zero_of_bits (suc w) x h f =
    let e =
      eq-zero_of_bits w (x / 2) (omega (arith, pow-suc 2 w)) (λ i p. f (suc i) (omega arith)) in
    ground (arith, f 0 (omega arith))

pub eq-full_of_bits : (w x : ℕ) → x < 2 ^ w → ((i : ℕ) → i < w → bit x i ≡ true) → x + 1 ≡ 2 ^ w
unfolding bit
eq-full_of_bits zero x h f = omega arith
eq-full_of_bits (suc w) x h f =
    let e =
      eq-full_of_bits w (x / 2) (omega (arith, pow-suc 2 w)) (λ i p. f (suc i) (omega arith)) in
    ground (arith, f 0 (omega arith), pow-suc 2 w)

-- Does a test hold from `start` on, for `left` numbers?
unfoldable pub holds_from : (ℕ → Bool) → (start left : ℕ) → Bool
holds_from test start zero = true
holds_from test start (suc left) =
    let rest = holds_from test (start + 1) left in if test start then rest else false

pub at_of_holds :
    (test : ℕ → Bool) (start left k : ℕ)
    → holds_from test start left ≡ true
    → start ≤ k
    → k < start + left
    → test k ≡ true
unfolding holds_from
at_of_holds test start zero k all above below = absurd (omega arith)
at_of_holds test start (suc left) k all above below = elim (Bool-cases (start == k)) [
  | inl e ↦ let here : start ≡ k = ground arith in rw (← here) (ground (arith, all))
  | inr e ↦ at_of_holds test (start + 1) left k (ground (arith, all)) (ground arith) (omega arith)
]

below_16 : (test : ℕ → Bool) (k : ℕ) → holds_from test 0 16 ≡ true → k < 16 → test k ≡ true
below_16 test k all h = at_of_holds test 0 16 k all (omega arith) (omega arith)

pow_table : holds_from (λ i. ltb (2 ^ i) 65536) 0 16 ≡ true
unfolding holds_from
pow_table = refl

pub pow-lt : (i : ℕ) → i < 16 → 2 ^ i < 65536
pow-lt i h = ltb→lt (2 ^ i) 65536 (below_16 (λ i. ltb (2 ^ i) 65536) i pow_table h)

abbrev pub same : Bool → Bool → Bool
same true b = b
same false b = not b

pub same-eq : (a b : Bool) → same a b ≡ true → a ≡ b
same-eq true b h = ground arith
same-eq false b h = ground arith

mask_row : ℕ → ℕ → Bool
mask_row i j = same (bit (0xffff - 2 ^ i) j) (not (i == j))

mask_table : holds_from (λ i. holds_from (mask_row i) 0 16) 0 16 ≡ true
unfolding holds_from mask_row bit
mask_table = refl

-- In 16 bits `~(1U << i)` has every bit but `i`.
pub bit-mask : (i j : ℕ) → i < 16 → j < 16 → bit (0xffff - 2 ^ i) j ≡ not (i == j)
unfolding mask_row
bit-mask i j hi hj =
    let row = below_16 (λ i. holds_from (mask_row i) 0 16) i mask_table hi in
    same-eq _ _ (below_16 (mask_row i) j row hj)

full_table : holds_from (bit 0xffff) 0 16 ≡ true
unfolding holds_from bit
full_table = refl

pub bit-full : (i : ℕ) → i < 16 → bit 0xffff i ≡ true
bit-full i h = below_16 (bit 0xffff) i full_table h

or_128_row : ℕ → Bool
or_128_row x = bit_or x 0x80 == x + 0x80

or_128_table : holds_from or_128_row 0 128 ≡ true
unfolding holds_from or_128_row
or_128_table = refl

-- The highest bit of a byte that has it clear.
pub or_128 : (x : ℕ) → x < 128 → bit_or x 0x80 ≡ x + 0x80
unfolding or_128_row
or_128 x h =
    (==_iff (bit_or x 0x80) (x + 0x80)).0
      (at_of_holds or_128_row 0 128 x or_128_table (omega arith) h)
