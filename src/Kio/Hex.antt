-- ===== src/Kio/Hex.antt =====
-- What the functions of src/kio.c print of a number is read back as that number.
use zosys.Common.{
  ℕ, zero, suc, ◌+◌, ◌-◌, ◌*◌, ◌/◌, ◌%◌, ◌^◌, ◌<◌, ◌≤◌, ◌≡◌, ◌⊎◌, inl, inr, Bool-cases, refl, List,
  [], ◌∷◌, arith, length, leb, if◌then◌else◌,
}
use zosys.Common.Bits.{and_15}
use zosys.Asci.{Port}
use zosys.Kio.{
  kio_putc, kio_puts, hex_digit, put_digits, kio_put_uc, kio_put_us, kio_put_ui, kio_put_ul,
}

-- The characters 0 to 9 and A to F.
abbrev pub IsHexDigit : ℕ → Type 0
IsHexDigit c = ((b'0' ≤ c) × (c ≤ b'9')) ⊎ ((b'A' ≤ c) × (c ≤ b'F'))

abbrev pub AreHexDigits : List ℕ → Type 0
AreHexDigits [] = Unit {0}
AreHexDigits (c ∷ s) = IsHexDigit c × AreHexDigits s

abbrev pub digit_value : ℕ → ℕ
digit_value c = if leb c b'9' then c - b'0' else c - b'A' + 10

-- The number that a string of hexadecimal digits stands for, `acc` being that of the digits before.
abbrev pub hex_value : ℕ → List ℕ → ℕ
hex_value acc [] = acc
hex_value acc (c ∷ s) = hex_value (acc * 16 + digit_value c) s

digits : ℕ → ℕ → List ℕ
digits n zero = []
digits n (suc i) = hex_digit (n / 2 ^ (i * 4) % 16) ∷ digits n i

value-hex_digit : (x : ℕ) → digit_value (hex_digit (x % 16)) ≡ x % 16
unfolding hex_digit
value-hex_digit x = ground arith

IsHexDigit-hex_digit : (x : ℕ) → IsHexDigit (hex_digit (x % 16))
unfolding hex_digit
IsHexDigit-hex_digit x = elim (Bool-cases (leb (x % 16) 9)) [
  | inl low ↦ rw low (inl (omega arith, ground arith))
  | inr high ↦ rw high (inr (ground arith, omega arith))
]

digits-AreHexDigits : (n i : ℕ) → AreHexDigits (digits n i)
unfolding digits
digits-AreHexDigits n zero = tt
digits-AreHexDigits n (suc i) = (IsHexDigit-hex_digit (n / 2 ^ (i * 4)), digits-AreHexDigits n i)

put_digits-puts : (n i : ℕ) (p : Port) → put_digits n i p ≡ kio_puts (digits n i) p
unfolding put_digits digits kio_puts
put_digits-puts n zero p = refl
put_digits-puts n (suc i) p =
    rw (and_15 (n / 2 ^ (i * 4)))
      (put_digits-puts n i (kio_putc (hex_digit (n / 2 ^ (i * 4) % 16)) p))

-- What is printed is a string of `k` hexadecimal digits that stands for `n`.
abbrev pub Prints : (ℕ → Port → Port) → (k n : ℕ) → Type 0
Prints put k n =
    (s : List ℕ) × ((p : Port) → put n p ≡ kio_puts s p)
    × (length s ≡ k)
    × AreHexDigits s
    × (hex_value 0 s ≡ n)

hex_value_2 : (n : ℕ) → n < 2 ^ 8 → hex_value 0 (digits n 2) ≡ n
unfolding digits
hex_value_2 n h = rw (value-hex_digit (n / 2 ^ 4), value-hex_digit (n / 2 ^ 0)) (omega arith)

hex_value_4 : (n : ℕ) → n < 2 ^ 16 → hex_value 0 (digits n 4) ≡ n
unfolding digits
hex_value_4 n h =
    rw
      (
        value-hex_digit (n / 2 ^ 12),
        value-hex_digit (n / 2 ^ 8),
        value-hex_digit (n / 2 ^ 4),
        value-hex_digit (n / 2 ^ 0),
      )
      (omega arith)

hex_value_8 : (n : ℕ) → n < 2 ^ 32 → hex_value 0 (digits n 8) ≡ n
unfolding digits
hex_value_8 n h =
    rw
      (
        value-hex_digit (n / 2 ^ 28),
        value-hex_digit (n / 2 ^ 24),
        value-hex_digit (n / 2 ^ 20),
        value-hex_digit (n / 2 ^ 16),
        value-hex_digit (n / 2 ^ 12),
        value-hex_digit (n / 2 ^ 8),
        value-hex_digit (n / 2 ^ 4),
        value-hex_digit (n / 2 ^ 0),
      )
      (omega arith)

-- Each of the four functions prints a number that fits its argument's type as so many hexadecimal
-- digits, 0 to 9 and A to F, as the type has, 2, 4, 4 and 8, which are read back as the number.
pub kio_put-Prints :
    (n : ℕ)
    → n < 2 ^ 32
    → Prints kio_put_uc 2 (n % 2 ^ 8)
      × Prints kio_put_us 4 (n % 2 ^ 16)
      × Prints kio_put_ui 4 (n % 2 ^ 16)
      × Prints kio_put_ul 8 n
unfolding kio_put_uc kio_put_us kio_put_ui kio_put_ul digits
kio_put-Prints n h =
    let c = n % 2 ^ 8 in
    let s = n % 2 ^ 16 in
    (
      (digits c 2, put_digits-puts c 2, refl, digits-AreHexDigits c 2, hex_value_2 c (omega arith)),
      (digits s 4, put_digits-puts s 4, refl, digits-AreHexDigits s 4, hex_value_4 s (omega arith)),
      (digits s 4, put_digits-puts s 4, refl, digits-AreHexDigits s 4, hex_value_4 s (omega arith)),
      (digits n 8, put_digits-puts n 8, refl, digits-AreHexDigits n 8, hex_value_8 n h),
    )
