-- ===== src/Kio.antt =====
-- src/kio.c: the kernel's output on the first serial port. A string is the list of its characters.
pub mod Hex
mod Examples
use Prim.Native.Nat.{bit_and}
use zosys.Common.{ℕ, zero, suc, ◌+◌, ◌-◌, ◌*◌, ◌/◌, ◌^◌, List, [], ◌∷◌, leb, if◌then◌else◌}
use zosys.Asci.{Port, asci_0_putc}

unfoldable pub kio_putc : ℕ → Port → Port
kio_putc c p = (asci_0_putc c p).1

unfoldable pub kio_puts : List ℕ → Port → Port
unfolding kio_putc
kio_puts [] p = p
kio_puts (c ∷ s) p = kio_puts s (kio_putc c p)

unfoldable pub hex_digit : ℕ → ℕ
hex_digit digit = if leb digit 9 then digit + b'0' else digit + (b'A' - 0xA)

-- The loop from digit `i - 1` down to 0, the same in all four functions.
unfoldable pub put_digits : ℕ → (i : ℕ) → Port → Port
unfolding kio_putc hex_digit
put_digits n zero p = p
put_digits n (suc i) p = put_digits n i (kio_putc (hex_digit (bit_and (n / 2 ^ (i * 4)) 0xF)) p)

unfoldable pub kio_put_uc : ℕ → Port → Port
unfolding put_digits
kio_put_uc n p = put_digits n 2 p

unfoldable pub kio_put_us : ℕ → Port → Port
unfolding put_digits
kio_put_us n p = put_digits n 4 p

-- An `int` has two bytes.
unfoldable pub kio_put_ui : ℕ → Port → Port
unfolding put_digits
kio_put_ui n p = put_digits n 4 p

unfoldable pub kio_put_ul : ℕ → Port → Port
unfolding put_digits
kio_put_ul n p = put_digits n 8 p
