-- ===== src/Kio/Examples.antt =====
-- Numbers printed by the functions of src/kio.c.
use zosys.Common.{◌%◌, ◌^◌, ◌≡◌, refl, arith}
use zosys.Kio.{kio_put_uc, kio_put_us, kio_put_ui, kio_put_ul, hex_digit}
use zosys.Kio.Hex.{Prints, kio_put-Prints}

kio_put-Prints_example :
    Prints kio_put_uc 2 (0xBEEF12 % 2 ^ 8)
    × Prints kio_put_us 4 (0xBEEF12 % 2 ^ 16)
    × Prints kio_put_ui 4 (0xBEEF12 % 2 ^ 16)
    × Prints kio_put_ul 8 0xBEEF12
kio_put-Prints_example = kio_put-Prints 0xBEEF12 (omega arith)

digit_11 : hex_digit 11 ≡ b'B'
unfolding hex_digit
digit_11 = refl
