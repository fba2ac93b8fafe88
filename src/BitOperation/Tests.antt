-- ===== src/BitOperation/Tests.antt =====
-- Tests of the bit operations, and their theorems at concrete words.
use eclipse_code.Prelude.{◌^◌, ◌≤◌, ◌≡◌, refl, ◌&&◌, ◌||◌, not, ◌==◌, test_bit, digit, arith}
use eclipse_code.BitOperation.{
  byte_setbit, byte_clearbit, byte_getbit, twobyte_setbit, twobyte_clearbit, twobyte_getbit,
  byte_lem, twobyte_lem,
}
use eclipse_code.BitOperation.Number.{
  bit_number_loop, get_binary_bit_number, HasDigits, get_binary_bit_number-HasDigits,
  get_binary_bit_number_short,
}

digits_of_1000 : get_binary_bit_number 1000 ≡ 10
unfolding get_binary_bit_number bit_number_loop
digits_of_1000 = refl

digits_of_40000 : get_binary_bit_number 40000 ≡ 15
unfolding get_binary_bit_number bit_number_loop
digits_of_40000 = refl

byte_lem_example :
    (test_bit (byte_setbit 6 3) 2 ≡ (test_bit 6 2 || (2 == 3)))
    × (test_bit (byte_clearbit 6 3) 2 ≡ (test_bit 6 2 && not (2 == 3)))
    × (byte_getbit 6 3 ≡ digit (test_bit 6 3))
byte_lem_example = byte_lem 6 3 2 (omega arith) (omega arith)

twobyte_lem_example :
    (test_bit (twobyte_setbit 6 13) 13 ≡ (test_bit 6 13 || (13 == 13)))
    × (test_bit (twobyte_clearbit 6 13) 13 ≡ (test_bit 6 13 && not (13 == 13)))
    × (twobyte_getbit 6 13 ≡ digit (test_bit 6 13))
twobyte_lem_example = twobyte_lem 6 13 13 (omega arith) (omega arith)

get_binary_bit_number-HasDigits_example : HasDigits 1000 (get_binary_bit_number 1000)
get_binary_bit_number-HasDigits_example =
    get_binary_bit_number-HasDigits 1000 (omega arith) (omega arith)

get_binary_bit_number_short_example :
    (get_binary_bit_number 40000 ≡ 15) × (2 ^ get_binary_bit_number 40000 ≤ 40000)
get_binary_bit_number_short_example = get_binary_bit_number_short 40000 (omega arith) (omega arith)
