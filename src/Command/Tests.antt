-- ===== src/Command/Tests.antt =====
-- Tests of the commands, and the theorem on the digits at concrete characters.
use eclipse_code.Prelude.{◌≡◌, refl, true, false, [], ◌∷◌}
use eclipse_code.Command.{char_to_hex, get_string_length}
use eclipse_code.Command.Hex.{digit_value, byte_of, char_to_hex-byte_of}

-- `4f` is 79, and the letter `g` is no digit
small_hex : char_to_hex 52 102 ≡ (79, true)
unfolding char_to_hex
small_hex = refl

no_hex : char_to_hex 52 103 ≡ (0, false)
unfolding char_to_hex
no_hex = refl

-- `:command:07A5` with the end of its line
text_length : get_string_length (58 ∷ 99 ∷ 111 ∷ 109 ∷ 10 ∷ []) ≡ 4
unfolding get_string_length
text_length = refl

char_to_hex-byte_of_example : char_to_hex 52 102 ≡ byte_of (digit_value 52) (digit_value 102)
char_to_hex-byte_of_example = char_to_hex-byte_of 52 102
