-- ===== src/Codec.antt =====
-- src/sdk/utils/codec.h, and `StringToHex` of src/sdk/common/helper.h: bytes as hexadecimal text.
-- Bytes and characters are numbers below 256.
use dingo_sdk.Base.{
  ℕ, ◌+◌, ◌-◌, ◌*◌, ◌/◌, ◌%◌, Bool, true, false, ◌&&◌, ◌||◌, List, [], ◌∷◌, Option, none, some,
  if◌then◌else◌, ltb, leb, ◌==◌,
}
pub mod Hex

-- `hex_code[n]` for n below 16, of "0123456789ABCDEF" and of "0123456789abcdef".
unfoldable pub upper_digit : ℕ → ℕ
upper_digit n = if ltb n 10 then b'0' + n else b'A' + (n - 10)

unfoldable pub lower_digit : ℕ → ℕ
lower_digit n = if ltb n 10 then b'0' + n else b'a' + (n - 10)

unfoldable pub bytes_to_hex_string : List ℕ → List ℕ
unfolding upper_digit
bytes_to_hex_string [] = []
bytes_to_hex_string (b ∷ bs) =
    upper_digit ((b / 16) % 16) ∷ upper_digit (b % 16) ∷ bytes_to_hex_string bs

unfoldable pub string_to_hex : List ℕ → List ℕ
unfolding lower_digit
string_to_hex [] = []
string_to_hex (c ∷ cs) = lower_digit (c / 16) ∷ lower_digit (c % 16) ∷ string_to_hex cs

-- What `std::stoi` with base 16 reads of a character.
unfoldable pub digit_value : ℕ → Option ℕ
digit_value c =
    if leb b'0' c && leb c b'9'
    then some (c - b'0')
    else if leb b'A' c && leb c b'F'
    then some (c - b'A' + 10)
    else if leb b'a' c && leb c b'f'
    then some (c - b'a' + 10)
    else none

abbrev pub is_space : ℕ → Bool
is_space c = c == 32 || (leb 9 c && leb c 13)

-- `std::stoi(s, nullptr, 16)` of one or two characters, as a byte: it skips a leading space, takes a
-- sign, and stops at what is no digit; `none` is the exception that it throws when it reads none.
unfoldable pub stoi_one : ℕ → Option ℕ
stoi_one c = digit_value c

after_digit : ℕ → Option ℕ → Option ℕ
after_digit high none = some high
after_digit high (some low) = some (16 * high + low)

negated : Option ℕ → Option ℕ
negated none = none
negated (some n) = some ((256 - n) % 256)

after_first : Option ℕ → ℕ → ℕ → Option ℕ
unfolding after_digit negated
after_first (some high) c d = after_digit high (digit_value d)
after_first none c d =
    if is_space c || c == b'+'
    then digit_value d
    else if c == b'-'
    then negated (digit_value d)
    else none

unfoldable pub stoi_two : ℕ → ℕ → Option ℕ
unfolding after_first
stoi_two c d = after_first (digit_value c) c d

push : Option ℕ → Option (List ℕ) → Option (List ℕ)
push none rest = none
push (some b) none = none
push (some b) (some bs) = some (b ∷ bs)

-- The loop takes two characters at a time, and the last one alone in a text of odd length.
unfoldable pub hex_string_to_bytes : List ℕ → Option (List ℕ)
unfolding stoi_one stoi_two push
hex_string_to_bytes [] = some []
hex_string_to_bytes (c ∷ []) = push (stoi_one c) (some [])
hex_string_to_bytes (c ∷ d ∷ cs) = push (stoi_two c d) (hex_string_to_bytes cs)
