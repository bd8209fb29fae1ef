-- ===== src/Codec/Hex.antt =====
-- src/sdk/utils/codec.h and src/sdk/common/helper.h: text that was made from bytes is read back.
use dingo_sdk.Base.{ℕ, ◌+◌, ◌*◌, ◌/◌, ◌%◌, ◌<◌, List, [], ◌∷◌, some, ◌≡◌, refl, ap, All, arith}
use dingo_sdk.Codec.{
  upper_digit, lower_digit, digit_value, stoi_two, hex_string_to_bytes, bytes_to_hex_string,
  string_to_hex,
}

digit_value-upper_digit : (n : ℕ) → n < 16 → digit_value (upper_digit n) ≡ some n
unfolding digit_value upper_digit
digit_value-upper_digit n h = ground arith

digit_value-lower_digit : (n : ℕ) → n < 16 → digit_value (lower_digit n) ≡ some n
unfolding digit_value lower_digit
digit_value-lower_digit n h = ground arith

stoi_two-digits :
    (c d high low : ℕ)
    → digit_value c ≡ some high
    → digit_value d ≡ some low
    → stoi_two c d ≡ some (16 * high + low)
unfolding stoi_two
stoi_two-digits c d high low p q = rw (p, q) refl

upper_pair :
    (b : ℕ) → b < 256 → stoi_two (upper_digit ((b / 16) % 16)) (upper_digit (b % 16)) ≡ some b
upper_pair b h =
    rw
      (stoi_two-digits _ _ _ _ (digit_value-upper_digit ((b / 16) % 16) (omega arith))
        (digit_value-upper_digit (b % 16) (omega arith)))
      (ap some (omega arith))

lower_pair : (b : ℕ) → b < 256 → stoi_two (lower_digit (b / 16)) (lower_digit (b % 16)) ≡ some b
lower_pair b h =
    rw
      (stoi_two-digits _ _ _ _ (digit_value-lower_digit (b / 16) (omega arith))
        (digit_value-lower_digit (b % 16) (omega arith)))
      (ap some (omega arith))

abbrev pub IsByte : ℕ → Type 0
IsByte b = b < 256

bytes_to_hex_string-back :
    (bs : List ℕ) → All IsByte bs → hex_string_to_bytes (bytes_to_hex_string bs) ≡ some bs
unfolding hex_string_to_bytes bytes_to_hex_string
bytes_to_hex_string-back [] h = refl
bytes_to_hex_string-back (b ∷ bs) h = rw (upper_pair b h.0, bytes_to_hex_string-back bs h.1) refl

string_to_hex-back :
    (bs : List ℕ) → All IsByte bs → hex_string_to_bytes (string_to_hex bs) ≡ some bs
unfolding hex_string_to_bytes string_to_hex
string_to_hex-back [] h = refl
string_to_hex-back (b ∷ bs) h = rw (lower_pair b h.0, string_to_hex-back bs h.1) refl

-- HexStringToBytes reads back the text that BytesToHexString makes of a string of bytes, and also
-- the text in small letters that StringToHex makes of it.
pub hex_string_to_bytes-hex :
    (bs : List ℕ)
    → All IsByte bs
    → (hex_string_to_bytes (bytes_to_hex_string bs) ≡ some bs)
      × (hex_string_to_bytes (string_to_hex bs) ≡ some bs)
hex_string_to_bytes-hex bs h = (bytes_to_hex_string-back bs h, string_to_hex-back bs h)
