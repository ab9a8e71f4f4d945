-- ===== src/Util.antt =====
-- src/Utilities/Util.h: the hexadecimal digits of the handshake. A byte is a number below 256 and
-- a string is its characters' codes.
use janus_ftl_plugin.Prelude.{
  ℕ, ◌+◌, ◌-◌, ◌*◌, ◌/◌, ◌%◌, ◌<◌, ◌≡◌, ◌≢◌, ◌&&◌, ◌||◌, not, Bool, true, refl, [], ◌∷◌, arith, ltb,
  leb, if◌then◌else◌, All,
}
use janus_ftl_plugin.Prelude.Text.{Text}
use janus_ftl_plugin.Rtp.Packet.{Bytes}

unfoldable is_hex_digit : ℕ → Bool
is_hex_digit c =
    (leb b'0' c && leb c b'9') || (leb b'a' c && leb c b'f') || (leb b'A' c && leb c b'F')

-- The value of a digit, of either case, as `std::hex` reads it; nothing else is asked for.
unfoldable hex_value : ℕ → ℕ
hex_value c =
    if leb b'0' c && leb c b'9'
    then c - b'0'
    else if leb b'a' c && leb c b'f'
    then c - b'a' + 10
    else c - b'A' + 10

-- A read that finds no digit stores 0.
unfoldable failed_reads : Text → Bytes
failed_reads [] = []
failed_reads (c ∷ []) = 0 ∷ []
failed_reads (c ∷ d ∷ cs) = 0 ∷ failed_reads cs

-- Two characters at a time; a last one stands for itself. `clear` does not drop what a read has left
-- in the stream, so from a character that is no digit on every read fails. The blanks, the signs and
-- the `0x` that `std::hex` skips are taken for such characters too; no string of the handshake has
-- any of them.
unfoldable pub hex_string_to_byte_array : Text → Bytes
unfolding is_hex_digit hex_value failed_reads
hex_string_to_byte_array [] = []
hex_string_to_byte_array (c ∷ []) = (if is_hex_digit c then hex_value c else 0) ∷ []
hex_string_to_byte_array (c ∷ d ∷ cs) =
    let rest = hex_string_to_byte_array cs in
    if not (is_hex_digit c)
    then 0 ∷ failed_reads cs
    else if not (is_hex_digit d)
    then hex_value c ∷ failed_reads cs
    else (hex_value c * 16 + hex_value d) ∷ rest

unfoldable hex_digit : ℕ → ℕ
hex_digit n = if ltb n 10 then b'0' + n else b'a' + (n - 10)

-- `std::setw(2)` with `std::setfill('0')`.
unfoldable pub byte_array_to_hex_string : Bytes → Text
unfolding hex_digit
byte_array_to_hex_string [] = []
byte_array_to_hex_string (b ∷ bs) =
    hex_digit (b / 16) ∷ hex_digit (b % 16) ∷ byte_array_to_hex_string bs

is_hex_digit-hex_digit : (n : ℕ) → n < 16 → is_hex_digit (hex_digit n) ≡ true
unfolding is_hex_digit hex_digit
is_hex_digit-hex_digit n h = ground arith

hex_value-hex_digit : (n : ℕ) → n < 16 → hex_value (hex_digit n) ≡ n
unfolding hex_value hex_digit
hex_value-hex_digit n h = ground arith

-- Bytes that are written out in hexadecimal are read back as they were.
pub hex_string_to_byte_array-byte_array_to_hex_string :
    (bs : Bytes)
    → All (λ b. b < 256) bs
    → hex_string_to_byte_array (byte_array_to_hex_string bs) ≡ bs
unfolding hex_string_to_byte_array byte_array_to_hex_string
hex_string_to_byte_array-byte_array_to_hex_string [] h = refl
hex_string_to_byte_array-byte_array_to_hex_string (b ∷ bs) h =
    let high = is_hex_digit-hex_digit (b / 16) (omega arith) in
    let low = is_hex_digit-hex_digit (b % 16) (omega arith) in
    let same_high = hex_value-hex_digit (b / 16) (omega arith) in
    let same_low = hex_value-hex_digit (b % 16) (omega arith) in
    let ih = hex_string_to_byte_array-byte_array_to_hex_string bs h.1 in
    let whole : b / 16 * 16 + b % 16 ≡ b = omega arith in
    rw (high, low, same_high, same_low, ih, whole) refl

-- No digit is a newline.
pub byte_array_to_hex_string-All : (bs : Bytes) → All (λ x. x ≢ 10) (byte_array_to_hex_string bs)
unfolding byte_array_to_hex_string hex_digit
byte_array_to_hex_string-All [] = tt
byte_array_to_hex_string-All (b ∷ bs) =
    (ground arith, (ground arith, byte_array_to_hex_string-All bs))
