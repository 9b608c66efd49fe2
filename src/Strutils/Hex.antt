-- ===== src/Strutils/Hex.antt =====
-- `strhex_decode` of src/utils/strutils.c.
use dlite.Base.{
  ℕ, zero, suc, ◌+◌, ◌-◌, ◌*◌, ◌/◌, ◌%◌, ◌≤◌, ◌<◌, ◌≡◌, refl, ◌∙◌, ap, true, ◌&&◌, List, [], ◌∷◌,
  ◌++◌, Option, none, some, Text, arith, leb, ◌==◌, if◌then◌else◌, length, drop,
}
use dlite.Triple.{hex_digit, hex_byte, hex_bytes}

-- `tolower` in the C locale.
unfoldable pub lower_case : ℕ → ℕ
lower_case c = if leb b'A' c && leb c b'Z' then c + 32 else c

-- none where the byte is no digit.
unfoldable pub digit_value : ℕ → Option ℕ
digit_value c =
    if leb b'0' c && leb c b'9'
    then some (c - b'0')
    else if leb b'a' c && leb c b'f'
    then some (c - b'a' + 10)
    else none

-- The two rounds of the inner loop; the byte behind the end of the text is NUL, which is no digit.
unfoldable pub byte_value : Text → Option ℕ
byte_value [] = none
byte_value (c ∷ []) = none
byte_value (c ∷ d ∷ hex) = elim (digit_value (lower_case c)) [
  | none ↦ none
  | some high ↦ elim (digit_value (lower_case d)) [
    | none ↦ none
    | some low ↦ some (high * 16 + low)
  ]
]

-- The outer loop over `n` bytes and the rest of the buffer: the buffer, none on an error.
unfoldable pub decode_loop : ℕ → List ℕ → Text → Option (List ℕ)
decode_loop zero buf hex = some buf
decode_loop (suc n) [] hex = some []
decode_loop (suc n) (b ∷ buf) hex = elim (byte_value hex) [
  | none ↦ none
  | some v ↦ elim (decode_loop n buf (drop 2 hex)) [ none ↦ none | some rest ↦ some (v ∷ rest) ]
]

-- The buffer and the returned number of bytes, none for -1, where the buffer may have been written
-- to. `hexsize` is none where the source has a negative one.
unfoldable pub strhex_decode : List ℕ → Text → Option ℕ → Option (List ℕ × ℕ)
unfolding decode_loop byte_value digit_value lower_case
strhex_decode buf hex hexsize =
    let n = elim hexsize as (λ _. ℕ) [ none ↦ length hex | some k ↦ k ] in
    if n % 2 == 0
    then elim (decode_loop (n / 2) buf hex) [ none ↦ none | some out ↦ some (out, n / 2) ]
    else none

-- The numbers are bytes.
abbrev pub Bytes : List ℕ → Type 0
Bytes [] = Unit {0}
Bytes (b ∷ bs) = (b < 256) × Bytes bs

digit_value-hex_digit : (n : ℕ) → n < 16 → digit_value (lower_case (hex_digit n)) ≡ some n
unfolding hex_digit digit_value lower_case
digit_value-hex_digit n h = ground arith

byte_value_two :
    (c d m n : ℕ) (hex : Text)
    → digit_value (lower_case c) ≡ some m
    → digit_value (lower_case d) ≡ some n
    → byte_value (c ∷ d ∷ hex) ≡ some (m * 16 + n)
unfolding byte_value
byte_value_two c d m n hex high low = rw (high, low, byte_value)

byte_value-hex_byte : (b : ℕ) (hex : Text) → b < 256 → byte_value (hex_byte b ++ hex) ≡ some b
unfolding hex_byte
byte_value-hex_byte b hex h =
    let high : b / 16 < 16 = omega arith in
    let low : b % 16 < 16 = omega arith in
    let whole : b / 16 * 16 + b % 16 ≡ b = omega arith in
    byte_value_two _ _ _ _ hex (digit_value-hex_digit (b / 16) high)
      (digit_value-hex_digit (b % 16) low)
    ∙ ap some whole

length-hex_bytes : (bs : List ℕ) → length (hex_bytes bs) ≡ length bs + length bs
unfolding hex_bytes hex_byte
length-hex_bytes [] = omega arith
length-hex_bytes (b ∷ bs) = omega (arith, length-hex_bytes bs)

decode_loop_more :
    (n v d : ℕ) (buf rest : List ℕ) (hex : Text)
    → byte_value hex ≡ some v
    → decode_loop n buf (drop 2 hex) ≡ some rest
    → decode_loop (suc n) (d ∷ buf) hex ≡ some (v ∷ rest)
unfolding decode_loop
decode_loop_more n v d buf rest hex here more = rw (here, more, decode_loop)

decode_loop-hex_bytes :
    (bs buf : List ℕ)
    → Bytes bs
    → length bs ≤ length buf
    → decode_loop (length bs) buf (hex_bytes bs) ≡ some (bs ++ drop (length bs) buf)
unfolding hex_bytes hex_byte
decode_loop-hex_bytes [] [] h fits = unfold decode_loop in refl
decode_loop-hex_bytes [] (d ∷ buf) h fits = unfold decode_loop in refl
decode_loop-hex_bytes (b ∷ bs) [] h fits = absurd (omega arith)
decode_loop-hex_bytes (b ∷ bs) (d ∷ buf) h fits =
    decode_loop_more (length bs) b d buf _ (hex_byte b ++ hex_bytes bs)
      (byte_value-hex_byte b (hex_bytes bs) h.0) (decode_loop-hex_bytes bs buf h.1 (omega arith))

-- The two-digit texts of bytes are read back into a buffer that is large enough, and the rest of
-- the buffer stays as it was.
pub strhex_decode-hex_bytes :
    (bs buf : List ℕ)
    → Bytes bs
    → length bs ≤ length buf
    → strhex_decode buf (hex_bytes bs) none ≡ some (bs ++ drop (length bs) buf, length bs)
unfolding strhex_decode
strhex_decode-hex_bytes bs buf h fits =
    let size = length-hex_bytes bs in
    let even : (length (hex_bytes bs) % 2 == 0) ≡ true = ground (arith, size) in
    let half : length (hex_bytes bs) / 2 ≡ length bs = omega (arith, size) in
    rw (even, half, decode_loop-hex_bytes bs buf h fits)
      (ap (λ n. some (bs ++ drop (length bs) buf, n)) half)
