-- ===== src/Base/Chars.antt =====
-- The classes of characters and the reading of numbers of the C library, for a `long` of 64 bits.
use Prim.Native.Nat.{ℕ, ◌+◌, ◌-◌, ◌*◌}
use mathlib.Core.Bool.{Bool, ◌&&◌, ◌||◌}
use mathlib.Core.Option.{Option, none, some}
use mathlib.Core.List.{[], ◌∷◌}
use dlite.Base.Tests.{ltb, leb, ◌==◌, if◌then◌else◌, Text}

abbrev pub is_digit : ℕ → Bool
is_digit c = leb b'0' c && leb c b'9'

abbrev pub is_alpha : ℕ → Bool
is_alpha c = (leb b'a' c && leb c b'z') || (leb b'A' c && leb c b'Z')

-- The characters of a name.
abbrev pub is_word : ℕ → Bool
is_word c = is_alpha c || is_digit c || c == b'_'

-- The value of a digit below `base`.
abbrev pub digit_in : ℕ → ℕ → Option ℕ
digit_in base c =
    if is_digit c
    then (if ltb (c - b'0') base then some (c - b'0') else none)
    else if leb b'a' c && leb c b'z'
    then (if ltb (c - b'a' + 10) base then some (c - b'a' + 10) else none)
    else if leb b'A' c && leb c b'Z'
    then (if ltb (c - b'A' + 10) base then some (c - b'A' + 10) else none)
    else none

-- The number that is read behind `n`, and the count of characters.
abbrev pub read_digits : ℕ → ℕ → Text → ℕ × ℕ
read_digits base n [] = (n, 0)
read_digits base n (c ∷ cs) = elim (digit_in base c) [
  | none ↦ (n, 0)
  | some d ↦ let r = read_digits base (n * base + d) cs in (r.0, r.1 + 1)
]

-- LONG_MAX where a number does not fit in 63 bits.
abbrev pub saturate : ℕ → ℕ
saturate n = if ltb n 9223372036854775808 then n else 9223372036854775807
