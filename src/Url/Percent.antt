-- ===== src/Url/Percent.antt =====
-- src/utils/urlsplit.c: percent-encoding and decoding.
use dlite.Base.{
  ℕ, ◌+◌, ◌-◌, ◌*◌, ◌/◌, ◌%◌, Bool, true, false, ◌||◌, List, [], ◌∷◌, ◌++◌, Option, none, some,
  Text, leb, ltb, ◌==◌, if◌then◌else◌, length, set, take, digit_in,
}
use dlite.Strutils.Category.{StrCategory, strcategory, value, is_one_of}
use dlite.Strutils.Append.{strsetc, write_at}

-- A digit of `%02X`.
unfoldable pub upper_hex : ℕ → ℕ
upper_hex n = if ltb n 10 then b'0' + n else b'A' + n - 10

-- `%%%02X` of a byte.
unfoldable pub percent_hex : ℕ → Text
unfolding upper_hex
percent_hex c = b'%' ∷ upper_hex (c / 16) ∷ upper_hex (c % 16) ∷ []

-- Whether a byte is written as it is. `strchr` finds the NUL at the end of `accepted` too, which is
-- none for NULL.
unfoldable pub is_kept : StrCategory → Option Text → ℕ → Bool
unfolding strcategory
is_kept maxcat accepted c =
    leb (value (strcategory c)) (value maxcat)
    || elim accepted as (λ _. Bool) [ none ↦ false | some cs ↦ c == 0 || is_one_of c cs ]

-- The loop over the bytes: the buffer, and the position behind what was or would have been
-- written. A partial encoding is overwritten by a NUL.
unfoldable pub encode_loop : StrCategory → Option Text → List ℕ → ℕ → Text → List ℕ × ℕ
unfolding is_kept percent_hex strsetc write_at
encode_loop maxcat accepted buf n [] = (buf, n)
encode_loop maxcat accepted buf n (c ∷ src) =
    let room = length buf - n in
    let shortened = set (write_at buf n (take (room - 1) (percent_hex c) ++ 0 ∷ [])) n 0 in
    elim (is_kept maxcat accepted c) as (λ _. List ℕ × ℕ) [
      | true ↦ encode_loop maxcat accepted (strsetc buf n c) (n + 1) src
      | false ↦ elim (ltb 3 room) as (λ _. List ℕ × ℕ) [
        | true ↦ encode_loop maxcat accepted (write_at buf n (percent_hex c ++ 0 ∷ [])) (n + 3) src
        | false ↦ elim (ltb 0 room) as (λ _. List ℕ × ℕ) [
          | true ↦ encode_loop maxcat accepted shortened (n + 3) src
          | false ↦ encode_loop maxcat accepted buf (n + 3) src
        ]
      ]
    ]

-- `len` is none for a negative one; a text has as many bytes as are read.
unfoldable pub pct_xencode : List ℕ → Text → Option ℕ → StrCategory → Option Text → List ℕ × ℕ
unfolding encode_loop
pct_xencode buf src len maxcat accepted =
    encode_loop maxcat accepted buf 0 (elim len as (λ _. Text) [ none ↦ src | some n ↦ take n src ])

unfoldable pub pct_nencode : List ℕ → Text → Option ℕ → List ℕ × ℕ
unfolding pct_xencode
pct_nencode buf src len = pct_xencode buf src len StrCategory.sub_delims none

unfoldable pub pct_encode : List ℕ → Text → List ℕ × ℕ
unfolding pct_nencode
pct_encode buf src = pct_nencode buf src none

-- The value of two hexadecimal digits, none where one is not.
unfoldable pub hex_pair : ℕ → ℕ → Option ℕ
hex_pair h l = elim (digit_in 16 h) [
  | none ↦ none
  | some high ↦ elim (digit_in 16 l) [ none ↦ none | some low ↦ some (high * 16 + low) ]
]

-- The loop over the encoded bytes: the buffer and the position, none on an error, where the
-- buffer may have been written to.
unfoldable pub decode_loop : List ℕ → ℕ → Text → Option (List ℕ × ℕ)
unfolding hex_pair strsetc
decode_loop buf n [] = some (buf, n)
decode_loop buf n (c ∷ []) = elim (c == b'%') as (λ _. Option (List ℕ × ℕ)) [
  | true ↦ none
  | false ↦ decode_loop (strsetc buf n c) (n + 1) []
]
decode_loop buf n (c ∷ h ∷ []) = elim (c == b'%') as (λ _. Option (List ℕ × ℕ)) [
  | true ↦ none
  | false ↦ decode_loop (strsetc buf n c) (n + 1) (h ∷ [])
]
decode_loop buf n (c ∷ h ∷ l ∷ t) = elim (c == b'%') as (λ _. Option (List ℕ × ℕ)) [
  | true ↦ elim (hex_pair h l) as (λ _. Option (List ℕ × ℕ)) [
    | none ↦ none
    | some b ↦ decode_loop (strsetc buf n b) (n + 1) t
  ]
  | false ↦ decode_loop (strsetc buf n c) (n + 1) (h ∷ l ∷ t)
]

unfoldable pub pct_ndecode : List ℕ → Text → Option ℕ → Option (List ℕ × ℕ)
unfolding decode_loop
pct_ndecode buf encoded len =
    decode_loop buf 0 (elim len as (λ _. Text) [ none ↦ encoded | some n ↦ take n encoded ])

unfoldable pub pct_decode : List ℕ → Text → Option (List ℕ × ℕ)
unfolding pct_ndecode
pct_decode buf encoded = pct_ndecode buf encoded none
