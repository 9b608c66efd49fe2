-- ===== src/Url/Decode.antt =====
-- `pct_decode` of src/utils/urlsplit.c reads back what `pct_encode` has written.
use dlite.Base.{
  ℕ, suc, ◌+◌, ◌*◌, ◌/◌, ◌%◌, ◌≡◌, ◌≢◌, ◌≤◌, ◌<◌, refl, ◌∙◌, sym, ap, false, List, [], ◌∷◌, ◌++◌,
  none, some, Text, arith, ◌==◌, length, drop, length-append, Bool-cases, inl, inr,
}
use mathlib.Core.List.{append_assoc}
use dlite.Strutils.Category.{StrCategory}
use dlite.Strutils.Buffer.{c_string}
use dlite.Strutils.Hex.{Bytes}
use dlite.Strutils.Append.{strsetc, strsetc-append, written_roomy}
use dlite.Url.Percent.{
  upper_hex, percent_hex, is_kept, hex_pair, decode_loop, pct_encode, pct_decode,
}
use dlite.Url.Encode.{
  unit, units, units_cons, unit_kept, unit_escaped, kept_ascii, hex_pair-upper_hex, regroup,
  length_drop, pct_encode-units,
}

decode_plain :
    (buf : List ℕ) (n c : ℕ) (t : Text)
    → (c == b'%') ≡ false
    → decode_loop buf n (c ∷ t) ≡ decode_loop (strsetc buf n c) (n + 1) t
unfolding decode_loop
decode_plain buf n c [] h = rw (h, decode_loop) refl
decode_plain buf n c (x ∷ []) h = rw (h, decode_loop) refl
decode_plain buf n c (x ∷ y ∷ t) h = rw (h, decode_loop) refl

decode_escape :
    (buf : List ℕ) (n h l c : ℕ) (t : Text)
    → hex_pair h l ≡ some c
    → decode_loop buf n (b'%' ∷ h ∷ l ∷ t) ≡ decode_loop (strsetc buf n c) (n + 1) t
unfolding decode_loop
decode_escape buf n h l c t e = rw (e, decode_loop) refl

decode_unit :
    (buf : List ℕ) (n c : ℕ) (t : Text)
    → c < 256
    → decode_loop buf n (unit c ++ t) ≡ decode_loop (strsetc buf n c) (n + 1) t
unfolding percent_hex
decode_unit buf n c t small = elim (Bool-cases (is_kept StrCategory.sub_delims none c)) [
  | inl kept ↦ rw (unit_kept c kept) (decode_plain buf n c t ((kept_ascii c kept).1))
  | inr escaped ↦ rw (unit_escaped c escaped) (
      decode_escape buf n (upper_hex (c / 16)) (upper_hex (c % 16)) c t
        (hex_pair-upper_hex c small))
]

-- What the loop writes, and the position behind it.
abbrev Reads : List ℕ → List ℕ → Text → List ℕ → Type 0
Reads pre buf src r =
    decode_loop (pre ++ buf) (length pre) (units src)
    ≡ some (pre ++ (src ++ (0 ∷ drop (length src) r)), length pre + length src)

decode_more :
    (pre r : List ℕ) (b c : ℕ) (src : Text)
    → c < 256
    → length src + 4 ≤ length r
    → ((before rest : List ℕ) → length src + 3 ≤ length rest → Reads before (0 ∷ rest) src rest)
    → Reads pre (b ∷ r) (c ∷ src) r
decode_more pre r b c src small room later =
    let put =
      strsetc-append pre (b ∷ r) c (omega arith) (written_roomy (suc (length r)) c (omega arith)) in
    let at : length pre + 1 ≡ length (pre ++ (c ∷ [])) =
      omega (arith, length-append pre (c ∷ [])) in
    let short : length src + 3 ≤ length (drop 1 r) = omega (arith, length_drop 1 r) in
    rw (units_cons c src) (
      decode_unit (pre ++ (b ∷ r)) (length pre) c (units src) small
      ∙ rw (put, at, sym (append_assoc pre (c ∷ []) (0 ∷ drop 1 r)))
          (later (pre ++ (c ∷ [])) (drop 1 r) short)
      ∙ ap some (regroup pre (c ∷ []) src r))

decode_loop-units :
    (pre r : List ℕ) (src : Text) → Bytes src → length src + 3 ≤ length r → Reads pre (0 ∷ r) src r
decode_loop-units pre r [] bytes room =
    let e : length pre + 0 ≡ length pre = omega arith in unfold decode_loop units in rw e refl
decode_loop-units pre r (c ∷ src) bytes room =
    decode_more pre r 0 c src (bytes.0) (omega arith)
      λ before rest short. decode_loop-units before rest src (bytes.1) short

length-unit : (c : ℕ) → length (unit c) ≤ 3
unfolding unit percent_hex
length-unit c = ground arith

length-units : (src : Text) → length (units src) ≤ 3 * length src
unfolding units
length-units [] = omega arith
length-units (c ∷ src) =
    omega (arith, length-append (unit c) (units src), length-unit c, length-units src)

c_string_one : (c : ℕ) (t : Text) → c ≢ 0 → c_string (c ∷ t) ≡ c ∷ c_string t
unfolding c_string
c_string_one c t h = let nonzero : (c == 0) ≡ false = ground arith in rw (nonzero, c_string) refl

upper_hex_pos : (n : ℕ) → upper_hex n ≢ 0
unfolding upper_hex
upper_hex_pos n = ground arith

c_string-unit : (c : ℕ) (t : Text) → c_string (unit c ++ t) ≡ unit c ++ c_string t
unfolding percent_hex
c_string-unit c t = elim (Bool-cases (is_kept StrCategory.sub_delims none c)) [
  | inl kept ↦ rw (unit_kept c kept) (c_string_one c t ((kept_ascii c kept).2))
  | inr escaped ↦ rw (unit_escaped c escaped) (
      c_string_one b'%' _ (ground arith)
      ∙ ap (◌∷◌ b'%') (
          c_string_one _ _ (upper_hex_pos (c / 16))
          ∙ ap (◌∷◌ (upper_hex (c / 16))) (c_string_one _ _ (upper_hex_pos (c % 16)))))
]

c_string-units : (src rest : Text) → c_string (units src ++ (0 ∷ rest)) ≡ units src
c_string-units [] rest = unfold units c_string in refl
c_string-units (c ∷ src) rest = rw (units_cons c src) (
    ap c_string (append_assoc (unit c) (units src) (0 ∷ rest))
    ∙ c_string-unit c (units src ++ (0 ∷ rest))
    ∙ ap (◌++◌ (unit c)) (c_string-units src rest))

pct_decode-units :
    (b c : ℕ) (r : List ℕ) (src : Text)
    → Bytes (c ∷ src)
    → length src + 4 ≤ length r
    → pct_decode (b ∷ r) (units (c ∷ src))
      ≡ some ((c ∷ src) ++ (0 ∷ drop (suc (length src)) r), suc (length src))
unfolding pct_decode
pct_decode-units b c r src bytes room =
    let count : 0 + suc (length src) ≡ suc (length src) = omega arith in
    decode_more [] r b c src (bytes.0) room
      (λ before rest short. decode_loop-units before rest src (bytes.1) short)
    ∙ rw count refl

-- A text of bytes that is not empty, encoded into a buffer of more than three times its length,
-- is decoded again into a buffer with five bytes more than it has; the counts that are returned
-- are the lengths of the encoded and of the decoded text.
pub pct_decode-pct_encode :
    (c : ℕ) (src : Text) (b : ℕ) (buf : List ℕ) (d : ℕ) (out : List ℕ)
    → Bytes (c ∷ src)
    → 3 * length (c ∷ src) ≤ length buf
    → length src + 4 ≤ length out
    → let encoded = c_string ((pct_encode (b ∷ buf) (c ∷ src)).0) in
      ((pct_encode (b ∷ buf) (c ∷ src)).1 ≡ length encoded)
      × (pct_decode (d ∷ out) encoded
          ≡ some ((c ∷ src) ++ (0 ∷ drop (length (c ∷ src)) out), length (c ∷ src)))
pct_decode-pct_encode c src b buf d out bytes room wide =
    let fits : length (units (c ∷ src)) ≤ length buf = omega (arith, length-units (c ∷ src)) in
    let put = pct_encode-units b c buf src fits in
    let text = c_string-units (c ∷ src) (drop (length (units (c ∷ src))) buf) in
    rw (put, text) (refl, pct_decode-units d c out src bytes wide)
