-- ===== src/Url/Encode.antt =====
-- What `pct_encode` and `pct_decode` of src/utils/urlsplit.c write.
use dlite.Base.{
  ℕ, zero, suc, ◌+◌, ◌-◌, ◌/◌, ◌%◌, ◌≡◌, ◌≢◌, ◌≤◌, ◌<◌, refl, ◌∙◌, sym, ap, true, false, List, [],
  ◌∷◌, ◌++◌, none, some, Text, arith, ltb, ◌==◌, length, drop, length-append, drop-drop, Bool-cases,
  inl, inr,
}
use mathlib.Core.List.{append_assoc}
use dlite.Strutils.Category.{StrCategory, strcategory}
use dlite.Strutils.Append.{write_at-append, strsetc-append, written_ascii}
use dlite.Url.Percent.{upper_hex, percent_hex, is_kept, encode_loop, pct_encode, hex_pair}

-- What stands for a byte in an encoded text.
unfoldable pub unit : ℕ → Text
unfolding is_kept percent_hex
unit c = elim (is_kept StrCategory.sub_delims none c) [ true ↦ c ∷ [] | false ↦ percent_hex c ]

unfoldable pub units : Text → Text
unfolding unit
units [] = []
units (c ∷ src) = unit c ++ units src

pub kept_ascii :
    (c : ℕ)
    → is_kept StrCategory.sub_delims none c ≡ true
    → (c < 128) × ((c == b'%') ≡ false) × (c ≢ 0)
unfolding is_kept strcategory
kept_ascii c h = ground arith

pub hex_pair-upper_hex :
    (c : ℕ) → c < 256 → hex_pair (upper_hex (c / 16)) (upper_hex (c % 16)) ≡ some c
unfolding hex_pair upper_hex
hex_pair-upper_hex c h = ground arith

pub unit_kept : (c : ℕ) → is_kept StrCategory.sub_delims none c ≡ true → unit c ≡ c ∷ []
unfolding unit
unit_kept c h = rw (h, unit)

pub unit_escaped : (c : ℕ) → is_kept StrCategory.sub_delims none c ≡ false → unit c ≡ percent_hex c
unfolding unit
unit_escaped c h = rw (h, unit)

pub ltb-true : (m n : ℕ) → m < n → ltb m n ≡ true
ltb-true m n h = ground arith

pub length_drop : (n : ℕ) (xs : List ℕ) → length (drop n xs) + n ≡ length xs + (n - length xs)
length_drop zero xs = omega arith
length_drop (suc n) [] = omega arith
length_drop (suc n) (x ∷ xs) = omega (arith, length_drop n xs)

encode_step :
    (pre r : List ℕ) (b c : ℕ) (src : Text)
    → length (unit c) < suc (length r)
    → encode_loop StrCategory.sub_delims none (pre ++ (b ∷ r)) (length pre) (c ∷ src)
      ≡ encode_loop StrCategory.sub_delims none
          (pre ++ (unit c ++ (0 ∷ drop (length (unit c)) r)))
          (length pre + length (unit c))
          src
unfolding percent_hex encode_loop
encode_step pre r b c src room = elim (Bool-cases (is_kept StrCategory.sub_delims none c)) [
  | inl kept ↦
      let u = unit_kept c kept in
      let put =
        strsetc-append pre (b ∷ r) c (omega (arith, ap length u))
          (written_ascii _ c ((kept_ascii c kept).0)) in
      rw (u, kept, put, encode_loop) refl
  | inr escaped ↦
      let u = unit_escaped c escaped in
      let size : length (pre ++ (b ∷ r)) - length pre ≡ suc (length r) =
        omega (arith, length-append pre (b ∷ r)) in
      let long : 3 < suc (length r) = omega (arith, ap length u) in
      let test = ltb-true 3 (suc (length r)) long in
      let put =
        write_at-append pre (b ∷ r) (percent_hex c ++ 0 ∷ []) (omega (arith, ap length u)) in
      rw (u, escaped, size, test, put, encode_loop) refl
]

pub units_cons : (c : ℕ) (src : Text) → units (c ∷ src) ≡ unit c ++ units src
unfolding units
units_cons c src = refl

moved :
    (pre u rest : List ℕ) (src : Text)
    → encode_loop StrCategory.sub_delims none (pre ++ (u ++ rest)) (length pre + length u) src
      ≡ encode_loop StrCategory.sub_delims none ((pre ++ u) ++ rest) (length (pre ++ u)) src
moved pre u rest src = rw (length-append pre u) (
    ap (λ z. encode_loop StrCategory.sub_delims none z (length pre + length u) src)
      (sym (append_assoc pre u rest)))

-- Two texts written one after the other.
pub regroup :
    (pre u v r : List ℕ)
    → ◌≡◌ {A = List ℕ × ℕ}
        (
          (pre ++ u) ++ (v ++ (0 ∷ drop (length v) (drop (length u) r))),
          length (pre ++ u) + length v,
        )
        (pre ++ ((u ++ v) ++ (0 ∷ drop (length (u ++ v)) r)), length pre + length (u ++ v))
regroup pre u v r =
    let whole : length (pre ++ u) + length v ≡ length pre + length (u ++ v) =
      omega (arith, length-append pre u, length-append u v) in
    let rest : (pre ++ u) ++ (v ++ (0 ∷ drop (length v) (drop (length u) r)))
        ≡ pre ++ ((u ++ v) ++ (0 ∷ drop (length (u ++ v)) r)) =
      append_assoc pre u _
      ∙ ap (◌++◌ pre) (
          sym (append_assoc u v _)
          ∙ ap (λ z. (u ++ v) ++ (0 ∷ z))
              (sym (drop-drop (length u) (length v) r)
                ∙ ap (λ k. drop k r) (sym (length-append u v)))) in
    rw (whole, rest) refl

-- What the loop writes, and the position behind it.
abbrev Writes : List ℕ → List ℕ → Text → List ℕ → Type 0
Writes pre buf src r =
    encode_loop StrCategory.sub_delims none (pre ++ buf) (length pre) src
    ≡ (pre ++ (units src ++ (0 ∷ drop (length (units src)) r)), length pre + length (units src))

encode_more :
    (pre r : List ℕ) (b c : ℕ) (src : Text)
    → length (units (c ∷ src)) ≤ length r
    → ((before rest : List ℕ)
        → length (units src) ≤ length rest
        → Writes before (0 ∷ rest) src rest)
    → Writes pre (b ∷ r) (c ∷ src) r
encode_more pre r b c src room later =
    let u = units_cons c src in
    let fits : length (unit c) + length (units src) ≤ length r =
      omega (arith, ap length u, length-append (unit c) (units src)) in
    let short : length (units src) ≤ length (drop (length (unit c)) r) =
      omega (arith, length_drop (length (unit c)) r) in
    rw u (
      encode_step pre r b c src (omega arith)
      ∙ moved pre (unit c) (0 ∷ drop (length (unit c)) r) src
      ∙ later (pre ++ unit c) (drop (length (unit c)) r) short
      ∙ regroup pre (unit c) (units src) r)

encode_loop-units :
    (pre r : List ℕ) (src : Text) → length (units src) ≤ length r → Writes pre (0 ∷ r) src r
encode_loop-units pre r [] room =
    let e : length pre + 0 ≡ length pre = omega arith in unfold encode_loop units in rw e refl
encode_loop-units pre r (c ∷ src) room =
    encode_more pre r 0 c src room λ before rest short. encode_loop-units before rest src short

-- A text that is not empty is written as its units, with a NUL behind them.
pub pct_encode-units :
    (b c : ℕ) (r : List ℕ) (src : Text)
    → length (units (c ∷ src)) ≤ length r
    → pct_encode (b ∷ r) (c ∷ src)
      ≡ (units (c ∷ src) ++ (0 ∷ drop (length (units (c ∷ src))) r), length (units (c ∷ src)))
unfolding pct_encode
pct_encode-units b c r src room =
    let count : 0 + length (units (c ∷ src)) ≡ length (units (c ∷ src)) = omega arith in
    encode_more [] r b c src room (λ before rest short. encode_loop-units before rest src short)
    ∙ rw count refl
