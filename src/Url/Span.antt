-- ===== src/Url/Span.antt =====
-- src/utils/urlsplit.c: the segments that the components of a URL consist of.
use dlite.Base.{
  ℕ, zero, suc, ◌+◌, ◌≡◌, ◌≤◌, ◌<◌, refl, ◌∙◌, sym, ap, Bool, true, false, ◌&&◌, ◌||◌, [], ◌∷◌,
  Option, none, some, Text, arith, leb, ltb, ◌==◌, if◌then◌else◌, length, drop, drop-drop, digit_in,
  Bool-cases, inl, inr,
}
use dlite.Strutils.Category.{StrCategory, strcategory, value, is_one_of, span, strcatjspn}

abbrev pub isxdigit : ℕ → Bool
isxdigit c = elim (digit_in 16 c) [ none ↦ false | some d ↦ true ]

-- 0 or 3.
unfoldable pub percent_encoded : Text → ℕ
percent_encoded (c ∷ h ∷ l ∷ s) = if c == b'%' && (isxdigit h && isxdigit l) then 3 else 0
percent_encoded s = 0

-- `strspn` of the C library.
abbrev pub strspn : Text → Text → ℕ
strspn s accept = span (λ c. is_one_of c accept) s

-- `if (pct) n += percent_encoded(s+n);`
unfoldable pub percent_part : Bool → Text → ℕ
unfolding percent_encoded
percent_part pct s = if pct then percent_encoded s else 0

-- One round of the loop behind the first `n` bytes.
unfoldable pub jspn_round : Text → StrCategory → Bool → Text → ℕ → ℕ
unfolding strcatjspn percent_part
jspn_round s cat pct accept n =
    let n1 = n + strcatjspn (drop n s) cat in
    let n2 = n1 + percent_part pct (drop n1 s) in n2 + strspn (drop n2 s) accept

-- The loop on fuel, none where it is used up.
unfoldable pub jspn_loop : ℕ → Text → StrCategory → Bool → Text → ℕ → Option ℕ
unfolding jspn_round
jspn_loop zero s cat pct accept n = none
jspn_loop (suc fuel) s cat pct accept n =
    let next = jspn_round s cat pct accept n in
    elim (ltb n next) as (λ _. Option ℕ) [
      | true ↦ jspn_loop fuel s cat pct accept next
      | false ↦ some next
    ]

unfoldable pub jspn : Text → StrCategory → Bool → Text → Option ℕ
unfolding jspn_loop
jspn s cat pct accept = jspn_loop (suc (length s)) s cat pct accept 0

-- A byte that may stand by itself.
abbrev pub stands : StrCategory → Text → ℕ → Bool
stands cat accept c = leb (value (strcategory c)) (value cat) || is_one_of c accept

-- The longest initial segment of bytes that may stand by themselves and of percent-encoded ones,
-- which are not also the former.
unfoldable pub segment : StrCategory → Bool → Text → Text → ℕ
segment cat pct accept [] = 0
segment cat pct accept (c ∷ []) = if stands cat accept c then 1 else 0
segment cat pct accept (c ∷ h ∷ []) =
    let rest = segment cat pct accept (h ∷ []) in if stands cat accept c then suc rest else 0
segment cat pct accept (c ∷ h ∷ l ∷ s) =
    let one = segment cat pct accept (h ∷ l ∷ s) in
    let three = segment cat pct accept s in
    if stands cat accept c
    then suc one
    else if pct && (c == b'%' && (isxdigit h && isxdigit l))
    then suc (suc (suc three))
    else 0

percent_sign : (c : ℕ) (b : Bool) → (c == b'%' && b) ≡ true → c ≡ b'%'
percent_sign c b h = ground arith

span_none : (p : ℕ → Bool) (c : ℕ) (s : Text) → span p (c ∷ s) ≡ 0 → p c ≡ false
span_none p c s h = elim (Bool-cases (p c)) [
  | inl good ↦ absurd (let e = rw good at h in omega (arith, e))
  | inr bad ↦ bad
]

or_left : (a b : Bool) → a ≡ true → (a || b) ≡ true
or_left a b h = rw h refl

or_right : (a b : Bool) → b ≡ true → (a || b) ≡ true
or_right true b h = refl
or_right false b h = h

lt_of_ltb : (m n : ℕ) → ltb m n ≡ true → m < n
lt_of_ltb m n h = ground arith

le_of_ltb : (m n : ℕ) → ltb m n ≡ false → n ≤ m
le_of_ltb m n h = ground arith

bounded : (b : Bool) (m k n : ℕ) → suc m ≤ n → k ≤ n → (if b then suc m else k) ≤ n
bounded true m k n g h = g
bounded false m k n g h = h

neither_code :
    (p e : Bool) (x : ℕ)
    → ◌≡◌ {A = ℕ} (if p then (if e then 3 else 0) else 0) 0
    → ◌≡◌ {A = ℕ} (if p && e then suc (suc (suc x)) else 0) 0
neither_code true true x h = absurd (omega arith)
neither_code true false x h = refl
neither_code false e x h = refl

module _ (cat : StrCategory) (pct : Bool) (accept : Text) where
  segment-stands :
      (c : ℕ) (s : Text)
      → stands cat accept c ≡ true
      → segment cat pct accept (c ∷ s) ≡ suc (segment cat pct accept s)
  unfolding segment
  segment-stands c [] h = rw (h, segment) refl
  segment-stands c (x ∷ []) h = rw (h, segment) refl
  segment-stands c (x ∷ y ∷ s) h = rw (h, segment) refl

  -- A span of bytes that may stand by themselves is a part of the segment.
  segment-span :
      (p : ℕ → Bool)
      → ((c : ℕ) → p c ≡ true → stands cat accept c ≡ true)
      → (s : Text)
      → segment cat pct accept s ≡ span p s + segment cat pct accept (drop (span p s) s)
  segment-span p h [] = omega arith
  segment-span p h (c ∷ s) = elim (Bool-cases (p c)) [
    | inl good ↦
        let e : span p s + 1 ≡ suc (span p s) = omega arith in
        rw (good, e) (omega (arith, segment-stands c s (h c good), segment-span p h s))
    | inr bad ↦ rw bad (omega arith)
  ]

  segment_coded :
      (c h l : ℕ) (s : Text)
      → stands cat accept c ≡ false
      → pct ≡ true
      → (c == b'%' && (isxdigit h && isxdigit l)) ≡ true
      → segment cat pct accept (c ∷ h ∷ l ∷ s) ≡ 3 + segment cat pct accept s
  unfolding segment
  segment_coded c h l s other on e = rw (other, on, e, segment) (omega arith)

  -- So is a percent-encoded byte.
  segment-percent_encoded :
      (s : Text)
      → pct ≡ true
      → stands cat accept b'%' ≡ false
      → segment cat pct accept s
        ≡ percent_encoded s + segment cat pct accept (drop (percent_encoded s) s)
  unfolding percent_encoded
  segment-percent_encoded [] on alone = omega arith
  segment-percent_encoded (c ∷ []) on alone = omega arith
  segment-percent_encoded (c ∷ h ∷ []) on alone = omega arith
  segment-percent_encoded (c ∷ h ∷ l ∷ s) on alone =
      elim (Bool-cases (c == b'%' && (isxdigit h && isxdigit l))) [
        | inl e ↦
            let sign = percent_sign c (isxdigit h && isxdigit l) e in
            let other : stands cat accept c ≡ false = ap (stands cat accept) sign ∙ alone in
            rw e (segment_coded c h l s other on e)
        | inr e ↦ rw e (omega arith)
      ]

  part_on : (s : Text) → pct ≡ true → percent_part pct s ≡ percent_encoded s
  unfolding percent_part
  part_on s on = rw on refl

  part_off : (s : Text) → pct ≡ false → percent_part pct s ≡ 0
  unfolding percent_part
  part_off s off = rw off refl

  segment-percent_part :
      (s : Text)
      → stands cat accept b'%' ≡ false
      → segment cat pct accept s
        ≡ percent_part pct s + segment cat pct accept (drop (percent_part pct s) s)
  segment-percent_part s alone = elim (Bool-cases pct) [
    | inl on ↦ rw (part_on s on) (segment-percent_encoded s on alone)
    | inr off ↦ rw (part_off s off) (omega arith)
  ]

  segment_neither :
      (s : Text)
      → ((c : ℕ) (t : Text) → s ≡ c ∷ t → stands cat accept c ≡ false)
      → percent_part pct s ≡ 0
      → segment cat pct accept s ≡ 0
  unfolding segment percent_part percent_encoded
  segment_neither [] none_stands b = refl
  segment_neither (c ∷ []) none_stands b = rw (none_stands c [] refl, segment) refl
  segment_neither (c ∷ h ∷ []) none_stands b = rw (none_stands c (h ∷ []) refl, segment) refl
  segment_neither (c ∷ h ∷ l ∷ s) none_stands b =
      rw (none_stands c (h ∷ l ∷ s) refl, segment) (neither_code pct _ _ b)

  -- A segment that starts with neither is empty.
  segment-zero :
      (s : Text)
      → span (λ c. leb (value (strcategory c)) (value cat)) s ≡ 0
      → percent_part pct s ≡ 0
      → strspn s accept ≡ 0
      → segment cat pct accept s ≡ 0
  segment-zero s a b d = segment_neither s (first s a d) b
    where
      first :
          (s : Text)
          → span (λ c. leb (value (strcategory c)) (value cat)) s ≡ 0
          → strspn s accept ≡ 0
          → (c : ℕ) (t : Text) → s ≡ c ∷ t
          → stands cat accept c ≡ false
      first [] a d c t e = absurd (ground (arith, e))
      first (x ∷ s) a d c t e =
          let same : x ≡ c = cc in
          let low = span_none (λ c. leb (value (strcategory c)) (value cat)) x s a in
          let out = span_none (λ c. is_one_of c accept) x s d in
          ap (stands cat accept) (sym same) ∙ rw (low, out) refl

  module _ (alone : stands cat accept b'%' ≡ false) (s : Text) where
    advance :
        (n k : ℕ)
        → segment cat pct accept (drop n s) ≡ k + segment cat pct accept (drop k (drop n s))
        → n + segment cat pct accept (drop n s) ≡ (n + k) + segment cat pct accept (drop (n + k) s)
    advance n k h = rw (drop-drop n k s) (omega (arith, h))

    jspn_round-segment :
        (n : ℕ)
        → n + segment cat pct accept (drop n s)
          ≡ jspn_round s cat pct accept n
            + segment cat pct accept (drop (jspn_round s cat pct accept n) s)
    unfolding jspn_round strcatjspn
    jspn_round-segment n =
        let n1 = n + strcatjspn (drop n s) cat in
        let n2 = n1 + percent_part pct (drop n1 s) in
        advance n (strcatjspn (drop n s) cat) (segment-span _ (λ c h. or_left _ _ h) (drop n s))
        ∙ advance n1 (percent_part pct (drop n1 s)) (segment-percent_part (drop n1 s) alone)
        ∙ advance n2 (strspn (drop n2 s) accept)
            (segment-span _ (λ c h. or_right _ _ h) (drop n2 s))

    jspn_round_still :
        (n : ℕ) → jspn_round s cat pct accept n ≤ n → segment cat pct accept (drop n s) ≡ 0
    unfolding jspn_round strcatjspn
    jspn_round_still n h =
        let n1 = n + strcatjspn (drop n s) cat in
        let n2 = n1 + percent_part pct (drop n1 s) in
        let zero1 : strcatjspn (drop n s) cat ≡ 0 = omega (arith, h) in
        let same1 : n1 ≡ n = omega (arith, zero1) in
        let zero2 : percent_part pct (drop n1 s) ≡ 0 = omega (arith, h) in
        let same2 : n2 ≡ n = omega (arith, zero2, same1) in
        let zero3 : strspn (drop n2 s) accept ≡ 0 = omega (arith, h) in
        segment-zero (drop n s) zero1 (ap (λ k. percent_part pct (drop k s)) (sym same1) ∙ zero2)
          (ap (λ k. strspn (drop k s) accept) (sym same2) ∙ zero3)

    jspn_round_ge : (n : ℕ) → n ≤ jspn_round s cat pct accept n
    unfolding jspn_round
    jspn_round_ge n = omega arith

    jspn_loop-segment :
        (fuel n : ℕ)
        → segment cat pct accept (drop n s) < fuel
        → jspn_loop fuel s cat pct accept n ≡ some (n + segment cat pct accept (drop n s))
    unfolding jspn_loop
    jspn_loop-segment zero n room = absurd (omega arith)
    jspn_loop-segment (suc fuel) n room =
        let next = jspn_round s cat pct accept n in
        let same = jspn_round-segment n in
        elim (Bool-cases (ltb n next)) [
          | inl further ↦
              let grows : n < next = lt_of_ltb n next further in
              let left : segment cat pct accept (drop next s) < fuel = omega (arith, same) in
              rw (further, jspn_loop) (jspn_loop-segment fuel next left ∙ ap some (sym same))
          | inr still ↦
              let stays : next ≤ n = le_of_ltb n next still in
              let nothing = jspn_round_still n stays in
              rw (still, jspn_loop) (ap some (omega (arith, nothing, stays, jspn_round_ge n)))
        ]

  segment-le : (s : Text) → segment cat pct accept s ≤ length s
  unfolding segment
  segment-le [] = omega arith
  segment-le (c ∷ []) = bounded (stands cat accept c) 0 0 1 (omega arith) (omega arith)
  segment-le (c ∷ h ∷ []) =
      bounded (stands cat accept c) _ 0 2 (omega (arith, segment-le (h ∷ []))) (omega arith)
  segment-le (c ∷ h ∷ l ∷ s) =
      bounded (stands cat accept c) _ _ (suc (suc (suc (length s))))
        (omega (arith, segment-le (h ∷ l ∷ s)))
        (bounded (pct && (c == b'%' && (isxdigit h && isxdigit l))) _ 0 _
          (omega (arith, segment-le s)) (omega arith))

  -- The loop ends within one round more than there are bytes, with the length of the longest
  -- initial segment, where the percent sign itself may not stand alone.
  pub jspn-segment :
      (s : Text)
      → stands cat accept b'%' ≡ false
      → jspn s cat pct accept ≡ some (segment cat pct accept s)
  unfolding jspn
  jspn-segment s alone =
      let start : 0 + segment cat pct accept s ≡ segment cat pct accept s = omega arith in
      jspn_loop-segment alone s (suc (length s)) 0 (omega (arith, segment-le s)) ∙ ap some start
