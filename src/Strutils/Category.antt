-- ===== src/Strutils/Category.antt =====
-- The character categories of src/utils/strutils.c and the spans over them.
use dlite.Base.{
  ℕ, suc, ◌+◌, ◌≡◌, ◌↔◌, Bool, true, false, not, ◌&&◌, ◌||◌, [], ◌∷◌, Text, codes, arith, ltb, leb,
  ◌==◌, if◌then◌else◌, take, drop, Bool-cases, inl, inr,
}
use dlite.Strutils.Quote.{is_space}

pub data StrCategory : Type 0 where
  upper : StrCategory
  lower : StrCategory
  digit : StrCategory
  unreserved : StrCategory
  sub_delims : StrCategory
  gen_delims : StrCategory
  reserved : StrCategory
  percent : StrCategory
  c_extra : StrCategory
  space : StrCategory
  other : StrCategory
  nul : StrCategory

-- The value of the enumeration.
abbrev pub value : StrCategory → ℕ
value StrCategory.upper = 0
value StrCategory.lower = 1
value StrCategory.digit = 2
value StrCategory.unreserved = 3
value StrCategory.sub_delims = 4
value StrCategory.gen_delims = 5
value StrCategory.reserved = 6
value StrCategory.percent = 7
value StrCategory.c_extra = 8
value StrCategory.space = 9
value StrCategory.other = 10
value StrCategory.nul = 11

-- Whether `c` is one of the labels.
abbrev pub is_one_of : ℕ → Text → Bool
is_one_of c [] = false
is_one_of c (x ∷ xs) = c == x || is_one_of c xs

abbrev pub is_between : ℕ → ℕ → ℕ → Bool
is_between c low high = leb low c && leb c high

unfoldable pub strcategory : ℕ → StrCategory
strcategory c =
    if is_between c b'A' b'Z'
    then StrCategory.upper
    else if is_between c b'a' b'z'
    then StrCategory.lower
    else if is_between c b'0' b'9'
    then StrCategory.digit
    else if is_one_of c (codes "-._~")
    then StrCategory.unreserved
    else if is_one_of c (codes "!$&'()*+,;=")
    then StrCategory.sub_delims
    else if is_one_of c (codes ":/?#[]@")
    then StrCategory.gen_delims
    else if c == b'%'
    then StrCategory.percent
    else if is_one_of c (codes "\"\\<>^{}|")
    then StrCategory.c_extra
    else if is_one_of c (32 ∷ 12 ∷ 10 ∷ 13 ∷ 9 ∷ 11 ∷ [])
    then StrCategory.space
    else if c == 0
    then StrCategory.nul
    else StrCategory.other

-- The loop of the four functions below.
abbrev pub span : (ℕ → Bool) → Text → ℕ
span p [] = 0
span p (c ∷ s) = let rest = span p s in if p c then rest + 1 else 0

unfoldable pub strcatspn : Text → StrCategory → ℕ
unfolding strcategory
strcatspn s cat = span (λ c. value (strcategory c) == value cat) s

unfoldable pub strcatcspn : Text → StrCategory → ℕ
unfolding strcategory
strcatcspn s cat = span (λ c. not (value (strcategory c) == value cat)) s

unfoldable pub strcatjspn : Text → StrCategory → ℕ
unfolding strcategory
strcatjspn s cat = span (λ c. leb (value (strcategory c)) (value cat)) s

unfoldable pub strcatcjspn : Text → StrCategory → ℕ
unfolding strcategory
strcatcjspn s cat = span (λ c. ltb (value cat) (value (strcategory c))) s

-- Exactly the bytes that `isspace` accepts are in the category of spaces.
pub strcategory-is_space : (c : ℕ) → (strcategory c ≡ StrCategory.space) ↔ (is_space c ≡ true)
unfolding strcategory
strcategory-is_space c = (λ h. ground arith, λ h. ground arith)

-- All bytes pass a test.
abbrev pub All : (ℕ → Bool) → Text → Type 0
All p [] = Unit {0}
All p (c ∷ s) = (p c ≡ true) × All p s

-- The text does not start with a byte that passes.
abbrev pub Stops : (ℕ → Bool) → Text → Type 0
Stops p [] = Unit {0}
Stops p (c ∷ s) = p c ≡ false

span_lem : (p : ℕ → Bool) (s : Text) → All p (take (span p s) s) × Stops p (drop (span p s) s)
span_lem p [] = (tt, tt)
span_lem p (c ∷ s) = elim (Bool-cases (p c)) [
  | inl good ↦
      let e : span p s + 1 ≡ suc (span p s) = omega arith in
      rw (good, e) ((good, (span_lem p s).0), (span_lem p s).1)
  | inr bad ↦ rw bad (tt, bad)
]

-- Each of the four functions returns the length of the longest initial segment whose bytes pass
-- its test.
pub strcatspn_lem :
    (s : Text) (cat : StrCategory)
    → (All (λ c. value (strcategory c) == value cat) (take (strcatspn s cat) s)
        × Stops (λ c. value (strcategory c) == value cat) (drop (strcatspn s cat) s))
      × (All (λ c. not (value (strcategory c) == value cat)) (take (strcatcspn s cat) s)
          × Stops (λ c. not (value (strcategory c) == value cat)) (drop (strcatcspn s cat) s))
      × (All (λ c. leb (value (strcategory c)) (value cat)) (take (strcatjspn s cat) s)
          × Stops (λ c. leb (value (strcategory c)) (value cat)) (drop (strcatjspn s cat) s))
      × (All (λ c. ltb (value cat) (value (strcategory c))) (take (strcatcjspn s cat) s)
          × Stops (λ c. ltb (value cat) (value (strcategory c))) (drop (strcatcjspn s cat) s))
unfolding strcatspn strcatcspn strcatjspn strcatcjspn
strcatspn_lem s cat = (span_lem _ s, span_lem _ s, span_lem _ s, span_lem _ s)
