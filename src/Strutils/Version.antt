-- ===== src/Strutils/Version.antt =====
-- The order of semantic versions of src/utils/strutils.c. A failed assertion, an overflow of `int`
-- and a read behind the NUL of a text are a fault.
use dlite.Base.{
  ℕ, zero, suc, ◌+◌, ◌-◌, ◌*◌, Bool, true, false, ◌&&◌, ◌||◌, [], ◌∷◌, Option, none, some, Text,
  ltb, ◌==◌, if◌then◌else◌, length, get_elem?, take, drop, Outcome, done, fault, ℤ, ltℤ, neg_pos,
  is_digit, is_alpha,
}
use dlite.Strutils.Quote.{is_space}
use dlite.Strutils.Category.{span}

-- `v[m]`, where `m` is not behind the NUL: the code reads bytes at positions that it has reached
-- from one that was tested by `is_outside`.
unfoldable pub byte_of : Text → ℕ → ℕ
byte_of v m = elim (get_elem? v m) as (λ _. ℕ) [ none ↦ 0 | some c ↦ c ]

abbrev pub is_outside : Text → ℕ → Bool
is_outside v m = ltb (length v) m

-- The loop over at most `n` digits.
unfoldable pub digits_loop : ℕ → ℕ → Text → ℕ
digits_loop x n [] = x
digits_loop x n (c ∷ s) =
    let rest = digits_loop (10 * x + (c - b'0')) (n - 1) s in
    if is_digit c && ltb 0 n then rest else x

-- `if (*s == '+') s++;`
unfoldable pub behind_plus : Text → Text
behind_plus [] = []
behind_plus (c ∷ s) = if c == b'+' then s else c ∷ s

-- A sign and digits, as an integer. The number of bytes is not counted down for a plus sign.
unfoldable pub signed_number : Text → ℕ → ℤ
unfolding digits_loop behind_plus
signed_number [] n = ℤ.pos 0
signed_number (c ∷ s) n =
    if c == b'-'
    then neg_pos (digits_loop 0 (n - 1) (behind_plus s))
    else ℤ.pos (digits_loop 0 n (behind_plus (c ∷ s)))

-- Whether `x` and `sign * x` are integers of 32 bits.
abbrev pub is_natural_int : ℤ → Bool
is_natural_int (ℤ.pos n) = ltb n 2147483648
is_natural_int (ℤ.negsuc n) = ltb n 2147483647

-- `x` only grows, so it overflows if it does at the end.
unfoldable pub natoi : Text → ℕ → Outcome ℤ
unfolding signed_number
natoi s n =
    let k = span is_space s in
    let z = signed_number (drop k s) (n - k) in if is_natural_int z then done z else fault

-- `while (p(v[m]) && m < n) m++;`
unfoldable pub run_to : (ℕ → Bool) → Text → ℕ → ℕ → ℕ
run_to p v n m = m + span p (take (n - m) (drop m v))

-- `(d < 0) ? -1 : 1` for a difference, none for 0.
unfoldable pub sign_of : ℤ → ℤ → Option ℤ
sign_of a b = if ltℤ a b then some (ℤ.negsuc 0) else if ltℤ b a then some (ℤ.pos 1) else none

abbrev pub difference_fits : ℤ → ℤ → Bool
difference_fits (ℤ.pos a) (ℤ.pos b) = true
difference_fits (ℤ.pos a) (ℤ.negsuc b) = ltb (a + suc b) 2147483648
difference_fits (ℤ.negsuc a) (ℤ.pos b) = ltb (a + b) 2147483648
difference_fits (ℤ.negsuc a) (ℤ.negsuc b) = true

abbrev pub found : Option ℤ → Option (Outcome ℤ)
found none = none
found (some d) = some (done d)

-- What comes of the difference of two numbers, none where they are equal.
unfoldable pub compare_numbers : Outcome ℤ → Outcome ℤ → Option (Outcome ℤ)
unfolding sign_of
compare_numbers fault b = some fault
compare_numbers (done a) fault = some fault
compare_numbers (done a) (done b) = if difference_fits a b then found (sign_of a b) else some fault

-- The comparison of the numbers at two positions, none where they are equal.
unfoldable pub compare_at : Text → ℕ → Text → ℕ → ℕ → Option (Outcome ℤ)
unfolding natoi compare_numbers
compare_at v1 n1 v2 n2 n =
    if is_outside v1 n1 || is_outside v2 n2
    then some fault
    else compare_numbers (natoi (drop n1 v1) (n - n1)) (natoi (drop n2 v2) (n - n2))

-- The position behind a number and what follows it.
unfoldable pub next_field : Text → ℕ → ℕ → ℕ
unfolding run_to
next_field v n m = let k = run_to is_digit v n m in if ltb k n then k + 1 else k

-- `strncmp` of the C library, by its sign; a text ends before its NUL.
unfoldable pub strncmp : ℕ → Text → Text → Option ℤ
strncmp zero a b = none
strncmp (suc k) [] [] = none
strncmp (suc k) [] (y ∷ b) = some (ℤ.negsuc 0)
strncmp (suc k) (x ∷ a) [] = some (ℤ.pos 1)
strncmp (suc k) (x ∷ a) (y ∷ b) =
    let rest = strncmp k a b in
    if x == y then rest else if ltb x y then some (ℤ.negsuc 0) else some (ℤ.pos 1)

abbrev pub is_identifier : ℕ → Bool
is_identifier c = (is_alpha c || is_digit c) || c == b'-'

-- The comparison of the identifiers from `m` to `n1` and `n2`.
unfoldable pub compare_identifiers : Text → Text → ℕ → ℕ → ℕ → ℕ → Option (Outcome ℤ)
unfolding run_to compare_at strncmp sign_of
compare_identifiers v1 v2 n m n1 n2 =
    if is_outside v1 m || is_outside v2 m
    then some fault
    else if run_to is_digit v1 n m == n1 && run_to is_digit v2 n m == n2
    then compare_at v1 m v2 m n
    else elim (strncmp ((if ltb n1 n2 then n1 else n2) - m) (drop m v1) (drop m v2))
        as (λ _. Option (Outcome ℤ)) [
          | some d ↦ some (done d)
          | none ↦ found (sign_of (ℤ.pos n1) (ℤ.pos n2))
        ]

-- The loop over the identifiers of the pre-releases, none where the fuel is used up.
unfoldable pub prerelease_loop : ℕ → Text → Text → ℕ → ℕ → Option (Outcome ℤ)
unfolding run_to compare_identifiers byte_of
prerelease_loop zero v1 v2 n k = none
prerelease_loop (suc fuel) v1 v2 n k =
    let m = if ltb k n then k + 1 else k in
    let n1 = run_to is_identifier v1 n m in
    let n2 = run_to is_identifier v2 n m in
    elim (compare_identifiers v1 v2 n m n1 n2) as (λ _. Option (Outcome ℤ)) [
      | some r ↦ some r
      | none ↦ elim (n1 == n2) as (λ _. Option (Outcome ℤ)) [
        | false ↦ some fault
        | true ↦
            elim (byte_of v1 n1 == b'.' && byte_of v2 n2 == b'.') as (λ _. Option (Outcome ℤ)) [
              | true ↦ prerelease_loop fuel v1 v2 n n1
              | false ↦ some (done (ℤ.pos 0))
            ]
      ]
    ]

-- The part behind the three numbers.
unfoldable pub compare_prereleases : ℕ → Text → Text → ℕ → ℕ → Option (Outcome ℤ)
unfolding prerelease_loop byte_of
compare_prereleases fuel v1 v2 n m =
    let pr1 = byte_of v1 m == b'-' in
    let pr2 = byte_of v2 m == b'-' in
    if pr1 && pr2
    then prerelease_loop fuel v1 v2 n m
    else if pr2
    then some (done (ℤ.negsuc 0))
    else if pr1
    then some (done (ℤ.pos 1))
    else some (done (ℤ.pos 0))

unfoldable pub strncmp_semver : ℕ → Text → Text → ℕ → Option (Outcome ℤ)
unfolding compare_at next_field run_to compare_prereleases
strncmp_semver fuel v1 v2 n =
    let m1 = next_field v1 n 0 in
    let m2 = next_field v2 n 0 in
    let p1 = next_field v1 n m1 in
    let p2 = next_field v2 n m2 in
    let e1 = run_to is_digit v1 n p1 in
    let e2 = run_to is_digit v2 n p2 in
    elim (compare_at v1 0 v2 0 n) as (λ _. Option (Outcome ℤ)) [
      | some r ↦ some r
      | none ↦ elim (compare_at v1 m1 v2 m2 n) as (λ _. Option (Outcome ℤ)) [
        | some r ↦ some r
        | none ↦ elim (compare_at v1 p1 v2 p2 n) as (λ _. Option (Outcome ℤ)) [
          | some r ↦ some r
          | none ↦ elim (e1 == e2) as (λ _. Option (Outcome ℤ)) [
            | false ↦ some fault
            | true ↦ compare_prereleases fuel v1 v2 n e1
          ]
        ]
      ]
    ]

-- The texts are below 2 GiB, so that their lengths are of type `int`.
unfoldable pub strcmp_semver : ℕ → Text → Text → Option (Outcome ℤ)
unfolding strncmp_semver
strcmp_semver fuel v1 v2 =
    strncmp_semver fuel v1 v2 (if ltb (length v1) (length v2) then length v2 else length v1)
