-- ===== src/Strutils/VersionLoop.antt =====
-- When the comparison of pre-releases in src/utils/strutils.c ends.
use dlite.Base.{
  ℕ, zero, suc, ◌+◌, ◌-◌, ◌≡◌, ◌⊎◌, ◌≤◌, ◌<◌, refl, ◌∙◌, ap, Bool, true, false, ◌&&◌, [], ◌∷◌,
  Option, none, some, Bool-cases, inl, inr, Text, arith, ltb, ◌==◌, if◌then◌else◌, length,
  get_elem?-ge, take, drop, Outcome, done, fault, ℤ, is_digit,
}
use dlite.Strutils.Quote.{is_space}
use dlite.Strutils.Category.{span}
use dlite.Strutils.VersionOrder.{Ends, MayEnd, compare_at-MayEnd, compare_identifiers-MayEnd}
use dlite.Strutils.Version.{
  byte_of, is_outside, digits_loop, behind_plus, signed_number, natoi, run_to, sign_of, compare_at,
  next_field, is_identifier, compare_identifiers, prerelease_loop, compare_prereleases,
  strncmp_semver, strcmp_semver,
}

byte_of_end : (v : Text) (m : ℕ) → length v ≤ m → byte_of v m ≡ 0
unfolding byte_of
byte_of_end v m h = rw (get_elem?-ge v m h, byte_of) refl

span-take : (p : ℕ → Bool) (k : ℕ) (s : Text) → span p (take k s) ≤ k
span-take p zero s = omega arith
span-take p (suc k) [] = omega arith
span-take p (suc k) (c ∷ s) = ground (arith, span-take p k s)

run_to_bounds :
    (p : ℕ → Bool) (v : Text) (n m : ℕ) → (m ≤ run_to p v n m) × (run_to p v n m ≤ m + (n - m))
unfolding run_to
run_to_bounds p v n m = (omega arith, omega (arith, span-take p (n - m) (drop m v)))

no_dot : (v : Text) (m : ℕ) (b : Bool) → length v ≤ m → (byte_of v m == b'.' && b) ≡ false
no_dot v m b h = rw (byte_of_end v m h) refl

-- The position from which the identifiers are read.
abbrev entered : ℕ → ℕ → ℕ
entered k n = if ltb k n then k + 1 else k

-- The end of the identifier is further on, or where the text has ended.
further :
    (v : Text) (n k : ℕ)
    → length v ≤ n
    → let stop = run_to is_identifier v n (entered k n) in
      (length v ≤ stop) ⊎ ((n - stop) < (n - k))
further v n k h = elim (Bool-cases (ltb k n)) [
  | inl less ↦
      let below : k < n = ground (arith, less) in
      let least = (run_to_bounds is_identifier v n (k + 1)).0 in
      rw less (inr (omega (arith, least, below)))
  | inr more ↦
      let above : n ≤ k = ground (arith, more) in
      let least = (run_to_bounds is_identifier v n k).0 in
      rw more (inl (omega (arith, least, above, h)))
]

round_ends :
    (o : Option (Outcome ℤ)) (same dots : Bool) (rest : Option (Outcome ℤ))
    → MayEnd o
    → (dots ≡ true → Ends rest)
    → Ends (elim o as (λ _. Option (Outcome ℤ)) [
      | some r ↦ some r
      | none ↦ elim same as (λ _. Option (Outcome ℤ)) [
        | false ↦ some fault
        | true ↦ elim dots as (λ _. Option (Outcome ℤ)) [
          | true ↦ rest
          | false ↦ some (done (ℤ.pos 0))
        ]
      ]
    ])
round_ends (some r) same dots rest o h = (r, refl, o)
round_ends none false dots rest o h = (fault, refl, tt)
round_ends none true true rest o h = h refl
round_ends none true false rest o h = (done (ℤ.pos 0), refl, inr (inl refl))

stops : (b : Bool) → b ≡ false → b ≡ true → ⊥
stops true e f = ground arith
stops false e f = ground arith

prerelease_loop_ends :
    (fuel : ℕ) (v1 v2 : Text) (n k : ℕ)
    → length v1 ≤ n
    → n - k < fuel
    → Ends (prerelease_loop fuel v1 v2 n k)
unfolding prerelease_loop
prerelease_loop_ends zero v1 v2 n k h room = absurd (omega arith)
prerelease_loop_ends (suc fuel) v1 v2 n k h room =
    let n1 = run_to is_identifier v1 n (entered k n) in
    let n2 = run_to is_identifier v2 n (entered k n) in
    let dots = byte_of v1 n1 == b'.' && byte_of v2 n2 == b'.' in
    round_ends _ _ dots _ (compare_identifiers-MayEnd v1 v2 n (entered k n) n1 n2) λ on_dots.
      elim (further v1 n k h) [
        | inl past ↦ absurd (stops _ (no_dot v1 _ _ past) on_dots)
        | inr on ↦ prerelease_loop_ends fuel v1 v2 n n1 h (omega (arith, on, room))
      ]

compare_prereleases_ends :
    (fuel : ℕ) (v1 v2 : Text) (n m : ℕ)
    → length v1 ≤ n
    → n < fuel
    → Ends (compare_prereleases fuel v1 v2 n m)
unfolding compare_prereleases
compare_prereleases_ends fuel v1 v2 n m h room =
    cases (byte_of v1 m == b'-') (byte_of v2 m == b'-') _
      (prerelease_loop_ends fuel v1 v2 n m h (omega (arith, room)))
  where
    cases :
        (pr1 pr2 : Bool) (rest : Option (Outcome ℤ))
        → Ends rest
        → Ends (
            if pr1 && pr2
            then rest
            else if pr2
            then some (done (ℤ.negsuc 0))
            else if pr1
            then some (done (ℤ.pos 1))
            else some (done (ℤ.pos 0)))
    cases true true rest h = h
    cases true false rest h = (done (ℤ.pos 1), refl, inr (inr refl))
    cases false true rest h = (done (ℤ.negsuc 0), refl, inl refl)
    cases false false rest h = (done (ℤ.pos 0), refl, inr (inl refl))

numbers_end :
    (a b c : Option (Outcome ℤ)) (same : Bool) (rest : Option (Outcome ℤ))
    → MayEnd a
    → MayEnd b
    → MayEnd c
    → Ends rest
    → Ends (elim a as (λ _. Option (Outcome ℤ)) [
      | some r ↦ some r
      | none ↦ elim b as (λ _. Option (Outcome ℤ)) [
        | some r ↦ some r
        | none ↦ elim c as (λ _. Option (Outcome ℤ)) [
          | some r ↦ some r
          | none ↦ elim same as (λ _. Option (Outcome ℤ)) [ false ↦ some fault | true ↦ rest ]
        ]
      ]
    ])
numbers_end (some r) b c same rest ha hb hc h = (r, refl, ha)
numbers_end none (some r) c same rest ha hb hc h = (r, refl, hb)
numbers_end none none (some r) same rest ha hb hc h = (r, refl, hc)
numbers_end none none none false rest ha hb hc h = (fault, refl, tt)
numbers_end none none none true rest ha hb hc h = h

strncmp_semver_ends :
    (fuel : ℕ) (v1 v2 : Text) (n : ℕ)
    → length v1 ≤ n
    → n < fuel
    → Ends (strncmp_semver fuel v1 v2 n)
unfolding strncmp_semver
strncmp_semver_ends fuel v1 v2 n h room =
    let m1 = next_field v1 n 0 in
    let m2 = next_field v2 n 0 in
    let p1 = next_field v1 n m1 in
    let p2 = next_field v2 n m2 in
    let e1 = run_to is_digit v1 n p1 in
    let e2 = run_to is_digit v2 n p2 in
    numbers_end (compare_at v1 0 v2 0 n) (compare_at v1 m1 v2 m2 n) (compare_at v1 p1 v2 p2 n)
      (e1 == e2) _ (compare_at-MayEnd v1 0 v2 0 n) (compare_at-MayEnd v1 m1 v2 m2 n)
      (compare_at-MayEnd v1 p1 v2 p2 n) (compare_prereleases_ends fuel v1 v2 n e1 h room)

-- The comparison of two whole versions below 2 GiB ends: the loop over the identifiers of their
-- pre-releases makes no more rounds than there are bytes. It ends with -1, 0 or 1, or with a fault,
-- at a failed assertion, a number that overflows or a read behind the end of a text.
pub strcmp_semver_terminates :
    (v1 v2 : Text)
    → length v1 < 2147483648
    → length v2 < 2147483648
    → Ends (strcmp_semver (suc (length v1 + length v2)) v1 v2)
unfolding strcmp_semver
strcmp_semver_terminates v1 v2 h k =
    strncmp_semver_ends _ v1 v2 _ (longer (length v1) (length v2)) (enough (length v1) (length v2))
  where
    longer : (a b : ℕ) → a ≤ (if ltb a b then b else a)
    longer a b = ground arith

    enough : (a b : ℕ) → (if ltb a b then b else a) < suc (a + b)
    enough a b = ground arith

run_to_here : (p : ℕ → Bool) (v : Text) (n : ℕ) → run_to p v n n ≡ n
unfolding run_to
run_to_here p v n = let none_left : n - n ≡ 0 = omega arith in rw none_left (omega arith)

digits_none : (x : ℕ) (s : Text) → digits_loop x 0 s ≡ x
unfolding digits_loop
digits_none x [] = refl
digits_none x (c ∷ s) = ground arith

signed_none : (s : Text) → signed_number s 0 ≡ ℤ.pos 0
unfolding signed_number
signed_none [] = refl
signed_none (c ∷ s) = elim (Bool-cases (c == b'-')) [
  | inl minus ↦
      let low : 0 - 1 ≡ 0 = omega arith in rw (minus, low, digits_none 0 (behind_plus s)) refl
  | inr other ↦ rw (other, digits_none 0 (behind_plus (c ∷ s))) refl
]

natoi_none : (s : Text) → natoi s 0 ≡ done (ℤ.pos 0)
unfolding natoi
natoi_none s =
    let low : 0 - span is_space s ≡ 0 = omega arith in
    rw (low, signed_none (drop (span is_space s) s)) refl

-- A byte that is not NUL is inside the text.
dot_inside : (v : Text) (n : ℕ) → byte_of v n ≡ b'.' → is_outside v n ≡ false
dot_inside v n dot = elim (Bool-cases (is_outside v n)) [
  | inl outside ↦
      absurd (let nul = byte_of_end v n (ground (arith, outside)) in ground (arith, dot, nul))
  | inr inside ↦ inside
]

compare_here :
    (v1 v2 : Text) (n : ℕ)
    → byte_of v1 n ≡ b'.'
    → byte_of v2 n ≡ b'.'
    → compare_identifiers v1 v2 n n n n ≡ none
unfolding compare_identifiers compare_at
compare_here v1 v2 n dot1 dot2 =
    let none_left : n - n ≡ 0 = omega arith in
    let same : (n == n) ≡ true = ground arith in
    rw
      (
        dot_inside v1 n dot1,
        dot_inside v2 n dot2,
        run_to_here is_digit v1 n,
        run_to_here is_digit v2 n,
        same,
        none_left,
        natoi_none (drop n v1),
        natoi_none (drop n v2),
      )
      (unfold sign_of in refl)

-- One round from `m` to `n1` and `n2`.
abbrev round_to : ℕ → Text → Text → ℕ → ℕ → ℕ → ℕ → Option (Outcome ℤ)
round_to fuel v1 v2 n m n1 n2 =
    elim (compare_identifiers v1 v2 n m n1 n2) as (λ _. Option (Outcome ℤ)) [
      | some r ↦ some r
      | none ↦ elim (n1 == n2) as (λ _. Option (Outcome ℤ)) [
        | false ↦ some fault
        | true ↦
            elim (byte_of v1 n1 == b'.' && byte_of v2 n2 == b'.') as (λ _. Option (Outcome ℤ)) [
              | true ↦ prerelease_loop fuel v1 v2 n n1
              | false ↦ some (done (ℤ.pos 0))
            ]
      ]
    ]

round_again :
    (v1 v2 : Text) (n fuel : ℕ)
    → byte_of v1 n ≡ b'.'
    → byte_of v2 n ≡ b'.'
    → prerelease_loop fuel v1 v2 n n ≡ none
    → round_to fuel v1 v2 n n n n ≡ none
round_again v1 v2 n fuel dot1 dot2 later =
    let same : (n == n) ≡ true = ground arith in
    rw (compare_here v1 v2 n dot1 dot2, same, dot1, dot2, round_to) later

-- Where both versions have a dot behind their first `n` bytes, the loop that has reached the `n`
-- bytes to which `strncmp_semver` is limited never ends, whatever fuel is given.
pub prerelease_loop-dots :
    (fuel : ℕ) (v1 v2 : Text) (n : ℕ)
    → byte_of v1 n ≡ b'.'
    → byte_of v2 n ≡ b'.'
    → prerelease_loop fuel v1 v2 n n ≡ none
unfolding prerelease_loop
prerelease_loop-dots zero v1 v2 n dot1 dot2 = refl
prerelease_loop-dots (suc fuel) v1 v2 n dot1 dot2 =
    let stay : entered n n ≡ n = ground arith in
    let here1 = ap (run_to is_identifier v1 n) stay ∙ run_to_here is_identifier v1 n in
    let here2 = ap (run_to is_identifier v2 n) stay ∙ run_to_here is_identifier v2 n in
    ap
      (λ m.
        round_to fuel v1 v2 n m (run_to is_identifier v1 n (entered n n))
          (run_to is_identifier v2 n (entered n n)))
      stay
    ∙ ap (λ k. round_to fuel v1 v2 n n k (run_to is_identifier v2 n (entered n n))) here1
    ∙ ap (λ k. round_to fuel v1 v2 n n n k) here2
    ∙ round_again v1 v2 n fuel dot1 dot2 (prerelease_loop-dots fuel v1 v2 n dot1 dot2)
