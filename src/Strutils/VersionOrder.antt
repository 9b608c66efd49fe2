-- ===== src/Strutils/VersionOrder.antt =====
-- What the comparison of versions in src/utils/strutils.c returns where it decides.
use dlite.Base.{
  ℕ, zero, suc, ◌-◌, ◌≡◌, ◌⊎◌, refl, Bool, true, false, ◌&&◌, ◌||◌, [], ◌∷◌, Option, none, some,
  inl, inr, Text, ltb, ◌==◌, if◌then◌else◌, drop, Outcome, done, fault, ℤ, ltℤ, is_digit,
}
use dlite.Strutils.Version.{
  is_outside, natoi, run_to, sign_of, difference_fits, found, compare_numbers, compare_at, strncmp,
  compare_identifiers,
}

-- A result, if it is no fault, is -1, 0 or 1.
abbrev IsOrder : Outcome ℤ → Type 0
IsOrder fault = Unit {0}
IsOrder (done d) = (d ≡ ℤ.negsuc 0) ⊎ ((d ≡ ℤ.pos 0) ⊎ (d ≡ ℤ.pos 1))

-- The call ends, with a result or a fault.
abbrev pub Ends : Option (Outcome ℤ) → Type 0
Ends o = (r : Outcome ℤ) × (o ≡ some r) × IsOrder r

-- A comparison decides nothing, or it ends.
abbrev pub MayEnd : Option (Outcome ℤ) → Type 0
MayEnd none = Unit {0}
MayEnd (some r) = IsOrder r

sign_of-MayEnd : (a b : ℤ) → MayEnd (found (sign_of a b))
unfolding sign_of
sign_of-MayEnd a b = signs (ltℤ a b) (ltℤ b a)
  where
    signs :
        (less more : Bool)
        → MayEnd (found (if less then some (ℤ.negsuc 0) else if more then some (ℤ.pos 1) else none))
    signs true more = inl refl
    signs false true = inr (inr refl)
    signs false false = tt

MayEnd-if :
    (b : Bool) (x y : Option (Outcome ℤ)) → MayEnd x → MayEnd y → MayEnd (if b then x else y)
MayEnd-if true x y h k = h
MayEnd-if false x y h k = k

compare_numbers-MayEnd : (a b : Outcome ℤ) → MayEnd (compare_numbers a b)
unfolding compare_numbers
compare_numbers-MayEnd fault b = tt
compare_numbers-MayEnd (done a) fault = tt
compare_numbers-MayEnd (done a) (done b) =
    MayEnd-if (difference_fits a b) _ _ (sign_of-MayEnd a b) tt

pub compare_at-MayEnd :
    (v1 : Text) (n1 : ℕ) (v2 : Text) (n2 n : ℕ) → MayEnd (compare_at v1 n1 v2 n2 n)
unfolding compare_at
compare_at-MayEnd v1 n1 v2 n2 n =
    MayEnd-if (is_outside v1 n1 || is_outside v2 n2) _ _ tt
      (compare_numbers-MayEnd (natoi (drop n1 v1) (n - n1)) (natoi (drop n2 v2) (n - n2)))

strncmp-MayEnd : (k : ℕ) (a b : Text) → MayEnd (found (strncmp k a b))
unfolding strncmp
strncmp-MayEnd zero a b = tt
strncmp-MayEnd (suc k) [] [] = tt
strncmp-MayEnd (suc k) [] (y ∷ b) = inl refl
strncmp-MayEnd (suc k) (x ∷ a) [] = inr (inr refl)
strncmp-MayEnd (suc k) (x ∷ a) (y ∷ b) =
    bytes (x == y) (ltb x y) (strncmp k a b) (strncmp-MayEnd k a b)
  where
    bytes :
        (same less : Bool) (rest : Option ℤ)
        → MayEnd (found rest)
        → MayEnd (found (if same then rest else if less then some (ℤ.negsuc 0) else some (ℤ.pos 1)))
    bytes true less rest h = h
    bytes false true rest h = inl refl
    bytes false false rest h = inr (inr refl)

pub compare_identifiers-MayEnd :
    (v1 v2 : Text) (n m n1 n2 : ℕ) → MayEnd (compare_identifiers v1 v2 n m n1 n2)
unfolding compare_identifiers
compare_identifiers-MayEnd v1 v2 n m n1 n2 = MayEnd-if (is_outside v1 m || is_outside v2 m) _ _ tt (
    MayEnd-if (run_to is_digit v1 n m == n1 && run_to is_digit v2 n m == n2) _ _
      (compare_at-MayEnd v1 m v2 m n)
      (texts (strncmp ((if ltb n1 n2 then n1 else n2) - m) (drop m v1) (drop m v2))
        (strncmp-MayEnd ((if ltb n1 n2 then n1 else n2) - m) (drop m v1) (drop m v2))))
  where
    texts :
        (o : Option ℤ)
        → MayEnd (found o)
        → MayEnd (elim o as (λ _. Option (Outcome ℤ)) [
          | some d ↦ some (done d)
          | none ↦ found (sign_of (ℤ.pos n1) (ℤ.pos n2))
        ])
    texts (some d) h = h
    texts none h = sign_of-MayEnd (ℤ.pos n1) (ℤ.pos n2)
