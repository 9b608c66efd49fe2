-- ===== src/Types/Decimal.antt =====
-- Numbers that `%lu` writes and `strtol` reads, for the names of src/dlite-type.c.
use mathlib.Core.Path.{subst}
use dlite.Base.{
  ℕ, zero, suc, ◌+◌, ◌*◌, ◌/◌, ◌%◌, ◌<◌, ◌≡◌, refl, sym, ap, ◌∙◌, inl, inr, Bool, true, false, some,
  Text, [], ◌∷◌, ◌++◌, arith, ltb, Bool-cases, is_alpha, is_digit, digit_in, read_digits, saturate,
}
use dlite.Types.Names.{decimal_loop, decimal, span}

abbrev pub Every : (ℕ → Bool) → Text → Type 0
Every p [] = Unit {0}
Every p (c ∷ cs) = (p c ≡ true) × Every p cs

digit_code : (n : ℕ) → is_digit (b'0' + n % 10) ≡ true
digit_code n = ground arith

decimal_loop-Every :
    (fuel n : ℕ) (out : Text) → Every is_digit out → Every is_digit (decimal_loop fuel n out)
unfolding decimal_loop
decimal_loop-Every zero n out h = h
decimal_loop-Every (suc fuel) n out h = elim (Bool-cases (ltb n 10)) [
  | inl small ↦ rw (small, decimal_loop) (digit_code n, h)
  | inr big ↦ rw (big, decimal_loop) (decimal_loop-Every fuel (n / 10) _ (digit_code n, h))
]

digit_in-code : (n : ℕ) → digit_in 10 (b'0' + n % 10) ≡ some (n % 10)
digit_in-code n = ground arith

read_digits-code :
    (m n : ℕ) (out : Text)
    → (read_digits 10 m ((b'0' + n % 10) ∷ out)).0 ≡ (read_digits 10 (m * 10 + n % 10) out).0
read_digits-code m n out = rw (digit_in-code n, read_digits) refl

read_digits-decimal_loop :
    (fuel n : ℕ) (out : Text)
    → n < fuel
    → (read_digits 10 0 (decimal_loop fuel n out)).0 ≡ (read_digits 10 n out).0
unfolding decimal_loop
read_digits-decimal_loop zero n out h = absurd (omega arith)
read_digits-decimal_loop (suc fuel) n out h = elim (Bool-cases (ltb n 10)) [
  | inl small ↦
      let last : 0 * 10 + n % 10 ≡ n = ground (arith, small) in
      rw (small, decimal_loop) (read_digits-code 0 n out ∙ ap (λ k. (read_digits 10 k out).0) last)
  | inr big ↦
      let last : n / 10 * 10 + n % 10 ≡ n = omega arith in
      let less : n / 10 < fuel = ground (arith, big, h) in
      rw (big, decimal_loop)
        (read_digits-decimal_loop fuel (n / 10) _ less
          ∙ read_digits-code (n / 10) n out
          ∙ ap (λ k. (read_digits 10 k out).0) last)
]

read_digits-decimal : (n : ℕ) → (read_digits 10 0 (decimal n)).0 ≡ n
unfolding decimal
read_digits-decimal n = read_digits-decimal_loop (suc n) n [] (omega arith)

decimal-Every : (n : ℕ) → Every is_digit (decimal n)
unfolding decimal
decimal-Every n = decimal_loop-Every (suc n) n [] tt

decimal_loop-cons :
    (fuel n x : ℕ) (out : Text) → (d : ℕ) × ((ds : Text) × (decimal_loop fuel n (x ∷ out) ≡ d ∷ ds))
unfolding decimal_loop
decimal_loop-cons zero n x out = (x, (out, refl))
decimal_loop-cons (suc fuel) n x out = elim (Bool-cases (ltb n 10)) [
  | inl small ↦ (b'0' + n % 10, (x ∷ out, rw (small, decimal_loop) refl))
  | inr big ↦
      let (d, (ds, e)) = decimal_loop-cons fuel (n / 10) (b'0' + n % 10) (x ∷ out) in
      (d, (ds, rw (big, decimal_loop) e))
]

decimal-cons : (n : ℕ) → (d : ℕ) × ((ds : Text) × (decimal n ≡ d ∷ ds))
unfolding decimal decimal_loop
decimal-cons n = elim (Bool-cases (ltb n 10)) [
  | inl small ↦ (b'0' + n % 10, ([], rw (small, decimal_loop) refl))
  | inr big ↦
      let (d, (ds, e)) = decimal_loop-cons n (n / 10) (b'0' + n % 10) [] in
      (d, (ds, rw (big, decimal_loop) e))
]

pub span-append :
    (p : ℕ → Bool) (xs ys : Text) → Every p xs → span p ys ≡ ([], ys) → span p (xs ++ ys) ≡ (xs, ys)
span-append p [] ys h k = k
span-append p (x ∷ xs) ys (hx, h) k = rw (hx, span) (rw (span-append p xs ys h k) refl)

pub span-all : (p : ℕ → Bool) (xs : Text) → Every p xs → span p xs ≡ (xs, [])
span-all p [] h = refl
span-all p (x ∷ xs) (hx, h) = rw (hx, span) (rw (span-all p xs h) refl)

pub span-digit : (d : ℕ) (ds : Text) → is_digit d ≡ true → span is_alpha (d ∷ ds) ≡ ([], d ∷ ds)
span-digit d ds h = let other : is_alpha d ≡ false = ground (arith, h) in rw (other, span) refl

saturate-small : (n : ℕ) → n < 9223372036854775808 → saturate n ≡ n
saturate-small n h = ground (arith, h)

-- The digits of a number, and what they are read as.
pub record Digits (n : ℕ) : Type 0 where
  pub d : ℕ
  pub ds : Text
  pub same : decimal n ≡ d ∷ ds
  pub digits : Every is_digit (d ∷ ds)
  pub read : saturate ((read_digits 10 0 (d ∷ ds)).0) ≡ n

pub decimal-Digits : (n : ℕ) → n < 9223372036854775808 → Digits n
decimal-Digits n h =
    let (d, (ds, e)) = decimal-cons n in
    record {
      d = d;
      ds = ds;
      same = e;
      digits = subst (Every is_digit) e (decimal-Every n);
      read =
          ap saturate (ap (λ t. (read_digits 10 0 t).0) (sym e) ∙ read_digits-decimal n)
          ∙ saturate-small n h;
    }
