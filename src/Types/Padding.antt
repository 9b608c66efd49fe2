-- ===== src/Types/Padding.antt =====
-- The padding that src/dlite-type.c computes with bit masks.
use dlite.Base.{ℕ, zero, suc, ◌+◌, ◌-◌, ◌/◌, ◌%◌, ◌≤◌, ◌<◌, ◌≡◌, refl, ◌⊎◌, inl, inr, arith}
use dlite.Types.Alignment.{bit_and, padding}

abbrev pub IsAlignment : ℕ → Type 0
IsAlignment a = (a ≡ 1) ⊎ ((a ≡ 2) ⊎ ((a ≡ 4) ⊎ ((a ≡ 8) ⊎ (a ≡ 16))))

bit_and-zero : (bits a : ℕ) → bit_and bits a 0 ≡ 0
unfolding bit_and
bit_and-zero zero a = refl
bit_and-zero (suc bits) a = omega (arith, bit_and-zero bits (a / 2))

bit_and-ones :
    (x : ℕ)
    → (bit_and 64 x 1 ≡ x % 2)
      × ((bit_and 64 x 3 ≡ x % 4) × ((bit_and 64 x 7 ≡ x % 8) × (bit_and 64 x 15 ≡ x % 16)))
unfolding bit_and
bit_and-ones x = (
  omega (arith, bit_and-zero 63 (x / 2)),
  (
    omega (arith, bit_and-zero 62 (x / 2 / 2)),
    (
      omega (arith, bit_and-zero 61 (x / 2 / 2 / 2)),
      omega (arith, bit_and-zero 60 (x / 2 / 2 / 2 / 2)),
    ),
  ),
)

bit_and-mask : (a x : ℕ) → IsAlignment a → bit_and 64 x (a - 1) ≡ x % a
bit_and-mask a x (inl e) = rw e (omega (arith, bit_and-zero 64 x))
bit_and-mask a x (inr (inl e)) = rw e ((bit_and-ones x).0)
bit_and-mask a x (inr (inr (inl e))) = rw e ((bit_and-ones x).1.0)
bit_and-mask a x (inr (inr (inr (inl e)))) = rw e ((bit_and-ones x).1.1.0)
bit_and-mask a x (inr (inr (inr (inr e)))) = rw e ((bit_and-ones x).1.1.1)

padding-mod : (a x : ℕ) → IsAlignment a → padding a x ≡ (a - x % a) % a
unfolding padding
padding-mod a x h = rw (bit_and-mask a x h) (bit_and-mask a (a - x % a) h)

-- `y` is the first place from `x` on that is a multiple of `a`.
abbrev pub IsNextMultiple : ℕ → ℕ → ℕ → Type 0
IsNextMultiple a x y = (y % a ≡ 0) × ((x ≤ y) × (y < x + a))

pub padding-IsNextMultiple : (a x : ℕ) → IsAlignment a → IsNextMultiple a x (x + padding a x)
padding-IsNextMultiple a x h = rw (padding-mod a x h) (next a h)
  where
    next : (a : ℕ) → IsAlignment a → IsNextMultiple a x (x + (a - x % a) % a)
    next a (inl e) = rw e (omega arith, (omega arith, omega arith))
    next a (inr (inl e)) = rw e (omega arith, (omega arith, omega arith))
    next a (inr (inr (inl e))) = rw e (omega arith, (omega arith, omega arith))
    next a (inr (inr (inr (inl e)))) = rw e (omega arith, (omega arith, omega arith))
    next a (inr (inr (inr (inr e)))) = rw e (omega arith, (omega arith, omega arith))
