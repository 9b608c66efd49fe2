-- ===== src/Base/Count.antt =====
-- Sums over a list and their invariance under permutation; removal by moving the last element.
use mathlib.Core.List.Perm
use mathlib.Core.List.{List, [], ◌∷◌, ◌++◌, Perm, Permᴰ}
use mathlib.Core.Path.{◌≡◌, refl, ap, ◌∙◌}
use mathlib.Core.Bool.{Bool, true, false, not}
use mathlib.Core.Logic.{∥∥₁_elim}
use mathlib.Core.Option.{some}
use Prim.Native.Nat.{ℕ, zero, suc, ◌+◌, ◌≤◌, ◌<◌}
use native.Mathlib.Nat.{ℕ_set}
use native.Mathlib.Omega.{arith}
use dlite.Base.Lists.{length, get_elem?, set, take, drop, cons_if, select}

abbrev pub of_bool : Bool → ℕ
of_bool true = 1
of_bool false = 0

module _ {ℓ} {A : Type ℓ} where
  -- The sum of a measure over a list.
  unfoldable pub total : (A → ℕ) → List A → ℕ
  total f [] = 0
  total f (x ∷ xs) = f x + total f xs

module _ {ℓ} {A : Type ℓ} where
  total-permᴰ : (f : A → ℕ) {xs ys : List A} → Permᴰ xs ys → total f xs ≡ total f ys
  unfolding total
  total-permᴰ f Permᴰ.nil = refl
  total-permᴰ f (Permᴰ.cons e p) = omega (arith, ap f e, total-permᴰ f p)
  total-permᴰ f (Permᴰ.swap d e) = omega (arith, ap f d, ap f e)
  total-permᴰ f (Permᴰ.trans p q) = total-permᴰ f p ∙ total-permᴰ f q

  pub total-perm : (f : A → ℕ) {xs ys : List A} → Perm xs ys → total f xs ≡ total f ys
  total-perm f p = ∥∥₁_elim p (ℕ_set _ _) (total-permᴰ f)

  total-append : (f : A → ℕ) (xs ys : List A) → total f (xs ++ ys) ≡ total f xs + total f ys
  unfolding total
  total-append f [] ys = omega arith
  total-append f (x ∷ xs) ys = omega (arith, total-append f xs ys)

  pub total-append_one :
      (f : A → ℕ) (xs : List A) (y : A) → total f (xs ++ y ∷ []) ≡ total f xs + f y
  unfolding total
  total-append_one f xs y = omega (arith, total-append f xs (y ∷ []))

  -- Replacing one element changes a sum by the difference.
  pub total-set :
      (f : A → ℕ) (xs : List A) (i : ℕ) (x y : A)
      → get_elem? xs i ≡ some x
      → total f (set xs i y) + f x ≡ total f xs + f y
  unfolding total
  total-set f [] i x y h = ground arith
  total-set f (a ∷ xs) zero x y h = ground arith
  total-set f (a ∷ xs) (suc i) x y h = omega (arith, total-set f xs i x y h)

  pub total-drop-suc :
      (f : A → ℕ) (xs : List A) (i : ℕ) (x : A)
      → get_elem? xs i ≡ some x
      → total f (drop i xs) ≡ f x + total f (drop (suc i) xs)
  unfolding total
  total-drop-suc f [] i x h = ground arith
  total-drop-suc f (a ∷ xs) zero x h = ground arith
  total-drop-suc f (a ∷ xs) (suc i) x h = total-drop-suc f xs i x h

  pub total-drop_all : (f : A → ℕ) (xs : List A) (n : ℕ) → length xs ≤ n → total f (drop n xs) ≡ 0
  unfolding total
  total-drop_all f [] zero h = refl
  total-drop_all f [] (suc n) h = refl
  total-drop_all f (x ∷ xs) zero h = absurd (omega arith)
  total-drop_all f (x ∷ xs) (suc n) h = total-drop_all f xs n (omega arith)

  -- The last element of `x ∷ xs`, and the elements before it.
  split_last : A → List A → A × List A
  split_last x [] = (x, [])
  split_last x (y ∷ xs) = let (z, zs) = split_last y xs in (z, x ∷ zs)

  -- The list without element `n`, whose place the last element takes.
  pub swap_out : ℕ → List A → List A
  swap_out n [] = []
  swap_out zero (x ∷ []) = []
  swap_out zero (x ∷ y ∷ xs) = (split_last y xs).0 ∷ (split_last y xs).1
  swap_out (suc n) (x ∷ xs) = x ∷ swap_out n xs

  split_last-eq :
      (x : A) (xs : List A) (z : A)
      → get_elem? (x ∷ xs) (length xs) ≡ some z
      → split_last x xs ≡ (z, take (length xs) (x ∷ xs))
  unfolding split_last
  split_last-eq x [] z h = ground arith
  split_last-eq x (y ∷ xs) z h = rw (split_last-eq y xs z h)

  -- Moving the last element into place `n` and dropping the last place is `swap_out`.
  pub take-set-last :
      (xs : List A) (n k : ℕ) (z : A)
      → length xs ≡ suc k
      → n < k
      → get_elem? xs k ≡ some z
      → take k (set xs n z) ≡ swap_out n xs
  unfolding swap_out
  take-set-last [] n k z h l g = absurd (omega arith)
  take-set-last (x ∷ []) n k z h l g = absurd (omega arith)
  take-set-last (x ∷ y ∷ xs) zero zero z h l g = absurd (omega arith)
  take-set-last (x ∷ y ∷ xs) zero (suc k) z h l g =
      let e : length xs ≡ k = omega arith in let p = split_last-eq y xs z (rw e g) in rw (p, e)
  take-set-last (x ∷ y ∷ xs) (suc n) zero z h l g = absurd (omega arith)
  take-set-last (x ∷ y ∷ xs) (suc n) (suc k) z h l g =
      ap (◌∷◌ x) (take-set-last (y ∷ xs) n k z (omega arith) (omega arith) g)

  pub take-last : (xs : List A) (k : ℕ) → length xs ≡ suc k → take k xs ≡ swap_out k xs
  unfolding swap_out
  take-last [] k h = absurd (omega arith)
  take-last (x ∷ []) zero h = refl
  take-last (x ∷ []) (suc k) h = absurd (omega arith)
  take-last (x ∷ y ∷ xs) zero h = absurd (omega arith)
  take-last (x ∷ y ∷ xs) (suc k) h = ap (◌∷◌ x) (take-last (y ∷ xs) k (omega arith))

  split_last-perm :
      (x : A) (xs : List A) → Perm ((split_last x xs).0 ∷ (split_last x xs).1) (x ∷ xs)
  unfolding split_last
  split_last-perm x [] = Perm.refl _
  split_last-perm x (y ∷ xs) = Perm.trans (Perm.swap _ _ _) (Perm.cons x (split_last-perm y xs))

  pub swap_out-perm :
      (xs : List A) (n : ℕ) (x : A) → get_elem? xs n ≡ some x → Perm (x ∷ swap_out n xs) xs
  unfolding swap_out
  swap_out-perm [] n x h = ground arith
  swap_out-perm (a ∷ []) zero x h = let e : a ≡ x = cc in rw e (Perm.refl _)
  swap_out-perm (a ∷ []) (suc n) x h = ground arith
  swap_out-perm (a ∷ y ∷ xs) zero x h =
      let e : a ≡ x = cc in rw e (Perm.cons x (split_last-perm y xs))
  swap_out-perm (a ∷ y ∷ xs) (suc n) x h =
      Perm.trans (Perm.swap _ _ _) (Perm.cons a (swap_out-perm (y ∷ xs) n x h))

  -- Behind place `n` a removal leaves the elements that were there, one of them moved to it.
  pub total-drop-swap_out :
      (f : A → ℕ) (xs : List A) (n : ℕ)
      → total f (drop n (swap_out n xs)) ≡ total f (drop (suc n) xs)
  unfolding swap_out
  total-drop-swap_out f [] zero = refl
  total-drop-swap_out f [] (suc n) = refl
  total-drop-swap_out f (x ∷ []) zero = refl
  total-drop-swap_out f (x ∷ y ∷ xs) zero = total-perm f (split_last-perm y xs)
  total-drop-swap_out f (x ∷ xs) (suc n) = total-drop-swap_out f xs n

  length-total : (xs : List A) → total (λ _. 1) xs ≡ length xs
  unfolding total
  length-total [] = refl
  length-total (x ∷ xs) = omega (arith, length-total xs)

  pub length-swap_out :
      (xs : List A) (n : ℕ) (x : A)
      → get_elem? xs n ≡ some x
      → suc (length (swap_out n xs)) ≡ length xs
  unfolding total
  length-swap_out xs n x h = omega (
    arith,
    length-total xs,
    length-total (swap_out n xs),
    total-perm (λ _. 1) (swap_out-perm xs n x h),
  )

  cons_if-perm :
      (b : Bool) (x : A) {xs ys : List A} → Perm xs ys → Perm (cons_if b x xs) (cons_if b x ys)
  cons_if-perm true x p = Perm.cons x p
  cons_if-perm false x p = p

  cons_if-swap :
      (b c : Bool) (x y : A) (xs : List A)
      → Perm (cons_if b x (cons_if c y xs)) (cons_if c y (cons_if b x xs))
  cons_if-swap true true x y xs = Perm.swap y x xs
  cons_if-swap true false x y xs = Perm.refl (x ∷ xs)
  cons_if-swap false c x y xs = Perm.refl _

  select-permᴰ : (p : A → Bool) {xs ys : List A} → Permᴰ xs ys → Perm (select p xs) (select p ys)
  select-permᴰ p Permᴰ.nil = Perm.refl []
  select-permᴰ p (Permᴰ.cons {a} e q) = rw (← e) (cons_if-perm (p a) a (select-permᴰ p q))
  select-permᴰ p (Permᴰ.swap {a} {b} d e) = rw (← d, ← e) (cons_if-swap (p a) (p b) a b _)
  select-permᴰ p (Permᴰ.trans q r) = Perm.trans (select-permᴰ p q) (select-permᴰ p r)

  pub select-perm : (p : A → Bool) {xs ys : List A} → Perm xs ys → Perm (select p xs) (select p ys)
  select-perm p q = ∥∥₁_elim q (λ a b. squash₁ a b) (select-permᴰ p)

  pub length-select :
      (p : A → Bool) (xs : List A) → length (select p xs) ≡ total (λ x. of_bool (p x)) xs
  unfolding total
  length-select p [] = refl
  length-select p (x ∷ xs) = ground (arith, length-select p xs)

  -- Replacing an element that fails a test by one that fails it.
  pub select-set :
      (p : A → Bool) (xs : List A) (i : ℕ) (x y : A)
      → get_elem? xs i ≡ some x
      → p x ≡ false
      → p y ≡ false
      → select p (set xs i y) ≡ select p xs
  select-set p [] i x y h hx hy = refl
  select-set p (a ∷ xs) zero x y h hx hy = let e : a ≡ x = cc in rw (e, hx, hy)
  select-set p (a ∷ xs) (suc i) x y h hx hy = ap (cons_if (p a) a) (select-set p xs i x y h hx hy)

  -- Two tests that agree on all elements but those of a third that no element passes.
  pub select-congr :
      (p q r : A → Bool) (xs : List A)
      → ((x : A) → r x ≡ false → p x ≡ q x)
      → total (λ x. of_bool (r x)) xs ≡ 0
      → select p xs ≡ select q xs
  unfolding total
  select-congr p q r [] h z = refl
  select-congr p q r (x ∷ xs) h z =
      let e : p x ≡ q x = h x (ground arith) in
      let rest = select-congr p q r xs h (ground arith) in rw (e, rest)

  pub total-swap_out :
      (f : A → ℕ) (xs : List A) (n : ℕ) (x : A)
      → get_elem? xs n ≡ some x
      → total f (swap_out n xs) + f x ≡ total f xs
  unfolding total
  total-swap_out f xs n x h = omega (arith, total-perm f (swap_out-perm xs n x h))

  pub select-swap_out :
      (p : A → Bool) (xs : List A) (n : ℕ) (x : A)
      → get_elem? xs n ≡ some x
      → p x ≡ false
      → Perm (select p (swap_out n xs)) (select p xs)
  select-swap_out p xs n x h out =
      let moved = select-perm p (swap_out-perm xs n x h) in rw (out, cons_if) at moved

  pub total-drop-set :
      (f : A → ℕ) (xs : List A) (n : ℕ) (x y : A)
      → get_elem? xs n ≡ some x
      → total f (drop n (set xs n y)) ≡ f y + total f (drop (suc n) xs)
  unfolding total
  total-drop-set f [] n x y h = ground arith
  total-drop-set f (a ∷ xs) zero x y h = refl
  total-drop-set f (a ∷ xs) (suc n) x y h = total-drop-set f xs n x y h

  pub lt-length_of_get_elem? :
      (xs : List A) (n : ℕ) (x : A) → get_elem? xs n ≡ some x → n < length xs
  lt-length_of_get_elem? [] n x h = ground arith
  lt-length_of_get_elem? (a ∷ xs) zero x h = omega arith
  lt-length_of_get_elem? (a ∷ xs) (suc n) x h = omega (arith, lt-length_of_get_elem? xs n x h)

  pub length-perm : {xs ys : List A} → Perm xs ys → length xs ≡ length ys
  length-perm {xs} {ys} p = omega (arith, length-total xs, length-total ys, total-perm (λ _. 1) p)

  -- Of a measure that is 0 outside a test, only the elements that pass it count.
  pub total-select :
      (f : A → ℕ) (p : A → Bool) (xs : List A)
      → ((x : A) → p x ≡ false → f x ≡ 0)
      → total f (select p xs) ≡ total f xs
  unfolding total
  total-select f p [] h = refl
  total-select f p (x ∷ xs) h = ground (arith, h x, total-select f p xs h)

  pub select_all :
      (p : A → Bool) (xs : List A) → total (λ x. of_bool (not (p x))) xs ≡ 0 → select p xs ≡ xs
  unfolding total
  select_all p [] h = refl
  select_all p (x ∷ xs) h = ground (arith, select_all p xs)

  pub take-length : (xs : List A) → take (length xs) xs ≡ xs
  take-length [] = refl
  take-length (x ∷ xs) = ap (◌∷◌ x) (take-length xs)

  pub length-take : (n : ℕ) (xs : List A) → n ≤ length xs → length (take n xs) ≡ n
  length-take zero xs h = refl
  length-take (suc n) [] h = absurd (omega arith)
  length-take (suc n) (x ∷ xs) h = ap suc (length-take n xs (omega arith))

  pub get_elem?-take : (xs : List A) (i n : ℕ) → i < n → get_elem? (take n xs) i ≡ get_elem? xs i
  get_elem?-take xs i zero h = absurd (omega arith)
  get_elem?-take [] i (suc n) h = refl
  get_elem?-take (x ∷ xs) zero (suc n) h = refl
  get_elem?-take (x ∷ xs) (suc i) (suc n) h = get_elem?-take xs i n (omega arith)

  -- The last of `n + 1` elements fails a test.
  pub select-take-suc :
      (p : A → Bool) (xs : List A) (n : ℕ) (x : A)
      → get_elem? xs n ≡ some x
      → p x ≡ false
      → select p (take (suc n) xs) ≡ select p (take n xs)
  select-take-suc p [] n x h out = ground arith
  select-take-suc p (a ∷ xs) zero x h out = let e : a ≡ x = cc in rw (e, out)
  select-take-suc p (a ∷ xs) (suc n) x h out = ap (cons_if (p a) a) (select-take-suc p xs n x h out)

  pub length-select-le : (p : A → Bool) (xs : List A) → length (select p xs) ≤ length xs
  length-select-le p [] = omega arith
  length-select-le p (x ∷ xs) = ground (arith, length-select-le p xs)
