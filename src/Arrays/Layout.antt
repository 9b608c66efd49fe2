-- ===== src/Arrays/Layout.antt =====
-- What the strides of an array mean: which address belongs to which index.
use native.Mathlib.Nat.{mul-le-mul_left, mul-le-mul_right, mod-eq_of_lt}
use dlite.Base.{
  inl, inr, ◌⊎◌, ℕ, zero, suc, ◌+◌, ◌*◌, ◌%◌, ◌≤◌, ◌<◌, ◌≡◌, refl, ◌∙◌, ap, true, false, List, [],
  ◌∷◌, arith, ℤ, ◌+ℤ◌, ◌*ℤ◌, length, ltb,
}
use dlite.Arrays.Array.{
  as_int, strides_of, dlite_array_create, offset_loop, dlite_array_index, has_zero,
}

-- The number of the elements.
abbrev pub product : List ℕ → ℕ
product [] = 1
product (d ∷ shape) = d * product shape

-- No dimension is zero, and the elements together are smaller than 2 GiB.
abbrev pub Fits : ℕ → List ℕ → Type 0
Fits size shape = (has_zero shape ≡ false) × (size * product shape < 2147483648)

pub Fits-tail : (size d : ℕ) (shape : List ℕ) → Fits size (d ∷ shape) → Fits size shape
Fits-tail size zero shape (h, k) = absurd (ground arith)
Fits-tail size (suc d) shape (h, k) = (h, omega (arith, k))

pub Fits-one : (size : ℕ) (shape : List ℕ) → 0 < size → Fits size shape → Fits 1 shape
Fits-one zero shape some_size f = absurd (omega arith)
Fits-one (suc size) shape some_size (h, k) = (h, omega (arith, k))

pub as_int_small : (n : ℕ) → n < 2147483648 → as_int (ℤ.pos n) ≡ ℤ.pos n
unfolding as_int
as_int_small n h =
    let whole : n % 4294967296 ≡ n = mod-eq_of_lt (omega (arith, h)) in
    let test : ltb n 2147483648 ≡ true = ground (arith, h) in rw (whole, test)

-- The indices are below the dimensions.
abbrev pub Within : List ℕ → List ℕ → Type 0
Within [] [] = Unit {0}
Within [] (i ∷ ind) = ⊥
Within (d ∷ shape) [] = ⊥
Within (d ∷ shape) (i ∷ ind) = (i < d) × Within shape ind

-- The number of the indices that come before `ind` in row-major order.
abbrev pub position : List ℕ → List ℕ → ℕ
position [] ind = 0
position (d ∷ shape) [] = 0
position (d ∷ shape) (i ∷ ind) = i * product shape + position shape ind

abbrev pub ints : List ℕ → List ℤ
ints [] = []
ints (i ∷ ind) = ℤ.pos i ∷ ints ind

pub size-strides_of :
    (size : ℕ) (shape : List ℕ) → Fits size shape → (strides_of size shape).1 ≡ size * product shape
unfolding strides_of
size-strides_of size [] f = omega arith
size-strides_of size (d ∷ shape) f =
    let tail = size-strides_of size shape (Fits-tail size d shape f) in
    let whole : (strides_of size shape).1 * d ≡ size * (d * product shape) =
      omega (arith, ap (λ (n : ℕ). n * d) tail) in
    ap (λ n. n % 18446744073709551616) whole ∙ mod-eq_of_lt (omega (arith, f.1))

-- The first stride.
pub stride_lem :
    (size d : ℕ) (shape : List ℕ)
    → Fits size (d ∷ shape)
    → as_int (ℤ.pos (strides_of size shape).1) ≡ ℤ.pos (size * product shape)
stride_lem size d shape f =
    let tail = Fits-tail size d shape f in
    ap (λ n. as_int (ℤ.pos n)) (size-strides_of size shape tail) ∙ as_int_small _ tail.1

pub length-ints : (ind : List ℕ) → length (ints ind) ≡ length ind
length-ints [] = refl
length-ints (i ∷ ind) = ap suc (length-ints ind)

-- An offset of a row, and one within it, stay in the block.
row_lt : (d i p q : ℕ) → i < d → q < p → i * p + q < d * p
row_lt d i p q h k = let row : suc i * p ≤ d * p = mul-le-mul_right p h in omega (arith, row)

pub position_lt : (shape ind : List ℕ) → Within shape ind → position shape ind < product shape
position_lt [] [] w = omega arith
position_lt [] (i ∷ ind) w = elim w [ ]
position_lt (d ∷ shape) [] w = elim w [ ]
position_lt (d ∷ shape) (i ∷ ind) w =
    row_lt d i (product shape) (position shape ind) w.0 (position_lt shape ind w.1)

in_order : (i j : ℕ) → (i < j) ⊎ ((i ≡ j) ⊎ (j < i))
in_order i j = ground arith

row_unique : (i j p q r : ℕ) → q < p → r < p → i * p + q ≡ j * p + r → (i ≡ j) × (q ≡ r)
row_unique i j p q r h k e = elim (in_order i j) [
  | inl less ↦ absurd (omega (arith, row_lt j i p q less h))
  | inr (inl same) ↦ (same, omega (arith, ap (λ (n : ℕ). n * p) same))
  | inr (inr more) ↦ absurd (omega (arith, row_lt i j p r more k))
]

-- No two indices have one position.
pub position_unique :
    (shape ind ind' : List ℕ)
    → Within shape ind
    → Within shape ind'
    → position shape ind ≡ position shape ind'
    → ind ≡ ind'
position_unique [] [] [] w w' e = refl
position_unique [] [] (j ∷ ind') w w' e = elim w' [ ]
position_unique [] (i ∷ ind) ind' w w' e = elim w [ ]
position_unique (d ∷ shape) [] ind' w w' e = elim w [ ]
position_unique (d ∷ shape) (i ∷ ind) [] w w' e = elim w' [ ]
position_unique (d ∷ shape) (i ∷ ind) (j ∷ ind') w w' e =
    let (same, rest) =
      row_unique i j (product shape) (position shape ind) (position shape ind')
        (position_lt shape ind w.1) (position_lt shape ind' w'.1) e in
    let tail = position_unique shape ind ind' w.1 w'.1 rest in cc

offset_loop-position :
    (size : ℕ) (shape ind : List ℕ) (o : ℕ)
    → Fits size shape
    → Within shape ind
    → offset_loop (ints ind) (strides_of size shape).0 (ℤ.pos o)
      ≡ ℤ.pos (o + size * position shape ind)
unfolding strides_of
offset_loop-position size [] [] o f w = ap ℤ.pos (omega arith)
offset_loop-position size [] (i ∷ ind) o f w = elim w [ ]
offset_loop-position size (d ∷ shape) [] o f w = elim w [ ]
offset_loop-position size (d ∷ shape) (i ∷ ind) o f w =
    ap (λ s. offset_loop (ints ind) (strides_of size shape).0 (ℤ.pos o +ℤ ℤ.pos i *ℤ s))
      (stride_lem size d shape f)
    ∙ offset_loop-position size shape ind (o + i * (size * product shape))
        (Fits-tail size d shape f) w.1
    ∙ ap ℤ.pos (omega arith)

element_behind : (size q r : ℕ) → q < r → size * q + size ≤ size * r
element_behind size q r h =
    let e : size * suc q ≤ size * r = mul-le-mul_left size h in omega (arith, e)

-- The pointer to an index of a created array.
pub index-create :
    (at dtype size : ℕ) (shape ind : List ℕ)
    → Fits size shape
    → Within shape ind
    → dlite_array_index (dlite_array_create (ℤ.pos at) dtype size shape) (ints ind)
      ≡ ℤ.pos (at + size * position shape ind)
unfolding dlite_array_index dlite_array_create
index-create at dtype size shape ind f w =
    let inside : size * position shape ind < 2147483648 = omega (
      arith,
      f.1,
      element_behind size (position shape ind) (product shape) (position_lt shape ind w),
    ) in
    ap (λ o. ℤ.pos at +ℤ as_int o) (offset_loop-position size shape ind 0 f w)
    ∙ ap (λ n. ℤ.pos at +ℤ as_int (ℤ.pos n)) (omega arith)
    ∙ ap (λ o. ℤ.pos at +ℤ o) (as_int_small (size * position shape ind) inside)

-- For a created array without a dimension of zero, whose elements together are smaller than 2 GiB:
-- the elements at two different indices within its shape do not overlap, and lie inside the block
-- of its size.
pub dlite_array_index_lem :
    (at dtype size : ℕ) (shape ind ind' : List ℕ)
    → Fits size shape
    → Within shape ind
    → Within shape ind'
    → (p : ℕ) × (q : ℕ) × (dlite_array_index
          (dlite_array_create (ℤ.pos at) dtype size shape)
          (ints ind)
        ≡ ℤ.pos p)
      × (dlite_array_index (dlite_array_create (ℤ.pos at) dtype size shape) (ints ind') ≡ ℤ.pos q)
      × (at ≤ p)
      × (p + size ≤ at + size * product shape)
      × ((ind ≡ ind') ⊎ ((p + size ≤ q) ⊎ (q + size ≤ p)))
dlite_array_index_lem at dtype size shape ind ind' f w w' =
    let q = position shape ind in
    let r = position shape ind' in
    (
      at + size * q,
      at + size * r,
      index-create at dtype size shape ind f w,
      index-create at dtype size shape ind' f w',
      omega arith,
      omega (arith, element_behind size q (product shape) (position_lt shape ind w)),
      elim (in_order q r) [
        | inl less ↦ inr (inl (omega (arith, element_behind size q r less)))
        | inr (inl same) ↦ inl (position_unique shape ind ind' w w' same)
        | inr (inr more) ↦ inr (inr (omega (arith, element_behind size r q more)))
      ],
    )
