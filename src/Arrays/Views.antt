-- ===== src/Arrays/Views.antt =====
-- Arrays that show the memory of another: reshaped and transposed arrays, and the size of the
-- memory.
use dlite.Base.{
  ℕ, zero, suc, ◌+◌, ◌*◌, ◌≤◌, ◌<◌, ◌≡◌, ◌≢◌, ◌↔◌, refl, sym, ◌∙◌, ap, inl, inr, true, false, List,
  [], ◌∷◌, arith, none, some, ℤ, ◌+ℤ◌, ◌*ℤ◌, length, reverse_append, Bool-cases, Option-cases, ltb,
  eqℤ, if◌then◌else◌, ◌==◌,
}
use dlite.Arrays.Array.{
  DLiteArray, as_int, strides_of, dlite_array_create, dlite_array_index, prod_loop, size_loop,
  dlite_array_size, continuous_loop, dlite_array_is_continuous, offset_loop, dlite_array_reshape,
  dlite_array_transpose, has_zero,
}
use dlite.Arrays.Layout.{
  Within, position, ints, index-create, product, Fits, Fits-tail, stride_lem, as_int_small,
}

eqℤ→eq : (a b : ℤ) → eqℤ a b ≡ true → a ≡ b
eqℤ→eq (ℤ.pos m) (ℤ.pos n) h = ap ℤ.pos (ground arith)
eqℤ→eq (ℤ.pos m) (ℤ.negsuc n) h = cc
eqℤ→eq (ℤ.negsuc m) (ℤ.pos n) h = cc
eqℤ→eq (ℤ.negsuc m) (ℤ.negsuc n) h = ap ℤ.negsuc (ground arith)

eq_self : (n : ℕ) → (n == n) ≡ true
eq_self n = ground arith

continuous_loop-strides_of :
    (size : ℕ) (shape : List ℕ)
    → Fits size shape
    → continuous_loop (as_int (ℤ.pos size)) shape (strides_of size shape).0
      ≡ some (ℤ.pos (size * product shape))
unfolding continuous_loop strides_of
continuous_loop-strides_of size [] (h, k) =
    ap some (as_int_small size (omega (arith, k)) ∙ ap ℤ.pos (omega arith))
continuous_loop-strides_of size (d ∷ shape) f =
    let block = size * product shape in
    let next : as_int (ℤ.pos (block * d)) ≡ ℤ.pos (size * (d * product shape)) =
      ap (λ n. as_int (ℤ.pos n)) (omega arith) ∙ as_int_small _ f.1 in
    rw
      (
        continuous_loop-strides_of size shape (Fits-tail size d shape f),
        stride_lem size d shape f,
        eq_self block,
        next,
      )
      refl

continuous_loop-some :
    (size : ℕ) (shape : List ℕ) (strides : List ℤ) (n : ℤ)
    → Fits size shape
    → length strides ≡ length shape
    → continuous_loop (as_int (ℤ.pos size)) shape strides ≡ some n
    → (strides ≡ (strides_of size shape).0) × (n ≡ ℤ.pos (size * product shape))
unfolding continuous_loop strides_of
continuous_loop-some size [] [] n f same h =
    let whole = continuous_loop-strides_of size [] f in
    let e : some n ≡ some (ℤ.pos (size * 1)) = sym h ∙ whole in (refl, cc)
continuous_loop-some size [] (s ∷ strides) n f same h = absurd (omega arith)
continuous_loop-some size (d ∷ shape) [] n f same h = absurd (omega arith)
continuous_loop-some size (d ∷ shape) (s ∷ strides) n f same h =
    elim (Option-cases (continuous_loop (as_int (ℤ.pos size)) shape strides)) [
      | inl missing ↦ absurd (let e : none ≡ some n = rw (← h, missing) in ground arith)
      | inr (m, found) ↦
          let smaller = Fits-tail size d shape f in
          let (tail, size_is) =
            continuous_loop-some size shape strides m smaller (omega arith) found in
          let step : (if eqℤ s m then some (as_int (m *ℤ ℤ.pos d)) else none) ≡ some n =
            rw (← h, found) in
          elim (Bool-cases (eqℤ s m)) [
            | inl fits ↦
                let at_s = eqℤ→eq s m fits in
                let first : s ≡ as_int (ℤ.pos (strides_of size shape).1) =
                  at_s ∙ size_is ∙ sym (stride_lem size d shape f) in
                let total : some (as_int (m *ℤ ℤ.pos d)) ≡ some n = rw (← step, fits) in
                let next : as_int (m *ℤ ℤ.pos d) ≡ ℤ.pos (size * (d * product shape)) =
                  ap (λ k. as_int (k *ℤ ℤ.pos d)) size_is
                  ∙ ap (λ k. as_int (ℤ.pos k)) (omega arith)
                  ∙ as_int_small _ f.1 in
                (rw (first, tail), cc)
            | inr off ↦ absurd (let e : none ≡ some n = rw (← step, off) in ground arith)
          ]
    ]

-- An array without a dimension of zero, whose elements together are smaller than 2 GiB, is
-- continuous if and only if its strides are those of a created array.
pub dlite_array_is_continuous_lem :
    (arr : DLiteArray)
    → Fits arr.size arr.shape
    → length arr.strides ≡ length arr.shape
    → (dlite_array_is_continuous arr ≡ true) ↔ (arr.strides ≡ (strides_of arr.size arr.shape).0)
unfolding dlite_array_is_continuous
dlite_array_is_continuous_lem arr f same = (
  λ h. elim (Option-cases (continuous_loop (as_int (ℤ.pos arr.size)) arr.shape arr.strides)) [
    | inl missing ↦ absurd (
        let e : false ≡ true =
          sym (ap (λ o. elim o [ none ↦ false | some _ ↦ true ]) missing) ∙ h in
        ground arith)
    | inr (m, found) ↦ (continuous_loop-some arr.size arr.shape arr.strides m f same found).0
  ],
  λ e.
      ap
        (λ strides. elim (continuous_loop (as_int (ℤ.pos arr.size)) arr.shape strides) [
          | none ↦ false
          | some _ ↦ true
        ])
        e
      ∙ rw (continuous_loop-strides_of arr.size arr.shape f),
)

plus_right_comm : (a b c : ℤ) → a +ℤ b +ℤ c ≡ a +ℤ c +ℤ b
plus_right_comm (ℤ.pos a) (ℤ.pos b) (ℤ.pos c) = ap ℤ.pos (omega arith)
plus_right_comm (ℤ.pos a) (ℤ.pos b) (ℤ.negsuc c) = ground arith
plus_right_comm (ℤ.pos a) (ℤ.negsuc b) (ℤ.pos c) = ground arith
plus_right_comm (ℤ.pos a) (ℤ.negsuc b) (ℤ.negsuc c) = ground arith
plus_right_comm (ℤ.negsuc a) (ℤ.pos b) (ℤ.pos c) = ground arith
plus_right_comm (ℤ.negsuc a) (ℤ.pos b) (ℤ.negsuc c) = ground arith
plus_right_comm (ℤ.negsuc a) (ℤ.negsuc b) (ℤ.pos c) = ground arith
plus_right_comm (ℤ.negsuc a) (ℤ.negsuc b) (ℤ.negsuc c) = ap ℤ.negsuc (omega arith)

offset_loop-plus :
    (ind strides : List ℤ) (o p : ℤ)
    → offset_loop ind strides (o +ℤ p) ≡ offset_loop ind strides o +ℤ p
offset_loop-plus [] strides o p = refl
offset_loop-plus (i ∷ ind) [] o p = refl
offset_loop-plus (i ∷ ind) (s ∷ strides) o p =
    ap (λ q. offset_loop ind strides q) (plus_right_comm o p (i *ℤ s))
    ∙ offset_loop-plus ind strides (o +ℤ i *ℤ s) p

offset_loop-reverse :
    (ind strides ind' strides' : List ℤ) (o : ℤ)
    → length ind ≡ length strides
    → offset_loop (reverse_append ind ind') (reverse_append strides strides') o
      ≡ offset_loop ind' strides' (offset_loop ind strides o)
offset_loop-reverse [] [] ind' strides' o same = refl
offset_loop-reverse [] (s ∷ strides) ind' strides' o same = absurd (omega arith)
offset_loop-reverse (i ∷ ind) [] ind' strides' o same = absurd (omega arith)
offset_loop-reverse (i ∷ ind) (s ∷ strides) ind' strides' o same =
    offset_loop-reverse ind strides (i ∷ ind') (s ∷ strides') o (omega arith)
    ∙ ap (λ q. offset_loop ind' strides' q) (sym (offset_loop-plus ind strides o (i *ℤ s)))

-- The transposed array has the dimensions in reverse, and at the reversed index the element of
-- the array.
pub dlite_array_transpose_lem :
    (arr : DLiteArray) (ind : List ℤ)
    → length ind ≡ length arr.strides
    → ((dlite_array_transpose arr).shape ≡ reverse_append arr.shape [])
      × (dlite_array_index (dlite_array_transpose arr) (reverse_append ind [])
          ≡ dlite_array_index arr ind)
unfolding dlite_array_transpose dlite_array_index
dlite_array_transpose_lem arr ind same = (
  refl,
  ap (λ o. arr.data_at +ℤ as_int o) (offset_loop-reverse ind arr.strides [] [] (ℤ.pos 0) same),
)

prod_loop-product :
    (shape : List ℕ) (k : ℕ) → Fits k shape → prod_loop shape (ℤ.pos k) ≡ ℤ.pos (k * product shape)
unfolding prod_loop
prod_loop-product [] k f = ap ℤ.pos (omega arith)
prod_loop-product (zero ∷ shape) k (h, small) = absurd (ground arith)
prod_loop-product (suc d ∷ shape) k (h, small) =
    ap (λ z. prod_loop shape z) (as_int_small (k * suc d) (prefix k d shape h small))
    ∙ prod_loop-product shape (k * suc d) (h, omega (arith, small))
    ∙ ap ℤ.pos (omega arith)
  where
    prefix :
        (k d : ℕ) (shape : List ℕ)
        → has_zero shape ≡ false
        → k * (suc d * product shape) < 2147483648
        → k * suc d < 2147483648
    prefix k d [] h small = omega (arith, small)
    prefix k d (zero ∷ shape) h small = absurd (ground arith)
    prefix k d (suc e ∷ shape) h small = prefix k d shape h (omega (arith, small))

prod_loop_one : (shape : List ℕ) → Fits 1 shape → prod_loop shape (ℤ.pos 1) ≡ ℤ.pos (product shape)
prod_loop_one shape f = prod_loop-product shape 1 f ∙ ap ℤ.pos (omega arith)

-- A created array, whose elements together are smaller than 2 GiB, can be given any shape with the
-- same number of elements, and none of less than 2 ^ 31 elements in another number, where no
-- dimension is zero; indices at the same position in row-major order then mean the same element.
pub dlite_array_reshape_lem :
    (at dtype size : ℕ) (shape shape' : List ℕ)
    → Fits size shape
    → Fits 1 shape
    → Fits 1 shape'
    → (product shape ≢ product shape'
        → dlite_array_reshape (dlite_array_create (ℤ.pos at) dtype size shape) shape' ≡ none)
      × (product shape ≡ product shape'
          → (new : DLiteArray) × (dlite_array_reshape
                (dlite_array_create (ℤ.pos at) dtype size shape)
                shape'
              ≡ some new)
            × (new.shape ≡ shape')
            × ((ind ind' : List ℕ)
                → Within shape ind
                → Within shape' ind'
                → position shape ind ≡ position shape' ind'
                → dlite_array_index new (ints ind')
                  ≡ dlite_array_index (dlite_array_create (ℤ.pos at) dtype size shape) (ints ind)))
unfolding dlite_array_reshape dlite_array_create dlite_array_is_continuous
dlite_array_reshape_lem at dtype size shape shape' f few few' =
    let whole = continuous_loop-strides_of size shape f in
    let counted = prod_loop_one shape few in
    let counted' = prod_loop_one shape' few' in
    (
      λ other.
          let test : (product shape == product shape') ≡ false = ground arith in
          rw (whole, counted, counted', test),
      λ same.
          let test : (product shape == product shape') ≡ true = ground arith in
          let f' : Fits size shape' = (few'.0, omega (arith, f.1, ap (λ (n : ℕ). size * n) same)) in
          (
            dlite_array_create (ℤ.pos at) dtype size shape',
            rw (whole, counted, counted', test),
            refl,
            λ ind ind' w w' level.
                index-create at dtype size shape' ind' f' w'
                ∙ ap (λ k. ℤ.pos (at + size * k)) (sym level)
                ∙ sym (index-create at dtype size shape ind f w),
          ),
    )

size_loop-small :
    (size : ℕ) (shape : List ℕ) (m : ℕ)
    → Fits size shape
    → size * product shape ≤ m
    → size_loop (strides_of size shape).0 shape (ℤ.pos m) ≡ ℤ.pos m
unfolding size_loop strides_of
size_loop-small size [] m f k = refl
size_loop-small size (zero ∷ shape) m (h, small) k = absurd (ground arith)
size_loop-small size (suc d ∷ shape) m f k =
    let block = size * product shape in
    let fits : block * suc d ≤ m = omega (arith, k) in
    let test : ltb m (block * suc d) ≡ false = ground (arith, fits) in
    let whole : as_int (ℤ.pos (block * suc d)) ≡ ℤ.pos (block * suc d) =
      as_int_small (block * suc d) (omega (arith, f.1)) in
    rw (stride_lem size (suc d) shape f, whole, test, size_loop)
      (size_loop-small size shape m (Fits-tail size (suc d) shape f) (omega (arith, k)))

size_loop-whole :
    (size d : ℕ) (shape : List ℕ)
    → Fits size (d ∷ shape)
    → size_loop (strides_of size (d ∷ shape)).0 (d ∷ shape) (ℤ.pos 0)
      ≡ ℤ.pos (size * product (d ∷ shape))
unfolding size_loop strides_of
size_loop-whole size zero shape (h, small) = absurd (ground arith)
size_loop-whole size (suc d) shape f =
    let n = size * product shape * suc d in
    let whole : as_int (ℤ.pos n) ≡ ℤ.pos n = as_int_small n (omega (arith, f.1)) in
    let largest : (if ltb 0 n then ℤ.pos n else ℤ.pos 0) ≡ ℤ.pos n = ground arith in
    rw (stride_lem size (suc d) shape f, whole, size_loop)
      (ap (λ k. size_loop (strides_of size shape).0 shape k) largest
        ∙ size_loop-small size shape n (Fits-tail size (suc d) shape f) (omega arith)
        ∙ ap ℤ.pos (omega arith))

-- The size of a created array with at least one dimension, and none of them zero, whose elements
-- together are smaller than 2 GiB, is that of its elements together; without dimensions it is zero,
-- though the array has one element.
pub dlite_array_size_lem :
    (at : ℤ) (dtype size d : ℕ) (shape : List ℕ)
    → Fits size (d ∷ shape)
    → (dlite_array_size (dlite_array_create at dtype size (d ∷ shape))
        ≡ ℤ.pos (size * product (d ∷ shape)))
      × (dlite_array_size (dlite_array_create at dtype size []) ≡ ℤ.pos 0)
unfolding dlite_array_size dlite_array_create size_loop
dlite_array_size_lem at dtype size d shape f = (size_loop-whole size d shape f, refl)
