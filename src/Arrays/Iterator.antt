-- ===== src/Arrays/Iterator.antt =====
-- What an iterator over an array visits.
use dlite.Base.{
  ℕ, zero, suc, ◌+◌, ◌*◌, ◌-◌, ◌<◌, ◌≡◌, refl, ◌∙◌, ap, inl, inr, ◌⊎◌, true, false, List, [], ◌∷◌,
  ◌++◌, arith, Option, none, some, Outcome, done, ◌>>=◌, ℤ, replicate, set, Bool-cases, ltb,
}
use dlite.Arrays.Array.{
  DLiteArray, dlite_array_create, dlite_array_index, as_int, DLiteArrayIter, before_first,
  dlite_array_iter_init, has_zero, count_up, dlite_array_iter_next,
}
use dlite.Arrays.Layout.{
  Within, position, ints, position_lt, index-create, product, Fits, Fits-tail, Fits-one,
  as_int_small,
}

-- The results of `n` calls of `dlite_array_iter_next`.
pub results : ℕ → DLiteArrayIter → Outcome (List (Option ℤ))
results zero iter = done []
results (suc n) iter = do r ← dlite_array_iter_next iter; rest ← results n r.0; done (r.1 ∷ rest)

-- Pointers to `n` elements, one behind the other.
pub elements : ℕ → ℕ → ℕ → List (Option ℤ)
elements at size zero = []
elements at size (suc n) = some (ℤ.pos at) ∷ elements (at + size) size n

abbrev zeros : List ℕ → List ℕ
zeros [] = []
zeros (d ∷ shape) = 0 ∷ zeros shape

Within-zeros : (shape : List ℕ) → has_zero shape ≡ false → Within shape (zeros shape)
Within-zeros [] h = tt
Within-zeros (zero ∷ shape) h = ground arith
Within-zeros (suc d ∷ shape) h = (omega arith, Within-zeros shape h)

position-zeros : (shape : List ℕ) → position shape (zeros shape) ≡ 0
position-zeros [] = refl
position-zeros (d ∷ shape) = omega (arith, position-zeros shape)

has_zero-tail : (d : ℕ) (shape : List ℕ) → has_zero (d ∷ shape) ≡ false → has_zero shape ≡ false
has_zero-tail zero shape h = ground arith
has_zero-tail (suc d) shape h = h

-- Counting up gives the next index, or zeros after the last.
Counted : List ℕ → List ℕ → Type 0
unfolding count_up
Counted shape ind =
    ((ind' : List ℕ) × Within shape ind'
      × (position shape ind' ≡ suc (position shape ind))
      × (count_up shape (ints ind) ≡ (false, ints ind')))
    ⊎ ((suc (position shape ind) ≡ product shape)
        × (count_up shape (ints ind) ≡ (true, ints (zeros shape))))

-- A dimension as an `int`.
dimension : (d : ℕ) (shape : List ℕ) → Fits 1 (d ∷ shape) → as_int (ℤ.pos d) ≡ ℤ.pos d
dimension d shape f =
    as_int_small d (below d (product shape) (positive shape (Fits-tail 1 d shape f)) (f.1))
  where
    positive : (shape : List ℕ) → Fits 1 shape → 0 < product shape
    positive [] f = omega arith
    positive (zero ∷ shape) (h, k) = absurd (ground arith)
    positive (suc d ∷ shape) (h, k) =
        let e = positive shape (h, omega (arith, k)) in omega (arith, e)

    below : (d p : ℕ) → 0 < p → 1 * (d * p) < 2147483648 → d < 2147483648
    below d zero h k = absurd (omega arith)
    below d (suc p) h k = omega (arith, k)

count_up_lem : (shape ind : List ℕ) → Fits 1 shape → Within shape ind → Counted shape ind
unfolding Counted count_up
count_up_lem [] [] h w = inr (refl, refl)
count_up_lem [] (i ∷ ind) h w = elim w [ ]
count_up_lem (d ∷ shape) [] h w = elim w [ ]
count_up_lem (d ∷ shape) (i ∷ ind) h w =
    let rest = count_up shape (ints ind) in
    let smaller = Fits-tail 1 d shape h in
    let positive = smaller.0 in
    let whole_d = dimension d shape h in
    elim (count_up_lem shape ind smaller w.1) [
      | inl (ind', inside, next, counted) ↦ inl (
        i ∷ ind',
        (w.0, inside),
        omega (arith, next),
        rw counted (ap (λ r. (false, ℤ.pos i ∷ r.1)) counted),
      )
      | inr (last, counted) ↦ elim (Bool-cases (ltb (i + 1) d)) [
        | inl more ↦ inl (
          suc i ∷ zeros shape,
          (ground arith, Within-zeros shape positive),
          omega (arith, last, position-zeros shape, ap (λ (n : ℕ). i * n) last),
          rw (counted, whole_d, more)
              (ap (λ r. (false, ℤ.pos (i + 1) ∷ r.1)) counted
                ∙ ap (λ n. (false, ℤ.pos n ∷ ints (zeros shape))) (omega arith)),
        )
        | inr no_more ↦ inr (
          (let full : suc i ≡ d = ground (arith, w.0) in
              omega (arith, last, ap (λ (n : ℕ). n * product shape) full)),
          rw (counted, whole_d, no_more) (ap (λ r. (true, ℤ.pos 0 ∷ r.1)) counted),
        )
      ]
    ]

stopped :
    (n : ℕ) (arr : DLiteArray) (ind : List ℤ)
    → results n (record { arr = arr; ind = ℤ.negsuc 0 ∷ ind }) ≡ done (replicate n none)
unfolding results dlite_array_iter_next
stopped zero arr ind = refl
stopped (suc n) arr ind = rw (stopped n arr ind)

-- The call at an index within the shape.
next_counted :
    (arr : DLiteArray) (i : ℕ) (ind next : List ℤ)
    → has_zero arr.shape ≡ false
    → count_up arr.shape (ℤ.pos i ∷ ind) ≡ (false, next)
    → dlite_array_iter_next (record { arr = arr; ind = ℤ.pos i ∷ ind })
      ≡ done (record { arr = arr; ind = next }, some (dlite_array_index arr next))
unfolding dlite_array_iter_next
next_counted arr i ind next positive counted =
    rw (positive, dlite_array_iter_next)
      (rw counted (
        ap (λ r. done (record { arr = arr; ind = r.1 }, some (dlite_array_index arr r.1))) counted))

next_last :
    (arr : DLiteArray) (i j : ℕ) (ind next : List ℕ)
    → has_zero arr.shape ≡ false
    → count_up arr.shape (ints (i ∷ ind)) ≡ (true, ints (j ∷ next))
    → dlite_array_iter_next (record { arr = arr; ind = ints (i ∷ ind) })
      ≡ done (record { arr = arr; ind = ℤ.negsuc 0 ∷ ints next }, none)
unfolding dlite_array_iter_next
next_last arr i j ind next positive counted =
    rw (positive, dlite_array_iter_next)
      (rw counted
        (ap (λ r. done (record { arr = arr; ind = set r.1 0 (ℤ.negsuc 0) }, none)) counted))

results_step :
    (n : ℕ) (iter iter' : DLiteArrayIter) (r : Option ℤ) (rs : List (Option ℤ))
    → dlite_array_iter_next iter ≡ done (iter', r)
    → results n iter' ≡ done rs
    → results (suc n) iter ≡ done (r ∷ rs)
unfolding results
results_step n iter iter' r rs step rest = rw (step, rest)

-- The index before the first.
starts :
    (d : ℕ) (shape : List ℕ)
    → Fits 1 (d ∷ shape)
    → (ind : List ℤ) × (before_first (d ∷ shape) ≡ done ind)
      × (count_up (d ∷ shape) ind ≡ (false, ints (zeros (d ∷ shape))))
unfolding count_up
starts zero shape (h, k) = absurd (ground arith)
starts (suc d) [] h = (
  ℤ.negsuc 0 ∷ [],
  refl,
  rw (dimension (suc d) [] h, let less : ltb 0 (suc d) ≡ true = ground arith in less),
)
starts (suc d) (e ∷ shape) h =
    let (ind, start, counted) = starts e shape (Fits-tail 1 (suc d) (e ∷ shape) h) in
    (ℤ.pos 0 ∷ ind, rw start, rw counted (ap (λ r. (false, ℤ.pos 0 ∷ r.1)) counted))

starts_row :
    (d e : ℕ) (shape : List ℕ)
    → Fits 1 (d ∷ e ∷ shape)
    → (ind : List ℤ) × (before_first (e ∷ shape) ≡ done ind)
      × (count_up (d ∷ e ∷ shape) (ℤ.pos 0 ∷ ind) ≡ (false, ints (zeros (d ∷ e ∷ shape))))
unfolding count_up
starts_row d e shape h =
    let (ind, start, counted) = starts e shape (Fits-tail 1 d (e ∷ shape) h) in
    (ind, start, rw (counted, count_up) (ap (λ r. (false, ℤ.pos 0 ∷ r.1)) counted))

module _ (at dtype size d e : ℕ) (shape : List ℕ) (some_size : 0 < size)
    (fits : Fits size (d ∷ e ∷ shape)) where
  abbrev whole : List ℕ
  whole = d ∷ e ∷ shape

  small : Fits 1 whole
  small = Fits-one size whole some_size fits

  positive : has_zero whole ≡ false
  positive = small.0

  abbrev array : DLiteArray
  array = dlite_array_create (ℤ.pos at) dtype size whole

  -- The element that `k` others come before.
  abbrev element : ℕ → ℕ
  element k = at + size * k

  run :
      (m n i : ℕ) (ind : List ℕ)
      → Within whole (i ∷ ind)
      → suc (position whole (i ∷ ind)) + m ≡ product whole
      → results (m + n) (record { arr = array; ind = ints (i ∷ ind) })
        ≡ done (elements (element (suc (position whole (i ∷ ind)))) size m ++ replicate n none)
  unfolding elements Counted dlite_array_create
  run zero zero i ind w left = unfold results in refl
  run zero (suc n) i ind w left = elim (count_up_lem whole (i ∷ ind) small w) [
    | inl (ind', inside, next, counted) ↦
        absurd (omega (arith, next, position_lt whole ind' inside, left))
    | inr (last, counted) ↦
        ap (λ k. results k (record { arr = array; ind = ints (i ∷ ind) })) (omega arith)
        ∙ results_step n _ _ none (replicate n none)
            (next_last array i 0 ind (zeros (e ∷ shape)) positive counted) (stopped n array _)
  ]
  run (suc m) n i ind w left = elim (count_up_lem whole (i ∷ ind) small w) [
    | inl ([], inside, next, counted) ↦ elim inside [ ]
    | inl (i' ∷ ind', inside, next, counted) ↦
        let pointer : dlite_array_index array (ints (i' ∷ ind'))
            ≡ ℤ.pos (element (suc (position whole (i ∷ ind)))) =
          index-create at dtype size whole (i' ∷ ind') fits inside
          ∙ ap (λ k. ℤ.pos (element k)) next in
        let further : element (suc (position whole (i' ∷ ind')))
            ≡ element (suc (position whole (i ∷ ind))) + size =
          omega (arith, ap (λ (k : ℕ). size * k) next) in
        let rest = run m n i' ind' inside (omega (arith, next, left)) in
        ap (λ k. results k (record { arr = array; ind = ints (i ∷ ind) })) (omega arith)
        ∙ results_step (m + n) _ _ _ _
            (next_counted array i (ints ind) (ints (i' ∷ ind')) positive counted
              ∙ ap (λ q. done (record { arr = array; ind = ints (i' ∷ ind') }, some q)) pointer)
            (rest ∙ ap (λ k. done (elements k size m ++ replicate n none)) further)
    | inr (last, counted) ↦ absurd (omega (arith, last, left))
  ]

  abbrev first : List ℕ
  first = zeros whole

  first-Within : Within whole first
  first-Within = Within-zeros whole positive

  run_first :
      (m n : ℕ) (ind : List ℤ)
      → product whole ≡ suc m
      → count_up whole (ℤ.pos 0 ∷ ind) ≡ (false, ints first)
      → results (product whole + n) (record { arr = array; ind = ℤ.pos 0 ∷ ind })
        ≡ done (elements at size (product whole) ++ replicate n none)
  unfolding elements dlite_array_create
  run_first m n ind size_is counted =
      let pointer : dlite_array_index array (ints first) ≡ ℤ.pos at =
        index-create at dtype size whole first fits first-Within
        ∙ ap ℤ.pos (omega (arith, ap (λ (k : ℕ). size * k) (position-zeros whole))) in
      let second : element (suc (position whole first)) ≡ at + size =
        omega (arith, ap (λ (k : ℕ). size * k) (position-zeros whole)) in
      rw size_is (
        ap (λ k. results k (record { arr = array; ind = ℤ.pos 0 ∷ ind })) (omega arith)
        ∙ results_step (m + n) _ _ _ _
            (next_counted array 0 ind (ints first) positive counted
              ∙ ap (λ q. done (record { arr = array; ind = ints first }, some q)) pointer)
            (run m n 0 (zeros (e ∷ shape)) first-Within
                (omega (arith, position-zeros whole, size_is))
              ∙ ap (λ k. done (elements k size m ++ replicate n none)) second))

  -- The iterator over a created array of two or more dimensions, none of them zero, whose elements
  -- have a size and are together smaller than 2 GiB, returns pointers to all its elements in the
  -- order of the memory, and NULL in each call after that.
  pub dlite_array_iter_next_lem :
      (n : ℕ)
      → (iter : DLiteArrayIter) × (dlite_array_iter_init array ≡ done iter)
        × (results (product whole + n) iter
            ≡ done (elements at size (product whole) ++ replicate n none))
  unfolding dlite_array_iter_init dlite_array_create
  dlite_array_iter_next_lem n =
      let (ind, start, counted) = starts_row d e shape small in
      let some_elements = position_lt whole first first-Within in
      (
        record { arr = array; ind = ℤ.pos 0 ∷ ind },
        rw start,
        run_first (product whole - 1) n ind (omega arith) counted,
      )

-- The iterator over an array of one dimension returns NULL in each call.
pub iter_next_vector :
    (arr : DLiteArray) (d n : ℕ)
    → arr.shape ≡ d ∷ []
    → (iter : DLiteArrayIter) × (dlite_array_iter_init arr ≡ done iter)
      × (results n iter ≡ done (replicate n none))
unfolding dlite_array_iter_init
iter_next_vector arr d n h = (record { arr = arr; ind = ℤ.negsuc 0 ∷ [] }, rw h, stopped n arr [])
