-- ===== src/Tests/Arrays.antt =====
-- Runs on arrays, and the theorems on them.
use dlite.Base.{
  ℕ, ◌+◌, ◌*◌, ◌≤◌, ◌≡◌, ◌≢◌, ◌⊎◌, refl, List, [], ◌∷◌, ◌++◌, none, some, arith, done, ℤ, replicate,
  reverse_append,
}
use dlite.Arrays.Array.{
  DLiteArray, dlite_array_create, dlite_array_index, dlite_array_reshape, dlite_array_transpose,
  DLiteArrayIter, dlite_array_iter_init, as_int, prod_loop,
}
use dlite.Arrays.Layout.{Within, position, ints, product, Fits, dlite_array_index_lem}
use dlite.Arrays.Iterator.{results, elements, dlite_array_iter_next_lem, iter_next_vector}
use dlite.Arrays.Views.{dlite_array_transpose_lem, dlite_array_reshape_lem}

-- Two rows of three elements of four bytes, at address 100.
abbrev matrix : DLiteArray
matrix = dlite_array_create (ℤ.pos 100) 2 4 (2 ∷ 3 ∷ [])

matrix_strides : matrix.strides ≡ ℤ.pos 12 ∷ ℤ.pos 4 ∷ []
unfolding dlite_array_create
matrix_strides = refl

matrix_Fits : Fits 4 (2 ∷ 3 ∷ [])
matrix_Fits = (refl, omega arith)

-- The size of a row does not fit an int.
wrapped :
    (dlite_array_create (ℤ.pos 100) 2 4 (2 ∷ 1073741824 ∷ [])).strides ≡ ℤ.pos 0 ∷ ℤ.pos 4 ∷ []
unfolding dlite_array_create
wrapped = refl

-- 2 ^ 32 elements count as none.
no_elements : prod_loop (65536 ∷ 65536 ∷ []) (ℤ.pos 1) ≡ prod_loop (0 ∷ []) (ℤ.pos 1)
unfolding prod_loop
no_elements = refl

backwards : as_int (ℤ.pos 4294967295) ≡ ℤ.negsuc 0
unfolding as_int
backwards = refl

matrix_element : dlite_array_index matrix (ints (1 ∷ 2 ∷ [])) ≡ ℤ.pos 120
unfolding dlite_array_create dlite_array_index
matrix_element = refl

dlite_array_index_lem_example :
    (p : ℕ) × (q : ℕ) × (dlite_array_index matrix (ints (1 ∷ 2 ∷ [])) ≡ ℤ.pos p)
    × (dlite_array_index matrix (ints (0 ∷ 1 ∷ [])) ≡ ℤ.pos q)
    × (100 ≤ p)
    × (p + 4 ≤ 100 + 4 * product (2 ∷ 3 ∷ []))
    × ((◌≡◌ {A = List ℕ} (1 ∷ 2 ∷ []) (0 ∷ 1 ∷ [])) ⊎ ((p + 4 ≤ q) ⊎ (q + 4 ≤ p)))
dlite_array_index_lem_example =
    dlite_array_index_lem 100 2 4 (2 ∷ 3 ∷ []) (1 ∷ 2 ∷ []) (0 ∷ 1 ∷ []) matrix_Fits
      (omega arith, (omega arith, tt)) (omega arith, (omega arith, tt))

dlite_array_iter_next_lem_example :
    (iter : DLiteArrayIter) × (dlite_array_iter_init matrix ≡ done iter)
    × (results (product (2 ∷ 3 ∷ []) + 2) iter
        ≡ done (elements 100 4 (product (2 ∷ 3 ∷ [])) ++ replicate 2 none))
dlite_array_iter_next_lem_example =
    dlite_array_iter_next_lem 100 2 4 2 3 [] (omega arith) matrix_Fits 2

abbrev vector : DLiteArray
vector = record { data_at = ℤ.pos 100; dtype = 2; size = 4; shape = 3 ∷ []; strides = ℤ.pos 8 ∷ [] }

iter_next_vector_example :
    (iter : DLiteArrayIter) × (dlite_array_iter_init vector ≡ done iter)
    × (results 3 iter ≡ done (replicate 3 none))
iter_next_vector_example = iter_next_vector vector 3 3 refl

dlite_array_transpose_lem_example :
    ((dlite_array_transpose matrix).shape ≡ reverse_append matrix.shape [])
    × (dlite_array_index (dlite_array_transpose matrix) (reverse_append (ints (1 ∷ 2 ∷ [])) [])
        ≡ dlite_array_index matrix (ints (1 ∷ 2 ∷ [])))
unfolding dlite_array_create
dlite_array_transpose_lem_example = dlite_array_transpose_lem matrix (ints (1 ∷ 2 ∷ [])) refl

dlite_array_reshape_lem_example :
    (product (2 ∷ 3 ∷ []) ≢ product (6 ∷ []) → dlite_array_reshape matrix (6 ∷ []) ≡ none)
    × (product (2 ∷ 3 ∷ []) ≡ product (6 ∷ [])
        → (new : DLiteArray) × (dlite_array_reshape matrix (6 ∷ []) ≡ some new)
          × (new.shape ≡ 6 ∷ [])
          × ((ind ind' : List ℕ)
              → Within (2 ∷ 3 ∷ []) ind
              → Within (6 ∷ []) ind'
              → position (2 ∷ 3 ∷ []) ind ≡ position (6 ∷ []) ind'
              → dlite_array_index new (ints ind') ≡ dlite_array_index matrix (ints ind)))
dlite_array_reshape_lem_example =
    dlite_array_reshape_lem 100 2 4 (2 ∷ 3 ∷ []) (6 ∷ []) matrix_Fits (refl, omega arith)
      (refl, omega arith)
