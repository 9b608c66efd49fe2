-- ===== src/Arrays/Array.antt =====
-- src/dlite-arrays.c: arrays as views of a block of memory. Pointers are integers, a `size_t` has
-- 64 bits and an `int` has 32; where a number does not fit it wraps around.
use dlite.Base.{
  ℕ, zero, suc, ◌-◌, ◌*◌, ◌%◌, Bool, true, false, List, [], ◌∷◌, Option, none, some, Outcome, done,
  fault, ℤ, ◌+ℤ◌, ◌*ℤ◌, is_negative, eqℤ, ltℤ, ◌==◌, if◌then◌else◌, set, reverse_append, ◌||◌, ltb,
}

-- `ndims` is the length of `shape` and of `strides`.
pub record DLiteArray : Type 0 where
  pub data_at : ℤ
  pub dtype : ℕ
  pub size : ℕ
  pub shape : List ℕ
  pub strides : List ℤ

-- The 32 bits `bits` as an `int`.
abbrev from_bits : ℕ → ℤ
from_bits bits = if ltb bits 2147483648 then ℤ.pos bits else ℤ.negsuc (4294967295 - bits)

-- The number that an `int` has after the conversion or the computation of `z`, in two's complement.
unfoldable pub as_int : ℤ → ℤ
as_int (ℤ.pos n) = from_bits (n % 4294967296)
as_int (ℤ.negsuc n) = from_bits (4294967295 - n % 4294967296)

-- The strides that the loop of `dlite_array_create` computes, from the last, and the size then.
unfoldable pub strides_of : ℕ → List ℕ → List ℤ × ℕ
unfolding as_int
strides_of size [] = ([], size)
strides_of size (d ∷ shape) =
    let rest = strides_of size shape in
    (as_int (ℤ.pos rest.1) ∷ rest.0, rest.1 * d % 18446744073709551616)

unfoldable pub dlite_array_create : ℤ → ℕ → ℕ → List ℕ → DLiteArray
unfolding strides_of
dlite_array_create at dtype size shape = record {
  data_at = at;
  dtype = dtype;
  size = size;
  shape = shape;
  strides = (strides_of size shape).0;
}

-- The loop of `dlite_array_size`.
unfoldable pub size_loop : List ℤ → List ℕ → ℤ → ℤ
unfolding as_int
size_loop [] shape maxsize = maxsize
size_loop (s ∷ strides) [] maxsize = maxsize
size_loop (s ∷ strides) (d ∷ shape) maxsize =
    let size = as_int (s *ℤ ℤ.pos d) in
    size_loop strides shape (if ltℤ maxsize size then size else maxsize)

unfoldable pub dlite_array_size : DLiteArray → ℤ
unfolding size_loop
dlite_array_size arr = size_loop arr.strides arr.shape (ℤ.pos 0)

-- The loop of `dlite_array_is_continuous`, from the last dimension: none where a stride differs,
-- else the size then.
unfoldable pub continuous_loop : ℤ → List ℕ → List ℤ → Option ℤ
unfolding as_int
continuous_loop size [] strides = some size
continuous_loop size (d ∷ shape) [] = some size
continuous_loop size (d ∷ shape) (s ∷ strides) = elim (continuous_loop size shape strides) [
  | none ↦ none
  | some n ↦ if eqℤ s n then some (as_int (n *ℤ ℤ.pos d)) else none
]

unfoldable pub dlite_array_is_continuous : DLiteArray → Bool
unfolding continuous_loop as_int
dlite_array_is_continuous arr =
    elim (continuous_loop (as_int (ℤ.pos arr.size)) arr.shape arr.strides) [
      | none ↦ false
      | some _ ↦ true
    ]

-- The loop of `dlite_array_index`, before its sum is taken as an `int`: to wrap around at the end
-- gives what it gives at each step.
abbrev pub offset_loop : List ℤ → List ℤ → ℤ → ℤ
offset_loop [] strides offset = offset
offset_loop (i ∷ ind) [] offset = offset
offset_loop (i ∷ ind) (s ∷ strides) offset = offset_loop ind strides (offset +ℤ i *ℤ s)

unfoldable pub dlite_array_index : DLiteArray → List ℤ → ℤ
unfolding as_int
dlite_array_index arr ind = arr.data_at +ℤ as_int (offset_loop ind arr.strides (ℤ.pos 0))

-- The loops of `dlite_array_reshape` over the dimensions.
unfoldable pub prod_loop : List ℕ → ℤ → ℤ
unfolding as_int
prod_loop [] prod = prod
prod_loop (d ∷ shape) prod = prod_loop shape (as_int (prod *ℤ ℤ.pos d))

-- none where the arrays differ in size or `arr` is not continuous.
unfoldable pub dlite_array_reshape : DLiteArray → List ℕ → Option DLiteArray
unfolding dlite_array_is_continuous dlite_array_create prod_loop
dlite_array_reshape arr shape =
    if dlite_array_is_continuous arr
    then (if eqℤ (prod_loop arr.shape (ℤ.pos 1)) (prod_loop shape (ℤ.pos 1))
        then some (dlite_array_create arr.data_at arr.dtype arr.size shape)
        else none)
    else none

unfoldable pub dlite_array_transpose : DLiteArray → DLiteArray
dlite_array_transpose arr = record arr {
  shape = reverse_append arr.shape [];
  strides = reverse_append arr.strides [];
}

-- none where the order is neither of the two.
unfoldable pub dlite_array_create_order : ℤ → ℕ → ℕ → List ℕ → ℕ → Option DLiteArray
unfolding dlite_array_create dlite_array_transpose
dlite_array_create_order at dtype size shape order =
    if order == b'C'
    then some (dlite_array_create at dtype size shape)
    else if order == b'F'
    then some (dlite_array_transpose (dlite_array_create at dtype size shape))
    else none

-- An iterator and its array.
pub record DLiteArrayIter : Type 0 where
  pub arr : DLiteArray
  pub ind : List ℤ

-- `iter->ind[arr->ndims-1]--` on zeros, a write before the start where there are none.
abbrev pub before_first : List ℕ → Outcome (List ℤ)
before_first [] = fault
before_first (d ∷ []) = done (ℤ.negsuc 0 ∷ [])
before_first (d ∷ e ∷ shape) = elim (before_first (e ∷ shape)) [
  | fault ↦ fault
  | done ind ↦ done (ℤ.pos 0 ∷ ind)
]

unfoldable pub dlite_array_iter_init : DLiteArray → Outcome DLiteArrayIter
dlite_array_iter_init arr = elim (before_first arr.shape) [
  | fault ↦ fault
  | done ind ↦ done (record { arr = arr; ind = ind })
]

abbrev pub has_zero : List ℕ → Bool
has_zero [] = false
has_zero (zero ∷ shape) = true
has_zero (suc d ∷ shape) = has_zero shape

-- The loop of `dlite_array_iter_next` that counts up, from the last dimension: whether it ran
-- through all of them, and the index. An index is below a dimension, so it does not overflow.
unfoldable pub count_up : List ℕ → List ℤ → Bool × List ℤ
unfolding as_int
count_up [] ind = (true, ind)
count_up (d ∷ shape) [] = (true, [])
count_up (d ∷ shape) (i ∷ ind) =
    let rest = count_up shape ind in
    let next = i +ℤ ℤ.pos 1 in
    elim rest.0 [
      | false ↦ (false, i ∷ rest.1)
      | true ↦
          if ltℤ next (as_int (ℤ.pos d)) then (false, next ∷ rest.1) else (true, ℤ.pos 0 ∷ rest.1)
    ]

-- The iterator, and the pointer or NULL.
unfoldable pub dlite_array_iter_next : DLiteArrayIter → Outcome (DLiteArrayIter × Option ℤ)
unfolding count_up dlite_array_index
dlite_array_iter_next iter = elim iter.ind [
  | [] ↦ fault
  | i ∷ ind ↦ elim (is_negative i || has_zero iter.arr.shape) [
    | true ↦ done (iter, none)
    | false ↦ elim (count_up iter.arr.shape iter.ind).0 [
      | true ↦
          done (record iter { ind = set (count_up iter.arr.shape iter.ind).1 0 (ℤ.negsuc 0) }, none)
      | false ↦
          let next = (count_up iter.arr.shape iter.ind).1 in
          done (record iter { ind = next }, some (dlite_array_index iter.arr next))
    ]
  ]
]
