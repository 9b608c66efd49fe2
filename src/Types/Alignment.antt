-- ===== src/Types/Alignment.antt =====
-- The place of a member in a struct, of src/dlite-type.c.
use dlite.Base.{
  ℕ, zero, suc, ◌+◌, ◌-◌, ◌*◌, ◌/◌, ◌%◌, true, false, ◌&&◌, Option, none, some, List, [], ◌∷◌, ◌==◌,
}
use dlite.Types.Table.{DLiteType, dtype_number, Build, TypeDescr, type_table}

-- `a & b` on numbers of `bits` bits.
unfoldable pub bit_and : ℕ → ℕ → ℕ → ℕ
bit_and zero a b = 0
bit_and (suc bits) a b = a % 2 * (b % 2) + 2 * bit_and bits (a / 2) (b / 2)

-- The loop over the table.
unfoldable pub alignment_loop : List TypeDescr → DLiteType → ℕ → Option ℕ
unfolding dtype_number
alignment_loop [] dtype size = none
alignment_loop (t ∷ table) dtype size =
    elim (dtype_number t.dtype == dtype_number dtype && t.size == size) [
      | true ↦ some t.alignment
      | false ↦ alignment_loop table dtype size
    ]

unfoldable pub unlisted_alignment : DLiteType → ℕ
unlisted_alignment DLiteType.blob = 1
unlisted_alignment DLiteType.fix_string = 1
unlisted_alignment _ = 0

unfoldable pub dlite_type_get_alignment : Build → DLiteType → ℕ → ℕ
unfolding alignment_loop type_table unlisted_alignment
dlite_type_get_alignment build dtype size = elim (alignment_loop (type_table build) dtype size) [
  | some alignment ↦ alignment
  | none ↦ unlisted_alignment dtype
]

-- `(align - (offset & (align - 1))) & (align - 1)`
unfoldable pub padding : ℕ → ℕ → ℕ
unfolding bit_and
padding align offset = bit_and 64 (align - bit_and 64 offset (align - 1)) (align - 1)

-- none for a failed assertion.
unfoldable pub dlite_type_padding_at : Build → DLiteType → ℕ → ℕ → Option ℕ
unfolding dlite_type_get_alignment padding
dlite_type_padding_at build dtype size offset =
    let align = dlite_type_get_alignment build dtype size in
    elim (align == 0) [ true ↦ none | false ↦ some (padding align offset) ]

-- none for -1.
unfoldable pub dlite_type_get_member_offset : Build → ℕ → ℕ → DLiteType → ℕ → Option ℕ
unfolding dlite_type_get_alignment padding
dlite_type_get_member_offset build prev_offset prev_size dtype size =
    let align = dlite_type_get_alignment build dtype size in
    elim (align == 0) [
      | true ↦ none
      | false ↦ some (prev_offset + prev_size + padding align (prev_offset + prev_size))
    ]
