-- ===== src/Types/Members.antt =====
-- The alignments of src/dlite-type.c and the place of a member in a struct.
use dlite.Base.{
  ℕ, ◌+◌, ◌≡◌, refl, ◌⊎◌, inl, inr, Bool, true, false, Option, none, some, List, [], ◌∷◌, ◌==◌,
  cons_if,
}
use dlite.Types.Table.{DLiteType, Build, TypeDescr, type_table}
use dlite.Types.Alignment.{
  alignment_loop, unlisted_alignment, dlite_type_get_alignment, padding, dlite_type_padding_at,
  dlite_type_get_member_offset,
}
use dlite.Types.Padding.{IsAlignment, IsNextMultiple, padding-IsNextMultiple}

-- The alignments that the build finds out are powers of two of at most 16.
abbrev pub IsBuild : Build → Type 0
IsBuild build =
    IsAlignment build.float80_alignment
    × (IsAlignment build.float96_alignment
        × (IsAlignment build.float128_alignment × IsAlignment build.long_double_alignment))

abbrev AllAligned : List TypeDescr → Type 0
AllAligned [] = Unit {0}
AllAligned (t ∷ table) = IsAlignment t.alignment × AllAligned table

cons_if-AllAligned :
    (b : Bool) (t : TypeDescr) (table : List TypeDescr)
    → IsAlignment t.alignment
    → AllAligned table
    → AllAligned (cons_if b t table)
cons_if-AllAligned true t table h rest = (h, rest)
cons_if-AllAligned false t table h rest = rest

one : IsAlignment 1
one = inl refl

two : IsAlignment 2
two = inr (inl refl)

four : IsAlignment 4
four = inr (inr (inl refl))

eight : IsAlignment 8
eight = inr (inr (inr (inl refl)))

type_table-AllAligned : (build : Build) → IsBuild build → AllAligned (type_table build)
unfolding type_table
type_table-AllAligned build (h80, (h96, (h128, hlong))) = (
  one,
  (
    eight,
    (
      eight,
      (
        one,
        (
          two,
          (
            four,
            (
              eight,
              (
                eight,
                (
                  one,
                  (
                    two,
                    (
                      four,
                      (
                        eight,
                        (
                          eight,
                          (
                            four,
                            (
                              eight,
                              (
                                hlong,
                                (
                                  four,
                                  (
                                    eight,
                                    cons_if-AllAligned build.have_float80 _ _ h80 (
                                        cons_if-AllAligned build.have_float96 _ _ h96 (
                                          cons_if-AllAligned build.have_float128 _ _ h128 (
                                            eight,
                                            (eight, (eight, (eight, (eight, (eight, tt))))),
                                          ))),
                                  ),
                                ),
                              ),
                            ),
                          ),
                        ),
                      ),
                    ),
                  ),
                ),
              ),
            ),
          ),
        ),
      ),
    ),
  ),
)

abbrev SomeAligned : Option ℕ → Type 0
SomeAligned none = Unit {0}
SomeAligned (some a) = IsAlignment a

first-SomeAligned :
    (b : Bool) (a : ℕ) (o : Option ℕ)
    → IsAlignment a
    → SomeAligned o
    → SomeAligned (elim b as (λ _. Option ℕ) [ true ↦ some a | false ↦ o ])
first-SomeAligned true a o h rest = h
first-SomeAligned false a o h rest = rest

alignment_loop-SomeAligned :
    (table : List TypeDescr) (dtype : DLiteType) (size : ℕ)
    → AllAligned table
    → SomeAligned (alignment_loop table dtype size)
unfolding alignment_loop
alignment_loop-SomeAligned [] dtype size h = tt
alignment_loop-SomeAligned (t ∷ table) dtype size (h, rest) =
    first-SomeAligned _ _ _ h (alignment_loop-SomeAligned table dtype size rest)

unlisted_alignment-cases :
    (dtype : DLiteType) → (unlisted_alignment dtype ≡ 0) ⊎ IsAlignment (unlisted_alignment dtype)
unfolding unlisted_alignment
unlisted_alignment-cases DLiteType.blob = inr one
unlisted_alignment-cases DLiteType.fix_string = inr one
unlisted_alignment-cases DLiteType.bool = inl refl
unlisted_alignment-cases DLiteType.int = inl refl
unlisted_alignment-cases DLiteType.uint = inl refl
unlisted_alignment-cases DLiteType.float = inl refl
unlisted_alignment-cases DLiteType.string_ptr = inl refl
unlisted_alignment-cases DLiteType.ref = inl refl
unlisted_alignment-cases DLiteType.dimension = inl refl
unlisted_alignment-cases DLiteType.property = inl refl
unlisted_alignment-cases DLiteType.relation = inl refl

alignment_or :
    (o : Option ℕ) (dtype : DLiteType) (a : ℕ)
    → SomeAligned o
    → a ≡ elim o as (λ _. ℕ) [ some b ↦ b | none ↦ unlisted_alignment dtype ]
    → (a ≡ 0) ⊎ IsAlignment a
alignment_or none dtype a h e = rw e (unlisted_alignment-cases dtype)
alignment_or (some b) dtype a h e = rw e (inr h)

-- The alignment of a type is a power of two of at most 16, or none is known.
pub dlite_type_get_alignment-IsAlignment :
    (build : Build) (dtype : DLiteType) (size : ℕ)
    → IsBuild build
    → (dlite_type_get_alignment build dtype size ≡ 0)
      ⊎ IsAlignment (dlite_type_get_alignment build dtype size)
unfolding dlite_type_get_alignment
dlite_type_get_alignment-IsAlignment build dtype size h =
    alignment_or (alignment_loop (type_table build) dtype size) dtype
      (dlite_type_get_alignment build dtype size)
      (alignment_loop-SomeAligned (type_table build) dtype size (type_table-AllAligned build h))
      refl

IsAlignment-positive : (a : ℕ) → IsAlignment a → (a == 0) ≡ false
IsAlignment-positive a (inl e) = rw e refl
IsAlignment-positive a (inr (inl e)) = rw e refl
IsAlignment-positive a (inr (inr (inl e))) = rw e refl
IsAlignment-positive a (inr (inr (inr (inl e)))) = rw e refl
IsAlignment-positive a (inr (inr (inr (inr e)))) = rw e refl

pub padding_at-cases :
    (build : Build) (dtype : DLiteType) (size offset : ℕ)
    → IsAlignment (dlite_type_get_alignment build dtype size)
    → dlite_type_padding_at build dtype size offset
      ≡ some (padding (dlite_type_get_alignment build dtype size) offset)
unfolding dlite_type_padding_at
padding_at-cases build dtype size offset h =
    rw (IsAlignment-positive (dlite_type_get_alignment build dtype size) h, dlite_type_padding_at)
      refl

member_offset-unknown :
    (build : Build) (prev_offset prev_size : ℕ) (dtype : DLiteType) (size : ℕ)
    → dlite_type_get_alignment build dtype size ≡ 0
    → dlite_type_get_member_offset build prev_offset prev_size dtype size ≡ none
unfolding dlite_type_get_member_offset
member_offset-unknown build prev_offset prev_size dtype size h =
    rw (h, dlite_type_get_member_offset) refl

member_offset-known :
    (build : Build) (prev_offset prev_size : ℕ) (dtype : DLiteType) (size : ℕ)
    → IsAlignment (dlite_type_get_alignment build dtype size)
    → dlite_type_get_member_offset build prev_offset prev_size dtype size
      ≡ some (
          prev_offset
          + prev_size
          + padding (dlite_type_get_alignment build dtype size) (prev_offset + prev_size))
unfolding dlite_type_get_member_offset
member_offset-known build prev_offset prev_size dtype size h =
    rw
      (
        IsAlignment-positive (dlite_type_get_alignment build dtype size) h,
        dlite_type_get_member_offset,
      )
      refl

-- A member that is added to a struct is placed at the first offset behind the member before it that
-- its alignment allows; an error is reported exactly where no alignment is known.
pub dlite_type_get_member_offset_lem :
    (build : Build) (prev_offset prev_size : ℕ) (dtype : DLiteType) (size : ℕ)
    → IsBuild build
    → ((dlite_type_get_alignment build dtype size ≡ 0)
        × (dlite_type_get_member_offset build prev_offset prev_size dtype size ≡ none))
      ⊎ ((offset : ℕ) × ((dlite_type_get_member_offset build prev_offset prev_size dtype size
              ≡ some offset)
            × IsNextMultiple
                (dlite_type_get_alignment build dtype size)
                (prev_offset + prev_size)
                offset))
dlite_type_get_member_offset_lem build prev_offset prev_size dtype size h =
    elim (dlite_type_get_alignment-IsAlignment build dtype size h) [
      | inl unknown ↦
          inl (unknown, member_offset-unknown build prev_offset prev_size dtype size unknown)
      | inr known ↦ inr (
        _,
        (
          member_offset-known build prev_offset prev_size dtype size known,
          padding-IsNextMultiple _ _ known,
        ),
      )
    ]
