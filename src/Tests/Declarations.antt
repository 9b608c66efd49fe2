-- ===== src/Tests/Declarations.antt =====
-- Runs of the functions of src/dlite-type.c that write declarations, and of those of
-- src/utils/bson.c that build a sub-document in parts.
use dlite.Base.{
  ℕ, ◌≡◌, refl, true, false, some, none, List, [], ◌∷◌, ◌++◌, codes, take, drop, replicate,
}
use dlite.Types.Table.{DLiteType}
use dlite.Types.Declarations.{dlite_type_set_ftype, dlite_type_set_isoctype, dlite_type_set_cdecl}
use dlite.Tests.Types.{linux}
use dlite.Bson.Memory.{Bson, value, ◌>>=◌}
use dlite.Bson.Types.{bson_document, bson_binary, bson_int32, type_code, bson_datasize}
use dlite.Bson.Write.{payload, bson_append}
use dlite.Bson.Parts.{
  bson_begin_subdoc, bson_end_subdoc, bson_begin_binary, bson_append_binary, bson_end_binary,
}
use dlite.Bson.Layout.{Element, encode, body, document}

fortran : dlite_type_set_ftype DLiteType.fix_string 11 40 ≡ some (codes "character(len=10)")
unfolding dlite_type_set_ftype
fortran = refl

isoc : dlite_type_set_isoctype linux DLiteType.uint 4 40 ≡ some (codes "integer(c_unsigned int)")
unfolding dlite_type_set_isoctype
isoc = refl

portable :
    dlite_type_set_cdecl linux DLiteType.float 8 (codes "x") 2 40 false
    ≡ some (codes "float64_t **x", 13)
unfolding dlite_type_set_cdecl
portable = refl

native : dlite_type_set_cdecl linux DLiteType.float 8 (codes "x") 0 5 true ≡ some (codes "doub", 8)
unfolding dlite_type_set_cdecl
native = refl

too_many_stars : dlite_type_set_cdecl linux DLiteType.int 4 (codes "x") 32 40 false ≡ none
unfolding dlite_type_set_cdecl
too_many_stars = refl

abbrev number : Element
number = record { type = bson_int32; name = codes "n"; bytes = 42 ∷ 0 ∷ 0 ∷ 0 ∷ [] }

abbrev nested : Element
nested = record { type = bson_document; name = codes "s"; bytes = document (number ∷ []) }

abbrev raw : Element
raw = record { type = bson_binary; name = codes "b"; bytes = 1 ∷ 2 ∷ 3 ∷ [] }

abbrev nines : ℕ → List ℕ
nines n = replicate n 9

-- The sub-document starts at byte 7.
abbrev nested_in_parts : Bson (List ℕ × ℕ)
nested_in_parts = do
  begun ← bson_begin_subdoc (document [] ++ nines 20) 20 (codes "s")
  filled ← bson_append (drop 7 (begun.0)) 13 bson_int32 (codes "n") none (42 ∷ 0 ∷ 0 ∷ 0 ∷ [])
  bson_end_subdoc (take 7 (begun.0) ++ filled.0) 6 bson_document

nested_same : nested_in_parts ≡ value (document (nested ∷ []) ++ nines 5, 1)
unfolding bson_begin_subdoc bson_append bson_end_subdoc document body encode payload type_code
    bson_datasize
nested_same = refl

abbrev raw_in_parts : Bson (List ℕ × ℕ)
raw_in_parts = do
  begun ← bson_begin_binary (document [] ++ nines 20) 20 (codes "b")
  one ← bson_append_binary (drop 7 (begun.0)) 13 1 (1 ∷ [])
  two ← bson_append_binary (one.0) 12 2 (2 ∷ 3 ∷ [])
  bson_end_binary (take 7 (begun.0) ++ two.0) 10

raw_same : raw_in_parts ≡ value (document (raw ∷ []) ++ nines 9, 1)
unfolding bson_begin_binary bson_append_binary bson_end_binary document body encode payload
    type_code bson_datasize
raw_same = refl
