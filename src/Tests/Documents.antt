-- ===== src/Tests/Documents.antt =====
-- Runs on BSON documents, and the theorems on them.
use dlite.Base.{
  ℕ, ◌≤◌, ◌<◌, ◌≡◌, refl, List, [], ◌∷◌, ◌++◌, none, some, codes, arith, length, drop, ℤ,
}
use dlite.Bson.Memory.{value, error, BsonError, le32}
use dlite.Bson.Types.{type_code, bson_datasize, bson_int32, bson_string, bson_bool}
use dlite.Bson.Write.{payload, bson_init_document, bson_append}
use dlite.Bson.Read.{bson_scan, bson_nelements, bson_scan_int32, bson_scan_string, bson_scan_bool}
use dlite.Bson.Layout.{Element, encode, body, document}
use dlite.Bson.Append.{bson_append_lem}
use dlite.Bson.Place.{AllReadable}
use dlite.Bson.Find.{Reads, first_named, bson_scan_lem}
use dlite.Bson.Counting.{bson_nelements_lem}

abbrev answer : Element
answer = record { type = bson_int32; name = codes "n"; bytes = 42 ∷ 0 ∷ 0 ∷ 0 ∷ [] }

abbrev greeting : Element
greeting = record { type = bson_string; name = codes "hi"; bytes = codes "yo" }

abbrev flag : Element
flag = record { type = bson_bool; name = codes "ok"; bytes = 7 ∷ [] }

abbrev three : List Element
three = answer ∷ greeting ∷ flag ∷ []

abbrev free : List ℕ
free = 9 ∷ 9 ∷ 9 ∷ 9 ∷ 9 ∷ 9 ∷ 9 ∷ 9 ∷ []

three-AllReadable : AllReadable three
unfolding bson_datasize
three-AllReadable = (
  (((omega arith, tt), refl), tt),
  (
    (((omega arith, (omega arith, tt)), refl), tt),
    ((((omega arith, (omega arith, tt)), refl), tt), tt),
  ),
)

initialised : bson_init_document free 8 ≡ value (document [] ++ 9 ∷ 9 ∷ 9 ∷ [], 5)
unfolding bson_init_document document body encode payload le32 type_code bson_datasize
initialised = refl

appended :
    bson_append (document [] ++ free) 8 bson_int32 (codes "n") none (42 ∷ 0 ∷ 0 ∷ 0 ∷ 7 ∷ [])
    ≡ value (document (answer ∷ []) ++ 9 ∷ [], 7)
unfolding bson_append document body encode payload le32 type_code bson_datasize
appended = refl

read_number : bson_scan_int32 (document three) (codes "n") ≡ value (ℤ.pos 42)
unfolding bson_scan_int32 document body encode payload le32 type_code bson_datasize
read_number = refl

read_text : bson_scan_string (document three) (codes "hi") ≡ value (codes "yo")
unfolding bson_scan_string document body encode payload le32 type_code bson_datasize
read_text = refl

read_flag : bson_scan_bool (document three) (codes "ok") ≡ error BsonError.type_error
unfolding bson_scan_bool document body encode payload le32 type_code bson_datasize
read_flag = refl

bson_append_lem_example :
    (8 < length (encode greeting)
      → bson_append
          (document (answer ∷ []) ++ free)
          8
          bson_string
          (codes "hi")
          (some 2)
          (codes "yo" ++ [])
        ≡ value (document (answer ∷ []) ++ free, length (encode greeting)))
    × (length (encode greeting) ≤ 8
        → bson_append
            (document (answer ∷ []) ++ free)
            8
            bson_string
            (codes "hi")
            (some 2)
            (codes "yo" ++ [])
          ≡ value (
            document (answer ∷ greeting ∷ []) ++ drop (length (encode greeting)) free,
            length (encode greeting),
          ))
unfolding document body encode payload le32 type_code bson_datasize
bson_append_lem_example =
    bson_append_lem (answer ∷ []) greeting free [] 8 ((omega arith, (omega arith, tt)), refl)
      (omega arith) (omega arith)

bson_scan_lem_example :
    Reads
      (document three ++ free)
      (first_named (codes "hi") three)
      (bson_scan (document three ++ free) (codes "hi"))
unfolding document body encode payload le32 type_code bson_datasize
bson_scan_lem_example = bson_scan_lem three free (codes "hi") three-AllReadable (omega arith)

bson_nelements_lem_example : bson_nelements (document three ++ free) ≡ value 3
unfolding document body encode payload le32 type_code bson_datasize
bson_nelements_lem_example = bson_nelements_lem three free three-AllReadable (omega arith)
