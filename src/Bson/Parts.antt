-- ===== src/Bson/Parts.antt =====
-- The functions of src/utils/bson.c that build a sub-document or a binary element in parts. The
-- pointer `*subdoc` is its distance from the document.
use dlite.Base.{
  ℕ, ◌+◌, ◌-◌, Option, none, some, Text, List, [], ◌∷◌, ltb, ◌==◌, if◌then◌else◌, length, drop,
}
use dlite.Bson.Memory.{
  Bson, value, error, BsonError, ◌>>=◌, write, le32, byte_at, le32toh, string_at, bytes_at,
}
use dlite.Bson.Types.{
  BsonType, bson_double, bson_string, bson_document, bson_array, bson_binary, bson_bool, bson_null,
  bson_int32, bson_uint64, bson_int64, type_code, bson_docsize,
}

-- The writes that start a sub-document or binary element: the name, a size and a NUL byte.
unfoldable pub begin_element : List ℕ → ℕ → Text → ℕ → Bson (List ℕ)
unfolding write le32
begin_element doc docsize ename size = do
  doc₁ ← write doc docsize ename
  doc₂ ← write doc₁ (docsize + length ename) (0 ∷ [])
  doc₃ ← write doc₂ (docsize + length ename + 1) (le32 size)
  write doc₃ (docsize + length ename + 5) (0 ∷ [])

-- The document, the return value and `*subdoc`, none where it is not set.
unfoldable pub bson_begin_subdoc : List ℕ → ℕ → Text → Bson (List ℕ × (ℕ × Option ℕ))
unfolding begin_element bson_docsize byte_at
bson_begin_subdoc doc bufsize ename =
    if ltb bufsize (length ename + 6) then value (doc, (length ename + 6, none)) else (do
      docsize ← bson_docsize doc
      last ← byte_at (drop (docsize - 1) doc)
      if last == 0
          then (do
            doc' ← begin_element doc docsize ename 5
            value (doc', (length ename + 6, some (docsize + length ename + 1))))
          else error BsonError.inconsistent_data_error)

-- The writes that end an element of `size` bytes behind its name, which starts at `docsize`.
unfoldable pub end_element : List ℕ → ℕ → ℕ → BsonType → Bson (List ℕ)
unfolding write le32 type_code
end_element doc docsize newsize type = do
  doc₁ ← write doc (newsize - 1) (0 ∷ [])
  doc₂ ← write doc₁ (docsize - 1) (type_code type ∷ [])
  write doc₂ 0 (le32 newsize)

unfoldable pub end_subdoc : List ℕ → ℕ → BsonType → Bson (List ℕ × ℕ)
unfolding end_element bson_docsize string_at le32toh
end_subdoc doc bufsize type = if ltb bufsize 1 then value (doc, 1) else (do
  docsize ← bson_docsize doc
  name ← string_at (drop docsize doc)
  subsize ← le32toh (drop (docsize + length name + 1) doc)
  doc' ← end_element doc docsize (docsize + length name + 1 + subsize + 1) type
  value (doc', 1))

unfoldable pub bson_end_subdoc : List ℕ → ℕ → BsonType → Bson (List ℕ × ℕ)
unfolding end_subdoc
bson_end_subdoc doc bufsize bson_document = end_subdoc doc bufsize bson_document
bson_end_subdoc doc bufsize bson_array = end_subdoc doc bufsize bson_array
bson_end_subdoc doc bufsize bson_double = error BsonError.value_error
bson_end_subdoc doc bufsize bson_string = error BsonError.value_error
bson_end_subdoc doc bufsize bson_binary = error BsonError.value_error
bson_end_subdoc doc bufsize bson_bool = error BsonError.value_error
bson_end_subdoc doc bufsize bson_null = error BsonError.value_error
bson_end_subdoc doc bufsize bson_int32 = error BsonError.value_error
bson_end_subdoc doc bufsize bson_uint64 = error BsonError.value_error
bson_end_subdoc doc bufsize bson_int64 = error BsonError.value_error

unfoldable pub bson_begin_binary : List ℕ → ℕ → Text → Bson (List ℕ × (ℕ × Option ℕ))
unfolding begin_element bson_docsize byte_at
bson_begin_binary doc bufsize ename = do
  docsize ← bson_docsize doc
  if ltb bufsize (length ename + 6) then value (doc, (length ename + 6, none)) else (do
    last ← byte_at (drop (docsize - 1) doc)
    if last == 0
        then (do
          doc' ← begin_element doc docsize ename 0
          value (doc', (length ename + 6, some (docsize + length ename + 1))))
        else error BsonError.inconsistent_data_error)

-- The memory from the partly built element on, and the return value.
unfoldable pub bson_append_binary : List ℕ → ℕ → ℕ → List ℕ → Bson (List ℕ × ℕ)
unfolding write le32 le32toh bytes_at
bson_append_binary subdoc bufsize size bytes =
    if ltb bufsize size then value (subdoc, size) else (do
      oldsize ← le32toh subdoc
      subdoc₁ ← write subdoc 0 (le32 (oldsize + size))
      stored ← bytes_at size bytes
      subdoc₂ ← write subdoc₁ (5 + oldsize) stored
      value (subdoc₂, size))

unfoldable pub bson_end_binary : List ℕ → ℕ → Bson (List ℕ × ℕ)
unfolding end_element bson_docsize string_at le32toh
bson_end_binary doc bufsize = if ltb bufsize 1 then value (doc, 1) else (do
  docsize ← bson_docsize doc
  name ← string_at (drop docsize doc)
  esize ← le32toh (drop (docsize + length name + 1) doc)
  doc' ← end_element doc docsize (docsize + length name + 6 + esize + 1) bson_binary
  value (doc', 1))
