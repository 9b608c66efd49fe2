-- ===== src/Bson/Write.antt =====
-- The functions of src/utils/bson.c that build documents, on a little-endian host. `bufsize` counts
-- the bytes behind the document that may be written; a negative one acts as zero.
use dlite.Base.{
  ℕ, ◌+◌, ◌-◌, Option, none, some, Text, List, [], ◌∷◌, ◌++◌, ltb, ◌==◌, if◌then◌else◌, length,
  drop,
}
use dlite.Bson.Memory.{
  Bson, value, error, stop, BsonError, ◌>>=◌, write, le32, byte_at, string_at, bytes_at,
}
use dlite.Bson.Types.{
  BsonType, bson_double, bson_string, bson_document, bson_array, bson_binary, bson_bool, bson_null,
  bson_int32, bson_uint64, bson_int64, type_code, bson_datasize, bson_elementsize, bson_docsize,
  int_size,
}

-- The buffer and the return value.
unfoldable pub bson_init_document : List ℕ → ℕ → Bson (List ℕ × ℕ)
unfolding write le32
bson_init_document buf bufsize =
    if ltb bufsize 5
    then value (buf, 5)
    else (do buf₁ ← write buf 0 (le32 5); buf₂ ← write buf₁ 4 (0 ∷ []); value (buf₂, 5))

-- `size`, or what stands for a negative one.
unfoldable pub append_size : Option ℕ → BsonType → List ℕ → Bson (Option ℕ)
unfolding bson_datasize string_at
append_size (some size) type bytes = value (some size)
append_size none bson_string bytes = do s ← string_at bytes; value (some (length s))
append_size none bson_double bytes = value (bson_datasize bson_double)
append_size none bson_document bytes = value (bson_datasize bson_document)
append_size none bson_array bytes = value (bson_datasize bson_array)
append_size none bson_binary bytes = value (bson_datasize bson_binary)
append_size none bson_bool bytes = value (bson_datasize bson_bool)
append_size none bson_null bytes = value (bson_datasize bson_null)
append_size none bson_int32 bytes = value (bson_datasize bson_int32)
append_size none bson_uint64 bytes = value (bson_datasize bson_uint64)
append_size none bson_int64 bytes = value (bson_datasize bson_int64)

-- What is stored of the bytes of a value: a Boolean is one byte, 0 or 1.
unfoldable pub truth : List ℕ → List ℕ
truth [] = []
truth (b ∷ bytes) = (if b == 0 then 0 else 1) ∷ bytes

-- What the `switch` of `bson_append` writes.
unfoldable pub payload : BsonType → List ℕ → List ℕ
unfolding truth le32
payload bson_string bytes = le32 (length bytes + 1) ++ (bytes ++ 0 ∷ [])
payload bson_binary bytes = le32 (length bytes) ++ 0 ∷ bytes
payload bson_bool bytes = truth bytes
payload bson_null bytes = []
payload bson_double bytes = bytes
payload bson_document bytes = bytes
payload bson_array bytes = bytes
payload bson_int32 bytes = bytes
payload bson_uint64 bytes = bytes
payload bson_int64 bytes = bytes

-- The writes of `bson_append` from the name on, with the size of the document before. The position
-- `n` is an `int`, and greatest at the end.
unfoldable pub append_element : List ℕ → ℕ → ℕ → BsonType → Text → List ℕ → Bson (List ℕ)
unfolding write payload type_code le32 int_size
append_element doc docsize esize type ename bytes = do
  end ← int_size (docsize + length ename + 1 + length (payload type bytes) + 1)
  doc₁ ← write doc docsize ename
  doc₂ ← write doc₁ (docsize + length ename) (0 ∷ [])
  doc₃ ← write doc₂ (docsize + length ename + 1) (payload type bytes)
  doc₄ ← write doc₃ (docsize + length ename + 1 + length (payload type bytes)) (0 ∷ [])
  if end == docsize + esize
      then (do doc₅ ← write doc₄ 0 (le32 end); write doc₅ (docsize - 1) (type_code type ∷ []))
      else stop

-- The document and the return value; `bytes` is the memory that `data` points to.
unfoldable pub bson_append : List ℕ → ℕ → BsonType → Text → Option ℕ → List ℕ → Bson (List ℕ × ℕ)
unfolding append_size bson_elementsize bson_docsize byte_at bytes_at append_element
bson_append doc bufsize type ename size bytes = do
  size' ← append_size size type bytes
  esize ← bson_elementsize type (some ename) size'
  if ltb bufsize esize then value (doc, esize) else (do
    docsize ← bson_docsize doc
    last ← byte_at (drop (docsize - 1) doc)
    if last == 0
        then (do
          stored ← bytes_at (elim size' as (λ _. ℕ) [ none ↦ 0 | some n ↦ n ]) bytes
          doc' ← append_element doc docsize esize type ename stored
          value (doc', esize))
        else error BsonError.inconsistent_data_error)
