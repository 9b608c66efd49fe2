-- ===== src/Bson/Types.antt =====
-- The types of src/utils/bson.h and the sizes of elements, for a build without 128-bit floats.
use dlite.Base.{
  ℕ, ◌+◌, Bool, true, Option, none, some, Text, List, codes, ltb, ◌==◌, if◌then◌else◌, length,
}
use dlite.Bson.Memory.{stop, Bson, value, error, BsonError, ◌>>=◌, le32toh}

pub data BsonType : Type 0 where
  bson_double : BsonType
  bson_string : BsonType
  bson_document : BsonType
  bson_array : BsonType
  bson_binary : BsonType
  bson_bool : BsonType
  bson_null : BsonType
  bson_int32 : BsonType
  bson_uint64 : BsonType
  bson_int64 : BsonType

unfoldable pub type_code : BsonType → ℕ
type_code bson_double = 1
type_code bson_string = 2
type_code bson_document = 3
type_code bson_array = 4
type_code bson_binary = 5
type_code bson_bool = 8
type_code bson_null = 10
type_code bson_int32 = 16
type_code bson_uint64 = 17
type_code bson_int64 = 18

-- The type of a code, none where a `switch` has no case for it.
unfoldable pub type_of_code : ℕ → Option BsonType
type_of_code c =
    if c == 1
    then some bson_double
    else if c == 2
    then some bson_string
    else if c == 3
    then some bson_document
    else if c == 4
    then some bson_array
    else if c == 5
    then some bson_binary
    else if c == 8
    then some bson_bool
    else if c == 10
    then some bson_null
    else if c == 16
    then some bson_int32
    else if c == 17
    then some bson_uint64
    else if c == 18
    then some bson_int64
    else none

unfoldable pub bson_typename : BsonType → Text
bson_typename bson_double = codes "double"
bson_typename bson_string = codes "string"
bson_typename bson_document = codes "document"
bson_typename bson_array = codes "array"
bson_typename bson_binary = codes "binary"
bson_typename bson_bool = codes "bool"
bson_typename bson_null = codes "null"
bson_typename bson_int32 = codes "int32"
bson_typename bson_uint64 = codes "uint64"
bson_typename bson_int64 = codes "int64"

-- none for -1.
unfoldable pub bson_datasize : BsonType → Option ℕ
bson_datasize bson_double = some 8
bson_datasize bson_string = none
bson_datasize bson_document = none
bson_datasize bson_array = none
bson_datasize bson_binary = none
bson_datasize bson_bool = some 1
bson_datasize bson_null = some 0
bson_datasize bson_int32 = some 4
bson_datasize bson_uint64 = some 8
bson_datasize bson_int64 = some 8

-- The size of the name, `ename` being none for NULL.
abbrev pub name_size : Option Text → ℕ
name_size none = 4
name_size (some ename) = length ename + 1

-- The last `switch` of `bson_elementsize`.
unfoldable pub sized : BsonType → ℕ → ℕ → ℕ
sized bson_string esize size = 1 + esize + 4 + size + 1
sized bson_binary esize size = 1 + esize + 4 + size + 1
sized bson_double esize size = 1 + esize + size
sized bson_document esize size = 1 + esize + size
sized bson_array esize size = 1 + esize + size
sized bson_bool esize size = 1 + esize + size
sized bson_null esize size = 1 + esize + size
sized bson_int32 esize size = 1 + esize + size
sized bson_uint64 esize size = 1 + esize + size
sized bson_int64 esize size = 1 + esize + size

abbrev pub size_or : Option ℕ → Option ℕ → Option ℕ
size_or none expected = expected
size_or (some size) expected = some size

abbrev pub is_expected : Option ℕ → ℕ → Bool
is_expected none size = true
is_expected (some expected) size = size == expected

-- The result of a sum of `int`; what C leaves undefined stops.
unfoldable pub int_size : ℕ → Bson ℕ
int_size n = if ltb n 2147483648 then value n else stop

-- `size` is none where it is negative.
unfoldable pub bson_elementsize : BsonType → Option Text → Option ℕ → Bson ℕ
unfolding bson_datasize sized int_size
bson_elementsize type ename size = elim (size_or size (bson_datasize type)) [
  | none ↦ error BsonError.value_error
  | some n ↦
      if is_expected (bson_datasize type) n
      then int_size (sized type (name_size ename) n)
      else error BsonError.value_error
]

-- The size of the document that starts here; from 2 ^ 31 on an `int` is negative.
unfoldable pub bson_docsize : List ℕ → Bson ℕ
unfolding le32toh
bson_docsize doc = do
  docsize ← le32toh doc
  if ltb docsize 5
      then error BsonError.inconsistent_data_error
      else if ltb docsize 2147483648
      then value docsize
      else error BsonError.inconsistent_data_error
