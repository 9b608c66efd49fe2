-- ===== src/Types/Names.antt =====
-- The functions of src/dlite-type.c between types and their names.
use dlite.Base.{
  ℕ, zero, suc, ◌+◌, ◌-◌, ◌*◌, ◌/◌, ◌%◌, ◌^◌, Bool, true, false, ◌&&◌, ◌||◌, Option, none, some,
  Text, List, [], ◌∷◌, ◌++◌, codes, ltb, ◌==◌, if◌then◌else◌, text_eq, take, is_alpha, is_digit,
  read_digits, saturate, done, fault,
}
use dlite.MetaUri.{dlite_split_meta_uri}
use dlite.Types.Table.{DLiteType, Build, TypeDescr, type_table}

unfoldable pub dlite_type_get_dtypename : DLiteType → Text
dlite_type_get_dtypename DLiteType.blob = codes "blob"
dlite_type_get_dtypename DLiteType.bool = codes "bool"
dlite_type_get_dtypename DLiteType.int = codes "int"
dlite_type_get_dtypename DLiteType.uint = codes "uint"
dlite_type_get_dtypename DLiteType.float = codes "float"
dlite_type_get_dtypename DLiteType.fix_string = codes "fixstring"
dlite_type_get_dtypename DLiteType.string_ptr = codes "string"
dlite_type_get_dtypename DLiteType.ref = codes "ref"
dlite_type_get_dtypename DLiteType.dimension = codes "dimension"
dlite_type_get_dtypename DLiteType.property = codes "property"
dlite_type_get_dtypename DLiteType.relation = codes "relation"

unfoldable pub dlite_type_get_enum_name : DLiteType → Text
dlite_type_get_enum_name DLiteType.blob = codes "dliteBlob"
dlite_type_get_enum_name DLiteType.bool = codes "dliteBool"
dlite_type_get_enum_name DLiteType.int = codes "dliteInt"
dlite_type_get_enum_name DLiteType.uint = codes "dliteUInt"
dlite_type_get_enum_name DLiteType.float = codes "dliteFloat"
dlite_type_get_enum_name DLiteType.fix_string = codes "dliteFixString"
dlite_type_get_enum_name DLiteType.string_ptr = codes "dliteStringPtr"
dlite_type_get_enum_name DLiteType.ref = codes "dliteRef"
dlite_type_get_enum_name DLiteType.dimension = codes "dliteDimension"
dlite_type_get_enum_name DLiteType.property = codes "dliteProperty"
dlite_type_get_enum_name DLiteType.relation = codes "dliteRelation"

-- `strncmp(text, prefix, strlen(prefix)) == 0`
unfoldable pub starts_with : Text → Text → Bool
starts_with [] text = true
starts_with (x ∷ prefix) [] = false
starts_with (x ∷ prefix) (c ∷ text) = x == c && starts_with prefix text

-- `uuid_from_string` is called with the length zero, which it refuses.
unfoldable pub is_metaref : Text → Bool
unfolding starts_with dlite_split_meta_uri
is_metaref dtypename =
    (starts_with (codes "http://") dtypename
      || (starts_with (codes "https://") dtypename || starts_with (codes "ftp://") dtypename))
    && elim (dlite_split_meta_uri dtypename) [
      | done (some parts) ↦ true
      | done none ↦ false
      | fault ↦ false
    ]

abbrev all_dtypes : List DLiteType
all_dtypes =
    DLiteType.blob ∷ DLiteType.bool ∷ DLiteType.int ∷ DLiteType.uint ∷ DLiteType.float
    ∷ DLiteType.fix_string ∷ DLiteType.string_ptr ∷ DLiteType.ref ∷ DLiteType.dimension
    ∷ DLiteType.property ∷ DLiteType.relation ∷ []

-- The loop of `dlite_type_get_dtype`.
unfoldable pub dtype_loop : List DLiteType → Text → Option DLiteType
unfolding dlite_type_get_dtypename text_eq
dtype_loop [] dtypename = none
dtype_loop (t ∷ dtypes) dtypename = elim (text_eq dtypename (dlite_type_get_dtypename t)) [
  | true ↦ some t
  | false ↦ dtype_loop dtypes dtypename
]

unfoldable pub dlite_type_get_dtype : Text → Option DLiteType
unfolding dtype_loop is_metaref
dlite_type_get_dtype dtypename = elim (dtype_loop all_dtypes dtypename) [
  | some t ↦ some t
  | none ↦ if is_metaref dtypename then some DLiteType.ref else none
]

-- The conversion `%lu` of the C library, whose digits are written from the last one on.
unfoldable pub decimal_loop : ℕ → ℕ → Text → Text
decimal_loop zero n out = out
decimal_loop (suc fuel) n out = elim (ltb n 10) [
  | true ↦ (b'0' + n % 10) ∷ out
  | false ↦ decimal_loop fuel (n / 10) ((b'0' + n % 10) ∷ out)
]

unfoldable pub decimal : ℕ → Text
unfolding decimal_loop
decimal n = decimal_loop (suc n) n []

-- The name that is formatted, or none on an error. A `size_t` has 64 bits.
unfoldable pub formatted_typename : DLiteType → ℕ → Option Text
unfolding decimal
formatted_typename DLiteType.blob size = some (codes "blob" ++ decimal size)
formatted_typename DLiteType.bool size = if size == 1 then some (codes "bool") else none
formatted_typename DLiteType.int size = some (codes "int" ++ decimal (size * 8 % 2 ^ 64))
formatted_typename DLiteType.uint size = some (codes "uint" ++ decimal (size * 8 % 2 ^ 64))
formatted_typename DLiteType.float size = some (codes "float" ++ decimal (size * 8 % 2 ^ 64))
formatted_typename DLiteType.fix_string size =
    some (codes "string" ++ decimal ((size + (2 ^ 64 - 1)) % 2 ^ 64))
formatted_typename DLiteType.string_ptr size = if size == 8 then some (codes "string") else none
formatted_typename DLiteType.ref size = if size == 8 then some (codes "ref") else none
formatted_typename DLiteType.dimension size = some (codes "dimension")
formatted_typename DLiteType.property size = some (codes "property")
formatted_typename DLiteType.relation size = some (codes "relation")

-- What a buffer of `n` bytes, `n` not zero, holds after the call.
unfoldable pub dlite_type_set_typename : DLiteType → ℕ → ℕ → Option Text
unfolding formatted_typename
dlite_type_set_typename dtype size n = elim (formatted_typename dtype size) [
  | none ↦ none
  | some typename ↦ some (take (n - 1) typename)
]

-- The first characters that pass a test, and the rest.
abbrev pub span : (ℕ → Bool) → Text → Text × Text
span p [] = ([], [])
span p (c ∷ cs) = elim (p c) [ true ↦ let r = span p cs in (c ∷ r.0, r.1) | false ↦ ([], c ∷ cs) ]

-- The loop over the table: `strncmp` with the length of `word` asks whether `word` starts the name.
unfoldable pub table_loop : List TypeDescr → Text → Option (DLiteType × ℕ)
unfolding starts_with
table_loop [] word = none
table_loop (t ∷ table) word = elim (starts_with word t.typename) [
  | true ↦ some (t.dtype, t.size)
  | false ↦ table_loop table word
]

-- A type that is not in the table, with its size.
unfoldable pub sized_type : Text → Text → Option (DLiteType × ℕ)
unfolding text_eq
sized_type letters [] = none
sized_type letters (d ∷ ds) =
    if text_eq letters (codes "blob")
    then some (DLiteType.blob, saturate ((read_digits 10 0 (d ∷ ds)).0))
    else if text_eq letters (codes "string") || text_eq letters (codes "str")
    then some (DLiteType.fix_string, saturate ((read_digits 10 0 (d ∷ ds)).0) + 1)
    else none

abbrev pub starts_word : Text → Bool
starts_word [] = false
starts_word (c ∷ cs) = is_alpha c || c == b'_'

-- What is done with the letters and the digits that start the name.
unfoldable pub lookup_type : Build → Text → Text → Option (DLiteType × ℕ)
unfolding table_loop type_table sized_type
lookup_type build [] digits = none
lookup_type build (c ∷ cs) digits = elim (table_loop (type_table build) ((c ∷ cs) ++ digits)) [
  | some r ↦ some r
  | none ↦ sized_type (c ∷ cs) digits
]

-- With the digits that follow the letters, and what follows them.
unfoldable pub lookup_parts : Build → Text → Text × Text → Option (DLiteType × ℕ)
unfolding lookup_type
lookup_parts build letters digits = elim (starts_word (digits.1)) [
  | true ↦ none
  | false ↦ lookup_type build letters (digits.0)
]

unfoldable pub dlite_type_set_dtype_and_size : Build → Text → Option (DLiteType × ℕ)
unfolding is_metaref lookup_parts
dlite_type_set_dtype_and_size build typename = elim (is_metaref typename) [
  | true ↦ some (DLiteType.ref, 8)
  | false ↦
      let parts = span is_alpha typename in lookup_parts build (parts.0) (span is_digit (parts.1))
]

unfoldable pub dlite_is_type : Build → Text → Bool
unfolding dlite_type_set_dtype_and_size
dlite_is_type build name = elim (dlite_type_set_dtype_and_size build name) [
  | none ↦ false
  | some r ↦ true
]

unfoldable pub dlite_type_is_allocated : DLiteType → Bool
dlite_type_is_allocated DLiteType.blob = false
dlite_type_is_allocated DLiteType.bool = false
dlite_type_is_allocated DLiteType.int = false
dlite_type_is_allocated DLiteType.uint = false
dlite_type_is_allocated DLiteType.float = false
dlite_type_is_allocated DLiteType.fix_string = false
dlite_type_is_allocated DLiteType.ref = true
dlite_type_is_allocated DLiteType.string_ptr = true
dlite_type_is_allocated DLiteType.dimension = true
dlite_type_is_allocated DLiteType.property = true
dlite_type_is_allocated DLiteType.relation = true
