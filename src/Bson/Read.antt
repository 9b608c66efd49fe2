-- ===== src/Bson/Read.antt =====
-- The functions of src/utils/bson.c that read documents. A stored size from 2 ^ 31 on, which is
-- negative in the source, is read without its sign.
use dlite.Base.{
  ℕ, zero, suc, ◌+◌, ◌-◌, ◌*◌, ℤ, not, Bool, true, false, Option, none, some, Text, List, ltb, ◌==◌,
  if◌then◌else◌, text_eq, length, drop,
}
use dlite.Bson.Memory.{Bson, value, error, stop, BsonError, ◌>>=◌, byte_at, le32toh, string_at}
use dlite.Bson.Types.{
  BsonType, bson_double, bson_string, bson_document, bson_array, bson_binary, bson_bool, bson_null,
  bson_int32, bson_uint64, bson_int64, type_code, type_of_code, bson_docsize,
}

-- What `bson_nelements` adds for an element of a type, whose data starts here; no case applies to
-- an unknown type.
unfoldable pub skipped : Option BsonType → List ℕ → Bson ℕ
unfolding le32toh
skipped none mem = value 0
skipped (some bson_double) mem = value 8
skipped (some bson_bool) mem = value 1
skipped (some bson_null) mem = value 0
skipped (some bson_int32) mem = value 4
skipped (some bson_uint64) mem = value 8
skipped (some bson_int64) mem = value 8
skipped (some bson_document) mem = le32toh mem
skipped (some bson_array) mem = le32toh mem
skipped (some bson_string) mem = do n ← le32toh mem; value (n + 4)
skipped (some bson_binary) mem = do n ← le32toh mem; value (n + 5)

-- The loop of `bson_nelements` on fuel, at `n`; each round takes two bytes at least.
unfoldable pub nelements_loop : ℕ → List ℕ → ℕ → ℕ → ℕ → Bson ℕ
unfolding byte_at string_at type_of_code skipped
nelements_loop zero doc docsize n nelements = stop
nelements_loop (suc fuel) doc docsize n nelements = elim (byte_at (drop n doc)) [
  | stop ↦ stop
  | error e ↦ error e
  | value type ↦ elim (type == 0) [
    | true ↦ value nelements
    | false ↦ elim (string_at (drop (n + 1) doc)) [
      | stop ↦ stop
      | error e ↦ error e
      | value name ↦ elim (skipped (type_of_code type) (drop (n + 1 + (length name + 1)) doc)) [
        | stop ↦ stop
        | error e ↦ error e
        | value k ↦ elim (ltb docsize (n + 1 + (length name + 1) + k)) [
          | true ↦ error BsonError.inconsistent_data_error
          | false ↦ nelements_loop fuel doc docsize (n + 1 + (length name + 1) + k) (nelements + 1)
        ]
      ]
    ]
  ]
]

-- The source goes on with a negative size where `bson_docsize` reports an error, which the first
-- element exceeds; where there is none, the count is zero.
unfoldable pub bson_nelements : List ℕ → Bson ℕ
unfolding nelements_loop bson_docsize
bson_nelements doc = elim (bson_docsize doc) [
  | stop ↦ stop
  | error e ↦ nelements_loop (length doc) doc 0 4 0
  | value docsize ↦ nelements_loop (length doc) doc docsize 4 0
]

-- An element as `bson_parse` finds it: where its data starts, and the place behind it.
pub record Parsed : Type 0 where
  pub type : BsonType
  pub ename : Text
  pub data_at : ℕ
  pub datasize : ℕ
  pub endptr : ℕ

-- The data of an element, which starts at `p`: its place, its size and its end.
unfoldable pub parse_data : BsonType → List ℕ → ℕ → Bson (ℕ × (ℕ × ℕ))
unfolding le32toh byte_at
parse_data bson_double doc p = value (p, (8, p + 8))
parse_data bson_bool doc p = value (p, (1, p + 1))
parse_data bson_null doc p = value (p, (0, p))
parse_data bson_int32 doc p = value (p, (4, p + 4))
parse_data bson_uint64 doc p = value (p, (8, p + 8))
parse_data bson_int64 doc p = value (p, (8, p + 8))
parse_data bson_string doc p = do n ← le32toh (drop p doc); value (p + 4, (n - 1, p + 4 + n))
parse_data bson_document doc p = do n ← le32toh (drop p doc); value (p, (n, p + n))
parse_data bson_array doc p = do n ← le32toh (drop p doc); value (p, (n, p + n))
parse_data bson_binary doc p = do
  n ← le32toh (drop p doc)
  subtype ← byte_at (drop (p + 4) doc)
  if subtype == 0 then value (p + 5, (n, p + 5 + n)) else error BsonError.parse_error

-- none where there are no more elements. For an unknown type the source returns pointers that it
-- has not set.
unfoldable pub bson_parse : List ℕ → Option ℕ → Bson (Option Parsed)
unfolding byte_at string_at type_of_code parse_data
bson_parse doc endptr = do
  let p = elim endptr as (λ _. ℕ) [ none ↦ 4 | some q ↦ q ]
  type ← byte_at (drop p doc)
  if type == 0 then value none else (do
    name ← string_at (drop (p + 1) doc)
    elim (type_of_code type) [
      | none ↦ stop
      | some t ↦ (do
        r ← parse_data t doc (p + 1 + (length name + 1))
        value (
            some
              (record { type = t; ename = name; data_at = r.0; datasize = r.1.0; endptr = r.1.1 })))
    ])

-- The loop of `bson_scann` on fuel.
unfoldable pub scan_loop : ℕ → List ℕ → Text → Option ℕ → Bson (Option Parsed)
unfolding bson_parse text_eq
scan_loop zero doc ename endptr = stop
scan_loop (suc fuel) doc ename endptr = elim (bson_parse doc endptr) [
  | stop ↦ stop
  | error e ↦ error e
  | value none ↦ value none
  | value (some found) ↦ elim (text_eq ename found.ename) [
    | true ↦ value (some found)
    | false ↦ scan_loop fuel doc ename (some found.endptr)
  ]
]

-- Each round takes two bytes at least, so as many rounds as bytes are enough.
unfoldable pub bson_scan : List ℕ → Text → Bson (Option Parsed)
unfolding scan_loop
bson_scan doc ename = scan_loop (length doc) doc ename none

-- What the typed functions below share: the element of that name, an error code if there is none or
-- its type is not the one asked for.
unfoldable pub scan_typed : BsonType → List ℕ → Text → Bson Parsed
unfolding bson_scan type_code
scan_typed expected doc ename = do
  found ← bson_scan doc ename
  elim found [
    | none ↦ error BsonError.key_error
    | some p ↦
        if type_code p.type == type_code expected then value p else error BsonError.type_error
  ]

-- A 32-bit pattern as an `int32_t`.
abbrev pub as_int32 : ℕ → ℤ
as_int32 v = if ltb v 2147483648 then ℤ.pos v else ℤ.negsuc (4294967295 - v)

unfoldable pub bson_scan_int32 : List ℕ → Text → Bson ℤ
unfolding scan_typed le32toh
bson_scan_int32 doc ename = do
  p ← scan_typed bson_int32 doc ename
  v ← le32toh (drop p.data_at doc)
  value (as_int32 v)

-- `le64toh` of the eight bytes here.
unfoldable pub le64toh : List ℕ → Bson ℕ
unfolding le32toh
le64toh mem = do low ← le32toh mem; high ← le32toh (drop 4 mem); value (low + high * 4294967296)

unfoldable pub bson_scan_uint64 : List ℕ → Text → Bson ℕ
unfolding scan_typed le64toh
bson_scan_uint64 doc ename = do p ← scan_typed bson_uint64 doc ename; le64toh (drop p.data_at doc)

unfoldable pub bson_scan_string : List ℕ → Text → Bson Text
unfolding scan_typed string_at
bson_scan_string doc ename = do p ← scan_typed bson_string doc ename; string_at (drop p.data_at doc)

-- The source compares with `bsonString`.
unfoldable pub bson_scan_bool : List ℕ → Text → Bson Bool
unfolding scan_typed byte_at
bson_scan_bool doc ename = do
  p ← scan_typed bson_string doc ename
  b ← byte_at (drop p.data_at doc)
  value (not (b == 0))
