-- ===== src/Bson/Scan.antt =====
-- What `bson_parse`, `bson_scan` and `bson_nelements` find in a document.
use mathlib.Core.List.{append_assoc}
use dlite.Base.{
  ℕ, ◌+◌, ◌<◌, ◌≡◌, refl, ◌∙◌, ap, true, some, List, [], ◌∷◌, ◌++◌, arith, length, drop,
  length-append, drop-drop,
}
use dlite.Bson.Memory.{Bson, value, le32, byte_at, le32toh}
use dlite.Bson.Types.{
  BsonType, bson_double, bson_string, bson_document, bson_array, bson_binary, bson_bool, bson_null,
  bson_int32, bson_uint64, bson_int64, bson_datasize, is_expected,
}
use dlite.Bson.Write.{payload, truth}
use dlite.Bson.Read.{skipped, parse_data}
use dlite.Bson.Layout.{le32toh-le32}
use dlite.Bson.Append.{length-truth}

-- The bytes of a sub-document start with their number.
abbrev pub Embedded : BsonType → List ℕ → Type 0
Embedded bson_document bytes = (rest : List ℕ) × (bytes ≡ le32 (length bytes) ++ rest)
Embedded bson_array bytes = (rest : List ℕ) × (bytes ≡ le32 (length bytes) ++ rest)
Embedded bson_double bytes = Unit {0}
Embedded bson_string bytes = Unit {0}
Embedded bson_binary bytes = Unit {0}
Embedded bson_bool bytes = Unit {0}
Embedded bson_null bytes = Unit {0}
Embedded bson_int32 bytes = Unit {0}
Embedded bson_uint64 bytes = Unit {0}
Embedded bson_int64 bytes = Unit {0}

-- Where the data is in the payload.
abbrev pub head_size : BsonType → ℕ
head_size bson_string = 4
head_size bson_binary = 5
head_size bson_double = 0
head_size bson_document = 0
head_size bson_array = 0
head_size bson_bool = 0
head_size bson_null = 0
head_size bson_int32 = 0
head_size bson_uint64 = 0
head_size bson_int64 = 0

-- The data as it is stored: a Boolean is 0 or 1.
unfoldable pub stored : BsonType → List ℕ → List ℕ
unfolding truth
stored bson_bool bytes = truth bytes
stored bson_string bytes = bytes
stored bson_binary bytes = bytes
stored bson_double bytes = bytes
stored bson_document bytes = bytes
stored bson_array bytes = bytes
stored bson_null bytes = bytes
stored bson_int32 bytes = bytes
stored bson_uint64 bytes = bytes
stored bson_int64 bytes = bytes

embedded_size :
    (bytes rest : List ℕ)
    → length bytes < 4294967296
    → (r : List ℕ) × (bytes ≡ le32 (length bytes) ++ r)
    → le32toh (bytes ++ rest) ≡ value (length bytes)
embedded_size bytes rest h (r, e) =
    ap (λ b. le32toh (b ++ rest)) e
    ∙ ap le32toh (append_assoc (le32 (length bytes)) r rest)
    ∙ le32toh-le32 (length bytes) (r ++ rest) h

pub skipped-payload :
    (type : BsonType) (bytes rest : List ℕ)
    → is_expected (bson_datasize type) (length bytes) ≡ true
    → Embedded type bytes
    → length bytes < 2147483648
    → skipped (some type) (payload type bytes ++ rest) ≡ value (length (payload type bytes))
unfolding skipped payload bson_datasize
skipped-payload bson_double bytes rest h k small = ap value (ground arith)
skipped-payload bson_string bytes rest h k small =
    ap value (omega (arith, length-append bytes (0 ∷ [])))
skipped-payload bson_document bytes rest h k small = embedded_size bytes rest (omega arith) k
skipped-payload bson_array bytes rest h k small = embedded_size bytes rest (omega arith) k
skipped-payload bson_binary bytes rest h k small = ap value (omega arith)
skipped-payload bson_bool bytes rest h k small = ap value (ground (arith, length-truth bytes))
skipped-payload bson_null bytes rest h k small = refl
skipped-payload bson_int32 bytes rest h k small = ap value (ground arith)
skipped-payload bson_uint64 bytes rest h k small = ap value (ground arith)
skipped-payload bson_int64 bytes rest h k small = ap value (ground arith)

spot :
    (a b c x y z : ℕ)
    → a ≡ x
    → b ≡ y
    → c ≡ z
    → ◌≡◌ {A = Bson (ℕ × (ℕ × ℕ))} (value (a, (b, c))) (value (x, (y, z)))
spot a b c x y z e f g = cc

string_size :
    (bytes rest : List ℕ)
    → length bytes < 2147483648
    → le32toh (payload bson_string bytes ++ rest) ≡ value (length bytes + 1)
unfolding payload le32toh
string_size bytes rest small = ap value (omega arith)

length-string : (bytes : List ℕ) → length (payload bson_string bytes) ≡ length bytes + 5
unfolding payload
length-string bytes = omega (arith, length-append bytes (0 ∷ []))

binary_size :
    (bytes rest : List ℕ)
    → length bytes < 2147483648
    → (le32toh (payload bson_binary bytes ++ rest) ≡ value (length bytes))
      × (byte_at (drop 4 (payload bson_binary bytes ++ rest)) ≡ value 0)
unfolding payload le32toh byte_at
binary_size bytes rest small = (ap value (omega arith), refl)

length-binary : (bytes : List ℕ) → length (payload bson_binary bytes) ≡ length bytes + 5
unfolding payload
length-binary bytes = omega arith

-- The data at `p`, in memory that has the payload there.
pub parse_data-payload :
    (type : BsonType) (bytes rest doc : List ℕ) (p : ℕ)
    → is_expected (bson_datasize type) (length bytes) ≡ true
    → Embedded type bytes
    → length bytes < 2147483648
    → drop p doc ≡ payload type bytes ++ rest
    → parse_data type doc p
      ≡ value (p + head_size type, (length bytes, p + length (payload type bytes)))
unfolding parse_data bson_datasize
parse_data-payload bson_double bytes rest doc p h k small here =
    unfold payload in spot _ _ _ _ _ _ (omega arith) (ground arith) (ground arith)
parse_data-payload bson_string bytes rest doc p h k small here =
    rw (ap le32toh here ∙ string_size bytes rest small)
      (spot _ _ _ _ _ _ refl (omega arith) (omega (arith, length-string bytes)))
parse_data-payload bson_document bytes rest doc p h k small here =
    unfold payload in
    (rw (ap le32toh here ∙ embedded_size bytes rest (omega arith) k)
      (spot _ _ _ _ _ _ (omega arith) refl refl))
parse_data-payload bson_array bytes rest doc p h k small here =
    unfold payload in
    (rw (ap le32toh here ∙ embedded_size bytes rest (omega arith) k)
      (spot _ _ _ _ _ _ (omega arith) refl refl))
parse_data-payload bson_binary bytes rest doc p h k small here =
    let (size, subtype) = binary_size bytes rest small in
    rw (ap le32toh here ∙ size, ap byte_at (drop-drop p 4 doc ∙ ap (drop 4) here) ∙ subtype)
      (spot _ _ _ _ _ _ refl refl (omega (arith, length-binary bytes)))
parse_data-payload bson_bool bytes rest doc p h k small here =
    unfold payload in
    spot _ _ _ _ _ _ (omega arith) (ground arith) (ground (arith, length-truth bytes))
parse_data-payload bson_null bytes rest doc p h k small here =
    unfold payload in spot _ _ _ _ _ _ (omega arith) (ground arith) (ground arith)
parse_data-payload bson_int32 bytes rest doc p h k small here =
    unfold payload in spot _ _ _ _ _ _ (omega arith) (ground arith) (ground arith)
parse_data-payload bson_uint64 bytes rest doc p h k small here =
    unfold payload in spot _ _ _ _ _ _ (omega arith) (ground arith) (ground arith)
parse_data-payload bson_int64 bytes rest doc p h k small here =
    unfold payload in spot _ _ _ _ _ _ (omega arith) (ground arith) (ground arith)
