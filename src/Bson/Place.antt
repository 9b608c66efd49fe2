-- ===== src/Bson/Place.antt =====
-- What `bson_parse` reads at an element of a document.
use mathlib.Core.List.{append_assoc}
use dlite.Base.{
  ℕ, ◌+◌, ◌≤◌, ◌<◌, ◌≡◌, refl, sym, ◌∙◌, ap, true, false, some, List, [], ◌∷◌, ◌++◌, arith, ◌==◌,
  length, drop, length-append, drop-drop,
}
use dlite.Bson.Memory.{value, le32, byte_at, string_at, bytes_at}
use dlite.Bson.Types.{
  BsonType, bson_double, bson_string, bson_document, bson_array, bson_binary, bson_bool, bson_null,
  bson_int32, bson_uint64, bson_int64, type_code, type_of_code, bson_datasize, is_expected,
}
use dlite.Bson.Write.{payload, truth}
use dlite.Bson.Read.{Parsed, bson_parse}
use dlite.Bson.Layout.{Element, encode, body, document, drop-append, string_at-append}
use dlite.Bson.Append.{IsElement, document-framed, length-truth, bytes_at-append}
use dlite.Bson.Scan.{Embedded, head_size, stored, parse_data-payload}

stored_here :
    (type : BsonType) (bytes rest : List ℕ)
    → is_expected (bson_datasize type) (length bytes) ≡ true
    → bytes_at (length bytes) (drop (head_size type) (payload type bytes ++ rest))
      ≡ value (stored type bytes)
unfolding payload stored
stored_here bson_double bytes rest h = bytes_at-append bytes rest
stored_here bson_string bytes rest h =
    ap (bytes_at (length bytes)) (append_assoc bytes (0 ∷ []) rest)
    ∙ bytes_at-append bytes (0 ∷ rest)
stored_here bson_document bytes rest h = bytes_at-append bytes rest
stored_here bson_array bytes rest h = bytes_at-append bytes rest
stored_here bson_binary bytes rest h = bytes_at-append bytes rest
stored_here bson_bool bytes rest h =
    ap (λ n. bytes_at n (truth bytes ++ rest)) (sym (length-truth bytes))
    ∙ bytes_at-append (truth bytes) rest
stored_here bson_null [] rest h = bytes_at-append [] rest
stored_here bson_null (b ∷ bytes) rest h = absurd (unfold bson_datasize in ground arith)
stored_here bson_int32 bytes rest h = bytes_at-append bytes rest
stored_here bson_uint64 bytes rest h = bytes_at-append bytes rest
stored_here bson_int64 bytes rest h = bytes_at-append bytes rest

pub type_of_code-type_code : (t : BsonType) → type_of_code (type_code t) ≡ some t
unfolding type_of_code type_code
type_of_code-type_code bson_double = refl
type_of_code-type_code bson_string = refl
type_of_code-type_code bson_document = refl
type_of_code-type_code bson_array = refl
type_of_code-type_code bson_binary = refl
type_of_code-type_code bson_bool = refl
type_of_code-type_code bson_null = refl
type_of_code-type_code bson_int32 = refl
type_of_code-type_code bson_uint64 = refl
type_of_code-type_code bson_int64 = refl

pub type_code-nonzero : (t : BsonType) → (type_code t == 0) ≡ false
unfolding type_code
type_code-nonzero bson_double = refl
type_code-nonzero bson_string = refl
type_code-nonzero bson_document = refl
type_code-nonzero bson_array = refl
type_code-nonzero bson_binary = refl
type_code-nonzero bson_bool = refl
type_code-nonzero bson_null = refl
type_code-nonzero bson_int32 = refl
type_code-nonzero bson_uint64 = refl
type_code-nonzero bson_int64 = refl

-- An element that can be written and read again.
abbrev pub IsReadable : Element → Type 0
IsReadable e = IsElement e × Embedded e.type e.bytes

-- The three places of an element at `p`.
module _ (doc rest : List ℕ) (p : ℕ) (e : Element) (here : drop p doc ≡ encode e ++ rest)
    (h : IsReadable e) where
  pub code_here : byte_at (drop p doc) ≡ value (type_code e.type)
  unfolding byte_at encode
  code_here = ap byte_at here

  pub name_here : string_at (drop (p + 1) doc) ≡ value e.name
  unfolding encode
  name_here =
      ap string_at (
        drop-drop p 1 doc
        ∙ ap (drop 1) here
        ∙ append_assoc e.name (0 ∷ payload e.type e.bytes) rest)
      ∙ string_at-append e.name (payload e.type e.bytes ++ rest) h.0.0

  pub payload_here : drop (p + 1 + (length e.name + 1)) doc ≡ payload e.type e.bytes ++ rest
  unfolding encode
  payload_here =
      drop-drop (p + 1) (length e.name + 1) doc
      ∙ ap (drop (length e.name + 1)) (
          drop-drop p 1 doc
          ∙ ap (drop 1) here
          ∙ append_assoc e.name (0 ∷ payload e.type e.bytes) rest)
      ∙ drop-drop (length e.name) 1 _
      ∙ ap (drop 1) (drop-append e.name _)

  pub length-encode : length (encode e) ≡ 1 + (length e.name + 1) + length (payload e.type e.bytes)
  unfolding encode
  length-encode = omega (arith, length-append e.name (0 ∷ payload e.type e.bytes))

  pub behind_here : drop (p + length (encode e)) doc ≡ rest
  behind_here =
      drop-drop p (length (encode e)) doc
      ∙ ap (drop (length (encode e))) here
      ∙ drop-append (encode e) rest

  -- What `bson_parse` returns at the element.
  abbrev pub parsed : Parsed
  parsed = record {
    type = e.type;
    ename = e.name;
    data_at = p + 1 + (length e.name + 1) + head_size e.type;
    datasize = length e.bytes;
    endptr = p + 1 + (length e.name + 1) + length (payload e.type e.bytes);
  }

  pub parse_here : length e.bytes < 2147483648 → bson_parse doc (some p) ≡ value (some parsed)
  unfolding bson_parse
  parse_here small = rw (
    code_here,
    type_code-nonzero e.type,
    name_here,
    type_of_code-type_code e.type,
    parse_data-payload e.type e.bytes rest doc (p + 1 + (length e.name + 1)) h.0.1 h.1 small
        payload_here,
  )

  pub data_here : bytes_at parsed.datasize (drop parsed.data_at doc) ≡ value (stored e.type e.bytes)
  data_here =
      ap (bytes_at (length e.bytes)) (
        drop-drop (p + 1 + (length e.name + 1)) (head_size e.type) doc
        ∙ ap (drop (head_size e.type)) payload_here)
      ∙ stored_here e.type e.bytes rest h.0.1

abbrev pub AllReadable : List Element → Type 0
AllReadable [] = Unit {0}
AllReadable (e ∷ es) = IsReadable e × AllReadable es

pub payload_large :
    (type : BsonType) (bytes : List ℕ)
    → is_expected (bson_datasize type) (length bytes) ≡ true
    → length bytes ≤ length (payload type bytes)
unfolding payload bson_datasize
payload_large bson_double bytes h = omega arith
payload_large bson_string bytes h = omega (arith, length-append bytes (0 ∷ []))
payload_large bson_document bytes h = omega arith
payload_large bson_array bytes h = omega arith
payload_large bson_binary bytes h = omega arith
payload_large bson_bool bytes h = omega (arith, length-truth bytes)
payload_large bson_null bytes h = ground arith
payload_large bson_int32 bytes h = omega arith
payload_large bson_uint64 bytes h = omega arith
payload_large bson_int64 bytes h = omega arith

pub elements_short : (es : List Element) → length es ≤ length (body es)
unfolding body encode
elements_short [] = omega arith
elements_short (e ∷ es) = omega (arith, elements_short es, length-append (encode e) (body es))

pub document_start :
    (es : List Element) (tail : List ℕ) → drop 4 (document es ++ tail) ≡ body es ++ 0 ∷ tail
unfolding le32
document_start es tail =
    ap (drop 4) (document-framed es tail)
    ∙ drop-append (le32 (length (body es) + 5)) ((body es ++ 0 ∷ []) ++ tail)
    ∙ append_assoc (body es) (0 ∷ []) tail
