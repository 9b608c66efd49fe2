-- ===== src/Bson/Find.antt =====
-- What `bson_scan` finds in a document.
use mathlib.Core.List.{append_assoc}
use dlite.Base.{
  ℕ, zero, suc, ◌<◌, ◌≡◌, refl, ◌∙◌, ap, true, false, Option, none, some, Text, List, [], ◌∷◌, ◌++◌,
  arith, ◌==◌, length, drop, length-append, Bool-cases, inl, inr, text_eq,
}
use dlite.Bson.Memory.{Bson, value, error, BsonError, le32, byte_at, bytes_at}
use dlite.Bson.Types.{BsonType, bson_string, bson_bool, type_code}
use dlite.Bson.Read.{Parsed, bson_parse, scan_loop, bson_scan, scan_typed, bson_scan_bool}
use dlite.Bson.Layout.{Element, encode, body, document}
use dlite.Bson.Append.{length-document}
use dlite.Bson.Scan.{stored}
use dlite.Bson.Place.{
  AllReadable, payload_large, elements_short, document_start, length-encode, behind_here, parsed,
  parse_here, data_here,
}

-- The first element of that name.
unfoldable pub first_named : Text → List Element → Option Element
first_named ename [] = none
first_named ename (e ∷ es) = elim (text_eq ename e.name) [
  | true ↦ some e
  | false ↦ first_named ename es
]

-- A scan has found the element: its type, its name, and its data at the place that is returned.
abbrev pub Reads : List ℕ → Option Element → Bson (Option Parsed) → Type 0
Reads doc none r = r ≡ value none
Reads doc (some e) r =
    (p : Parsed) × (r ≡ value (some p))
    × (p.type ≡ e.type)
    × (p.ename ≡ e.name)
    × (bytes_at p.datasize (drop p.data_at doc) ≡ value (stored e.type e.bytes))

end_here :
    (doc rest : List ℕ) (p : ℕ) → drop p doc ≡ 0 ∷ rest → bson_parse doc (some p) ≡ value none
unfolding bson_parse byte_at
end_here doc rest p here = rw (ap byte_at here)

scan_end :
    (fuel : ℕ) (doc : List ℕ) (ename : Text) (p : ℕ)
    → bson_parse doc (some p) ≡ value none
    → scan_loop (suc fuel) doc ename (some p) ≡ value none
unfolding scan_loop
scan_end fuel doc ename p nothing = rw (nothing, scan_loop)

scan_step :
    (fuel : ℕ) (doc : List ℕ) (ename : Text) (p : ℕ) (q : Parsed)
    → bson_parse doc (some p) ≡ value (some q)
    → (text_eq ename q.ename ≡ true → scan_loop (suc fuel) doc ename (some p) ≡ value (some q))
      × (text_eq ename q.ename ≡ false
          → scan_loop (suc fuel) doc ename (some p) ≡ scan_loop fuel doc ename (some q.endptr))
unfolding scan_loop
scan_step fuel doc ename p q found = (
  λ same. rw (found, scan_loop) (rw same),
  λ other. rw (found, scan_loop) (rw (other, scan_loop)),
)

scan_loop-body :
    (es : List Element) (fuel : ℕ) (doc rest : List ℕ) (p : ℕ) (ename : Text)
    → AllReadable es
    → length (body es) < 2147483648
    → drop p doc ≡ body es ++ 0 ∷ rest
    → length es < fuel
    → Reads doc (first_named ename es) (scan_loop fuel doc ename (some p))
unfolding body first_named
scan_loop-body es zero doc rest p ename h small here enough = absurd (omega arith)
scan_loop-body [] (suc fuel) doc rest p ename h small here enough =
    scan_end fuel doc ename p (end_here doc rest p here)
scan_loop-body (e ∷ es) (suc fuel) doc rest p ename h small here enough =
    let here' : drop p doc ≡ encode e ++ (body es ++ 0 ∷ rest) =
      here ∙ append_assoc (encode e) (body es) (0 ∷ rest) in
    let sizes = length-append (encode e) (body es) in
    let size = length-encode doc (body es ++ 0 ∷ rest) p e here' h.0 in
    let fits : length e.bytes < 2147483648 =
      omega (arith, payload_large e.type e.bytes h.0.0.1, size, sizes, small) in
    let q = parsed doc (body es ++ 0 ∷ rest) p e here' h.0 in
    let step =
      scan_step fuel doc ename p q (parse_here doc (body es ++ 0 ∷ rest) p e here' h.0 fits) in
    let next : drop q.endptr doc ≡ body es ++ 0 ∷ rest =
      ap (λ k. drop k doc) (omega (arith, size))
      ∙ behind_here doc (body es ++ 0 ∷ rest) p e here' h.0 in
    elim (Bool-cases (text_eq ename e.name)) [
      | inl same ↦
          rw (same, first_named)
            (q, step.0 same, refl, refl, data_here doc (body es ++ 0 ∷ rest) p e here' h.0)
      | inr other ↦
          rw (other, first_named)
            (rw (step.1 other) (
              scan_loop-body es fuel doc rest q.endptr ename h.1 (omega (arith, small, sizes)) next
                (omega arith)))
    ]

-- In a document below 2 GiB, whatever follows it, `bson_scan` finds the first element with a name,
-- with its type and the place and size of its data, and nothing if no element has that name.
pub bson_scan_lem :
    (es : List Element) (tail : List ℕ) (ename : Text)
    → AllReadable es
    → length (document es) < 2147483648
    → Reads (document es ++ tail) (first_named ename es) (bson_scan (document es ++ tail) ename)
unfolding bson_scan document le32
bson_scan_lem es tail ename h small =
    let size = length-document es in
    let whole = length-append (document es) tail in
    scan_loop-body es (length (document es ++ tail)) (document es ++ tail) tail 4 ename h
      (omega (arith, size, small)) (document_start es tail)
      (omega (arith, elements_short es, size, whole))

typed_of_other :
    (expected : BsonType) (doc : List ℕ) (ename : Text) (p : Parsed)
    → bson_scan doc ename ≡ value (some p)
    → (type_code p.type == type_code expected) ≡ false
    → scan_typed expected doc ename ≡ error BsonError.type_error
unfolding scan_typed
typed_of_other expected doc ename p found other = rw (found, scan_typed) (rw other)

bool_other :
    (doc : List ℕ) (ename : Text)
    → scan_typed bson_string doc ename ≡ error BsonError.type_error
    → bson_scan_bool doc ename ≡ error BsonError.type_error
unfolding bson_scan_bool
bool_other doc ename h = rw (h, bson_scan_bool)

-- `bson_scan_bool` reports a type error for every name whose first element is a Boolean.
pub bson_scan_bool-bson_bool :
    (es : List Element) (tail : List ℕ) (ename : Text) (e : Element)
    → AllReadable es
    → length (document es) < 2147483648
    → first_named ename es ≡ some e
    → e.type ≡ bson_bool
    → bson_scan_bool (document es ++ tail) ename ≡ error BsonError.type_error
bson_scan_bool-bson_bool es tail ename e h small first type_is =
    let doc = document es ++ tail in
    let reads : Reads doc (some e) (bson_scan doc ename) =
      rw first at (bson_scan_lem es tail ename h small) in
    let (p, found, type_same, _, _) = reads in
    bool_other doc ename (
      typed_of_other bson_string doc ename p found (
        ap (λ t. type_code t == type_code bson_string) (type_same ∙ type_is)
        ∙ unfold type_code in refl))
