-- ===== src/Bson/Append.antt =====
-- What `bson_append` makes of a document.
use mathlib.Core.List.{append_assoc, append-nil}
use dlite.Base.{
  ℕ, ◌+◌, ◌-◌, ◌≤◌, ◌<◌, ◌≡◌, refl, sym, ◌∙◌, ap, true, false, some, List, [], ◌∷◌, ◌++◌, arith,
  leb, ltb, ◌==◌, length, drop, length-append, drop-drop,
}
use dlite.Strutils.Buffer.{NoNul}
use dlite.Bson.Memory.{value, write, le32, byte_at, bytes_at}
use dlite.Bson.Types.{
  BsonType, bson_double, bson_string, bson_document, bson_array, bson_binary, bson_bool, bson_null,
  bson_int32, bson_uint64, bson_int64, type_code, bson_datasize, bson_docsize, bson_elementsize,
  int_size, sized, is_expected,
}
use dlite.Bson.Write.{payload, truth, append_size, append_element, bson_append}
use dlite.Bson.Layout.{
  Element, encode, body, document, take-append, drop-append, length-drop, length-le32, le32toh-le32,
  write-append, write_next, write_start, write_over,
}

-- The five writes and the two that follow them, one after the other.
append_element_steps :
    (doc d₁ d₂ d₃ d₄ d₅ d₆ : List ℕ) (docsize esize : ℕ) (type : BsonType) (ename bytes : List ℕ)
    → write doc docsize ename ≡ value d₁
    → write d₁ (docsize + length ename) (0 ∷ []) ≡ value d₂
    → write d₂ (docsize + length ename + 1) (payload type bytes) ≡ value d₃
    → write d₃ (docsize + length ename + 1 + length (payload type bytes)) (0 ∷ []) ≡ value d₄
    → docsize + length ename + 1 + length (payload type bytes) + 1 ≡ docsize + esize
    → docsize + esize < 2147483648
    → write d₄ 0 (le32 (docsize + esize)) ≡ value d₅
    → write d₅ (docsize - 1) (type_code type ∷ []) ≡ value d₆
    → append_element doc docsize esize type ename bytes ≡ value d₆
unfolding append_element int_size
append_element_steps doc d₁ d₂ d₃ d₄ d₅ d₆ docsize esize type ename bytes h₁ h₂ h₃ h₄ same small h₅
      h₆ =
    let n = docsize + length ename + 1 + length (payload type bytes) + 1 in
    let fits : ltb n 2147483648 ≡ true = ground (arith, same, small) in
    let test : (n == docsize + esize) ≡ true = ground (arith, same) in
    let h₅' : write d₄ 0 (le32 n) ≡ value d₅ = ap (λ k. write d₄ 0 (le32 k)) same ∙ h₅ in
    rw (fits, append_element) (rw (h₁, append_element) (rw (h₂, h₃, h₄, test, h₅', h₆)))

-- A document with the bytes `b` of its elements.
abbrev pub framed : List ℕ → List ℕ → List ℕ
framed b tail = le32 (length b + 5) ++ ((b ++ 0 ∷ []) ++ tail)

length-framed : (b : List ℕ) → length (le32 (length b + 5) ++ (b ++ 0 ∷ [])) ≡ length b + 5
length-framed b = omega (
  arith,
  length-le32 (length b + 5),
  length-append (le32 (length b + 5)) (b ++ 0 ∷ []),
  length-append b (0 ∷ []),
)

drop_four : (m n : ℕ) (xs : List ℕ) → drop 1 (drop n (drop 1 (drop m xs))) ≡ drop (m + 1 + n + 1) xs
drop_four m n xs = sym (
    drop-drop (m + 1 + n) 1 xs
    ∙ ap (drop 1) (drop-drop (m + 1) n xs ∙ ap (drop n) (drop-drop m 1 xs)))

-- The type takes the place of the NUL at the end of the document.
type_written :
    (size b t : List ℕ) (code k : ℕ)
    → k ≡ length size + length b
    → write (size ++ ((b ++ 0 ∷ []) ++ t)) k (code ∷ []) ≡ value (size ++ (b ++ (code ∷ t)))
type_written size b t code k here =
    ap (λ m. write m k (code ∷ []))
      (ap (◌++◌ size) (append_assoc b (0 ∷ []) t) ∙ sym (append_assoc size b (0 ∷ t)))
    ∙ write_over (size ++ b) (0 ∷ []) (code ∷ []) t k (here ∙ sym (length-append size b)) refl
    ∙ ap value (append_assoc size b (code ∷ t))

new_document :
    (code : ℕ) (b name p t u : List ℕ) (new : ℕ)
    → new ≡ length (b ++ code ∷ (name ++ 0 ∷ p)) + 5
    → t ≡ u
    → le32 new ++ (b ++ (code ∷ ((((name ++ 0 ∷ []) ++ p) ++ 0 ∷ []) ++ t)))
      ≡ framed (b ++ code ∷ (name ++ 0 ∷ p)) u
new_document code b name p t u new size same =
    ap (λ n. le32 n ++ (b ++ (code ∷ ((((name ++ 0 ∷ []) ++ p) ++ 0 ∷ []) ++ t)))) size
    ∙ ap
        (λ v.
          le32 (length (b ++ code ∷ (name ++ 0 ∷ p)) + 5)
          ++ (b ++ (code ∷ ((((name ++ 0 ∷ []) ++ p) ++ 0 ∷ []) ++ v))))
        same
    ∙ ap (◌++◌ (le32 (length (b ++ code ∷ (name ++ 0 ∷ p)) + 5))) (simp append_assoc)

append_element-framed :
    (b tail : List ℕ) (e : Element)
    → length (encode e) ≤ length tail
    → length b + 5 + length (encode e) < 2147483648
    → append_element (framed b tail) (length b + 5) (length (encode e)) e.type e.name e.bytes
      ≡ value (framed (b ++ encode e) (drop (length (encode e)) tail))
unfolding encode
append_element-framed b tail e room small =
    let doc = le32 (length b + 5) ++ (b ++ 0 ∷ []) in
    let n = length b + 5 in
    let p = payload e.type e.bytes in
    let t₁ = drop (length e.name) tail in
    let t₂ = drop 1 t₁ in
    let t₃ = drop (length p) t₂ in
    let t₄ = drop 1 t₃ in
    let size : length (encode e) ≡ length e.name + 1 + length p + 1 =
      omega (arith, length-append e.name (0 ∷ p)) in
    let l₁ = length-drop (length e.name) tail in
    let l₂ = length-drop 1 t₁ in
    let l₃ = length-drop (length p) t₂ in
    let long = length-framed b in
    let s₁ = length-append e.name (0 ∷ []) in
    let s₂ = length-append (e.name ++ 0 ∷ []) p in
    let w = ((e.name ++ 0 ∷ []) ++ p) ++ 0 ∷ [] in
    let new = n + length (encode e) in
    ap (λ m. append_element m n (length (encode e)) e.type e.name e.bytes)
      (sym (append_assoc (le32 n) (b ++ 0 ∷ []) tail))
    ∙ append_element_steps (doc ++ tail) (doc ++ (e.name ++ t₁)) (doc ++ ((e.name ++ 0 ∷ []) ++ t₂))
        (doc ++ (((e.name ++ 0 ∷ []) ++ p) ++ t₃)) (doc ++ (w ++ t₄))
        (le32 new ++ ((b ++ 0 ∷ []) ++ (w ++ t₄)))
        (le32 new ++ (b ++ (type_code e.type ∷ (w ++ t₄)))) n (length (encode e)) e.type e.name
        e.bytes
        (ap (λ k. write (doc ++ tail) k e.name) (sym long)
          ∙ write-append doc tail e.name (omega (arith, room, size)))
        (write_next doc e.name t₁ (0 ∷ []) _ (omega (arith, long)) (omega (arith, room, size, l₁)))
        (write_next doc (e.name ++ 0 ∷ []) t₂ p _ (omega (arith, long, s₁))
          (omega (arith, room, size, l₁, l₂)))
        (write_next doc ((e.name ++ 0 ∷ []) ++ p) t₃ (0 ∷ []) _ (omega (arith, long, s₁, s₂))
          (omega (arith, room, size, l₁, l₂, l₃)))
        (omega (arith, size)) small
        (ap (λ m. write m 0 (le32 new)) (append_assoc (le32 n) (b ++ 0 ∷ []) (w ++ t₄))
          ∙ write_start (le32 n) (le32 new) _ (length-le32 n ∙ sym (length-le32 new)))
        (type_written (le32 new) b (w ++ t₄) (type_code e.type) (n - 1)
          (omega (arith, length-le32 new)))
    ∙ ap value (
        new_document (type_code e.type) b e.name p t₄ _ new
          (omega (arith, length-append b (encode e)))
          (drop_four (length e.name) (length p) tail ∙ ap (λ k. drop k tail) (sym size)))

-- The name has no NUL, and the bytes are as many as the type has.
abbrev pub IsElement : Element → Type 0
IsElement e = NoNul e.name × (is_expected (bson_datasize e.type) (length e.bytes) ≡ true)

pub length-truth : (bytes : List ℕ) → length (truth bytes) ≡ length bytes
unfolding truth
length-truth [] = refl
length-truth (b ∷ bytes) = refl

sized-payload :
    (type : BsonType) (esize : ℕ) (bytes : List ℕ)
    → is_expected (bson_datasize type) (length bytes) ≡ true
    → sized type esize (length bytes) ≡ 1 + esize + length (payload type bytes)
unfolding sized payload bson_datasize le32
sized-payload bson_double esize bytes h = refl
sized-payload bson_string esize bytes h = omega (arith, length-append bytes (0 ∷ []))
sized-payload bson_document esize bytes h = refl
sized-payload bson_array esize bytes h = refl
sized-payload bson_binary esize bytes h = omega arith
sized-payload bson_bool esize bytes h = omega (arith, length-truth bytes)
sized-payload bson_null esize bytes h = ground arith
sized-payload bson_int32 esize bytes h = refl
sized-payload bson_uint64 esize bytes h = refl
sized-payload bson_int64 esize bytes h = refl

elementsize-encode :
    (e : Element)
    → IsElement e
    → length (encode e) < 2147483648
    → bson_elementsize e.type (some e.name) (some (length e.bytes)) ≡ value (length (encode e))
unfolding bson_elementsize encode int_size
elementsize-encode e h small =
    let size : sized e.type (length e.name + 1) (length e.bytes) ≡ length (encode e) = omega (
      arith,
      sized-payload e.type (length e.name + 1) e.bytes h.1,
      length-append e.name (0 ∷ payload e.type e.bytes),
    ) in
    let fits : ltb (length (encode e)) 2147483648 ≡ true = ground (arith, small) in
    rw (h.1) (ap int_size size ∙ rw (fits, int_size) refl)

pub docsize-framed :
    (b tail : List ℕ)
    → length b + 5 < 2147483648
    → bson_docsize (framed b tail) ≡ value (length b + 5)
unfolding bson_docsize
docsize-framed b tail h =
    let big : ltb (length b + 5) 5 ≡ false = ground arith in
    let small : ltb (length b + 5) 2147483648 ≡ true = ground arith in
    rw (le32toh-le32 (length b + 5) ((b ++ 0 ∷ []) ++ tail) (omega (arith, h)), big, small)

last-framed : (b tail : List ℕ) → byte_at (drop (length b + 5 - 1) (framed b tail)) ≡ value 0
unfolding byte_at
last-framed b tail =
    let front = le32 (length b + 5) ++ b in
    let here : length b + 5 - 1 ≡ length front =
      omega (arith, length-append (le32 (length b + 5)) b, length-le32 (length b + 5)) in
    let split : framed b tail ≡ front ++ (0 ∷ tail) = simp append_assoc in
    ap (λ m. byte_at (drop (length b + 5 - 1) m)) split
    ∙ ap (λ k. byte_at (drop k (front ++ (0 ∷ tail)))) here
    ∙ ap byte_at (drop-append front (0 ∷ tail))

pub bytes_at-append : (bytes more : List ℕ) → bytes_at (length bytes) (bytes ++ more) ≡ value bytes
unfolding bytes_at
bytes_at-append bytes more =
    let fits : leb (length bytes) (length (bytes ++ more)) ≡ true =
      ground (arith, length-append bytes more) in
    rw (fits, take-append bytes more)

append_full :
    (doc : List ℕ) (bufsize esize : ℕ) (e : Element) (more : List ℕ)
    → bson_elementsize e.type (some e.name) (some (length e.bytes)) ≡ value esize
    → ltb bufsize esize ≡ true
    → bson_append doc bufsize e.type e.name (some (length e.bytes)) (e.bytes ++ more)
      ≡ value (doc, esize)
unfolding bson_append append_size
append_full doc bufsize esize e more h full = rw (h, bson_append) (rw full)

append_room :
    (doc doc' : List ℕ) (bufsize esize docsize : ℕ) (e : Element) (more : List ℕ)
    → bson_elementsize e.type (some e.name) (some (length e.bytes)) ≡ value esize
    → ltb bufsize esize ≡ false
    → bson_docsize doc ≡ value docsize
    → byte_at (drop (docsize - 1) doc) ≡ value 0
    → append_element doc docsize esize e.type e.name e.bytes ≡ value doc'
    → bson_append doc bufsize e.type e.name (some (length e.bytes)) (e.bytes ++ more)
      ≡ value (doc', esize)
unfolding bson_append append_size
append_room doc doc' bufsize esize docsize e more h room h₁ h₂ h₃ =
    rw (h, bson_append) (rw (room, h₁, h₂, bytes_at-append e.bytes more, h₃))

body-append_one : (es : List Element) (e : Element) → body (es ++ e ∷ []) ≡ body es ++ encode e
unfolding body
body-append_one [] e = append-nil (encode e)
body-append_one (x ∷ es) e =
    ap (◌++◌ (encode x)) (body-append_one es e) ∙ sym (append_assoc (encode x) (body es) (encode e))

pub document-framed :
    (es : List Element) (tail : List ℕ) → document es ++ tail ≡ framed (body es) tail
unfolding document
document-framed es tail = append_assoc (le32 (length (body es) + 5)) (body es ++ 0 ∷ []) tail

pub length-document : (es : List Element) → length (document es) ≡ length (body es) + 5
unfolding document
length-document es = length-framed (body es)

-- A document with free memory behind it of at least `bufsize` bytes, of which `bson_append` is
-- told, and an element whose name has no NUL and whose size fits its type, which together are below
-- 2 GiB: the element is appended if its encoding has no more than `bufsize` bytes, and otherwise
-- nothing is changed; in both cases the size of the encoding is returned.
pub bson_append_lem :
    (es : List Element) (e : Element) (tail more : List ℕ) (bufsize : ℕ)
    → IsElement e
    → length (document es) + length (encode e) < 2147483648
    → bufsize ≤ length tail
    → (bufsize < length (encode e)
        → bson_append
            (document es ++ tail)
            bufsize
            e.type
            e.name
            (some (length e.bytes))
            (e.bytes ++ more)
          ≡ value (document es ++ tail, length (encode e)))
      × (length (encode e) ≤ bufsize
          → bson_append
              (document es ++ tail)
              bufsize
              e.type
              e.name
              (some (length e.bytes))
              (e.bytes ++ more)
            ≡ value (document (es ++ e ∷ []) ++ drop (length (encode e)) tail, length (encode e)))
bson_append_lem es e tail more bufsize h small room =
    let b = body es in
    let size : length b + 5 < 2147483648 = omega (arith, small, length-document es) in
    let alone : length (encode e) < 2147483648 = omega (arith, small) in
    let both : length b + 5 + length (encode e) < 2147483648 =
      omega (arith, small, length-document es) in
    (
      λ full.
          append_full (document es ++ tail) bufsize (length (encode e)) e more
            (elementsize-encode e h alone) (ground arith),
      λ fits.
          ap (λ m. bson_append m bufsize e.type e.name (some (length e.bytes)) (e.bytes ++ more))
            (document-framed es tail)
          ∙ append_room (framed b tail) (framed (b ++ encode e) (drop (length (encode e)) tail))
              bufsize (length (encode e)) (length b + 5) e more (elementsize-encode e h alone)
              (ground arith) (docsize-framed b tail size) (last-framed b tail)
              (append_element-framed b tail e (omega (arith, fits, room)) both)
          ∙ ap (λ m. value (m, length (encode e)))
              (ap (λ c. framed c (drop (length (encode e)) tail)) (sym (body-append_one es e))
                ∙ sym (document-framed (es ++ e ∷ []) _)),
    )
