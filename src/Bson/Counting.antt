-- ===== src/Bson/Counting.antt =====
-- What `bson_nelements` counts.
use mathlib.Core.List.{append_assoc}
use dlite.Base.{
  ℕ, zero, suc, ◌+◌, ◌≤◌, ◌<◌, ◌≡◌, refl, ◌∙◌, ap, false, some, Text, List, [], ◌∷◌, ◌++◌, arith,
  ltb, ◌==◌, length, drop, length-append,
}
use dlite.Bson.Memory.{value, byte_at, string_at}
use dlite.Bson.Types.{type_code, type_of_code, bson_docsize}
use dlite.Bson.Write.{payload}
use dlite.Bson.Read.{skipped, nelements_loop, bson_nelements}
use dlite.Bson.Layout.{Element, encode, body, document}
use dlite.Bson.Append.{document-framed, length-document, docsize-framed}
use dlite.Bson.Scan.{skipped-payload}
use dlite.Bson.Place.{
  AllReadable, payload_large, elements_short, document_start, type_of_code-type_code,
  type_code-nonzero, code_here, name_here, payload_here, length-encode, behind_here,
}

nelements_step :
    (fuel : ℕ) (doc : List ℕ) (docsize p n k code : ℕ) (name : Text)
    → byte_at (drop p doc) ≡ value code
    → (code == 0) ≡ false
    → string_at (drop (p + 1) doc) ≡ value name
    → skipped (type_of_code code) (drop (p + 1 + (length name + 1)) doc) ≡ value k
    → ltb docsize (p + 1 + (length name + 1) + k) ≡ false
    → nelements_loop (suc fuel) doc docsize p n
      ≡ nelements_loop fuel doc docsize (p + 1 + (length name + 1) + k) (n + 1)
unfolding nelements_loop
nelements_step fuel doc docsize p n k code name h₁ h₂ h₃ h₄ h₅ =
    rw (h₁, nelements_loop)
      (rw (h₂, nelements_loop)
        (rw (h₃, nelements_loop) (rw (h₄, nelements_loop) (rw (h₅, nelements_loop)))))

nelements_end :
    (fuel : ℕ) (doc : List ℕ) (docsize p n : ℕ)
    → byte_at (drop p doc) ≡ value 0
    → nelements_loop (suc fuel) doc docsize p n ≡ value n
unfolding nelements_loop
nelements_end fuel doc docsize p n h = rw (h, nelements_loop)

nelements_loop-body :
    (es : List Element) (fuel : ℕ) (doc rest : List ℕ) (docsize p n : ℕ)
    → AllReadable es
    → length (body es) < 2147483648
    → drop p doc ≡ body es ++ 0 ∷ rest
    → length es < fuel
    → p + length (body es) ≤ docsize
    → nelements_loop fuel doc docsize p n ≡ value (n + length es)
unfolding body
nelements_loop-body es zero doc rest docsize p n h small here enough inside = absurd (omega arith)
nelements_loop-body [] (suc fuel) doc rest docsize p n h small here enough inside =
    nelements_end fuel doc docsize p n (ap byte_at here ∙ unfold byte_at in refl)
    ∙ ap value (omega arith)
nelements_loop-body (e ∷ es) (suc fuel) doc rest docsize p n h small here enough inside =
    let more = body es ++ 0 ∷ rest in
    let here' : drop p doc ≡ encode e ++ more =
      here ∙ append_assoc (encode e) (body es) (0 ∷ rest) in
    let sizes = length-append (encode e) (body es) in
    let size = length-encode doc more p e here' h.0 in
    let fits : length e.bytes < 2147483648 =
      omega (arith, payload_large e.type e.bytes h.0.0.1, size, sizes, small) in
    let k = length (payload e.type e.bytes) in
    let q = p + 1 + (length e.name + 1) + k in
    let skip : skipped (type_of_code (type_code e.type)) (drop (p + 1 + (length e.name + 1)) doc)
        ≡ value k =
      ap (λ t. skipped t (drop (p + 1 + (length e.name + 1)) doc)) (type_of_code-type_code e.type)
      ∙ ap (skipped (some e.type)) (payload_here doc more p e here' h.0)
      ∙ skipped-payload e.type e.bytes more h.0.0.1 h.0.1 fits in
    let next : drop q doc ≡ more =
      ap (λ k. drop k doc) (omega (arith, size)) ∙ behind_here doc more p e here' h.0 in
    nelements_step fuel doc docsize p n k (type_code e.type) e.name
      (code_here doc more p e here' h.0) (type_code-nonzero e.type)
      (name_here doc more p e here' h.0) skip (ground (arith, inside, sizes, size))
    ∙ nelements_loop-body es fuel doc rest docsize q (n + 1) h.1 (omega (arith, small, sizes)) next
        (omega arith) (omega (arith, inside, sizes, size))
    ∙ ap value (omega arith)

nelements_from :
    (doc : List ℕ) (docsize : ℕ)
    → bson_docsize doc ≡ value docsize
    → bson_nelements doc ≡ nelements_loop (length doc) doc docsize 4 0
unfolding bson_nelements
nelements_from doc docsize h = rw (h, bson_nelements)

-- `bson_nelements` counts the elements of a document below 2 GiB, whatever follows it.
pub bson_nelements_lem :
    (es : List Element) (tail : List ℕ)
    → AllReadable es
    → length (document es) < 2147483648
    → bson_nelements (document es ++ tail) ≡ value (length es)
bson_nelements_lem es tail h small =
    let size = length-document es in
    let whole = length-append (document es) tail in
    nelements_from (document es ++ tail) (length (body es) + 5) (
      ap bson_docsize (document-framed es tail)
      ∙ docsize-framed (body es) tail (omega (arith, size, small)))
    ∙ (nelements_loop-body es (length (document es ++ tail)) (document es ++ tail) tail
        (length (body es) + 5) 4 0 h (omega (arith, size, small)) (document_start es tail)
        (omega (arith, elements_short es, size, whole)) (omega arith))
    ∙ ap value (omega arith)
