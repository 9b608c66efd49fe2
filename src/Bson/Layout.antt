-- ===== src/Bson/Layout.antt =====
-- The bytes of a document, and what the memory functions do behind and inside them.
use mathlib.Core.List.{append_assoc}
use dlite.Base.{
  ℕ, zero, suc, ◌+◌, ◌-◌, ◌≤◌, ◌<◌, ◌≡◌, refl, sym, ◌∙◌, ap, true, false, Text, List, [], ◌∷◌, ◌++◌,
  arith, leb, ◌==◌, length, take, drop, length-append, drop-drop,
}
use dlite.Strutils.Buffer.{NoNul}
use dlite.Bson.Memory.{value, write, le32, le32toh, string_at}
use dlite.Bson.Types.{BsonType, type_code}
use dlite.Bson.Write.{payload}

-- A named value; its bytes are the memory that `data` points to.
pub record Element : Type 0 where
  pub type : BsonType
  pub name : Text
  pub bytes : List ℕ

unfoldable pub encode : Element → List ℕ
encode e = type_code e.type ∷ (e.name ++ 0 ∷ payload e.type e.bytes)

unfoldable pub body : List Element → List ℕ
body [] = []
body (e ∷ es) = encode e ++ body es

unfoldable pub document : List Element → List ℕ
document es = le32 (length (body es) + 5) ++ (body es ++ 0 ∷ [])

module _ {ℓ} {A : Type ℓ} where
  pub take-append : (xs ys : List A) → take (length xs) (xs ++ ys) ≡ xs
  take-append [] ys = refl
  take-append (x ∷ xs) ys = ap (◌∷◌ x) (take-append xs ys)

  pub drop-append : (xs ys : List A) → drop (length xs) (xs ++ ys) ≡ ys
  drop-append [] ys = refl
  drop-append (x ∷ xs) ys = drop-append xs ys

  pub length-drop : (n : ℕ) (xs : List A) → length (drop n xs) ≡ length xs - n
  length-drop zero xs = omega arith
  length-drop (suc n) [] = omega arith
  length-drop (suc n) (x ∷ xs) = omega (arith, length-drop n xs)

  pub drop-past : (xs ys : List A) (k : ℕ) → drop (length xs + k) (xs ++ ys) ≡ drop k ys
  drop-past xs ys k = drop-drop (length xs) k (xs ++ ys) ∙ ap (drop k) (drop-append xs ys)

pub length-le32 : (v : ℕ) → length (le32 v) ≡ 4
unfolding le32
length-le32 v = refl

pub le32toh-le32 : (v : ℕ) (mem : List ℕ) → v < 4294967296 → le32toh (le32 v ++ mem) ≡ value v
unfolding le32 le32toh
le32toh-le32 v mem h = ap value (omega arith)

-- A write behind `pre`.
pub write-append :
    (pre t bytes : List ℕ)
    → length bytes ≤ length t
    → write (pre ++ t) (length pre) bytes ≡ value (pre ++ (bytes ++ drop (length bytes) t))
unfolding write
write-append pre t bytes h =
    let fits : leb (length pre + length bytes) (length (pre ++ t)) ≡ true =
      ground (arith, length-append pre t) in
    rw (fits, take-append pre t, drop-past pre t (length bytes))

-- A write behind what was written behind `pre`.
pub write_next :
    (pre a t bytes : List ℕ) (n : ℕ)
    → n ≡ length pre + length a
    → length bytes ≤ length t
    → write (pre ++ (a ++ t)) n bytes ≡ value (pre ++ ((a ++ bytes) ++ drop (length bytes) t))
write_next pre a t bytes n here h =
    ap (λ m. write m n bytes) (sym (append_assoc pre a t))
    ∙ ap (λ k. write ((pre ++ a) ++ t) k bytes) (here ∙ sym (length-append pre a))
    ∙ write-append (pre ++ a) t bytes h
    ∙ ap value (append_assoc pre a _ ∙ ap (◌++◌ pre) (sym (append_assoc a bytes _)))

pub string_at-append : (s : Text) (mem : List ℕ) → NoNul s → string_at (s ++ 0 ∷ mem) ≡ value s
unfolding string_at
string_at-append [] mem h = refl
string_at-append (c ∷ s) mem h =
    let nonzero : (c == 0) ≡ false = ground (arith, h.0) in
    rw (nonzero, string_at) (rw (string_at-append s mem h.1))

pub write_start : (a b t : List ℕ) → length a ≡ length b → write (a ++ t) 0 b ≡ value (b ++ t)
unfolding write
write_start a b t h =
    let fits : leb (0 + length b) (length (a ++ t)) ≡ true = ground (arith, length-append a t, h) in
    let from : 0 + length b ≡ length a = omega (arith, h) in rw (fits, from, drop-append a t)

-- A write over `a`, behind `pre`.
pub write_over :
    (pre a b t : List ℕ) (n : ℕ)
    → n ≡ length pre
    → length a ≡ length b
    → write (pre ++ (a ++ t)) n b ≡ value (pre ++ (b ++ t))
write_over pre a b t n here h =
    ap (λ k. write (pre ++ (a ++ t)) k b) here
    ∙ write-append pre (a ++ t) b (omega (arith, length-append a t, h))
    ∙ ap (λ k. value (pre ++ (b ++ drop k (a ++ t)))) (sym h)
    ∙ ap (λ u. value (pre ++ (b ++ u))) (drop-append a t)
