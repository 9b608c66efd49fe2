-- ===== src/Mapping/Release.antt =====
-- The deallocation of a tree of mappings in src/dlite-mapping.c.
use dlite.Base.{
  Returns, Returns-done, Returns-map, ℕ, ◌+◌, ◌≡◌, ◌≤◌, refl, Bool, true, false, ◌||◌, List, [],
  ◌∷◌, Bool-cases, inl, inr, Text, text_eq, text_eq_iff, of_bool, Outcome, done, fault, arith,
}
use dlite.Mapping.{Mapping, Inputs}
use dlite.Mapping.Valid.{is_listed}
use dlite.Mapping.Whole.{dlite_mapping_free, free_inputs}

-- How many mappings of a tree have the output URI `k`.
unfoldable mutual
  pub uses : Text → Mapping → ℕ
  uses k (Mapping.mapping api uri ins cost) = of_bool (text_eq uri k) + input_uses k ins

  pub input_uses : Text → Inputs → ℕ
  input_uses k Inputs.end = 0
  input_uses k (Inputs.input_map m ins) = uses k m + input_uses k ins
  input_uses k (Inputs.input_uri uri ins) = input_uses k ins

-- The freed mappings are those of before and `n k` more with the output URI `k`.
abbrev Freed : (Text → ℕ) → List Text → List Text → Type 0
Freed n before after = (k : Text) → of_bool (is_listed after k) ≡ n k + of_bool (is_listed before k)

abbrev Apart : (Text → ℕ) → List Text → Type 0
Apart n freed = (k : Text) → n k + of_bool (is_listed freed k) ≤ 1

one_more :
    (a b : Bool) (n f : ℕ)
    → of_bool b ≡ n + f
    → (of_bool a + n) + f ≤ 1
    → of_bool (a || b) ≡ (of_bool a + n) + f
one_more true true n f h most = absurd (omega (arith, h, most))
one_more true false n f h most = omega (arith, h)
one_more false b n f h most = omega (arith, h)

-- The mapping itself, behind its inputs.
free_self :
    (uri : Text) (n : Text → ℕ) (freed : List Text) (r : Outcome (List Text))
    → Apart (λ k. of_bool (text_eq uri k) + n k) freed
    → Returns r (Freed n freed)
    → Returns
        (elim r as (λ _. Outcome (List Text)) [ fault ↦ fault | done rest ↦ done (uri ∷ rest) ])
        (Freed (λ k. of_bool (text_eq uri k) + n k) freed)
unfolding Returns
free_self uri n freed (done rest) apart h = λ k.
    one_more (text_eq uri k) (is_listed rest k) (n k) (of_bool (is_listed freed k)) (h k) (apart k)
free_self uri n freed fault apart h = h

free_then :
    (n m : Text → ℕ) (ins : Inputs) (freed : List Text) (r : Outcome (List Text))
    → Returns r (Freed n freed)
    → ((rest : List Text) → Freed n freed rest → Returns (free_inputs ins rest) (Freed m rest))
    → Returns
        (elim r as (λ _. Outcome (List Text)) [ fault ↦ fault | done rest ↦ free_inputs ins rest ])
        (Freed (λ k. n k + m k) freed)
free_then n m ins freed (done rest) h more =
    let before : Freed n freed rest = unfold Returns in h in
    Returns-map _ _ _ (more rest before) λ t g k. omega (arith, g k, before k)
free_then n m ins freed fault h more = unfold Returns in h

not_freed :
    (uri : Text) (n : Text → ℕ) (freed : List Text)
    → Apart (λ k. of_bool (text_eq uri k) + n k) freed
    → is_listed freed uri ≡ false
not_freed uri n freed apart = elim (Bool-cases (is_listed freed uri)) [
  | inr new ↦ new
  | inl twice ↦ absurd (
      let self = (text_eq_iff uri uri).1 refl in
      let most = rw (self, twice) at (apart uri) in omega (arith, most))
]

free_new :
    (b : Bool) (r : Outcome (List Text)) (P : List Text → Type 0)
    → b ≡ false
    → Returns r P
    → Returns (elim b as (λ _. Outcome (List Text)) [ true ↦ fault | false ↦ r ]) P
free_new true r P e h = absurd (ground (arith, e))
free_new false r P e h = h

mutual
  unfolding dlite_mapping_free free_inputs uses input_uses

  free_once :
      (m : Mapping) (freed : List Text)
      → Apart (λ k. uses k m) freed
      → Returns (dlite_mapping_free m freed) (Freed (λ k. uses k m) freed)
  free_once (Mapping.mapping api uri ins cost) freed apart =
      free_new (is_listed freed uri) _ _ (not_freed uri (λ k. input_uses k ins) freed apart) (
        free_self uri (λ k. input_uses k ins) freed (free_inputs ins freed) apart
          (free_inputs_once ins freed λ k. omega (arith, apart k)))

  free_inputs_once :
      (ins : Inputs) (freed : List Text)
      → Apart (λ k. input_uses k ins) freed
      → Returns (free_inputs ins freed) (Freed (λ k. input_uses k ins) freed)
  free_inputs_once Inputs.end freed apart = Returns-done _ _ λ k. omega arith
  free_inputs_once (Inputs.input_map m ins) freed apart =
      free_then (λ k. uses k m) (λ k. input_uses k ins) ins freed (dlite_mapping_free m freed)
        (free_once m freed λ k. omega (arith, apart k))
        λ rest before. free_inputs_once ins rest λ k. omega (arith, apart k, before k)
  free_inputs_once (Inputs.input_uri uri ins) freed apart = free_inputs_once ins freed apart

-- A tree in which no two mappings have the same output URI is freed without a fault, and exactly
-- its mappings are freed.
pub dlite_mapping_free-uses :
    (m : Mapping)
    → ((k : Text) → uses k m ≤ 1)
    → Returns
        (dlite_mapping_free m [])
        (λ freed. (k : Text) → of_bool (is_listed freed k) ≡ uses k m)
dlite_mapping_free-uses m apart =
    Returns-map _ _ _ (free_once m [] λ k. omega (arith, apart k)) λ r h k. omega (arith, h k)
