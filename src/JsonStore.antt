-- ===== src/JsonStore.antt =====
-- The JSON store of src/utils/jstore.c: texts of JSON values and labels by keys, in two string maps.
-- Child: Refinement, the store as a function from keys to values.
pub mod Refinement
use dlite.Base.{
  ℕ, zero, suc, ◌+◌, List, [], ◌∷◌, ◌++◌, Option, none, some, Text, codes, Outcome, done, fault,
  ◌>>=◌, length, take, ◌==◌, if◌then◌else◌,
}
use dlite.StringMap.{StringMapOf, KeysOf}

pub record JStore (M : Type 0) : Type 0 where
  pub store : M
  pub labels : M

-- `strndup`, with the whole text for a length of 0.
abbrev pub copied : Text → ℕ → Text
copied text n = if n == 0 then text else take n text

module _ {M : Type 0} (ops : StringMapOf Text M) where
  unfoldable pub jstore_open : JStore M
  jstore_open = record { store = ops.empty; labels = ops.empty }

  unfoldable pub jstore_addstolen : JStore M → Text → Text → JStore M
  jstore_addstolen js key value = record js { store = ops.set js.store key value }

  unfoldable pub jstore_addn : JStore M → Text → ℕ → Text → ℕ → JStore M
  unfolding jstore_addstolen
  jstore_addn js key klen value vlen = jstore_addstolen js (copied key klen) (copied value vlen)

  unfoldable pub jstore_add : JStore M → Text → Text → JStore M
  unfolding jstore_addn
  jstore_add js key value = jstore_addn js key 0 value 0

  unfoldable pub jstore_get : JStore M → Text → Option Text
  jstore_get js key = ops.get js.store key

  -- The store and the return code.
  unfoldable pub jstore_remove : JStore M → Text → JStore M × ℕ
  jstore_remove js key = elim (ops.get js.store key) [
    | some v ↦ (record js { store = ops.remove js.store key }, 0)
    | none ↦ (js, 1)
  ]

  -- `len` is none for a negative one.
  unfoldable pub jstore_set_labeln : JStore M → Text → Text → Option ℕ → JStore M
  jstore_set_labeln js key label len =
      let text = elim len as (λ _. Text) [ none ↦ label | some n ↦ take n label ] in
      record js { labels = ops.set js.labels key text }

  unfoldable pub jstore_set_label : JStore M → Text → Text → JStore M
  unfolding jstore_set_labeln
  jstore_set_label js key label = jstore_set_labeln js key label none

  unfoldable pub jstore_get_label : JStore M → Text → Option Text
  jstore_get_label js key = ops.get js.labels key

  module _ (iter : KeysOf Text M ops) where
    -- The keys that an iterator has left.
    unfoldable pub jstore_iter_init : JStore M → List Text
    jstore_iter_init js = iter.keys js.store

    -- The key or none for NULL, and what is left.
    unfoldable pub jstore_iter_next : List Text → Option Text × List Text
    jstore_iter_next [] = (none, [])
    jstore_iter_next (key ∷ keys) = (some key, keys)

    unfoldable pub jstore_count : JStore M → ℕ
    jstore_count js = length (iter.keys js.store)

    unfoldable pub jstore_get_single_key : JStore M → Option Text
    jstore_get_single_key js = elim (iter.keys js.store) [
      | [] ↦ none
      | key ∷ more ↦ elim more [ [] ↦ some key | _ ∷ _ ↦ none ]
    ]

    -- The loop over the keys that are left; a value that is NULL fails an assert.
    unfoldable pub update_loop : List Text → JStore M → JStore M → Outcome (JStore M)
    unfolding jstore_get jstore_add
    update_loop [] js other = done js
    update_loop (key ∷ keys) js other = elim (jstore_get other key) [
      | none ↦ fault
      | some value ↦ update_loop keys (jstore_add js key value) other
    ]

    unfoldable pub jstore_update : JStore M → JStore M → Outcome (JStore M)
    unfolding update_loop jstore_iter_init
    jstore_update js other = update_loop (jstore_iter_init other) js other

    -- The items that are left, behind `count` others; none on an error.
    unfoldable pub items_text : List Text → JStore M → ℕ → Option Text
    items_text [] js count = some (10 ∷ codes "}" ++ 10 ∷ [])
    items_text (key ∷ keys) js count = elim (ops.get js.store key) [
      | none ↦ none
      | some value ↦ elim (items_text keys js (count + 1)) [
        | none ↦ none
        | some rest ↦ some (
            (if count == 0 then [] else codes ",")
            ++ (10 ∷ codes "  \"" ++ (key ++ (codes "\": " ++ (value ++ rest)))))
      ]
    ]

    unfoldable pub jstore_to_string : JStore M → Option Text
    unfolding items_text
    jstore_to_string js = elim (items_text (iter.keys js.store) js 0) [
      | none ↦ none
      | some items ↦ some (codes "{" ++ items)
    ]
