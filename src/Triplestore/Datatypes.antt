-- ===== src/Triplestore/Datatypes.antt =====
-- The tests of the searches of src/triplestore-builtin.c, as to the datatype.
use dlite.Base.{◌≡◌, ◌≢◌, refl, Bool, false, ◌&&◌, arith, Option, none, some, [], ◌∷◌, Text}
use dlite.Triple.{Triple}
use dlite.Triplestore.Store.{
  Criteria, is_match, is_found, matches_text, finds_datatype, matches_datatype,
}

datatypes_agree : (d t : Option Text) → d ≢ some [] → finds_datatype d t ≡ matches_datatype d t
unfolding finds_datatype matches_datatype
datatypes_agree none t h = refl
datatypes_agree (some []) none h = absurd (h refl)
datatypes_agree (some []) (some t) h = refl
datatypes_agree (some (c ∷ d)) none h = refl
datatypes_agree (some (c ∷ d)) (some t) h = refl

never : (a b c : Bool) → (a && (b && (c && false))) ≡ false
never a b c = ground arith

-- The test of `triplestore_find` is that of `triplestore_find_first` and `triplestore_remove`,
-- unless the datatype asked for is empty; then the former finds a triple without a datatype if its
-- texts match, and the latter do not.
pub is_found-is_match :
    (c : Criteria) (t : Triple)
    → (c.d ≢ some [] → is_found c t ≡ is_match c t)
      × (c.d ≡ some []
          → t.d ≡ none
          → (is_found c t ≡ is_match (record c { d = none }) t) × (is_match c t ≡ false))
unfolding is_found is_match
is_found-is_match c t = (
  λ h. rw (datatypes_agree c.d t.d h),
  λ empty missing. (
    rw (empty, missing) (unfold finds_datatype matches_datatype in refl),
    rw (empty, missing)
        (unfold matches_datatype in
          never (matches_text c.s t.s) (matches_text c.p t.p) (matches_text c.o t.o)),
  ),
)
