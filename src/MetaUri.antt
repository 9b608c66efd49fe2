-- ===== src/MetaUri.antt =====
-- The URIs of metadata, of src/dlite-misc.c.
use mathlib.Core.List.{append_assoc}
use dlite.Base.{
  ℕ, ◌≡◌, refl, sym, ap, ◌∙◌, ◌==◌, true, false, Option, none, some, Text, [], ◌∷◌, ◌++◌, Outcome,
  done, fault,
}

-- A NULL argument is none.
unfoldable pub dlite_join_meta_uri : Option Text → Option Text → Option Text → Option Text
dlite_join_meta_uri (some name) (some version) (some namespace) =
    elim (namespace ++ (version ++ name)) [
      | [] ↦ none
      | _ ∷ _ ↦ some (namespace ++ (b'/' ∷ (version ++ (b'/' ∷ name))))
    ]
dlite_join_meta_uri _ _ _ = none

-- `strrchr(text, '/')`: what precedes the last slash and what follows it.
unfoldable pub at_last_slash : Text → Option (Text × Text)
at_last_slash [] = none
at_last_slash (c ∷ cs) = elim (at_last_slash cs) [
  | some r ↦ some (c ∷ r.0, r.1)
  | none ↦ elim (c == b'/') [ true ↦ some ([], cs) | false ↦ none ]
]

-- The search for the slash before the version, in what precedes the last slash; it must not be at
-- the start.
unfoldable pub before_version : Text → Option (Text × Text)
unfolding at_last_slash
before_version front = elim (at_last_slash front) [
  | none ↦ none
  | some r ↦ elim (r.0) [ [] ↦ none | _ ∷ _ ↦ some r ]
]

-- The name, the version and the namespace, or none on an error. Where the only slash is at the
-- start of the URI, the source reads the byte before it.
unfoldable pub dlite_split_meta_uri : Text → Outcome (Option (Text × (Text × Text)))
unfolding at_last_slash before_version
dlite_split_meta_uri uri = elim (at_last_slash uri) [
  | none ↦ done none
  | some r ↦ elim (r.0) [
    | [] ↦ fault
    | c ∷ front ↦ elim (before_version (c ∷ front)) [
      | none ↦ done none
      | some s ↦ done (some (r.1, (s.1, s.0)))
    ]
  ]
]

-- No byte of the text is a slash.
abbrev pub NoSlash : Text → Type 0
NoSlash [] = Unit {0}
NoSlash (c ∷ cs) = ((c == b'/') ≡ false) × NoSlash cs

at_last_slash-NoSlash : (name : Text) → NoSlash name → at_last_slash name ≡ none
unfolding at_last_slash
at_last_slash-NoSlash [] h = refl
at_last_slash-NoSlash (c ∷ cs) h =
    rw (at_last_slash-NoSlash cs (h.1), at_last_slash) (rw (h.0) refl)

at_last_slash-append :
    (front name : Text) → NoSlash name → at_last_slash (front ++ (b'/' ∷ name)) ≡ some (front, name)
unfolding at_last_slash
at_last_slash-append [] name h = rw (at_last_slash-NoSlash name h, at_last_slash) refl
at_last_slash-append (c ∷ front) name h = rw (at_last_slash-append front name h, at_last_slash) refl

before_version-append :
    (c : ℕ) (namespace version : Text)
    → NoSlash version
    → before_version ((c ∷ namespace) ++ (b'/' ∷ version)) ≡ some (c ∷ namespace, version)
unfolding before_version
before_version-append c namespace version h =
    rw (at_last_slash-append (c ∷ namespace) version h, before_version) refl

split_step :
    (uri front name namespace version : Text) (c : ℕ)
    → at_last_slash uri ≡ some (c ∷ front, name)
    → before_version (c ∷ front) ≡ some (namespace, version)
    → dlite_split_meta_uri uri ≡ done (some (name, (version, namespace)))
unfolding dlite_split_meta_uri
split_step uri front name namespace version c h k =
    rw (h, dlite_split_meta_uri) (rw (k, dlite_split_meta_uri) refl)

-- The URI that is made of a namespace that is not empty, and of a version and a name without
-- slashes, is split into the same parts.
pub dlite_split_meta_uri-dlite_join_meta_uri :
    (c : ℕ) (namespace version name : Text)
    → NoSlash version
    → NoSlash name
    → (uri : Text) × ((dlite_join_meta_uri (some name) (some version) (some (c ∷ namespace))
          ≡ some uri)
        × (dlite_split_meta_uri uri ≡ done (some (name, (version, c ∷ namespace)))))
unfolding dlite_join_meta_uri
dlite_split_meta_uri-dlite_join_meta_uri c namespace version name hv hn = (
  (c ∷ namespace) ++ (b'/' ∷ (version ++ (b'/' ∷ name))),
  (
    refl,
    split_step _ (namespace ++ (b'/' ∷ version)) name (c ∷ namespace) version c
        (ap at_last_slash (sym (append_assoc (c ∷ namespace) (b'/' ∷ version) (b'/' ∷ name)))
          ∙ at_last_slash-append ((c ∷ namespace) ++ (b'/' ∷ version)) name hn)
        (before_version-append c namespace version hv),
  ),
)

-- A URI whose only slash is at its start makes `dlite_split_meta_uri` read the byte before it.
pub dlite_split_meta_uri_lem :
    (name : Text) → NoSlash name → dlite_split_meta_uri (b'/' ∷ name) ≡ fault
unfolding dlite_split_meta_uri
dlite_split_meta_uri_lem name h = rw (at_last_slash-append [] name h, dlite_split_meta_uri) refl
