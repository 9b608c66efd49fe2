-- ===== src/Url/Join.antt =====
-- `urljoin` of src/utils/urlsplit.c: a URL is written from its components.
use dlite.Base.{ℕ, List, [], ◌∷◌, Option, none, some, Text, codes}
use dlite.Strutils.Category.{StrCategory}
use dlite.Strutils.Append.{strsets}
use dlite.Url.Percent.{encode_loop}

-- The components as texts; none is NULL.
pub record Texts : Type 0 where
  pub scheme : Option Text
  pub authority : Option Text
  pub userinfo : Option Text
  pub host : Option Text
  pub port : Option Text
  pub path : Option Text
  pub query : Option Text
  pub fragment : Option Text

-- A component that is not NULL and not empty.
abbrev pub given : Option Text → Option Text
given none = none
given (some []) = none
given (some (c ∷ cs)) = some (c ∷ cs)

-- The call `pct_xencode(buf+n, size-n, text, len, strcatSubDelims, accepted)`.
unfoldable pub add_encoded : Text → List ℕ × ℕ → Text → List ℕ × ℕ
unfolding encode_loop
add_encoded accepted out text =
    encode_loop StrCategory.sub_delims (some accepted) (out.0) (out.1) text

unfoldable pub add_text : List ℕ × ℕ → Text → List ℕ × ℕ
unfolding strsets
add_text out text = strsets (out.0) (out.1) text

unfoldable pub add_byte : List ℕ × ℕ → ℕ → List ℕ × ℕ
unfolding strsets
add_byte out c = strsets (out.0) (out.1) (c ∷ [])

-- The user information, the host and the port, or else the authority.
unfoldable pub add_authority : Texts → List ℕ × ℕ → List ℕ × ℕ
unfolding add_encoded add_text add_byte
add_authority c out = elim (given c.host) as (λ _. List ℕ × ℕ) [
  | some host ↦
      let slashes = add_text out (codes "//") in
      let user = elim (given c.userinfo) as (λ _. List ℕ × ℕ) [
        | none ↦ slashes
        | some info ↦ add_byte (add_encoded (codes ":") slashes info) b'@'
      ] in
      let named = add_encoded (codes ":") user host in
      elim (given c.port) as (λ _. List ℕ × ℕ) [
        | none ↦ named
        | some port ↦ add_text (add_byte named b':') port
      ]
  | none ↦ elim (given c.authority) as (λ _. List ℕ × ℕ) [
    | none ↦ out
    | some authority ↦ add_encoded (codes ":@") (add_text out (codes "//")) authority
  ]
]

-- The query or the fragment behind its mark.
unfoldable pub add_tail : ℕ → Option Text → List ℕ × ℕ → List ℕ × ℕ
unfolding add_encoded add_byte
add_tail mark o out = elim (given o) as (λ _. List ℕ × ℕ) [
  | none ↦ out
  | some text ↦ add_encoded (codes "/:@?") (add_byte out mark) text
]

-- The buffer and the length, none for -1.
unfoldable pub urljoin : List ℕ → Texts → Option (List ℕ × ℕ)
unfolding add_authority add_tail add_encoded add_text add_byte
urljoin buf c = elim c.scheme as (λ _. Option (List ℕ × ℕ)) [
  | none ↦ none
  | some scheme ↦ elim c.path as (λ _. Option (List ℕ × ℕ)) [
    | none ↦ none
    | some path ↦
        let named = add_byte (add_text (buf, 0) scheme) b':' in
        let located = add_encoded (codes "/:@") (add_authority c named) path in
        some (add_tail b'#' c.fragment (add_tail b'?' c.query located))
  ]
]
