-- ===== src/Url/Split.antt =====
-- src/utils/urlsplit.c: the components of a URL. A text stands for the bytes before its NUL.
use dlite.Base.{
  ℕ, ◌+◌, ◌-◌, Bool, true, false, not, ◌&&◌, ◌||◌, [], Option, none, some, Text, codes, leb, ltb,
  ◌==◌, if◌then◌else◌, length, drop, get_elem?,
}
use dlite.Strutils.Category.{StrCategory, strcatjspn, strcatspn, is_one_of, is_between, span}
use dlite.Url.Span.{isxdigit, jspn}

-- `url[n]`.
abbrev pub byte : Text → ℕ → ℕ
byte url n = elim (get_elem? url n) [ none ↦ 0 | some c ↦ c ]

-- `jspn(url+n, cat, pct, accept)`, whose fuel is never used up.
unfoldable pub jspn_at : Text → ℕ → StrCategory → Bool → Text → ℕ
unfolding jspn
jspn_at url n cat pct accept = elim (jspn (drop n url) cat pct accept) as (λ _. ℕ) [
  | none ↦ 0
  | some k ↦ k
]

-- `strcspn(url+n, reject)` of the C library.
abbrev pub strcspn_at : Text → ℕ → Text → ℕ
strcspn_at url n reject = span (λ c. not (is_one_of c reject)) (drop n url)

-- Where a component starts, and its length.
pub record Part : Type 0 where
  pub at : ℕ
  pub len : ℕ

pub record UrlComponents : Type 0 where
  pub scheme : Option Part
  pub authority : Option Part
  pub userinfo : Option Part
  pub host : Option Part
  pub port : Option Part
  pub path : Option Part
  pub query : Option Part
  pub fragment : Option Part

-- The part from `start` to `end`.
abbrev pub part : ℕ → ℕ → Option Part
part start n = some (record { at = start; len = n - start })

-- The position behind the scheme and its colon, none where there is none within `len` bytes.
unfoldable pub split_scheme : Text → ℕ → Option ℕ
unfolding strcatjspn jspn_at
split_scheme url len =
    let first = strcatjspn url StrCategory.lower in
    let n = first + jspn_at url first StrCategory.digit false (codes "+.-") in
    if first == 0
    then none
    else if not (byte url n == b':')
    then none
    else if ltb len (n + 1)
    then none
    else some (n + 1)

-- The position of the host and the user information before it.
unfoldable pub split_userinfo : Text → ℕ → Option (ℕ × Option Part)
unfolding jspn_at
split_userinfo url n =
    let authlen = strcspn_at url n (codes "/?#") in
    let k = strcspn_at url n (codes "@") in
    let behind = n + jspn_at url n StrCategory.sub_delims true (codes ":") in
    if ltb 0 k && ltb k authlen
    then (if byte url behind == b'@' then some (behind + 1, part n behind) else none)
    else some (n, none)

-- The position behind the host.
unfoldable pub split_host : Text → ℕ → Option ℕ
unfolding jspn_at
split_host url n =
    let future = n + 4 + jspn_at url (n + 4) StrCategory.sub_delims true (codes ":") in
    let six = n + 1 + span (λ c. isxdigit c || c == b':') (drop (n + 1) url) in
    let closed : ℕ → Option ℕ = λ k. if byte url k == b']' then some (k + 1) else none in
    if byte url n == b'['
    then (if byte url (n + 1) == b'v' || byte url (n + 1) == b'V'
        then (if isxdigit (byte url (n + 2)) && byte url (n + 3) == b'.'
            then closed future
            else none)
        else closed six)
    else some (n + jspn_at url n StrCategory.sub_delims true [])

-- The position behind the port, and the port.
unfoldable pub split_port : Text → ℕ → ℕ × Option Part
unfolding strcatspn
split_port url n =
    let behind = n + 1 + strcatspn (drop (n + 1) url) StrCategory.digit in
    if byte url n == b':' then (behind, part (n + 1) behind) else (n, none)

abbrev pub none_yet : UrlComponents
none_yet = record {
  scheme = none;
  authority = none;
  userinfo = none;
  host = none;
  port = none;
  path = none;
  query = none;
  fragment = none;
}

-- The authority behind the two slashes.
unfoldable pub split_authority : Text → ℕ → UrlComponents → Option (ℕ × UrlComponents)
unfolding split_userinfo split_host split_port
split_authority url start c = elim (split_userinfo url start) as (λ _. Option (ℕ × UrlComponents)) [
  | none ↦ none
  | some (host, info) ↦ elim (split_host url host) as (λ _. Option (ℕ × UrlComponents)) [
    | none ↦ none
    | some behind ↦
        let p = split_port url behind in
        let n = p.0 in
        if byte url n == 0 || is_one_of (byte url n) (codes "/?#")
        then some (
          n,
          record c {
            authority = part start n;
            userinfo = info;
            host = part host behind;
            port = p.1;
          },
        )
        else none
  ]
]

-- The query or the fragment behind its mark, no further than `len`.
unfoldable pub split_tail : ℕ → Text → ℕ → ℕ → ℕ × Option Part
unfolding jspn_at
split_tail mark url len n =
    let behind = n + 1 + jspn_at url (n + 1) StrCategory.sub_delims true (codes "/?:@") in
    let stop = if leb len behind then len else behind in
    if byte url n == mark then (stop, part (n + 1) stop) else (n, none)

-- The path, the query and the fragment.
unfoldable pub split_rest : Text → ℕ → ℕ → UrlComponents → Option (ℕ × UrlComponents)
unfolding jspn_at split_tail
split_rest url len n c =
    let behind = n + jspn_at url n StrCategory.sub_delims true (codes "/:@") in
    let stop = if leb len behind then len else behind in
    let query = split_tail b'?' url len stop in
    let fragment = split_tail b'#' url len (query.0) in
    if byte url n == b'/' && byte url (n + 1) == b'/'
    then none
    else if leb len stop
    then some (len, record c { path = part n stop })
    else if leb len (query.0)
    then some (len, record c { path = part n stop; query = query.1 })
    else some (fragment.0, record c { path = part n stop; query = query.1; fragment = fragment.1 })

-- The length that is returned and the components, none for 0, where the components hold what has
-- been found up to there. `limit` is none for a negative one.
unfoldable pub urlsplitn : Text → Option ℕ → Option (ℕ × UrlComponents)
unfolding split_scheme split_authority split_rest
urlsplitn url limit =
    let len = elim limit as (λ _. ℕ) [ none ↦ length url | some k ↦ k ] in
    elim (split_scheme url len) as (λ _. Option (ℕ × UrlComponents)) [
      | none ↦ none
      | some n ↦
          let c = record none_yet { scheme = part 0 (n - 1); path = part n n } in
          let with_authority = split_authority url (n + 2) c in
          if n == len
          then some (n, c)
          else if byte url n == b'/' && byte url (n + 1) == b'/'
          then (elim with_authority as (λ _. Option (ℕ × UrlComponents)) [
            | none ↦ none
            | some (k, d) ↦ if ltb len k then none else split_rest url len k d
          ])
          else split_rest url len n c
    ]

unfoldable pub urlsplit : Text → Option (ℕ × UrlComponents)
unfolding urlsplitn
urlsplit url = urlsplitn url none

unfoldable pub isurln : Text → Option ℕ → Bool
unfolding urlsplitn
isurln url limit =
    let n = elim limit as (λ _. ℕ) [ none ↦ length url | some k ↦ k ] in
    if leb 2 n && (is_between (byte url 0) b'A' b'Z' && byte url 1 == b':')
    then false
    else elim (urlsplitn url (some n)) as (λ _. Bool) [ none ↦ false | some (k, c) ↦ k == n ]

unfoldable pub isurl : Text → Bool
unfolding isurln
isurl url = isurln url none
