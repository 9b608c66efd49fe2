-- ===== src/Tests/Urls.antt =====
-- Examples of URLs, and their theorems at concrete texts.
use dlite.Base.{
  ◌≡◌, refl, true, false, [], ◌∷◌, ◌++◌, none, some, Text, codes, length, replicate, arith,
}
use dlite.Strutils.Category.{StrCategory, strcategory}
use dlite.Strutils.Buffer.{c_string}
use dlite.Url.Percent.{pct_encode, pct_decode}
use dlite.Url.Decode.{pct_decode-pct_encode}
use dlite.Url.Span.{jspn, segment, jspn-segment}
use dlite.Url.Split.{part, urlsplit, urlsplitn, isurl}
use dlite.Url.Join.{Texts, urljoin}

abbrev url : Text
url = codes "http://user@dlite.org:80/a%20b?x=1#top"

splits :
    urlsplit url
    ≡ some (
      length url,
      record {
        scheme = part 0 4;
        authority = part 7 24;
        userinfo = part 7 11;
        host = part 12 21;
        port = part 22 24;
        path = part 24 30;
        query = part 31 34;
        fragment = part 35 38;
      },
    )
unfolding urlsplit
splits = refl

is_url : isurl url ≡ true
unfolding isurl
is_url = refl

is_drive : isurl (codes "C:/data") ≡ false
unfolding isurl
is_drive = refl

-- The first ten of twelve bytes are a URL, and their number is returned although twelve are asked
-- for.
stops_at_a_blank :
    urlsplitn (codes "http://a/b c") (some 12)
    ≡ some (
      10,
      record {
        scheme = part 0 4;
        authority = part 7 8;
        userinfo = none;
        host = part 7 8;
        port = none;
        path = part 8 10;
        query = none;
        fragment = none;
      },
    )
unfolding urlsplitn
stops_at_a_blank = refl

-- The empty text is not terminated.
leaves_the_buffer : pct_encode (7 ∷ 7 ∷ []) [] ≡ (7 ∷ 7 ∷ [], 0)
unfolding pct_encode
leaves_the_buffer = refl

-- Seven bytes do not fit in six with a NUL behind them, and no encoding is cut.
cut_between : pct_encode (replicate 6 7) (codes "a b c") ≡ (codes "a%20b" ++ 0 ∷ [], 9)
unfolding pct_encode strcategory
cut_between = refl

abbrev texts : Texts
texts = record {
  scheme = some (codes "http");
  authority = none;
  userinfo = none;
  host = some (codes "dlite.org");
  port = some (codes "80");
  path = some (codes "/a b");
  query = none;
  fragment = some (codes "top");
}

-- A blank in a path is encoded.
joins :
    urljoin (replicate 40 7) texts
    ≡ some (codes "http://dlite.org:80/a%20b#top" ++ 0 ∷ replicate 10 7, 29)
unfolding urljoin
joins = refl

pct_decode-pct_encode_example :
    ((pct_encode (replicate 20 7) (codes "a b%")).1
      ≡ length (c_string ((pct_encode (replicate 20 7) (codes "a b%")).0)))
    × (pct_decode (replicate 9 7) (c_string ((pct_encode (replicate 20 7) (codes "a b%")).0))
        ≡ some (codes "a b%" ++ 0 ∷ replicate 4 7, 4))
pct_decode-pct_encode_example =
    pct_decode-pct_encode b'a' (codes " b%") 7 (replicate 19 7) 7 (replicate 8 7)
      (omega arith, (omega arith, (omega arith, (omega arith, tt)))) (omega arith) (omega arith)

jspn-segment_example :
    jspn (codes "a%20b c") StrCategory.sub_delims true (codes "/")
    ≡ some (segment StrCategory.sub_delims true (codes "/") (codes "a%20b c"))
unfolding strcategory
jspn-segment_example = jspn-segment StrCategory.sub_delims true (codes "/") (codes "a%20b c") refl
