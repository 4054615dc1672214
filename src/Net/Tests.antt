-- ===== src/Net/Tests.antt =====
-- Tests of src/network.cpp, and the theorems at concrete inputs.
use skivvy.Base.{
  ◌≤◌, ◌∷◌, ◌++◌, [], true, false, ◌≡◌, refl, List, Str, codes, some, arith, length, is_empty,
}
use skivvy.Hol.Model.{hol}
use skivvy.Store.{lex}
use skivvy.Stream.{good, getline, skip_ws}
use skivvy.Net.Url.{
  hex_digits, hex_text, as_int, urlencode, put_str, put_strs, replace_once, replace_while,
  replace_each, ents, fix_entities, urldecode,
}
use skivvy.Net.Decoded.{urldecode-urlencode}
use skivvy.Net.Ends.{fix_entities-urldecode_end}
use skivvy.Net.Http.{hex_run, read_http_headers, read_http_response_data}
use skivvy.Net.Ordered.{IsOrdered, values}
use skivvy.Net.Chunks.{Chunk, IsChunk, chunks_text, chunks_data}
use skivvy.Net.Headers.{
  IsHeader, header_text, lowered, any, is_chunked, gives_length, read_reply-chunks,
}
use skivvy.Net.Html.{has_str, tag_loop, tag_body, find_tag, read_tag, html_to_text}
use skivvy.Net.Plain.{Piece, plain, coded, page, page_text, html_to_text-page}
use skivvy.Net.Cookies.{
  attribute, attributes, read_cookie, put_cookie, read_http_cookies, cookie_texts,
  get_cookie_header,
}
use skivvy.Net.Jar.{
  domain_of, path_of, attributes_text, with_attributes, cookie_of, read_cookie-attributes,
}

urldecode-urlencode_example : urldecode (urlencode (codes "a b&c=d")) ≡ some (codes "a b&c=d")
urldecode-urlencode_example = urldecode-urlencode (codes "a b&c=d") (omega arith)

-- A line feed is written with one digit, a byte of UTF-8 with eight.
encode_test : urlencode (codes "a b" ++ 10 ∷ 195 ∷ []) ≡ codes "a%20b%a%ffffffc3"
unfolding urlencode hex_text hex_digits as_int
encode_test = refl

-- A percent sign that was encoded is decoded twice.
percent_test :
    replace_each ((codes "%25", codes "%") ∷ (codes "%41", codes "A") ∷ []) (codes "%2541")
    ≡ some (codes "A")
unfolding replace_each replace_while replace_once
percent_test = refl

entities_test : fix_entities (codes "a &amp;lt; b &#60; c") ≡ some (codes "a < b > c")
unfolding fix_entities ents put_strs put_str lex replace_each replace_while replace_once
entities_test = refl

abbrev first_chunk : Chunk
first_chunk = record {
  first = b'0';
  digits = codes "00b";
  mark = b';';
  extension = codes "x=1" ++ 13 ∷ [];
  bytes = codes "hello world";
}

first_chunk-IsChunk : IsChunk first_chunk
unfolding hex_run
first_chunk-IsChunk = record {
  digits_hex = (refl, (refl, (refl, (refl, tt))));
  mark_other = (refl, omega arith, omega arith, omega arith);
  extension_line = omega arith;
  length_is = refl;
  not_last = λ e. ground arith;
  fits = omega arith;
}

abbrev reply_headers : List (Str × Str)
reply_headers =
    (codes "Transfer-Encoding", codes "chunked") ∷ (codes "Content-Type", codes "text/html") ∷ []

encoding-IsHeader : IsHeader hol (codes "Transfer-Encoding") (codes "chunked")
unfolding hol
encoding-IsHeader = record {
  no_space = ground arith;
  one_line = (omega arith, omega arith);
  line_trimmed = refl;
  key_trimmed = refl;
  val_trimmed = refl;
}

type-IsHeader : IsHeader hol (codes "Content-Type") (codes "text/html")
unfolding hol
type-IsHeader = record {
  no_space = ground arith;
  one_line = (omega arith, omega arith);
  line_trimmed = refl;
  key_trimmed = refl;
  val_trimmed = refl;
}

blank_line : is_empty (hol.trim (13 ∷ [])) ≡ true
unfolding hol
blank_line = refl

chunked_headers : any is_chunked (lowered hol reply_headers) ≡ true
unfolding hol
chunked_headers = refl

no_length : any gives_length (lowered hol reply_headers) ≡ false
unfolding hol
no_length = refl

read_reply-chunks_example :
    let reply = good (
      (codes "HTTP/1.1" ++ codes " 200 OK\r")
      ++ 10
        ∷ header_text reply_headers (chunks_text (first_chunk ∷ []) (b'0' ∷ 13 ∷ codes "tail"))) in
    let (headers, is) = read_http_headers hol reply [] in
    IsOrdered headers
    × (values (codes "content-type") headers
        ≡ values (codes "content-type") (lowered hol reply_headers))
    × (read_http_response_data is headers []
        ≡ (chunks_data (first_chunk ∷ []), good (13 ∷ codes "tail")))
read_reply-chunks_example =
    read_reply-chunks hol (codes "HTTP/1.1") reply_headers (first_chunk ∷ []) (codes "tail")
      (codes "content-type") blank_line (omega arith) (encoding-IsHeader, (type-IsHeader, tt))
      chunked_headers no_length (first_chunk-IsChunk, tt)

abbrev bold_page : List (Str × Piece)
bold_page = (codes "b", coded (codes "5 < 6")) ∷ (codes "/b", plain (codes " end")) ∷ []

html_to_text-page_example :
    html_to_text (page (plain (codes "a ")) bold_page)
    ≡ some (page_text (plain (codes "a ")) bold_page)
html_to_text-page_example =
    html_to_text-page (plain (codes "a ")) bold_page (omega arith) (omega arith)

read_cookie-attributes_example :
    read_cookie (
      codes "id"
      ++ b'='
        ∷ (codes "7"
            ++ b';' ∷ attributes_text (path_of (codes "/") ∷ domain_of (codes "a.b") ∷ [])))
    ≡ with_attributes
        (path_of (codes "/") ∷ domain_of (codes "a.b") ∷ [])
        (cookie_of (codes "id") (codes "7"))
read_cookie-attributes_example =
    read_cookie-attributes (codes "id") (codes "7") (path_of (codes "/"))
      (domain_of (codes "a.b") ∷ []) (omega arith) (omega arith) (omega arith)

-- The same cookie is sent back.
cookie_header_test :
    get_cookie_header (read_http_cookies ((codes "set-cookie", codes "b=2") ∷ []) [])
    ≡ codes "Cookie: b=2"
unfolding get_cookie_header cookie_texts read_http_cookies put_cookie read_cookie attributes
    attribute getline skip_ws
cookie_header_test = refl

tag_test :
    (read_tag (codes "td") (good (codes "<tr><td class='x'>a <b>c</b></td><td>d</td></tr>"))).0
    ≡ codes "a <b>c</b>"
unfolding read_tag find_tag tag_body tag_loop has_str getline
tag_test = refl

fix_entities-urldecode_end_example :
    ((t : Str) × (fix_entities (codes "&amp;lt;") ≡ some t)
      × (length t ≤ length (codes "&amp;lt;")))
    × ((t : Str) × (urldecode (codes "&amp;lt;") ≡ some t) × (length t ≤ length (codes "&amp;lt;")))
fix_entities-urldecode_end_example = fix_entities-urldecode_end (codes "&amp;lt;")
