-- ===== src/Net/Http.antt =====
-- src/network.cpp: the headers, the data and the cookies of an HTTP reply, from the stream that holds
-- it. The date in a cookie is not read: `Expires` is passed over.
use skivvy.Base.{
  ℕ, zero, suc, ◌+◌, ◌-◌, ◌*◌, ◌%◌, Bool, true, false, not, ◌&&◌, ◌||◌, none, some, List, [], ◌∷◌,
  ◌++◌, ltb, leb, ◌==◌, if◌then◌else◌, Str, codes, str_eq, is_empty, length,
}
use skivvy.Hol.{Hol}
use skivvy.Stream.{Stream, good, at_end, set_fail, get, getline, read_word, skip_space}
use skivvy.Store.{lex}
use skivvy.Bot.Text.{npos}
use skivvy.Utils.{read_number}

abbrev pub is_hex : ℕ → Bool
is_hex c = (leb 48 c && leb c 57) || (leb 97 c && leb c 102) || (leb 65 c && leb c 70)

abbrev pub hex_value : ℕ → ℕ
hex_value c = if leb 97 c then c - 87 else if leb 65 c then c - 55 else c - 48

-- The value of the digits that begin a text, behind the value `v` of those before them, and the rest.
unfoldable pub hex_run : ℕ → Str → ℕ × Str
hex_run v [] = (v, [])
hex_run v (c ∷ s) =
    let more = hex_run (v * 16 + hex_value c) s in if is_hex c then more else (v, c ∷ s)

-- The digits, at least one, of a number of 64 bits: a failure leaves 0, or the largest number.
abbrev pub hex_number : Str → ℕ × Stream
hex_number [] = (0, at_end true)
hex_number (c ∷ s) =
    let (v, rest) = hex_run 0 (c ∷ s) in
    if not (is_hex c)
    then (0, record { buf = c ∷ s; eof = false; fail = true })
    else if ltb npos v
    then (npos, record { buf = rest; eof = is_empty rest; fail = true })
    else (v, record { buf = rest; eof = is_empty rest; fail = false })

-- `0x` may stand before the digits.
abbrev pub hex_prefixed : Str → ℕ × Stream
hex_prefixed [] = hex_number []
hex_prefixed (c ∷ []) = hex_number (c ∷ [])
hex_prefixed (c ∷ x ∷ s) =
    if c == b'0' && (x == b'x' || x == b'X') then hex_number s else hex_number (c ∷ x ∷ s)

-- A number with a minus sign wraps around.
abbrev negate : ℕ × Stream → ℕ × Stream
negate (v, is) = (if is.fail then v else (npos + 1 - v) % (npos + 1), is)

abbrev pub hex_signed : Str → ℕ × Stream
hex_signed [] = hex_number []
hex_signed (c ∷ s) =
    if c == b'+'
    then hex_prefixed s
    else if c == b'-'
    then negate (hex_prefixed s)
    else hex_prefixed (c ∷ s)

-- `is >> std::hex >> len`, which sets `len` to 0 where there is no number
unfoldable pub read_hex : Stream → ℕ × Stream
read_hex is = if is.eof || is.fail then (0, set_fail is) else hex_signed (skip_space is.buf)

-- `for(char c; len && is.get(c); --len) oss.put(c);`
unfoldable pub read_bytes : ℕ → Stream → Str × Stream
read_bytes zero is = ([], is)
read_bytes (suc len) is =
    let (o, is') = get is in
    elim o [ none ↦ ([], is') | some c ↦ let (d, is'') = read_bytes len is' in (c ∷ d, is'') ]

-- `read_chunked_encoding(is, data)`; each round takes a digit at least.
unfoldable pub chunks_loop : ℕ → Str → Stream → Str × Stream
chunks_loop zero line is = ([], is)
chunks_loop (suc fuel) line is =
    let (len, is1) = read_hex is in
    let (line', is2) = getline 10 line is1 in
    let (d, is3) = read_bytes len is2 in
    let (ds, is4) = chunks_loop fuel line' is3 in
    if is1.fail || len == 0 then ([], is1) else (d ++ ds, is4)

unfoldable pub read_chunked_encoding : Stream → Str × Stream
read_chunked_encoding is = chunks_loop (suc (length is.buf)) [] is

-- `header_map`, in the order of its keys; equal keys stand in the order of their insertion.
abbrev pub HeaderMap : Type 0
HeaderMap = List (Str × Str)

unfoldable pub insert_header : Str → Str → HeaderMap → HeaderMap
insert_header k v [] = (k, v) ∷ []
insert_header k v ((j, u) ∷ m) =
    let rest = insert_header k v m in if lex k j then (k, v) ∷ (j, u) ∷ m else (j, u) ∷ rest

-- The bytes around a key that are no part of it.
abbrev pub around_key : Str
around_key = b' ' ∷ 9 ∷ 13 ∷ 10 ∷ b':' ∷ []

module _ (h : Hol) where
  -- A header line. `key` and `val` are what the lines before have left.
  unfoldable pub header_line : Str → Str → Str → HeaderMap → Str × Str × HeaderMap
  header_line line key val m =
      let (key', is1) = read_word key (good line) in
      let (val', is2) = getline 10 val is1 in
      let key2 = h.trim_of key' around_key in
      let val2 = h.trim val' in
      if is1.fail
      then (key', val, m)
      else if is2.fail
      then (key', val', m)
      else (h.lower key2, val2, insert_header (h.lower key2) val2 m)

  -- The lines up to one that is blank.
  unfoldable pub headers_loop : ℕ → Str → Str → Str → Stream → HeaderMap → HeaderMap × Stream
  headers_loop zero line key val is m = (m, is)
  headers_loop (suc fuel) line key val is m =
      let (line', is') = getline 10 line is in
      let (key', val', m') = header_line (h.trim line') key val m in
      let rest = headers_loop fuel (h.trim line') key' val' is' m' in
      if is.fail || is'.fail || is_empty (h.trim line') then (m, is') else rest

  unfoldable pub read_http_headers : Stream → HeaderMap → HeaderMap × Stream
  read_http_headers is m =
      let (line, is') = getline 10 [] is in
      if is'.fail then (m, is') else headers_loop (suc (length is'.buf)) line [] [] is' m

-- `read_http_response_data(is, headers, data)`: the headers that are left, and the data before.
unfoldable pub read_http_response_data : Stream → HeaderMap → Str → Str × Stream
read_http_response_data is [] old = (old, is)
read_http_response_data is ((k, v) ∷ m) old =
    let rest = read_http_response_data is m old in
    if str_eq k (codes "transfer-encoding") && str_eq v (codes "chunked")
    then read_chunked_encoding is
    else if str_eq k (codes "content-length")
    then elim (read_number v) [ none ↦ rest | some len ↦ read_bytes len is ]
    else rest
