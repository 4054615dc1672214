-- ===== src/Net/Cookies.antt =====
-- src/network.cpp: the cookies of a reply, and the header that sends them back. When a cookie expires
-- is not modelled: the date is passed over.
use skivvy.Base.{
  ℕ, zero, suc, Bool, true, false, List, [], ◌∷◌, ◌++◌, if◌then◌else◌, Str, codes, str_eq, is_nil,
  length,
}
use skivvy.Stream.{Stream, good, getline, skip_ws}
use skivvy.Store.{lex}
use skivvy.Net.Http.{HeaderMap}

pub record Cookie : Type 0 where
  pub key : Str
  pub val : Str
  pub domain : Str
  pub path : Str
  pub secure : Bool
  pub httponly : Bool

-- What follows the name `att` of an attribute.
unfoldable pub attribute : Str → Stream → Cookie → Stream × Cookie
attribute att is c =
    let (d, is1) = getline b';' c.domain is in
    let (p, is2) = getline b';' c.path is in
    let (e, is3) = getline b';' att is in
    if str_eq att (codes "Domain")
    then (is1, record c { domain = d })
    else if str_eq att (codes "Path")
    then (is2, record c { path = p })
    else if str_eq att (codes "Expires")
    then (is3, c)
    else if str_eq att (codes "Secure")
    then (is, record c { secure = true })
    else if str_eq att (codes "HttpOnly")
    then (is, record c { httponly = true })
    else (is, c)

-- The loop over the attributes: each round takes a byte at least.
unfoldable pub attributes : ℕ → Str → Stream → Cookie → Cookie
attributes zero att is c = c
attributes (suc fuel) att is c =
    let (att', is1) = getline b'=' att is in
    let (is2, c') = attribute att' is1 c in
    let rest = attributes fuel att' (skip_ws is2) c' in if is1.fail then c else rest

-- `cookie(data)`
unfoldable pub read_cookie : Str → Cookie
read_cookie text =
    let (key, is1) = getline b'=' [] (good text) in
    let (val, is2) = getline b';' [] is1 in
    attributes (suc (length text)) [] (skip_ws is2)
      (record { key = key; val = val; domain = []; path = []; secure = false; httponly = false })

-- `cookie_jar`, in the order of its keys.
abbrev pub CookieJar : Type 0
CookieJar = List (Str × Cookie)

-- `cookies[k] = c`
unfoldable pub put_cookie : Str → Cookie → CookieJar → CookieJar
put_cookie k c [] = (k, c) ∷ []
put_cookie k c ((j, d) ∷ m) =
    let rest = put_cookie k c m in
    if lex k j then (k, c) ∷ (j, d) ∷ m else if lex j k then (j, d) ∷ rest else (j, c) ∷ m

unfoldable pub read_http_cookies : HeaderMap → CookieJar → CookieJar
read_http_cookies [] jar = jar
read_http_cookies ((k, v) ∷ m) jar =
    let c = read_cookie v in
    read_http_cookies m
      (if str_eq k (codes "set-cookie") then put_cookie (c.domain ++ b'/' ∷ c.path) c jar else jar)

-- The loop of `get_cookie_header`.
unfoldable pub cookie_texts : Str → CookieJar → Str
cookie_texts sep [] = []
cookie_texts sep ((k, c) ∷ m) = sep ++ c.key ++ b'=' ∷ (c.val ++ cookie_texts (codes "; ") m)

unfoldable pub get_cookie_header : CookieJar → Str
get_cookie_header m = if is_nil m then [] else codes "Cookie:" ++ cookie_texts (codes " ") m
