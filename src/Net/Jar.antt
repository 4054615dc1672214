-- ===== src/Net/Jar.antt =====
-- What is kept of the cookies that a reply sets, src/network.cpp: theorems.
use skivvy.Base.{
  ℕ, zero, suc, ◌≤◌, ◌<◌, Bool, true, false, ◌≡◌, refl, ap, ◌∙◌, List, [], ◌∷◌, ◌++◌, arith, Str,
  codes, All, Lacks, length, length-append, is_empty, if◌then◌else◌, Bool-cases, inl, inr, else_of,
}
use skivvy.Store.{lex}
use skivvy.Store.Order.{lex_irrefl}
use skivvy.Stream.{Stream, good, at_end, getline, skip_ws}
use skivvy.Stream.Laws.{getline_cut, getline_all}
use skivvy.Net.Http.{HeaderMap}
use skivvy.Net.Cookies.{
  Cookie, attribute, attributes, read_cookie, CookieJar, put_cookie, read_http_cookies,
}

-- The attributes that are read: those with a value.
pub data Attribute : Type 0 where
  domain_of : Str → Attribute
  path_of : Str → Attribute
  expires_at : Str → Attribute

abbrev pub name_of : Attribute → Str
name_of (domain_of v) = codes "Domain"
name_of (path_of v) = codes "Path"
name_of (expires_at v) = codes "Expires"

abbrev pub value_of : Attribute → Str
value_of (domain_of v) = v
value_of (path_of v) = v
value_of (expires_at v) = v

-- ` Name=value` with semicolons between them.
abbrev pub attributes_text : List Attribute → Str
attributes_text [] = []
attributes_text (a ∷ []) = b' ' ∷ (name_of a ++ b'=' ∷ value_of a)
attributes_text (a ∷ b ∷ more) =
    b' ' ∷ (name_of a ++ b'=' ∷ (value_of a ++ b';' ∷ attributes_text (b ∷ more)))

abbrev pub with_attribute : Attribute → Cookie → Cookie
with_attribute (domain_of v) c = record c { domain = v }
with_attribute (path_of v) c = record c { path = v }
with_attribute (expires_at v) c = c

abbrev pub with_attributes : List Attribute → Cookie → Cookie
with_attributes [] c = c
with_attributes (a ∷ more) c = with_attributes more (with_attribute a c)

abbrev pub cookie_of : Str → Str → Cookie
cookie_of key val = record {
  key = key;
  val = val;
  domain = [];
  path = [];
  secure = false;
  httponly = false;
}

name-Lacks : (a : Attribute) → Lacks b'=' (name_of a)
name-Lacks (domain_of v) = omega arith
name-Lacks (path_of v) = omega arith
name-Lacks (expires_at v) = omega arith

attribute-cut :
    (a : Attribute) (c : Cookie) (rest : Str)
    → Lacks b';' (value_of a)
    → attribute (name_of a) (good (value_of a ++ b';' ∷ rest)) c ≡ (good rest, with_attribute a c)
unfolding attribute
attribute-cut (domain_of v) c rest h =
    ap (λ (p : Str × Stream). (p.1, record c { domain = p.0 })) (getline_cut b';' c.domain v rest h)
attribute-cut (path_of v) c rest h =
    ap (λ (p : Str × Stream). (p.1, record c { path = p.0 })) (getline_cut b';' c.path v rest h)
attribute-cut (expires_at v) c rest h =
    ap (λ (p : Str × Stream). (p.1, c)) (getline_cut b';' (codes "Expires") v rest h)

attribute-all :
    (a : Attribute) (c : Cookie)
    → Lacks b';' (value_of a)
    → attribute (name_of a) (good (value_of a)) c
      ≡ (at_end (is_empty (value_of a)), with_attribute a c)
unfolding attribute
attribute-all (domain_of v) c h =
    ap (λ (p : Str × Stream). (p.1, record c { domain = p.0 })) (getline_all b';' c.domain v h)
attribute-all (path_of v) c h =
    ap (λ (p : Str × Stream). (p.1, record c { path = p.0 })) (getline_all b';' c.path v h)
attribute-all (expires_at v) c h =
    ap (λ (p : Str × Stream). (p.1, c)) (getline_all b';' (codes "Expires") v h)

-- The first byte of a name is no space.
skip_name :
    (a : Attribute) (s : Str) → skip_ws (good (b' ' ∷ (name_of a ++ s))) ≡ good (name_of a ++ s)
unfolding skip_ws
skip_name (domain_of v) s = refl
skip_name (path_of v) s = refl
skip_name (expires_at v) s = refl

-- A round of the loop from what its steps return.
round :
    (fuel : ℕ) (att : Str) (is : Stream) (c : Cookie) (p : Str × Stream) (q : Stream × Cookie)
    → getline b'=' att is ≡ p
    → p.1.fail ≡ false
    → attribute p.0 p.1 c ≡ q
    → attributes (suc fuel) att is c ≡ attributes fuel p.0 (skip_ws q.0) q.1
unfolding attributes
round fuel att is c p q e f g =
    ap
      (λ (p : Str × Stream).
        let (is2, c') = attribute p.0 p.1 c in
        if p.1.fail then c else attributes fuel p.0 (skip_ws is2) c')
      e
    ∙ ap (λ (q : Stream × Cookie). if p.1.fail then c else attributes fuel p.0 (skip_ws q.0) q.1) g
    ∙ else_of p.1.fail _ _ f

-- Nothing is read behind the end.
stop :
    (fuel : ℕ) (att : Str) (e : Bool) (c : Cookie) → attributes fuel att (skip_ws (at_end e)) c ≡ c
unfolding attributes skip_ws getline
stop zero att e c = refl
stop (suc fuel) att e c = refl

attributes-text :
    (more : List Attribute) (a : Attribute) (fuel : ℕ) (att : Str) (c : Cookie)
    → All (λ (a : Attribute). Lacks b';' (value_of a)) (a ∷ more)
    → length more < fuel
    → attributes fuel att (skip_ws (good (attributes_text (a ∷ more)))) c
      ≡ with_attributes (a ∷ more) c
attributes-text more a zero att c h l = absurd (omega arith)
attributes-text [] a (suc fuel) att c (h, hs) l =
    ap (λ (is : Stream). attributes (suc fuel) att is c) (skip_name a (b'=' ∷ value_of a))
    ∙ round fuel att _ c _ _ (getline_cut b'=' att (name_of a) (value_of a) (name-Lacks a)) refl
        (attribute-all a c h)
    ∙ stop fuel (name_of a) (is_empty (value_of a)) (with_attribute a c)
attributes-text (b ∷ more) a (suc fuel) att c (h, hs) l =
    let rest = value_of a ++ b';' ∷ attributes_text (b ∷ more) in
    ap (λ (is : Stream). attributes (suc fuel) att is c) (skip_name a (b'=' ∷ rest))
    ∙ round fuel att _ c _ _ (getline_cut b'=' att (name_of a) rest (name-Lacks a)) refl
        (attribute-cut a c (attributes_text (b ∷ more)) h)
    ∙ attributes-text more b fuel (name_of a) (with_attribute a c) hs (omega arith)

length-attributes_text :
    (more : List Attribute) (a : Attribute) → length more < length (attributes_text (a ∷ more))
length-attributes_text [] a = omega arith
length-attributes_text (b ∷ more) a = omega (
  arith,
  length-attributes_text more b,
  length-append {0} (name_of a) (b'=' ∷ (value_of a ++ b';' ∷ attributes_text (b ∷ more))),
  length-append {0} (value_of a) (b';' ∷ attributes_text (b ∷ more)),
)

read_cookie_cut :
    (key val text : Str)
    → Lacks b'=' key
    → Lacks b';' val
    → read_cookie (key ++ b'=' ∷ (val ++ b';' ∷ text))
      ≡ attributes
          (suc (length (key ++ b'=' ∷ (val ++ b';' ∷ text))))
          []
          (skip_ws (good text))
          (cookie_of key val)
unfolding read_cookie
read_cookie_cut key val text h k =
    rw (getline_cut b'=' [] key (val ++ b';' ∷ text) h, getline_cut b';' [] val text k) refl

-- A cookie of one or more attributes, each of them a `Domain`, a `Path` or an `Expires`, is read back
-- with its name, its value, and the domain and the path that these give last; `Expires` changes neither.
-- The name holds no `=`, and neither the value nor the attributes hold a `;`.
pub read_cookie-attributes :
    (key val : Str) (a : Attribute) (more : List Attribute)
    → Lacks b'=' key
    → Lacks b';' val
    → All (λ (a : Attribute). Lacks b';' (value_of a)) (a ∷ more)
    → read_cookie (key ++ b'=' ∷ (val ++ b';' ∷ attributes_text (a ∷ more)))
      ≡ with_attributes (a ∷ more) (cookie_of key val)
read_cookie-attributes key val a more h k g =
    let text = attributes_text (a ∷ more) in
    read_cookie_cut key val text h k
    ∙ attributes-text more a (suc (length (key ++ b'=' ∷ (val ++ b';' ∷ text)))) []
        (cookie_of key val) g
        (omega (
          arith,
          length-attributes_text more a,
          length-append {0} key (b'=' ∷ (val ++ b';' ∷ text)),
          length-append {0} val (b';' ∷ text),
        ))

-- The two flags in a row are read as one name, a flag alone by its name; the value of an attribute
-- that is not known hides the one behind it.
flags-text :
    (fuel : ℕ) (c : Cookie)
    → 4 ≤ fuel
    → (attributes fuel [] (skip_ws (good (codes " Secure; HttpOnly"))) c ≡ c)
      × (attributes fuel [] (skip_ws (good (codes " Secure"))) c ≡ record c { secure = true })
      × (attributes fuel [] (skip_ws (good (codes " Max-Age=60; Path=/bot"))) c ≡ c)
unfolding attributes skip_ws getline attribute
flags-text zero c h = absurd (omega arith)
flags-text (suc zero) c h = absurd (omega arith)
flags-text (suc (suc zero)) c h = absurd (omega arith)
flags-text (suc (suc (suc zero))) c h = absurd (omega arith)
flags-text (suc (suc (suc (suc fuel)))) c h = (refl, refl, refl)

enough :
    (key val text : Str) → 4 ≤ length text → 4 ≤ suc (length (key ++ b'=' ∷ (val ++ b';' ∷ text)))
enough key val text h = omega (
  arith,
  length-append {0} key (b'=' ∷ (val ++ b';' ∷ text)),
  length-append {0} val (b';' ∷ text),
)

-- `Secure` alone is seen, but of `Secure; HttpOnly` neither flag is, and a `Path` behind a `Max-Age` is
-- lost.
pub read_cookie-flags :
    (key val : Str)
    → Lacks b'=' key
    → Lacks b';' val
    → (read_cookie (key ++ b'=' ∷ (val ++ b';' ∷ codes " Secure; HttpOnly")) ≡ cookie_of key val)
      × (read_cookie (key ++ b'=' ∷ (val ++ b';' ∷ codes " Secure"))
          ≡ record (cookie_of key val) { secure = true })
      × (read_cookie (key ++ b'=' ∷ (val ++ b';' ∷ codes " Max-Age=60; Path=/bot"))
          ≡ cookie_of key val)
read_cookie-flags key val h k =
    let seen = λ (text : Str) (l : 4 ≤ length text).
      flags-text _ (cookie_of key val) (enough key val text l) in
    (
      read_cookie_cut key val _ h k ∙ (seen (codes " Secure; HttpOnly") (omega arith)).0,
      read_cookie_cut key val _ h k ∙ (seen (codes " Secure") (omega arith)).1,
      read_cookie_cut key val _ h k ∙ (seen (codes " Max-Age=60; Path=/bot") (omega arith)).2,
    )

put_cookie_twice :
    (k : Str) (a b : Cookie) (jar : CookieJar)
    → put_cookie k b (put_cookie k a jar) ≡ put_cookie k b jar
unfolding put_cookie
put_cookie_twice k a b [] = rw (lex_irrefl k) refl
put_cookie_twice k a b ((j, d) ∷ jar) = elim (Bool-cases (lex k j)) [
  | inl e ↦ rw e (rw (lex_irrefl k) refl)
  | inr e ↦ elim (Bool-cases (lex j k)) [
    | inl f ↦
        rw (e, f) (rw (e, f) (ap (λ (m : CookieJar). (j, d) ∷ m) (put_cookie_twice k a b jar)))
    | inr f ↦ rw (e, f) (rw (e, f) refl)
  ]
]

-- Of two cookies that a reply sets for one domain and path only the second is kept, whatever their
-- names.
read_http_cookies-same :
    (a b : Str) (m : HeaderMap) (jar : CookieJar)
    → (read_cookie a).domain ≡ (read_cookie b).domain
    → (read_cookie a).path ≡ (read_cookie b).path
    → read_http_cookies ((codes "set-cookie", a) ∷ (codes "set-cookie", b) ∷ m) jar
      ≡ read_http_cookies ((codes "set-cookie", b) ∷ m) jar
unfolding read_http_cookies
read_http_cookies-same a b m jar e f =
    let key = λ (s : Str). (read_cookie s).domain ++ b'/' ∷ (read_cookie s).path in
    let same : key a ≡ key b = rw (e, f) refl in
    rw same
      (ap (read_http_cookies m) (put_cookie_twice (key b) (read_cookie a) (read_cookie b) jar))
