-- ===== src/Net/Decoded.antt =====
-- `urldecode` undoes `urlencode`, src/network.cpp: theorem.
use skivvy.Base.{
  ℕ, zero, suc, ◌/◌, ◌%◌, ◌≤◌, ◌<◌, Bool, true, false, not, ◌||◌, ◌≡◌, refl, sym, ap, ◌∙◌, ◌⊎◌, inl,
  inr, some, [], ◌∷◌, map, ◌==◌, arith, Str, str_eq, str_eq_iff, is_alnum, to_lower, All,
  Bool-cases,
}
use skivvy.Store.{lex}
use skivvy.Store.Order.{lex_total}
use skivvy.Net.Url.{
  hex_digit, hex_digits, hex_text, as_int, urlencode, StrMap, put_str, url_code, url_codes,
  urldecode, to_upper,
}
use skivvy.Net.Marked.{
  IsSafe, Marked, shown, render, IsSound, AreSafe, mark_all, mark_each, replace_each-render,
}

pub hex_text-url : (c : ℕ) → 16 ≤ c → c < 128 → b'%' ∷ hex_text (as_int c) ≡ url_code c
unfolding hex_text as_int url_code hex_digits
hex_text-url c h k = ground arith

abbrev marked : ℕ → ℕ × Bool
marked c = (c, not (is_alnum c))

-- What is encoded of a text of such bytes.
urlencode-render : (s : Str) → All IsSafe s → urlencode s ≡ render (map marked s)
unfolding urlencode render shown
urlencode-render [] h = refl
urlencode-render (c ∷ s) ((l, u, n), h) =
    let e : b'%' ∷ hex_text (as_int c) ≡ url_code c = hex_text-url c l u in
    elim (Bool-cases (is_alnum c)) [
      | inl a ↦ rw (a, urlencode-render s h) refl
      | inr a ↦ rw (a, urlencode-render s h, ← e) refl
    ]

-- The bytes of a text, whether they are encoded or not.
bytes : Marked → Str
bytes [] = []
bytes ((c, b) ∷ ts) = c ∷ bytes ts

has_key : Str → StrMap → Bool
has_key k [] = false
has_key k ((j, v) ∷ m) = str_eq k j || has_key k m

-- Each byte is decoded, or its code is a key.
IsKeyed : StrMap → Marked → Type 0
IsKeyed m [] = Unit
IsKeyed m ((c, b) ∷ ts) = ((b ≡ false) ⊎ (has_key (url_code c) m ≡ true)) × IsKeyed m ts

mark_all-IsKeyed :
    (k v : Str) (m : StrMap) (ts : Marked) → IsKeyed ((k, v) ∷ m) ts → IsKeyed m (mark_all k ts)
unfolding mark_all IsKeyed has_key
mark_all-IsKeyed k v m [] h = tt
mark_all-IsKeyed k v m ((c, b) ∷ ts) (h, hs) = (ground arith, mark_all-IsKeyed k v m ts hs)

bytes-mark_all : (k : Str) (ts : Marked) → bytes (mark_all k ts) ≡ bytes ts
unfolding bytes mark_all
bytes-mark_all k [] = refl
bytes-mark_all k ((c, b) ∷ ts) = ap (λ (s : Str). c ∷ s) (bytes-mark_all k ts)

render-bytes : (ts : Marked) → IsKeyed [] ts → render ts ≡ bytes ts
unfolding render shown bytes IsKeyed has_key
render-bytes [] h = refl
render-bytes ((c, false) ∷ ts) (h, hs) = ap (λ (s : Str). c ∷ s) (render-bytes ts hs)
render-bytes ((c, true) ∷ ts) (inl h, hs) = cc
render-bytes ((c, true) ∷ ts) (inr h, hs) = cc

render-mark_each : (m : StrMap) (ts : Marked) → IsKeyed m ts → render (mark_each m ts) ≡ bytes ts
unfolding mark_each
render-mark_each [] ts h = render-bytes ts h
render-mark_each ((k, v) ∷ m) ts h =
    render-mark_each m (mark_all k ts) (mark_all-IsKeyed k v m ts h) ∙ bytes-mark_all k ts

pub put_str-All :
    (P : Str × Str → Type 0) (k v : Str) (m : StrMap) → P (k, v) → All P m → All P (put_str k v m)
unfolding put_str
put_str-All P k v [] h a = (h, tt)
put_str-All P k v ((j, u) ∷ m) h (b, a) = elim (Bool-cases (lex k j)) [
  | inl e ↦ rw e (h, (b, a))
  | inr e ↦ elim (Bool-cases (lex j k)) [
    | inl f ↦ rw (e, f) (b, put_str-All P k v m h a)
    | inr f ↦ rw (e, f, lex_total j k f e) (h, a)
  ]
]

has_key-put_str :
    (k v j : Str) (m : StrMap) → has_key j (put_str k v m) ≡ (str_eq j k || has_key j m)
unfolding put_str has_key
has_key-put_str k v j [] = refl
has_key-put_str k v j ((i, u) ∷ m) = elim (Bool-cases (lex k i)) [
  | inl e ↦ rw e refl
  | inr e ↦ elim (Bool-cases (lex i k)) [
    | inl f ↦ rw (e, f) (ground (arith, has_key-put_str k v j m))
    | inr f ↦ rw (e, f, lex_total i k f e) (ground arith)
  ]
]

digit_lower : (d : ℕ) → d < 16 → to_lower (hex_digit d) ≡ hex_digit d
digit_lower d h = ground arith

hex_digit_inj : (d e : ℕ) → d < 16 → e < 16 → hex_digit e ≡ hex_digit d → d ≡ e
hex_digit_inj d e h k q = ground arith

digit_upper : (d e : ℕ) → d < 16 → e < 16 → hex_digit e ≡ to_upper (hex_digit d) → d ≡ e
digit_upper d e h k q = ground arith

lower_code : (i : ℕ) → i < 256 → map to_lower (url_code i) ≡ url_code i
unfolding url_code
lower_code i h =
    let a : to_lower (hex_digit (i / 16)) ≡ hex_digit (i / 16) =
      digit_lower (i / 16) (omega arith) in
    let b : to_lower (hex_digit (i % 16)) ≡ hex_digit (i % 16) =
      digit_lower (i % 16) (omega arith) in
    rw (a, b) refl

url_codes-keys : (n c : ℕ) → n ≤ 256 → c < n → has_key (url_code c) (url_codes n) ≡ true
unfolding url_codes
url_codes-keys zero c l h = absurd (omega arith)
url_codes-keys (suc n) c l h =
    let k = url_code c in
    let first = has_key-put_str (map to_lower (url_code n)) (n ∷ []) k (url_codes n) in
    let second =
      has_key-put_str (map to_upper (url_code n)) (n ∷ []) k
        (put_str (map to_lower (url_code n)) (n ∷ []) (url_codes n)) in
    elim (Bool-cases (c == n)) [
      | inl e ↦
          let q : str_eq k (map to_lower (url_code n)) ≡ true =
            (str_eq_iff _ _).1 (ap url_code (ground arith) ∙ sym (lower_code n (omega arith))) in
          second ∙ ground (arith, first, q)
      | inr e ↦
          let q = url_codes-keys n c (omega arith) (ground arith) in
          second ∙ ground (arith, first, q)
    ]

Entry : Str × Str → Type 0
Entry p = (x : ℕ) × (y : ℕ) × (p.0 ≡ b'%' ∷ x ∷ y ∷ []) × IsSound (b'%' ∷ x ∷ y ∷ []) p.1

lower-Entry : (i : ℕ) → i < 256 → Entry (map to_lower (url_code i), i ∷ [])
unfolding Entry url_code
lower-Entry i h = (
  to_lower (hex_digit (i / 16)),
  to_lower (hex_digit (i % 16)),
  refl,
  λ c l e.
      let a =
        hex_digit_inj (i / 16) (c / 16) (omega arith) (omega arith)
          (cc (digit_lower (i / 16) (omega arith))) in
      let b =
        hex_digit_inj (i % 16) (c % 16) (omega arith) (omega arith)
          (cc (digit_lower (i % 16) (omega arith))) in
      ap (λ (d : ℕ). d ∷ []) (omega arith),
)

upper-Entry : (i : ℕ) → i < 256 → Entry (map to_upper (url_code i), i ∷ [])
unfolding Entry url_code
upper-Entry i h = (
  to_upper (hex_digit (i / 16)),
  to_upper (hex_digit (i % 16)),
  refl,
  λ c l e.
      let a = digit_upper (i / 16) (c / 16) (omega arith) (omega arith) (cc) in
      let b = digit_upper (i % 16) (c % 16) (omega arith) (omega arith) (cc) in
      ap (λ (d : ℕ). d ∷ []) (omega arith),
)

url_codes-IsTable : (n : ℕ) → n ≤ 256 → All Entry (url_codes n)
unfolding url_codes
url_codes-IsTable zero l = tt
url_codes-IsTable (suc n) l =
    put_str-All Entry _ _ _ (upper-Entry n (omega arith))
      (put_str-All Entry _ _ _ (lower-Entry n (omega arith)) (url_codes-IsTable n (omega arith)))

marked-IsKeyed : (s : Str) → All IsSafe s → IsKeyed (url_codes 256) (map marked s)
unfolding IsKeyed
marked-IsKeyed [] h = tt
marked-IsKeyed (c ∷ s) ((l, u, n), h) =
    (inr (url_codes-keys 256 c (omega arith) (omega arith)), marked-IsKeyed s h)

marked-AreSafe : (s : Str) → All IsSafe s → AreSafe (map marked s)
marked-AreSafe [] h = tt
marked-AreSafe (c ∷ s) (l, h) = (l, marked-AreSafe s h)

bytes-marked : (s : Str) → bytes (map marked s) ≡ s
unfolding bytes
bytes-marked [] = refl
bytes-marked (c ∷ s) = ap (λ (t : Str). c ∷ t) (bytes-marked s)

-- `urldecode` undoes `urlencode`, for every text of bytes from 16 to 127 without the percent sign,
-- and its loops end.
pub urldecode-urlencode : (s : Str) → All IsSafe s → urldecode (urlencode s) ≡ some s
unfolding urldecode Entry
urldecode-urlencode s h =
    ap urldecode (urlencode-render s h)
    ∙ replace_each-render (url_codes 256) (map marked s) (url_codes-IsTable 256 (omega arith))
        (marked-AreSafe s h)
    ∙ ap some
        (render-mark_each (url_codes 256) (map marked s) (marked-IsKeyed s h) ∙ bytes-marked s)
