-- ===== src/Net/Headers.antt =====
-- A whole reply in chunks, src/network.cpp: its headers and its data are read back: theorem.
use skivvy.Base.{
  ℕ, zero, suc, ◌≤◌, ◌<◌, Bool, true, false, ◌≡◌, ◌≢◌, refl, ap, sym, subst, append-nil, ◌∙◌, List,
  [], ◌∷◌, ◌++◌, arith, Str, codes, str_eq, All, Lacks, length, length-append, is_empty, ◌&&◌, ◌||◌,
  Bool-cases, inl, inr, then_of, else_of, append_assoc, All-append,
}
use skivvy.Hol.{Hol}
use skivvy.Stream.{Stream, good, at_end, getline, read_word}
use skivvy.Stream.Laws.{NoSpace, getline_cut, getline_all, read_word_cut}
use skivvy.Net.Http.{
  HeaderMap, insert_header, around_key, header_line, headers_loop, read_http_headers,
  read_http_response_data, read_chunked_encoding,
}
use skivvy.Net.Ordered.{IsOrdered, values, insert_header-IsOrdered, values-insert_header}
use skivvy.Net.Chunks.{Chunk, IsChunk, chunks_text, chunks_data, read_chunked_encoding-chunks}

cons-ne_nil : (s : Str) (c : ℕ) (t : Str) → s ++ c ∷ t ≢ []
cons-ne_nil [] c t h = cc
cons-ne_nil (d ∷ s) c t h = cc

cons-is_empty : (s : Str) (c : ℕ) (t : Str) → is_empty (s ++ c ∷ t) ≡ false
cons-is_empty [] c t = refl
cons-is_empty (d ∷ s) c t = refl

module _ (h : Hol) where
  -- A header as a server writes it: `key: value`, with what trimming leaves of its parts.
  pub record IsHeader (k v : Str) : Type 0 where
    pub no_space : NoSpace k
    pub one_line : Lacks 10 k × Lacks 10 v
    pub line_trimmed : h.trim (k ++ b':' ∷ b' ' ∷ (v ++ 13 ∷ [])) ≡ k ++ b':' ∷ b' ' ∷ v
    pub key_trimmed : h.trim_of (k ++ b':' ∷ []) around_key ≡ k
    pub val_trimmed : h.trim (b' ' ∷ v) ≡ v

  abbrev pub AreHeaders : List (Str × Str) → Type 0
  AreHeaders [] = Unit
  AreHeaders ((k, v) ∷ ps) = IsHeader k v × AreHeaders ps

  -- The headers in the order that the map keeps.
  unfoldable pub inserted : List (Str × Str) → HeaderMap → HeaderMap
  inserted [] m = m
  inserted ((k, v) ∷ ps) m = inserted ps (insert_header (h.lower k) v m)

  header_line-IsHeader :
      (k v key val : Str) (m : HeaderMap)
      → IsHeader k v
      → header_line h (k ++ b':' ∷ b' ' ∷ v) key val m
        ≡ (h.lower k, v, insert_header (h.lower k) v m)
  unfolding header_line
  header_line-IsHeader k v key val m i =
      let word : read_word key (good (k ++ b':' ∷ b' ' ∷ v)) ≡ (k ++ b':' ∷ [], good (b' ' ∷ v)) =
        ap (λ (t : Str). read_word key (good t)) (sym (append_assoc k (b':' ∷ []) (b' ' ∷ v)))
        ∙ read_word_cut b' ' key (k ++ b':' ∷ []) v refl
            (All-append _ k (b':' ∷ []) i.no_space (refl, tt)) (cons-ne_nil k b':' []) in
      let rest : getline 10 val (good (b' ' ∷ v)) ≡ (b' ' ∷ v, at_end false) =
        getline_all 10 val (b' ' ∷ v) (omega arith, i.one_line.1) in
      rw (word, rest, i.key_trimmed, i.val_trimmed) refl

abbrev pub header_text : List (Str × Str) → Str → Str
header_text [] rest = 13 ∷ 10 ∷ rest
header_text ((k, v) ∷ ps) rest = (k ++ b':' ∷ b' ' ∷ (v ++ 13 ∷ [])) ++ 10 ∷ header_text ps rest

module _ (h : Hol) (blank : is_empty (h.trim (13 ∷ [])) ≡ true) where
  last_line :
      (fuel : ℕ) (line key val rest : Str) (m : HeaderMap)
      → headers_loop h (suc fuel) line key val (good (13 ∷ 10 ∷ rest)) m ≡ (m, good rest)
  unfolding headers_loop
  last_line fuel line key val rest m =
      rw (getline_cut 10 line (13 ∷ []) rest (omega arith), blank) refl

  header_round :
      (fuel : ℕ) (line key val k v rest : Str) (m : HeaderMap)
      → IsHeader h k v
      → headers_loop h
          (suc fuel)
          line
          key
          val
          (good ((k ++ b':' ∷ b' ' ∷ (v ++ 13 ∷ [])) ++ 10 ∷ rest))
          m
        ≡ headers_loop h fuel
            (k ++ b':' ∷ b' ' ∷ v)
            (h.lower k)
            v
            (good rest)
            (insert_header (h.lower k) v m)
  unfolding headers_loop
  header_round fuel line key val k v rest m i =
      let lacks =
        All-append (λ d. d ≢ 10) k (b':' ∷ b' ' ∷ (v ++ 13 ∷ [])) i.one_line.0
          (
            omega arith,
            (omega arith, All-append (λ d. d ≢ 10) v (13 ∷ []) i.one_line.1 (omega arith, tt)),
          ) in
      rw
        (
          getline_cut 10 line (k ++ b':' ∷ b' ' ∷ (v ++ 13 ∷ [])) rest lacks,
          i.line_trimmed,
          cons-is_empty k b':' (b' ' ∷ v),
          header_line-IsHeader h k v key val m i,
        )
        refl

  headers_loop-text :
      (ps : List (Str × Str)) (fuel : ℕ) (line key val rest : Str) (m : HeaderMap)
      → AreHeaders h ps
      → length ps < fuel
      → headers_loop h fuel line key val (good (header_text ps rest)) m
        ≡ (inserted h ps m, good rest)
  unfolding inserted
  headers_loop-text ps zero line key val rest m i l = absurd (omega arith)
  headers_loop-text [] (suc fuel) line key val rest m i l = last_line fuel line key val rest m
  headers_loop-text ((k, v) ∷ ps) (suc fuel) line key val rest m (i, is) l =
      header_round fuel line key val k v (header_text ps rest) m i
      ∙ headers_loop-text ps fuel (k ++ b':' ∷ b' ' ∷ v) (h.lower k) v rest
          (insert_header (h.lower k) v m) is (omega arith)

  length-header_text :
      (ps : List (Str × Str)) (rest : Str) → length ps ≤ length (header_text ps rest)
  length-header_text [] rest = omega arith
  length-header_text ((k, v) ∷ ps) rest = omega (
    arith,
    length-header_text ps rest,
    length-append {0} (k ++ b':' ∷ b' ' ∷ (v ++ 13 ∷ [])) (10 ∷ header_text ps rest),
  )

  read_http_headers-text :
      (status : Str) (ps : List (Str × Str)) (rest : Str)
      → Lacks 10 status
      → AreHeaders h ps
      → read_http_headers h (good (status ++ 10 ∷ header_text ps rest)) []
        ≡ (inserted h ps [], good rest)
  unfolding read_http_headers
  read_http_headers-text status ps rest l i =
      rw (getline_cut 10 [] status (header_text ps rest) l) (
        headers_loop-text ps (suc (length (header_text ps rest))) status [] [] rest [] i
          (omega (arith, length-header_text ps rest)))

-- Whether a header says that the data comes in chunks, and whether it gives its length.
abbrev pub is_chunked : Str × Str → Bool
is_chunked p = str_eq p.0 (codes "transfer-encoding") && str_eq p.1 (codes "chunked")

abbrev pub gives_length : Str × Str → Bool
gives_length p = str_eq p.0 (codes "content-length")

abbrev pub any : (Str × Str → Bool) → List (Str × Str) → Bool
any f [] = false
any f (p ∷ m) = f p || any f m

response-chunked :
    (m : HeaderMap) (is : Stream) (old : Str)
    → any is_chunked m ≡ true
    → any gives_length m ≡ false
    → read_http_response_data is m old ≡ read_chunked_encoding is
unfolding read_http_response_data
response-chunked [] is old h g = cc
response-chunked ((k, v) ∷ m) is old h g = elim (Bool-cases (is_chunked (k, v))) [
  | inl e ↦ then_of (is_chunked (k, v)) _ _ e
  | inr e ↦
      let l : gives_length (k, v) ≡ false = ground arith in
      let h' : any is_chunked m ≡ true = ground arith in
      let g' : any gives_length m ≡ false = ground arith in
      else_of (is_chunked (k, v)) _ _ e
      ∙ else_of (gives_length (k, v)) _ _ l
      ∙ response-chunked m is old h' g'
]

any-insert_header :
    (f : Str × Str → Bool) (k v : Str) (m : HeaderMap)
    → any f (insert_header k v m) ≡ (f (k, v) || any f m)
unfolding insert_header
any-insert_header f k v [] = refl
any-insert_header f k v ((j, u) ∷ m) = ground (arith, any-insert_header f k v m)

module _ (h : Hol) where
  -- The headers with their keys in lower case.
  abbrev pub lowered : List (Str × Str) → List (Str × Str)
  lowered [] = []
  lowered ((k, v) ∷ ps) = (h.lower k, v) ∷ lowered ps

  any-inserted :
      (f : Str × Str → Bool) (ps : List (Str × Str)) (m : HeaderMap)
      → any f (inserted h ps m) ≡ (any f (lowered ps) || any f m)
  unfolding inserted
  any-inserted f [] m = refl
  any-inserted f ((k, v) ∷ ps) m =
      any-inserted f ps (insert_header (h.lower k) v m)
      ∙ ground (arith, any-insert_header f (h.lower k) v m)

  inserted-IsOrdered :
      (ps : List (Str × Str)) (m : HeaderMap) → IsOrdered m → IsOrdered (inserted h ps m)
  unfolding inserted
  inserted-IsOrdered [] m o = o
  inserted-IsOrdered ((k, v) ∷ ps) m o =
      inserted-IsOrdered ps (insert_header (h.lower k) v m)
        (insert_header-IsOrdered (h.lower k) v m o)

  values-inserted :
      (j : Str) (ps : List (Str × Str)) (m : HeaderMap)
      → IsOrdered m
      → values j (inserted h ps m) ≡ values j m ++ values j (lowered ps)
  unfolding inserted
  values-inserted j [] m o = sym (append-nil (values j m))
  values-inserted j ((k, v) ∷ ps) m o =
      values-inserted j ps (insert_header (h.lower k) v m)
        (insert_header-IsOrdered (h.lower k) v m o)
      ∙ ap (λ l. l ++ values j (lowered ps)) (values-insert_header j (h.lower k) v m o)
      ∙ append_assoc (values j m) (values j ((h.lower k, v) ∷ [])) (values j (lowered ps))
      ∙ ap (◌++◌ (values j m)) (ground arith)

  -- A reply with the status `200 OK`, headers and data in chunks: the headers that are read stand in the
  -- order of their keys, in lower case, and for every key `j` their values are those of the reply, in the
  -- order in which they came; and the data is read back whole. A header says that the data comes in
  -- chunks and none gives its length, each header is one line that trimming leaves as it is, and the line
  -- in front of the data is blank.
  pub read_reply-chunks :
      (version : Str) (ps : List (Str × Str)) (cs : List Chunk) (tail j : Str)
      → is_empty (h.trim (13 ∷ [])) ≡ true
      → Lacks 10 version
      → AreHeaders h ps
      → any is_chunked (lowered ps) ≡ true
      → any gives_length (lowered ps) ≡ false
      → All IsChunk cs
      → let reply = good (
          (version ++ codes " 200 OK\r")
          ++ 10 ∷ header_text ps (chunks_text cs (b'0' ∷ 13 ∷ tail))) in
        let (headers, is) = read_http_headers h reply [] in
        IsOrdered headers
        × (values j headers ≡ values j (lowered ps))
        × (read_http_response_data is headers [] ≡ (chunks_data cs, good (13 ∷ tail)))
  read_reply-chunks version ps cs tail j b l i c g k =
      let body = chunks_text cs (b'0' ∷ 13 ∷ tail) in
      let status = version ++ codes " 200 OK\r" in
      let line : Lacks 10 status = All-append _ version (codes " 200 OK\r") l (omega arith) in
      let e = read_http_headers-text h b status ps body line i in
      let same : (read_http_headers h (good (status ++ 10 ∷ header_text ps body)) []).0
          ≡ inserted h ps [] =
        ap (λ (p : HeaderMap × Stream). p.0) e in
      let chunked : any is_chunked (inserted h ps []) ≡ true =
        any-inserted is_chunked ps [] ∙ ground arith in
      let unknown : any gives_length (inserted h ps []) ≡ false =
        any-inserted gives_length ps [] ∙ ground arith in
      (
        subst IsOrdered (sym same) (inserted-IsOrdered ps [] tt),
        ap (values j) same ∙ values-inserted j ps [] tt,
        ap (λ (p : HeaderMap × Stream). read_http_response_data p.1 p.0 []) e
            ∙ response-chunked (inserted h ps []) (good body) [] chunked unknown
            ∙ read_chunked_encoding-chunks cs tail k,
      )
