-- ===== src/Net/Chunks.antt =====
-- A reply in chunks is read back, src/network.cpp: theorem.
use skivvy.Base.{
  ℕ, zero, suc, ◌+◌, ◌*◌, ◌≤◌, ◌<◌, true, false, ◌&&◌, ◌||◌, ◌≡◌, ◌≢◌, refl, ap, ◌∙◌, else_of, List,
  [], ◌∷◌, ◌++◌, arith, Str, All, Lacks, length, length-append, is_space, ltb, ◌==◌,
}
use skivvy.Stream.{Stream, good, get}
use skivvy.Stream.Laws.{getline_cut}
use skivvy.Bot.Text.{npos}
use skivvy.Net.Http.{
  is_hex, hex_value, hex_run, hex_number, hex_prefixed, read_hex, read_bytes, chunks_loop,
  read_chunked_encoding,
}

-- A chunk: the digits of its length, a line end that may hold extensions, and its data.
pub record Chunk : Type 0 where
  pub first : ℕ
  pub digits : Str
  pub mark : ℕ
  pub extension : Str
  pub bytes : Str

-- Hexadecimal digits in the length, which is not 0 and fits 64 bits; no digit behind them.
pub record IsChunk (c : Chunk) : Type 0 where
  pub digits_hex : All (λ d. is_hex d ≡ true) (c.first ∷ c.digits)
  pub mark_other : (is_hex c.mark ≡ false) × (c.mark ≢ b'x') × (c.mark ≢ b'X') × (c.mark ≢ 10)
  pub extension_line : Lacks 10 c.extension
  pub length_is : (hex_run 0 (c.first ∷ c.digits)).0 ≡ length c.bytes
  pub not_last : c.bytes ≢ []
  pub fits : length c.bytes ≤ npos

-- The text of chunks, with what follows them.
abbrev pub chunk_text : Chunk → Str → Str
chunk_text c rest =
    c.first ∷ (c.digits ++ c.mark ∷ (c.extension ++ 10 ∷ (c.bytes ++ 13 ∷ 10 ∷ rest)))

abbrev pub chunks_text : List Chunk → Str → Str
chunks_text [] tail = tail
chunks_text (c ∷ cs) tail = chunk_text c (chunks_text cs tail)

abbrev pub chunks_data : List Chunk → Str
chunks_data [] = []
chunks_data (c ∷ cs) = c.bytes ++ chunks_data cs

hex_run-append :
    (v m : ℕ) (ds s : Str)
    → All (λ d. is_hex d ≡ true) ds
    → is_hex m ≡ false
    → hex_run v (ds ++ m ∷ s) ≡ ((hex_run v ds).0, m ∷ s)
unfolding hex_run
hex_run-append v m [] s h k = ground arith
hex_run-append v m (d ∷ ds) s (h, hs) k =
    ground (arith, hex_run-append (v * 16 + hex_value d) m ds s hs k)

read_bytes-append : (d s : Str) → read_bytes (length d) (good (d ++ s)) ≡ (d, good s)
unfolding read_bytes get
read_bytes-append [] s = refl
read_bytes-append (c ∷ d) s = ap (λ (p : Str × Stream). (c ∷ p.0, p.1)) (read_bytes-append d s)

-- A digit is no space and no sign.
hex_plain :
    (d : ℕ) → is_hex d ≡ true → (is_space d ≡ false) × ((d == b'+') ≡ false) × ((d == b'-') ≡ false)
hex_plain d h = ground arith

hex_number-append :
    (c m : ℕ) (ds s : Str)
    → All (λ d. is_hex d ≡ true) (c ∷ ds)
    → is_hex m ≡ false
    → (hex_run 0 (c ∷ ds)).0 ≤ npos
    → hex_number (c ∷ (ds ++ m ∷ s)) ≡ ((hex_run 0 (c ∷ ds)).0, good (m ∷ s))
hex_number-append c m ds s (h, hs) k l =
    rw (h, hex_run-append 0 m (c ∷ ds) s (h, hs) k)
      (else_of (ltb npos (hex_run 0 (c ∷ ds)).0) _ _ (ground arith))

hex_prefixed-append :
    (c m : ℕ) (ds s : Str)
    → All (λ d. is_hex d ≡ true) (c ∷ ds)
    → (is_hex m ≡ false) × (m ≢ b'x') × (m ≢ b'X') × (m ≢ 10)
    → (hex_run 0 (c ∷ ds)).0 ≤ npos
    → hex_prefixed (c ∷ (ds ++ m ∷ s)) ≡ ((hex_run 0 (c ∷ ds)).0, good (m ∷ s))
hex_prefixed-append c m [] s h (k, x, y, z) l =
    let e : (c == b'0' && (m == b'x' || m == b'X')) ≡ false = ground arith in
    else_of _ _ _ e ∙ hex_number-append c m [] s h k l
hex_prefixed-append c m (d ∷ ds) s (h, (g, hs)) (k, x, y, z) l =
    let e : (c == b'0' && (d == b'x' || d == b'X')) ≡ false = ground arith in
    else_of _ _ _ e ∙ hex_number-append c m (d ∷ ds) s (h, (g, hs)) k l

read_hex-append :
    (lead : Str) (c m : ℕ) (ds s : Str)
    → All (λ d. is_space d ≡ true) lead
    → All (λ d. is_hex d ≡ true) (c ∷ ds)
    → (is_hex m ≡ false) × (m ≢ b'x') × (m ≢ b'X') × (m ≢ 10)
    → (hex_run 0 (c ∷ ds)).0 ≤ npos
    → read_hex (good (lead ++ c ∷ (ds ++ m ∷ s))) ≡ ((hex_run 0 (c ∷ ds)).0, good (m ∷ s))
unfolding read_hex
read_hex-append [] c m ds s w (h, hs) k l =
    let (a, p, q) = hex_plain c h in rw (a, p, q) (hex_prefixed-append c m ds s (h, hs) k l)
read_hex-append (x ∷ lead) c m ds s (w, ws) h k l = rw w (read_hex-append lead c m ds s ws h k l)

-- The white space before the digits: the line end of the chunk before, or none.
abbrev IsLead : Str → Type 0
IsLead = All (λ d. is_space d ≡ true)

not_zero : (s : Str) → s ≢ [] → (length s == 0) ≡ false
not_zero [] h = absurd (h refl)
not_zero (c ∷ s) h = ground arith

step_chunk :
    (fuel : ℕ) (line lead : Str) (c : Chunk) (rest : Str)
    → IsLead lead
    → IsChunk c
    → chunks_loop (suc fuel) line (good (lead ++ chunk_text c rest)) ≡ (
        let (ds, is) = chunks_loop fuel (c.mark ∷ c.extension) (good (13 ∷ 10 ∷ rest)) in
        (c.bytes ++ ds, is))
unfolding chunks_loop
step_chunk fuel line lead c rest w k =
    let body = c.bytes ++ 13 ∷ 10 ∷ rest in
    let le : (hex_run 0 (c.first ∷ c.digits)).0 ≤ npos = omega (arith, k.length_is, k.fits) in
    let hex =
      read_hex-append lead c.first c.mark c.digits (c.extension ++ 10 ∷ body) w k.digits_hex
        k.mark_other le
      ∙ ap (λ (n : ℕ). (n, good (c.mark ∷ (c.extension ++ 10 ∷ body)))) k.length_is in
    let line_end =
      getline_cut 10 line (c.mark ∷ c.extension) body (k.mark_other.3, k.extension_line) in
    let some_length : (length c.bytes == 0) ≡ false = not_zero c.bytes k.not_last in
    rw (hex, some_length, line_end, read_bytes-append c.bytes (13 ∷ 10 ∷ rest)) refl

last_chunk :
    (fuel : ℕ) (line lead tail : Str)
    → IsLead lead
    → chunks_loop (suc fuel) line (good (lead ++ b'0' ∷ 13 ∷ tail)) ≡ ([], good (13 ∷ tail))
unfolding chunks_loop hex_run
last_chunk fuel line lead tail w =
    rw
      (read_hex-append lead b'0' 13 [] tail w (refl, tt)
        (refl, omega arith, omega arith, omega arith) (omega arith))
      refl

chunks_loop-text :
    (cs : List Chunk) (fuel : ℕ) (line lead tail : Str)
    → IsLead lead
    → All IsChunk cs
    → length cs < fuel
    → chunks_loop fuel line (good (lead ++ chunks_text cs (b'0' ∷ 13 ∷ tail)))
      ≡ (chunks_data cs, good (13 ∷ tail))
chunks_loop-text cs zero line lead tail w h l = absurd (omega arith)
chunks_loop-text [] (suc fuel) line lead tail w h l = last_chunk fuel line lead tail w
chunks_loop-text (c ∷ cs) (suc fuel) line lead tail w (h, hs) l =
    step_chunk fuel line lead c (chunks_text cs (b'0' ∷ 13 ∷ tail)) w h
    ∙ ap (λ (p : Str × Stream). (c.bytes ++ p.0, p.1))
        (chunks_loop-text cs fuel (c.mark ∷ c.extension) (13 ∷ 10 ∷ []) tail (refl, (refl, tt)) hs
          (omega arith))

length-chunks_text : (cs : List Chunk) (tail : Str) → length cs ≤ length (chunks_text cs tail)
length-chunks_text [] tail = omega arith
length-chunks_text (c ∷ cs) tail = omega (
  arith,
  length-chunks_text cs tail,
  length-append {0} c.digits
      (c.mark ∷ (c.extension ++ 10 ∷ (c.bytes ++ 13 ∷ 10 ∷ chunks_text cs tail))),
  length-append {0} c.extension (10 ∷ (c.bytes ++ 13 ∷ 10 ∷ chunks_text cs tail)),
  length-append {0} c.bytes (13 ∷ 10 ∷ chunks_text cs tail),
)

-- Data that is sent in chunks is read back whole, whatever the digits of the lengths and the
-- extensions behind them, and the stream stands at the end of the line of the last chunk.
pub read_chunked_encoding-chunks :
    (cs : List Chunk) (tail : Str)
    → All IsChunk cs
    → read_chunked_encoding (good (chunks_text cs (b'0' ∷ 13 ∷ tail)))
      ≡ (chunks_data cs, good (13 ∷ tail))
unfolding read_chunked_encoding
read_chunked_encoding-chunks cs tail h =
    chunks_loop-text cs (suc (length (chunks_text cs (b'0' ∷ 13 ∷ tail)))) [] [] tail tt h
      (omega (arith, length-chunks_text cs (b'0' ∷ 13 ∷ tail)))
