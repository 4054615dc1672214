-- ===== src/Codec.antt =====
-- Container serialization, src/store.cpp and the templates at the top of
-- src/include/skivvy/store.h, at `str` items: escaping, bracketed objects, lists and pairs; and
-- the stream operators of `message`, src/message.cpp.
pub mod Escape
pub mod Objects
pub mod Containers
mod Tests
use skivvy.Base.{
  ℕ, zero, suc, ◌+◌, ◌-◌, Bool, true, false, Option, none, some, List, [], ◌∷◌, ◌++◌, ◌==◌,
  if◌then◌else◌, Str, length,
}
use skivvy.Hol.{Hol}
use skivvy.Stream.{Stream, good, clear, set_fail, peek, get, ignore}
use skivvy.Message.{Message, parse}

module _ (h : Hol) where
  -- `escape(s)`: the delimiters, the backslash first
  unfoldable pub escape : Str → Str
  escape s =
      let s1 = h.replace_all s (b'\\' ∷ []) (b'\\' ∷ b'0' ∷ []) in
      let s2 = h.replace_all s1 (b'{' ∷ []) (b'\\' ∷ b'1' ∷ []) in
      let s3 = h.replace_all s2 (b'}' ∷ []) (b'\\' ∷ b'2' ∷ []) in
      h.replace_all s3 (b',' ∷ []) (b'\\' ∷ b'3' ∷ [])

  -- `unescape(s)`: the same in reverse
  unfoldable pub unescape : Str → Str
  unescape s =
      let s1 = h.replace_all s (b'\\' ∷ b'3' ∷ []) (b',' ∷ []) in
      let s2 = h.replace_all s1 (b'\\' ∷ b'2' ∷ []) (b'}' ∷ []) in
      let s3 = h.replace_all s2 (b'\\' ∷ b'1' ∷ []) (b'{' ∷ []) in
      h.replace_all s3 (b'\\' ∷ b'0' ∷ []) (b'\\' ∷ [])

-- The loop of `getobject`: `d` is the depth, and every round reads a byte.
object_loop : ℕ → ℕ → Str → Stream → Str × Stream
object_loop zero d o is = (o, is)
object_loop (suc fuel) zero o is = (o, is)
object_loop (suc fuel) (suc d) o is =
    let (c, is') = get is in
    elim c [
      | none ↦ (o, is')
      | some b ↦
          let d' = if b == b'{' then suc (suc d) else if b == b'}' then d else suc d in
          object_loop fuel d' (if d' == 0 then o else o ++ b ∷ []) is'
    ]

-- `getobject(is, o)`: the new value of `o` and the stream.
unfoldable pub getobject : Str → Stream → Str × Stream
unfolding object_loop
getobject o is =
    let (p, is1) = peek is in
    elim p [
      | none ↦ (o, set_fail is1)
      | some c ↦
          let is2 = ignore is1 in
          if c == b'{' then object_loop (suc (length is2.buf)) 1 [] is2 else (o, set_fail is1)
    ]

module _ (h : Hol) where
  -- `extract(is, s)` at a string
  unfoldable pub extract : Str → Stream → Str × Stream
  extract old is = let (s, is') = h.sgl 10 old is in (if is'.fail then s else unescape h s, is')

  -- One item of `write_container`: `ss << i; sgl(ss, s); escape(s); os << '{' << s << '}'`. The
  -- string `s` outlives the rounds.
  write_item : Str → Str → Str × Str
  write_item s i =
      let (line, ss) = h.sgl 10 s (good i) in let e = escape h line in (e, b'{' ∷ (e ++ b'}' ∷ []))

  write_items : Str → List Str → Str
  write_items s [] = []
  write_items s (i ∷ items) = let (s', out) = write_item s i in out ++ write_items s' items

  -- `write_container(os, container)`: what is written.
  unfoldable pub write_container : List Str → Str
  unfolding write_items write_item
  write_container items = b'{' ∷ (write_items [] items ++ b'}' ∷ [])

  -- The loop of `read_container`; every round that goes on reads at least a byte.
  read_items : ℕ → Str → Stream → List Str
  read_items zero line iss = []
  read_items (suc fuel) line iss =
      let (o, iss') = getobject line iss in
      elim iss'.fail [ true ↦ [] | false ↦ (extract [] (good o)).0 ∷ read_items fuel o iss' ]

  -- `read_container(is, container)`, at a vector: its items and the stream.
  unfoldable pub read_container : Stream → List Str × Stream
  unfolding read_items
  read_container is =
      let (line, is') = getobject [] is in
      if is'.fail then ([], is') else (read_items (suc (length line)) line (good line), is')

  -- `os << p`
  unfoldable pub write_pair : Str × Str → Str
  write_pair (k, v) = b'{' ∷ b'{' ∷ (escape h k ++ b'}' ∷ b'{' ∷ (escape h v ++ b'}' ∷ b'}' ∷ []))

  -- `is >> p`: the pair keeps its old fields where nothing is extracted.
  unfoldable pub read_pair : Str × Str → Stream → (Str × Str) × Stream
  read_pair (k, v) is =
      let (line, is') = getobject [] is in
      let (key, i1) = getobject [] (good line) in
      let (val, i2) = getobject [] i1 in
      if is'.fail
      then ((k, v), is')
      else if i2.fail
      then ((k, v), set_fail is')
      else (((extract k (good key)).0, (extract v (good val)).0), is')

  -- `os << m` of a message
  unfoldable pub write_message : Message → Str
  write_message m = b'{' ∷ (escape h m.line ++ b'}' ∷ [])

  -- `is >> m` of a message
  unfoldable pub read_message : Message → ℕ → Stream → Message × Stream
  read_message m now is =
      let (o, is') = getobject [] is in
      let (done, m') = parse h m (unescape h o) now in
      if is'.fail then (m, is') else (m', if done then is' else set_fail is')
