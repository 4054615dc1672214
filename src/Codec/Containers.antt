-- ===== src/Codec/Containers.antt =====
-- What is written as a list, a pair or a message is read back.
use skivvy.Base.{
  ℕ, zero, suc, ◌≤◌, ◌<◌, true, false, ◌≡◌, refl, sym, ap, ◌∙◌, List, [], ◌∷◌, ◌++◌, append_assoc,
  arith, if◌then◌else◌, Str, is_empty, length, length-append, All, Lacks,
}
use skivvy.Hol.{Hol, IsHol}
use skivvy.Stream.{Stream, good, set_fail, peek}
use skivvy.Stream.Laws.{getline_all, getline_cut}
use skivvy.Message.{Message, parse}
use skivvy.Codec.{
  escape, unescape, getobject, extract, write_item, write_items, write_container, read_items,
  read_container, write_pair, read_pair, write_message, read_message,
}
use skivvy.Codec.Escape.{unescape-escape, escape-IsPlain, escape-Lacks, unescape-nil}
use skivvy.Codec.Objects.{closes, getobject_all, closes-plain, closes-object}

module _ {h : Hol} (l : IsHol h) where
  unescape_line : (e : Str) → (if is_empty e then e else unescape h e) ≡ unescape h e
  unescape_line [] = sym (unescape-nil l)
  unescape_line (c ∷ e) = refl

  -- An escaped string without line feeds is extracted whole.
  extract-escape : (old s : Str) → Lacks 10 s → (extract h old (good (escape h s))).0 ≡ s
  unfolding extract
  extract-escape old s k =
      rw
        (
          l.sgl_getline 10 old (good (escape h s)),
          getline_all 10 old (escape h s) (escape-Lacks l s k),
        )
        (unescape_line (escape h s) ∙ unescape-escape l s)

  write_items-cons :
      (s i : Str) (items : List Str)
      → Lacks 10 i
      → write_items h s (i ∷ items) ≡ b'{' ∷ (escape h i ++ b'}' ∷ write_items h (escape h i) items)
  unfolding write_items write_item
  write_items-cons s i items k =
      rw (l.sgl_getline 10 s (good i), getline_all 10 s i k)
        (ap (◌∷◌ b'{') (append_assoc (escape h i) (b'}' ∷ []) (write_items h (escape h i) items)))

  write_items-closes :
      (s : Str) (items : List Str) → All (Lacks 10) items → closes 1 (write_items h s items) ≡ true
  write_items-closes s [] k = unfold write_items closes in refl
  write_items-closes s (i ∷ items) (k, ks) = rw (write_items-cons s i items k) (
      closes-object (escape h i) (write_items h (escape h i) items) (escape-IsPlain l i)
      ∙ write_items-closes (escape h i) items ks)

  length-write_items :
      (s : Str) (items : List Str)
      → All (Lacks 10) items
      → length items ≤ length (write_items h s items)
  length-write_items s [] k = omega arith
  length-write_items s (i ∷ items) (k, ks) = omega (
    arith,
    ap length (write_items-cons s i items k),
    length-append (escape h i) (b'}' ∷ write_items h (escape h i) items),
    length-write_items (escape h i) items ks,
  )

  read-write_items :
      (fuel : ℕ) (line s : Str) (items : List Str)
      → length items < fuel
      → All (Lacks 10) items
      → read_items h fuel line (good (write_items h s items)) ≡ items
  unfolding read_items
  read-write_items zero line s items lt k = absurd (omega arith)
  read-write_items (suc fuel) line s [] lt k = unfold write_items getobject peek in refl
  read-write_items (suc fuel) line s (i ∷ items) lt (k, ks) =
      let e = escape h i in
      let w = write_items h e items in
      let round : Str × Stream → List Str = λ r. elim r.1.fail [
        | true ↦ []
        | false ↦ (extract h [] (good r.0)).0 ∷ read_items h fuel r.0 r.1
      ] in
      let taken = getobject_all line e w (closes-plain e (escape-IsPlain l i)) in
      rw (write_items-cons s i items k) (
        ap round taken
        ∙ rw (extract-escape [] i k, read-write_items fuel e e items (omega arith) ks))

  -- A list of strings without line feeds is read back from what is written of it, and the stream
  -- stands behind it.
  pub read-write_container :
      (items : List Str) (rest : Str)
      → All (Lacks 10) items
      → read_container h (good (write_container h items ++ rest)) ≡ (items, good rest)
  unfolding read_container write_container
  read-write_container items rest k =
      let w = write_items h [] items in
      rw (append_assoc w (b'}' ∷ []) rest, getobject_all [] w rest (write_items-closes [] items k))
        (ap (λ r. (r, good rest))
          (read-write_items (suc (length w)) w [] items
            (omega (arith, length-write_items [] items k)) k))

  -- Of an item that holds a line feed only what stands before the first one is written.
  pub write_container_line :
      (i rest : Str)
      → Lacks 10 i
      → write_container h ((i ++ 10 ∷ rest) ∷ []) ≡ write_container h (i ∷ [])
  unfolding write_container write_items write_item
  write_container_line i rest k = rw (
    l.sgl_getline 10 [] (good (i ++ 10 ∷ rest)),
    l.sgl_getline 10 [] (good i),
    getline_cut 10 [] i rest k,
    getline_all 10 [] i k,
  )

  -- The text between the outer brackets of a pair.
  pair_text : Str → Str → Str
  pair_text ek ev = b'{' ∷ (ek ++ b'}' ∷ b'{' ∷ (ev ++ b'}' ∷ []))

  pair_regroup :
      (ek ev rest : Str)
      → b'{' ∷ ((ek ++ b'}' ∷ b'{' ∷ (ev ++ b'}' ∷ b'}' ∷ [])) ++ rest)
        ≡ pair_text ek ev ++ b'}' ∷ rest
  unfolding pair_text
  pair_regroup ek ev rest = simp append_assoc

  pair-closes : (k v : Str) → closes 1 (pair_text (escape h k) (escape h v)) ≡ true
  unfolding pair_text
  pair-closes k v =
      closes-object (escape h k) (b'{' ∷ (escape h v ++ b'}' ∷ [])) (escape-IsPlain l k)
      ∙ closes-object (escape h v) [] (escape-IsPlain l v)
      ∙ unfold closes in refl

  pair_first :
      (k v : Str)
      → getobject [] (good (pair_text (escape h k) (escape h v)))
        ≡ (escape h k, good (b'{' ∷ (escape h v ++ b'}' ∷ [])))
  unfolding pair_text
  pair_first k v =
      getobject_all [] (escape h k) (b'{' ∷ (escape h v ++ b'}' ∷ []))
        (closes-plain (escape h k) (escape-IsPlain l k))

  -- A pair of strings without line feeds is read back from what is written of it.
  pub read-write_pair :
      (old : Str × Str) (k v rest : Str)
      → Lacks 10 k
      → Lacks 10 v
      → read_pair h old (good (write_pair h (k, v) ++ rest)) ≡ ((k, v), good rest)
  unfolding read_pair write_pair
  read-write_pair (a, b) k v rest nk nv =
      let ek = escape h k in
      let ev = escape h v in
      rw (
        pair_regroup ek ev rest,
        getobject_all [] (pair_text ek ev) rest (pair-closes k v),
        pair_first k v,
        getobject_all [] ev [] (closes-plain ev (escape-IsPlain l v)),
        extract-escape a k nk,
        extract-escape b v nv,
      )

  -- A message is read back by parsing its line again.
  pub read-write_message :
      (old m : Message) (now : ℕ) (rest : Str)
      → read_message h old now (good (write_message h m ++ rest)) ≡ (
        (parse h old m.line now).1,
        if (parse h old m.line now).0 then good rest else set_fail (good rest),
      )
  unfolding read_message write_message
  read-write_message old m now rest =
      let e = escape h m.line in
      rw (
        append_assoc e (b'}' ∷ []) rest,
        getobject_all [] e rest (closes-plain e (escape-IsPlain l m.line)),
        unescape-escape l m.line,
      )
