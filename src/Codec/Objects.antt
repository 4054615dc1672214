-- ===== src/Codec/Objects.antt =====
-- `getobject` takes exactly the first balanced object off a stream.
use skivvy.Base.{
  ℕ, zero, suc, ◌<◌, Bool, true, false, ◌≡◌, refl, sym, ap, subst, ==_iff, ◌∙◌, [], ◌∷◌, ◌++◌,
  append_assoc, append-nil, arith, ◌==◌, if◌then◌else◌, Str, length, length-append, All, Bool-cases,
  inl, inr,
}
use mathlib.Core.Bool.{true≢false}
use skivvy.Stream.{Stream, good, peek, get, ignore}
use skivvy.Codec.{object_loop, getobject}
use skivvy.Codec.Escape.{IsPlain}

-- The depth behind a byte that is read at the depth `suc d`.
abbrev after : ℕ → ℕ → ℕ
after d c = if c == b'{' then suc (suc d) else if c == b'}' then d else suc d

-- The text never closes the depth that it begins at, and ends at depth 1.
unfoldable pub closes : ℕ → Str → Bool
closes zero s = false
closes (suc d) [] = d == 0
closes (suc d) (c ∷ s) = closes (after d c) s

suc_ne_zero : (d : ℕ) → (suc d == 0) ≡ false
suc_ne_zero d = ground arith

closes-pos : (e : ℕ) (s : Str) → closes e s ≡ true → (e == 0) ≡ false
unfolding closes
closes-pos zero s h = cc
closes-pos (suc d) s h = suc_ne_zero d

object_loop_all :
    (s : Str) (fuel e : ℕ) (o rest : Str)
    → length s < fuel
    → closes e s ≡ true
    → object_loop fuel e o (good (s ++ b'}' ∷ rest)) ≡ (o ++ s, good rest)
unfolding object_loop closes get
object_loop_all s zero e o rest k h = absurd (omega arith)
object_loop_all [] (suc fuel) zero o rest k h = cc
object_loop_all [] (suc zero) (suc d) o rest k h = ground (arith, append-nil o)
object_loop_all [] (suc (suc fuel)) (suc d) o rest k h = ground (arith, append-nil o)
object_loop_all (c ∷ s) (suc fuel) zero o rest k h = cc
object_loop_all (c ∷ s) (suc fuel) (suc d) o rest k h = rw (closes-pos (after d c) s h) (
    object_loop_all s fuel (after d c) (o ++ c ∷ []) rest (omega arith) h
    ∙ ap (λ (t : Str). (t, good rest)) (append_assoc o (c ∷ []) s))

-- A balanced object is taken whole, and what stands behind it is left.
pub getobject_all :
    (old s rest : Str)
    → closes 1 s ≡ true
    → getobject old (good (b'{' ∷ (s ++ b'}' ∷ rest))) ≡ (s, good rest)
unfolding getobject peek ignore
getobject_all old s rest h =
    object_loop_all s (suc (length (s ++ b'}' ∷ rest))) 1 [] rest
      (omega (arith, length-append s (b'}' ∷ rest))) h

-- What the loop has taken when it ends with a stream that is true.
abbrev Taken : ℕ → Str → Str → Str × Stream → Type 0
Taken e s o r = (t : Str) × (s ≡ t ++ b'}' ∷ r.1.buf) × (r.0 ≡ o ++ t) × (closes e t ≡ true)

object_loop_closed : (s : Str) (fuel : ℕ) (o : Str) → object_loop fuel zero o (good s) ≡ (o, good s)
unfolding object_loop
object_loop_closed s zero o = refl
object_loop_closed s (suc fuel) o = refl

-- The last byte closes the object.
last_byte : (d c : ℕ) → after d c ≡ 0 → (c ≡ b'}') × (d ≡ 0)
last_byte d c h = ground arith

module _ (c : ℕ) (s : Str) (fuel d : ℕ) (o : Str) where
  -- The loop behind the byte `c`, at the depth `e` that it leads to.
  behind : ℕ → Str × Stream
  behind e = object_loop fuel e (if e == 0 then o else o ++ c ∷ []) (good s)

  Taken-step :
      ((e : ℕ)
        → (object_loop fuel (suc e) (o ++ c ∷ []) (good s)).1.fail ≡ false
        → Taken (suc e) s (o ++ c ∷ []) (object_loop fuel (suc e) (o ++ c ∷ []) (good s)))
      → (e : ℕ) → after d c ≡ e
      → (behind e).1.fail ≡ false
      → Taken (suc d) (c ∷ s) o (behind e)
  unfolding behind closes
  Taken-step ih zero p h =
      let (at_close, outer) = last_byte d c p in
      rw (object_loop_closed s fuel o)
        ([], ap (λ (b : ℕ). b ∷ s) at_close, sym (append-nil o), rw outer)
  Taken-step ih (suc e) p h =
      let k = rw (suc_ne_zero e) at h in
      let (t, q, r, b) = ih e k in
      rw (suc_ne_zero e) (
        c ∷ t,
        ap (◌∷◌ c) q,
        r ∙ append_assoc o (c ∷ []) t,
        subst (λ k. closes k t ≡ true) (sym p) b,
      )

object_loop-Taken :
    (s : Str) (fuel d : ℕ) (o : Str)
    → length s < fuel
    → (object_loop fuel (suc d) o (good s)).1.fail ≡ false
    → Taken (suc d) s o (object_loop fuel (suc d) o (good s))
unfolding object_loop get behind
object_loop-Taken s zero d o k h = absurd (omega arith)
object_loop-Taken [] (suc fuel) d o k h = absurd (true≢false h)
object_loop-Taken (c ∷ s) (suc fuel) d o k h =
    Taken-step c s fuel d o (λ e. object_loop-Taken s fuel e (o ++ c ∷ []) (omega arith))
      (after d c) refl h

abbrev Sound : Str → Str × Stream → Type 0
Sound s r = (s ≡ b'{' ∷ (r.0 ++ b'}' ∷ r.1.buf)) × (closes 1 r.0 ≡ true)

getobject_open :
    (old s : Str)
    → (getobject old (good (b'{' ∷ s))).1.fail ≡ false
    → Sound (b'{' ∷ s) (getobject old (good (b'{' ∷ s)))
unfolding getobject peek ignore
getobject_open old s h =
    let (t, q, r, b) = object_loop-Taken s (suc (length s)) 0 [] (omega arith) h in
    (
      ap (◌∷◌ b'{') (q ∙ ap (λ u. u ++ b'}' ∷ (getobject old (good (b'{' ∷ s))).1.buf) (sym r)),
      subst (λ u. closes 1 u ≡ true) (sym r) b,
    )

getobject_other :
    (old s : Str) (c : ℕ) → (c == b'{') ≡ false → (getobject old (good (c ∷ s))).1.fail ≡ true
unfolding getobject peek ignore
getobject_other old s c e = rw e

-- Where `getobject` leaves the stream true, the text began with `{`, an object whose brackets
-- match, which is the result, and `}`; what follows is left.
pub getobject_sound :
    (old s : Str)
    → (getobject old (good s)).1.fail ≡ false
    → (s ≡ b'{' ∷ ((getobject old (good s)).0 ++ b'}' ∷ (getobject old (good s)).1.buf))
      × (closes 1 (getobject old (good s)).0 ≡ true)
getobject_sound old [] h = absurd (true≢false (unfold getobject peek in h))
getobject_sound old (c ∷ s) h = elim (Bool-cases (c == b'{')) [
  | inr bad ↦ absurd (true≢false (sym (getobject_other old s c bad) ∙ h))
  | inl at_open ↦
      subst
        (λ k.
          (getobject old (good (k ∷ s))).1.fail ≡ false
          → Sound (k ∷ s) (getobject old (good (k ∷ s))))
        (sym ((==_iff c b'{').0 at_open)) (getobject_open old s) h
]

plain_closes : (s t : Str) (d : ℕ) → All IsPlain s → closes (suc d) (s ++ t) ≡ closes (suc d) t
unfolding closes
plain_closes [] t d h = refl
plain_closes (c ∷ s) t d (h, hs) =
    let e : after d c ≡ suc d = ground arith in
    ap (λ k. closes k (s ++ t)) e ∙ plain_closes s t d hs

-- A text without brackets is balanced.
pub closes-plain : (s : Str) → All IsPlain s → closes 1 s ≡ true
closes-plain s h =
    subst (λ u. closes 1 u ≡ true) (append-nil s) (plain_closes s [] 0 h ∙ unfold closes in refl)

-- So is a text with a plain object in front of a balanced one.
pub closes-object : (s t : Str) → All IsPlain s → closes 1 (b'{' ∷ (s ++ b'}' ∷ t)) ≡ closes 1 t
closes-object s t h = unfold closes in (plain_closes s (b'}' ∷ t) 1 h)
