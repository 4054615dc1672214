-- ===== src/Colors/Nearest.antt =====
-- The index that `closest_color` returns is that of a nearest color.
use skivvy.Base.{
  ◌-◌, false, ℕ, zero, suc, ◌+◌, ◌*◌, ◌≤◌, ◌<◌, true, ◌≡◌, refl, ap, ◌∙◌, subst, ◌⊎◌, inl, inr,
  some, List, [], ◌∷◌, arith, ltb, leb, ltb→lt, get_elem?, Bool-cases, All,
}
use native.Mathlib.Nat.{mul-le-mul_right}
use skivvy.Colors.{
  Color, irc_colors, difference, root_below, root, distance, closest_loop, closest_color,
}

-- All colors of the list are at least that far.
abbrev pub Beyond : ℕ → Color → List Color → Type 0
Beyond d c ks = All (λ k. d ≤ distance k c) ks

Beyond-le : (d e : ℕ) (c : Color) (ks : List Color) → d ≤ e → Beyond e c ks → Beyond d c ks
Beyond-le d e c [] h k = tt
Beyond-le d e c (x ∷ ks) h (k, ks') = (omega arith, Beyond-le d e c ks h ks')

-- The loop keeps its index and no color of the rest is nearer than its distance, or it returns the
-- index of a color of the rest that is nearer, and none of the rest is nearer than that.
abbrev Result : List Color → Color → ℕ → ℕ → ℕ → ℕ → Type 0
Result ks c i index min out =
    ((out ≡ index) × Beyond min c ks)
    ⊎ ((j : ℕ) × (k : Color) × (out ≡ i + j)
        × (get_elem? ks j ≡ some k)
        × (distance k c < min)
        × Beyond (distance k c) c ks)

closest_loop-Result :
    (ks : List Color) (c : Color) (i index min : ℕ)
    → Result ks c i index min (closest_loop ks c i index min)
unfolding closest_loop
closest_loop-Result [] c i index min = inl (refl, tt)
closest_loop-Result (x ∷ ks) c i index min = elim (Bool-cases (ltb (distance x c) min)) [
  | inl e ↦
      let near = ltb→lt (distance x c) min e in
      rw (e, closest_loop)
        (elim (closest_loop-Result ks c (suc i) i (distance x c)) [
          | inl (p, q) ↦ inr (0, x, omega (arith, p), refl, near, (omega arith, q))
          | inr (j, k, p, q, r, t) ↦
              inr (suc j, k, omega (arith, p), q, omega arith, (omega arith, t))
        ])
  | inr e ↦
      let far : min ≤ distance x c = ground arith in
      rw (e, closest_loop)
        (elim (closest_loop-Result ks c (suc i) index min) [
          | inl (p, q) ↦ inl (p, (far, q))
          | inr (j, k, p, q, r, t) ↦ inr (suc j, k, omega (arith, p), q, r, (omega arith, t))
        ])
]

-- The root squared is not above the number.
root_below-le : (k n : ℕ) → root_below k n * root_below k n ≤ n
unfolding root_below
root_below-le zero n = omega arith
root_below-le (suc k) n = elim (Bool-cases (leb (suc k * suc k) n)) [
  | inl e ↦ rw (e, root_below) (leb-le e)
  | inr e ↦ rw (e, root_below) (root_below-le k n)
]
  where
    leb-le : leb (suc k * suc k) n ≡ true → suc k * suc k ≤ n
    leb-le e = ground arith

square_bound : (x : ℕ) → x ≤ 255 → x * x ≤ 65025
square_bound x h = omega (arith, mul-le-mul_right x h)

root_bound : (r : ℕ) → r * r ≤ 195075 → r ≤ 441
root_bound r h = elim (Bool-cases (ltb r 442)) [
  | inl e ↦ small (ltb→lt r 442 e)
  | inr e ↦ let big : 442 ≤ r = ground arith in absurd (omega (arith, mul-le-mul_right r big))
]
  where
    small : r < 442 → r ≤ 441
    small k = omega arith

-- The parts of a color are bytes.
abbrev pub IsByteColor : Color → Type 0
IsByteColor c = (c.r ≤ 255) × (c.g ≤ 255) × (c.b ≤ 255)

abbrev white : Color
white = record { r = 255; g = 255; b = 255 }

difference-le : (x : ℕ) → x ≤ 255 → difference 255 x ≤ 255
unfolding difference
difference-le x h = ground arith

distance-white : (c : Color) → IsByteColor c → distance white c ≤ 441
unfolding distance root
distance-white c (hr, hg, hb) = root_bound (distance white c) (
    omega (
      arith,
      root_below-le 511 (
          difference 255 c.r * difference 255 c.r
          + difference 255 c.g * difference 255 c.g
          + difference 255 c.b * difference 255 c.b),
      square_bound (difference 255 c.r) (difference-le c.r hr),
      square_bound (difference 255 c.g) (difference-le c.g hg),
      square_bound (difference 255 c.b) (difference-le c.b hb),
    ))

-- How far two numbers are apart, and the sum of the squares of that for the parts of two colors.
abbrev pub apart : ℕ → ℕ → ℕ
apart a b = (a - b) + (b - a)

abbrev pub squares : Color → Color → ℕ
squares k c =
    apart k.r c.r * apart k.r c.r + apart k.g c.g * apart k.g c.g + apart k.b c.b * apart k.b c.b

difference-apart : (a b : ℕ) → difference a b ≡ apart a b
unfolding difference
difference-apart a b = ground arith

-- `d` is the whole part of the root of `n`.
abbrev pub IsRoot : ℕ → ℕ → Type 0
IsRoot n d = (d * d ≤ n) × (n < suc d * suc d)

root_below-IsRoot : (k n : ℕ) → n < suc k * suc k → IsRoot n (root_below k n)
unfolding root_below
root_below-IsRoot zero n h = (omega arith, h)
root_below-IsRoot (suc k) n h = elim (Bool-cases (leb (suc k * suc k) n)) [
  | inl e ↦ rw e (leb-le e, h)
  | inr e ↦ rw e (root_below-IsRoot k n (leb-lt e))
]
  where
    leb-le : leb (suc k * suc k) n ≡ true → suc k * suc k ≤ n
    leb-le e = ground arith

    leb-lt : leb (suc k * suc k) n ≡ false → n < suc k * suc k
    leb-lt e = ground arith

apart-le : (a b : ℕ) → a ≤ 255 → b ≤ 255 → apart a b ≤ 255
apart-le a b h k = ground arith

distance-IsRoot :
    (k c : Color) → IsByteColor k → IsByteColor c → IsRoot (squares k c) (distance k c)
unfolding distance root
distance-IsRoot k c (r, g, b) (r', g', b') =
    rw (difference-apart k.r c.r, difference-apart k.g c.g, difference-apart k.b c.b)
      (root_below-IsRoot 511 (squares k c) (
        omega (
          arith,
          square_bound (apart k.r c.r) (apart-le k.r c.r r r'),
          square_bound (apart k.g c.g) (apart-le k.g c.g g g'),
          square_bound (apart k.b c.b) (apart-le k.b c.b b b'),
        )))

nearest :
    (c : Color)
    → IsByteColor c
    → (k : Color) × (get_elem? irc_colors (closest_color c) ≡ some k)
      × Beyond (distance k c) c irc_colors
unfolding closest_color root root_below
nearest c h = elim (closest_loop-Result irc_colors c 0 0 441) [
  | inl (p, q) ↦ (
    white,
    ap (get_elem? irc_colors) p,
    Beyond-le (distance white c) 441 c irc_colors (distance-white c h) q,
  )
  | inr (j, k, p, q, r, t) ↦ (k, ap (get_elem? irc_colors) (p ∙ omega arith) ∙ q, t)
]

All-get_elem :
    (ks : List Color) (i : ℕ) (k : Color)
    → All IsByteColor ks
    → get_elem? ks i ≡ some k
    → IsByteColor k
All-get_elem [] i k h e = cc
All-get_elem (x ∷ ks) zero k (h, hs) e = let same : x ≡ k = cc in subst IsByteColor same h
All-get_elem (x ∷ ks) (suc i) k (h, hs) e = All-get_elem ks i k hs e

Beyond-squares :
    (d : ℕ) (c : Color) (ks : List Color)
    → IsByteColor c
    → All IsByteColor ks
    → Beyond d c ks
    → All (λ k. d * d ≤ squares k c) ks
Beyond-squares d c [] h b k = tt
Beyond-squares d c (x ∷ ks) h (b, bs) (k, ks') =
    let root = distance-IsRoot x c b h in
    let m = mul-le-mul_right d k in
    let n = mul-le-mul_right (distance x c) k in
    (omega (arith, root.0, m, n), Beyond-squares d c ks h bs ks')

-- For a color whose parts are at most 255, `closest_color` returns the index of one of the 16 colors, and
-- none of the 16 is nearer by the whole part of the distance: with `d` the whole part of the root of the
-- sum of the three squared differences, the sums of all 16 are at least `d * d`.
pub closest_color_lem :
    (c : Color)
    → IsByteColor c
    → (k : Color) × (get_elem? irc_colors (closest_color c) ≡ some k)
      × (d : ℕ) × IsRoot (squares k c) d
      × All (λ j. d * d ≤ squares j c) irc_colors
closest_color_lem c h =
    let (k, e, far) = nearest c h in
    let bytes : All IsByteColor irc_colors = omega arith in
    let byte = All-get_elem irc_colors (closest_color c) k bytes e in
    (
      k,
      e,
      distance k c,
      distance-IsRoot k c byte h,
      Beyond-squares (distance k c) c irc_colors h bytes far,
    )
