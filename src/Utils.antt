-- ===== src/Utils.antt =====
-- src/utils.cpp: lists of ranges as users type them, and numbers as the standard library reads them.
pub mod Digits
pub mod Ranges
pub mod Wild
mod Tests
use skivvy.Base.{
  ℕ, zero, suc, ◌+◌, ◌-◌, ◌*◌, ◌%◌, Bool, true, false, Option, none, some, List, [], ◌∷◌, ◌++◌, ltb,
  leb, ◌==◌, ◌&&◌, if◌then◌else◌, Str, is_empty, length,
}
use skivvy.Hol.{Hol}
use skivvy.Stream.{Stream, good, skip_space}
use skivvy.Bot.Text.{npos}

abbrev pub is_digit : ℕ → Bool
is_digit c = leb 48 c && leb c 57

-- The value of the digits that begin a text, behind the value `v` of those before them.
abbrev pub number_from : ℕ → Str → ℕ
number_from v [] = v
number_from v (c ∷ s) = if is_digit c then number_from (v * 10 + (c - 48)) s else v

-- A number without its sign: it fails where there is no digit, and where it is above 64 bits.
abbrev pub unsigned : Str → Option ℕ
unsigned [] = none
unsigned (c ∷ s) =
    let v = number_from 0 (c ∷ s) in
    if is_digit c then if ltb npos v then none else some v else none

-- A negative number wraps around.
abbrev pub negated : Option ℕ → Option ℕ
negated none = none
negated (some v) = some ((npos + 1 - v) % 18446744073709551616)

abbrev pub signed : Str → Option ℕ
signed [] = none
signed (c ∷ s) =
    if c == b'+' then unsigned s else if c == b'-' then negated (unsigned s) else unsigned (c ∷ s)

-- `siss(s) >> n` for a `siz n`; `none` where it fails.
unfoldable pub read_number : Str → Option ℕ
read_number s = signed (skip_space s)

-- `n` numbers from `l`.
unfoldable pub count_from : ℕ → ℕ → List ℕ
count_from zero l = []
count_from (suc n) l = l ∷ count_from n (suc l)

-- The upper bound of a range.
unfoldable pub upper : ℕ → Str → ℕ
upper l [] = l
upper l (c ∷ ub) = elim (read_number (c ∷ ub)) [ none ↦ l | some u ↦ u ]

-- `for(siz i = l; i <= u; ++i) items.push_back(i);`: no `i` is above the largest `siz`, and then the
-- loop does not end.
unfoldable pub push_range : ℕ → ℕ → Option (List ℕ)
push_range l u =
    if ltb u l then some [] else if u == npos then none else some (count_from (suc u - l) l)

abbrev pub joined : Option (List ℕ) → Option (List ℕ) → Option (List ℕ)
joined none rest = none
joined (some is) none = none
joined (some is) (some js) = some (is ++ js)

module _ (h : Hol) where
  -- A round of the loop: what it adds to `items`.
  unfoldable pub range_items : Str → Option (List ℕ)
  range_items range =
      let (lb, is1) = h.sgl b'-' [] (good range) in
      let (ub, is2) = h.sgl 10 [] is1 in
      if is_empty lb
      then some []
      else elim (read_number lb) [ none ↦ some [] | some l ↦ push_range l (upper l ub) ]

  unfoldable pub range_loop : ℕ → Stream → Option (List ℕ)
  range_loop zero is = some []
  range_loop (suc fuel) is =
      let (range, is1) = h.sgl b',' [] is in
      let rest = range_loop fuel is1 in
      if is1.fail then some [] else joined (range_items range) rest

  -- `parse_rangelist(rangelist, items)` from no items; it always returns true.
  unfoldable pub parse_rangelist : Str → Option (List ℕ)
  parse_rangelist s = range_loop (suc (length s)) (good s)
