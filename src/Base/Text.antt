-- ===== src/Base/Text.antt =====
-- `std::string` as the list of its bytes, with the searches and cuts that the program makes.
use Prim.Native.Char.{code}
use Prim.Native.Nat.{ℕ, suc, ◌+◌}
use Prim.Native.String.{String}
use mathlib.Core.Path.{◌≡◌, refl}
use mathlib.Core.Logic.{◌≢◌, ◌↔◌}
use mathlib.Core.Bool.{Bool, true, false, ◌&&◌, ◌||◌}
use mathlib.Core.List.{List, [], ◌∷◌, ◌++◌}
use mathlib.Core.Option
use mathlib.Core.Option.{Option, none, some}
use native.Mathlib.Omega.{arith}
use skivvy.Base.Tests.{leb, ◌==◌, if◌then◌else◌}
use skivvy.Base.Lists.{length, take, drop, All}

abbrev pub Str : Type 0
Str = List ℕ

-- The bytes of an ASCII literal.
abbrev pub codes : String → Str
codes String.[] = []
codes (String.◌∷◌ c s) = code c ∷ codes s

-- `a == b` on strings.
abbrev pub str_eq : Str → Str → Bool
str_eq [] [] = true
str_eq [] (d ∷ t) = false
str_eq (c ∷ s) [] = false
str_eq (c ∷ s) (d ∷ t) = c == d && str_eq s t

pub str_eq_iff : (s t : Str) → (str_eq s t ≡ true) ↔ (s ≡ t)
str_eq_iff [] [] = ground arith
str_eq_iff [] (d ∷ t) = ground arith
str_eq_iff (c ∷ s) [] = ground arith
str_eq_iff (c ∷ s) (d ∷ t) = ground (arith, str_eq_iff s t)

-- Whether a byte stands in a string: `std::count(s.begin(), s.end(), c)` as a test.
abbrev pub has_char : Str → ℕ → Bool
has_char [] c = false
has_char (d ∷ s) c = d == c || has_char s c

-- `s.find(c)`; `none` is `npos`.
abbrev pub find_char : ℕ → Str → Option ℕ
find_char c [] = none
find_char c (d ∷ s) = if d == c then some 0 else Option.map suc (find_char c s)

-- `s.substr(pos, len)` for a `pos` within `s`.
abbrev pub substr : Str → ℕ → ℕ → Str
substr s pos len = take len (drop pos s)

abbrev pub is_empty : Str → Bool
is_empty [] = true
is_empty (c ∷ s) = false

-- `isspace`, `isalpha` and `isalnum` in the "C" locale.
abbrev pub is_space : ℕ → Bool
is_space c = c == 32 || (leb 9 c && leb c 13)

abbrev pub is_alpha : ℕ → Bool
is_alpha c = (leb b'A' c && leb c b'Z') || (leb b'a' c && leb c b'z')

abbrev pub is_alnum : ℕ → Bool
is_alnum c = is_alpha c || (leb b'0' c && leb c b'9')

abbrev pub to_lower : ℕ → ℕ
to_lower c = if leb b'A' c && leb c b'Z' then c + 32 else c

-- No byte of the string is `c`.
abbrev pub Lacks : ℕ → Str → Type 0
Lacks c = All (λ d. d ≢ c)

pub find_char-append : (c : ℕ) (s t : Str) → Lacks c s → find_char c (s ++ c ∷ t) ≡ some (length s)
find_char-append c [] t h = ground arith
find_char-append c (d ∷ s) t (h, hs) = ground (arith, find_char-append c s t hs)

pub find_char-eq-none : (c : ℕ) (s : Str) → Lacks c s → find_char c s ≡ none
find_char-eq-none c [] h = refl
find_char-eq-none c (d ∷ s) (h, hs) = ground (arith, find_char-eq-none c s hs)
