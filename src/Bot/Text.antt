-- ===== src/Bot/Text.antt =====
-- Text that the bot reads and writes: `ios::getstring` of src/ios.cpp, `print_duration` of
-- src/include/skivvy/utils.h, and numbers as the standard library prints and reads them.
use skivvy.Base.{
  Bool, true, ℕ, zero, suc, ◌+◌, ◌-◌, ◌*◌, ◌/◌, ◌%◌, false, ◌&&◌, ◌||◌, Option, none, some, [], ◌∷◌,
  ◌++◌, ltb, leb, ◌==◌, if◌then◌else◌, Str, codes, is_empty,
}
use skivvy.Stream.{Stream, set_fail, peek, get, skip_ws, skip_space}

unfoldable pub digits : ℕ → ℕ → Str → Str
digits zero n acc = acc
digits (suc fuel) n acc =
    let acc' = (n % 10 + 48) ∷ acc in
    let more = digits fuel (n / 10) acc' in if ltb n 10 then acc' else more

-- `std::to_string(n)`
unfoldable pub to_string : ℕ → Str
unfolding digits
to_string n = digits (suc n) n []

abbrev digits_value : ℕ → Str → ℕ
digits_value v [] = v
digits_value v (c ∷ s) = if leb 48 c && leb c 57 then digits_value (v * 10 + (c - 48)) s else v

abbrev pub npos : ℕ
npos = 18446744073709551615

-- `is >> n` for a `siz n` on a value without a sign: 0 where there is no digit, the largest number
-- where it is exceeded.
unfoldable pub read_siz : Str → ℕ
read_siz s = let v = digits_value 0 (skip_space s) in if ltb npos v then npos else v

-- An `int` of that size, with a minus sign or without, as the 64 bits of a `siz`: the limits of `int` are
-- kept to.
abbrev int_bits : Bool → ℕ → ℕ
int_bits false v = if ltb 2147483647 v then 2147483647 else v
int_bits true v =
    (18446744073709551616 - (if ltb 2147483648 v then 2147483648 else v)) % 18446744073709551616

abbrev read_signed : Str → ℕ
read_signed [] = 0
read_signed (c ∷ s) =
    if c == b'-'
    then int_bits true (digits_value 0 s)
    else if c == b'+'
    then int_bits false (digits_value 0 s)
    else int_bits false (digits_value 0 (c ∷ s))

-- `is >> n` for an `int n`, converted to a `siz`; 0 where there is no digit.
unfoldable pub read_int : Str → ℕ
read_int s = read_signed (skip_space s)

-- The quote that opens a string, `is.peek() == '"' || is.peek() == '\''`, at what `peek` returned.
abbrev opening : Option ℕ × Stream → ℕ × Stream
opening (none, is) = let (p, is') = peek is in (b' ', is')
opening (some c, is) = if c == 34 || c == 39 then (c, (get is).1) else (b' ', is)

-- `while(is.get(c) && c != term) n.append(1, c);` on the bytes that are left: the string, and the
-- bytes behind the terminator.
unfoldable pub until_term : ℕ → Str → Str × Str
until_term term [] = ([], [])
until_term term (c ∷ s) =
    let (n, rest) = until_term term s in if c == term then ([], s) else (c ∷ n, rest)

-- `ios::getstring(is, s)`: nothing is read from a stream that is not good, which then fails.
unfoldable pub getstring : Str → Stream → Str × Stream
getstring old is =
    let (term, is1) = opening (peek (skip_ws is)) in
    let (n, rest) = if is1.eof || is1.fail then ([], is1.buf) else until_term term is1.buf in
    if is_empty n
    then (old, set_fail (record is1 { buf = rest }))
    else (n, record { buf = rest; eof = false; fail = false })

-- `print_duration(t, os)` for a `t` of that many seconds
unfoldable pub print_duration : ℕ → Str
print_duration t =
    let d = if ltb t 86400 then [] else to_string (t / 86400) ++ codes "d " in
    let h = if ltb t 3600 then [] else to_string (t % 86400 / 3600) ++ codes "h " in
    let m = if ltb t 60 then [] else to_string (t % 3600 / 60) ++ codes "m " in
    d ++ h ++ m ++ (to_string (t % 60) ++ b's' ∷ [])
