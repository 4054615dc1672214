-- ===== src/Utils/Digits.antt =====
-- Numbers are read back from what `std::to_string` prints: lemmas.
use skivvy.Base.{
  ℕ, zero, suc, ◌+◌, ◌*◌, ◌/◌, ◌%◌, ◌≤◌, ◌<◌, true, false, ◌≡◌, refl, ◌∙◌, inl, inr, [], ◌∷◌, ltb,
  arith, if◌then◌else◌, Str, All, some, none, Bool-cases, is_empty, is_space, ◌==◌, then_of,
  else_of, ap, Lacks,
}
use skivvy.Bot.Text.{npos, digits, to_string}
use skivvy.Utils.{is_digit, number_from, read_number}

abbrev pub AllDigits : Str → Type 0
AllDigits = All (λ c. is_digit c ≡ true)

is_digit-code : (n : ℕ) → is_digit (n % 10 + 48) ≡ true
is_digit-code n = ground arith

number_from-code :
    (v n : ℕ) (acc : Str) → number_from v ((n % 10 + 48) ∷ acc) ≡ number_from (v * 10 + n % 10) acc
number_from-code v n acc =
    then_of _ _ _ (is_digit-code n) ∙ ap (λ (x : ℕ). number_from x acc) (omega arith)

number_from-digits :
    (fuel n : ℕ) (acc : Str) → n < fuel → number_from 0 (digits fuel n acc) ≡ number_from n acc
unfolding digits
number_from-digits zero n acc h = ground arith
number_from-digits (suc fuel) n acc h =
    let more = number_from-digits fuel (n / 10) ((n % 10 + 48) ∷ acc) in
    elim (Bool-cases (ltb n 10)) [
      | inl e ↦
          rw (then_of _ ((n % 10 + 48) ∷ acc) (digits fuel (n / 10) ((n % 10 + 48) ∷ acc)) e)
            (number_from-code 0 n acc ∙ ap (λ (x : ℕ). number_from x acc) (ground arith))
      | inr e ↦
          rw (else_of _ ((n % 10 + 48) ∷ acc) (digits fuel (n / 10) ((n % 10 + 48) ∷ acc)) e) (
            more (ground arith)
            ∙ number_from-code (n / 10) n acc
            ∙ ap (λ (x : ℕ). number_from x acc) (omega arith))
    ]

digits-AllDigits : (fuel n : ℕ) (acc : Str) → AllDigits acc → AllDigits (digits fuel n acc)
unfolding digits
digits-AllDigits zero n acc h = h
digits-AllDigits (suc fuel) n acc h =
    let more = digits-AllDigits fuel (n / 10) ((n % 10 + 48) ∷ acc) (is_digit-code n, h) in
    elim (Bool-cases (ltb n 10)) [
      | inl e ↦
          rw (then_of _ ((n % 10 + 48) ∷ acc) (digits fuel (n / 10) ((n % 10 + 48) ∷ acc)) e)
            (is_digit-code n, h)
      | inr e ↦
          rw (else_of _ ((n % 10 + 48) ∷ acc) (digits fuel (n / 10) ((n % 10 + 48) ∷ acc)) e) more
    ]

digits-is_empty :
    (fuel n : ℕ) (acc : Str) → is_empty acc ≡ false → is_empty (digits fuel n acc) ≡ false
unfolding digits
digits-is_empty zero n acc h = h
digits-is_empty (suc fuel) n acc h =
    let more = digits-is_empty fuel (n / 10) ((n % 10 + 48) ∷ acc) refl in ground arith

-- What is printed of a number is digits, one at least.
pub to_string-AllDigits : (n : ℕ) → AllDigits (to_string n) × (is_empty (to_string n) ≡ false)
unfolding to_string digits
to_string-AllDigits n =
    let more = digits-is_empty n (n / 10) ((n % 10 + 48) ∷ []) refl in
    (digits-AllDigits (suc n) n [] tt, ground arith)

unsigned-digits :
    (s : Str) (n : ℕ)
    → AllDigits s
    → is_empty s ≡ false
    → number_from 0 s ≡ n
    → n ≤ npos
    → read_number s ≡ some n
unfolding read_number
unsigned-digits [] n d e v le = cc
unsigned-digits (c ∷ s) n (d, ds) e v le =
    let sp : is_space c ≡ false = ground arith in
    let p : (c == b'+') ≡ false = ground arith in
    let m : (c == b'-') ≡ false = ground arith in
    rw (sp, p, m)
      (then_of _ _ _ d
        ∙ ap (λ (x : ℕ). if ltb npos x then none else some x) v
        ∙ else_of (ltb npos n) none (some n) (ground arith))

-- A number of 64 bits is read back from what is printed of it.
pub read_number-to_string : (n : ℕ) → n ≤ npos → read_number (to_string n) ≡ some n
unfolding to_string
read_number-to_string n h =
    unsigned-digits (digits (suc n) n []) n (to_string-AllDigits n).0 (to_string-AllDigits n).1
      (number_from-digits (suc n) n [] (omega arith)) h

pub AllDigits-Lacks : (d : ℕ) (s : Str) → is_digit d ≡ false → AllDigits s → Lacks d s
AllDigits-Lacks d [] h k = tt
AllDigits-Lacks d (c ∷ s) h (k, ks) = (ground arith, AllDigits-Lacks d s h ks)
