-- ===== src/Message/Prefix.antt =====
-- The parts of a prefix `nick!user@host`, and what the getters never return.
use skivvy.Base.{
  ℕ, suc, ◌+◌, ◌-◌, ◌<◌, Bool, true, false, ◌≡◌, refl, sym, ◌∙◌, ap, ◌⊎◌, inl, inr, some, List, [],
  ◌∷◌, ◌++◌, append_assoc, arith, Str, find_char, find_char-append, substr, length, length-append,
  take-append, take, drop, Lacks, Bool-cases, Option-cases, All-append,
}
use mathlib.Core.Bool.{true≢false, and-eq-true_iff}
use native.Mathlib.Numerals.{add-one}
use skivvy.Message.{
  nick_char, all_chars, Message, is_nick, allow_nick, is_user, allow_user, get_servername,
  get_nickname, get_user, get_host, get_userhost,
}

abbrev pub full_prefix : Str → Str → Str → Str
full_prefix nick user host = nick ++ b'!' ∷ (user ++ b'@' ∷ host)

drop_suc-append {ℓ} :
    {A : Type ℓ} (xs ys : List A) (a : A) → drop (length xs + 1) (xs ++ a ∷ ys) ≡ ys
drop_suc-append {A} xs ys a = rw add-one (go xs)
  where
    go : (zs : List A) → drop (suc (length zs)) (zs ++ a ∷ ys) ≡ ys
    go [] = refl
    go (z ∷ zs) = go zs

all_chars-Lacks : (p : ℕ → Bool) (d : ℕ) (s : Str) → p d ≡ false → all_chars p s ≡ true → Lacks d s
all_chars-Lacks p d [] e h = tt
all_chars-Lacks p d (c ∷ s) e h = (
  (λ q. true≢false (sym ((and-eq-true_iff _ _).0 h).0 ∙ ap p q ∙ e)),
  all_chars-Lacks p d s e ((and-eq-true_iff _ _).0 h).1,
)

pub is_nick-Lacks : (d : ℕ) (s : Str) → nick_char d ≡ false → is_nick s ≡ true → Lacks d s
unfolding is_nick
is_nick-Lacks d [] e h = tt
is_nick-Lacks d (c ∷ s) e h = all_chars-Lacks nick_char d (c ∷ s) e ((and-eq-true_iff _ _).0 h).1

allowed : (s : Str) → (allow_nick s ≡ []) ⊎ (is_nick (allow_nick s) ≡ true)
unfolding allow_nick
allowed s = elim (Bool-cases (is_nick s)) [
  | inl ok ↦ inr (rw (ok, allow_nick) ok)
  | inr bad ↦ inl (rw bad)
]

-- `get_nickname` returns the empty string or an allowed nick, whatever the prefix.
pub get_nickname-is_nick : (m : Message) → (get_nickname m ≡ []) ⊎ (is_nick (get_nickname m) ≡ true)
unfolding get_nickname
get_nickname-is_nick m = elim (Option-cases (find_char b'!' m.prefix)) [
  | inl e ↦ elim (Option-cases (find_char b'@' m.prefix)) [
    | inl f ↦ rw (e, f, get_nickname) (allowed m.prefix)
    | inr (pos, f) ↦ rw (e, f, get_nickname) (allowed (take pos m.prefix))
  ]
  | inr (pos, e) ↦ rw (e, get_nickname) (allowed (take pos m.prefix))
]

all_chars-append :
    (p : ℕ → Bool) (s t : Str)
    → all_chars p s ≡ true
    → all_chars p t ≡ true
    → all_chars p (s ++ t) ≡ true
all_chars-append p [] t h k = k
all_chars-append p (c ∷ s) t h k = ground (arith, all_chars-append p s t, k)

-- An allowed nick stays allowed with a NUL behind it, though the comments forbid NUL in a message:
-- `sizeof` counts the NUL that ends the literal of `bnf_special`.
pub is_nick-nul : (nick : Str) → is_nick nick ≡ true → is_nick (nick ++ 0 ∷ []) ≡ true
unfolding is_nick
is_nick-nul [] h = cc
is_nick-nul (c ∷ s) h =
    let (first, rest) = (and-eq-true_iff _ _).0 h in
    (and-eq-true_iff _ _).1 (first, all_chars-append nick_char (c ∷ s) (0 ∷ []) rest refl)

module _ (nick user host : Str) (kn : is_nick nick ≡ true) (ku : is_user user ≡ true) where
  at_side : Str
  at_side = user ++ b'@' ∷ host

  find_bang : find_char b'!' (full_prefix nick user host) ≡ some (length nick)
  find_bang = find_char-append b'!' nick _ (is_nick-Lacks b'!' nick refl kn)

  user-Lacks : Lacks b'@' user
  user-Lacks = unfold is_user in all_chars-Lacks _ b'@' user refl ku

  regroup : full_prefix nick user host ≡ (nick ++ b'!' ∷ user) ++ b'@' ∷ host
  regroup = sym (append_assoc nick (b'!' ∷ user) (b'@' ∷ host))

  find_at : find_char b'@' (full_prefix nick user host) ≡ some (length (nick ++ b'!' ∷ user))
  find_at = rw regroup (
      find_char-append b'@' (nick ++ b'!' ∷ user) host (
        All-append _ nick (b'!' ∷ user) (is_nick-Lacks b'@' nick refl kn)
          (omega arith, user-Lacks)))

  user_field :
      substr
        (full_prefix nick user host)
        (length nick + 1)
        (length (nick ++ b'!' ∷ user) - (length nick + 1))
      ≡ user
  user_field =
      let e : length (nick ++ b'!' ∷ user) - (length nick + 1) ≡ length user =
        omega (arith, length-append nick (b'!' ∷ user)) in
      rw (drop_suc-append nick (user ++ b'@' ∷ host) b'!', e) (take-append user (b'@' ∷ host))

  host_field : drop (length (nick ++ b'!' ∷ user) + 1) (full_prefix nick user host) ≡ host
  host_field = rw regroup (drop_suc-append (nick ++ b'!' ∷ user) host b'@')

  -- Of a prefix `nick!user@host` with an allowed nick and user and a host that is not empty, the
  -- getters return the nick, the user, the host and `user@host`, and no server name.
  pub get_parts :
      (m : Message)
      → 0 < length host
      → let m' = record m { prefix = full_prefix nick user host } in
        (get_nickname m' ≡ nick)
        × (get_user m' ≡ user)
        × (get_host m' ≡ host)
        × (get_userhost m' ≡ user ++ b'@' ∷ host)
        × (get_servername m' ≡ [])
  unfolding get_nickname get_user get_host get_userhost get_servername allow_nick allow_user
  get_parts m nh = (
    ground (arith, find_bang, take-append nick (b'!' ∷ (user ++ b'@' ∷ host)), kn),
    ground (arith, find_bang, find_at, user_field, ku, length-append nick (b'!' ∷ user)),
    ground (
      arith,
      find_at,
      host_field,
      length-append nick (b'!' ∷ (user ++ b'@' ∷ host)),
      length-append nick (b'!' ∷ user),
      length-append user (b'@' ∷ host),
    ),
    ground (arith, find_bang, drop_suc-append nick (user ++ b'@' ∷ host) b'!'),
    ground (arith, find_bang),
  )
