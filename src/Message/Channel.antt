-- ===== src/Message/Channel.antt =====
-- Where a message belongs: its channel, and to whom a reply goes.
use skivvy.Base.{
  ℕ, suc, true, false, ◌≡◌, refl, ◌⊎◌, inl, inr, some, List, [], ◌∷◌, arith, Str, get_elem?,
  Bool-cases, Option-cases,
}
use skivvy.Message.{
  Message, get_params, get_nickname, get_to, from_channel, reply_to, chan_params, chan_start,
  starts_with_char, mem_str, chan_loop, get_chan,
}

-- A string is the parameter at some index, and begins with a channel's byte.
abbrev pub IsChannelParam : List Str → Str → Type 0
IsChannelParam params s =
    (i : ℕ) × (get_elem? params i ≡ some s) × (starts_with_char chan_start s ≡ true)

chan_loop_sound :
    (sets : List (List Str)) (i : ℕ) (command : Str) (params : List Str)
    → (chan_loop sets i command params ≡ [])
      ⊎ IsChannelParam params (chan_loop sets i command params)
unfolding chan_loop
chan_loop_sound [] i command params = inl refl
chan_loop_sound (set ∷ sets) i command params =
    let rest = chan_loop_sound sets (suc i) command params in
    elim (Option-cases (get_elem? params i)) [
      | inl e ↦ rw (e, chan_loop) rest
      | inr (p, e) ↦ elim (Bool-cases (mem_str command set)) [
        | inr f ↦ rw (e, f, chan_loop) rest
        | inl f ↦ elim (Bool-cases (starts_with_char chan_start p)) [
          | inr g ↦ rw (e, f, g, chan_loop) rest
          | inl g ↦ rw (e, f, g, chan_loop) (inr (i, e, g))
        ]
      ]
    ]

-- `get_chan` returns the empty string or one of the parameters, which begins with `#`, `&`, `+` or `!`.
pub get_chan_sound : (m : Message) → (get_chan m ≡ []) ⊎ IsChannelParam (get_params m) (get_chan m)
unfolding get_chan
get_chan_sound m = chan_loop_sound chan_params 0 m.command (get_params m)

starts_with_hash : (s : Str) → starts_with_char (b'#' ∷ []) s ≡ true → (t : Str) × (s ≡ b'#' ∷ t)
starts_with_hash [] h = cc
starts_with_hash (c ∷ s) h = (s, ground arith)

-- A reply goes to the first parameter exactly if that begins with `#`, and to the nick otherwise.
pub reply_to_lem :
    (m : Message)
    → ((t : Str) × (get_to m ≡ b'#' ∷ t) × (reply_to m ≡ b'#' ∷ t))
      ⊎ ((starts_with_char (b'#' ∷ []) (get_to m) ≡ false) × (reply_to m ≡ get_nickname m))
unfolding reply_to from_channel get_to
reply_to_lem m = elim (Bool-cases (starts_with_char (b'#' ∷ []) (get_to m))) [
  | inl h ↦ let (t, e) = starts_with_hash (get_to m) h in inl (t, e, rw h e)
  | inr h ↦ inr (h, rw h)
]
