-- ===== src/Irc/Wire.antt =====
-- What reaches the socket of `RemoteIrcServer` and what is read from it, and the file of
-- `TestIrcServer`.
use skivvy.Base.{
  ℕ, zero, suc, ◌+◌, ◌-◌, ◌≤◌, ◌<◌, Bool, true, false, not, ◌≡◌, ◌≢◌, refl, sym, ap, ◌∙◌, inl, inr,
  Option, none, some, List, [], ◌∷◌, ◌++◌, append_assoc, append-nil, arith, ltb, Str, take, drop,
  length, length-append, All, Bool-cases,
}
use skivvy.Message.Parse.{crlf}
use skivvy.Irc.{send, say, write_loop, remote_send_unlogged, read_loop, remote_receive}

take-drop : (n : ℕ) (s : Str) → take n s ++ drop n s ≡ s
take-drop zero s = refl
take-drop (suc n) [] = refl
take-drop (suc n) (c ∷ s) = ap (◌∷◌ c) (take-drop n s)

take_all : (n : ℕ) (s : Str) → length s ≤ n → take n s ≡ s
take_all zero [] h = refl
take_all zero (c ∷ s) h = absurd (omega arith)
take_all (suc n) [] h = refl
take_all (suc n) (c ∷ s) h = ap (◌∷◌ c) (take_all n s (omega arith))

length-drop : (n : ℕ) (s : Str) → length (drop n s) ≡ length s - n
length-drop zero s = omega arith
length-drop (suc n) [] = omega arith
length-drop (suc n) (c ∷ s) = omega (arith, length-drop n s)

-- What was sent is a part of the text from its beginning, and all of it if the result is true.
abbrev pub IsSent : Str → Str → Option Bool → Type 0
IsSent buf sent result = ((rest : Str) × (sent ++ rest ≡ buf)) × (result ≡ some true → sent ≡ buf)

some-false : some false ≢ some true
some-false h = cc

none-true : none ≢ some true
none-true h = cc

write_loop-IsSent :
    (answers : List (ℕ × Bool)) (buf : Str)
    → IsSent buf (write_loop answers buf).0 (write_loop answers buf).1
unfolding write_loop
write_loop-IsSent [] buf = ((buf, refl), λ h. absurd (none-true h))
write_loop-IsSent ((n, ec) ∷ answers) buf = elim (Bool-cases (ltb n (length buf))) [
  | inr e ↦ rw (e, write_loop) ((drop n buf, take-drop n buf), λ h. take_all n buf (ground arith))
  | inl e ↦ elim (Bool-cases ec) [
    | inl f ↦ rw (e, f, write_loop) ((drop n buf, take-drop n buf), λ h. absurd (some-false h))
    | inr f ↦
        let ((rest, p), q) = write_loop-IsSent answers (drop n buf) in
        let sent = (write_loop answers (drop n buf)).0 in
        rw (e, f, write_loop)
          (
            (
              rest,
              append_assoc (take n buf) sent rest ∙ ap (λ t. take n buf ++ t) p ∙ take-drop n buf,
            ),
            λ h. ap (λ t. take n buf ++ t) (q h) ∙ take-drop n buf,
          )
  ]
]

-- Whatever the socket answers, `send_unlogged` has sent the command and its line end from the
-- beginning up to some place, and to the end if it returns true.
pub remote_send_unlogged-IsSent :
    (answers : List (ℕ × Bool)) (cmd : Str)
    → IsSent (cmd ++ crlf) (remote_send_unlogged answers cmd).0 (remote_send_unlogged answers cmd).1
unfolding remote_send_unlogged
remote_send_unlogged-IsSent answers cmd = write_loop-IsSent answers (cmd ++ crlf)

-- An answer without an error that has written something.
abbrev pub IsProgress : ℕ × Bool → Type 0
IsProgress (n, ec) = (0 < n) × (ec ≡ false)

write_loop_done :
    (answers : List (ℕ × Bool)) (buf : Str)
    → All IsProgress answers
    → 0 < length buf
    → length buf ≤ length answers
    → (write_loop answers buf).1 ≡ some true
unfolding write_loop
write_loop_done [] buf h k le = absurd (omega arith)
write_loop_done ((n, ec) ∷ answers) buf ((hn, he), h) k le =
    elim (Bool-cases (ltb n (length buf))) [
      | inr e ↦ rw (e, write_loop) refl
      | inl e ↦
          let len = length-drop n buf in
          rw (e, he, write_loop)
            (write_loop_done answers (drop n buf) h (ground arith) (omega arith))
    ]

-- If no call of `write_some` fails and each writes something, `send_unlogged` returns true after at
-- most as many calls as there are bytes.
remote_send_unlogged_done :
    (answers : List (ℕ × Bool)) (cmd : Str)
    → All IsProgress answers
    → length cmd + 2 ≤ length answers
    → (remote_send_unlogged answers cmd).1 ≡ some true
unfolding remote_send_unlogged
remote_send_unlogged_done answers cmd h le =
    write_loop_done answers (cmd ++ crlf) h (omega (arith, length-append cmd crlf))
      (omega (arith, length-append cmd crlf))

abbrev pub concat_chunks : List (Str × Bool) → Str
concat_chunks [] = []
concat_chunks ((c, ec) ∷ cs) = c ++ concat_chunks cs

read_loop-All :
    (full : List (Str × Bool)) (c : Str) (ec : Bool) (rest : List (Str × Bool)) (line : Str)
    → All (λ (f : Str × Bool). length f.0 ≡ 1024) full
    → length c < 1024
    → read_loop (full ++ (c, ec) ∷ rest) line
      ≡ (line ++ (concat_chunks full ++ c), some (not ec), rest)
unfolding read_loop
read_loop-All [] [] ec rest line h k = ap (λ t. (t, some (not ec), rest)) (sym (append-nil line))
read_loop-All [] (d ∷ c) ec rest line h k = ground arith
read_loop-All (([], e) ∷ full) c ec rest line (g, gs) k = absurd (omega arith)
read_loop-All ((d ∷ f, e) ∷ full) c ec rest line (g, gs) k =
    let t = concat_chunks full ++ c in
    let short : ltb (length (d ∷ f)) 1024 ≡ false = ground arith in
    rw short (
      read_loop-All full c ec rest (line ++ d ∷ f) gs k
      ∙ ap (λ t. (t, some (not ec), rest))
          (append_assoc line (d ∷ f) t
            ∙ ap (λ u. line ++ d ∷ u) (sym (append_assoc f (concat_chunks full) c))))

-- `receive` returns the bytes of all chunks up to and with the first that does not fill the buffer,
-- whatever lines they hold, and leaves the chunks behind it; it fails exactly if the read of the last
-- one reports an error.
pub remote_receive-All :
    (full : List (Str × Bool)) (c : Str) (ec : Bool) (rest : List (Str × Bool))
    → All (λ (f : Str × Bool). length f.0 ≡ 1024) full
    → length c < 1024
    → remote_receive (full ++ (c, ec) ∷ rest) ≡ (concat_chunks full ++ c, some (not ec), rest)
unfolding remote_receive
remote_receive-All full c ec rest h k = read_loop-All full c ec rest [] h k

-- What a socket without errors is sent: the commands, each with its line end.
abbrev pub socket : Str → Str → Str × Bool
socket cmd s = (s ++ (cmd ++ crlf), true)

-- A line end in the text of `say` ends the command: what stands behind it is sent as a command of
-- its own.
pub say-crlf :
    (to text cmd s : Str)
    → (say socket to (text ++ (crlf ++ cmd)) s).0 ≡ (send socket cmd (say socket to text s).0).0
unfolding say send
say-crlf to text cmd s = simp append_assoc
