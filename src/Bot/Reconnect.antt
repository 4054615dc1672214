-- ===== src/Bot/Reconnect.antt =====
-- Connecting again and again, the `pinger` of src/ircbot.cpp: theorems.
use skivvy.Base.{
  ℕ, suc, Bool, true, false, ◌≡◌, refl, ap, ◌∙◌, none, some, List, [], ◌∷◌, ◌++◌, ltb, Str, codes,
  if◌then◌else◌, is_empty, else_of, get_elem?, str_eq,
}
use skivvy.Irc
use skivvy.Bot.{World, Bot, sent, dialled, does, irc, get_prop, get_vec}
use skivvy.Bot.Exec.{connect, server_host, server_port}
use skivvy.Bot.Loop.{
  get_retries, connect_loop, next_nick, sign_on, pinger_connect, note_ping, regain_nick, check_ping,
}
use skivvy.Bot.SignOn.{signed_on}

connect_loop_taken :
    (w : World) (host : Str) (port retries : ℕ) (answers : List Bool) (s : Bot)
    → s.done ≡ false
    → connect_loop w host port retries (true ∷ answers) 0 s ≡ some (does (dialled host port) s, 0)
unfolding connect_loop connect
connect_loop_taken w host port retries answers s d = else_of s.done _ _ d

pass_text : Str → Str
pass_text pwd = if is_empty pwd then codes "PASS none" else codes "PASS " ++ pwd

pass-does :
    (w : World) (pwd : Str) (s : Bot) → (Irc.pass (irc w) pwd s).0 ≡ does (sent (pass_text pwd)) s
unfolding Irc.pass Irc.send irc pass_text
pass-does w [] s = refl
pass-does w (c ∷ pwd) s = refl

-- What the pinger has done when the server took the connection and the bot signs on with `n`.
unfoldable pub connected_as : Str → Bot → Bot
unfolding pass_text
connected_as n s =
    let s1 = does (dialled (server_host s) (server_port s)) s in
    let s2 = record s1 { connected = true; registered = false } in
    signed_on (does (sent (pass_text (get_prop (codes "server.password") [] s))) s2) n

next_nick-some :
    (w : World) (s : Bot) (n : Str)
    → get_elem? s.info_nicks s.nick_number ≡ some n
    → next_nick w s ≡ some (signed_on s n)
unfolding next_nick Irc.nick Irc.user Irc.send irc
next_nick-some w s n h = rw (h, next_nick) refl

next_nick-none :
    (w : World) (s : Bot) → get_elem? s.info_nicks s.nick_number ≡ none → next_nick w s ≡ none
unfolding next_nick
next_nick-none w s h = rw (h, next_nick) refl

-- The bot with the password sent.
abbrev passed : Bot → Bot
passed s =
    does (sent (pass_text (get_prop (codes "server.password") [] s)))
      (record s { connected = true; registered = false })

sign_on-next_nick : (w : World) (s : Bot) → sign_on w s ≡ next_nick w (passed s)
unfolding sign_on get_prop get_vec
sign_on-next_nick w s = ap (next_nick w) (pass-does w _ _)

pinger_connect-sign_on :
    (w : World) (answers : List Bool) (s : Bot)
    → s.done ≡ false
    → ltb 0 (get_retries s) ≡ true
    → pinger_connect w (true ∷ answers) s
      ≡ sign_on w (does (dialled (server_host s) (server_port s)) s)
unfolding pinger_connect
pinger_connect-sign_on w answers s d l =
    rw (connect_loop_taken w (server_host s) (server_port s) (get_retries s) answers s d, l)
      (else_of s.done _ _ d)

pinger_connect-some :
    (w : World) (answers : List Bool) (s : Bot) (n : Str)
    → s.done ≡ false
    → ltb 0 (get_retries s) ≡ true
    → get_elem? s.info_nicks s.nick_number ≡ some n
    → pinger_connect w (true ∷ answers) s ≡ some (connected_as n s)
unfolding connected_as get_prop get_vec
pinger_connect-some w answers s n d l h =
    pinger_connect-sign_on w answers s d l
    ∙ sign_on-next_nick w _
    ∙ next_nick-some w (passed (does (dialled (server_host s) (server_port s)) s)) n h

pinger_connect-none :
    (w : World) (answers : List Bool) (s : Bot)
    → s.done ≡ false
    → ltb 0 (get_retries s) ≡ true
    → get_elem? s.info_nicks s.nick_number ≡ none
    → pinger_connect w (true ∷ answers) s ≡ none
pinger_connect-none w answers s d l h =
    pinger_connect-sign_on w answers s d l
    ∙ sign_on-next_nick w _
    ∙ next_nick-none w (passed (does (dialled (server_host s) (server_port s)) s)) h

note_ping-lost :
    (w : World) (info : Str) (s : Bot)
    → str_eq s.pinger_info info ≡ false
    → note_ping w info s ≡ record s { connected = false; registered = false; nick_number = 0 }
unfolding note_ping
note_ping-lost w info s i = else_of (str_eq s.pinger_info info) _ _ i

regain_nick-one : (w : World) (n : Str) (s : Bot) → s.info_nicks ≡ n ∷ [] → regain_nick w s ≡ s
unfolding regain_nick
regain_nick-one w n s h = rw (h, regain_nick) (ap (λ (l : List Str). record s { info_nicks = l }) h)

check_ping-lost :
    (w : World) (info n : Str) (s : Bot)
    → s.info_nicks ≡ n ∷ []
    → str_eq s.pinger_info info ≡ false
    → check_ping w info s ≡ record s { connected = false; registered = false; nick_number = 0 }
unfolding check_ping
check_ping-lost w info n s h i =
    ap (regain_nick w) (note_ping-lost w info s i)
    ∙ regain_nick-one w n (record s { connected = false; registered = false; nick_number = 0 }) h

-- A bot with one nick, that has signed on with it and loses the connection, has no nick left to sign on
-- with: the pinger reads behind the end of `info.nicks` when the server takes it again. Behind a ping
-- that was not answered, which starts the nicks again, it signs on as before.
pinger_connect_again :
    (w : World) (s : Bot) (n info : Str) (first second third : List Bool)
    → s.info_nicks ≡ n ∷ []
    → s.nick_number ≡ 0
    → s.done ≡ false
    → ltb 0 (get_retries s) ≡ true
    → str_eq s.pinger_info info ≡ false
    → (pinger_connect w (true ∷ first) s ≡ some (connected_as n s))
      × (pinger_connect w
            (true ∷ second)
            (record (connected_as n s) { connected = false; registered = false })
          ≡ none)
      × ((s' : Bot) × (pinger_connect w (true ∷ third) (check_ping w info (connected_as n s))
            ≡ some s')
          × (s'.connected ≡ true))
unfolding connected_as get_retries get_vec
pinger_connect_again w s n info first second third hn h0 d l i =
    let at_end : get_elem? s.info_nicks (suc s.nick_number) ≡ none = rw (hn) refl in
    let at_start : get_elem? s.info_nicks 0 ≡ some n = rw (hn) refl in
    (
      pinger_connect-some w first s n d l (rw (hn, h0) refl),
      pinger_connect-none w second
          (record (connected_as n s) { connected = false; registered = false }) d l at_end,
      (
        connected_as n
            (record (connected_as n s) { connected = false; registered = false; nick_number = 0 }),
        rw (check_ping-lost w info n (connected_as n s) hn i) (
            pinger_connect-some w third
              (record (connected_as n s) { connected = false; registered = false; nick_number = 0 })
              n d l at_start),
        refl,
      ),
    )
