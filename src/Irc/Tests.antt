-- ===== src/Irc/Tests.antt =====
-- Runs of the commands, and the theorems at concrete ones.
use skivvy.Base.{some, none, ℕ, Bool, true, false, ◌≡◌, refl, List, [], ◌∷◌, ◌++◌, arith, codes}
use skivvy.Stream.{good}
use skivvy.Hol.Model.{hol, hol-IsHol}
use skivvy.Message.{empty}
use skivvy.Message.Parse.{crlf}
use skivvy.Irc.{
  send, say, notice, mode, kick, TestServer, test_send_unlogged, write_loop, remote_send_unlogged,
}
use skivvy.Irc.Relay.{last, relay, IsHeard, say-notice-Shows}
use skivvy.Irc.Wire.{IsSent, remote_send_unlogged-IsSent}

mode-run : (mode last (codes "#c") (codes "+o") (codes "zim") []).0 ≡ codes "MODE #c +o zim"
unfolding mode send
mode-run = refl

kick-run :
    (kick last hol (codes "#a" ∷ codes "#b" ∷ []) (codes "zim" ∷ []) (codes "bye now") []).0
    ≡ codes "KICK #a,#b zim :bye now"
unfolding kick send hol
kick-run = refl

say-notice-Shows_example :
    IsHeard hol empty 5
      (relay (codes "n!u@h") (say last (codes "#c") (codes "hi you") []))
      (codes "n!u@h")
      (codes "PRIVMSG")
      (codes "#c" ∷ [])
      (codes "hi you")
    × IsHeard hol empty 5
        (relay (codes "n!u@h") (notice last (codes "#c") (codes "hi you") []))
        (codes "n!u@h")
        (codes "NOTICE")
        (codes "#c" ∷ [])
        (codes "hi you")
say-notice-Shows_example =
    say-notice-Shows hol-IsHol empty 5 (codes "n!u@h") (ground arith) (cc) (codes "#c")
      (codes "hi you") (ground arith) (ground arith) (ground arith) (omega arith)

abbrev answers : List (ℕ × Bool)
answers = (3, false) ∷ (9, false) ∷ []

remote_send_unlogged-IsSent_example :
    IsSent
      (codes "QUERY zim" ++ crlf)
      (remote_send_unlogged answers (codes "QUERY zim")).0
      (remote_send_unlogged answers (codes "QUERY zim")).1
remote_send_unlogged-IsSent_example = remote_send_unlogged-IsSent answers (codes "QUERY zim")

send-run : (remote_send_unlogged answers (codes "QUERY zim")).0 ≡ codes "QUERY zim\r\n"
unfolding remote_send_unlogged write_loop
send-run = refl

abbrev test_server : TestServer
test_server = record { ifs = good []; written = codes "NICK zim\r\n"; ofs = true }

-- A line that is written, one whose write fails, and one behind that.
test_send_test :
    let (s1, ok1) = test_send_unlogged none (codes "JOIN #c") test_server in
    let (s2, ok2) = test_send_unlogged (some 2) (codes "QUIT") s1 in
    let (s3, ok3) = test_send_unlogged none (codes "QUIT") s2 in
    (ok1 ≡ true) × (ok2 ≡ false) × (ok3 ≡ false) × (s3.written ≡ codes "NICK zim\r\nJOIN #c\r\nQU")
unfolding test_send_unlogged
test_send_test = (refl, refl, refl, refl)
