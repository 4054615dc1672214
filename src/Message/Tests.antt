-- ===== src/Message/Tests.antt =====
-- Runs of the parser on lines of the protocol, and the theorems at concrete messages.
use skivvy.Base.{true, ◌≡◌, refl, List, [], ◌∷◌, ◌++◌, arith, Str, codes, length, ◌≤◌, All}
use skivvy.Stream.{good, peek, get, ignore, read_word, getline}
use skivvy.Hol.Model.{hol, hol-IsHol}
use skivvy.Params.{getparams, gettrailing, getmiddle}
use skivvy.Params.Grammar.{IsTrailing, IsMiddle}
use skivvy.Params.Sound.{getparams-IsSound}
use skivvy.Message.{
  Message, empty, parse, get_params, get_chan, get_user_cmd, get_user_params, get_trailing,
}
use skivvy.Message.Parse.{wire, crlf, Shows, parse-wire}

abbrev line : Str
line = codes ":nick!user@host PRIVMSG #chan :!cmd some args\r\n"

abbrev parsed : Message
parsed = record {
  line = codes ":nick!user@host PRIVMSG #chan :!cmd some args";
  when = 7;
  prefix = codes "nick!user@host";
  command = codes "PRIVMSG";
  params = codes " #chan :!cmd some args";
}

parse-line : parse hol empty line 7 ≡ (true, parsed)
unfolding parse hol peek ignore read_word getline
parse-line = refl

params-parsed : get_params parsed ≡ codes "#chan" ∷ codes "!cmd some args" ∷ []
unfolding get_params getparams gettrailing getmiddle peek get
params-parsed = refl

parse-wire_example :
    ((parse hol empty
        (wire (codes "n!u@h") (codes "PRIVMSG") (codes "#c" ∷ []) (codes "hi you") ++ crlf)
        0).0
      ≡ true)
    × Shows
        (parse hol empty
          (wire (codes "n!u@h") (codes "PRIVMSG") (codes "#c" ∷ []) (codes "hi you") ++ crlf)
          0).1
        (codes "n!u@h")
        (codes "PRIVMSG")
        (codes "#c" ∷ [])
        (codes "hi you")
parse-wire_example =
    parse-wire hol-IsHol empty 0 (codes "n!u@h") (codes "PRIVMSG") (codes "#c" ∷ [])
      (codes "hi you") (ground arith) (cc) (ground arith) (cc) (omega arith) (ground arith)
      (ground arith) (ground arith)

abbrev fourteen : List Str
fourteen =
    codes "1"
    ∷ codes "2"
    ∷ codes "3"
    ∷ codes "4"
    ∷ codes "5"
    ∷ codes "6"
    ∷ codes "7"
    ∷ codes "8"
    ∷ codes "9"
    ∷ codes "10"
    ∷ codes "11"
    ∷ codes "12"
    ∷ codes "13"
    ∷ codes "14"
    ∷ []

getparams-IsSound_example :
    (length (getparams (good (codes " a  :b"))).middles ≤ 14)
    × All IsMiddle (getparams (good (codes " a  :b"))).middles
    × IsTrailing (getparams (good (codes " a  :b"))).trailing
getparams-IsSound_example = getparams-IsSound (codes " a  :b")

get_chan-parsed : get_chan parsed ≡ codes "#chan"
unfolding get_chan get_params getparams gettrailing getmiddle peek get
get_chan-parsed = refl

user_cmd-parsed :
    (get_user_cmd hol parsed ≡ codes "!cmd") × (get_user_params hol parsed ≡ codes "some args")
unfolding get_user_cmd get_user_params get_trailing getparams gettrailing getmiddle peek get hol
    getline
user_cmd-parsed = (refl, refl)
