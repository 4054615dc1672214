-- ===== src/Bot/Answers.antt =====
-- Lines of the server and what the bot does for them, `init` of src/ircbot.cpp: theorems.
use skivvy.Base.{
  ℕ, true, false, not, ◌≡◌, ◌≢◌, refl, sym, ap, ◌∙◌, some, List, [], ◌∷◌, ◌++◌, map, append-nil,
  append_assoc, arith, ◌||◌, Str, codes, is_empty, else_of, then_of,
}
use skivvy.Stream.{good}
use skivvy.Stream.Laws.{NoSpace}
use skivvy.Hol.{IsHol}
use skivvy.Hol.Trim.{IsTrimmed}
use skivvy.Params.Grammar.{IsTrailing}
use skivvy.Message.{Message, empty, parse, get_user_params}
use skivvy.Message.Parse.{wire, Shows, parse-wire_spaced}
use skivvy.Irc
use skivvy.Plugin.{dispatch_msgevent}
use skivvy.Bot.{World, Bot, Effect, sent, called, monitored, does, irc, get_vec}
use skivvy.Bot.Exec.{leave_one, leave_all, die, exec_restart}
use skivvy.Bot.Text.{getstring}
use skivvy.Bot.Builtins.{pass_ok, bot_die}
use skivvy.Bot.Handlers.{handle}
use skivvy.Bot.Loop.{call_all, received, process, loop_round}

call_all-eq :
    (e : ℕ → Effect) (fs : List ℕ) (s : Bot)
    → call_all e fs s ≡ record s { out = s.out ++ map e fs }
call_all-eq e [] s = ap (λ (o : List Effect). record s { out = o }) (sym (append-nil s.out))
call_all-eq e (f ∷ fs) s =
    call_all-eq e fs (does (e f) s)
    ∙ ap (λ (o : List Effect). record s { out = o }) (append_assoc s.out (e f ∷ []) (map e fs))

-- What the waiting functions and the monitors are given for a message.
unfoldable pub told : ℕ → Message → Bot → List Effect
told now msg s =
    map (λ f. called f msg) (dispatch_msgevent now msg.command s.msgevents).0
    ++ map (λ m. monitored m msg) s.monitors

-- The bot behind them.
unfoldable pub behind : ℕ → Message → Bot → Bot
unfolding told
behind now msg s = record s {
  msgevents = (dispatch_msgevent now msg.command s.msgevents).1;
  out = s.out ++ told now msg s;
}

process-handle :
    (w : World) (depth now uptime : ℕ) (line : Str) (s : Bot)
    → is_empty (w.hol.trim line) ≡ false
    → (parse w.hol empty (w.hol.trim line) now).0 ≡ true
    → process w depth now uptime line s
      ≡ handle w depth uptime
          (parse w.hol empty (w.hol.trim line) now).1
          (behind now (parse w.hol empty (w.hol.trim line) now).1 s)
unfolding process behind told
process-handle w depth now uptime line s h k =
    else_of (is_empty (w.hol.trim line) || not (parse w.hol empty (w.hol.trim line) now).0) _ _
      (rw (h, k) refl)
    ∙ ap (handle w depth uptime (parse w.hol empty (w.hol.trim line) now).1) behind_eq
  where
    msg : Message
    msg = (parse w.hol empty (w.hol.trim line) now).1

    fs : List ℕ
    fs = (dispatch_msgevent now msg.command s.msgevents).0

    s0 : Bot
    s0 = record s { msgevents = (dispatch_msgevent now msg.command s.msgevents).1 }

    behind_eq :
        call_all (λ m. monitored m msg) s.monitors (call_all (λ f. called f msg) fs s0)
        ≡ record s0 {
          out = s.out ++ (map (λ f. called f msg) fs ++ map (λ m. monitored m msg) s.monitors);
        }
    behind_eq =
        ap (call_all (λ m. monitored m msg) s.monitors) (call_all-eq (λ f. called f msg) fs s0)
        ∙ call_all-eq (λ m. monitored m msg) s.monitors
            (record s0 { out = s.out ++ map (λ f. called f msg) fs })
        ∙ ap (λ (o : List Effect). record s0 { out = o })
            (append_assoc s.out (map (λ f. called f msg) fs)
              (map (λ m. monitored m msg) s.monitors))

-- A line that is a PING behind the spaces around it, with a prefix and a trailing parameter: it goes to the
-- functions that wait for PING and to every monitor, in this order, and then its text is sent back
-- with PONG; but for the waiting functions, nothing else about the bot changes.
pub loop_round-pong :
    (w : World) (depth now uptime : ℕ) (line p t : Str) (s : Bot)
    → IsHol w.hol
    → w.hol.trim line ≡ wire p (codes "PING") [] t
    → NoSpace p
    → p ≢ []
    → IsTrailing t
    → IsTrimmed (b':' ∷ t)
    → (msg : Message) × Shows msg p (codes "PING") [] t
      × (loop_round w depth now uptime (received line) s
          ≡ some (record (behind now msg s) {
            out = (behind now msg s).out ++ sent (codes "PONG " ++ t) ∷ [];
          }))
unfolding loop_round handle Irc.pong irc
loop_round-pong w depth now uptime line p t s l e kp np kt kw =
    let (ok, shows) = heard in
    (
      (parse w.hol empty (w.hol.trim line) now).1,
      shows,
      process-handle w depth now uptime line s (rw (e) refl) ok
          ∙ rw (shows.command, shows.trailing) refl,
    )
  where
    heard :
        ((parse w.hol empty (w.hol.trim line) now).0 ≡ true)
        × Shows (parse w.hol empty (w.hol.trim line) now).1 p (codes "PING") [] t
    heard =
        rw (e, ← append-nil (wire p (codes "PING") [] t))
          (parse-wire_spaced l empty now p (codes "PING") [] t [] kp np (ground arith) (cc)
            (ground arith) tt kt kw tt)

-- What the bot sends to leave a channel.
abbrev pub farewell : World → List Str → Str → List Effect
farewell w [] c = sent (codes "PART " ++ c ++ b' ' ∷ []) ∷ []
farewell w (g ∷ gs) c =
    sent (codes "PRIVMSG " ++ c ++ b' ' ∷ b':' ∷ w.random_element (g ∷ gs))
    ∷ sent (codes "PART " ++ c ++ b' ' ∷ [])
    ∷ []

abbrev pub farewells : World → List Str → List Str → List Effect
farewells w gs [] = []
farewells w gs (c ∷ cs) = farewell w gs c ++ farewells w gs cs

leave_one-eq :
    (w : World) (gs : List Str) (c : Str) (s : Bot)
    → get_vec (codes "goodbye") s ≡ gs
    → leave_one w c s ≡ record s { out = s.out ++ farewell w gs c }
unfolding leave_one Irc.say Irc.part Irc.send irc
leave_one-eq w [] c s h = rw (h, leave_one) refl
leave_one-eq w (g ∷ gs) c s h =
    rw (h, leave_one) (ap (λ (o : List Effect). record s { out = o }) (append_assoc s.out _ _))

leave_all-eq :
    (w : World) (gs cs : List Str) (s : Bot)
    → get_vec (codes "goodbye") s ≡ gs
    → leave_all w cs s ≡ record s { out = s.out ++ farewells w gs cs }
unfolding leave_all get_vec
leave_all-eq w gs [] s h = ap (λ (o : List Effect). record s { out = o }) (sym (append-nil s.out))
leave_all-eq w gs (c ∷ cs) s h =
    ap (leave_all w cs) (leave_one-eq w gs c s h)
    ∙ leave_all-eq w gs cs (record s { out = s.out ++ farewell w gs c }) h
    ∙ ap (λ (o : List Effect). record s { out = o })
        (append_assoc s.out (farewell w gs c) (farewells w gs cs))

-- The commands that end the bot, `/die`, `/restart` and `!die` with the right password: it says goodbye in
-- every channel where it knows a goodbye, leaves each, and is done; it restarts for `/restart` alone,
-- and nothing else about it changes.
pub die-farewells :
    (w : World) (s : Bot) (cmd : Str) (msg : Message)
    → let said = s.out ++ farewells w (get_vec (codes "goodbye") s) s.chans in
      (die w s ≡ record s { done = true; out = said })
      × (exec_restart w s ≡ record s { done = true; restart = true; out = said })
      × ((getstring [] (good (get_user_params w.hol msg))).1.fail ≡ false
          → pass_ok (getstring [] (good (get_user_params w.hol msg))).0 s ≡ true
          → bot_die w cmd msg s ≡ record s { done = true; out = said })
unfolding die exec_restart bot_die
die-farewells w s cmd msg =
    let left = leave_all-eq w (get_vec (codes "goodbye") s) s.chans s refl in
    (
      ap (λ (b : Bot). record b { done = true }) left,
      ap (λ (b : Bot). record b { restart = true; done = true }) left,
      λ f k. else_of _ _ _ f ∙ then_of _ _ _ k ∙ ap (λ (b : Bot). record b { done = true }) left,
    )
