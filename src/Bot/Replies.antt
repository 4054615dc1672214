-- ===== src/Bot/Replies.antt =====
-- What a reply of the bot puts into the queues of the flood controller, the `fc_reply` functions of
-- src/ircbot.cpp: theorem.
use skivvy.Base.{Bool, true, ◌≡◌, ap, [], ◌∷◌, ◌++◌, if◌then◌else◌, Str, codes, str_eq}
use skivvy.Message.{Message, is_nick, get_to, reply_to}
use skivvy.Message.Prefix.{full_prefix}
use skivvy.Irc.{say, notice, send}
use skivvy.Irc.Relay.{last}
use skivvy.Irc.Reply.{reply_lem}
use skivvy.Flood.{queue_of}
use skivvy.Flood.Round.{queue_of-send}
use skivvy.Bot.{Bot, fc_send, fc_reply, fc_reply_pm, fc_reply_notice, fc_reply_pm_notice}

-- The queues of a bot with this command behind those of one channel.
abbrev pub Queued : Str → Str → Bot → Bot → Type 0
Queued chan cmd s s' =
    (j : Str)
    → queue_of j s'.fc.m
      ≡ (if str_eq chan j then queue_of chan s.fc.m ++ cmd ∷ [] else queue_of j s.fc.m)

fc_send-Queued :
    (chan cmd cmd' : Str) (s : Bot) → cmd ≡ cmd' → Queued chan cmd' s (fc_send chan cmd s)
unfolding fc_send
fc_send-Queued chan cmd cmd' s e j = rw (e) (queue_of-send j chan cmd' s.fc)

-- To a message whose prefix is `nick!user@host` with an allowed nick, each of the four replies puts one
-- command behind those that wait for the channel of the message: PRIVMSG or NOTICE, to
-- where a reply goes or to the nick, with the text; the other channels keep their commands.
pub fc_reply-Queued :
    (nick user host : Str)
    → is_nick nick ≡ true
    → (m : Message) (text : Str) (s : Bot)
    → let m' = record m { prefix = full_prefix nick user host } in
      Queued
        (get_to m')
        (codes "PRIVMSG " ++ reply_to m' ++ b' ' ∷ b':' ∷ text)
        s
        (fc_reply m' text s)
      × Queued
          (get_to m')
          (codes "NOTICE " ++ reply_to m' ++ b' ' ∷ b':' ∷ text)
          s
          (fc_reply_notice m' text s)
      × Queued
          (get_to m')
          (codes "PRIVMSG " ++ nick ++ b' ' ∷ b':' ∷ text)
          s
          (fc_reply_pm m' text s)
      × Queued
          (get_to m')
          (codes "NOTICE " ++ nick ++ b' ' ∷ b':' ∷ text)
          s
          (fc_reply_pm_notice m' text s)
unfolding fc_reply fc_reply_notice fc_reply_pm fc_reply_pm_notice say notice send
fc_reply-Queued nick user host k m text s =
    let m' = record m { prefix = full_prefix nick user host } in
    let (a, b, c, d) = reply_lem last nick user host k m text [] in
    (
      fc_send-Queued (get_to m') _ _ s (ap (λ (r : Str × Bool). r.0) a),
      fc_send-Queued (get_to m') _ _ s (ap (λ (r : Str × Bool). r.0) b),
      fc_send-Queued (get_to m') _ _ s (ap (λ (r : Str × Bool). r.0) c),
      fc_send-Queued (get_to m') _ _ s (ap (λ (r : Str × Bool). r.0) d),
    )
