-- ===== src/Lib.antt =====
-- A model of skivvy, an IRC bot, and the theorems that make its parts correct.
--
-- The program. A server object (src/IrcServer.cpp) writes commands to an IRC network and hands
-- the lines it receives to the bot, which parses each one as a `message` (src/message.cpp) and
-- gives it to the plugins. Replies go through the `FloodController` (src/FloodController.cpp), which
-- queues them by channel and lets them out in turn. What the bot remembers stands in a `Store`
-- (src/include/skivvy/store.h), a map of string vectors with a text file behind it; structured
-- values, messages among them, are written with the bracket format of src/store.cpp.
--
-- The files.
--   Base            native numbers, Boolean tests, lists and byte strings; no code of the program
--   Stream          std::istringstream: the bytes left and the state bits, and peek, get, ignore,
--                   getline and >> as the standard says they change these
--   Hol             the library hol, which is not in the repository: its string functions are the
--                   record `Hol`, their documented behaviour the record `IsHol`, and Hol/Model is
--                   one library that has it. Theorems over hol take both as arguments.
--   Params          message::gettrailing, getmiddle, getparams; Params/Grammar has the grammar of
--                   the comments, Params/RoundTrip and Params/Sound the two directions
--   Message         the class message: parse and the getters (Prefix, Parse, Channel)
--   Codec           escape, unescape, getobject, extract and the containers, pairs and messages
--                   that are written with them (Escape, Objects, Containers)
--   Flood           FloodController: its queues, keys and index, and a round of its dispatcher
--                   (Channels: the invariant; Round: what a round finds; Fair: fairness;
--                   Refines: the promise of a queue for each channel)
--   Store           ci_cmp_type and the map of vectors (Order, Map); Store/Backup is MappedStore and
--                   BackupStore (Text, Replace: the file; Elements, Change: the operations;
--                   Persist: file and map agree); Store/File is FileStore (Lines, Overwrite)
--   Irc             BaseIrcServer: the text of every command; TestIrcServer and RemoteIrcServer: what
--                   is written and read (Relay: what a client parses of a command; Wire: the socket;
--                   Reply: where replies go)
--   BotDb           src/botdb.cpp: BotDbImpl and Transaction (Commit: what is saved; Transactions:
--                   sequences of them)
--   Plugin          src/ircbot.cpp: the actions of BasicIrcBotPlugin (Actions), and the functions that
--                   wait for a message, add_msgevent and dispatch_msgevent (Events)
--   Colors          src/irc.cpp: closest_color (Nearest), oa_to_IRC (Quake)
--   Utils           src/utils.cpp: parse_rangelist (Digits, Ranges), wild_replace and prompt_color
--                   (Wild)
--   Timers          src/Timers.cpp: RandomTimer (Users)
--   Props           src/include/skivvy/props.h: properties and their transactions (Commit)
--   Net             src/network.cpp: Url codes and entities (Marked, Decoded, Ends), Http headers and
--                   data (Chunks, Ordered, Headers), Cookies (Jar), Html (Plain)
--   Trivial         src/plugin-trivial.cpp: the quiz (Fair, Points) and its file (File)
--   Cal             src/include/skivvy/cal.h and src/cal.cpp: dates (Back: going back day by day)
--   Oastats         src/plugin-oastats.cpp: extract_y_and_m and get_url (Words, Bounds)
--   Diction         src/plugin-diction.cpp: the list of languages (Pages)
--   Bot             src/ircbot.cpp and src/include/skivvy/ircbot.h: IrcBot, its state, properties and
--                   replies; Bot/Config is load_props; Text getstring, print_duration and numbers;
--                   Plugins loading plugins; Access who may run a command; Exec exec; Builtins the
--                   commands that users type; Handlers the commands of the server; Loop init, the message
--                   loop and pinger. Theorems stand in SettingLine, Settings, Aliases, Allowed, Granted,
--                   Guarded, Strings, Unique, SignOn, Reconnect, Answers and Replies.
--
-- How code becomes definitions. A `str` is the list of its byte values. An object is a record of
-- its fields, and a method takes the state and returns the new one with its result. An argument that
-- the source changes through a reference is an argument and a result. The methods of FloodController and
-- BackupStore (all but BackupStore::has, which takes none) hold a mutex for their whole run, so what
-- threads do is a sequence of whole calls, which the theorems on runs quantify over. `siz` has 64 bits
-- where the width matters (`size_for`).
--
-- Loops are structural recursion where they walk a list, and recursion on fuel where they read a
-- stream: each round of such a loop takes at least one byte off the stream, and the fuel is one more
-- than the bytes there are; the theorems that state what a loop returns hold for that fuel.
--
-- The loops over a socket are recursion on the list of what the socket answers; a list that ends
-- before the loop does stands for a call that still waits, and gives no result.
--
-- The bot. What it does to the world is the list `out` of effects, in order; a reply is queued as the
-- command that it will send. What stands outside the repository, or comes from the world, is the record
-- `World`: files, plugins, the wildcards of the C library, and which commands and connections the
-- server takes. The message loop and the pinger are two threads; a step of each is a function on the
-- state, the waits end where the next step begins. Reading the configuration is recursion on fuel, as a
-- file may include itself: `none` stands for a reader that has not returned, and the theorem on plain
-- files gives the fuel that is enough. A result `none` of the pinger stands for a read behind the end of
-- `info.nicks`.
--
-- Not modelled: the sockets themselves, threads and sleeping, logging, regular expressions and
-- wildcards, the other plugins and the main programs. Failures of streams that the code does not look at are
-- left out.
pub mod Base
pub mod Stream
pub mod Hol
pub mod Params
pub mod Message
pub mod Codec
pub mod Flood
pub mod Store
pub mod Irc
pub mod BotDb
pub mod Plugin
pub mod Colors
pub mod Bot
pub mod Utils
pub mod Timers
pub mod Props
pub mod Net
pub mod Trivial
pub mod Cal
pub mod Oastats
pub mod Diction
