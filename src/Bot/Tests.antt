-- ===== src/Bot/Tests.antt =====
-- A world, bots and messages for the tests of the bot.
mod Commands
mod Startup
use skivvy.Base.{true, false, none, some, List, [], ◌∷◌, ◌++◌, map, Str, codes, str_eq}
use skivvy.Hol.Model.{hol}
use skivvy.Message.{Message, empty}
use skivvy.Flood
use skivvy.Store.{StrVecMap}
use skivvy.Bot.{World, Bot, Plugin}

abbrev pub plugin : Plugin
plugin = record {
  id = codes "dice";
  name = codes "Dice";
  version = codes "1";
  commands = codes "!roll" ∷ [];
  help = λ c. c;
  monitor = none;
}

abbrev pub self_include : Str
self_include = codes "include: /c"

abbrev pub world : World
world = record {
  hol = hol;
  split_fold = λ text sep. text ∷ [];
  split_words = λ text. codes "#c" ∷ codes "wrong" ∷ [];
  random_element = λ vs. elim vs [ [] ↦ [] | v ∷ us ↦ v ];
  extract = λ text a b pos. none;
  wild_match = str_eq;
  getenv = λ v. codes "/home/bot";
  file = λ f. some self_include;
  writable = λ f. true;
  accepts = λ c. true;
  connects = λ h p. false;
  ls = λ d. some (codes "dice.so" ∷ []);
  factory = λ f. some plugin;
  starts = λ p. true;
  version = codes "0.1";
}

-- A bot with these properties, nicks and plugins, in one channel.
abbrev pub bot : StrVecMap → List Str → List Plugin → Bot
bot props nicks plugins = record {
  props = props;
  nick = codes "skivvy";
  nick_number = 0;
  info_nicks = nicks;
  info_user = codes "u";
  info_mode = codes "0";
  info_real = codes "Skivvy";
  chans = codes "#c" ∷ [];
  nicks = [];
  done = false;
  connected = false;
  registered = false;
  restart = false;
  debug = false;
  pinger_info = [];
  configfile = codes "/c";
  fc = Flood.init;
  store = record { store = []; ci = false; file = none; writable = true };
  plugins = plugins;
  commands = map (λ p. (codes "!roll", p)) plugins;
  chan_access = [];
  msgevents = [];
  monitors = [];
  out = [];
}

abbrev pub plain_bot : Bot
plain_bot = bot [] (codes "a" ∷ []) (plugin ∷ [])

abbrev pub locked_bot : Bot
locked_bot = bot ((codes "password", codes "secret" ∷ []) ∷ []) [] []

-- A message to the channel that says this.
abbrev pub says : Str → Message
says text = record empty {
  prefix = codes "n!u@h";
  command = codes "PRIVMSG";
  params = codes " #c :" ++ text;
}
