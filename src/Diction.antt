-- ===== src/Diction.antt =====
-- src/plugin-diction.cpp: the list of languages, `!langs`. The functions `lowercase` and `trim` stand in
-- <skivvy/str.h>, which is not in the repository: they are parameters. Translations and dictionaries are on web sites and are not modelled.
pub mod Pages
mod Tests
use skivvy.Base.{
  ℕ, Bool, true, false, not, ◌&&◌, ◌||◌, List, [], ◌∷◌, ◌++◌, ltb, if◌then◌else◌, Str, codes,
  is_empty, length, map,
}
use skivvy.Hol.{is_prefix}

-- `langmap`, in the order of its keys
abbrev pub langmap : List (Str × Str)
langmap =
    (codes "af", codes "Afrikaans")
    ∷ (codes "ar", codes "Arabic")
    ∷ (codes "be", codes "Belarusian")
    ∷ (codes "bg", codes "Bulgarian")
    ∷ (codes "ca", codes "Catalan")
    ∷ (codes "cs", codes "Czech")
    ∷ (codes "cy", codes "Welsh")
    ∷ (codes "da", codes "Danish")
    ∷ (codes "de", codes "German")
    ∷ (codes "el", codes "Greek")
    ∷ (codes "en", codes "English")
    ∷ (codes "es", codes "Spanish")
    ∷ (codes "et", codes "Estonian")
    ∷ (codes "fa", codes "Persian")
    ∷ (codes "fi", codes "Finnish")
    ∷ (codes "fr", codes "French")
    ∷ (codes "ga", codes "Irish")
    ∷ (codes "gl", codes "Galician")
    ∷ (codes "hi", codes "Hindi")
    ∷ (codes "hr", codes "Croatian")
    ∷ (codes "ht", codes "Haitian Creole")
    ∷ (codes "hu", codes "Hungarian")
    ∷ (codes "id", codes "Indonesian")
    ∷ (codes "is", codes "Icelandic")
    ∷ (codes "it", codes "Italian")
    ∷ (codes "iw", codes "Hebrew")
    ∷ (codes "ja", codes "Japanese")
    ∷ (codes "ko", codes "Korean")
    ∷ (codes "lt", codes "Lithuanian")
    ∷ (codes "lv", codes "Latvian")
    ∷ (codes "mk", codes "Macedonian")
    ∷ (codes "ms", codes "Malay")
    ∷ (codes "mt", codes "Maltese")
    ∷ (codes "nl", codes "Dutch")
    ∷ (codes "no", codes "Norwegian")
    ∷ (codes "pl", codes "Polish")
    ∷ (codes "pt", codes "Portuguese")
    ∷ (codes "pt-PT", codes "Portuguese(Portugal)")
    ∷ (codes "ro", codes "Romanian")
    ∷ (codes "ru", codes "Russian")
    ∷ (codes "sk", codes "Slovak")
    ∷ (codes "sl", codes "Slovenian")
    ∷ (codes "sq", codes "Albanian")
    ∷ (codes "sr", codes "Serbian")
    ∷ (codes "sv", codes "Swedish")
    ∷ (codes "sw", codes "Swahili")
    ∷ (codes "th", codes "Thai")
    ∷ (codes "tl", codes "Filipino")
    ∷ (codes "tr", codes "Turkish")
    ∷ (codes "uk", codes "Ukrainian")
    ∷ (codes "vi", codes "Vietnamese")
    ∷ (codes "yi", codes "Yiddish")
    ∷ (codes "zh-CN", codes "Chinese")
    ∷ []

-- `s.find(x) != str::npos`
abbrev pub finds : Str → Str → Bool
finds x [] = is_empty x
finds x (c ∷ s) = is_prefix x (c ∷ s) || finds x s

pub record Page : Type 0 where
  pub oss : Str
  pub sep : Str
  pub found : Bool
  -- what was replied, without `langs:` in front
  pub sent : List Str

-- `if(oss.str().size() > 200)`: the page is sent.
abbrev pub flush : Page → Page
flush p =
    if ltb 200 (length p.oss)
    then record p { sent = p.sent ++ p.oss ∷ []; oss = []; found = true }
    else p

abbrev pub entry : Str × Str → Str
entry (k, v) = k ++ codes ": " ++ v

-- `oss << sep << l.first << ": " << l.second; sep = ", ";`
abbrev pub put_language : Str × Str → Page → Page
put_language l p = record p { oss = p.oss ++ (p.sep ++ entry l); sep = codes ", " }

-- The loop, for the languages that pass the test.
unfoldable pub langs_loop : (Str × Str → Bool) → List (Str × Str) → Page → Page
langs_loop p [] s = s
langs_loop p (l ∷ ls) s = langs_loop p ls (if p l then put_language l (flush s) else s)

abbrev pub no_page : Page
no_page = record { oss = []; sep = []; found = false; sent = [] }

abbrev pub header : Str
header = 2 ∷ 3 ∷ codes "02langs: " ++ 15 ∷ 2 ∷ codes " "

abbrev pub none_found : Str
none_found = 2 ∷ 3 ∷ codes "03langs: " ++ 15 ∷ 2 ∷ codes " None found."

-- What `langs` replies for what the user asks for, a page after the other.
abbrev pub replies_of : Page → List Str
replies_of p =
    if not p.found && is_empty p.oss
    then none_found ∷ []
    else map (λ t. header ++ t) (p.sent ++ (if is_empty p.oss then [] else p.oss ∷ []))

module _ (lowercase trim : Str → Str) where
  abbrev pub is_asked : Str → Str × Str → Bool
  is_asked lang l = is_empty lang || finds lang (lowercase l.1)

  -- `langs(msg)` for the parameters of the message
  unfoldable pub langs : List (Str × Str) → Str → List Str
  langs ls params = replies_of (langs_loop (is_asked (trim (lowercase params))) ls no_page)
