-- ===== src/Props.antt =====
-- src/include/skivvy/props.h: `properties`, what is committed and what is not yet, and `transaction`.
-- Each method of `properties` holds the mutex for its whole run.
pub mod Commit
mod Tests
use skivvy.Base.{Option, some, none, List, [], ◌∷◌, ◌++◌, Str, str_eq, if◌then◌else◌}

-- `property_map`
abbrev pub PropertyMap : Type 0
PropertyMap = List (Str × Str)

pub record Properties : Type 0 where
  pub m : PropertyMap
  pub t : PropertyMap

abbrev pub new_properties : Properties
new_properties = record { m = []; t = [] }

-- `m.find(s)`
unfoldable pub find : Str → PropertyMap → Option Str
find s [] = none
find s ((k, v) ∷ m) = if str_eq k s then some v else find s m

-- `m[s] = v`
unfoldable pub put_property : Str → Str → PropertyMap → PropertyMap
put_property s v [] = (s, v) ∷ []
put_property s v ((k, u) ∷ m) =
    let rest = put_property s v m in if str_eq k s then (k, v) ∷ m else (k, u) ∷ rest

abbrev pub or_else : Option Str → Option Str → Option Str
or_else (some v) o = some v
or_else none o = o

abbrev pub value_or : Option Str → Str → Str
value_or (some v) dflt = v
value_or none dflt = dflt

unfoldable pub get_property : Str → Str → Properties → Str
get_property s dflt p = value_or (or_else (find s p.t) (find s p.m)) dflt

unfoldable pub set_property : Str → Str → Properties → Properties
set_property s v p = record p { t = put_property s v p.t }

-- The loop of `commit`.
unfoldable pub put_all : PropertyMap → PropertyMap → PropertyMap
put_all [] m = m
put_all ((k, v) ∷ t) m = put_all t (put_property k v m)

unfoldable pub commit : Properties → Properties
commit p = record { m = put_all p.t p.m; t = [] }

unfoldable pub rollback : Properties → Properties
rollback p = record p { t = [] }
