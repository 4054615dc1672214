-- ===== src/Codec/Tests.antt =====
-- Runs of the serialization, and the theorems at concrete values.
use skivvy.Base.{◌≡◌, refl, [], ◌∷◌, ◌++◌, arith, codes}
use skivvy.Stream.{good, getline}
use skivvy.Hol.Model.{hol, hol-IsHol}
use skivvy.Message.{Message}
use skivvy.Codec.{escape, unescape, write_container, read_container}
use skivvy.Codec.Escape.{unescape-escape}
use skivvy.Codec.Containers.{read-write_container}

escape-run : escape hol (codes "a{b},\\") ≡ codes "a\\1b\\2\\3\\0"
unfolding escape hol
escape-run = refl

write_container-run : write_container hol (codes "x" ∷ codes "y,z" ∷ []) ≡ codes "{{x}{y\\3z}}"
unfolding write_container escape hol getline
write_container-run = refl

unescape-escape_example : unescape hol (escape hol (codes "a{b},\\")) ≡ codes "a{b},\\"
unescape-escape_example = unescape-escape hol-IsHol (codes "a{b},\\")

read-write_container_example :
    read_container hol (good (write_container hol (codes "x" ∷ codes "{y,}" ∷ []) ++ codes "tail"))
    ≡ (codes "x" ∷ codes "{y,}" ∷ [], good (codes "tail"))
read-write_container_example =
    read-write_container hol-IsHol (codes "x" ∷ codes "{y,}" ∷ []) (codes "tail") (ground arith)

abbrev ping : Message
ping = record {
  line = codes "PING :x";
  when = 3;
  prefix = [];
  command = codes "PING";
  params = codes " :x";
}
