-- ===== src/Examples/Names.antt =====
-- The order of names by their characters, and the theorem on canonical text at two field orders.
use Prim.Native.Char.{code}
use vocation_os.Prelude.{◌≡◌, refl, Bool, true, false, String, ltb, ◌==◌, if◌then◌else◌}
use vocation_os.Hash.{str, num, obj, end, field, stable_stringify}

name_le : String → String → Bool
name_le String.[] t = true
name_le (String.◌∷◌ c s) String.[] = false
name_le (String.◌∷◌ c s) (String.◌∷◌ d t) =
    let rest = name_le s t in
    if ltb (code c) (code d) then true else if code c == code d then rest else false

printed :
    stable_stringify name_le (obj (field "b" (num "1") (field "a" (str "x") end)))
    ≡ "{\"a\":\"x\",\"b\":1}"
unfolding stable_stringify name_le
printed = refl
