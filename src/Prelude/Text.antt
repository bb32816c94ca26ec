-- ===== src/Prelude/Text.antt =====
-- Python's `upper` and `strip` on ASCII text.
use Prim.Native.Char.{Char, code}
use Prim.Native.String.{String}
use mathlib.Core.Path.{◌≡◌, refl}
use mathlib.Core.Bool.{Bool, ◌&&◌, ◌||◌}
use openwallstreet.Prelude.Tests.{eqb, leb, if◌then◌else◌, ◌==◌, string_eq}

-- The character that stands in `to` where `c` stands in `from`; `c` itself if it is not there.
translate : String → String → Char → Char
translate String.[] to c = c
translate (String.◌∷◌ f from) String.[] c = c
translate (String.◌∷◌ f from) (String.◌∷◌ t to) c =
    if eqb (code f) (code c) then t else translate from to c

upper_char : Char → Char
unfolding translate
upper_char = translate "abcdefghijklmnopqrstuvwxyz" "ABCDEFGHIJKLMNOPQRSTUVWXYZ"

-- `s.upper()`
unfoldable pub upper : String → String
unfolding upper_char
upper String.[] = String.[]
upper (String.◌∷◌ c s) = String.◌∷◌ (upper_char c) (upper s)

is_space : Char → Bool
is_space c =
    eqb (code c) 32 || (leb 9 (code c) && leb (code c) 13) || (leb 28 (code c) && leb (code c) 31)

strip_left : String → String
unfolding is_space
strip_left String.[] = String.[]
strip_left (String.◌∷◌ c s) = if is_space c then strip_left s else String.◌∷◌ c s

strip_right : String → String
unfolding is_space
strip_right String.[] = String.[]
strip_right (String.◌∷◌ c s) =
    let rest = strip_right s in if is_space c && rest == "" then "" else String.◌∷◌ c rest

-- `s.strip()`
unfoldable pub strip : String → String
unfolding strip_left strip_right
strip s = strip_left (strip_right s)

upper-strip : upper (strip " Sell ") ≡ "SELL"
unfolding upper strip
upper-strip = refl
