-- ===== src/Prelude/Text.antt =====
-- The text methods that the program uses. Letters outside ASCII are left as they are.
use Prim.Native.Nat.{◌-◌}
use Prim.Native.Char.{Char, code}
use Prim.Native.String
use Prim.Native.String.{String, char_at}
use mathlib.Core.Path.{◌≡◌}
use mathlib.Core.Logic.{◌↔◌}
use mathlib.Core.Bool.{Bool, true, false, ◌&&◌, ◌||◌}
use mathlib.Core.List.{List, [], ◌∷◌}
use native.Mathlib.Omega.{arith}
use text.Mathlib.Text.{◌==◌ as str_eq}
use text.Mathlib.TextEquality.{eq_iff}
use urateam.Prelude.Tests.{leb, if◌then◌else◌}
use urateam.Prelude.Lists.{In}

lower_char : Char → Char
lower_char c =
    if leb b'A' (code c) && leb (code c) b'Z'
    then char_at "abcdefghijklmnopqrstuvwxyz" (code c - b'A')
    else c

unfoldable pub to_lower : String → String
unfolding lower_char
to_lower String.[] = ""
to_lower (String.◌∷◌ c s) = String.◌∷◌ (lower_char c) (to_lower s)

-- `xs.includes(s)`
unfoldable pub includes : List String → String → Bool
includes [] s = false
includes (x ∷ xs) s = str_eq x s || includes xs s

pub includes_iff : (xs : List String) (s : String) → (includes xs s ≡ true) ↔ In s xs
unfolding includes
includes_iff [] s = (λ h. cc, λ h. elim h [ ])
includes_iff (x ∷ xs) s = ground (arith, eq_iff x s, includes_iff xs s)

-- The white space of ASCII, which `trim` removes.
abbrev pub is_space : Char → Bool
is_space c = (leb 9 (code c) && leb (code c) 13) || (leb 32 (code c) && leb (code c) 32)

unfoldable pub trim_start : String → String
trim_start String.[] = ""
trim_start (String.◌∷◌ c s) = let rest = trim_start s in if is_space c then rest else String.◌∷◌ c s

unfoldable pub trim_end : String → String
trim_end String.[] = ""
trim_end (String.◌∷◌ c s) =
    let rest = trim_end s in if is_space c && str_eq rest "" then "" else String.◌∷◌ c rest

unfoldable pub trim : String → String
unfolding trim_start trim_end
trim s = trim_end (trim_start s)

-- `s.endsWith(suffix)`
unfoldable pub ends_with : (suffix : String) → String → Bool
ends_with suffix String.[] = str_eq suffix ""
ends_with suffix (String.◌∷◌ c s) = str_eq suffix (String.◌∷◌ c s) || ends_with suffix s

-- `s.split(":")[0]`
unfoldable pub before_colon : String → String
before_colon String.[] = ""
before_colon (String.◌∷◌ c s) =
    let rest = before_colon s in if str_eq (String.◌∷◌ c "") ":" then "" else String.◌∷◌ c rest

abbrev push_front : Char → List String → List String
push_front c [] = String.◌∷◌ c "" ∷ []
push_front c (piece ∷ pieces) = String.◌∷◌ c piece ∷ pieces

-- `s.split(",")`
unfoldable pub split_comma : String → List String
split_comma String.[] = "" ∷ []
split_comma (String.◌∷◌ c s) =
    let rest = split_comma s in
    if leb b',' (code c) && leb (code c) b',' then "" ∷ rest else push_front c rest

-- The pieces of a template, one after the other.
abbrev pub template : List String → String
template [] = ""
template (piece ∷ pieces) = String.◌++◌ piece (template pieces)
