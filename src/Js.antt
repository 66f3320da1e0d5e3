-- ===== src/Js.antt =====
-- What the code uses of JavaScript's strings: `trim`, `toLowerCase`, `||` on a text, `join`.
mod Tests
use Prim.Native.Char.{Char, code}
use Prim.Native.String
use Prim.Native.String.{String, [], ◌∷◌}
use mathlib.Core.List as L
use mathlib.Core.List.{List}
use nestjs_app.Prelude.{
  ℕ, Bool, true, false, ◌&&◌, ◌||◌, Option, none, some, ◌==◌, leb, if◌then◌else◌,
}

-- The white space and line terminators of ECMAScript.
abbrev is_space : ℕ → Bool
is_space c =
    (leb 9 c && leb c 13)
    || c == 32
    || c == 160
    || c == 5760
    || (leb 8192 c && leb c 8202)
    || c == 8232
    || c == 8233
    || c == 8239
    || c == 8287
    || c == 12288
    || c == 65279

trim_start : String → String
trim_start [] = []
trim_start (c ∷ s) = if is_space (code c) then trim_start s else c ∷ s

is_blank : String → Bool
is_blank [] = true
is_blank (c ∷ s) = is_space (code c) && is_blank s

trim_end : String → String
trim_end [] = []
trim_end (c ∷ s) = if is_blank (c ∷ s) then [] else c ∷ trim_end s

unfoldable pub trim : String → String
unfolding trim_start trim_end is_blank
trim s = trim_end (trim_start s)

-- The letter of the second alphabet that stands where the first one has this letter.
unfoldable pub swap_case : String → String → Char → Char
swap_case (u ∷ us) (l ∷ ls) c = if code u == code c then l else swap_case us ls c
swap_case _ _ c = c

-- On ASCII letters; other letters are left as they are.
unfoldable pub to_lower_case : String → String
unfolding swap_case
to_lower_case [] = []
to_lower_case (c ∷ s) =
    swap_case "ABCDEFGHIJKLMNOPQRSTUVWXYZ" "abcdefghijklmnopqrstuvwxyz" c ∷ to_lower_case s

-- `text || null`
abbrev pub or_null : String → Option String
or_null [] = none
or_null (c ∷ s) = some (c ∷ s)

-- `text?.trim() || null`
unfoldable pub trim_or_null : Option String → Option String
unfolding trim
trim_or_null none = none
trim_or_null (some s) = or_null (trim s)

-- `parts.join(separator)`
unfoldable pub join : String → List String → String
join sep L.[] = []
join sep (L.◌∷◌ s L.[]) = s
join sep (L.◌∷◌ s (L.◌∷◌ t ts)) = String.◌++◌ s (String.◌++◌ sep (join sep (L.◌∷◌ t ts)))
