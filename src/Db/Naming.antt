-- ===== src/Db/Naming.antt =====
-- src/database/naming-strategy.ts: the names of columns.
pub mod Snake
use Prim.Native.Char.{Char, code}
use Prim.Native.String
use Prim.Native.String.{String, [], ◌∷◌}
use nestjs_app.Prelude.{
  ℕ, Bool, true, false, ◌&&◌, ◌||◌, leb, if◌then◌else◌, Option, none, some, List, ◌++◌,
}
use mathlib.Core.List as L
use nestjs_app.Js.{to_lower_case, join}

-- `[A-Z]`, `[a-z]` and `[a-z0-9]`
abbrev pub is_upper : Char → Bool
is_upper c = leb 65 (code c) && leb (code c) 90

abbrev pub is_lower : Char → Bool
is_lower c = leb 97 (code c) && leb (code c) 122

abbrev pub is_lower_or_digit : Char → Bool
is_lower_or_digit c = is_lower c || (leb 48 (code c) && leb (code c) 57)

-- `replace(/([a-z0-9])([A-Z])/g, '$1_$2')`. Two matches never share a letter.
unfoldable pub split_words : String → String
split_words [] = []
split_words (c ∷ []) = c ∷ []
split_words (c ∷ (d ∷ s)) =
    let rest = split_words (d ∷ s) in
    if is_lower_or_digit c && is_upper d then c ∷ ("_" ∷ rest) else c ∷ rest

-- `replace(/([A-Z])([A-Z][a-z])/g, '$1_$2')`. Nor do two of these.
unfoldable pub split_acronyms : String → String
split_acronyms [] = []
split_acronyms (c ∷ []) = c ∷ []
split_acronyms (c ∷ (d ∷ [])) = c ∷ (d ∷ [])
split_acronyms (c ∷ (d ∷ (e ∷ s))) =
    let rest = split_acronyms (d ∷ (e ∷ s)) in
    if is_upper c && (is_upper d && is_lower e) then c ∷ ("_" ∷ rest) else c ∷ rest

unfoldable pub snake_case : String → String
snake_case value = to_lower_case (split_acronyms (split_words value))

unfoldable pub column_name :
    (property_name custom_name : String) → (embedded_prefixes : List String) → String
unfolding snake_case
column_name property_name [] prefixes = snake_case (join "_" (prefixes ++ L.◌∷◌ property_name L.[]))
column_name property_name (c ∷ custom) prefixes = c ∷ custom

unfoldable pub join_column_name : (relation_name referenced_column_name : String) → String
join_column_name relation referenced =
    snake_case (String.◌++◌ relation (String.◌++◌ "_" referenced))

unfoldable pub join_table_column_name :
    (table_name property_name : String) → (column_name : Option String) → String
join_table_column_name table property none =
    snake_case (String.◌++◌ table (String.◌++◌ "_" property))
join_table_column_name table property (some column) =
    snake_case (String.◌++◌ table (String.◌++◌ "_" column))
