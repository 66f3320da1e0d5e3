-- ===== src/Durations.antt =====
-- src/common/utils/duration.ts. `none` is the error that is thrown; a number is exact, as
-- JavaScript has it below 2^53.
pub mod Format
use Prim.Native.Char.{Char, code}
use Prim.Native.String.{String, [], ◌∷◌}
use nestjs_app.Prelude.{
  ℕ, ◌+◌, ◌-◌, ◌*◌, Bool, true, false, ◌&&◌, Option, none, some, leb, ◌==◌, if◌then◌else◌,
}
use nestjs_app.Js.{trim}

-- `\d`
abbrev pub is_digit : Char → Bool
is_digit c = leb 48 (code c) && leb (code c) 57

-- `UNIT_TO_MS`, for a text of one letter.
unfoldable pub unit_to_ms : String → Option ℕ
unit_to_ms [] = none
unit_to_ms (c ∷ []) =
    if code c == b's'
    then some 1000
    else if code c == b'm'
    then some 60000
    else if code c == b'h'
    then some 3600000
    else if code c == b'd'
    then some 86400000
    else if code c == b'w'
    then some 604800000
    else none
unit_to_ms (c ∷ (d ∷ s)) = none

-- `(\d+)` takes all the digits, and `parseInt` reads them; with the rest of the text.
unfoldable pub take_digits : ℕ → String → ℕ × String
take_digits n [] = (n, [])
take_digits n (c ∷ s) = if is_digit c then take_digits (n * 10 + (code c - 48)) s else (n, c ∷ s)

abbrev pub times_unit : ℕ → Option ℕ → Option ℕ
times_unit n none = none
times_unit n (some unit) = some (n * unit)

unfoldable pub match_duration : String → Option ℕ
match_duration [] = none
match_duration (c ∷ s) =
    if is_digit c
    then (let (n, rest) = take_digits 0 (c ∷ s) in times_unit n (unit_to_ms rest))
    else none

unfoldable pub parse_duration_to_ms : String → Option ℕ
unfolding match_duration
parse_duration_to_ms duration = match_duration (trim duration)
