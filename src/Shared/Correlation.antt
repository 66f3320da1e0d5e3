-- ===== src/Shared/Correlation.antt =====
-- src/shared/correlation/: the id of a request.
pub mod Echo
use Prim.Native.Char.{code}
use Prim.Native.String.{String, [], ◌∷◌}
use nestjs_app.Prelude.{
  ℕ, suc, Bool, true, false, ◌&&◌, Option, none, some, ltb, leb, if◌then◌else◌,
}

-- `id.length` of a text of printable ASCII.
abbrev pub count : String → ℕ
count [] = 0
count (c ∷ s) = suc (count s)

abbrev pub max_header_length : ℕ
max_header_length = 64

-- `/^[\x21-\x7e]+$/`, for a text that is not empty.
abbrev pub is_printable : String → Bool
is_printable [] = true
is_printable (c ∷ s) = leb 0x21 (code c) && (leb (code c) 0x7e && is_printable s)

unfoldable pub is_valid_header : String → Bool
is_valid_header id = ltb 0 (count id) && (leb (count id) max_header_length && is_printable id)

-- The id that `use` sets on the response and runs the request under.
unfoldable pub id_of_request : (generated : String) → (header : Option String) → String
unfolding is_valid_header
id_of_request generated none = generated
id_of_request generated (some header) = if is_valid_header header then header else generated

-- `client.data?.correlationId ?? generate()`
unfoldable pub id_of_event : (generated : String) → (correlation_id : Option String) → String
id_of_event generated none = generated
id_of_event generated (some id) = id
