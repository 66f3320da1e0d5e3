-- ===== src/Shared/Correlation/Echo.antt =====
-- What may stand in a response header.
use Prim.Native.String.{String}
use nestjs_app.Prelude.{◌≡◌, ◌≤◌, ◌<◌, true, Option, none, some, arith}
use nestjs_app.Shared.Correlation.{count, is_printable, is_valid_header, id_of_request}

-- Short, not empty, and printable ASCII without spaces: nothing that could end a line of a header.
abbrev pub IsHeaderSafe : String → Type 0
IsHeaderSafe id = (0 < count id) × (count id ≤ 64) × (is_printable id ≡ true)

valid-IsHeaderSafe : (id : String) → is_valid_header id ≡ true → IsHeaderSafe id
unfolding is_valid_header
valid-IsHeaderSafe id h = ground arith

-- Whatever a client sends, the id that is echoed is safe to echo, if the generated one is; and a
-- safe id that a client sends is echoed as it is.
pub id_of_request-IsHeaderSafe :
    (generated : String) (header : Option String) (sent : String)
    → IsHeaderSafe generated
    → IsHeaderSafe sent
    → IsHeaderSafe (id_of_request generated header) × (id_of_request generated (some sent) ≡ sent)
unfolding id_of_request is_valid_header
id_of_request-IsHeaderSafe generated none sent g h = (g, ground arith)
id_of_request-IsHeaderSafe generated (some header) sent g h = (ground arith, ground arith)
