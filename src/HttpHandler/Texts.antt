-- ===== src/HttpHandler/Texts.antt =====
-- The strings of server/http_handler.cc.
use transfer_queue.Prelude.{[], ◌∷◌, Str}

-- "OK"
abbrev pub ok_text : Str
ok_text = b'O' ∷ b'K' ∷ []

-- "Duplicate UID"
abbrev pub duplicate_uid : Str
duplicate_uid =
    b'D' ∷ b'u' ∷ b'p' ∷ b'l' ∷ b'i' ∷ b'c' ∷ b'a' ∷ b't' ∷ b'e' ∷ b' ' ∷ b'U' ∷ b'I' ∷ b'D' ∷ []

-- "Config updated"
abbrev pub config_updated : Str
config_updated =
    b'C' ∷ b'o' ∷ b'n' ∷ b'f' ∷ b'i' ∷ b'g' ∷ b' ' ∷ b'u' ∷ b'p' ∷ b'd' ∷ b'a' ∷ b't' ∷ b'e' ∷ b'd'
    ∷ []

-- "Buffer reset"
abbrev pub buffer_reset : Str
buffer_reset =
    b'B' ∷ b'u' ∷ b'f' ∷ b'f' ∷ b'e' ∷ b'r' ∷ b' ' ∷ b'r' ∷ b'e' ∷ b's' ∷ b'e' ∷ b't' ∷ []

-- "Instance deleted"
abbrev pub instance_deleted : Str
instance_deleted =
    b'I' ∷ b'n' ∷ b's' ∷ b't' ∷ b'a' ∷ b'n' ∷ b'c' ∷ b'e' ∷ b' ' ∷ b'd' ∷ b'e' ∷ b'l' ∷ b'e' ∷ b't'
    ∷ b'e' ∷ b'd' ∷ []

-- "Invalid JSON: "
abbrev pub invalid_json : Str
invalid_json =
    b'I' ∷ b'n' ∷ b'v' ∷ b'a' ∷ b'l' ∷ b'i' ∷ b'd' ∷ b' ' ∷ b'J' ∷ b'S' ∷ b'O' ∷ b'N' ∷ b':' ∷ b' '
    ∷ []

-- "Failed to serialize response: "
abbrev pub serialize_response : Str
serialize_response =
    b'F' ∷ b'a' ∷ b'i' ∷ b'l' ∷ b'e' ∷ b'd' ∷ b' ' ∷ b't' ∷ b'o' ∷ b' ' ∷ b's' ∷ b'e' ∷ b'r' ∷ b'i'
    ∷ b'a' ∷ b'l' ∷ b'i' ∷ b'z' ∷ b'e' ∷ b' ' ∷ b'r' ∷ b'e' ∷ b's' ∷ b'p' ∷ b'o' ∷ b'n' ∷ b's'
    ∷ b'e' ∷ b':' ∷ b' ' ∷ []

-- "Missing instance_id"
abbrev pub missing_instance_id : Str
missing_instance_id =
    b'M' ∷ b'i' ∷ b's' ∷ b's' ∷ b'i' ∷ b'n' ∷ b'g' ∷ b' ' ∷ b'i' ∷ b'n' ∷ b's' ∷ b't' ∷ b'a' ∷ b'n'
    ∷ b'c' ∷ b'e' ∷ b'_' ∷ b'i' ∷ b'd' ∷ []

-- "Unknown error"
abbrev pub unknown_error : Str
unknown_error =
    b'U' ∷ b'n' ∷ b'k' ∷ b'n' ∷ b'o' ∷ b'w' ∷ b'n' ∷ b' ' ∷ b'e' ∷ b'r' ∷ b'r' ∷ b'o' ∷ b'r' ∷ []

-- "json"
abbrev pub json_type : Str
json_type = b'j' ∷ b's' ∷ b'o' ∷ b'n' ∷ []

-- "text/plain"
abbrev pub plain_type : Str
plain_type = b't' ∷ b'e' ∷ b'x' ∷ b't' ∷ b'/' ∷ b'p' ∷ b'l' ∷ b'a' ∷ b'i' ∷ b'n' ∷ []
