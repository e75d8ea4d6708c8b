-- ===== src/Examples/Texts.antt =====
-- The strings of examples/write_example.cc.
use transfer_queue.Prelude.{[], ◌∷◌, Str}

-- "localhost"
abbrev pub localhost : Str
localhost = b'l' ∷ b'o' ∷ b'c' ∷ b'a' ∷ b'l' ∷ b'h' ∷ b'o' ∷ b's' ∷ b't' ∷ []

-- "sample-uid-12345"
abbrev pub sample_uid : Str
sample_uid =
    b's' ∷ b'a' ∷ b'm' ∷ b'p' ∷ b'l' ∷ b'e' ∷ b'-' ∷ b'u' ∷ b'i' ∷ b'd' ∷ b'-' ∷ b'1' ∷ b'2' ∷ b'3'
    ∷ b'4' ∷ b'5' ∷ []

-- "sample-instance-001"
abbrev pub sample_instance : Str
sample_instance =
    b's' ∷ b'a' ∷ b'm' ∷ b'p' ∷ b'l' ∷ b'e' ∷ b'-' ∷ b'i' ∷ b'n' ∷ b's' ∷ b't' ∷ b'a' ∷ b'n' ∷ b'c'
    ∷ b'e' ∷ b'-' ∷ b'0' ∷ b'0' ∷ b'1' ∷ []

-- "system"
abbrev pub system_role : Str
system_role = b's' ∷ b'y' ∷ b's' ∷ b't' ∷ b'e' ∷ b'm' ∷ []

-- "user"
abbrev pub user_role : Str
user_role = b'u' ∷ b's' ∷ b'e' ∷ b'r' ∷ []

-- "assistant"
abbrev pub assistant_role : Str
assistant_role = b'a' ∷ b's' ∷ b's' ∷ b'i' ∷ b's' ∷ b't' ∷ b'a' ∷ b'n' ∷ b't' ∷ []

-- "You are a helpful AI assistant."
abbrev pub system_content : Str
system_content =
    b'Y' ∷ b'o' ∷ b'u' ∷ 32 ∷ b'a' ∷ b'r' ∷ b'e' ∷ 32 ∷ b'a' ∷ 32 ∷ b'h' ∷ b'e' ∷ b'l' ∷ b'p' ∷ b'f'
    ∷ b'u' ∷ b'l' ∷ 32 ∷ b'A' ∷ b'I' ∷ 32 ∷ b'a' ∷ b's' ∷ b's' ∷ b'i' ∷ b's' ∷ b't' ∷ b'a' ∷ b'n'
    ∷ b't' ∷ b'.' ∷ []

-- "Explain quantum computing in simple terms."
abbrev pub user_content : Str
user_content =
    b'E' ∷ b'x' ∷ b'p' ∷ b'l' ∷ b'a' ∷ b'i' ∷ b'n' ∷ 32 ∷ b'q' ∷ b'u' ∷ b'a' ∷ b'n' ∷ b't' ∷ b'u'
    ∷ b'm' ∷ 32 ∷ b'c' ∷ b'o' ∷ b'm' ∷ b'p' ∷ b'u' ∷ b't' ∷ b'i' ∷ b'n' ∷ b'g' ∷ 32 ∷ b'i' ∷ b'n'
    ∷ 32 ∷ b's' ∷ b'i' ∷ b'm' ∷ b'p' ∷ b'l' ∷ b'e' ∷ 32 ∷ b't' ∷ b'e' ∷ b'r' ∷ b'm' ∷ b's' ∷ b'.'
    ∷ []

-- "Quantum computing uses quantum bits (qubits) that can exist in multiple states at once, unlike classical bits that are either 0 or 1."
abbrev pub assistant_content : Str
assistant_content =
    b'Q' ∷ b'u' ∷ b'a' ∷ b'n' ∷ b't' ∷ b'u' ∷ b'm' ∷ 32 ∷ b'c' ∷ b'o' ∷ b'm' ∷ b'p' ∷ b'u' ∷ b't'
    ∷ b'i' ∷ b'n' ∷ b'g' ∷ 32 ∷ b'u' ∷ b's' ∷ b'e' ∷ b's' ∷ 32 ∷ b'q' ∷ b'u' ∷ b'a' ∷ b'n' ∷ b't'
    ∷ b'u' ∷ b'm' ∷ 32 ∷ b'b' ∷ b'i' ∷ b't' ∷ b's' ∷ 32 ∷ b'(' ∷ b'q' ∷ b'u' ∷ b'b' ∷ b'i' ∷ b't'
    ∷ b's' ∷ b')' ∷ 32 ∷ b't' ∷ b'h' ∷ b'a' ∷ b't' ∷ 32 ∷ b'c' ∷ b'a' ∷ b'n' ∷ 32 ∷ b'e' ∷ b'x'
    ∷ b'i' ∷ b's' ∷ b't' ∷ 32 ∷ b'i' ∷ b'n' ∷ 32 ∷ b'm' ∷ b'u' ∷ b'l' ∷ b't' ∷ b'i' ∷ b'p' ∷ b'l'
    ∷ b'e' ∷ 32 ∷ b's' ∷ b't' ∷ b'a' ∷ b't' ∷ b'e' ∷ b's' ∷ 32 ∷ b'a' ∷ b't' ∷ 32 ∷ b'o' ∷ b'n'
    ∷ b'c' ∷ b'e' ∷ b',' ∷ 32 ∷ b'u' ∷ b'n' ∷ b'l' ∷ b'i' ∷ b'k' ∷ b'e' ∷ 32 ∷ b'c' ∷ b'l' ∷ b'a'
    ∷ b's' ∷ b's' ∷ b'i' ∷ b'c' ∷ b'a' ∷ b'l' ∷ 32 ∷ b'b' ∷ b'i' ∷ b't' ∷ b's' ∷ 32 ∷ b't' ∷ b'h'
    ∷ b'a' ∷ b't' ∷ 32 ∷ b'a' ∷ b'r' ∷ b'e' ∷ 32 ∷ b'e' ∷ b'i' ∷ b't' ∷ b'h' ∷ b'e' ∷ b'r' ∷ 32
    ∷ b'0' ∷ 32 ∷ b'o' ∷ b'r' ∷ 32 ∷ b'1' ∷ b'.' ∷ []
