-- ===== src/Clients/Texts.antt =====
-- The texts of the errors in src/push.rs and src/stop.rs.
use cache_action.Base.{[], ◌∷◌}
use cache_action.Io.{Bytes}

abbrev pub connect_text : Bytes
connect_text =
    b'C' ∷ b'o' ∷ b'u' ∷ b'l' ∷ b'd' ∷ b'n' ∷ b'\'' ∷ b't' ∷ b' ' ∷ b'c' ∷ b'o' ∷ b'n' ∷ b'n' ∷ b'e'
    ∷ b'c' ∷ b't' ∷ b' ' ∷ b't' ∷ b'o' ∷ b' ' ∷ b'U' ∷ b'n' ∷ b'i' ∷ b'x' ∷ b' ' ∷ b'd' ∷ b'o'
    ∷ b'm' ∷ b'a' ∷ b'i' ∷ b'n' ∷ b' ' ∷ b's' ∷ b'o' ∷ b'c' ∷ b'k' ∷ b'e' ∷ b't' ∷ b':' ∷ b' ' ∷ []

abbrev pub write_text : Bytes
write_text =
    b'C' ∷ b'o' ∷ b'u' ∷ b'l' ∷ b'd' ∷ b'n' ∷ b'\'' ∷ b't' ∷ b' ' ∷ b'w' ∷ b'r' ∷ b'i' ∷ b't' ∷ b'e'
    ∷ b' ' ∷ b'm' ∷ b'e' ∷ b's' ∷ b's' ∷ b'a' ∷ b'g' ∷ b'e' ∷ b' ' ∷ b't' ∷ b'o' ∷ b' ' ∷ b'U'
    ∷ b'n' ∷ b'i' ∷ b'x' ∷ b' ' ∷ b'd' ∷ b'o' ∷ b'm' ∷ b'a' ∷ b'i' ∷ b'n' ∷ b' ' ∷ b's' ∷ b'o'
    ∷ b'c' ∷ b'k' ∷ b'e' ∷ b't' ∷ b':' ∷ b' ' ∷ []

abbrev pub copy_text : Bytes
copy_text =
    b'C' ∷ b'o' ∷ b'u' ∷ b'l' ∷ b'd' ∷ b'n' ∷ b'\'' ∷ b't' ∷ b' ' ∷ b'c' ∷ b'o' ∷ b'p' ∷ b'y' ∷ b' '
    ∷ b'b' ∷ b'y' ∷ b't' ∷ b'e' ∷ b's' ∷ b' ' ∷ b't' ∷ b'o' ∷ b' ' ∷ b's' ∷ b't' ∷ b'd' ∷ b'o'
    ∷ b'u' ∷ b't' ∷ b':' ∷ b' ' ∷ []
