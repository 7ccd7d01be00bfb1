-- ===== src/Run/Texts.antt =====
-- The texts of src/run.rs.
use cache_action.Base.{[], ◌∷◌}
use cache_action.Io.{Bytes}

abbrev pub bind_text : Bytes
bind_text =
    b'C' ∷ b'o' ∷ b'u' ∷ b'l' ∷ b'd' ∷ b'n' ∷ b'\'' ∷ b't' ∷ b' ' ∷ b'b' ∷ b'i' ∷ b'n' ∷ b'd' ∷ b' '
    ∷ b't' ∷ b'o' ∷ b' ' ∷ b'U' ∷ b'n' ∷ b'i' ∷ b'x' ∷ b' ' ∷ b'd' ∷ b'o' ∷ b'm' ∷ b'a' ∷ b'i'
    ∷ b'n' ∷ b' ' ∷ b's' ∷ b'o' ∷ b'c' ∷ b'k' ∷ b'e' ∷ b't' ∷ b':' ∷ b' ' ∷ []

abbrev pub open_text : Bytes
open_text =
    b'C' ∷ b'o' ∷ b'u' ∷ b'l' ∷ b'd' ∷ b'n' ∷ b'\'' ∷ b't' ∷ b' ' ∷ b'o' ∷ b'p' ∷ b'e' ∷ b'n' ∷ b' '
    ∷ b'N' ∷ b'i' ∷ b'x' ∷ b' ' ∷ b's' ∷ b't' ∷ b'o' ∷ b'r' ∷ b'e' ∷ b':' ∷ b' ' ∷ []

abbrev pub fd_text : Bytes
fd_text =
    b'C' ∷ b'o' ∷ b'u' ∷ b'l' ∷ b'd' ∷ b'n' ∷ b'\'' ∷ b't' ∷ b' ' ∷ b'w' ∷ b'r' ∷ b'i' ∷ b't' ∷ b'e'
    ∷ b' ' ∷ b't' ∷ b'o' ∷ b' ' ∷ b'f' ∷ b'i' ∷ b'l' ∷ b'e' ∷ b' ' ∷ b'd' ∷ b'e' ∷ b's' ∷ b'c'
    ∷ b'r' ∷ b'i' ∷ b'p' ∷ b't' ∷ b'o' ∷ b'r' ∷ b' ' ∷ []

abbrev pub accept_text : Bytes
accept_text =
    b'C' ∷ b'o' ∷ b'u' ∷ b'l' ∷ b'd' ∷ b'n' ∷ b'\'' ∷ b't' ∷ b' ' ∷ b'a' ∷ b'c' ∷ b'c' ∷ b'e' ∷ b'p'
    ∷ b't' ∷ b' ' ∷ b's' ∷ b't' ∷ b'r' ∷ b'e' ∷ b'a' ∷ b'm' ∷ b':' ∷ b' ' ∷ []
