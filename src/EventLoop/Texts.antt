-- ===== src/EventLoop/Texts.antt =====
-- The texts of a `HandlePathError` of src/event_loop.rs. Those of the errors in it are parameters.
use cache_action.Base.{[], ◌∷◌}
use cache_action.Io.{Bytes}
use cache_action.ErrorText.{ErrorText, caused, alone}
use cache_action.EventLoop.{
  Context, HandlePathError, check_nar_info_existence, create_nar_upload_id, get_path_infos,
  upload_nar, upload_nar_info, write_nar, write_nar_wrote_zero_bytes,
}

abbrev pub check_text : Bytes
check_text =
    b'c' ∷ b'o' ∷ b'u' ∷ b'l' ∷ b'd' ∷ b'n' ∷ 39 ∷ b't' ∷ b' ' ∷ b'c' ∷ b'h' ∷ b'e' ∷ b'c' ∷ b'k'
    ∷ b' ' ∷ b'N' ∷ b'A' ∷ b'R' ∷ b'I' ∷ b'n' ∷ b'f' ∷ b'o' ∷ b' ' ∷ b'e' ∷ b'x' ∷ b'i' ∷ b's'
    ∷ b't' ∷ b'e' ∷ b'n' ∷ b'c' ∷ b'e' ∷ b' ' ∷ b'o' ∷ b'n' ∷ b' ' ∷ b'r' ∷ b'e' ∷ b'm' ∷ b'o'
    ∷ b't' ∷ b'e' ∷ b' ' ∷ b'c' ∷ b'a' ∷ b'c' ∷ b'h' ∷ b'e' ∷ []

abbrev pub create_text : Bytes
create_text =
    b'c' ∷ b'o' ∷ b'u' ∷ b'l' ∷ b'd' ∷ b'n' ∷ 39 ∷ b't' ∷ b' ' ∷ b'c' ∷ b'r' ∷ b'e' ∷ b'a' ∷ b't'
    ∷ b'e' ∷ b' ' ∷ b'N' ∷ b'A' ∷ b'R' ∷ b' ' ∷ b'u' ∷ b'p' ∷ b'l' ∷ b'o' ∷ b'a' ∷ b'd' ∷ b' '
    ∷ b'I' ∷ b'D' ∷ []

abbrev pub infos_text : Bytes
infos_text =
    b'c' ∷ b'o' ∷ b'u' ∷ b'l' ∷ b'd' ∷ b'n' ∷ 39 ∷ b't' ∷ b' ' ∷ b'g' ∷ b'e' ∷ b't' ∷ b' ' ∷ b's'
    ∷ b't' ∷ b'o' ∷ b'r' ∷ b'e' ∷ b' ' ∷ b'p' ∷ b'a' ∷ b't' ∷ b'h' ∷ b' ' ∷ b'i' ∷ b'n' ∷ b'f'
    ∷ b'o' ∷ b's' ∷ []

abbrev pub upload_text : Bytes
upload_text =
    b'c' ∷ b'o' ∷ b'u' ∷ b'l' ∷ b'd' ∷ b'n' ∷ 39 ∷ b't' ∷ b' ' ∷ b'u' ∷ b'p' ∷ b'l' ∷ b'o' ∷ b'a'
    ∷ b'd' ∷ b' ' ∷ b'N' ∷ b'A' ∷ b'R' ∷ b' ' ∷ b't' ∷ b'o' ∷ b' ' ∷ b'c' ∷ b'a' ∷ b'c' ∷ b'h'
    ∷ b'e' ∷ []

abbrev pub narinfo_text : Bytes
narinfo_text =
    b'c' ∷ b'o' ∷ b'u' ∷ b'l' ∷ b'd' ∷ b'n' ∷ 39 ∷ b't' ∷ b' ' ∷ b'u' ∷ b'p' ∷ b'l' ∷ b'o' ∷ b'a'
    ∷ b'd' ∷ b' ' ∷ b'N' ∷ b'A' ∷ b'R' ∷ b'I' ∷ b'n' ∷ b'f' ∷ b'o' ∷ b' ' ∷ b't' ∷ b'o' ∷ b' '
    ∷ b'c' ∷ b'a' ∷ b'c' ∷ b'h' ∷ b'e' ∷ []

abbrev pub write_text : Bytes
write_text =
    b'c' ∷ b'o' ∷ b'u' ∷ b'l' ∷ b'd' ∷ b'n' ∷ 39 ∷ b't' ∷ b' ' ∷ b'g' ∷ b'e' ∷ b't' ∷ b' ' ∷ b'N'
    ∷ b'A' ∷ b'R' ∷ b' ' ∷ b'f' ∷ b'r' ∷ b'o' ∷ b'm' ∷ b' ' ∷ b's' ∷ b't' ∷ b'o' ∷ b'r' ∷ b'e' ∷ []

abbrev pub empty_text : Bytes
empty_text =
    b'g' ∷ b'o' ∷ b't' ∷ b' ' ∷ b'e' ∷ b'm' ∷ b'p' ∷ b't' ∷ b'y' ∷ b' ' ∷ b'N' ∷ b'A' ∷ b'R' ∷ b' '
    ∷ b'f' ∷ b'r' ∷ b'o' ∷ b'm' ∷ b' ' ∷ b's' ∷ b't' ∷ b'o' ∷ b'r' ∷ b'e' ∷ []

module _ (ctx : Context) (cache_error : ctx.CacheError → ErrorText)
    (infos_error : ctx.PathInfosError → ErrorText) (nar_error : ctx.WriteNarError → ErrorText) where
  open ctx use {CacheError, PathInfosError, WriteNarError}

  abbrev pub handling_error : HandlePathError ctx → ErrorText
  handling_error (check_nar_info_existence e) = caused check_text (cache_error e)
  handling_error (create_nar_upload_id e) = caused create_text (cache_error e)
  handling_error (get_path_infos e) = caused infos_text (infos_error e)
  handling_error (upload_nar e) = caused upload_text (cache_error e)
  handling_error (upload_nar_info e) = caused narinfo_text (cache_error e)
  handling_error (write_nar e) = caused write_text (nar_error e)
  handling_error write_nar_wrote_zero_bytes = alone empty_text
