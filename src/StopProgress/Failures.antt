-- ===== src/StopProgress/Failures.antt =====
-- What a stop client reads of a path that the Sub60 cache has refused, at a concrete input: the texts of
-- src/event_loop.rs, src/any_cache.rs and src/sub60_cache.rs in the report of
-- src/real_stop_progress_reporter.rs.
use cache_action.Base.{replicate, zero, suc, ℕ, ◌≡◌, refl, [], ◌∷◌}
use cache_action.Io.{Bytes}
use cache_action.ErrorText.{ErrorText, alone, IsLine, IsLine-cons}
use cache_action.Protocol.Samples.{sample, text}
use cache_action.EventLoop.{Context, HandlePathError, ActionReport, check_nar_info_existence}
use cache_action.EventLoop.Texts.{handling_error}
use cache_action.Sub60Cache.{CacheRequestError, head, unexpected_response}
use cache_action.Sub60Cache.Samples.{web}
use cache_action.Sub60Cache.Texts.{WebTexts, cache_request_error}
use cache_action.AnyCache.{AnyCacheError, sub60_error}
use cache_action.AnyCache.Texts.{any_cache_error}
use cache_action.StopProgress.{error_line, summary}
use cache_action.StopProgress.Texts.{decimal}
use cache_action.StopProgress.Lines.{lines, summary-lines}

-- The daemon with a cache that is chosen when it starts.
abbrev context : Context
context = record {
  crates = sample;
  CacheError = AnyCacheError ⊥ (CacheRequestError web);
  PathInfosError = ℕ;
  StoreClosureError = ℕ;
  WriteNarError = ℕ;
  ConnectionWriter = ℕ;
}

abbrev texts : WebTexts web
texts = record {
  url_text = λ url. url;
  status_text = λ status. decimal status;
  etag_error = λ e. alone [];
  header_error = λ e. alone [];
  multiparts_error = λ e. alone [];
  parts_error = λ e. alone [];
  http_error = λ e. alone (decimal e);
  io_error = λ e. alone [];
}

abbrev cache_error : AnyCacheError ⊥ (CacheRequestError web) → ErrorText
cache_error e = any_cache_error (λ never. elim never [ ]) (λ s. cache_request_error web texts s) e

abbrev number_error : ℕ → ErrorText
number_error e = alone (decimal e)

abbrev error_of : HandlePathError context → ErrorText
error_of e = handling_error context cache_error number_error number_error e

-- The answer to the question for a NARInfo has a status that is not known, and a body.
abbrev refused : HandlePathError context
refused =
    check_nar_info_existence
      (sub60_error (unexpected_response head 500 (b'u' ∷ []) (b'n' ∷ b'o' ∷ [])))

abbrev told_line : Bytes
told_line =
    b'/' ∷ b'a' ∷ b'a' ∷ b':' ∷ b' ' ∷ b'c' ∷ b'o' ∷ b'u' ∷ b'l' ∷ b'd' ∷ b'n' ∷ 39 ∷ b't' ∷ b' '
    ∷ b'c' ∷ b'h' ∷ b'e' ∷ b'c' ∷ b'k' ∷ b' ' ∷ b'N' ∷ b'A' ∷ b'R' ∷ b'I' ∷ b'n' ∷ b'f' ∷ b'o'
    ∷ b' ' ∷ b'e' ∷ b'x' ∷ b'i' ∷ b's' ∷ b't' ∷ b'e' ∷ b'n' ∷ b'c' ∷ b'e' ∷ b' ' ∷ b'o' ∷ b'n'
    ∷ b' ' ∷ b'r' ∷ b'e' ∷ b'm' ∷ b'o' ∷ b't' ∷ b'e' ∷ b' ' ∷ b'c' ∷ b'a' ∷ b'c' ∷ b'h' ∷ b'e'
    ∷ b'\n' ∷ b' ' ∷ b' ' ∷ b'c' ∷ b'a' ∷ b'u' ∷ b's' ∷ b'e' ∷ b'd' ∷ b' ' ∷ b'b' ∷ b'y' ∷ b':'
    ∷ b' ' ∷ b'S' ∷ b'u' ∷ b'b' ∷ b'6' ∷ b'0' ∷ b' ' ∷ b'c' ∷ b'a' ∷ b'c' ∷ b'h' ∷ b'e' ∷ b' '
    ∷ b'e' ∷ b'r' ∷ b'r' ∷ b'o' ∷ b'r' ∷ b'\n' ∷ b' ' ∷ b' ' ∷ b'c' ∷ b'a' ∷ b'u' ∷ b's' ∷ b'e'
    ∷ b'd' ∷ b' ' ∷ b'b' ∷ b'y' ∷ b':' ∷ b' ' ∷ b'u' ∷ b'n' ∷ b'e' ∷ b'x' ∷ b'p' ∷ b'e' ∷ b'c'
    ∷ b't' ∷ b'e' ∷ b'd' ∷ b' ' ∷ b'r' ∷ b'e' ∷ b's' ∷ b'p' ∷ b'o' ∷ b'n' ∷ b's' ∷ b'e' ∷ b' '
    ∷ b'f' ∷ b'r' ∷ b'o' ∷ b'm' ∷ b' ' ∷ b'H' ∷ b'E' ∷ b'A' ∷ b'D' ∷ b' ' ∷ b'u' ∷ b':' ∷ b' '
    ∷ b'5' ∷ b'0' ∷ b'0' ∷ b':' ∷ b' ' ∷ b'n' ∷ b'o' ∷ b'\n' ∷ []

refused_line : error_line context (λ n. n) number_error error_of (2, error_of refused) ≡ told_line
unfolding decimal
refused_line = refl

abbrev report : ActionReport context
report = record {
  num_bytes_pushed = 2048;
  num_paths_pushed = 1;
  num_paths_skipped = 3;
  path_closure_errors = (4, 17) ∷ [];
  path_handling_errors = (2, refused) ∷ [];
}

letters-IsLine : (n : ℕ) → IsLine (replicate n 97)
letters-IsLine zero = refl
letters-IsLine (suc n) = IsLine-cons 97 (replicate n 97) refl (letters-IsLine n)

text-IsLine : (n : ℕ) → IsLine (text n)
text-IsLine n = IsLine-cons 47 (replicate n 97) refl (letters-IsLine n)

summary-lines_example : lines (summary context (λ n. n) number_error error_of report) ≡ 7
unfolding decimal
summary-lines_example =
    summary-lines context (λ n. n) number_error error_of text-IsLine report
      ((refl, tt), ((refl, (refl, (refl, tt))), tt))
