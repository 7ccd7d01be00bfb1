-- ===== src/Protocol/Samples.antt =====
-- A small instance of what src/protocol.rs takes from other crates, for tests: the path of number
-- `n` is a slash and `n` letters.
use cache_action.Base.{
  ℕ, zero, suc, ◌≡◌, refl, ap, true, [], ◌∷◌, Result, ok, err, replicate, length, length-replicate,
  if◌then◌else◌, ◌==◌,
}
use cache_action.Io.{Bytes}
use cache_action.Io.Position.{position}
use cache_action.Protocol.Utf8.{is_utf8}
use cache_action.Protocol.{Crates}

abbrev pub text : ℕ → Bytes
text n = 47 ∷ replicate n 97

abbrev pub parse_text : Bytes → Result ℕ (Unit {0})
parse_text [] = err tt
parse_text (b ∷ bs) = if b == 47 then ok (length bs) else err tt

pub parse_text-text : (n : ℕ) → parse_text (text n) ≡ ok n
parse_text-text n = ap ok (length-replicate {A = ℕ} n 97)

letters_utf8 : (n : ℕ) → is_utf8 (replicate n 97) ≡ true
unfolding is_utf8
letters_utf8 zero = refl
letters_utf8 (suc n) = letters_utf8 n

pub text_utf8 : (n : ℕ) → is_utf8 (text n) ≡ true
unfolding is_utf8
text_utf8 n = letters_utf8 n

abbrev pub sample : Crates
sample = record {
  StorePath = ℕ;
  ParseError = Unit {0};
  display = text;
  parse = parse_text;
  hash = λ n. n;
  memchr = position;
  parse-display = parse_text-text;
  display_utf8 = text_utf8;
  memchr_first = λ b bs. refl;
}
