-- ===== src/EventLoop/Samples.antt =====
-- Types for those that src/event_loop.rs leaves open, for tests.
use cache_action.Base.{ℕ, [], ◌∷◌, ◌++◌, none, ok, sym, append-nil, append_assoc}
use cache_action.Io.{Bytes}
use cache_action.Protocol.Samples.{sample}
use cache_action.EventLoop.{Context}
use cache_action.EventLoop.Handle.{Externals, PathInfos}
use cache_action.EventLoop.Handle.HashAndCount.{Sha256}

abbrev pub context : Context
context = record {
  crates = sample;
  CacheError = ℕ;
  PathInfosError = ℕ;
  StoreClosureError = ℕ;
  WriteNarError = ℕ;
  ConnectionWriter = ℕ;
}

-- A hash that keeps all that it is given.
abbrev pub keep_all : Sha256
keep_all = record {
  Sha = Bytes;
  Digest = Bytes;
  empty = [];
  update = ◌++◌;
  finalize = λ s. s;
  update-nil = append-nil;
  update-append = λ s xs ys. sym (append_assoc s xs ys);
}

abbrev pub externals : Externals
externals = record {
  Url = Bytes;
  HttpError = ℕ;
  Basename = ℕ;
  Signature = ℕ;
  ContentAddress = ℕ;
  NarUploadState = ℕ;
  sha256 = keep_all;
  push_segment = λ url name. url ++ 47 ∷ name;
  narinfo_filename = λ hash. hash ∷ [];
}

abbrev pub path_infos : PathInfos context externals
path_infos = record {
  references = ok (8 ∷ 9 ∷ []);
  deriver = ok none;
  signatures = ok (6 ∷ []);
  content_address = ok none;
}
