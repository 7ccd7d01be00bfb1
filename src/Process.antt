-- ===== src/Process.antt =====
-- What a process of src/run.rs, src/push.rs or src/stop.rs leaves behind.
use cache_action.Base.{ℕ, [], ◌∷◌, ◌++◌}
use cache_action.Io.{Bytes}

-- How a process ends.
pub record Exit : Type 0 where
  pub code : ℕ
  pub stdout : Bytes
  pub stderr : Bytes

abbrev pub success : Exit
success = record { code = 0; stdout = []; stderr = [] }

-- `eprintln!` and `process::exit(1)`
abbrev pub exit_with : Bytes → Exit
exit_with text = record { code = 1; stdout = []; stderr = text ++ b'\n' ∷ [] }
