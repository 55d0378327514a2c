-- ===== src/Client/Button.antt =====
-- start_end_func of client/client_func.c, the thread that writes "Hi" to a UART until exit_app is
-- set. The result of write does not matter.
use panngo.Base.{ℕ, suc, List, [], ◌∷◌, Bool, if◌then◌else◌}

-- The thread still writes, or it has ended, after this many writes.
pub data Button : Type 0 where
  writing : ℕ → Button
  ended : ℕ → Button

-- The loop, for what it reads of exit_app.
unfoldable pub start_end_func : ℕ → List Bool → Button
start_end_func writes [] = writing writes
start_end_func writes (exit_app ∷ reads) =
    let rest = start_end_func (suc writes) reads in if exit_app then ended writes else rest
