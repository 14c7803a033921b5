-- ===== src/Reload.antt =====
-- src/main.rs: `stdin_source`, `file_source` and `--commands`, with the loops that watch.
-- `script_to_engine` of the engine is a parameter, and `taken` engines are received before the
-- receiver is gone.
pub mod Stdin
pub mod Debounce
mod Tests
use http_nu.Common.{
  ℕ, zero, suc, Bool, true, false, List, [], ◌∷◌, Option, none, some, Text, Bytes, ◌⊎◌, inl, inr,
  is_empty, if◌then◌else◌, ◌==◌, length,
}

abbrev pub push_byte : ℕ → Option (Bytes × Bytes) → Option (Bytes × Bytes)
push_byte c none = none
push_byte c (some (buffer, rest)) = some (c ∷ buffer, rest)

-- The inner loop, up to a null or the end of the input; `none` when a read fails, as it does after
-- the bytes that are there when `fails`.
unfoldable pub read_script : Bool → Bytes → Option (Bytes × Bytes)
read_script true [] = none
read_script false [] = some ([], [])
read_script fails (c ∷ s) =
    let more = push_byte c (read_script fails s) in if c == 0 then some ([], s) else more

-- What `recv_timeout` returns; with a timeout, what the script file holds at that moment.
pub data Watched : Type 0 where
  changed : Watched
  unchanged : Watched
  watch_error : Watched
  timeout : Option Bytes → Watched
  disconnected : Watched

module _ {E : Type 0} (script_to_engine : Bytes → Option E) where
  -- `blocking_send`, and what follows when it succeeds.
  abbrev pub send_engine : ℕ → Option E → (ℕ → List E) → List E
  send_engine taken none onward = onward taken
  send_engine zero (some e) onward = []
  send_engine (suc n) (some e) onward = e ∷ onward n

  abbrev pub next_script : ℕ → Option (Bytes × Bytes) → (Bytes → ℕ → List E) → List E
  next_script taken none onward = []
  next_script taken (some ([], rest)) onward = []
  next_script taken (some (c ∷ buffer, rest)) onward =
      send_engine taken (script_to_engine (c ∷ buffer)) (onward rest)

  -- The outer loop, on fuel: each round takes a byte of the input at least.
  unfoldable pub stdin_loop : ℕ → Bool → Bytes → ℕ → List E
  unfolding read_script
  stdin_loop zero fails input taken = []
  stdin_loop (suc f) fails input taken =
      next_script taken (read_script fails input) (stdin_loop f fails)

  -- The engines that `stdin_source` sends while it watches.
  unfoldable pub stdin_source : Bool → Bytes → ℕ → List E
  unfolding stdin_loop
  stdin_source fails input taken = stdin_loop (suc (length input)) fails input taken

  abbrev pub read_engine : Option Bytes → Option E
  read_engine none = none
  read_engine (some content) = script_to_engine content

  -- The loop of `file_source`, with its `pending_reload`.
  unfoldable pub watch_loop : Bool → List Watched → ℕ → List E
  watch_loop pending [] taken = []
  watch_loop pending (changed ∷ es) taken = watch_loop true es taken
  watch_loop pending (unchanged ∷ es) taken = watch_loop pending es taken
  watch_loop pending (watch_error ∷ es) taken = watch_loop pending es taken
  watch_loop true (timeout content ∷ es) taken =
      send_engine taken (read_engine content) (watch_loop false es)
  watch_loop false (timeout content ∷ es) taken = watch_loop false es taken
  watch_loop pending (disconnected ∷ es) taken = []

  -- The first engine; `none` is the panic when nobody receives it.
  abbrev pub send_first : ℕ → Option E → (ℕ → List E) → Option (List E)
  send_first taken none onward = some (onward taken)
  send_first zero (some e) onward = none
  send_first (suc n) (some e) onward = some (e ∷ onward n)

  -- The whole standard input without watching, and the script of `--commands`.
  unfoldable pub single_source : Bytes → ℕ → Option (List E)
  single_source content taken = send_first taken (script_to_engine content) (λ n. [])

  abbrev pub watched : Bool → List Watched → ℕ → List E
  watched true es n = watch_loop false es n
  watched false es n = []

  -- `file_source`; on the left, it exits because the file is not read or its path not resolved.
  unfoldable pub file_source : Text ⊎ Bytes → Bool → List Watched → ℕ → Text ⊎ Option (List E)
  unfolding watch_loop
  file_source (inl e) watch es taken = inl e
  file_source (inr content) watch es taken =
      inr (send_first taken (script_to_engine content) (watched watch es))
