-- ===== src/Commands.antt =====
-- src/commands.rs: `print`, `.run`, `.bus pub`, `.highlight theme` and `.highlight lang`. Nushell
-- and syntect are parameters; the arguments are read.
pub mod Signatures
mod Tests
use http_nu.Common.{
  ℕ, ◌⊎◌, inl, inr, Bool, true, false, List, [], ◌∷◌, ◌++◌, map, Option, none, some, Text, codes,
  join, is_empty, if◌then◌else◌, ◌then_ok◌,
}
use http_nu.Value.{
  Value, nothing, string, list, columns, Values, nil, cons, column, end, PipelineData, empty, value,
  list_stream, byte_stream, ByteStream,
}
use http_nu.Bus.{BusEvent}
use http_nu.Engine.{ShellError, generic, Parsed, Nu, text_values, raised}

-- What `log_print` is called with.
abbrev pub unless_empty : Text → Option Text
unless_empty [] = none
unless_empty (c ∷ s) = some (c ∷ s)

abbrev pub separator : Bool → Text
separator true = []
separator false = codes "\n"

abbrev pub printed : ShellError ⊎ Text → ShellError ⊎ Option Text
printed (inl e) = inl e
printed (inr s) = inr (unless_empty s)

-- `PrintCommand::run`: the message that is logged, if any. `is_nothing` is true of no data and of
-- the value nothing.
unfoldable pub run_print :
    (Value → Text)
    → (ByteStream → ShellError ⊎ Text)
    → List Value
    → Bool
    → PipelineData
    → ShellError ⊎ Option Text
run_print format into_string (v ∷ vs) no_newline input =
    inr (some (join (separator no_newline) (map format (v ∷ vs))))
run_print format into_string [] no_newline empty = inr none
run_print format into_string [] no_newline (value nothing meta) = inr none
run_print format into_string [] no_newline (value v meta) = inr (unless_empty (format v))
run_print format into_string [] no_newline (list_stream vs meta) =
    inr (unless_empty (join (codes "\n") (map format vs)))
run_print format into_string [] no_newline (byte_stream b meta) = printed (into_string b)

-- `BusPubCommand::run`: what is published.
unfoldable pub run_pub :
    (PipelineData → ShellError ⊎ Value) → Text → PipelineData → ShellError ⊎ BusEvent Value
run_pub into_value topic input =
    into_value input then_ok λ v. inr (record { topic = topic; value = v })

-- `HighlightThemeCommand::run`.
unfoldable pub run_theme : List Text → (Text → Text ⊎ Text) → Option Text → ShellError ⊎ Value
run_theme themes css_for_theme none = inr (list (text_values themes))
run_theme themes css_for_theme (some name) = css (css_for_theme name)
  where
    css : Text ⊎ Text → ShellError ⊎ Value
    css (inl e) = inl (generic (codes "Failed to generate CSS: " ++ e) e)
    css (inr s) = inr (string s)

-- `HighlightLangCommand::run`.
unfoldable pub run_lang : List (Text × List Text) → Values
run_lang [] = nil
run_lang ((name, exts) ∷ ls) =
    cons
      (columns (
        column (codes "name") (string name)
          (column (codes "extensions") (list (text_values exts)) end)))
      (run_lang ls)

module _ {S B D K P V C : Type 0} (nu : Nu S B D K P V C) where
  -- Each error on lines of its own.
  abbrev pub combined : Parsed B D → (Text → ShellError) → List Text → Text
  combined p error [] = []
  combined p error (e ∷ es) =
      nu.format_in_working_set p (error e) ++ codes "\n" ++ combined p error es

  abbrev pub merged : Text ⊎ S → ShellError ⊎ S
  merged (inl e) = inl (raised e)
  merged (inr s) = inr s

  abbrev pub unless_errors :
      (Text → Text) → Parsed B D → (Text → ShellError) → List Text → ShellError ⊎ Parsed B D
  unless_errors strip p error [] = inr p
  unless_errors strip p error (e ∷ es) = inl (generic (strip (combined p error (e ∷ es))) [])

  -- `RunNuCommand::run`; what the script defines goes with the sandbox.
  unfoldable pub run_nu : (Text → Text) → Text → P → S → ShellError ⊎ P
  run_nu strip script input state =
      let p = nu.parse state (some (codes "<.run>")) script in
      unless_errors strip p (λ e. generic (codes "Parse error") e) p.parse_errors then_ok λ parsed.
      unless_errors strip p (λ e. generic (codes "Compile error " ++ e) []) p.compile_errors
      then_ok λ compiled. merged (nu.merge_delta p.delta state) then_ok λ sandbox.
          (nu.eval_block_with_early_return sandbox nu.new_stack p.block input).0
