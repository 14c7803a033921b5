-- ===== src/Engine.antt =====
-- src/engine.rs: the engine that holds the handler's closure. Nushell is the fields of `Nu`; an
-- error is its text. The bus and a cancellation token are told apart by number.
pub mod Closure
pub mod Setup
pub mod Tests
use http_nu.Common.{
  ℕ, ◌⊎◌, Bool, inl, inr, List, [], ◌∷◌, ◌++◌, Option, none, some, Text, codes, length, decimal,
  ◌then_ok◌, head?,
}
use http_nu.Value.{
  Value, nothing, bool, string, list, Values, nil, cons, Columns, columns, column, end,
}

pub data ShellError : Type 0 where
  -- `GenericError`: title and message.
  generic : Text → Text → ShellError
  raised : Text → ShellError

-- What `parse` leaves in the working set: its errors as texts, the block and what is to be merged.
pub record Parsed (B D : Type 0) : Type 0 where
  pub parse_errors : List Text
  pub compile_errors : List Text
  pub block : B
  pub delta : D

-- States, blocks, deltas, stacks, pipeline data, values and closures.
pub record Nu (S B D K P V C : Type 0) : Type 0 where
  pub with_file : Option Text → S → S
  pub parse : S → Option Text → Text → Parsed B D
  pub merge_delta : D → S → Text ⊎ S
  pub eval_block_with_early_return : S → K → B → P → (ShellError ⊎ P) × K
  pub no_data : P
  pub into_value : P → ShellError ⊎ V
  pub into_closure : V → ShellError ⊎ C
  pub get_block : S → C → B
  -- The variable of each.
  pub required_positional : B → List (Option ℕ)
  pub merge_env : K → S → Text ⊎ S
  pub new_stack : K
  -- A variable with a constant value, merged.
  pub set_const : Text → Value → S → Text ⊎ S
  -- `captures_to_stack`, and output to a pipe.
  pub captures_to_stack : C → K
  pub push_redirection : K → K
  pub add_var : ℕ → V → K → K
  pub format_in_working_set : Parsed B D → ShellError → Text
  pub format_cli_error : S → ShellError → Text

pub record Engine (S C : Type 0) : Type 0 where
  pub state : S
  pub closure : Option C
  pub bus : ℕ
  pub sse_cancel_token : ℕ

pub record HttpNuOptions : Type 0 where
  pub dev : Bool
  pub datastar : Bool
  pub watch : Bool
  pub store : Option Text
  pub topic : Option Text
  pub expose : Option Text
  pub tls : Option Text
  pub services : Bool

abbrev pub opt_str : Option Text → Value
opt_str none = nothing
opt_str (some s) = string s

unfoldable pub options_record : HttpNuOptions → Columns
options_record o = column (codes "dev") (bool o.dev) (
    column (codes "datastar") (bool o.datastar) (
      column (codes "watch") (bool o.watch) (
        column (codes "store") (opt_str o.store) (
          column (codes "topic") (opt_str o.topic) (
            column (codes "expose") (opt_str o.expose) (
              column (codes "tls") (opt_str o.tls)
                (column (codes "services") (bool o.services) end)))))))

abbrev pub text_values : List Text → Values
text_values [] = nil
text_values (p ∷ ps) = cons (string p) (text_values ps)

module _ {S B D K P V C : Type 0} (nu : Nu S B D K P V C) where
  -- `map_err` with `format_cli_error` in the state.
  abbrev pub formatted : {A : Type 0} → S → ShellError ⊎ A → Text ⊎ A
  formatted s (inl e) = inl (nu.format_cli_error s e)
  formatted s (inr a) = inr a

  abbrev pub compile_checked : Parsed B D → Option Text → Text ⊎ Parsed B D
  compile_checked p none = inr p
  compile_checked p (some err) =
      inl (nu.format_in_working_set p (generic (codes "Compile error " ++ err) []))

  abbrev pub parse_checked : Parsed B D → Option Text → Text ⊎ Parsed B D
  parse_checked p none = compile_checked p (head? p.compile_errors)
  parse_checked p (some err) = inl (nu.format_in_working_set p (generic (codes "Parse error") err))

  -- A script without errors, as `parse_closure` and `eval` parse it.
  unfoldable pub parse_script : S → Option Text → Text → Text ⊎ Parsed B D
  parse_script s file script =
      let p = nu.parse s file script in parse_checked p (head? p.parse_errors)

  -- Exactly one argument.
  abbrev pub verify : List (Option ℕ) → C → Text ⊎ C
  verify (v ∷ []) c = inr c
  verify vs c =
      inl (codes "Closure must accept exactly one request argument, found " ++ decimal (length vs))

  abbrev pub closure_of : S → ShellError ⊎ P → Text ⊎ C
  closure_of s result = formatted s result then_ok λ p. formatted s (nu.into_value p) then_ok λ v.
      formatted s (nu.into_closure v) then_ok λ c.
      verify (nu.required_positional (nu.get_block s c)) c

  -- An engine that fails to parse is dropped by its one caller.
  unfoldable pub parse_closure : Text → Option Text → Engine S C → Text ⊎ Engine S C
  unfolding parse_script
  parse_closure script file engine =
      let state = nu.with_file file engine.state in
      parse_script state file script then_ok λ p. nu.merge_delta p.delta state then_ok λ merged.
      let (result, stack) =
        nu.eval_block_with_early_return merged nu.new_stack p.block nu.no_data in
      closure_of merged result then_ok λ c.
      nu.merge_env stack merged then_ok λ s. inr (record engine { state = s; closure = some c })

  -- The engine keeps the file, and nothing of what the script defines.
  unfoldable pub eval : Text → Option Text → Engine S C → (Text ⊎ V) × Engine S C
  unfolding parse_script
  eval script file engine =
      let state = nu.with_file file engine.state in
      (
        parse_script state file script then_ok (λ p. nu.merge_delta p.delta state then_ok (λ merged.
            formatted merged
              (nu.eval_block_with_early_return merged nu.new_stack p.block nu.no_data).0
            then_ok (λ result. formatted merged (nu.into_value result)))),
        record engine { state = state },
      )

  abbrev pub run_block : S → K → B → P → Text ⊎ P
  run_block s stack block piped =
      formatted s (nu.eval_block_with_early_return s stack block piped).0

  -- `required_positional[0].var_id.unwrap()`; `none` is a panic.
  abbrev pub first_var : List (Option ℕ) → Option ℕ
  first_var [] = none
  first_var (v ∷ vs) = v

  abbrev pub run_with : S → C → V → P → Option ℕ → Option (Text ⊎ P)
  run_with s c input piped none = none
  run_with s c input piped (some v) =
      let stack = nu.add_var v input (nu.push_redirection (nu.captures_to_stack c)) in
      some (run_block s stack (nu.get_block s c) piped)

  abbrev pub run_parsed : S → V → P → Option C → Option (Text ⊎ P)
  run_parsed s input piped none = some (inl (codes "Closure not parsed"))
  run_parsed s input piped (some c) =
      run_with s c input piped (first_var (nu.required_positional (nu.get_block s c)))

  unfoldable pub run_closure : Engine S C → V → P → Option (Text ⊎ P)
  run_closure engine input piped = run_parsed engine.state input piped engine.closure

  -- An engine, or the error that is logged without its colours.
  abbrev pub or_logged : (Text → Text) → Text ⊎ Engine S C → Text ⊎ Engine S C
  or_logged strip (inl e) = inl (strip e)
  or_logged strip (inr engine) = inr engine

  unfoldable pub script_to_engine :
      (Text → Text) → ℕ → Engine S C → Text → Option Text → Text ⊎ Engine S C
  unfolding parse_closure
  script_to_engine strip token base script file =
      or_logged strip (parse_closure script file (record base { sse_cancel_token = token }))

  abbrev pub with_state : Engine S C → Text ⊎ S → Text ⊎ Engine S C
  with_state engine (inl e) = inl e
  with_state engine (inr s) = inr (record engine { state = s })

  unfoldable pub set_http_nu_const : HttpNuOptions → Engine S C → Text ⊎ Engine S C
  unfolding options_record
  set_http_nu_const o engine =
      with_state engine (nu.set_const (codes "$HTTP_NU") (columns (options_record o)) engine.state)

  unfoldable pub set_lib_dirs : List Text → Engine S C → Text ⊎ Engine S C
  set_lib_dirs [] engine = inr engine
  set_lib_dirs (p ∷ ps) engine =
      with_state engine
        (nu.set_const (codes "$NU_LIB_DIRS") (list (text_values (p ∷ ps))) engine.state)
