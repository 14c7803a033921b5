-- ===== src/Engine/Tests.antt =====
-- A Nushell in which a script is the list of the variables of its closure's arguments.
use http_nu.Common.{
  ◌⊎◌, ◌then_ok◌, text_eq, ℕ, ◌≡◌, refl, sym, ap, some-injective, head?, arith, inr, inl, false,
  true, ◌++◌, length, List, [], ◌∷◌, Option, none, some, Text, codes,
}
use http_nu.Engine.{HttpNuOptions, Parsed, Nu, Engine, script_to_engine}
use http_nu.Startup.{Args}
use http_nu.Startup.Main.{main_server}
use http_nu.Startup.Launched.{Justified, main_server-Justified}
use http_nu.Commands.Signatures.{signature_of, names_of, distinct}
use http_nu.Engine.Setup.{Command, Setup, new_engine, add_custom_commands, create_base_engine}
use http_nu.Engine.Closure.{Runs, run_closure-script_to_engine}

abbrev pub arguments : List ℕ → List (Option ℕ)
arguments [] = []
arguments (v ∷ vs) = some v ∷ arguments vs

arguments-some : (b : List ℕ) (v : Option ℕ) → arguments b ≡ v ∷ [] → (i : ℕ) × (v ≡ some i)
arguments-some [] v h = absurd (ground arith)
arguments-some (i ∷ b) v h = (i, sym (some-injective (ap head? h)))

abbrev pub parsed_as : Text → Parsed (List ℕ) Text
parsed_as script = record { parse_errors = []; compile_errors = []; block = script; delta = script }

-- The state is the last script that was merged.
abbrev pub nu : Nu Text (List ℕ) Text Text Text Text Text
nu = record {
  with_file = λ f. λ s. s;
  parse = λ s. λ f. λ script. parsed_as script;
  merge_delta = λ d. λ s. inr d;
  eval_block_with_early_return = λ s. λ k. λ b. λ p. (inr b, k);
  no_data = [];
  into_value = inr;
  into_closure = inr;
  get_block = λ s. λ c. c;
  required_positional = arguments;
  merge_env = λ k. λ s. inr s;
  new_stack = [];
  set_const = λ n. λ v. λ s. inr s;
  captures_to_stack = λ c. [];
  push_redirection = λ k. k;
  add_var = λ i. λ v. λ k. i ∷ k;
  format_in_working_set = λ p. λ e. [];
  format_cli_error = λ s. λ e. [];
}

abbrev pub base : Engine Text Text
base = record { state = []; closure = none; bus = 0; sse_cancel_token = 0 }

abbrev pub loaded : ℕ → Text → Engine Text Text
loaded token script = record {
  state = script;
  closure = some script;
  bus = 0;
  sse_cancel_token = token;
}

run_closure-script_to_engine_example :
    Runs nu (record base { sse_cancel_token = 1 }) (codes "request") [] (loaded 1 (7 ∷ []))
unfolding script_to_engine
run_closure-script_to_engine_example =
    run_closure-script_to_engine nu (λ e. e) 1 base (loaded 1 (7 ∷ [])) (7 ∷ []) none
      (codes "request") [] (λ k. λ s. λ t. λ c. λ h. refl) arguments-some refl

abbrev appended : List Command → Text → Text
appended cs s = s ++ length cs ∷ []

abbrev setup : Setup Text Text Text Text
setup = record {
  initial_state = inr [];
  add_decls = λ cs. λ s. inr (appended cs s);
  canonicalize = inr;
  debug = λ p. p;
  new_identity = λ p. none;
  add_plugin = λ i. λ s. inr (i, s);
  get_signature = λ p. inr [];
  add_plugin_decls = λ p. λ gs. λ s. inr s;
  set_signals = λ s. s ++ 0 ∷ [];
  set_ctrlc_handler = λ s. none;
}

abbrev options : HttpNuOptions
options = record {
  dev = false;
  datastar = false;
  watch = false;
  store = some (codes "s");
  topic = none;
  expose = none;
  tls = none;
  services = false;
}

-- The commands, then those of the store, then the signals.
set_up :
    create_base_engine setup nu 0 0 [] [] true options
    ≡ inr (record { state = 14 ∷ 7 ∷ 2 ∷ 0 ∷ []; closure = none; bus = 0; sse_cancel_token = 0 })
unfolding create_base_engine
set_up = refl

bad_plugin :
    create_base_engine setup nu 0 0 (codes "p" ∷ []) [] true options
    ≡ inl (codes "Invalid plugin path p: must be named nu_plugin_*")
unfolding create_base_engine
bad_plugin = refl

abbrev serving : Args
serving = record {
  dev = false;
  datastar = false;
  watch = true;
  services = false;
  tls = none;
  store = some (codes "s");
  topic = some (codes "t");
  expose = none;
  script = none;
  commands = none;
}

main_server-Justified_example :
    Justified setup nu
      (λ p. none)
      inr
      none
      0
      0
      []
      []
      (some (codes ":80"))
      serving
      (main_server setup nu (λ p. none) inr none 0 0 (some (codes ":80")) [] [] serving)
main_server-Justified_example =
    main_server-Justified setup nu (λ p. none) inr none 0 0 [] [] (some (codes ":80")) serving
      (refl, refl)

abbrev recorder : Setup (List Command) Text Text Text
recorder = record {
  initial_state = inr [];
  add_decls = λ cs s. inr (s ++ cs);
  canonicalize = inr;
  debug = λ p. p;
  new_identity = λ p. none;
  add_plugin = λ i s. inr (i, s);
  get_signature = λ p. inr [];
  add_plugin_decls = λ p gs s. inr s;
  set_signals = λ s. s;
  set_ctrlc_handler = λ s. none;
}

abbrev commands_in : Text ⊎ Engine (List Command) Text → List Command
commands_in (inl e) = []
commands_in (inr e) = e.state

abbrev registered : List Command
registered = commands_in (new_engine recorder 0 0 then_ok add_custom_commands recorder)

-- None of the commands that are registered hides another.
no_name_hidden : distinct (names_of registered) ≡ true
unfolding new_engine add_custom_commands signature_of text_eq
no_name_hidden = refl

fourteen_names : length (names_of registered) ≡ 14
unfolding new_engine add_custom_commands signature_of
fourteen_names = refl
