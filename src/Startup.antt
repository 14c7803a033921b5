-- ===== src/Startup.antt =====
-- src/main.rs, `main`: where the script comes from, the options that it passes on, and `eval`.
-- The store's feature is on.
pub mod Main
pub mod Signals
pub mod Launched
mod Tests
use http_nu.Common.{
  ℕ, ◌⊎◌, inl, inr, Bool, true, false, Option, none, some, Text, Bytes, codes, utf8, text_eq,
  if◌then◌else◌, is_empty,
}
use http_nu.Engine.{HttpNuOptions}
use http_nu.Logging.Human.{StartupOptions}

-- The arguments of the server. `clap` refuses `--commands` beside a script or `--watch`, and
-- `--topic` beside either or without `--store`.
pub record Args : Type 0 where
  pub dev : Bool
  pub datastar : Bool
  pub watch : Bool
  pub services : Bool
  pub tls : Option Text
  pub store : Option Text
  pub topic : Option Text
  pub expose : Option Text
  pub script : Option Text
  pub commands : Option Text

unfoldable pub http_nu_options : Args → HttpNuOptions
http_nu_options a = record {
  dev = a.dev;
  datastar = a.datastar;
  watch = a.watch;
  store = a.store;
  topic = a.topic;
  expose = a.expose;
  tls = a.tls;
  services = a.services;
}

abbrev pub bytes_of : Option Text → Option Bytes
bytes_of none = none
bytes_of (some t) = some (utf8 t)

unfoldable pub startup_options : Args → StartupOptions
unfolding utf8
startup_options a = record {
  watch = a.watch;
  tls = bytes_of a.tls;
  store = bytes_of a.store;
  topic = bytes_of a.topic;
  expose = bytes_of a.expose;
  services = a.services;
  datastar = a.datastar;
}

-- Where the handler comes from; `refused` exits with a message, and `impossible` panics.
pub data Source : Type 0 where
  from_topic : Text → Source
  from_commands : Text → Source
  from_stdin : Source
  from_file : Text → Source
  refused : Text → Source
  impossible : Source

abbrev pub path_source : Text → Source
path_source path = if text_eq path (codes "-") then from_stdin else from_file path

unfoldable pub script_source : Option Text → Option Text → Bool → Source
script_source (some path) (some cmd) watch = impossible
script_source none (some cmd) true = impossible
script_source none none watch =
    refused (codes "Error: provide a script file, --commands, or --topic")
script_source none (some cmd) false = from_commands cmd
script_source (some path) none watch = path_source path

-- `store` tells whether there is one.
unfoldable pub source_of_handler : Args → Source
unfolding script_source
source_of_handler a = elim (a.topic) [
  | none ↦ script_source a.script a.commands a.watch
  | some topic ↦ elim (a.store) [
    | none ↦ script_source a.script a.commands a.watch
    | some store ↦ from_topic topic
  ]
]

-- The script of `eval`, and the path that it is parsed with.
abbrev pub at_path : Text → Text ⊎ (Text × Text) → Text ⊎ (Text × Option Text)
at_path p (inl e) = inl e
at_path p (inr (script, path)) = inr (script, some path)

abbrev pub without_path : Text ⊎ Text → Text ⊎ (Text × Option Text)
without_path (inl e) = inl e
without_path (inr script) = inr (script, none)

-- `read` gives a file's text and its canonical path.
unfoldable pub eval_script :
    Text ⊎ Text
    → (Text → Text ⊎ (Text × Text))
    → Option Text
    → Option Text
    → Text ⊎ (Text × Option Text)
eval_script stdin read (some path) (some cmd) =
    inl (codes "Error: cannot specify both file and --commands")
eval_script stdin read none none = inl (codes "Error: provide a file or use --commands")
eval_script stdin read (some path) none =
    if text_eq path (codes "-") then without_path stdin else at_path path (read path)
eval_script stdin read none (some cmd) = inr (cmd, none)

-- What `eval` prints on the standard output and the standard error, and its exit code.
pub record EvalOutcome : Type 0 where
  pub stdout : Option Text
  pub stderr : Option Text
  pub exit_code : ℕ

unfoldable pub eval_outcome : Text ⊎ Text → EvalOutcome
eval_outcome (inl e) = record { stdout = none; stderr = some e; exit_code = 1 }
eval_outcome (inr output) = record {
  stdout = if is_empty output then none else some output;
  stderr = none;
  exit_code = 0;
}
