-- ===== src/Startup/Main.antt =====
-- `main` of src/main.rs as a whole: the `eval` subcommand, and the server up to the call of `serve`.
-- What opens a store, reads a file and reads the standard input are parameters; what the sources send and `serve`
-- have their own files.
use http_nu.Common.{
  ℕ, ◌⊎◌, inl, inr, Bool, true, false, List, [], ◌∷◌, ◌++◌, Option, none, some, Text, codes,
  ◌then_ok◌, is_some,
}
use http_nu.Engine.{Nu, Engine, HttpNuOptions, set_lib_dirs, set_http_nu_const, eval}
use http_nu.Engine.Setup.{
  Setup, new_engine, add_custom_commands, load_plugins, configure_engine, with_signals,
  create_base_engine,
}
use http_nu.Logging.Human.{Event, shutdown, StartupOptions}
use http_nu.Startup.{
  Args, http_nu_options, startup_options, Source, from_topic, from_commands, from_stdin, from_file,
  refused, impossible, source_of_handler, eval_script, EvalOutcome, eval_outcome,
}

-- The arguments of `eval`, with the global ones.
pub record EvalArgs : Type 0 where
  pub file : Option Text
  pub commands : Option Text
  pub store : Option Text
  pub datastar : Bool
  pub dev : Bool
  pub plugins : List Text
  pub include_paths : List Text

unfoldable pub eval_options : EvalArgs → HttpNuOptions
eval_options a = record {
  dev = a.dev;
  datastar = a.datastar;
  watch = false;
  store = a.store;
  topic = none;
  expose = none;
  tls = none;
  services = false;
}

-- How `main` ends before `serve`: with the message of an error and the exit code 1; with a panic; with the
-- outcome of `eval` and what it logged; or in `serve`.
pub data Launch (E : Type 0) : Type 0 where
  stops : Text → Launch E
  panics : Launch E
  evaluated : EvalOutcome → List Event → Launch E
  serves : Text → Source → E → StartupOptions → Launch E

abbrev pub usage : Text
usage =
    codes "Usage: http-nu <ADDR> [OPTIONS]\n       http-nu eval [OPTIONS]\n"
    ++ codes "\nRun `http-nu --help` for more information."

-- `open_store` gives an error, if it fails.
module _ {S I P G C B D K R V : Type 0} (o : Setup S I P G) (nu : Nu S B D K R V C)
    (open_store : Text → Option Text) where
  abbrev pub with_eval_store : Option Text → Engine S C → Text ⊎ Engine S C
  with_eval_store none engine = inr engine
  with_eval_store (some path) engine = opened (open_store path)
    where
      opened : Option Text → Text ⊎ Engine S C
      opened (some e) = inl e
      opened none = configure_engine o engine

  -- The store comes before the plugins, and Ctrl-C is not handled.
  unfoldable pub eval_engine : ℕ → ℕ → EvalArgs → Text ⊎ Engine S C
  unfolding new_engine add_custom_commands load_plugins configure_engine set_lib_dirs
      set_http_nu_const eval_options
  eval_engine bus token a =
      new_engine o bus token
      then_ok add_custom_commands o
      then_ok set_lib_dirs nu a.include_paths
      then_ok set_http_nu_const nu (eval_options a)
      then_ok with_eval_store a.store
      then_ok load_plugins o a.plugins
      then_ok λ engine. inr (with_signals o engine)

  abbrev pub shown : (V → Text) → Text ⊎ V → Text ⊎ Text
  shown show (inl e) = inl e
  shown show (inr v) = inr (show v)

  abbrev pub stopped_or : {A : Type 0} → Text ⊎ A → (A → Launch (Engine S C)) → Launch (Engine S C)
  stopped_or (inl e) f = stops e
  stopped_or (inr a) f = f a

  -- `eval`: the script is chosen first, and only an evaluation is followed by `shutdown`.
  unfoldable pub main_eval :
      (V → Text)
      → Text ⊎ Text
      → (Text → Text ⊎ (Text × Text))
      → ℕ
      → ℕ
      → EvalArgs
      → Launch (Engine S C)
  unfolding eval_script eval_engine eval_outcome eval
  main_eval show stdin read bus token a =
      stopped_or (eval_script stdin read a.file a.commands) (λ (script, path).
        stopped_or (eval_engine bus token a) (λ engine.
          evaluated (eval_outcome (shown show (eval nu script path engine).0)) (shutdown ∷ [])))

  abbrev pub store_failure : Option Text → Option Text
  store_failure none = none
  store_failure (some path) = failure path (open_store path)
    where
      failure : Text → Option Text → Option Text
      failure path none = none
      failure path (some e) = some (codes "Failed to open store at " ++ path ++ codes ": " ++ e)

  -- The first engine of the source is made before `serve`: a file is read and resolved, and the standard input is read
  -- whole without `watch`. What a source sends has a place in its channel.
  module _ (read_to_string : Text → Text ⊎ Text) (stdin : Option Text) where
    abbrev pub launched_file :
        Text → Text ⊎ Text → Text ⊎ Text → Launch (Engine S C) → Launch (Engine S C)
    launched_file path (inl e) resolved l =
        stops (codes "Error reading " ++ path ++ codes ": " ++ e)
    launched_file path (inr content) (inl e) l =
        stops (codes "Error resolving " ++ path ++ codes ": " ++ e)
    launched_file path (inr content) (inr script_path) l = l

    abbrev pub launched_stdin : Bool → Option Text → Launch (Engine S C) → Launch (Engine S C)
    launched_stdin true input l = l
    launched_stdin false none l = panics
    launched_stdin false (some script) l = l

    abbrev pub launched : Text → Args → Source → Engine S C → Launch (Engine S C)
    launched addr a (refused message) engine = stops message
    launched addr a impossible engine = panics
    launched addr a (from_topic topic) engine =
        serves addr (from_topic topic) engine (startup_options a)
    launched addr a (from_commands cmd) engine =
        serves addr (from_commands cmd) engine (startup_options a)
    launched addr a from_stdin engine =
        launched_stdin a.watch stdin (serves addr from_stdin engine (startup_options a))
    launched addr a (from_file path) engine =
        launched_file path (read_to_string path) (o.canonicalize path)
          (serves addr (from_file path) engine (startup_options a))

    abbrev pub launch_at : Text → Args → Option Text → Text ⊎ Engine S C → Launch (Engine S C)
    launch_at addr a (some e) engine = stops e
    launch_at addr a none (inl e) = stops e
    launch_at addr a none (inr engine) = launched addr a (source_of_handler a) engine

    -- The server: its address, its store, its base engine and the source of its handler, in this order.
    unfoldable pub main_server :
        ℕ → ℕ → Option Text → List Text → List Text → Args → Launch (Engine S C)
    unfolding create_base_engine source_of_handler startup_options http_nu_options
    main_server bus token none plugins include_paths a = stops usage
    main_server bus token (some addr) plugins include_paths a =
        launch_at addr a (store_failure a.store) (
          create_base_engine o nu bus token plugins include_paths (is_some a.store)
            (http_nu_options a))

-- What follows `serve`: an error is returned at once.
abbrev pub after_serve : Option Text → List Event
after_serve none = shutdown ∷ []
after_serve (some e) = []
