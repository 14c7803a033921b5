-- ===== src/Engine/Setup.antt =====
-- src/engine.rs and `create_base_engine` of src/main.rs: how the engine is set up before a script
-- is parsed. What Nushell, its plugins and the process do is in `Setup`.
use http_nu.Common.{
  ℕ, ◌⊎◌, inl, inr, Bool, true, false, List, [], ◌∷◌, ◌++◌, Option, none, some, Text, codes,
  ◌then_ok◌,
}
use http_nu.Engine.{Nu, Engine, HttpNuOptions, set_lib_dirs, set_http_nu_const}

-- The commands that are registered, under the names of their types.
pub data Command : Type 0 where
  reverse_proxy : Command
  static_command : Command
  to_sse : Command
  -- With or without a store.
  mj : Bool → Command
  mj_compile : Bool → Command
  mj_render : Command
  highlight : Command
  highlight_theme : Command
  highlight_lang : Command
  md : Command
  print : Command
  run_nu : Command
  bus_pub : ℕ → Command
  bus_sub : ℕ → Command
  cat_stream : Command
  append : Command
  cas : Command
  last_stream : Command
  get : Command
  remove : Command
  scru128 : Command

-- Plugin identities, plugins and signatures.
pub record Setup (S I P G : Type 0) : Type 0 where
  -- The default context with the commands of the shell, the command line and `extra`, the embedded
  -- modules, the standard library and the parent's environment.
  pub initial_state : Text ⊎ S
  pub add_decls : List Command → S → Text ⊎ S
  pub canonicalize : Text → Text ⊎ Text
  -- `{path:?}`.
  pub debug : Text → Text
  pub new_identity : Text → Option I
  -- The plugin in the state.
  pub add_plugin : I → S → Text ⊎ (P × S)
  -- It is started, gets its metadata and tells its signatures.
  pub get_signature : P → Text ⊎ List G
  pub add_plugin_decls : P → List G → S → Text ⊎ S
  pub set_signals : S → S
  -- An error, if it fails.
  pub set_ctrlc_handler : S → Option Text

abbrev pub canonical : Text → Text ⊎ Text → Text ⊎ Text
canonical p (inl e) = inl (codes "Failed to canonicalize plugin path " ++ p ++ codes ": " ++ e)
canonical p (inr path) = inr path

abbrev pub identified : {I : Type 0} → Text → Option I → Text ⊎ I
identified p none = inl (codes "Invalid plugin path " ++ p ++ codes ": must be named nu_plugin_*")
identified p (some i) = inr i

module _ {S I P G : Type 0} (o : Setup S I P G) {C : Type 0} where
  -- `Engine::new`, with the numbers of its bus and its token.
  unfoldable pub new_engine : ℕ → ℕ → Text ⊎ Engine S C
  new_engine bus token = o.initial_state then_ok λ s.
      inr (record { state = s; closure = none; bus = bus; sse_cancel_token = token })

  unfoldable pub add_commands : List Command → Engine S C → Text ⊎ Engine S C
  add_commands cs engine =
      o.add_decls cs engine.state then_ok λ s. inr (record engine { state = s })

  unfoldable pub add_custom_commands : Engine S C → Text ⊎ Engine S C
  unfolding add_commands
  add_custom_commands engine =
      add_commands
        (reverse_proxy
          ∷ static_command
          ∷ to_sse
          ∷ mj false
          ∷ mj_compile false
          ∷ mj_render
          ∷ highlight
          ∷ highlight_theme
          ∷ highlight_lang
          ∷ md
          ∷ print
          ∷ run_nu
          ∷ bus_pub engine.bus
          ∷ bus_sub engine.bus
          ∷ [])
        engine

  unfoldable pub add_store_commands : Engine S C → Text ⊎ Engine S C
  unfolding add_commands
  add_store_commands engine =
      add_commands (cat_stream ∷ append ∷ cas ∷ last_stream ∷ get ∷ remove ∷ scru128 ∷ []) engine

  unfoldable pub add_store_mj_commands : Engine S C → Text ⊎ Engine S C
  unfolding add_commands
  add_store_mj_commands engine = add_commands (mj true ∷ mj_compile true ∷ []) engine

  -- `Store::configure_engine`.
  unfoldable pub configure_engine : Engine S C → Text ⊎ Engine S C
  unfolding add_store_commands add_store_mj_commands
  configure_engine engine = add_store_commands engine then_ok add_store_mj_commands

  unfoldable pub load_plugin : Text → Engine S C → Text ⊎ Engine S C
  load_plugin path engine = canonical (o.debug path) (o.canonicalize path) then_ok λ p.
      identified (o.debug p) (o.new_identity p) then_ok λ i.
      o.add_plugin i engine.state then_ok λ (added : P × S). o.get_signature added.0 then_ok λ gs.
      o.add_plugin_decls added.0 gs added.1 then_ok λ s. inr (record engine { state = s })

  unfoldable pub load_plugins : List Text → Engine S C → Text ⊎ Engine S C
  unfolding load_plugin
  load_plugins [] engine = inr engine
  load_plugins (p ∷ ps) engine = load_plugin p engine then_ok load_plugins ps

  abbrev pub if_store : Bool → Engine S C → Text ⊎ Engine S C
  if_store true engine = configure_engine engine
  if_store false engine = inr engine

  abbrev pub with_signals : Engine S C → Engine S C
  with_signals engine = record engine { state = o.set_signals engine.state }

  abbrev pub unless_error : Option Text → Engine S C → Text ⊎ Engine S C
  unless_error none engine = inr engine
  unless_error (some e) engine = inl e

  module _ {B D K R V : Type 0} (nu : Nu S B D K R V C) where
    unfoldable pub create_base_engine :
        ℕ → ℕ → List Text → List Text → Bool → HttpNuOptions → Text ⊎ Engine S C
    unfolding new_engine add_custom_commands load_plugins configure_engine set_lib_dirs
        set_http_nu_const
    create_base_engine bus token plugins include_paths store options =
        new_engine bus token
        then_ok add_custom_commands
        then_ok set_lib_dirs nu include_paths
        then_ok set_http_nu_const nu options
        then_ok load_plugins plugins
        then_ok if_store store
        then_ok λ engine.
            unless_error (o.set_ctrlc_handler (with_signals engine).state) (with_signals engine)
