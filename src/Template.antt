-- ===== src/Template.antt =====
-- src/commands.rs, the cache of compiled templates with `.mj compile` and `.mj render`, and `.mj`.
-- minijinja, the file system, the store and the hash are fields of `Outside`; `T` is a template that
-- is ready to render. On the left of a result, the error's message; a shared step of `.mj compile`
-- and `.mj` stands once.
pub mod Cache
mod Tests
use http_nu.Common.{
  ℕ, ◌+◌, ◌⊎◌, inl, inr, Bool, true, false, List, [], ◌∷◌, ◌++◌, Option, none, some, Text, Bytes,
  codes, ◌>>=◌, ◌then_ok◌, is_some, if◌then◌else◌, ◌==◌, ltb,
}
use http_nu.Value.{
  Value, string, columns, Columns, get, Json, PipelineData, empty, value, list_stream, byte_stream,
}
use http_nu.Sse.{Renderer, value_to_json}

-- Where the templates that a template includes come from.
pub data Loader : Type 0 where
  from_dir : Text → Loader
  from_topics : Loader
  no_loader : Loader

pub record Frame : Type 0 where
  pub id : ℕ
  pub topic : Text
  pub hash : Option Text

pub record Outside (T : Type 0) : Type 0 where
  -- `xxh3_128`.
  pub hash_bytes : Text → ℕ
  -- The template of this name and source, in an environment with this loader.
  pub add_template : Loader → Text → Text → Text ⊎ T
  -- The template of this name, which the loader finds.
  pub get_template : Loader → Text → Text ⊎ T
  pub render_template : T → Option Json → Text ⊎ Text
  pub read_to_string : Text → Text ⊎ Text
  pub absolute : Text → Text
  pub parent : Text → Option Text
  pub file_name : Text → Option Text
  -- The last frame of a topic, and the bytes behind a hash.
  pub last_frame : Text → Option Frame
  pub cas_read : Text → Option Bytes
  pub from_utf8 : Bytes → Option Text
  pub renderer : Renderer

abbrev pub template_name : Text
template_name = codes "template"

abbrev pub prefix_error : {A : Type 0} → Text → Text ⊎ A → Text ⊎ A
prefix_error p (inl e) = inl (p ++ e)
prefix_error p (inr a) = inr a

abbrev pub ok_or : {A : Type 0} → Text → Option A → Text ⊎ A
ok_or e none = inl e
ok_or e (some a) = inr a

-- One source of the template: the arguments of which exactly one is to be given.
pub data Mode : Type 0 where
  file_mode : Text → Mode
  inline_mode : Text → Mode
  topic_mode : Text → Mode

abbrev pub one_if_some : Option Text → ℕ
one_if_some none = 0
one_if_some (some s) = 1

unfoldable pub mode_count : Option Text → Option Text → Option Text → ℕ
mode_count file inline topic = one_if_some file + one_if_some inline + one_if_some topic

-- `if let Some(path) = file`, `else if let Some(topic_name) = topic`, `else`.
abbrev pub first_mode : Option Text → Option Text → Option Text → Text ⊎ Mode
first_mode (some path) inline topic = inr (file_mode path)
first_mode none inline (some name) = inr (topic_mode name)
first_mode none (some source) none = inr (inline_mode source)
first_mode none none none = inl (codes "No template specified")

unfoldable pub mode_of : Option Text → Option Text → Option Text → Text ⊎ Mode
unfolding mode_count
mode_of file inline topic =
    if ltb 1 (mode_count file inline topic)
    then inl (codes "Cannot combine file, --inline, and --topic")
    else if mode_count file inline topic == 0
    then inl (codes "No template specified")
    else first_mode file inline topic

module _ {T : Type 0} (o : Outside T) where
  abbrev pub Cache : Type 0
  Cache = List (ℕ × T)

  unfoldable pub hash_source_and_path : Text → Text → ℕ
  hash_source_and_path source base_dir = o.hash_bytes (source ++ base_dir)

  unfoldable pub get_compiled : ℕ → Cache → Option T
  get_compiled h [] = none
  get_compiled h ((j, t) ∷ c) = let rest = get_compiled h c in if j == h then some t else rest

  -- What follows the lookup of the cache, and the compilation.
  abbrev pub insert_compiled : ℕ → Cache → Text ⊎ T → (Text ⊎ ℕ) × Cache
  insert_compiled h c (inl e) = (inl e, c)
  insert_compiled h c (inr t) = (inr h, (h, t) ∷ c)

  abbrev pub unless_cached : ℕ → Cache → Bool → Text ⊎ T → (Text ⊎ ℕ) × Cache
  unless_cached h c true compiled = (inr h, c)
  unless_cached h c false compiled = insert_compiled h c compiled

  unfoldable pub compile_template_with_loader : Text → Text → Loader → Cache → (Text ⊎ ℕ) × Cache
  unfolding hash_source_and_path get_compiled
  compile_template_with_loader source base_dir loader c =
      let h = hash_source_and_path source base_dir in
      unless_cached h c (is_some (get_compiled h c)) (o.add_template loader template_name source)

  unfoldable pub load_topic_content : Text → Option Text
  load_topic_content topic = o.last_frame topic >>= λ frame.
      frame.hash >>= λ h. o.cas_read h >>= λ bytes. o.from_utf8 bytes

  -- What is to be compiled: source, base directory and loader.
  abbrev pub dir_of : Text → Text
  dir_of abs_path = or_self (o.parent abs_path)
    where
      or_self : Option Text → Text
      or_self none = abs_path
      or_self (some d) = d

  abbrev pub topic_source : Bool → Text → Text ⊎ Text
  topic_source false name = inl (codes "--topic requires --store")
  topic_source true name = ok_or (codes "Topic not found: " ++ name) (load_topic_content name)

  unfoldable pub source_of : Bool → Mode → Text ⊎ (Text × Text × Loader)
  unfolding load_topic_content
  source_of store (file_mode path) =
      let dir = dir_of (o.absolute path) in
      prefix_error (codes "Failed to read template file: ") (o.read_to_string (o.absolute path))
      then_ok λ source. inr (source, dir, from_dir dir)
  source_of store (topic_mode name) = topic_source store name then_ok λ source.
      inr (source, codes "__topic__/" ++ name, from_topics)
  source_of store (inline_mode source) = inr (source, codes "__inline__", no_loader)

  -- The text of `--inline`: a text, or a record with `__html`.
  abbrev pub html_text : Option Value → Text ⊎ Option Text
  html_text none = inl (codes "Record must have __html field")
  html_text (some (string s)) = inr (some s)
  html_text (some v) = inl (codes "__html must be a string")

  unfoldable pub inline_of : Option Value → Text ⊎ Option Text
  unfolding get
  inline_of none = inr none
  inline_of (some (string s)) = inr (some s)
  inline_of (some (columns cs)) = html_text (get (codes "__html") cs)
  inline_of (some v) = inl (codes "--inline must be string or {__html: string}")

  abbrev pub compile_source : Cache → Text ⊎ (Text × Text × Loader) → (Text ⊎ ℕ) × Cache
  compile_source c (inl e) = (inl e, c)
  compile_source c (inr (source, dir, loader)) =
      let (result, c') = compile_template_with_loader source dir loader c in
      (prefix_error (codes "Template compile error: ") result, c')

  -- `MjCompileCommand::run`; `store` tells whether the command has one.
  unfoldable pub run_compile :
      Bool → Option Text → Option Value → Option Text → Cache → (Text ⊎ ℕ) × Cache
  unfolding compile_template_with_loader inline_of mode_of source_of
  run_compile store file inline topic c =
      compile_source c (inline_of inline then_ok λ s. mode_of file s topic then_ok source_of store)

  -- The context of a render, from the input.
  unfoldable pub context_of : PipelineData → Text ⊎ Option Json
  context_of (value v meta) = inr (some (value_to_json o.renderer v))
  context_of empty = inr none
  context_of _ = inl (codes "expected record input")

  abbrev pub render_in : T → PipelineData → Text ⊎ Text
  render_in t input = context_of input then_ok λ context.
      prefix_error (codes "Template render error: ") (o.render_template t context)

  -- `MjRenderCommand::run` on a compiled template; `none` is the panic of a hash that is not cached.
  unfoldable pub run_render : ℕ → PipelineData → Cache → Option (Text ⊎ Text)
  unfolding get_compiled context_of
  run_render h input c = elim (context_of input) [
    | inl e ↦ some (inl e)
    | inr context ↦ get_compiled h c >>= λ t.
        some (prefix_error (codes "Template render error: ") (o.render_template t context))
  ]

  abbrev pub or_template : Option Text → Text
  or_template none = template_name
  or_template (some n) = n

  abbrev pub file_loader : Option Text → Loader
  file_loader none = no_loader
  file_loader (some d) = from_dir d

  -- The template of `.mj`.
  unfoldable pub template_of : Bool → Mode → Text ⊎ T
  unfolding load_topic_content
  template_of store (file_mode path) =
      let abs_path = o.absolute path in
      prefix_error (codes "Template error: ")
        (o.get_template (file_loader (o.parent abs_path)) (or_template (o.file_name abs_path)))
  template_of store (topic_mode name) = topic_source store name then_ok λ source.
      prefix_error (codes "Template parse error: ") (o.add_template from_topics name source)
  template_of store (inline_mode source) =
      prefix_error (codes "Template parse error: ") (o.add_template no_loader template_name source)

  -- `MjCommand::run`.
  unfoldable pub run_mj :
      Bool → Option Text → Option Text → Option Text → PipelineData → Text ⊎ Text
  unfolding mode_of context_of template_of
  run_mj store file inline topic input = mode_of file inline topic then_ok λ mode.
      context_of input then_ok λ context. template_of store mode then_ok λ t.
      prefix_error (codes "Template render error: ") (o.render_template t context)
