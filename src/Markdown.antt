-- ===== src/Markdown.antt =====
-- src/commands.rs, `.md`, and the choice of a syntax behind it and `.highlight`. The Markdown parser,
-- the writer of HTML, the escaping and the highlighting of lines are other crates': fields of
-- `Renderer` and of `Syntaxes`. On the left of a result, an error.
pub mod Safe
mod Tests
use http_nu.Common.{
  Bool, true, false, List, [], ◌∷◌, ◌++◌, Option, none, some, ◌⊎◌, inl, inr, Text, codes,
  if◌then◌else◌, is_whitespace, trim_start, or_option, ◌>>=◌,
}
use http_nu.Value.{
  Value, string, columns, Columns, end, column, get, as_str, PipelineData, value, byte_stream,
  ByteStream, Metadata,
}

pub data CodeBlockKind : Type 0 where
  fenced : Text → CodeBlockKind
  indented : CodeBlockKind

-- The events of the parser; `O` is the type of those that pass through.
pub data Event (O : Type 0) : Type 0 where
  start_code : CodeBlockKind → Event O
  end_code : Event O
  text : Text → Event O
  html : Text → Event O
  inline_html : Text → Event O
  other_event : O → Event O

-- What `SyntaxHighlighter` takes from syntect: the two searches, the plain syntax, and the generator.
pub record Syntaxes (S : Type 0) : Type 0 where
  pub by_token : Text → Option S
  pub by_extension : Text → Option S
  pub plain_text : S
  pub generate : S → Text → Text
  pub into_string : ByteStream → Text ⊎ Text

module _ {S : Type 0} (x : Syntaxes S) where
  abbrev pub syntax_or : Option S → S
  syntax_or none = x.plain_text
  syntax_or (some s) = s

  abbrev pub find_syntax : Option Text → Option S
  find_syntax none = none
  find_syntax (some lang) = or_option (x.by_token lang) (x.by_extension lang)

  -- `SyntaxHighlighter::highlight`.
  unfoldable pub highlight : Text → Option Text → Text
  highlight code lang = x.generate (syntax_or (find_syntax lang)) code

pub record Renderer (O S : Type 0) : Type 0 where
  pub into_value : PipelineData → Text ⊎ Value
  pub parse : Text → List (Event O)
  pub push_html : List (Event O) → Text
  pub escape : Text → Text
  pub syntaxes : Syntaxes S
  pub get_type : Value → Text
  pub as_str_error : Value → Text

unfoldable pub take_word : Text → Text
unfolding is_whitespace
take_word [] = []
take_word (c ∷ s) = let more = take_word s in if is_whitespace c then [] else c ∷ more

-- `info.split_whitespace().next().unwrap_or("")`.
unfoldable pub first_word : Text → Text
unfolding take_word trim_start
first_word s = take_word (trim_start s)

abbrev pub non_empty : Text → Option Text
non_empty [] = none
non_empty (c ∷ s) = some (c ∷ s)

unfoldable pub lang_of : CodeBlockKind → Option Text
unfolding first_word
lang_of (fenced info) = non_empty (first_word info)
lang_of indented = none

pub record State : Type 0 where
  pub in_code_block : Bool
  pub current_code : Text
  pub current_lang : Option Text

abbrev pub initial : State
initial = record { in_code_block = false; current_code = []; current_lang = none }

abbrev pub html_value : Text → Value
html_value t = columns (column (codes "__html") (string t) end)

module _ {O S : Type 0} (r : Renderer O S) where
  abbrev pub class_part : Option Text → Text
  class_part none = []
  class_part (some lang) = codes " class=\"language-" ++ r.escape lang ++ codes "\""

  unfoldable pub code_html : Text → Option Text → Text
  unfolding highlight
  code_html code lang =
      codes "<pre><code"
      ++ class_part lang
      ++ codes ">"
      ++ highlight r.syntaxes code lang
      ++ codes "</code></pre>"

  -- The closure that the events are mapped by, with `trusted`.
  unfoldable pub convert : Bool → State → Event O → Event O × State
  unfolding lang_of code_html
  convert trusted s (start_code kind) =
      (text [], record { in_code_block = true; current_code = []; current_lang = lang_of kind })
  convert trusted s end_code =
      (html (code_html s.current_code s.current_lang), record s { in_code_block = false })
  convert trusted s (text t) =
      if s.in_code_block
      then (text [], record s { current_code = s.current_code ++ t })
      else (text t, s)
  convert trusted s (html h) = (if trusted then html h else text h, s)
  convert trusted s (inline_html h) = (if trusted then inline_html h else text h, s)
  convert trusted s (other_event o) = (other_event o, s)

  unfoldable pub convert_all : Bool → State → List (Event O) → List (Event O)
  unfolding convert
  convert_all trusted s [] = []
  convert_all trusted s (e ∷ es) =
      let (e', s') = convert trusted s e in e' ∷ convert_all trusted s' es

  abbrev pub trusted_html : Value → Text ⊎ (Text × Bool)
  trusted_html (string t) = inr (t, true)
  trusted_html v = inl (r.as_str_error v)

  abbrev pub record_html : Option Value → Text ⊎ (Text × Bool)
  record_html none = inl (codes "expected string or {__html: ...}")
  record_html (some v) = trusted_html v

  -- The text of the input, and whether it is trusted.
  unfoldable pub markdown_of : Value → Text ⊎ (Text × Bool)
  unfolding get
  markdown_of (string t) = inr (t, false)
  markdown_of (columns cs) = record_html (get (codes "__html") cs)
  markdown_of v = inl (codes "expected string or {__html: ...}, got " ++ r.get_type v)

  abbrev pub rendered : Text ⊎ (Text × Bool) → Text ⊎ Value
  rendered (inl e) = inl e
  rendered (inr (t, trusted)) =
      inr (html_value (r.push_html (convert_all trusted initial (r.parse t))))

  abbrev pub run_value : Text ⊎ Value → Text ⊎ Value
  run_value (inl e) = inl e
  run_value (inr v) = rendered (markdown_of v)

  -- `MdCommand::run`.
  unfoldable pub run : PipelineData → Text ⊎ Value
  unfolding markdown_of convert_all
  run input = run_value (r.into_value input)

module _ {S : Type 0} (x : Syntaxes S) where
  abbrev pub code_of : PipelineData → Text ⊎ Text
  code_of (value (string t) meta) = inr t
  code_of (byte_stream s meta) = x.into_string s
  code_of _ = inl (codes "expected string input")

  abbrev pub highlighted : Text → Text ⊎ Text → Text ⊎ Value
  highlighted lang (inl e) = inl e
  highlighted lang (inr code) = inr (html_value (highlight x code (some lang)))

  -- `HighlightCommand::run`.
  unfoldable pub run_highlight : Text → PipelineData → Text ⊎ Value
  unfolding highlight
  run_highlight lang input = highlighted lang (code_of input)
