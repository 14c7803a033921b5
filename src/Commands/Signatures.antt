-- ===== src/Commands/Signatures.antt =====
-- The signatures of the commands of src/commands.rs, from which Nushell parses their calls, without
-- their texts. The commands of the store are the xs crate's.
use http_nu.Common.{
  ℕ, Bool, true, not, ◌&&◌, List, [], ◌∷◌, Option, none, some, Text, codes, any, text_eq,
  filter_map, ◌>>=◌,
}
use http_nu.Engine.Setup.{
  Command, reverse_proxy, static_command, to_sse, mj, mj_compile, mj_render, highlight,
  highlight_theme, highlight_lang, md, print, run_nu, bus_pub, bus_sub,
}

pub data Shape : Type 0 where
  string_shape : Shape
  record_shape : Shape
  any_shape : Shape

pub data NuType : Type 0 where
  nothing_type : NuType
  any_type : NuType
  string_type : NuType
  record_type : NuType
  list_type : NuType → NuType
  custom_type : Text → NuType

-- A positional argument, and a flag, which is a switch when it takes no value.
pub record Positional : Type 0 where
  pub label : Text
  pub shape : Shape

pub record Flag : Type 0 where
  pub long : Text
  pub value_shape : Option Shape
  pub short : Option ℕ

pub record Signature : Type 0 where
  pub command_name : Text
  pub required : List Positional
  pub optional : List Positional
  pub rest : Option Positional
  pub flags : List Flag
  pub input_output : List (NuType × NuType)

-- `Signature::build`.
abbrev pub build : Text → List (NuType × NuType) → Signature
build name types = record {
  command_name = name;
  required = [];
  optional = [];
  rest = none;
  flags = [];
  input_output = types;
}

abbrev pub positional : Text → Shape → List Positional
positional name shape = record { label = name; shape = shape } ∷ []

abbrev pub named : Text → Shape → Option ℕ → Flag
named name shape short = record { long = name; value_shape = some shape; short = short }

abbrev pub switch : Text → ℕ → Flag
switch name short = record { long = name; value_shape = none; short = some short }

abbrev pub static_signature : Signature
static_signature = record (build (codes ".static") ((nothing_type, nothing_type) ∷ [])) {
  required =
      record { label = codes "root"; shape = string_shape }
      ∷ record { label = codes "path"; shape = string_shape }
      ∷ [];
  flags = named (codes "fallback") string_shape none ∷ [];
}

abbrev pub to_sse_signature : Signature
to_sse_signature =
    build (codes "to sse") ((record_type, string_type) ∷ (list_type record_type, string_type) ∷ [])

abbrev pub reverse_proxy_signature : Signature
reverse_proxy_signature = record (build (codes ".reverse-proxy") ((any_type, nothing_type) ∷ [])) {
  required = positional (codes "target_url") string_shape;
  optional = positional (codes "config") record_shape;
}

abbrev pub mj_signature : Signature
mj_signature = record (build (codes ".mj") ((record_type, string_type) ∷ [])) {
  optional = positional (codes "file") string_shape;
  flags =
      named (codes "inline") string_shape (some b'i')
      ∷ named (codes "topic") string_shape (some b't')
      ∷ [];
}

abbrev pub mj_compile_signature : Signature
mj_compile_signature =
    record (build (codes ".mj compile")
      ((nothing_type, custom_type (codes "CompiledTemplate")) ∷ [])) {
        optional = positional (codes "file") string_shape;
        flags =
            named (codes "inline") any_shape (some b'i')
            ∷ named (codes "topic") string_shape (some b't')
            ∷ [];
      }

abbrev pub mj_render_signature : Signature
mj_render_signature = record (build (codes ".mj render") ((record_type, string_type) ∷ [])) {
  required = positional (codes "template") any_shape;
}

abbrev pub highlight_signature : Signature
highlight_signature = record (build (codes ".highlight") ((string_type, record_type) ∷ [])) {
  required = positional (codes "lang") string_shape;
}

abbrev pub highlight_theme_signature : Signature
highlight_theme_signature =
    record (build (codes ".highlight theme")
      ((nothing_type, list_type string_type) ∷ (nothing_type, string_type) ∷ [])) {
        optional = positional (codes "name") string_shape;
      }

abbrev pub highlight_lang_signature : Signature
highlight_lang_signature =
    build (codes ".highlight lang") ((nothing_type, list_type record_type) ∷ [])

abbrev pub md_signature : Signature
md_signature = build (codes ".md") ((string_type, record_type) ∷ (record_type, record_type) ∷ [])

abbrev pub print_signature : Signature
print_signature =
    record (build (codes "print") ((nothing_type, nothing_type) ∷ (any_type, nothing_type) ∷ [])) {
      rest = some (record { label = codes "rest"; shape = any_shape });
      flags =
          switch (codes "no-newline") b'n'
          ∷ switch (codes "stderr") b'e'
          ∷ switch (codes "raw") b'r'
          ∷ [];
    }

abbrev pub run_signature : Signature
run_signature = record (build (codes ".run") ((any_type, any_type) ∷ [])) {
  required = positional (codes "script") string_shape;
}

abbrev pub bus_pub_signature : Signature
bus_pub_signature = record (build (codes ".bus pub") ((any_type, nothing_type) ∷ [])) {
  required = positional (codes "topic") string_shape;
}

abbrev pub bus_sub_signature : Signature
bus_sub_signature = record (build (codes ".bus sub") ((nothing_type, any_type) ∷ [])) {
  optional = positional (codes "pattern") string_shape;
}

unfoldable pub signature_of : Command → Option Signature
signature_of static_command = some static_signature
signature_of to_sse = some to_sse_signature
signature_of reverse_proxy = some reverse_proxy_signature
signature_of (mj store) = some mj_signature
signature_of (mj_compile store) = some mj_compile_signature
signature_of mj_render = some mj_render_signature
signature_of highlight = some highlight_signature
signature_of highlight_theme = some highlight_theme_signature
signature_of highlight_lang = some highlight_lang_signature
signature_of md = some md_signature
signature_of print = some print_signature
signature_of run_nu = some run_signature
signature_of (bus_pub bus) = some bus_pub_signature
signature_of (bus_sub bus) = some bus_sub_signature
signature_of _ = none

-- The names that a list of commands is called by.
abbrev pub names_of : List Command → List Text
names_of cs = filter_map (λ c. signature_of c >>= λ s. some s.command_name) cs

-- No name hides another.
abbrev pub distinct : List Text → Bool
distinct [] = true
distinct (n ∷ ns) = not (any (text_eq n) ns) && distinct ns
