-- ===== src/Value.antt =====
-- The values of the pipeline, as far as the program takes them apart: Nushell's `Value`, its
-- `Record` (columns in order), `PipelineMetadata` and `PipelineData`, and `serde_json`'s `Value`.
-- A float is its 64 bits; `error` carries the formatted error; `other` is any other kind, by name.
pub mod WellFormed
use http_nu.Common.{
  ℕ, ◌/◌, ◌%◌, Bool, not, List, [], ◌∷◌, Text, Bytes, ℤ, Option, none, some, text_eq, if◌then◌else◌,
  ◌==◌,
}

mutual
  pub data Value : Type 0 where
    nothing : Value
    bool : Bool → Value
    int : ℤ → Value
    float : ℕ → Value
    string : Text → Value
    list : Values → Value
    columns : Columns → Value
    binary : Bytes → Value
    error : Text → Value
    other : Text → Value

  pub data Values : Type 0 where
    nil : Values
    cons : Value → Values → Values

  pub data Columns : Type 0 where
    end : Columns
    column : Text → Value → Columns → Columns

mutual
  pub data Json : Type 0 where
    null : Json
    json_bool : Bool → Json
    json_int : ℤ → Json
    json_float : ℕ → Json
    json_string : Text → Json
    json_array : Jsons → Json
    json_object : Members → Json

  pub data Jsons : Type 0 where
    no_json : Jsons
    json_cons : Json → Jsons → Jsons

  pub data Members : Type 0 where
    no_member : Members
    member : Text → Json → Members → Members

-- `Record::get`.
unfoldable pub get : Text → Columns → Option Value
get k end = none
get k (column j v cs) = let rest = get k cs in if text_eq j k then some v else rest

-- `Record::push`.
unfoldable pub push : Columns → Text → Value → Columns
push end k v = column k v end
push (column j w cs) k v = column j w (push cs k v)

-- `serde_json::Map::insert`, with the order of insertion kept.
unfoldable pub map_insert : Text → Json → Members → Members
map_insert k j no_member = member k j no_member
map_insert k j (member i x ms) =
    if text_eq i k then member k j ms else member i x (map_insert k j ms)

abbrev pub to_list : Values → List Value
to_list nil = []
to_list (cons v vs) = v ∷ to_list vs

abbrev pub to_columns : Columns → List (Text × Value)
to_columns end = []
to_columns (column k v cs) = (k, v) ∷ to_columns cs

-- `Value::as_str`, `as_int`, `as_bool` and `as_record`, with their errors dropped.
abbrev pub as_str : Value → Option Text
as_str (string s) = some s
as_str _ = none

abbrev pub as_int : Value → Option ℤ
as_int (int i) = some i
as_int _ = none

abbrev pub as_bool : Value → Option Bool
as_bool (bool b) = some b
as_bool _ = none

abbrev pub as_record : Value → Option Columns
as_record (columns cs) = some cs
as_record _ = none

-- A double is finite unless the eleven bits of its exponent are all set.
unfoldable pub is_finite : ℕ → Bool
is_finite bits = not (bits / 4503599627370496 % 2048 == 2047)

pub record Metadata : Type 0 where
  pub content_type : Option Text
  pub custom : Columns

-- A byte stream is its reader: the chunks that it reads, and how it ends.
pub data ReadEnd : Type 0 where
  eof : ReadEnd
  shell_error : Text → ReadEnd
  io_error : Text → ReadEnd

pub record ByteStream : Type 0 where
  pub has_reader : Bool
  pub chunks : List Bytes
  pub ends : ReadEnd

pub data PipelineData : Type 0 where
  empty : PipelineData
  value : Value → Option Metadata → PipelineData
  list_stream : List Value → Option Metadata → PipelineData
  byte_stream : ByteStream → Option Metadata → PipelineData
