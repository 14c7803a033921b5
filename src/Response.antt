-- ===== src/Response.antt =====
-- src/response.rs. A `todo!()` that is reached is a panic, `none` here.
pub mod Meta
pub mod Encoding
mod Tests
use http_nu.Common.{
  ℕ, Bool, true, false, List, [], ◌∷◌, Text, Bytes, Option, none, some, codes, utf8, int_text,
  insert, filter_map, as_u16, if◌then◌else◌, ◌>>=◌, is_some, ℤ,
}
use http_nu.Value.{
  Value, Values, Columns, nothing, bool, int, float, string, list, columns, binary, error, other,
  nil, cons, end, column, Json, Jsons, Members, null, json_bool, json_int, json_float, json_string,
  json_array, json_object, no_json, json_cons, no_member, member, get, map_insert, to_list, as_str,
  as_int, as_record, is_finite, Metadata,
}

pub data HeaderValue : Type 0 where
  single : Text → HeaderValue
  multiple : List Text → HeaderValue

-- A `HashMap` of headers is its entries in the order in which it is iterated.
abbrev pub Headers : Type 0
Headers = List (Text × HeaderValue)

pub record HttpResponseMeta : Type 0 where
  pub status : Option ℕ
  pub headers : Headers

abbrev pub default_meta : HttpResponseMeta
default_meta = record { status = none; headers = [] }

pub data ResponseBodyType : Type 0 where
  normal : ResponseBodyType
  static_files : Text → Text → Option Text → ResponseBodyType
  reverse_proxy :
      Text → Headers → Bool → Option Text → Bytes → Option (List (Text × Text)) → ResponseBodyType

pub record Response : Type 0 where
  pub status : ℕ
  pub headers : Headers
  pub body_type : ResponseBodyType

unfoldable mutual
  pub value_to_json : Value → Option Json
  value_to_json nothing = some null
  value_to_json (bool b) = some (json_bool b)
  value_to_json (int i) = some (json_int i)
  value_to_json (float x) = some (if is_finite x then json_float x else null)
  value_to_json (string s) = some (json_string s)
  value_to_json (list vs) = values_to_json vs >>= λ js. some (json_array js)
  value_to_json (columns cs) = columns_to_json cs no_member >>= λ ms. some (json_object ms)
  value_to_json (binary b) = none
  value_to_json (error e) = none
  value_to_json (other o) = none

  pub values_to_json : Values → Option Jsons
  values_to_json nil = some no_json
  values_to_json (cons v vs) =
      value_to_json v >>= λ j. values_to_json vs >>= λ js. some (json_cons j js)

  pub columns_to_json : Columns → Members → Option Members
  columns_to_json end ms = some ms
  columns_to_json (column k v cs) ms =
      value_to_json v >>= λ j. columns_to_json cs (map_insert k j ms)

-- The `match v` of the header loop; `none` is its `continue`.
unfoldable pub header_value : Value → Option HeaderValue
header_value (string s) = some (single s)
header_value (list vs) = some (multiple (filter_map as_str (to_list vs)))
header_value _ = none

unfoldable pub insert_header : Text → Option HeaderValue → Headers → Headers
insert_header k none m = m
insert_header k (some h) m = insert k h m

unfoldable pub collect_headers : Columns → Headers → Headers
unfolding header_value insert_header insert
collect_headers end m = m
collect_headers (column k v cs) m = collect_headers cs (insert_header k (header_value v) m)

unfoldable pub meta_status : Columns → Option ℕ
meta_status cs = get (codes "status") cs >>= λ v. as_int v >>= λ i. some (as_u16 i)

-- `.map(|headers_record| …).unwrap_or_default()`.
unfoldable pub headers_of : Option Columns → Headers
unfolding collect_headers
headers_of none = []
headers_of (some headers_record) = collect_headers headers_record []

unfoldable pub meta_of : Option Columns → HttpResponseMeta
unfolding meta_status headers_of get
meta_of none = default_meta
meta_of (some cs) = record {
  status = meta_status cs;
  headers = headers_of (get (codes "headers") cs >>= as_record);
}

unfoldable pub extract_http_response_meta : Option Metadata → HttpResponseMeta
unfolding meta_of
extract_http_response_meta none = default_meta
extract_http_response_meta (some meta) =
    meta_of (get (codes "http.response") meta.custom >>= as_record)

-- What the program takes from other crates to print: the text of a float and of a JSON value.
pub record Printer : Type 0 where
  pub float_text : ℕ → Text
  pub json_text : Json → Text

module _ (p : Printer) where
  abbrev pub json_bytes : Option Json → Option Bytes
  json_bytes j = j >>= λ x. some (utf8 (p.json_text x))

  abbrev pub html_bytes : Option Value → Option Bytes
  html_bytes (some (string s)) = some (utf8 s)
  html_bytes _ = some []

  unfoldable pub value_to_bytes : Value → Option Bytes
  unfolding value_to_json
  value_to_bytes nothing = some []
  value_to_bytes (string s) = some (utf8 s)
  value_to_bytes (int i) = some (utf8 (int_text i))
  value_to_bytes (float x) = some (utf8 (p.float_text x))
  value_to_bytes (binary b) = some b
  value_to_bytes (bool true) = some (utf8 (codes "true"))
  value_to_bytes (bool false) = some (utf8 (codes "false"))
  value_to_bytes (columns cs) =
      if is_some (get (codes "__html") cs)
      then html_bytes (get (codes "__html") cs)
      else json_bytes (value_to_json (columns cs))
  value_to_bytes (list vs) = json_bytes (value_to_json (list vs))
  value_to_bytes (error e) = none
  value_to_bytes (other o) = none
