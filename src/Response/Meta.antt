-- ===== src/Response/Meta.antt =====
-- The metadata that a script attaches to its response.
use http_nu.Common.{
  ◌≡◌, refl, sym, ◌∙◌, Bool, true, false, List, [], Text, Option, none, some, if◌then◌else◌, ◌>>=◌,
  lookup, lookup-insert, text_eq, last?, cons_some, filter_map, written, or_option, or_option_assoc,
  codes, as_u16, arith,
}
use http_nu.Value.{Value, Columns, end, column, get, to_columns, as_int, as_record, Metadata}
use http_nu.Response.{
  HeaderValue, Headers, header_value, insert_header, collect_headers, extract_http_response_meta,
  headers_of, meta_of,
}

lookup-insert_header :
    (j k : Text) (h : Option HeaderValue) (m : Headers)
    → lookup k (insert_header j h m) ≡ or_option (if text_eq j k then h else none) (lookup k m)
unfolding insert_header
lookup-insert_header j k none m = ground arith
lookup-insert_header j k (some h) m = ground (arith, lookup-insert j k h m)

or_option-none : (o : Option HeaderValue) → or_option o none ≡ o
or_option-none none = refl
or_option-none (some h) = refl

last-written :
    (b : Bool) (h : Option HeaderValue) (hs : List HeaderValue) (o : Option HeaderValue)
    → or_option (last? hs) (or_option (if b then h else none) o)
      ≡ or_option (last? (cons_some (if b then h else none) hs)) o
last-written true none hs o = refl
last-written true (some h) hs o = sym (or_option_assoc (last? hs) (some h) o)
last-written false h hs o = refl

collect_headers_lem :
    (cs : Columns) (m : Headers) (k : Text)
    → lookup k (collect_headers cs m)
      ≡ or_option (last? (filter_map (written header_value k) (to_columns cs))) (lookup k m)
unfolding collect_headers
collect_headers_lem end m k = refl
collect_headers_lem (column j v cs) m k =
    rw
      (
        collect_headers_lem cs (insert_header j (header_value v) m) k,
        lookup-insert_header j k (header_value v) m,
      )
      (last-written (text_eq j k) (header_value v) _ (lookup k m))

-- What `meta.custom.get("http.response")` finds, if it is a record.
abbrev pub http_response : Option Metadata → Option Columns
http_response none = none
http_response (some meta) = get (codes "http.response") meta.custom >>= as_record

abbrev pub column_in : Text → Option Columns → Option Value
column_in k cs = cs >>= get k

abbrev pub columns_of : Option Columns → List (Text × Value)
columns_of none = []
columns_of (some cs) = to_columns cs

pub headers_of_lem :
    (cs : Option Columns) (k : Text)
    → lookup k (headers_of cs) ≡ last? (filter_map (written header_value k) (columns_of cs))
unfolding headers_of lookup
headers_of_lem none k = refl
headers_of_lem (some cs) k = collect_headers_lem cs [] k ∙ or_option-none _

meta_of_lem :
    (cs : Option Columns) (k : Text)
    → ((meta_of cs).status ≡ (column_in (codes "status") cs >>= as_int >>= λ i. some (as_u16 i)))
      × (lookup k (meta_of cs).headers
          ≡ last? (
              filter_map
                (written header_value k)
                (columns_of (column_in (codes "headers") cs >>= as_record))))
unfolding meta_of lookup
meta_of_lem none k = (refl, refl)
meta_of_lem (some cs) k = (
  status-bind (get (codes "status") cs),
  headers_of_lem (get (codes "headers") cs >>= as_record) k,
)
  where
    status-bind :
        (v : Option Value)
        → (v >>= λ x. as_int x >>= λ i. some (as_u16 i)) ≡ (v >>= as_int >>= λ i. some (as_u16 i))
    status-bind none = refl
    status-bind (some x) = refl

-- The status is the low sixteen bits of the integer column `status`, if there is one. A header is
-- what the last column of its name in the record `headers` gives that is a text or a list, of which
-- the texts are kept; every other column is skipped. Metadata of any other shape gives neither.
pub extract_http_response_meta_lem :
    (meta : Option Metadata) (k : Text)
    → let cs = http_response meta in
      let found = extract_http_response_meta meta in
      (found.status ≡ (column_in (codes "status") cs >>= as_int >>= λ i. some (as_u16 i)))
      × (lookup k found.headers
          ≡ last? (
              filter_map
                (written header_value k)
                (columns_of (column_in (codes "headers") cs >>= as_record))))
unfolding extract_http_response_meta lookup
extract_http_response_meta_lem none k = (refl, refl)
extract_http_response_meta_lem (some meta) k = meta_of_lem (http_response (some meta)) k
