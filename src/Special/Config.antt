-- ===== src/Special/Config.antt =====
-- The configuration of `.reverse-proxy`.
use http_nu.Common.{
  ◌≡◌, refl, sym, ◌∙◌, Bool, true, false, List, [], Option, none, some, Text, Bytes, if◌then◌else◌,
  ◌>>=◌, lookup, lookup-insert, text_eq, last?, cons_some, filter_map, written, or_option,
  or_option_nothing, or_option_assoc, is_some, codes, arith,
}
use http_nu.Value.{
  Value, Columns, end, column, get, to_columns, as_str, as_bool, as_record, PipelineData,
}
use http_nu.Response.{Headers, reverse_proxy, Printer, header_value, headers_of}
use http_nu.Response.Meta.{columns_of, headers_of_lem}
use http_nu.Special.{
  response_tx, special, or_default, insert_text, collect_query, query_of, proxy_to, request_body,
  run_reverse_proxy, send_response,
}

lookup-insert_text :
    (j k : Text) (s : Option Text) (m : List (Text × Text))
    → lookup k (insert_text j s m) ≡ or_option (if text_eq j k then s else none) (lookup k m)
lookup-insert_text j k none m = ground arith
lookup-insert_text j k (some s) m = ground (arith, lookup-insert j k s m)

last-text :
    (b : Bool) (s : Option Text) (ss : List Text) (o : Option Text)
    → or_option (last? ss) (or_option (if b then s else none) o)
      ≡ or_option (last? (cons_some (if b then s else none) ss)) o
last-text true none ss o = refl
last-text true (some s) ss o = sym (or_option_assoc (last? ss) (some s) o)
last-text false s ss o = refl

collect_query_lem :
    (cs : Columns) (m : List (Text × Text)) (k : Text)
    → lookup k (collect_query cs m)
      ≡ or_option (last? (filter_map (written as_str k) (to_columns cs))) (lookup k m)
unfolding collect_query
collect_query_lem end m k = refl
collect_query_lem (column j v cs) m k =
    rw (collect_query_lem cs (insert_text j (as_str v) m) k, lookup-insert_text j k (as_str v) m)
      (last-text (text_eq j k) (as_str v) _ (lookup k m))

abbrev pub config_column : Text → Option Columns → Option Value
config_column k cs = cs >>= get k

abbrev pub pairs_or : Option (List (Text × Text)) → List (Text × Text)
pairs_or none = []
pairs_or (some ps) = ps

abbrev pub headers_in : Option Columns → Headers
headers_in cs = headers_of (config_column (codes "headers") cs >>= as_record)

abbrev pub query_in : Option Columns → Option (List (Text × Text))
query_in none = none
query_in (some cs) = query_of cs

proxy_to_lem :
    (url : Text) (body : Bytes) (cs : Option Columns)
    → proxy_to url body cs
      ≡ reverse_proxy url
          (headers_in cs)
          (or_default (config_column (codes "preserve_host") cs >>= as_bool) true)
          (config_column (codes "strip_prefix") cs >>= as_str)
          body
          (query_in cs)
unfolding proxy_to headers_of
proxy_to_lem url body none = refl
proxy_to_lem url body (some cs) = refl

query_record :
    (r : Option Columns) (k : Text)
    → let q = r >>= λ cs. some (collect_query cs []) in
      (is_some q ≡ is_some r)
      × (lookup k (pairs_or q) ≡ last? (filter_map (written as_str k) (columns_of r)))
unfolding lookup
query_record none k = (refl, refl)
query_record (some cs) k = (refl, collect_query_lem cs [] k ∙ or_option_nothing _)

query_in_lem :
    (cs : Option Columns) (k : Text)
    → let r = config_column (codes "query") cs >>= as_record in
      (is_some (query_in cs) ≡ is_some r)
      × (lookup k (pairs_or (query_in cs)) ≡ last? (filter_map (written as_str k) (columns_of r)))
unfolding query_of lookup
query_in_lem none k = (refl, refl)
query_in_lem (some cs) k = query_of_lem (get (codes "query") cs)
  where
    query_of_lem :
        (v : Option Value)
        → (is_some (v >>= as_record >>= λ r. some (collect_query r [])) ≡ is_some (v >>= as_record))
          × (lookup k (pairs_or (v >>= as_record >>= λ r. some (collect_query r [])))
              ≡ last? (filter_map (written as_str k) (columns_of (v >>= as_record))))
    query_of_lem v = query_record (v >>= as_record) k

-- What `.reverse-proxy` sends for a request whose input has a body, while the receiver waits: to the
-- target, with that body; a header is what the last column of its name in the record `headers`
-- gives that is a text or a list; `preserve_host` is true unless the configuration gives another
-- truth value; the prefix is the configuration's text, if it is one; and a query parameter is the
-- last text of its name in the record `query`, which
-- stands in for the client's query when there is such a record, and only then.
pub run_reverse_proxy_lem :
    (p : Printer) (url : Text) (input : PipelineData) (config : Option Value) (body : Bytes)
    (k : Text)
    → request_body p input ≡ some body
    → let cs = config >>= as_record in
      (hs : Headers) × (query : Option (List (Text × Text))) × (run_reverse_proxy p url input config
          response_tx
        ≡ some (
          true,
          record {
            sender = false;
            receiving = true;
            sent = some (
                special (
                  reverse_proxy url hs
                    (or_default (config_column (codes "preserve_host") cs >>= as_bool) true)
                    (config_column (codes "strip_prefix") cs >>= as_str)
                    body
                    query));
          },
        ))
      × (lookup k hs
          ≡ last? (
              filter_map
                (written header_value k)
                (columns_of (config_column (codes "headers") cs >>= as_record))))
      × (is_some query ≡ is_some (config_column (codes "query") cs >>= as_record))
      × (lookup k (pairs_or query)
          ≡ last? (
              filter_map
                (written as_str k)
                (columns_of (config_column (codes "query") cs >>= as_record))))
unfolding run_reverse_proxy send_response
run_reverse_proxy_lem p url input config body k h =
    let cs = config >>= as_record in
    (
      headers_in cs,
      query_in cs,
      rw (h, proxy_to_lem url body cs) refl,
      headers_of_lem (config_column (codes "headers") cs >>= as_record) k,
      (query_in_lem cs k).0,
      (query_in_lem cs k).1,
    )
