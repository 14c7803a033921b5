-- ===== src/Special/Tests.antt =====
-- The special responses on concrete scripts.
use http_nu.Common.{
  ◌≡◌, refl, true, false, List, [], ◌∷◌, Option, none, some, Text, Bytes, codes, utf8, decimal,
  lookup, filter_map, written, last?, is_some, ◌>>=◌,
}
use http_nu.HeaderMap.Instance.{list_headers}
use http_nu.Value.{
  string, bool, columns, Columns, end, column, PipelineData, value, as_str, as_bool, as_record,
}
use http_nu.Response.{
  Headers, ResponseBodyType, static_files, reverse_proxy, Printer, header_value, value_to_bytes,
}
use http_nu.Response.Meta.{columns_of}
use http_nu.Handler.Normal.{no_body}
use http_nu.Handler.Inner.{Crates, Request, dispatch}
use http_nu.Special.{response_tx, special, or_default, request_body, run_reverse_proxy}
use http_nu.Special.First.{send_all, body_type_of, send_all-dispatch}
use http_nu.Special.Config.{config_column, pairs_or, run_reverse_proxy_lem}

abbrev keep_all : Bytes → Option Bytes
keep_all b = some b

abbrev crates : Crates list_headers
crates = record {
  compress_full = keep_all;
  encode_query = λ q. [];
  authority_of = λ u. none;
  is_uri = λ s. true;
  serve_dir = λ path root fallback. record { status = 200; headers = λ n. []; body = no_body };
  collect = λ res. some [];
  send = λ uri h body. none;
  describe = λ e. codes "closed";
}

abbrev get_css : Request list_headers
get_css = record { path = codes "/css"; query = none; headers = λ n. []; use_brotli = false }

abbrev css : ResponseBodyType
css = static_files (codes "/www") (codes "a.css") none

abbrev api : ResponseBodyType
api = reverse_proxy (codes "http://api") [] true none [] none

send_all-dispatch_example :
    dispatch list_headers crates get_css
      (body_type_of (send_all (css ∷ api ∷ []) response_tx).sent)
      none
    ≡ dispatch list_headers crates get_css (some css) none
send_all-dispatch_example = send_all-dispatch list_headers crates get_css css (api ∷ []) none refl

abbrev plain : Printer
plain = record { float_text = decimal; json_text = λ j. codes "{}" }

abbrev config : Columns
config =
    column (codes "query") (columns (column (codes "q") (string (codes "1")) end))
      (column (codes "preserve_host") (bool false) end)

abbrev input : PipelineData
input = value (string (codes "hi")) none

run_reverse_proxy_lem_example :
    let cs = some config in
    (hs : Headers) × (query : Option (List (Text × Text))) × (run_reverse_proxy plain
        (codes "http://api")
        input
        (some (columns config))
        response_tx
      ≡ some (
        true,
        record {
          sender = false;
          receiving = true;
          sent = some (
              special (
                reverse_proxy
                  (codes "http://api")
                  hs
                  (or_default (config_column (codes "preserve_host") cs >>= as_bool) true)
                  (config_column (codes "strip_prefix") cs >>= as_str)
                  (codes "hi")
                  query));
        },
      ))
    × (lookup (codes "q") hs
        ≡ last? (
            filter_map
              (written header_value (codes "q"))
              (columns_of (config_column (codes "headers") cs >>= as_record))))
    × (is_some query ≡ is_some (config_column (codes "query") cs >>= as_record))
    × (lookup (codes "q") (pairs_or query)
        ≡ last? (
            filter_map
              (written as_str (codes "q"))
              (columns_of (config_column (codes "query") cs >>= as_record))))
unfolding request_body value_to_bytes utf8
run_reverse_proxy_lem_example =
    run_reverse_proxy_lem plain (codes "http://api") input (some (columns config)) (codes "hi")
      (codes "q") refl
