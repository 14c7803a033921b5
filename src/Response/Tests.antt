-- ===== src/Response/Tests.antt =====
-- Runs of the response helpers.
use http_nu.Common.{◌≡◌, refl, [], ◌∷◌, codes, pos, some, none, is_some, decimal, text_eq}
use http_nu.Value.{Value, int, string, list, columns, binary, nil, cons, end, column, Metadata}
use http_nu.Response.{Printer, value_to_bytes, extract_http_response_meta}
use http_nu.Response.Encoding.{has_body, value_to_bytes_total}

abbrev plain : Printer
plain = record { float_text = decimal; json_text = λ j. codes "{}" }

abbrev headers_column : Value
headers_column =
    columns (column (codes "X-A") (string (codes "1")) (column (codes "X-B") (int (pos 3)) end))

abbrev created : Metadata
created = record {
  content_type = none;
  custom =
      column (codes "http.response")
        (columns
          (column (codes "status") (int (pos 65737)) (column (codes "headers") headers_column end)))
        end;
}

status_wraps : (extract_http_response_meta (some created)).status ≡ some 201
unfolding extract_http_response_meta text_eq
status_wraps = refl

value_to_bytes_total_example :
    is_some (value_to_bytes plain (list (cons (binary (1 ∷ [])) nil)))
    ≡ has_body (list (cons (binary (1 ∷ [])) nil))
value_to_bytes_total_example = value_to_bytes_total plain (list (cons (binary (1 ∷ [])) nil))
