-- ===== src/Request/Tests.antt =====
-- A request's record on a concrete request; an address is a number, and its text one character.
use http_nu.Common.{ℕ, ◌≡◌, refl, [], ◌∷◌, Option, none, some, Text, codes}
use http_nu.Request.{Request, request_to_value}
use http_nu.Request.Decode.{seen, value_to_request, value_to_request-request_to_value}

abbrev show : ℕ → Text
show n = n ∷ []

abbrev parse : Text → Option ℕ
parse (n ∷ []) = some n
parse _ = none

abbrev get_page : Request ℕ
get_page = record {
  proto = codes "HTTP/1.1";
  method = codes "GET";
  authority = none;
  remote_ip = some 7;
  remote_port = some 3000;
  trusted_ip = none;
  headers = (codes "accept", some (codes "*/*")) ∷ (codes "x", none) ∷ [];
  uri = codes "/a?q=1";
  path = codes "/a";
  query = (codes "q", codes "1") ∷ [];
}

value_to_request-request_to_value_example :
    value_to_request parse (request_to_value show get_page) ≡ some (seen get_page)
value_to_request-request_to_value_example =
    value_to_request-request_to_value show parse get_page (λ ip. refl)
