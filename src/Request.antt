-- ===== src/Request.antt =====
-- src/request.rs: the request as the script sees it. An address is of a type `Ip` with its text; a
-- header's value is its text when it has one. The method and the URI are the texts that they print.
pub mod Decode
mod Tests
use http_nu.Common.{ℕ, List, [], ◌∷◌, Option, none, some, Text, codes, pos}
use http_nu.Value.{Value, string, int, columns, Columns, end, push}

pub record Request (Ip : Type 0) : Type 0 where
  pub proto : Text
  pub method : Text
  pub authority : Option Text
  pub remote_ip : Option Ip
  pub remote_port : Option ℕ
  pub trusted_ip : Option Ip
  pub headers : List (Text × Option Text)
  pub uri : Text
  pub path : Text
  pub query : List (Text × Text)

-- `if let Some(…)` with `record.push`.
abbrev pub push_some : Columns → Text → Option Value → Columns
push_some cs k none = cs
push_some cs k (some v) = push cs k v

abbrev pub map_some {ℓ κ} : {A : Type ℓ} {B : Type κ} → (A → B) → Option A → Option B
map_some f none = none
map_some f (some a) = some (f a)

-- `to_str().unwrap_or_default()`.
abbrev pub text_or_default : Option Text → Text
text_or_default none = []
text_or_default (some s) = s

unfoldable pub headers_record : Columns → List (Text × Option Text) → Columns
unfolding push
headers_record cs [] = cs
headers_record cs ((k, v) ∷ hs) = headers_record (push cs k (string (text_or_default v))) hs

unfoldable pub query_record : Columns → List (Text × Text) → Columns
unfolding push
query_record cs [] = cs
query_record cs ((k, v) ∷ qs) = query_record (push cs k (string v)) qs

module _ {Ip : Type 0} (show : Ip → Text) where
  abbrev pub first_columns : Request Ip → Columns
  first_columns r =
      push
        (push (push (push end (codes "proto") (string r.proto)) (codes "method") (string r.method))
          (codes "uri") (string r.uri))
        (codes "path") (string r.path)

  abbrev pub address_columns : Request Ip → Columns → Columns
  address_columns r cs =
      push_some
        (push_some
          (push_some (push_some cs (codes "authority") (map_some string r.authority))
            (codes "remote_ip") (map_some (λ ip. string (show ip)) r.remote_ip))
          (codes "remote_port") (map_some (λ port. int (pos port)) r.remote_port))
        (codes "trusted_ip") (map_some (λ ip. string (show ip)) r.trusted_ip)

  unfoldable pub request_to_value : Request Ip → Value
  unfolding headers_record query_record push
  request_to_value r = columns (
      push
        (push (address_columns r (first_columns r)) (codes "headers")
          (columns (headers_record end r.headers)))
        (codes "query") (columns (query_record end r.query)))
