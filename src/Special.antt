-- ===== src/Special.antt =====
-- src/commands.rs, `.static` and `.reverse-proxy`: the responses that a script sends around the
-- body of its pipeline. The arguments are as Nushell parses them; a `config` that does not parse is
-- as good as none. A file's root is its path as a text.
pub mod First
pub mod Config
mod Tests
use http_nu.Common.{
  Bool, true, false, List, [], ◌∷◌, ◌++◌, Option, none, some, Text, Bytes, ◌>>=◌, insert, codes,
  head?,
}
use http_nu.Value.{
  Value, Values, nil, cons, Columns, end, column, get, as_str, as_bool, as_record, ByteStream,
  PipelineData, empty, value, list_stream, byte_stream, json_array,
}
use http_nu.Response.{
  Headers, ResponseBodyType, static_files, reverse_proxy, Response, headers_of, Printer, json_bytes,
  value_to_bytes, values_to_json,
}

-- `RESPONSE_TX` and its channel: the sender is there, the receiver is there, and what was sent.
pub record ResponseTx : Type 0 where
  pub sender : Bool
  pub receiving : Bool
  pub sent : Option Response

-- What `inner` sets before the evaluation.
abbrev pub response_tx : ResponseTx
response_tx = record { sender = true; receiving = true; sent = none }

-- `RESPONSE_TX.with(…)`: whether it succeeds. The sender is taken, and used once.
abbrev pub send_taken : Response → ResponseTx → Bool → Bool → Bool × ResponseTx
send_taken r tx false receiving = (true, tx)
send_taken r tx true true = (true, record tx { sender = false; sent = some r })
send_taken r tx true false = (false, record tx { sender = false })

unfoldable pub send_response : Response → ResponseTx → Bool × ResponseTx
send_response r tx = send_taken r tx tx.sender tx.receiving

abbrev pub special : ResponseBodyType → Response
special b = record { status = 200; headers = []; body_type = b }

-- `StaticCommand::run`.
unfoldable pub run_static : Text → Text → Option Text → ResponseTx → Bool × ResponseTx
unfolding send_response
run_static root path fallback tx = send_response (special (static_files root path fallback)) tx

-- A read of no bytes ends the body, and so does an error.
unfoldable pub read_all : List Bytes → Bytes
read_all [] = []
read_all ([] ∷ rest) = []
read_all ((b ∷ bs) ∷ rest) = (b ∷ bs) ++ read_all rest

abbrev pub read_stream : ByteStream → Bool → Bytes
read_stream s false = []
read_stream s true = read_all s.chunks

abbrev pub from_list : List Value → Values
from_list [] = nil
from_list (v ∷ vs) = cons v (from_list vs)

abbrev pub or_default : Option Bool → Bool → Bool
or_default none d = d
or_default (some b) d = b

abbrev pub insert_text : Text → Option Text → List (Text × Text) → List (Text × Text)
insert_text k none m = m
insert_text k (some s) m = insert k s m

unfoldable pub collect_query : Columns → List (Text × Text) → List (Text × Text)
unfolding insert
collect_query end m = m
collect_query (column k v cs) m = collect_query cs (insert_text k (as_str v) m)

unfoldable pub query_of : Columns → Option (List (Text × Text))
unfolding collect_query get
query_of cs = get (codes "query") cs >>= as_record >>= λ r. some (collect_query r [])

-- The `config` record.
unfoldable pub proxy_to : Text → Bytes → Option Columns → ResponseBodyType
unfolding headers_of query_of get
proxy_to target_url request_body none = reverse_proxy target_url [] true none request_body none
proxy_to target_url request_body (some cs) =
    reverse_proxy target_url (headers_of (get (codes "headers") cs >>= as_record))
      (or_default (get (codes "preserve_host") cs >>= as_bool) true)
      (get (codes "strip_prefix") cs >>= as_str) request_body (query_of cs)

module _ (p : Printer) where
  -- `none` is a panic.
  unfoldable pub request_body : PipelineData → Option Bytes
  unfolding value_to_bytes values_to_json read_all
  request_body empty = some []
  request_body (value v meta) = value_to_bytes p v
  request_body (byte_stream s meta) = some (read_stream s s.has_reader)
  request_body (list_stream vs meta) =
      json_bytes p (values_to_json (from_list vs) >>= λ js. some (json_array js))

  -- `ReverseProxyCommand::run`.
  unfoldable pub run_reverse_proxy :
      Text → PipelineData → Option Value → ResponseTx → Option (Bool × ResponseTx)
  unfolding request_body proxy_to send_response
  run_reverse_proxy target_url input config tx = request_body input >>= λ body.
      some (send_response (special (proxy_to target_url body (config >>= as_record))) tx)
