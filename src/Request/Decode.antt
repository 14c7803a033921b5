-- ===== src/Request/Decode.antt =====
-- Reading a request back from its record.
use http_nu.Common.{
  ℕ, ◌≡◌, refl, sym, ap, List, [], ◌∷◌, ◌++◌, append-nil, append_assoc, map, Option, none, some,
  Text, codes, ◌>>=◌, pos, text_eq, or_option, or_option_nothing, if◌then◌else◌, Bool-cases, inl,
  inr, arith,
}
use http_nu.Value.{
  Value, string, int, Columns, end, column, push, get, to_columns, as_str, as_record,
}
use http_nu.Request.{
  Request, push_some, map_some, text_or_default, headers_record, query_record, request_to_value,
}

-- What a script can tell of a request: a header without a text reads as the empty one.
pub record Seen (Ip : Type 0) : Type 0 where
  pub proto : Text
  pub method : Text
  pub authority : Option Text
  pub remote_ip : Option Ip
  pub remote_port : Option ℕ
  pub trusted_ip : Option Ip
  pub headers : List (Text × Text)
  pub uri : Text
  pub path : Text
  pub query : List (Text × Text)

abbrev pub seen_header : Text × Option Text → Text × Text
seen_header (k, v) = (k, text_or_default v)

abbrev pub seen : {Ip : Type 0} → Request Ip → Seen Ip
seen r = record {
  proto = r.proto;
  method = r.method;
  authority = r.authority;
  remote_ip = r.remote_ip;
  remote_port = r.remote_port;
  trusted_ip = r.trusted_ip;
  headers = map seen_header r.headers;
  uri = r.uri;
  path = r.path;
  query = r.query;
}

abbrev pub port_of : Value → Option ℕ
port_of (int (pos n)) = some n
port_of _ = none

-- The columns as pairs of texts, if they all are.
unfoldable pub texts_of : List (Text × Value) → Option (List (Text × Text))
texts_of [] = some []
texts_of ((k, v) ∷ cs) = as_str v >>= λ s. texts_of cs >>= λ ts. some ((k, s) ∷ ts)

-- A column that may be missing, and is of its kind when it is there.
abbrev pub optional : {A : Type 0} → (Value → Option A) → Option Value → Option (Option A)
optional f none = some none
optional f (some v) = f v >>= λ a. some (some a)

module _ {Ip : Type 0} (parse : Text → Option Ip) where
  abbrev pub ip_of : Value → Option Ip
  ip_of v = as_str v >>= parse

  abbrev pub text_record : Option Value → Option (List (Text × Text))
  text_record v = v >>= as_record >>= λ cs. texts_of (to_columns cs)

  unfoldable pub read_columns : Columns → Option (Seen Ip)
  unfolding texts_of get
  read_columns cs = get (codes "proto") cs >>= as_str >>= λ proto.
      get (codes "method") cs >>= as_str >>= λ method.
      optional as_str (get (codes "authority") cs) >>= λ authority.
      optional ip_of (get (codes "remote_ip") cs) >>= λ remote_ip.
      optional port_of (get (codes "remote_port") cs) >>= λ remote_port.
      optional ip_of (get (codes "trusted_ip") cs) >>= λ trusted_ip.
      text_record (get (codes "headers") cs) >>= λ headers.
      get (codes "uri") cs >>= as_str >>= λ uri. get (codes "path") cs >>= as_str >>= λ path.
      text_record (get (codes "query") cs) >>= λ query. some (record {
        proto = proto;
        method = method;
        authority = authority;
        remote_ip = remote_ip;
        remote_port = remote_port;
        trusted_ip = trusted_ip;
        headers = headers;
        uri = uri;
        path = path;
        query = query;
      })

  unfoldable pub value_to_request : Value → Option (Seen Ip)
  unfolding read_columns
  value_to_request v = as_record v >>= read_columns

to_columns-push :
    (cs : Columns) (k : Text) (v : Value) → to_columns (push cs k v) ≡ to_columns cs ++ (k, v) ∷ []
unfolding push
to_columns-push end k v = refl
to_columns-push (column j w cs) k v = ap (λ es. (j, w) ∷ es) (to_columns-push cs k v)

abbrev text_column : Text × Text → Text × Value
text_column (k, s) = (k, string s)

to_columns-headers_record :
    (cs : Columns) (hs : List (Text × Option Text))
    → to_columns (headers_record cs hs) ≡ to_columns cs ++ map (λ h. text_column (seen_header h)) hs
unfolding headers_record
to_columns-headers_record cs [] = sym (append-nil (to_columns cs))
to_columns-headers_record cs ((k, v) ∷ hs) =
    rw
      (
        to_columns-headers_record (push cs k (string (text_or_default v))) hs,
        to_columns-push cs k (string (text_or_default v)),
      )
      (append_assoc (to_columns cs) _ _)

to_columns-query_record :
    (cs : Columns) (qs : List (Text × Text))
    → to_columns (query_record cs qs) ≡ to_columns cs ++ map text_column qs
unfolding query_record
to_columns-query_record cs [] = sym (append-nil (to_columns cs))
to_columns-query_record cs ((k, v) ∷ qs) =
    rw (to_columns-query_record (push cs k (string v)) qs, to_columns-push cs k (string v))
      (append_assoc (to_columns cs) _ _)

texts_of-headers :
    (hs : List (Text × Option Text))
    → texts_of (map (λ h. text_column (seen_header h)) hs) ≡ some (map seen_header hs)
unfolding texts_of
texts_of-headers [] = refl
texts_of-headers ((k, v) ∷ hs) = rw (texts_of-headers hs) refl

texts_of-query : (qs : List (Text × Text)) → texts_of (map text_column qs) ≡ some qs
unfolding texts_of
texts_of-query [] = refl
texts_of-query ((k, v) ∷ qs) = rw (texts_of-query qs) refl

get-push :
    (k j : Text) (v : Value) (cs : Columns)
    → get k (push cs j v) ≡ or_option (get k cs) (if text_eq j k then some v else none)
unfolding get push
get-push k j v end = refl
get-push k j v (column i w cs) = elim (Bool-cases (text_eq i k)) [
  | inl e ↦ rw e refl
  | inr e ↦ rw e (get-push k j v cs)
]

get-push_some :
    (k j : Text) (o : Option Value) (cs : Columns)
    → get k (push_some cs j o) ≡ or_option (get k cs) (if text_eq j k then o else none)
get-push_some k j none cs = ground arith
get-push_some k j (some v) cs = get-push k j v cs

optional-map_some :
    {A : Type 0} (f : Value → Option A) (g : A → Value) (o : Option A)
    → ((a : A) → f (g a) ≡ some a)
    → optional f (map_some g o) ≡ some o
optional-map_some f g none h = refl
optional-map_some f g (some a) h = rw (h a) refl

headers_read :
    (hs : List (Text × Option Text))
    → texts_of (to_columns (headers_record end hs)) ≡ some (map seen_header hs)
headers_read hs = rw (to_columns-headers_record end hs) (texts_of-headers hs)

query_read : (qs : List (Text × Text)) → texts_of (to_columns (query_record end qs)) ≡ some qs
query_read qs = rw (to_columns-query_record end qs) (texts_of-query qs)

module _ {Ip : Type 0} (show : Ip → Text) (parse : Text → Option Ip) where
  -- Reading the record by the names of its columns gives back all that it was made from: protocol,
  -- method, authority, addresses, port, headers (one without a text as the empty text), URI, path
  -- and query, and a column that is optional is there exactly when its value was. The one condition
  -- is that an address is read back from its text.
  pub value_to_request-request_to_value :
      (r : Request Ip)
      → ((ip : Ip) → parse (show ip) ≡ some ip)
      → value_to_request parse (request_to_value show r) ≡ some (seen r)
  unfolding value_to_request request_to_value text_eq get
  value_to_request-request_to_value r h = simp (
    get-push,
    get-push_some,
    or_option_nothing,
    optional-map_some as_str string r.authority (λ a. refl),
    optional-map_some (ip_of parse) (λ ip. string (show ip)) r.remote_ip h,
    optional-map_some (ip_of parse) (λ ip. string (show ip)) r.trusted_ip h,
    optional-map_some port_of (λ port. int (pos port)) r.remote_port (λ a. refl),
    headers_read,
    query_read,
  )
