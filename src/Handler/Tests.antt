-- ===== src/Handler/Tests.antt =====
-- Runs of the handlers, over header maps that are functions.
use http_nu.Common.{
  inr, decimal, ◌≡◌, ◌↔◌, ◌-◌, ◌/◌, ◌%◌, ◌^◌, refl, true, false, List, [], ◌∷◌, ◌++◌, Text, Bytes,
  Option, none, some, codes, decimal, text_eq, lookup, lower_char, if◌then◌else◌,
}
use http_nu.HeaderMap.Instance.{list_headers}
use http_nu.Response.{single, Printer}
use http_nu.Worker.{PipelineResult, full, empty_body}
use http_nu.Logging.Human.{Event, request, complete, RequestData}
use http_nu.Logging.Body.{Poll, ready_frame, data_frame}
use http_nu.Handler.Log.{request_events}
use http_nu.Handler.Trace.{request_events-Recorded, Recorded, counted}
use http_nu.Handler.{ok, crashed}
use http_nu.Handler.Normal.{
  HttpResponse, no_body, bytes, build_normal_response, response_status, content_type_of, put_type,
  put_script_headers, put_sse, put_brotli,
}
use http_nu.Handler.Build.{build_normal_response_lem, build_normal_response-crashed}
use http_nu.Handler.Proxy.{
  target_uri, target_uri-slash, proxy_headers, proxy_headers-content_length, proxy_headers-host,
  slash,
}
use http_nu.Handler.Inner.{Crates, Request, handle_inner}

abbrev no_compression : Bytes → Option Bytes
no_compression b = some b

abbrev plain : Printer
plain = record { float_text = decimal; json_text = λ j. codes "{}" }

abbrev page : PipelineResult
page = record {
  content_type = some (codes "application/json");
  http_meta = record {
    status = some 201;
    headers =
        (codes "X-A", single (codes "1"))
        ∷ (codes "content-type", single (codes "text/plain"))
        ∷ [];
  };
  body = full (codes "hi");
}

abbrev page_headers : Text → List Text
page_headers n =
    if text_eq (codes "x-a") n
    then codes "1" ∷ []
    else if text_eq (codes "content-type") n
    then codes "text/plain" ∷ []
    else []

abbrev built : HttpResponse list_headers no_compression
built = record { status = 201; headers = page_headers; body = bytes (codes "hi") }

page_is_built : build_normal_response list_headers no_compression page false ≡ ok built
unfolding build_normal_response lookup text_eq lower_char
page_is_built = refl

build_normal_response_lem_example : page_headers (codes "content-type") ≡ codes "text/plain" ∷ []
unfolding content_type_of lookup text_eq
build_normal_response_lem_example =
    (build_normal_response_lem list_headers no_compression page false built page_is_built).2

abbrev odd_page : PipelineResult
odd_page = record {
  content_type = none;
  http_meta = record { status = some 42; headers = [] };
  body = empty_body;
}

build_normal_response-crashed_example :
    (build_normal_response list_headers no_compression odd_page false ≡ crashed)
    ↔ (list_headers.is_status (response_status (some 42) empty_body) ≡ false)
unfolding content_type_of put_type put_script_headers lookup put_sse put_brotli
build_normal_response-crashed_example =
    build_normal_response-crashed list_headers no_compression odd_page false (λ n. []) (λ n. [])
      refl refl

abbrev no_query : List (Text × Text) → Text
no_query q = []

target_uri-slash_example :
    (rest : Text) × (target_uri no_query
        (codes "http://backend")
        (some (codes "/api"))
        (codes "/api@evil.com/")
        none
        none
      ≡ codes "http://backend" ++ slash ∷ rest)
target_uri-slash_example =
    target_uri-slash no_query (codes "http://backend") (some (codes "/api"))
      (codes "/api@evil.com/") none none

abbrev backend : Text → Option Text
backend url = some (codes "backend:80")

abbrev client_headers : Text → List Text
client_headers n = if text_eq (codes "host") n then codes "evil" ∷ [] else []

abbrev sent_headers : Text → List Text
sent_headers n =
    if text_eq (codes "host") n
    then codes "backend:80" ∷ []
    else if text_eq (codes "content-length") n
    then codes "2" ∷ []
    else client_headers n

proxied :
    proxy_headers list_headers backend client_headers
      (codes "hi")
      []
      false
      (codes "http://backend:80")
    ≡ ok sent_headers
unfolding proxy_headers decimal
proxied = refl

proxy_headers-host_example : sent_headers (codes "host") ≡ codes "backend:80" ∷ []
proxy_headers-host_example =
    proxy_headers-host list_headers backend client_headers sent_headers (codes "hi") [] false
      (codes "http://backend:80") (inr (refl, refl)) proxied

proxy_headers-content_length_example : sent_headers (codes "content-length") ≡ codes "2" ∷ []
unfolding decimal
proxy_headers-content_length_example =
    proxy_headers-content_length list_headers backend client_headers sent_headers (codes "hi") []
      false (codes "http://backend:80") tt proxied

abbrev crates : Crates list_headers
crates = record {
  compress_full = no_compression;
  encode_query = no_query;
  authority_of = backend;
  is_uri = λ s. true;
  serve_dir =
      λ path root fallback. record { status = 404; headers = client_headers; body = no_body };
  collect = λ res. some [];
  send = λ uri h body. none;
  describe = λ e. codes "channel closed";
}

abbrev get_root : Request list_headers
get_root = record { path = codes "/"; query = none; headers = client_headers; use_brotli = false }

abbrev arrival : RequestData
arrival = record {
  proto = codes "HTTP/1.1";
  method = codes "GET";
  remote_ip = none;
  remote_port = none;
  trusted_ip = none;
  headers = [];
  uri = codes "/";
  path = codes "/";
  query = [];
}

abbrev one_poll : List Poll
one_poll = ready_frame (data_frame (codes "hi")) ∷ []

request_events-Recorded_example :
    let answer = handle_inner list_headers crates true [] [] get_root none (some page) in
    (mid : List Event) × (request_events list_headers crates
        (λ m. [])
        (codes "1")
        3
        arrival
        0
        one_poll
        5_000_000
        true
        []
        []
        get_root
        none
        (some page)
      ≡ request (codes "1") arrival ∷ mid
        ++ complete
            (codes "1")
            (counted list_headers crates (λ m. []) (codes "1") 3 answer one_poll)
            ((5_000_000 - 0) / 1_000_000 % 2 ^ 64)
          ∷ [])
    × Recorded list_headers crates (λ m. []) (codes "1") 3 answer mid
request_events-Recorded_example =
    request_events-Recorded list_headers crates (λ m. []) (codes "1") 3 arrival 0 5_000_000 one_poll
      true [] [] get_root none (some page)
