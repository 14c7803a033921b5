-- ===== src/Handler/Inner.antt =====
-- `handle_inner` and `handle`: the routes, and the answer to an error.
use http_nu.Common.{
  ◌∷◌, Bool, ◌&&◌, List, ◌∷◌, ◌++◌, Text, Bytes, Option, none, some, if◌then◌else◌, text_eq, codes,
}
use http_nu.HeaderMap.{HeaderMap}
use http_nu.Response.{Headers, ResponseBodyType, static_files, reverse_proxy}
use http_nu.Worker.{PipelineResult}
use http_nu.Handler.{
  Failure, invalid_uri, no_answer, unread, HttpResult, ok, failed, crashed, ◌>>=◌,
}
use http_nu.Handler.Headers.{or_fail}
use http_nu.Handler.Normal.{HttpResponse, bytes, build_normal_response}
use http_nu.Handler.Proxy.{target_uri, proxy_headers, slash}

abbrev pub datastar_js_path : Text
datastar_js_path = codes "/datastar@1.0.1.js"

-- What the other crates do for `handle_inner`.
pub record Crates (H : HeaderMap) : Type 1 where
  pub compress_full : Bytes → Option Bytes
  pub encode_query : List (Text × Text) → Text
  pub authority_of : Text → Option Text
  -- A text parses as a URI.
  pub is_uri : Text → Bool
  -- `ServeDir`, with the path, the root and the fallback file: a service that does not fail. Its
  -- body may still not be read to the end.
  pub serve_dir : Text → Text → Option Text → HttpResponse H compress_full
  pub collect : HttpResponse H compress_full → Option Bytes
  -- The client's request to the backend: URI, headers and body.
  pub send : Text → HeaderMap.Map H → Bytes → Option (HttpResponse H compress_full)
  -- The text of an error.
  pub describe : Failure → Text

pub record Request (H : HeaderMap) : Type 0 where
  pub path : Text
  pub query : Option Text
  pub headers : HeaderMap.Map H
  pub use_brotli : Bool

module _ (H : HeaderMap) (C : Crates H) where
  open H use {Map, insert, new, static_value, content_type, cache_control, content_encoding, vary}
  open C use {compress_full, encode_query, authority_of, is_uri, serve_dir, send, describe}

  abbrev pub Answer : Type 0
  Answer = HttpResult (HttpResponse H compress_full)

  unfoldable pub datastar_response : Bytes → Bytes → Bool → HttpResponse H compress_full
  datastar_response js js_brotli use_brotli =
      let h =
        insert (insert new content_type (static_value (codes "application/javascript")))
          cache_control (static_value (codes "public, max-age=31536000, immutable")) in
      let hb =
        insert (insert h content_encoding (static_value (codes "br"))) vary
          (static_value (codes "accept-encoding")) in
      record {
        status = 200;
        headers = if use_brotli then hb else h;
        body = bytes (if use_brotli then js_brotli else js);
      }

  abbrev pub bad_gateway : HttpResponse H compress_full
  bad_gateway = record { status = 502; headers = new; body = bytes (codes "Bad Gateway") }

  abbrev pub or_bad_gateway : Option (HttpResponse H compress_full) → Answer
  or_bad_gateway none = ok bad_gateway
  or_bad_gateway (some res) = ok res

  -- `format!("/{path}").parse().unwrap()`.
  unfoldable pub serve_static : Text → Text → Option Text → Answer
  serve_static root path fallback =
      let res = serve_dir (slash ∷ path) root fallback in
      if is_uri (slash ∷ path)
      then (or_fail (C.collect res) unread >>= λ b. ok (record res { body = bytes b }))
      else crashed

  unfoldable pub proxy :
      Request H → Text → Headers → Bool → Option Text → Bytes → Option (List (Text × Text)) → Answer
  unfolding target_uri proxy_headers
  proxy req target_url headers preserve_host strip_prefix request_body query =
      let uri = target_uri encode_query target_url strip_prefix req.path query req.query in
      if is_uri uri
      then (proxy_headers H authority_of req.headers request_body headers preserve_host target_url
          >>= λ h. or_bad_gateway (send uri h request_body))
      else failed (invalid_uri uri)

  -- The `match` on the special response.
  unfoldable pub dispatch : Request H → Option ResponseBodyType → Option PipelineResult → Answer
  unfolding serve_static proxy build_normal_response
  dispatch req (some (static_files root path fallback)) body_result =
      serve_static root path fallback
  dispatch req (some (reverse_proxy url headers keep prefix body query)) body_result =
      proxy req url headers keep prefix body query
  dispatch req special body_result =
      or_fail body_result no_answer >>= λ r. build_normal_response H compress_full r req.use_brotli

  unfoldable pub handle_inner :
      Bool → Bytes → Bytes → Request H → Option ResponseBodyType → Option PipelineResult → Answer
  unfolding datastar_response dispatch
  handle_inner datastar js js_brotli req special body_result =
      if datastar && text_eq req.path datastar_js_path
      then ok (datastar_response js js_brotli req.use_brotli)
      else dispatch req special body_result

  abbrev pub script_error : Failure → HttpResponse H compress_full
  script_error e = record {
    status = 500;
    headers = new;
    body = bytes (codes "Script error: " ++ describe e);
  }

  -- `handle`.
  unfoldable pub handle : Answer → Answer
  handle (ok res) = ok res
  handle (failed e) = ok (script_error e)
  handle crashed = crashed
