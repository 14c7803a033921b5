-- ===== src/Handler/Normal.antt =====
-- `build_normal_response`: status, content type, headers and the kind of body.
use http_nu.Common.{
  ℕ, Bool, true, false, not, [], ◌∷◌, Text, Bytes, Option, none, some, if◌then◌else◌, to_lowercase,
  text_eq, codes, or_option, head?, lookup,
}
use http_nu.Common.Tests.{◌>>=◌ as and_then}
use http_nu.HeaderMap.{HeaderMap}
use http_nu.Response.{HeaderValue, Headers, single, multiple}
use http_nu.Worker.{PipelineResult, ResponseTransport, empty_body, full, stream, text_html}
use http_nu.Handler.{compression, invalid_value, HttpResult, ok, crashed, ◌>>=◌}
use http_nu.Handler.Headers.{or_fail, put_header}

-- The stream of a response: its source is cancelled by the engine's token for events only.
pub data OutBody : Type 0 where
  no_body : OutBody
  bytes : Bytes → OutBody
  plain_stream : OutBody
  brotli_stream : OutBody
  sse_stream : OutBody
  sse_brotli_stream : OutBody

abbrev pub event_stream : Text
event_stream = codes "text/event-stream"

abbrev pub is_empty_body : ResponseTransport → Bool
is_empty_body empty_body = true
is_empty_body _ = false

unfoldable pub response_status : Option ℕ → ResponseTransport → ℕ
response_status (some s) body = s
response_status none empty_body = 204
response_status none _ = 200

abbrev pub first_text : HeaderValue → Option Text
first_text (single s) = some s
first_text (multiple v) = head? v

-- Both spellings are looked up, and no other.
unfoldable pub explicit_type : Headers → Option Text
explicit_type headers =
    and_then
      (or_option (lookup (codes "content-type") headers) (lookup (codes "Content-Type") headers))
      first_text

unfoldable pub content_type_of : PipelineResult → Option Text
unfolding explicit_type
content_type_of r =
    or_option (or_option (explicit_type r.http_meta.headers) r.content_type)
      (if is_empty_body r.body then none else some text_html)

abbrev pub is_sse : Option Text → Bool
is_sse none = false
is_sse (some ct) = text_eq ct event_stream

unfoldable pub stream_body : Bool → Bool → OutBody
stream_body true true = sse_brotli_stream
stream_body true false = sse_stream
stream_body false true = brotli_stream
stream_body false false = plain_stream

abbrev pub is_type_key : Text → Bool
is_type_key k = text_eq (to_lowercase k) (codes "content-type")

-- `compress_full` runs the brotli crate: a parameter.
module _ (H : HeaderMap) (compress_full : Bytes → Option Bytes) where
  open H use {
    Map, Name, Val, name_of, value_of, static_value, new, insert, get_all, is_status, same,
    content_type, content_encoding, vary, cache_control, connection,
  }

  pub record HttpResponse : Type 0 where
    pub status : ℕ
    pub headers : Map
    pub body : OutBody

  unfoldable pub put_type : Map → Option Text → HttpResult Map
  put_type h none = ok h
  put_type h (some ct) =
      or_fail (value_of ct) (invalid_value ct) >>= λ v. ok (insert h content_type v)

  unfoldable pub put_brotli : Bool → Map → Map
  put_brotli false h = h
  put_brotli true h =
      insert (insert h content_encoding (static_value (codes "br"))) vary
        (static_value (codes "accept-encoding"))

  unfoldable pub put_sse : Bool → Map → Map
  put_sse false h = h
  put_sse true h =
      insert (insert h cache_control (static_value (codes "no-cache"))) connection
        (static_value (codes "keep-alive"))

  abbrev pub put_unless_type : Map → Text → HeaderValue → HttpResult Map
  put_unless_type h k v = if not (is_type_key k) then put_header H h k v else ok h

  -- The loop over the script's headers.
  unfoldable pub put_script_headers : Map → Headers → HttpResult Map
  unfolding put_header
  put_script_headers h [] = ok h
  put_script_headers h ((k, v) ∷ rest) = put_unless_type h k v >>= λ h'. put_script_headers h' rest

  unfoldable pub out_body : Bool → Bool → ResponseTransport → HttpResult OutBody
  unfolding stream_body
  out_body sse use_brotli empty_body = ok no_body
  out_body sse true (full b) = or_fail (compress_full b) compression >>= λ c. ok (bytes c)
  out_body sse false (full b) = ok (bytes b)
  out_body sse use_brotli stream = ok (stream_body sse use_brotli)

  -- `builder.headers_mut().unwrap()`: a status that `http` refuses has left no header map.
  abbrev pub headers_mut : ℕ → HttpResult (Unit {0})
  headers_mut status = if is_status status then ok tt else crashed

  unfoldable pub build_normal_response : PipelineResult → Bool → HttpResult HttpResponse
  unfolding response_status content_type_of put_type put_brotli put_sse put_script_headers out_body
  build_normal_response r use_brotli =
      let status = response_status r.http_meta.status r.body in
      let ct = content_type_of r in
      put_type new ct >>= λ h₁.
      put_script_headers (put_sse (is_sse ct) (put_brotli use_brotli h₁)) r.http_meta.headers
      >>= λ h₂. headers_mut status >>= λ u. out_body (is_sse ct) use_brotli r.body >>= λ body.
          ok (record { status = status; headers = h₂; body = body })
