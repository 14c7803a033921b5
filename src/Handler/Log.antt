-- ===== src/Handler/Log.antt =====
-- The events that a request logs from its arrival to the drop of its body: `log_request`, the
-- `log_response` of each route, and the guard, which moves into the body of an answer and is
-- dropped on an error or a panic.
use http_nu.Common.{
  ℕ, Bool, true, ◌&&◌, List, [], ◌∷◌, ◌++◌, Text, Bytes, Option, none, some, if◌then◌else◌, text_eq,
}
use http_nu.HeaderMap.{HeaderMap}
use http_nu.Response.{Headers, ResponseBodyType, static_files, reverse_proxy}
use http_nu.Worker.{PipelineResult}
use http_nu.Logging.Human.{Event, request, RequestData}
use http_nu.Logging.Body.{Poll, RequestGuard, new_guard, poll_all, drop_guard}
use http_nu.Logging.Emit.{log_response}
use http_nu.Handler.{no_answer, HttpResult, ok, failed, crashed}
use http_nu.Handler.Headers.{or_fail}
use http_nu.Handler.Normal.{
  HttpResponse, response_status, content_type_of, is_sse, put_type, put_brotli, put_sse,
  put_script_headers,
}
use http_nu.Handler.Proxy.{target_uri, proxy_headers, slash}
use http_nu.Handler.Inner.{
  Crates, Request, Answer, datastar_js_path, datastar_response, bad_gateway, handle_inner,
}

-- What a step that succeeds goes on to log.
abbrev pub on_ok : {A : Type 0} → HttpResult A → (A → List Event) → List Event
on_ok (ok a) f = f a
on_ok (failed e) f = []
on_ok crashed f = []

-- `entries` lists a header map's headers with their text; the answer is logged `elapsed`
-- milliseconds after the request.
module _ (H : HeaderMap) (C : Crates H) (entries : HeaderMap.Map H → List (Text × Option Text))
    (id : Text) (elapsed : ℕ) where
  open H use {Map, new}
  open C use {compress_full, encode_query, authority_of, is_uri, serve_dir, send}

  abbrev pub response_events : ℕ → Map → List Event
  response_events status h = log_response true id status (entries h) elapsed

  abbrev pub answer_events : HttpResponse H compress_full → List Event
  answer_events res = response_events res.status res.headers

  unfoldable pub normal_events : PipelineResult → Bool → List Event
  unfolding response_status content_type_of put_type put_brotli put_sse put_script_headers
  normal_events r use_brotli =
      let ct = content_type_of r in
      on_ok (put_type H compress_full new ct) (λ h₁.
        on_ok
          (put_script_headers H compress_full
            (put_sse H compress_full (is_sse ct) (put_brotli H compress_full use_brotli h₁))
            r.http_meta.headers)
          (λ h₂. response_events (response_status r.http_meta.status r.body) h₂))

  unfoldable pub static_events : Text → Text → Option Text → List Event
  static_events root path fallback =
      if is_uri (slash ∷ path) then answer_events (serve_dir (slash ∷ path) root fallback) else []

  abbrev pub sent_events : Option (HttpResponse H compress_full) → List Event
  sent_events none = answer_events (bad_gateway H C)
  sent_events (some res) = answer_events res

  unfoldable pub proxy_events :
      Request H
      → Text
      → Headers
      → Bool
      → Option Text
      → Bytes
      → Option (List (Text × Text))
      → List Event
  unfolding target_uri proxy_headers
  proxy_events req target_url headers preserve_host strip_prefix request_body query =
      let uri = target_uri encode_query target_url strip_prefix req.path query req.query in
      if is_uri uri
      then (on_ok
          (proxy_headers H authority_of req.headers request_body headers preserve_host target_url)
          (λ h. sent_events (send uri h request_body)))
      else []

  unfoldable pub dispatch_events :
      Request H → Option ResponseBodyType → Option PipelineResult → List Event
  unfolding normal_events static_events proxy_events
  dispatch_events req (some (static_files root path fallback)) body_result =
      static_events root path fallback
  dispatch_events req (some (reverse_proxy url headers keep prefix body query)) body_result =
      proxy_events req url headers keep prefix body query
  dispatch_events req special body_result =
      on_ok (or_fail body_result no_answer) (λ r. normal_events r req.use_brotli)

  unfoldable pub inner_events :
      Bool
      → Bytes
      → Bytes
      → Request H
      → Option ResponseBodyType
      → Option PipelineResult
      → List Event
  unfolding datastar_response dispatch_events
  inner_events datastar js js_brotli req special body_result =
      if datastar && text_eq req.path datastar_js_path
      then answer_events (datastar_response H C js js_brotli req.use_brotli)
      else dispatch_events req special body_result

  -- The guard's end: behind the body's polls, or at once when there is no body to hold it.
  abbrev pub guard_event : Answer H C → RequestGuard → List Poll → ℕ → Event
  guard_event (ok res) g ps now = drop_guard (poll_all g ps).0 now
  guard_event (failed e) g ps now = drop_guard g now
  guard_event crashed g ps now = drop_guard g now

  -- All events of a request that arrives at `arrived`, whose body is polled and is dropped at `now`.
  unfoldable pub request_events :
      RequestData
      → ℕ
      → List Poll
      → ℕ
      → Bool
      → Bytes
      → Bytes
      → Request H
      → Option ResponseBodyType
      → Option PipelineResult
      → List Event
  unfolding inner_events drop_guard poll_all
  request_events rd arrived ps now datastar js js_brotli req special body_result =
      request id rd ∷ inner_events datastar js js_brotli req special body_result
      ++ guard_event (handle_inner H C datastar js js_brotli req special body_result)
          (new_guard id arrived) ps now
        ∷ []
