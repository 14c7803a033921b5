-- ===== src/Handler/Trace.antt =====
-- What the log of a request says of its answer.
use http_nu.Common.{
  ℕ, ◌≤◌, ◌%◌, ◌^◌, ◌-◌, ◌/◌, ◌≡◌, refl, ap, Bool, true, ◌&&◌, List, [], ◌∷◌, ◌++◌, Text, Bytes,
  Option, none, some, inl, inr, text_eq, length, Bool-cases, arith,
}
use http_nu.HeaderMap.{HeaderMap}
use http_nu.Response.{Headers, ResponseBodyType, static_files, reverse_proxy, normal}
use http_nu.Worker.{PipelineResult}
use http_nu.Logging.Human.{Event, request, complete, RequestData}
use http_nu.Logging.Body.{Poll, new_guard, drop_guard, sent_data, poll_all-drop_guard}
use http_nu.Logging.Emit.{log_response}
use http_nu.Handler.{Failure, unread, HttpResult, ok, failed, crashed, ◌>>=◌}
use http_nu.Handler.Headers.{or_fail}
use http_nu.Handler.Normal.{
  OutBody, HttpResponse, response_status, content_type_of, is_sse, put_type, put_brotli, put_sse,
  put_script_headers, headers_mut, out_body, build_normal_response, bytes,
}
use http_nu.Handler.Proxy.{target_uri, proxy_headers, slash}
use http_nu.Handler.Inner.{
  Crates, Request, Answer, datastar_js_path, or_bad_gateway, serve_static, proxy, dispatch,
  handle_inner,
}
use http_nu.Handler.Fails.{
  Before, Fails, Early, Late, put_script_headers-Fails, put_type-Fails, out_body-Fails,
  proxy_headers-Fails,
}
use http_nu.Handler.Log.{
  on_ok, response_events, answer_events, normal_events, static_events, sent_events, proxy_events,
  dispatch_events, inner_events, guard_event, request_events,
}

module _ (H : HeaderMap) (C : Crates H) (entries : HeaderMap.Map H → List (Text × Option Text))
    (id : Text) (elapsed : ℕ) where
  open H use {Map}
  open C use {compress_full, authority_of}

  -- What is logged of an answer, an error or a panic.
  abbrev pub Recorded : Answer H C → List Event → Type 0
  Recorded (ok res) mid = mid ≡ log_response true id res.status (entries res.headers) elapsed
  Recorded (failed e) mid = Before e mid
  Recorded crashed mid = length mid ≤ 1

  abbrev logged : ℕ → Map → List Event
  logged status h = response_events H C entries id elapsed status h

  length-logged : (status : ℕ) (h : Map) → length (logged status h) ≡ 1
  unfolding log_response
  length-logged status h = refl

  on_ok-Recorded :
      {A : Type 0} (m : HttpResult A) (f : A → Answer H C) (g : A → List Event)
      → Fails Early m
      → ((a : A) → Recorded (f a) (g a))
      → Recorded (m >>= f) (on_ok m g)
  on_ok-Recorded (ok a) f g h k = k a
  on_ok-Recorded (failed e) f g h k = h
  on_ok-Recorded crashed f g h k = omega arith

  late : (e : Failure) (status : ℕ) (h : Map) → Late e → Before e (logged status h)
  unfolding log_response
  late e status h k = k _

  body-Recorded :
      (status : ℕ) (h : Map) (m : HttpResult OutBody)
      → Fails (Late) m
      → Recorded
          (m >>= λ b. ok (record { status = status; headers = h; body = b }))
          (logged status h)
  body-Recorded status h (ok b) f = refl
  body-Recorded status h (failed e) f = late e status h f
  body-Recorded status h crashed f = omega (arith, length-logged status h)

  finish-Recorded :
      (status : ℕ) (h : Map) (m : HttpResult OutBody)
      → Fails (Late) m
      → Recorded
          (headers_mut H compress_full status >>= λ u.
            m >>= λ b. ok (record { status = status; headers = h; body = b }))
          (logged status h)
  finish-Recorded status h m f = elim (Bool-cases (H.is_status status)) [
    | inl e ↦ rw e (body-Recorded status h m f)
    | inr e ↦ rw e (omega (arith, length-logged status h))
  ]

  normal-Recorded :
      (r : PipelineResult) (br : Bool)
      → Recorded
          (build_normal_response H compress_full r br)
          (normal_events H C entries id elapsed r br)
  unfolding build_normal_response normal_events
  normal-Recorded r br =
      let ct = content_type_of r in
      let status = response_status r.http_meta.status r.body in
      on_ok-Recorded (put_type H compress_full H.new ct) _ _
        (put_type-Fails H compress_full H.new ct)
        (λ h₁.
          on_ok-Recorded
            (put_script_headers H compress_full
              (put_sse H compress_full (is_sse ct) (put_brotli H compress_full br h₁))
              r.http_meta.headers)
            _ _ (put_script_headers-Fails H compress_full _ r.http_meta.headers)
            (λ h₂.
              finish-Recorded status h₂ (out_body H compress_full (is_sse ct) br r.body)
                (out_body-Fails H compress_full (is_sse ct) br r.body)))

  static-Recorded :
      (root path : Text) (fallback : Option Text)
      → Recorded
          (serve_static H C root path fallback)
          (static_events H C entries id elapsed root path fallback)
  unfolding serve_static static_events
  static-Recorded root path fallback =
      let res = C.serve_dir (slash ∷ path) root fallback in
      elim (Bool-cases (C.is_uri (slash ∷ path))) [
        | inl e ↦ rw e (collected res (C.collect res))
        | inr e ↦ rw e (omega arith)
      ]
    where
      collected :
          (res : HttpResponse H compress_full) (o : Option Bytes)
          → Recorded
              (or_fail o unread >>= λ b. ok (record res { body = bytes b }))
              (answer_events H C entries id elapsed res)
      collected res none = length-logged res.status res.headers
      collected res (some b) = refl

  proxy-Recorded :
      (req : Request H) (url : Text) (hs : Headers) (keep : Bool) (prefix : Option Text)
      (body : Bytes) (query : Option (List (Text × Text)))
      → Recorded
          (proxy H C req url hs keep prefix body query)
          (proxy_events H C entries id elapsed req url hs keep prefix body query)
  unfolding proxy proxy_events
  proxy-Recorded req url hs keep prefix body query =
      let uri = target_uri C.encode_query url prefix req.path query req.query in
      elim (Bool-cases (C.is_uri uri)) [
        | inl e ↦ rw e (
            on_ok-Recorded (proxy_headers H authority_of req.headers body hs keep url) _ _
              (proxy_headers-Fails H authority_of req.headers body hs keep url)
              (λ h. answered (C.send uri h body)))
        | inr e ↦ rw e refl
      ]
    where
      answered :
          (o : Option (HttpResponse H compress_full))
          → Recorded (or_bad_gateway H C o) (sent_events H C entries id elapsed o)
      answered none = refl
      answered (some res) = refl

  dispatch-Recorded :
      (req : Request H) (special : Option ResponseBodyType) (r : Option PipelineResult)
      → Recorded (dispatch H C req special r) (dispatch_events H C entries id elapsed req special r)
  unfolding dispatch dispatch_events
  dispatch-Recorded req (some (static_files root path fallback)) r =
      static-Recorded root path fallback
  dispatch-Recorded req (some (reverse_proxy url hs keep prefix body query)) r =
      proxy-Recorded req url hs keep prefix body query
  dispatch-Recorded req (some normal) none = refl
  dispatch-Recorded req (some normal) (some r) = normal-Recorded r req.use_brotli
  dispatch-Recorded req none none = refl
  dispatch-Recorded req none (some r) = normal-Recorded r req.use_brotli

  inner-Recorded :
      (datastar : Bool) (js js_br : Bytes) (req : Request H) (special : Option ResponseBodyType)
      (r : Option PipelineResult)
      → Recorded
          (handle_inner H C datastar js js_br req special r)
          (inner_events H C entries id elapsed datastar js js_br req special r)
  unfolding handle_inner inner_events
  inner-Recorded datastar js js_br req special r =
      elim (Bool-cases (datastar && text_eq req.path datastar_js_path)) [
        | inl e ↦ rw e refl
        | inr e ↦ rw e (dispatch-Recorded req special r)
      ]

  -- The bytes that the guard counts.
  abbrev pub counted : Answer H C → List Poll → ℕ
  counted (ok res) ps = length (sent_data ps) % 2 ^ 64
  counted (failed e) ps = 0
  counted crashed ps = 0

  guard-counted :
      (answer : Answer H C) (arrived now : ℕ) (ps : List Poll)
      → guard_event H C entries id elapsed answer (new_guard id arrived) ps now
        ≡ complete id (counted answer ps) ((now - arrived) / 1_000_000 % 2 ^ 64)
  unfolding drop_guard
  guard-counted (ok res) arrived now ps = (poll_all-drop_guard id arrived now ps).1
  guard-counted (failed e) arrived now ps = refl
  guard-counted crashed arrived now ps = refl

  -- A request logs, from its arrival to the drop of its body or of its guard, one `request` event,
  -- then what is logged of its answer, then one `complete` event with the milliseconds since the
  -- arrival. An answer, of whichever route, is logged by exactly one `response` event, with the
  -- answer's own status and headers, and `complete` counts the bytes of the frames of its body that
  -- were polled, modulo 2 ^ 64. Of a failure nothing is logged in between, except for the one
  -- event that precedes it when the body's compression or the read of a file failed; of a panic,
  -- at most one event; and `complete` counts 0 bytes then.
  pub request_events-Recorded :
      (rd : RequestData) (arrived now : ℕ) (ps : List Poll) (datastar : Bool) (js js_br : Bytes)
      (req : Request H) (special : Option ResponseBodyType) (r : Option PipelineResult)
      → let answer = handle_inner H C datastar js js_br req special r in
        (mid : List Event) × (request_events H C entries id elapsed rd arrived ps now datastar js
            js_br req special r
          ≡ request id rd ∷ mid
            ++ complete id (counted answer ps) ((now - arrived) / 1_000_000 % 2 ^ 64) ∷ [])
        × Recorded answer mid
  unfolding request_events
  request_events-Recorded rd arrived now ps datastar js js_br req special r = (
    inner_events H C entries id elapsed datastar js js_br req special r,
    ap
        (λ e.
          request id rd ∷ inner_events H C entries id elapsed datastar js js_br req special r
          ++ e ∷ [])
        (guard-counted (handle_inner H C datastar js js_br req special r) arrived now ps),
    inner-Recorded datastar js js_br req special r,
  )
