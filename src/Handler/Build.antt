-- ===== src/Handler/Build.antt =====
-- What a response that is built holds, and when building it panics.
use http_nu.Common.{
  ◌≡◌, ◌≢◌, ◌↔◌, refl, ap, ◌∙◌, subst, Bool, true, false, inl, inr, List, [], ◌∷◌, Text, Bytes,
  Option, none, some, Bool-cases, Option-cases, arith, to_lowercase, text_eq_iff, codes, cons_some,
  lower_char,
}
use http_nu.HeaderMap.{HeaderMap}
use http_nu.Response.{HeaderValue, Headers}
use http_nu.Worker.{PipelineResult, ResponseTransport, empty_body, full, stream}
use http_nu.Handler.{compression, HttpResult, ok, crashed, bind-ok, bind-ne-crashed, invalid_value}
use http_nu.Handler.Headers.{or_fail, put_header-Other, put_header-ne-crashed, or_fail-ne-crashed}
use http_nu.Handler.Normal.{
  response_status, content_type_of, is_sse, is_type_key, HttpResponse, put_type, put_brotli,
  put_sse, put_unless_type, put_script_headers, out_body, headers_mut, build_normal_response,
}

module _ (H : HeaderMap) (compress_full : Bytes → Option Bytes) where
  open H use {
    Map, Name, Val, name_of, value_of, same, new, get_all, is_status, content_type, same_iff,
    get_all-new, get_all-insert, same_name, content_type_name, content_type_alone,
  }

  abbrev build : PipelineResult → Bool → HttpResult (HttpResponse H compress_full)
  build = build_normal_response H compress_full

  -- The values of the header `content-type` for a content type.
  abbrev pub type_values : Option Text → List Val
  type_values none = []
  type_values (some ct) = cons_some (value_of ct) []

  put_type-values :
      (ct : Option Text) (h : Map)
      → put_type H compress_full new ct ≡ ok h
      → get_all h content_type ≡ type_values ct
  unfolding put_type
  put_type-values none h e = let w : h ≡ new = ground arith in rw w (get_all-new content_type)
  put_type-values (some ct) h e = elim (Option-cases (value_of ct)) [
    | inl q ↦ absurd (ground arith)
    | inr (v, q) ↦
        let w : h ≡ H.insert new content_type v = ground arith in
        rw (
          w,
          q,
          get_all-insert new content_type content_type v,
          (same_iff content_type content_type).1 refl,
        )
  ]

  put_brotli-type :
      (b : Bool) (h : Map)
      → get_all (put_brotli H compress_full b h) content_type ≡ get_all h content_type
  unfolding put_brotli
  put_brotli-type false h = refl
  put_brotli-type true h =
      let (e, v, _, _, _) = content_type_alone in
      rw (
        get_all-insert (H.insert h H.content_encoding (H.static_value (codes "br"))) H.vary
            content_type (H.static_value (codes "accept-encoding")),
        v,
        get_all-insert h H.content_encoding content_type (H.static_value (codes "br")),
        e,
      )

  put_sse-type :
      (b : Bool) (h : Map)
      → get_all (put_sse H compress_full b h) content_type ≡ get_all h content_type
  unfolding put_sse
  put_sse-type false h = refl
  put_sse-type true h =
      let (_, _, c, k, _) = content_type_alone in
      rw (
        get_all-insert (H.insert h H.cache_control (H.static_value (codes "no-cache"))) H.connection
            content_type (H.static_value (codes "keep-alive")),
        k,
        get_all-insert h H.cache_control content_type (H.static_value (codes "no-cache")),
        c,
      )

  -- A key that the loop does not skip names another header.
  not_type_key :
      (k : Text)
      → is_type_key k ≡ false
      → (m : Name) → name_of k ≡ some m
      → same m content_type ≡ false
  unfolding lower_char
  not_type_key k n m e = elim (Bool-cases (same m content_type)) [
    | inl s ↦
        let named : name_of k ≡ some content_type = e ∙ ap some ((same_iff m content_type).0 s) in
        let t : to_lowercase k ≡ codes "content-type" =
          same_name k (codes "content-type") content_type named content_type_name in
        absurd (ground (arith, text_eq_iff (to_lowercase k) (codes "content-type")))
    | inr d ↦ d
  ]

  put_unless_type-type :
      (h h' : Map) (k : Text) (v : HeaderValue)
      → put_unless_type H compress_full h k v ≡ ok h'
      → get_all h' content_type ≡ get_all h content_type
  put_unless_type-type h h' k v e = elim (Bool-cases (is_type_key k)) [
    | inl t ↦ let w : h' ≡ h = ground arith in rw w
    | inr n ↦ put_header-Other H h h' k content_type v (not_type_key k n) (ground arith)
  ]

  put_script_headers-type :
      (hs : Headers) (h h' : Map)
      → put_script_headers H compress_full h hs ≡ ok h'
      → get_all h' content_type ≡ get_all h content_type
  unfolding put_script_headers
  put_script_headers-type [] h h' e = let w : h' ≡ h = ground arith in rw w
  put_script_headers-type ((k, v) ∷ rest) h h' e =
      let (h₁, q, e') =
        bind-ok (put_unless_type H compress_full h k v)
          (λ x. put_script_headers H compress_full x rest) e in
      put_script_headers-type rest h₁ h' e' ∙ put_unless_type-type h h₁ k v q

  -- A response that is built has the script's status, or 204 for an empty body and 200 for any
  -- other, and this status is one that `http` accepts. It has one `content-type` at most, the one
  -- that the precedence gives, whatever other headers the script sets and in whatever order.
  pub build_normal_response_lem :
      (r : PipelineResult) (use_brotli : Bool) (res : HttpResponse H compress_full)
      → build r use_brotli ≡ ok res
      → (res.status ≡ response_status r.http_meta.status r.body)
        × (is_status res.status ≡ true)
        × (get_all res.headers content_type ≡ type_values (content_type_of r))
  unfolding build_normal_response
  build_normal_response_lem r use_brotli res e =
      let ct = content_type_of r in
      let (h₁, q₁, e₁) = bind-ok (put_type H compress_full new ct) _ e in
      let base = put_sse H compress_full (is_sse ct) (put_brotli H compress_full use_brotli h₁) in
      let (h₂, q₂, e₂) =
        bind-ok (put_script_headers H compress_full base r.http_meta.headers) _ e₁ in
      let status = response_status r.http_meta.status r.body in
      let (u, q₃, e₃) = bind-ok (headers_mut H compress_full status) _ e₂ in
      let (body, q₄, e₄) = bind-ok (out_body H compress_full (is_sse ct) use_brotli r.body) _ e₃ in
      let w : record { status = status; headers = h₂; body = body } ≡ res = ground arith in
      subst
        (λ (x : HttpResponse H compress_full).
          (x.status ≡ status)
          × (is_status x.status ≡ true)
          × (get_all x.headers content_type ≡ type_values ct))
        w
        (
          refl,
          ground (arith, q₃),
          put_script_headers-type r.http_meta.headers base h₂ q₂
              ∙ put_sse-type (is_sse ct) (put_brotli H compress_full use_brotli h₁)
              ∙ put_brotli-type use_brotli h₁
              ∙ put_type-values ct h₁ q₁,
        )

  put_script_headers-ne-crashed :
      (hs : Headers) (h : Map) → put_script_headers H compress_full h hs ≢ crashed
  unfolding put_script_headers
  put_script_headers-ne-crashed [] h = λ q. absurd (ground arith)
  put_script_headers-ne-crashed ((k, v) ∷ rest) h =
      bind-ne-crashed (put_unless_type H compress_full h k v) _
        (ground (arith, put_header-ne-crashed H h k v))
        (λ h₁. put_script_headers-ne-crashed rest h₁)

  put_type-ne-crashed : (ct : Option Text) → put_type H compress_full new ct ≢ crashed
  unfolding put_type
  put_type-ne-crashed none = λ q. absurd (ground arith)
  put_type-ne-crashed (some ct) =
      bind-ne-crashed (or_fail (value_of ct) (invalid_value ct)) _
        (or_fail-ne-crashed H (value_of ct) (invalid_value ct)) (λ v q. absurd (ground arith))

  out_body-ne-crashed :
      (sse use_brotli : Bool) (b : ResponseTransport)
      → out_body H compress_full sse use_brotli b ≢ crashed
  unfolding out_body
  out_body-ne-crashed sse true (full b) =
      bind-ne-crashed (or_fail (compress_full b) compression) _
        (or_fail-ne-crashed H (compress_full b) compression) (λ c q. absurd (ground arith))
  out_body-ne-crashed sse false (full b) = λ q. absurd (ground arith)
  out_body-ne-crashed sse true empty_body = λ q. absurd (ground arith)
  out_body-ne-crashed sse false empty_body = λ q. absurd (ground arith)
  out_body-ne-crashed sse true stream = λ q. absurd (ground arith)
  out_body-ne-crashed sse false stream = λ q. absurd (ground arith)

  -- Building a response panics only on a status that `http` refuses: every other bad input (a
  -- header's name or value, a failed compression) is an error that the caller answers.
  pub build_normal_response-ne-crashed :
      (r : PipelineResult) (use_brotli : Bool)
      → is_status (response_status r.http_meta.status r.body) ≡ true
      → build r use_brotli ≢ crashed
  unfolding build_normal_response
  build_normal_response-ne-crashed r use_brotli h =
      let ct = content_type_of r in
      bind-ne-crashed (put_type H compress_full new ct) _ (put_type-ne-crashed ct) (λ h₁.
        bind-ne-crashed
          (put_script_headers H compress_full
            (put_sse H compress_full (is_sse ct) (put_brotli H compress_full use_brotli h₁))
            r.http_meta.headers)
          _ (put_script_headers-ne-crashed r.http_meta.headers _)
          (λ h₂.
            bind-ne-crashed
              (headers_mut H compress_full (response_status r.http_meta.status r.body)) _
              (rw h (λ q. absurd (ground arith)))
              (λ u.
                bind-ne-crashed (out_body H compress_full (is_sse ct) use_brotli r.body) _
                  (out_body-ne-crashed (is_sse ct) use_brotli r.body)
                  (λ b q. absurd (ground arith)))))

  -- A status that `http` refuses panics, where the script's headers are in order.
  pub bad_status_crashes :
      (r : PipelineResult) (use_brotli : Bool) (h₁ h₂ : Map)
      → is_status (response_status r.http_meta.status r.body) ≡ false
      → put_type H compress_full new (content_type_of r) ≡ ok h₁
      → put_script_headers H compress_full
          (put_sse H compress_full
            (is_sse (content_type_of r))
            (put_brotli H compress_full use_brotli h₁))
          r.http_meta.headers
        ≡ ok h₂
      → build r use_brotli ≡ crashed
  unfolding build_normal_response
  bad_status_crashes r use_brotli h₁ h₂ bad q₁ q₂ = rw (q₁, q₂, bad)

  -- Where the content type and the script's headers are accepted, building the response panics exactly
  -- when `http` refuses the status: a failed compression is an error that the caller answers.
  pub build_normal_response-crashed :
      (r : PipelineResult) (use_brotli : Bool) (h₁ h₂ : Map)
      → put_type H compress_full new (content_type_of r) ≡ ok h₁
      → put_script_headers H compress_full
          (put_sse H compress_full
            (is_sse (content_type_of r))
            (put_brotli H compress_full use_brotli h₁))
          r.http_meta.headers
        ≡ ok h₂
      → (build r use_brotli ≡ crashed)
        ↔ (is_status (response_status r.http_meta.status r.body) ≡ false)
  build_normal_response-crashed r use_brotli h₁ h₂ q₁ q₂ =
      let status = response_status r.http_meta.status r.body in
      (
        (λ c. elim (Bool-cases (is_status status)) [
          | inl e ↦ absurd (build_normal_response-ne-crashed r use_brotli e c)
          | inr e ↦ e
        ]),
        (λ bad. bad_status_crashes r use_brotli h₁ h₂ bad q₁ q₂),
      )
