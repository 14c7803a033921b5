-- ===== src/Handler/Fails.antt =====
-- With which failures the steps of src/handler.rs fail, before and behind what is logged.
use http_nu.Common.{
  ◌≡◌, refl, Bool, true, false, List, [], ◌∷◌, Text, Bytes, Option, none, some, inl, inr, length,
  decimal, Bool-cases,
}
use http_nu.HeaderMap.{HeaderMap}
use http_nu.Response.{Headers, HeaderValue, single, multiple}
use http_nu.Worker.{ResponseTransport, empty_body, full, stream}
use http_nu.Logging.Human.{Event}
use http_nu.Handler.{
  Failure, invalid_name, invalid_value, compression, unread, HttpResult, ok, failed, crashed, ◌>>=◌,
}
use http_nu.Handler.Headers.{or_fail, put, put_header, put_headers}
use http_nu.Handler.Normal.{put_type, put_unless_type, put_script_headers, out_body, is_type_key}
use http_nu.Handler.Proxy.{proxy_headers, put_length, put_host, needs_length}

-- What is logged before a failure: the response where it comes behind `log_response`.
abbrev pub Before : Failure → List Event → Type 0
Before compression mid = length mid ≡ 1
Before unread mid = length mid ≡ 1
Before _ mid = mid ≡ []

-- The failures of a step are of a kind.
abbrev pub Fails : {A : Type 0} → (Failure → Type 0) → HttpResult A → Type 0
Fails P (ok a) = Unit
Fails P (failed e) = P e
Fails P crashed = Unit

pub bind-Fails :
    {A B : Type 0} (P : Failure → Type 0) (m : HttpResult A) (f : A → HttpResult B)
    → Fails P m
    → ((a : A) → Fails P (f a))
    → Fails P (m >>= f)
bind-Fails P (ok a) f h k = k a
bind-Fails P (failed e) f h k = h
bind-Fails P crashed f h k = tt

pub or_fail-Fails :
    {A : Type 0} (P : Failure → Type 0) (o : Option A) (e : Failure) → P e → Fails P (or_fail o e)
or_fail-Fails P none e h = h
or_fail-Fails P (some a) e h = tt

-- Before anything is logged, and behind one event.
abbrev pub Early : Failure → Type 0
Early e = Before e []

-- Behind one event: building the body fails only when the compression does.
abbrev pub Late : Failure → Type 0
Late e = (x : Event) → Before e (x ∷ [])

module _ (H : HeaderMap) where
  open H use {Map, Name, name_of, value_of, insert}

  put-Fails : (h : Map) (n : Name) (v : HeaderValue) → Fails Early (put H h n v)
  unfolding put
  put-Fails h n (single s) =
      bind-Fails Early (or_fail (value_of s) (invalid_value s)) _
        (or_fail-Fails Early (value_of s) (invalid_value s) refl) (λ v. tt)
  put-Fails h n (multiple vs) = tt

  put_header-Fails : (h : Map) (k : Text) (v : HeaderValue) → Fails Early (put_header H h k v)
  unfolding put_header
  put_header-Fails h k v =
      bind-Fails Early (or_fail (name_of k) (invalid_name k)) _
        (or_fail-Fails Early (name_of k) (invalid_name k) refl) (λ n. put-Fails h n v)

module _ (H : HeaderMap) (compress_full : Bytes → Option Bytes) where
  open H use {Map, value_of}

  put_unless_type-Fails :
      (h : Map) (k : Text) (v : HeaderValue) → Fails Early (put_unless_type H compress_full h k v)
  put_unless_type-Fails h k v = elim (Bool-cases (is_type_key k)) [
    | inl e ↦ rw e tt
    | inr e ↦ rw e (put_header-Fails H h k v)
  ]

  pub put_script_headers-Fails :
      (h : Map) (hs : Headers) → Fails Early (put_script_headers H compress_full h hs)
  unfolding put_script_headers
  put_script_headers-Fails h [] = tt
  put_script_headers-Fails h ((k, v) ∷ hs) =
      bind-Fails Early (put_unless_type H compress_full h k v) _ (put_unless_type-Fails h k v)
        (λ h'. put_script_headers-Fails h' hs)

  pub put_type-Fails : (h : Map) (ct : Option Text) → Fails Early (put_type H compress_full h ct)
  unfolding put_type
  put_type-Fails h none = tt
  put_type-Fails h (some ct) =
      bind-Fails Early (or_fail (value_of ct) (invalid_value ct)) _
        (or_fail-Fails Early (value_of ct) (invalid_value ct) refl) (λ v. tt)

  pub out_body-Fails :
      (sse br : Bool) (b : ResponseTransport) → Fails Late (out_body H compress_full sse br b)
  unfolding out_body
  out_body-Fails sse true (full b) =
      bind-Fails Late (or_fail (compress_full b) compression) _
        (or_fail-Fails Late (compress_full b) compression (λ x. refl)) (λ c. tt)
  out_body-Fails sse false (full b) = tt
  out_body-Fails sse true empty_body = tt
  out_body-Fails sse false empty_body = tt
  out_body-Fails sse true stream = tt
  out_body-Fails sse false stream = tt

module _ (H : HeaderMap) (authority_of : Text → Option Text) where
  open H use {Map, value_of, content_length}

  put_headers-Fails : (h : Map) (hs : Headers) → Fails Early (put_headers H h hs)
  unfolding put_headers
  put_headers-Fails h [] = tt
  put_headers-Fails h ((k, v) ∷ hs) =
      bind-Fails Early (put_header H h k v) _ (put_header-Fails H h k v)
        (λ h'. put_headers-Fails h' hs)

  put_length-Fails : (h : Map) (body : Bytes) → Fails Early (put_length H authority_of h body)
  unfolding put_length
  put_length-Fails h body = elim (Bool-cases (needs_length H authority_of h body)) [
    | inl e ↦ rw e (
        bind-Fails Early
          (or_fail (value_of (decimal (length body))) (invalid_value (decimal (length body)))) _
          (or_fail-Fails Early (value_of (decimal (length body)))
            (invalid_value (decimal (length body))) refl)
          (λ v. tt))
    | inr e ↦ rw e tt
  ]

  put_host-Fails :
      (h : Map) (keep : Bool) (a : Option Text) → Fails Early (put_host H authority_of h keep a)
  unfolding put_host
  put_host-Fails h true a = tt
  put_host-Fails h false none = tt
  put_host-Fails h false (some a) =
      bind-Fails Early (or_fail (value_of a) (invalid_value a)) _
        (or_fail-Fails Early (value_of a) (invalid_value a) refl) (λ v. tt)

  pub proxy_headers-Fails :
      (h : Map) (body : Bytes) (hs : Headers) (keep : Bool) (url : Text)
      → Fails Early (proxy_headers H authority_of h body hs keep url)
  unfolding proxy_headers
  proxy_headers-Fails h body hs keep url =
      bind-Fails Early (put_length H authority_of h body) _ (put_length-Fails h body) (λ h₁.
        bind-Fails Early (put_headers H h₁ hs) _ (put_headers-Fails h₁ hs)
          (λ h₂. put_host-Fails h₂ keep (authority_of url)))
