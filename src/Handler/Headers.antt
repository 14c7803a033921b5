-- ===== src/Handler/Headers.antt =====
-- The loops of src/handler.rs that write a script's headers into a header map.
use http_nu.Common.{
  ◌≡◌, ◌≢◌, refl, ◌∙◌, false, inl, inr, List, [], ◌∷◌, Text, Option, none, some, Option-cases,
  arith, All,
}
use http_nu.HeaderMap.{HeaderMap}
use http_nu.Response.{HeaderValue, Headers, single, multiple}
use http_nu.Handler.{
  Failure, invalid_name, invalid_value, HttpResult, ok, failed, crashed, ◌>>=◌, bind-ok,
  bind-ne-crashed,
}

abbrev pub or_fail : {A : Type 0} → Option A → Failure → HttpResult A
or_fail none e = failed e
or_fail (some a) e = ok a

module _ (H : HeaderMap) where
  open H use {
    Map, Name, Val, name_of, value_of, same, insert, append, get_all, same_iff, get_all-insert,
    get_all-append, same_name,
  }

  -- `for value in values { if let Ok(v) = from_str(value) { append } }`.
  unfoldable pub append_all : Map → Name → List Text → Map
  append_all h n [] = h
  append_all h n (s ∷ rest) = elim (value_of s) [
    | none ↦ append_all h n rest
    | some v ↦ append_all (append h n v) n rest
  ]

  unfoldable pub put : Map → Name → HeaderValue → HttpResult Map
  unfolding append_all
  put h n (single s) = or_fail (value_of s) (invalid_value s) >>= λ v. ok (insert h n v)
  put h n (multiple values) = ok (append_all h n values)

  -- One round of the loop over a script's headers.
  unfoldable pub put_header : Map → Text → HeaderValue → HttpResult Map
  unfolding put
  put_header h k v = or_fail (name_of k) (invalid_name k) >>= λ n. put h n v

  unfoldable pub put_headers : Map → Headers → HttpResult Map
  unfolding put_header
  put_headers h [] = ok h
  put_headers h ((k, v) ∷ rest) = put_header h k v >>= λ h'. put_headers h' rest

  append_all-other :
      (h : Map) (m n : Name) (values : List Text)
      → same m n ≡ false
      → get_all (append_all h m values) n ≡ get_all h n
  unfolding append_all
  append_all-other h m n [] d = refl
  append_all-other h m n (s ∷ rest) d = elim (Option-cases (value_of s)) [
    | inl e ↦ rw (e, append_all) (append_all-other h m n rest d)
    | inr (v, e) ↦
        rw (e, append_all)
          (append_all-other (append h m v) m n rest d ∙ rw (get_all-append h m n v, d))
  ]

  put-other :
      (h h' : Map) (m n : Name) (v : HeaderValue)
      → same m n ≡ false
      → put h m v ≡ ok h'
      → get_all h' n ≡ get_all h n
  unfolding put
  put-other h h' m n (single s) d e = elim (Option-cases (value_of s)) [
    | inl q ↦ absurd (ground arith)
    | inr (v, q) ↦ let w : h' ≡ insert h m v = ground arith in rw (w, get_all-insert h m n v, d)
  ]
  put-other h h' m n (multiple values) d e =
      let w : h' ≡ append_all h m values = ground arith in rw w (append_all-other h m n values d)

  -- A key that does not name the header `n`.
  abbrev pub Other : Name → Text → Type 0
  Other n k = (m : Name) → name_of k ≡ some m → same m n ≡ false

  pub put_header-Other :
      (h h' : Map) (k : Text) (n : Name) (v : HeaderValue)
      → Other n k
      → put_header h k v ≡ ok h'
      → get_all h' n ≡ get_all h n
  unfolding put_header
  put_header-Other h h' k n v o e = elim (Option-cases (name_of k)) [
    | inl q ↦ absurd (ground arith)
    | inr (m, q) ↦ put-other h h' m n v (o m q) (ground arith)
  ]

  -- Headers of other names leave the header as it is.
  pub put_headers-Other :
      (hs : Headers) (h h' : Map) (n : Name)
      → All (λ kv. Other n kv.0) hs
      → put_headers h hs ≡ ok h'
      → get_all h' n ≡ get_all h n
  unfolding put_headers
  put_headers-Other [] h h' n o e = let w : h' ≡ h = ground arith in rw w
  put_headers-Other ((k, v) ∷ rest) h h' n o e =
      let (h₁, q, e') = bind-ok (put_header h k v) (λ x. put_headers x rest) e in
      put_headers-Other rest h₁ h' n o.1 e' ∙ put_header-Other h h₁ k n v o.0 q

  pub or_fail-ne-crashed : {A : Type 0} (o : Option A) (e : Failure) → or_fail o e ≢ crashed
  or_fail-ne-crashed none e = λ q. absurd (ground arith)
  or_fail-ne-crashed (some a) e = λ q. absurd (ground arith)

  put-ne-crashed : (h : Map) (n : Name) (v : HeaderValue) → put h n v ≢ crashed
  unfolding put
  put-ne-crashed h n (single s) =
      bind-ne-crashed (or_fail (value_of s) (invalid_value s)) _
        (or_fail-ne-crashed (value_of s) (invalid_value s)) (λ v q. absurd (ground arith))
  put-ne-crashed h n (multiple values) = λ q. absurd (ground arith)

  pub put_header-ne-crashed : (h : Map) (k : Text) (v : HeaderValue) → put_header h k v ≢ crashed
  unfolding put_header
  put_header-ne-crashed h k v =
      bind-ne-crashed (or_fail (name_of k) (invalid_name k)) _
        (or_fail-ne-crashed (name_of k) (invalid_name k)) (λ n. put-ne-crashed h n v)

  pub put_headers-ne-crashed : (h : Map) (hs : Headers) → put_headers h hs ≢ crashed
  unfolding put_headers
  put_headers-ne-crashed h [] = λ q. absurd (ground arith)
  put_headers-ne-crashed h ((k, v) ∷ rest) =
      bind-ne-crashed (put_header h k v) _ (put_header-ne-crashed h k v)
        (λ h₁. put_headers-ne-crashed h₁ rest)
