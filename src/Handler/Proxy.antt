-- ===== src/Handler/Proxy.antt =====
-- The reverse proxy branch of `handle_inner`: the request that is sent to the backend.
use http_nu.Common.{
  sym, ap, ◌⊎◌, is_some, false≢true, ℕ, ◌≡◌, refl, ◌∙◌, Bool, true, false, not, ◌||◌, inl, inr,
  List, [], ◌∷◌, ◌++◌, Text, Bytes, Option, none, some, if◌then◌else◌, Bool-cases, Option-cases,
  arith, length, is_empty, decimal, strip_prefix, ◌==◌, All, cons_some,
}
use http_nu.HeaderMap.{HeaderMap}
use http_nu.Response.{Headers}
use http_nu.Handler.{invalid_value, HttpResult, ok, ◌>>=◌, bind-ok}
use http_nu.Handler.Headers.{or_fail, put_headers, put_headers-Other, Other}

abbrev pub slash : ℕ
slash = b'/'

abbrev pub starts_with_slash : Text → Bool
starts_with_slash [] = false
starts_with_slash (c ∷ s) = c == slash

-- The path with the prefix taken off, if it is there.
unfoldable pub stripped_path : Option Text → Text → Text
stripped_path none path = path
stripped_path (some prefix) path = elim (strip_prefix prefix path) [
  | none ↦ path
  | some rest ↦ rest
]

unfoldable pub rooted : Text → Text
rooted path = if starts_with_slash path then path else slash ∷ path

abbrev pub or_empty : Option Text → Text
or_empty none = []
or_empty (some s) = s

-- `form_urlencoded::Serializer` is the `url` crate's.
module _ (encode : List (Text × Text) → Text) where
  abbrev pub query_string : Option (List (Text × Text)) → Option Text → Text
  query_string (some custom_query) orig_query = encode custom_query
  query_string none orig_query = or_empty orig_query

  unfoldable pub target_uri :
      Text → Option Text → Text → Option (List (Text × Text)) → Option Text → Text
  unfolding stripped_path rooted strip_prefix
  target_uri target_url prefix path query orig_query =
      let q = query_string query orig_query in
      let p = rooted (stripped_path prefix path) in
      if is_empty q then target_url ++ p else target_url ++ (p ++ b'?' ∷ q)

  rooted-slash : (path : Text) → (rest : Text) × (rooted path ≡ slash ∷ rest)
  unfolding rooted
  rooted-slash [] = ([], refl)
  rooted-slash (c ∷ s) = elim (Bool-cases (c == slash)) [
    | inl e ↦ (s, rw e (ground arith))
    | inr e ↦ (c ∷ s, rw e)
  ]

  -- Whatever the client's path, the prefix and the query are, what follows the target URL begins
  -- with a slash, so that none of it becomes part of the authority.
  pub target_uri-slash :
      (target_url : Text) (prefix : Option Text) (path : Text) (query : Option (List (Text × Text)))
      (orig_query : Option Text)
      → (rest : Text) × (target_uri target_url prefix path query orig_query
          ≡ target_url ++ slash ∷ rest)
  unfolding target_uri
  target_uri-slash target_url prefix path query orig_query =
      let (rest, e) = rooted-slash (stripped_path prefix path) in
      let q = query_string query orig_query in
      elim (Bool-cases (is_empty q)) [
        | inl n ↦ (rest, rw (n, e))
        | inr n ↦ (rest ++ b'?' ∷ q, rw (n, e))
      ]

-- `authority_of` parses a URL with `hyper::Uri` and gives its authority, if it has one.
module _ (H : HeaderMap) (authority_of : Text → Option Text) where
  open H use {Map, Name, Val, value_of, insert, get_all, content_length, host, same, same_iff}

  abbrev pub contains_key : Map → Name → Bool
  contains_key h n = not (is_empty (get_all h n))

  unfoldable pub put_length : Map → Bytes → HttpResult Map
  put_length h body =
      if not (is_empty body) || contains_key h content_length
      then or_fail (value_of (decimal (length body))) (invalid_value (decimal (length body)))
        >>= (λ v. ok (insert h content_length v))
      else ok h

  unfoldable pub put_host : Map → Bool → Option Text → HttpResult Map
  put_host h true authority = ok h
  put_host h false none = ok h
  put_host h false (some a) = or_fail (value_of a) (invalid_value a) >>= λ v. ok (insert h host v)

  -- From the copy of the client's headers to the headers of the proxied request.
  unfoldable pub proxy_headers : Map → Bytes → Headers → Bool → Text → HttpResult Map
  unfolding put_length put_headers put_host
  proxy_headers header_map request_body headers preserve_host target_url =
      put_length header_map request_body >>= λ h₁.
      put_headers H h₁ headers >>= λ h₂. put_host h₂ preserve_host (authority_of target_url)

  abbrev pub needs_length : Map → Bytes → Bool
  needs_length h body = not (is_empty body) || contains_key h content_length

  put_length-values :
      (h h' : Map) (body : Bytes)
      → put_length h body ≡ ok h'
      → get_all h' content_length ≡ (
          if needs_length h body
          then cons_some (value_of (decimal (length body))) []
          else get_all h content_length)
  unfolding put_length
  put_length-values h h' body e = elim (Bool-cases (needs_length h body)) [
    | inl n ↦ elim (Option-cases (value_of (decimal (length body)))) [
      | inl q ↦ absurd (ground arith)
      | inr (v, q) ↦
          let w : h' ≡ insert h content_length v = ground arith in
          rw (
            n,
            q,
            w,
            H.get_all-insert h content_length content_length v,
            (same_iff content_length content_length).1 refl,
          )
    ]
    | inr n ↦ let w : h' ≡ h = ground arith in rw (n, w)
  ]

  put_host-length :
      (h h' : Map) (keep : Bool) (a : Option Text)
      → put_host h keep a ≡ ok h'
      → get_all h' content_length ≡ get_all h content_length
  unfolding put_host
  put_host-length h h' true a e = let w : h' ≡ h = ground arith in rw w
  put_host-length h h' false none e = let w : h' ≡ h = ground arith in rw w
  put_host-length h h' false (some a) e = elim (Option-cases (value_of a)) [
    | inl q ↦ absurd (ground arith)
    | inr (v, q) ↦
        let w : h' ≡ insert h host v = ground arith in
        let (_, _, _, _, other) = H.content_type_alone in
        rw (w, H.get_all-insert h host content_length v, other)
  ]

  -- The `host` of the proxied request, over the one that there is before.
  abbrev pub replaced_host : Bool → Option Text → List Val → List Val
  replaced_host true authority old = old
  replaced_host false none old = old
  replaced_host false (some a) old = cons_some (value_of a) []

  put_host-host :
      (h h' : Map) (keep : Bool) (authority : Option Text)
      → put_host h keep authority ≡ ok h'
      → get_all h' host ≡ replaced_host keep authority (get_all h host)
  unfolding put_host
  put_host-host h h' true authority e = let w : h' ≡ h = ground arith in rw w
  put_host-host h h' false none e = let w : h' ≡ h = ground arith in rw w
  put_host-host h h' false (some a) e = elim (Option-cases (value_of a)) [
    | inl q ↦ absurd (ground arith)
    | inr (v, q) ↦
        let w : h' ≡ insert h host v = ground arith in
        rw (w, q, H.get_all-insert h host host v, (same_iff host host).1 refl)
  ]

  host_is_not_length : same content_length host ≡ false
  host_is_not_length = elim (Bool-cases (same content_length host)) [
    | inl e ↦
        let (_, _, _, _, other) = H.content_type_alone in
        absurd (
          false≢true (
            sym other
            ∙ (same_iff host content_length).1 (sym ((same_iff content_length host).0 e))))
    | inr e ↦ e
  ]

  put_length-host :
      (h h' : Map) (body : Bytes) → put_length h body ≡ ok h' → get_all h' host ≡ get_all h host
  unfolding put_length
  put_length-host h h' body e = elim (Bool-cases (needs_length h body)) [
    | inl n ↦ elim (Option-cases (value_of (decimal (length body)))) [
      | inl q ↦ absurd (ground arith)
      | inr (v, q) ↦
          let w : h' ≡ insert h content_length v = ground arith in
          rw (w, H.get_all-insert h content_length host v, host_is_not_length)
    ]
    | inr n ↦ let w : h' ≡ h = ground arith in rw w
  ]

  replaced_host-old :
      (keep : Bool) (authority : Option Text) (old old' : List Val)
      → keep ≡ false
      → is_some authority ≡ true
      → replaced_host keep authority old ≡ replaced_host keep authority old'
  replaced_host-old true authority old old' k s = absurd (false≢true (sym k))
  replaced_host-old false none old old' k s = absurd (false≢true s)
  replaced_host-old false (some a) old old' k s = refl

  -- When no header of the script names it and the proxied request is made, its `content-length` is one value, the number
  -- of bytes of its own body, if that is not empty or the client sent a length; otherwise there is none. This holds
  -- with and without `preserve_host`.
  pub proxy_headers-content_length :
      (header_map h' : Map) (body : Bytes) (headers : Headers) (preserve_host : Bool)
      (target_url : Text)
      → All (λ kv. Other H content_length kv.0) headers
      → proxy_headers header_map body headers preserve_host target_url ≡ ok h'
      → get_all h' content_length ≡ (
          if not (is_empty body) || contains_key header_map content_length
          then cons_some (value_of (decimal (length body))) []
          else get_all header_map content_length)
  unfolding proxy_headers
  proxy_headers-content_length header_map h' body headers preserve_host target_url others e =
      let (h₁, q₁, e₁) = bind-ok (put_length header_map body) _ e in
      let (h₂, q₂, e₂) = bind-ok (put_headers H h₁ headers) _ e₁ in
      put_host-length h₂ h' preserve_host (authority_of target_url) e₂
      ∙ put_headers-Other H headers h₁ h₂ content_length others q₂
      ∙ put_length-values header_map h₁ body q₁

  -- When the proxied request is made, and the script names no `host`, or `preserve_host` is off and the target URL has
  -- an authority (whatever the script then names): the `host` of the proxied request is that authority alone when
  -- `preserve_host` is off and there is one, and what the client sent as `host` otherwise.
  pub proxy_headers-host :
      (header_map h' : Map) (body : Bytes) (headers : Headers) (preserve_host : Bool)
      (target_url : Text)
      → All (λ kv. Other H host kv.0) headers
        ⊎ ((preserve_host ≡ false) × (is_some (authority_of target_url) ≡ true))
      → proxy_headers header_map body headers preserve_host target_url ≡ ok h'
      → get_all h' host
        ≡ replaced_host preserve_host (authority_of target_url) (get_all header_map host)
  unfolding proxy_headers
  proxy_headers-host header_map h' body headers preserve_host target_url named e =
      let (h₁, q₁, e₁) = bind-ok (put_length header_map body) _ e in
      let (h₂, q₂, e₂) = bind-ok (put_headers H h₁ headers) _ e₁ in
      put_host-host h₂ h' preserve_host (authority_of target_url) e₂ ∙ elim named [
        | inl others ↦ ap (replaced_host preserve_host (authority_of target_url)) (
            put_headers-Other H headers h₁ h₂ host others q₂
            ∙ put_length-host header_map h₁ body q₁)
        | inr (k, s) ↦ replaced_host-old preserve_host (authority_of target_url) _ _ k s
      ]
