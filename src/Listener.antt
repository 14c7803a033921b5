-- ===== src/Listener.antt =====
-- src/listener.rs, and the address that `serve` of src/main.rs logs. Sockets, TLS and
-- files are the fields of `Sockets`, with the text of the error on the left.
mod Tests
use http_nu.Common.{
  ℕ, ◌⊎◌, inl, inr, Bool, true, false, ◌||◌, ◌&&◌, ◌==◌, leb, utf8, List, [], ◌∷◌, ◌++◌, reverse,
  Option, none, some, Text, Bytes, codes, strip_prefix, is_some, is_empty, if◌then◌else◌, decimal,
  ◌>>=◌, ◌then_ok◌,
}

-- TCP and Unix listeners, TLS configurations, streams and peer addresses.
pub record Sockets (L U T S A : Type 0) : Type 0 where
  pub bind_tcp : Text → Text ⊎ L
  pub bind_unix : Text → Text ⊎ U
  pub local_addr : L → Text × ℕ
  pub as_pathname : U → Option Text
  pub accept_tcp : L → Text ⊎ (S × A)
  pub accept_unix : U → Text ⊎ S
  pub accept_tls : T → S → Text ⊎ S
  -- `from_pem`: the file, its certificates and its private key, and the configuration.
  pub open_file : Text → Text ⊎ Bytes
  pub certs : Bytes → Text ⊎ List Bytes
  pub private_key : Bytes → Text ⊎ Option Bytes
  pub with_single_cert : List Bytes → Bytes → List Text → Text ⊎ T

pub data Listener (L U T : Type 0) : Type 0 where
  tcp : L → Option T → Listener L U T
  unix : U → Listener L U T

abbrev pub starts_with : Text → Text → Bool
starts_with p s = is_some (strip_prefix p s)

unfoldable pub is_unix_path : Text → Bool
unfolding strip_prefix
is_unix_path addr = starts_with (codes "/") addr || starts_with (codes ".") addr

-- `is_ascii_alphabetic`, of the bytes of an address.
abbrev pub is_alphabetic : ℕ → Bool
is_alphabetic c = (leb 65 c && leb c 90) || (leb 97 c && leb c 122)

abbrev pub drive_path : Bytes → Bool
drive_path (d ∷ colon ∷ slash ∷ rest) =
    is_alphabetic d && colon == b':' && (slash == b'\\' || slash == b'/')
drive_path _ = false

unfoldable pub is_windows_path : Text → Bool
unfolding utf8
is_windows_path addr = drive_path (utf8 addr)

abbrev pub with_host : Text → Text
with_host addr = if starts_with (codes ":") addr then codes "127.0.0.1" ++ addr else addr

abbrev pub with_error : {R : Type 0} → Text → Text ⊎ R → Text ⊎ R
with_error p (inl e) = inl (p ++ e)
with_error p (inr r) = inr r

abbrev pub tls_suffix : Bool → Text
tls_suffix true = codes " (TLS)"
tls_suffix false = []

module _ {L U T S A : Type 0} (o : Sockets L U T S A) where
  abbrev pub some_certs : List Bytes → Text ⊎ List Bytes
  some_certs [] = inl (codes "No certificates found")
  some_certs (c ∷ cs) = inr (c ∷ cs)

  abbrev pub some_key : Option Bytes → Text ⊎ Bytes
  some_key none = inl (codes "No private key found")
  some_key (some k) = inr k

  unfoldable pub from_pem : Text → Text ⊎ T
  from_pem path =
      with_error (codes "Failed to open PEM file " ++ path ++ codes ": ") (o.open_file path)
      then_ok λ pem. with_error (codes "Invalid certificate: ") (o.certs pem) then_ok λ cs.
          some_certs cs then_ok λ certs.
          with_error (codes "Invalid private key: ") (o.private_key pem) then_ok λ k.
          some_key k then_ok λ key.
          with_error (codes "TLS config error: ")
            (o.with_single_cert certs key (codes "h2" ∷ codes "http/1.1" ∷ []))

  abbrev pub as_unix : Text ⊎ U → Text ⊎ Listener L U T
  as_unix (inl e) = inl e
  as_unix (inr u) = inr (unix u)

  abbrev pub as_tcp : Option T → Text ⊎ L → Text ⊎ Listener L U T
  as_tcp tls (inl e) = inl e
  as_tcp tls (inr l) = inr (tcp l tls)

  abbrev pub bind_path : Text → Option T → (Text ⊎ Listener L U T) × List Text
  bind_path addr (some tls) = (inl (codes "TLS is not supported with Unix domain sockets"), [])
  bind_path addr none = (as_unix (o.bind_unix addr), addr ∷ [])

  -- With the files that it removes.
  unfoldable pub bind : Text → Option T → (Text ⊎ Listener L U T) × List Text
  unfolding is_unix_path strip_prefix
  bind addr tls =
      if is_unix_path addr
      then bind_path addr tls
      else (as_tcp tls (o.bind_tcp (with_host addr)), [])

  -- On Windows.
  unfoldable pub bind_on_windows : Text → Option T → (Text ⊎ Listener L U T) × List Text
  unfolding is_unix_path is_windows_path strip_prefix
  bind_on_windows addr tls =
      if is_unix_path addr || is_windows_path addr
      then bind_path addr tls
      else (as_tcp tls (o.bind_tcp (with_host addr)), [])

  -- `Clone`; `none` is the panic of a Unix listener.
  abbrev pub clone : Listener L U T → Option (Listener L U T)
  clone (tcp l tls) = some (tcp l tls)
  clone (unix u) = none

  abbrev pub secured : Option T → S → Text ⊎ S
  secured none stream = inr stream
  secured (some tls) stream = with_error (codes "TLS error: ") (o.accept_tls tls stream)

  -- The stream, and the peer's address, which a Unix socket has not.
  unfoldable pub accept : Listener L U T → Text ⊎ (S × Option A)
  accept (tcp l tls) =
      o.accept_tcp l then_ok λ (p : S × A). secured tls p.0 then_ok λ stream. inr (stream, some p.1)
  accept (unix u) = o.accept_unix u then_ok λ stream. inr (stream, none)

  -- `Display`; `none` is the panic of a socket without a path.
  unfoldable pub display : Listener L U T → Option Text
  display (tcp l tls) =
      let (ip, port) = o.local_addr l in
      some (ip ++ codes ":" ++ decimal port ++ tls_suffix (is_some tls))
  display (unix u) = o.as_pathname u

-- `strip_suffix` is `strip_prefix` from behind.
abbrev pub without : Text → Option Text → Text
without s none = s
without s (some rest) = reverse rest

abbrev pub scheme : Bool → Text
scheme true = codes "https://"
scheme false = codes "http://"

-- The address as it is logged.
unfoldable pub addr_display : Bool → Text → Text
unfolding strip_prefix
addr_display tls_enabled raw =
    if starts_with (codes "/") raw
    then raw
    else scheme tls_enabled ++ without raw (strip_prefix (reverse (codes " (TLS)")) (reverse raw))
