-- ===== src/Listener/Tests.antt =====
-- Listeners that are their addresses.
use http_nu.Common.{
  ℕ, ◌≡◌, refl, ◌⊎◌, inl, inr, true, false, [], ◌∷◌, Option, none, some, Text, codes, strip_prefix,
  utf8,
}
use http_nu.Listener.{Sockets, tcp, unix, bind, bind_on_windows, accept, display, addr_display}

abbrev sockets : Sockets Text Text Unit Text Text
sockets = record {
  bind_tcp = inr;
  bind_unix = inr;
  local_addr = λ l. (l, 80);
  as_pathname = some;
  accept_tcp = λ l. inr (l, codes "peer");
  accept_unix = inr;
  accept_tls = λ t. λ s. inl (codes "bad");
  open_file = inl;
  certs = λ b. inr [];
  private_key = λ b. inr none;
  with_single_cert = λ cs. λ k. λ ps. inr tt;
}

local_host : bind sockets (codes ":3000") none ≡ (inr (tcp (codes "127.0.0.1:3000") none), [])
unfolding bind strip_prefix
local_host = refl

-- What was at the path is removed, unless TLS is asked for.
socket_file : bind sockets (codes "./s") none ≡ (inr (unix (codes "./s")), codes "./s" ∷ [])
unfolding bind strip_prefix
socket_file = refl

socket_with_tls :
    bind sockets (codes "/s") (some tt)
    ≡ (inl (codes "TLS is not supported with Unix domain sockets"), [])
unfolding bind strip_prefix
socket_with_tls = refl

tls_failure : accept sockets (tcp [] (some tt)) ≡ inl (codes "TLS error: bad")
unfolding accept
tls_failure = refl

secure_address : addr_display true (codes "10.0.0.1:443 (TLS)") ≡ codes "https://10.0.0.1:443"
unfolding addr_display
secure_address = refl

-- An IPv6 address is shown without its brackets, and a relative path as a host.
unbracketed : display sockets (tcp (codes "::1") none) ≡ some (codes "::1:80")
unfolding display http_nu.Common.decimal
unbracketed = refl

relative_path : addr_display false (codes "./s") ≡ codes "http://./s"
unfolding addr_display
relative_path = refl

-- A drive letter is a socket's path on Windows, and a host elsewhere.
drive : bind_on_windows sockets (codes "C:/s") none ≡ (inr (unix (codes "C:/s")), codes "C:/s" ∷ [])
unfolding bind_on_windows utf8
drive = refl
