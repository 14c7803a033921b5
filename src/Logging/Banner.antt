-- ===== src/Logging/Banner.antt =====
-- The banner of `Event::Started`: the options, and what the build, the process and the clock give.
use http_nu.Common.{
  join, ℕ, Bool, true, false, ◌&&◌, List, [], ◌∷◌, ◌++◌, Option, none, some, Bytes, if◌then◌else◌,
  ◌>>=◌, is_empty, decimal, cons_some,
}
use http_nu.Logging.Line.{lit}

pub record StartupOptions : Type 0 where
  pub watch : Bool
  pub tls : Option Bytes
  pub store : Option Bytes
  pub topic : Option Bytes
  pub expose : Option Bytes
  pub services : Bool
  pub datastar : Bool

pub record About : Type 0 where
  pub version : Bytes
  pub pid : ℕ
  pub rfc2822 : Bytes
  pub nu_version : Bytes
  pub xs_version : Option Bytes
  pub datastar_version : Bytes

abbrev pub flag : Bool → Bytes → Option Bytes
flag true t = some t
flag false t = none

abbrev pub prefixed : Bytes → Option Bytes → Option Bytes
prefixed p o = o >>= λ t. some (p ++ t)

unfoldable pub http_opts : StartupOptions → List Bytes
http_opts o = cons_some (flag o.watch (lit "watch")) (cons_some (prefixed (lit "tls:") o.tls) [])

unfoldable pub xs_opts : StartupOptions → List Bytes
xs_opts o = cons_some o.store (
    cons_some (prefixed (lit "topic:") o.topic)
      (cons_some o.expose (cons_some (flag o.services (lit "services")) [])))

abbrev pub when_some : Option Bytes → Option Bytes → Option Bytes
when_some none b = none
when_some (some a) b = b

unfoldable pub versions_str : About → StartupOptions → Bytes
versions_str a o = join (lit " · ") (
    (lit "nu " ++ a.nu_version)
    ∷ cons_some (when_some o.store (prefixed (lit "xs ") a.xs_version))
        (cons_some (flag o.datastar (lit "datastar " ++ a.datastar_version)) []))

abbrev pub opts_str : List Bytes → List Bytes → Bytes
opts_str http [] = join (lit " ") http
opts_str [] xs = lit "xs " ++ join (lit " ") xs
opts_str http xs = join (lit " ") http ++ lit " │ xs " ++ join (lit " ") xs

abbrev pub version_line : About → Bytes
version_line a = lit "<http-nu version=\"" ++ a.version ++ lit "\">"

-- The banner of `Event::Started` below its first line.
unfoldable pub banner : About → Bytes → ℕ → StartupOptions → List Bytes
unfolding http_opts xs_opts versions_str
banner a address startup_ms o =
    let head = lit " !_-(_\\     " in
    lit "     __  ,"
    ∷ (lit " .--()°'.'  pid "
        ++ decimal a.pid
        ++ lit " · "
        ++ address
        ++ lit " · "
        ++ decimal startup_ms
        ++ lit "ms 💜")
    ∷ (lit "'|, . ,'    " ++ a.rfc2822)
    ∷ (if is_empty (http_opts o) && is_empty (xs_opts o)
        then (head ++ versions_str a o) ∷ []
        else (head ++ opts_str (http_opts o) (xs_opts o))
          ∷ (lit "            " ++ versions_str a o)
          ∷ [])

unfoldable pub started_lines : About → Bytes → ℕ → StartupOptions → List Bytes
unfolding banner
started_lines a address startup_ms o = version_line a ∷ banner a address startup_ms o
