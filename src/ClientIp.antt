-- ===== src/ClientIp.antt =====
-- src/request.rs, `resolve_trusted_ip`: the client's address behind trusted proxies. Addresses,
-- networks, the parser of addresses and the membership test are the standard library's and
-- `ipnet`'s: parameters. The header is absent, or present and perhaps no text (`to_str`).
pub mod Chain
mod Tests
use http_nu.Common.{
  Bool, true, false, not, List, [], ◌∷◌, Text, Option, none, some, if◌then◌else◌, is_empty, any,
  map, reverse, split, trim, or_option,
}

-- The comma-separated entries of the header.
abbrev pub entries : Text → List Text
entries xff = map trim (split b',' xff)

module _ {Ip Net : Type 0} (parse : Text → Option Ip) (contains : Net → Ip → Bool) where
  abbrev pub is_trusted : List Net → Ip → Bool
  is_trusted nets ip = any (λ net. contains net ip) nets

  -- The loop over the entries, right to left, with its variable `leftmost_ip`.
  unfoldable pub scan : List Net → Option Ip → Option Ip → List Text → Option Ip
  scan nets remote leftmost [] = or_option leftmost remote
  scan nets remote leftmost (s ∷ rest) = elim (parse s) [
    | none ↦ scan nets remote leftmost rest
    | some ip ↦ elim (is_trusted nets ip) [
      | false ↦ some ip
      | true ↦ scan nets remote (some ip) rest
    ]
  ]

  -- A peer on a Unix socket has no address and is trusted.
  unfoldable pub remote_is_trusted : List Net → Option Ip → Bool
  remote_is_trusted nets none = true
  remote_is_trusted nets (some ip) = is_trusted nets ip

  unfoldable pub resolve_trusted_ip : Option (Option Text) → Option Ip → List Net → Option Ip
  unfolding scan remote_is_trusted split trim
  resolve_trusted_ip header remote_ip trusted_proxies =
      if is_empty trusted_proxies
      then remote_ip
      else if not (remote_is_trusted trusted_proxies remote_ip)
      then remote_ip
      else elim header [
        | none ↦ remote_ip
        | some none ↦ none
        | some (some xff) ↦ scan trusted_proxies remote_ip none (reverse (entries xff))
      ]
