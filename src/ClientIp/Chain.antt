-- ===== src/ClientIp/Chain.antt =====
-- What `resolve_trusted_ip` reports, read off the chain of addresses in the header.
use http_nu.Common.{
  ◌≡◌, refl, sym, ap, ◌∙◌, Bool, true, not, ◌||◌, List, [], ◌∷◌, ◌++◌, map, reverse, map-append,
  Text, Option, none, some, if◌then◌else◌, Bool-cases, Option-cases, inl, inr, is_empty, any,
  filter, filter_map, head?, last?, or_option, or_option_assoc, or_option-some, filter-append,
  filter-reverse, filter_map-append, filter_map-reverse, last?-append, last?-reverse, head?-reverse,
  last?-filter-any, split, split-append, trim, arith,
}
use http_nu.ClientIp

module _ {Ip Net : Type 0} (parse : Text → Option Ip) (contains : Net → Ip → Bool) where
  abbrev is_trusted : List Net → Ip → Bool
  is_trusted = ClientIp.is_trusted parse contains

  abbrev pub is_untrusted : List Net → Ip → Bool
  is_untrusted nets ip = not (is_trusted nets ip)

  abbrev resolve : Option (Option Text) → Option Ip → List Net → Option Ip
  resolve = ClientIp.resolve_trusted_ip parse contains

  -- The addresses that the header names, in the order in which they stand.
  abbrev pub hops : Text → List Ip
  hops xff = filter_map parse (ClientIp.entries xff)

  -- The untrusted address nearest to the server; without one the leftmost; without any the peer.
  abbrev pub client : List Net → Option Ip → List Ip → Option Ip
  client nets remote ips =
      or_option (last? (filter (is_untrusted nets) ips)) (or_option (head? ips) remote)

  -- What the header says, to a trusted peer.
  abbrev pub report : Option (Option Text) → Option Ip → List Net → Option Ip
  report none remote nets = remote
  report (some none) remote nets = none
  report (some (some xff)) remote nets = client nets remote (hops xff)

  scan_lem :
      (nets : List Net) (remote leftmost : Option Ip) (es : List Text)
      → ClientIp.scan parse contains nets remote leftmost es
        ≡ or_option
            (head? (filter (is_untrusted nets) (filter_map parse es)))
            (or_option (last? (filter_map parse es)) (or_option leftmost remote))
  unfolding ClientIp.scan
  scan_lem nets remote leftmost [] = refl
  scan_lem nets remote leftmost (e ∷ es) = elim (Option-cases (parse e)) [
    | inl q ↦ rw (q, ClientIp.scan) (scan_lem nets remote leftmost es)
    | inr (ip, q) ↦ elim (Bool-cases (is_trusted nets ip)) [
      | inl t ↦
          rw (q, t, ClientIp.scan)
            (scan_lem nets remote (some ip) es
              ∙ ap (or_option _) (
                  sym (or_option_assoc (last? (filter_map parse es)) (some ip) remote)
                  ∙ or_option-some (last? (filter_map parse es)) ip remote
                      (or_option leftmost remote)))
      | inr f ↦ rw (q, f, ClientIp.scan) refl
    ]
  ]

  scan-reverse :
      (nets : List Net) (remote : Option Ip) (xff : Text)
      → ClientIp.scan parse contains nets remote none (reverse (ClientIp.entries xff))
        ≡ client nets remote (hops xff)
  scan-reverse nets remote xff = rw (
    scan_lem nets remote none (reverse (ClientIp.entries xff)),
    filter_map-reverse parse (ClientIp.entries xff),
    filter-reverse (is_untrusted nets) (hops xff),
    head?-reverse (filter (is_untrusted nets) (hops xff)),
    last?-reverse (hops xff),
  )

  -- With proxies configured and a peer that is trusted (an address in one of their networks, or a
  -- Unix socket), the client is the rightmost address of the header that is in no trusted network;
  -- if all are trusted, the leftmost; if the header is absent or names none, the peer. A header that
  -- is no text gives no address at all. Otherwise the client is the peer, whatever the header says.
  pub resolve_trusted_ip_lem :
      (header : Option (Option Text)) (remote_ip : Option Ip) (nets : List Net)
      → resolve header remote_ip nets ≡ (
          if is_empty nets || not (ClientIp.remote_is_trusted parse contains nets remote_ip)
          then remote_ip
          else report header remote_ip nets)
  unfolding ClientIp.resolve_trusted_ip
  resolve_trusted_ip_lem none remote_ip nets = ground arith
  resolve_trusted_ip_lem (some none) remote_ip nets = ground arith
  resolve_trusted_ip_lem (some (some xff)) remote_ip nets =
      ground (arith, scan-reverse nets remote_ip xff)

  hops-append : (spoof xff : Text) → hops (spoof ++ b',' ∷ xff) ≡ hops spoof ++ hops xff
  hops-append spoof xff = rw (
    split-append b',' spoof xff,
    map-append trim (split b',' spoof) (split b',' xff),
    filter_map-append parse (map trim (split b',' spoof)) (map trim (split b',' xff)),
  )

  client-append :
      (nets : List Net) (remote : Option Ip) (front ips : List Ip)
      → any (is_untrusted nets) ips ≡ true
      → client nets remote (front ++ ips) ≡ client nets remote ips
  client-append nets remote front ips h =
      let (ip, e) = last?-filter-any (is_untrusted nets) ips h in
      rw (
        filter-append (is_untrusted nets) front ips,
        last?-append (filter (is_untrusted nets) front) (filter (is_untrusted nets) ips),
        e,
      )

  -- A client cannot forge its address: what it writes into the header before the proxies append to
  -- it does not change the result, as long as they append an address that is not trusted.
  pub resolve_unspoofable :
      (nets : List Net) (remote_ip : Option Ip) (spoof xff : Text)
      → any (is_untrusted nets) (hops xff) ≡ true
      → resolve (some (some (spoof ++ b',' ∷ xff))) remote_ip nets
        ≡ resolve (some (some xff)) remote_ip nets
  resolve_unspoofable nets remote_ip spoof xff h = rw (
    resolve_trusted_ip_lem (some (some (spoof ++ b',' ∷ xff))) remote_ip nets,
    resolve_trusted_ip_lem (some (some xff)) remote_ip nets,
    hops-append spoof xff,
    client-append nets remote_ip (hops spoof) (hops xff) h,
  )
