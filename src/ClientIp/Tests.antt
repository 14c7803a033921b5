-- ===== src/ClientIp/Tests.antt =====
-- Runs of the address resolution, over one-letter addresses: the lower-case ones are proxies.
use http_nu.Common.{◌≡◌, refl, ℕ, Bool, [], ◌∷◌, ◌++◌, Text, Option, none, some, leb, codes}
use http_nu.ClientIp.{resolve_trusted_ip}
use http_nu.ClientIp.Chain.{resolve_unspoofable, resolve_trusted_ip_lem}

abbrev one_letter : Text → Option ℕ
one_letter (c ∷ []) = some c
one_letter _ = none

-- A network holds the addresses up to a bound.
abbrev above : ℕ → ℕ → Bool
above net ip = leb net ip

first_untrusted :
    resolve_trusted_ip one_letter above
      (some (some (codes "A, B , bad, x")))
      (some b'y')
      (b'a' ∷ [])
    ≡ some b'B'
unfolding resolve_trusted_ip
first_untrusted = refl

resolve_unspoofable_example :
    resolve_trusted_ip one_letter above
      (some (some (codes "Z" ++ b',' ∷ codes "B, x")))
      (some b'y')
      (b'a' ∷ [])
    ≡ resolve_trusted_ip one_letter above (some (some (codes "B, x"))) (some b'y') (b'a' ∷ [])
unfolding resolve_trusted_ip
resolve_unspoofable_example =
    resolve_unspoofable one_letter above (b'a' ∷ []) (some b'y') (codes "Z") (codes "B, x") refl

resolve_trusted_ip_lem_example :
    resolve_trusted_ip one_letter above (some none) none (b'a' ∷ []) ≡ none
unfolding resolve_trusted_ip
resolve_trusted_ip_lem_example =
    resolve_trusted_ip_lem one_letter above (some none) none (b'a' ∷ [])
