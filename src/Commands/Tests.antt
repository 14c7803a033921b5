-- ===== src/Commands/Tests.antt =====
-- `print` and `.run` at work.
use http_nu.Common.{◌≡◌, refl, inr, true, false, [], ◌∷◌, none, some, Text, codes}
use http_nu.Value.{Value, string, nothing, value, ByteStream}
use http_nu.Engine.Tests.{nu}
use http_nu.Commands.{run_print, run_nu}

abbrev shown : Value → Text
shown (string s) = s
shown v = []

two_arguments :
    run_print shown
      (λ (b : ByteStream). inr [])
      (string (codes "a") ∷ string (codes "b") ∷ [])
      false
      (value nothing none)
    ≡ inr (some (codes "a\nb"))
unfolding run_print
two_arguments = refl

nothing_to_print :
    run_print shown (λ (b : ByteStream). inr []) [] true (value nothing none) ≡ inr none
unfolding run_print
nothing_to_print = refl

runs : run_nu nu (λ e. e) (codes "x") [] [] ≡ inr (codes "x")
unfolding run_nu
runs = refl
