-- ===== src/Glob/Tests.antt =====
-- Runs of the glob matcher, after the tests of src/bus.rs.
use http_nu.Common.{◌≡◌, ◌↔◌, refl, true, false, codes}
use http_nu.Glob.{glob_matches}
use http_nu.Glob.Spec.{GlobMatches}
use http_nu.Glob.Compile.{glob_matches_iff}

dotted : glob_matches (codes "a.*") (codes "a.b.c") ≡ true
unfolding glob_matches
dotted = refl

not_dotted : glob_matches (codes "a.*") (codes "a") ≡ false
unfolding glob_matches
not_dotted = refl

glob_matches_iff_example :
    (glob_matches (codes "a**b") (codes "axb") ≡ true) ↔ GlobMatches (codes "a**b") (codes "axb")
glob_matches_iff_example = glob_matches_iff (codes "a**b") (codes "axb")
