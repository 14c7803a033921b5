-- ===== src/Stdlib/Tests.antt =====
-- The virtual paths that the embedded modules get, numbered in the order in which they are added.
use http_nu.Common.{ℕ, ◌≡◌, refl, inr, List, [], ◌∷◌, ◌++◌, Text, codes, length}
use http_nu.Stdlib.{VirtualPath, file, dir, WorkingSet, std_submodules, load_http_nu_stdlib}

abbrev Added : Type 0
Added = List (Text × VirtualPath ℕ ℕ)

abbrev listing : WorkingSet Added ℕ ℕ Added
listing = record {
  add_file = λ name content w. (length w, w);
  add_virtual_path = λ name path w. (length w, w ++ (name, path) ∷ []);
  merge = inr;
}

-- Each directory holds its own `mod.nu`; the root holds its `mod.nu` and the four directories.
all_paths :
    load_http_nu_stdlib listing [] (std_submodules [] [] [] []) []
    ≡ inr (
        (codes "http-nu/mod.nu", file 0)
        ∷ (codes "http-nu/router/mod.nu", file 1)
        ∷ (codes "http-nu/router", dir (1 ∷ []))
        ∷ (codes "http-nu/html/mod.nu", file 3)
        ∷ (codes "http-nu/html", dir (3 ∷ []))
        ∷ (codes "http-nu/datastar/mod.nu", file 5)
        ∷ (codes "http-nu/datastar", dir (5 ∷ []))
        ∷ (codes "http-nu/http/mod.nu", file 7)
        ∷ (codes "http-nu/http", dir (7 ∷ []))
        ∷ (codes "http-nu", dir (0 ∷ 2 ∷ 4 ∷ 6 ∷ 8 ∷ []))
        ∷ [])
unfolding load_http_nu_stdlib
all_paths = refl
