-- ===== src/Stdlib.antt =====
-- src/stdlib/mod.rs: the embedded modules, as virtual files and directories of the engine's working
-- set. The working set is Nushell's, with the identifiers that it gives; the files' texts are data.
mod Tests
use http_nu.Common.{◌⊎◌, inl, inr, List, [], ◌∷◌, ◌++◌, Text, codes, ◌then_ok◌}

pub data VirtualPath (F P : Type 0) : Type 0 where
  file : F → VirtualPath F P
  dir : List P → VirtualPath F P

pub record WorkingSet (W F P S : Type 0) : Type 0 where
  pub add_file : Text → Text → W → F × W
  pub add_virtual_path : Text → VirtualPath F P → W → P × W
  -- `render` and `merge_delta`.
  pub merge : W → Text ⊎ S

-- `PathBuf::join`, of relative paths.
abbrev pub join : Text → Text → Text
join directory name = directory ++ (b'/' ∷ name)

-- A directory under `http-nu` and the text of its `mod.nu`.
pub record Submodule : Type 0 where
  pub subdir : Text
  pub content : Text

abbrev pub std_submodules : Text → Text → Text → Text → List Submodule
std_submodules router html datastar http =
    record { subdir = codes "http-nu/router"; content = router }
    ∷ record { subdir = codes "http-nu/html"; content = html }
    ∷ record { subdir = codes "http-nu/datastar"; content = datastar }
    ∷ record { subdir = codes "http-nu/http"; content = http }
    ∷ []

module _ {W F P S : Type 0} (o : WorkingSet W F P S) where
  open o use {add_file, add_virtual_path, merge}

  unfoldable pub create_virt_file : Text → Text → W → P × W
  create_virt_file name content w =
      let (id, w') = add_file name content w in add_virtual_path name (file id) w'

  -- The loop over the submodules, with `http_nu_virt_paths`.
  unfoldable pub load_submodules : List Submodule → List P → W → List P × W
  unfolding create_virt_file
  load_submodules [] paths w = (paths, w)
  load_submodules (m ∷ ms) paths w =
      let (file_path, w₁) = create_virt_file (join m.subdir (codes "mod.nu")) m.content w in
      let (dir_path, w₂) = add_virtual_path m.subdir (dir (file_path ∷ [])) w₁ in
      load_submodules ms (paths ++ dir_path ∷ []) w₂

  unfoldable pub load_http_nu_stdlib : Text → List Submodule → W → Text ⊎ S
  unfolding create_virt_file load_submodules
  load_http_nu_stdlib std_mod submodules w =
      let (first, w₁) = create_virt_file (codes "http-nu/mod.nu") std_mod w in
      let (paths, w₂) = load_submodules submodules (first ∷ []) w₁ in
      let (_, w₃) = add_virtual_path (codes "http-nu") (dir paths) w₂ in merge w₃
