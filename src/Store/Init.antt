-- ===== src/Store/Init.antt =====
-- `Store::init` and `Store::from_inner`: the store, and what is spawned beside it. The store itself and
-- the tasks are the xs crate's; the error of a task is printed.
use http_nu.Common.{
  ◌⊎◌, Bool, true, false, List, [], ◌∷◌, ◌++◌, Option, Text, codes, ◌then_ok◌, inr,
}

pub data Task : Type 0 where
  api : Option Text → Task
  actor : Task
  service : Task
  action : Task

pub record Opened (X : Type 0) : Type 0 where
  pub inner : X
  pub path : Text

abbrev pub from_inner : {X : Type 0} → X → Text → Opened X
from_inner inner path = record { inner = inner; path = path }

abbrev pub processors : Bool → List Task
processors true = actor ∷ service ∷ action ∷ []
processors false = []

-- With the tasks, none of them before the store is open.
unfoldable pub init :
    {X : Type 0} → (Text → Text ⊎ X) → Text → Bool → Option Text → Text ⊎ (Opened X × List Task)
init open_store path services expose =
    open_store path then_ok λ inner. inr (from_inner inner path, api expose ∷ processors services)

-- What is printed when a task ends with an error.
unfoldable pub task_error : Task → Text → Text
task_error (api expose) e = codes "Store API server error: " ++ e
task_error actor e = codes "Actor processor error: " ++ e
task_error service e = codes "Service processor error: " ++ e
task_error action e = codes "Action processor error: " ++ e
