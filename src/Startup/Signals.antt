-- ===== src/Startup/Signals.antt =====
-- src/main.rs, `shutdown_signal` and `setup_ctrlc_handler`: how a signal stops the server. The jobs of
-- the engine are Nushell's: their list, and the removal of one.
use http_nu.Common.{
  ℕ, zero, suc, ◌≡◌, refl, ap, ◌∙◌, Bool, true, false, false≢true, not, ◌||◌, ◌==◌, ==_refl, All,
  any, filter, inl, inr, Bool-cases, arith, List, [], ◌∷◌, Option, none, some, if◌then◌else◌,
}

-- The flag that all engines look at, and the jobs; `locked` is a mutex that cannot be taken.
pub record Process (J : Type 0) : Type 0 where
  pub interrupt : Bool
  pub jobs : J
  pub locked : Bool

module _ {J : Type 0} (ids : J → List ℕ) (kill_and_remove : ℕ → J → J) where
  abbrev pub kill_each : List ℕ → J → J
  kill_each [] jobs = jobs
  kill_each (id ∷ more) jobs = kill_each more (kill_and_remove id jobs)

  -- The handler of Ctrl-C. The identifiers are collected before the first job is removed.
  unfoldable pub on_ctrl_c : Process J → Process J
  on_ctrl_c p = record p {
    interrupt = true;
    jobs = if p.locked then p.jobs else kill_each (ids p.jobs) p.jobs;
  }

-- What comes at a tick of 100 ms.
pub record Tick : Type 0 where
  pub ctrl_c : Bool
  pub terminate : Bool
  pub interrupted : Bool

-- The tick at which `shutdown_signal` returns: the first of Ctrl-C, SIGTERM and the flag.
unfoldable pub shutdown_signal : List Tick → Option ℕ
shutdown_signal [] = none
shutdown_signal (t ∷ ts) =
    let later = shutdown_signal ts in
    if t.ctrl_c || t.terminate || t.interrupted then some zero else next later
  where
    next : Option ℕ → Option ℕ
    next none = none
    next (some n) = some (suc n)

abbrev without_id : ℕ → List ℕ → List ℕ
without_id id xs = filter (λ x. not (x == id)) xs

abbrev without_all : List ℕ → List ℕ → List ℕ
without_all [] xs = xs
without_all (id ∷ more) xs = without_all more (without_id id xs)

-- Every element of the second list is in the first.
abbrev Within : List ℕ → List ℕ → Type 0
Within ys xs = All (λ x. any (λ y. x == y) ys ≡ true) xs

without_id-Within :
    (id : ℕ) (more xs : List ℕ) → Within (id ∷ more) xs → Within more (without_id id xs)
without_id-Within id more [] h = tt
without_id-Within id more (x ∷ xs) (h, hs) = elim (Bool-cases (x == id)) [
  | inl e ↦ rw e (without_id-Within id more xs hs)
  | inr e ↦ rw e (rw e at h, without_id-Within id more xs hs)
]

without_all-none : (ys xs : List ℕ) → Within ys xs → without_all ys xs ≡ []
without_all-none [] [] h = refl
without_all-none [] (x ∷ xs) (h, hs) = absurd (false≢true h)
without_all-none (id ∷ more) xs h =
    without_all-none more (without_id id xs) (without_id-Within id more xs h)

Within-cons : (y : ℕ) (ys xs : List ℕ) → Within ys xs → Within (y ∷ ys) xs
Within-cons y ys [] h = tt
Within-cons y ys (x ∷ xs) (h, hs) = (ground (arith, h), Within-cons y ys xs hs)

Within-self : (xs : List ℕ) → Within xs xs
Within-self [] = tt
Within-self (x ∷ xs) = (ground (arith, ==_refl x), Within-cons x xs xs (Within-self xs))

module _ {J : Type 0} (ids : J → List ℕ) (kill_and_remove : ℕ → J → J)
    (removed : (id : ℕ) (jobs : J) → ids (kill_and_remove id jobs) ≡ without_id id (ids jobs)) where
  kill_each-ids :
      (ls : List ℕ) (jobs : J)
      → ids (kill_each ids kill_and_remove ls jobs) ≡ without_all ls (ids jobs)
  kill_each-ids [] jobs = refl
  kill_each-ids (id ∷ more) jobs =
      kill_each-ids more (kill_and_remove id jobs) ∙ ap (without_all more) (removed id jobs)

  -- Ctrl-C sets the flag, and leaves no job when the table can be locked.
  on_ctrl_c-jobs :
      (p : Process J)
      → p.locked ≡ false
      → ((on_ctrl_c ids kill_and_remove p).interrupt ≡ true)
        × (ids (on_ctrl_c ids kill_and_remove p).jobs ≡ [])
  unfolding on_ctrl_c
  on_ctrl_c-jobs p h = (
    refl,
    rw h (
        kill_each-ids (ids p.jobs) p.jobs
        ∙ without_all-none (ids p.jobs) (ids p.jobs) (Within-self (ids p.jobs))),
  )
