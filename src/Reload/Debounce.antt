-- ===== src/Reload/Debounce.antt =====
-- The debounce of the file watcher.
use http_nu.Common.{
  ℕ, ◌≡◌, refl, Bool, true, false, ◌||◌, List, [], ◌∷◌, ◌++◌, Option, Bytes, All, any,
  if◌then◌else◌,
}
use http_nu.Reload.{
  send_engine, Watched, changed, unchanged, watch_error, timeout, disconnected, read_engine,
  watch_loop,
}

abbrev pub is_change : Watched → Bool
is_change changed = true
is_change _ = false

-- Neither a timeout nor the end.
abbrev pub InBurst : Watched → Type 0
InBurst (timeout content) = ⊥
InBurst disconnected = ⊥
InBurst _ = Unit

or-true : (b : Bool) → (b || true) ≡ true
or-true true = refl
or-true false = refl

module _ {E : Type 0} (compile : Bytes → Option E) where
  -- However many events come between two timeouts, they cause one reload, of what the file holds
  -- at the timeout, if one of them is a change of a file or one was pending, and none otherwise;
  -- after it nothing is pending.
  pub watch_loop-burst :
      (burst : List Watched) (pending : Bool) (content : Option Bytes) (es : List Watched)
      (taken : ℕ)
      → All InBurst burst
      → watch_loop compile pending (burst ++ timeout content ∷ es) taken ≡ (
          if pending || any is_change burst
          then send_engine compile taken (read_engine compile content) (watch_loop compile false es)
          else watch_loop compile false es taken)
  unfolding watch_loop
  watch_loop-burst [] true content es taken h = refl
  watch_loop-burst [] false content es taken h = refl
  watch_loop-burst (changed ∷ b) true content es taken (_, h) =
      watch_loop-burst b true content es taken h
  watch_loop-burst (changed ∷ b) false content es taken (_, h) =
      watch_loop-burst b true content es taken h
  watch_loop-burst (unchanged ∷ b) pending content es taken (_, h) =
      watch_loop-burst b pending content es taken h
  watch_loop-burst (watch_error ∷ b) pending content es taken (_, h) =
      watch_loop-burst b pending content es taken h
  watch_loop-burst (timeout c ∷ b) pending content es taken (n, h) = absurd n
  watch_loop-burst (disconnected ∷ b) pending content es taken (n, h) = absurd n
