-- ===== src/Reload/Stdin.antt =====
-- The scripts that come in over the standard input.
use http_nu.Common.{
  ℕ, zero, suc, ◌≤◌, ◌≡◌, refl, sym, ap, true, false, List, [], ◌∷◌, ◌++◌, Option, none, some,
  Bytes, All, is_empty, length, length-append, take, filter_map, cons_some, ◌==◌, arith,
}
use mathlib.Core.Bool.{true≢false}
use http_nu.Reload.{send_engine, read_script, next_script, stdin_loop, stdin_source}

-- A script that can be sent: it has a byte, and none that is null.
abbrev pub Sendable : Bytes → Type 0
Sendable s = (is_empty s ≡ false) × All (λ c. (c == 0) ≡ false) s

-- Each script with its null behind it, before `rest`.
abbrev pub terminated : List Bytes → Bytes → Bytes
terminated [] rest = rest
terminated (s ∷ ss) rest = s ++ 0 ∷ terminated ss rest

-- The input ends, or an empty script follows.
abbrev pub Stops : Bytes → Type 0
Stops [] = Unit
Stops (c ∷ s) = (c == 0) ≡ true

read_script-append :
    (s rest : Bytes)
    → All (λ c. (c == 0) ≡ false) s
    → read_script false (s ++ 0 ∷ rest) ≡ some (s, rest)
unfolding read_script
read_script-append [] rest h = refl
read_script-append (c ∷ s) rest (h, hs) = rw (h, read_script-append s rest hs) refl

read_script-Stops :
    (rest : Bytes) → Stops rest → (r : Bytes) × (read_script false rest ≡ some ([], r))
unfolding read_script
read_script-Stops [] h = ([], refl)
read_script-Stops (c ∷ s) h = (s, rw h refl)

take-nil : {A : Type 0} (n : ℕ) → take {A = A} n [] ≡ []
take-nil zero = refl
take-nil (suc n) = refl

module _ {E : Type 0} (compile : Bytes → Option E) where
  send_engine-take :
      (taken : ℕ) (o : Option E) (onward : ℕ → List E) (es : List E)
      → ((n : ℕ) → onward n ≡ take n es)
      → send_engine compile taken o onward ≡ take taken (cons_some o es)
  send_engine-take taken none onward es h = h taken
  send_engine-take zero (some e) onward es h = refl
  send_engine-take (suc n) (some e) onward es h = ap (λ xs. e ∷ xs) (h n)

  stdin_round :
      (f : ℕ) (input : Bytes) (taken : ℕ)
      → stdin_loop compile (suc f) false input taken
        ≡ next_script compile taken (read_script false input) (stdin_loop compile f false)
  unfolding stdin_loop
  stdin_round f input taken = refl

  stdin_loop_lem :
      (f : ℕ) (ss : List Bytes) (rest : Bytes) (taken : ℕ)
      → All Sendable ss
      → Stops rest
      → length ss ≤ f
      → stdin_loop compile (suc f) false (terminated ss rest) taken
        ≡ take taken (filter_map compile ss)
  stdin_loop_lem f [] rest taken h stops le =
      let (r, e) = read_script-Stops rest stops in
      rw (stdin_round f rest taken, e) (sym (take-nil taken))
  stdin_loop_lem zero (s ∷ ss) rest taken h stops le = ground (arith, le)
  stdin_loop_lem (suc f) ([] ∷ ss) rest taken ((ne, hs), h) stops le = absurd (true≢false ne)
  stdin_loop_lem (suc f) ((c ∷ s) ∷ ss) rest taken ((ne, hs), h) stops le =
      rw
        (
          stdin_round (suc f) ((c ∷ s) ++ 0 ∷ terminated ss rest) taken,
          read_script-append (c ∷ s) (terminated ss rest) hs,
        )
        (send_engine-take taken (compile (c ∷ s))
          (stdin_loop compile (suc f) false (terminated ss rest)) (filter_map compile ss)
          (λ n. stdin_loop_lem f ss rest n h stops (omega (arith, le))))

  length-terminated : (ss : List Bytes) (rest : Bytes) → length ss ≤ length (terminated ss rest)
  length-terminated [] rest = omega arith
  length-terminated (s ∷ ss) rest =
      rw (length-append s (0 ∷ terminated ss rest)) (omega (arith, length-terminated ss rest))

  -- When scripts come in, each one not empty, free of nulls and followed by a null, the source sends
  -- the engines of those that make one, in order, as many as are taken; and it stops at the end of
  -- the input or at the first empty script, whatever comes after that. The fuel is enough.
  pub stdin_source_lem :
      (ss : List Bytes) (rest : Bytes) (taken : ℕ)
      → All Sendable ss
      → Stops rest
      → stdin_source compile false (terminated ss rest) taken ≡ take taken (filter_map compile ss)
  unfolding stdin_source
  stdin_source_lem ss rest taken h stops =
      stdin_loop_lem (length (terminated ss rest)) ss rest taken h stops (length-terminated ss rest)
