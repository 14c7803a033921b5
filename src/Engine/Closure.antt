-- ===== src/Engine/Closure.antt =====
-- What an engine that was made from a script can run.
use http_nu.Common.{
  ℕ, ◌≡◌, refl, ap, ◌∙◌, subst, ◌⊎◌, inl, inr, List, [], ◌∷◌, Option, some, Text, ◌then_ok◌, arith,
}
use http_nu.Engine.{
  ShellError, Nu, Engine, verify, closure_of, formatted, parse_script, parse_closure, or_logged,
  run_block, run_closure, script_to_engine,
}

then_ok-inr :
    {E A R : Type 0} (e : E ⊎ A) (f : A → E ⊎ R) (r : R)
    → (e then_ok f) ≡ inr r
    → (a : A) × (e ≡ inr a) × (f a ≡ inr r)
then_ok-inr (inl m) f r h = absurd (ground arith)
then_ok-inr (inr a) f r h = (a, refl, h)

abbrev right_or : {E A : Type 0} → A → E ⊎ A → A
right_or d (inl e) = d
right_or d (inr a) = a

inr-injective : {E A : Type 0} {a b : A} → Path (E ⊎ A) (inr a) (inr b) → a ≡ b
inr-injective {a = a} h = ap (right_or a) h

module _ {S B D K P V C : Type 0} (nu : Nu S B D K P V C) where
  or_logged-inr :
      (strip : Text → Text) (r : Text ⊎ Engine S C) (engine : Engine S C)
      → or_logged nu strip r ≡ inr engine
      → r ≡ inr engine
  or_logged-inr strip (inl e) engine h = absurd (ground arith)
  or_logged-inr strip (inr made) engine h = ap (λ x. inr x) (inr-injective h)

  verify-inr :
      (vs : List (Option ℕ)) (c d : C)
      → verify nu vs c ≡ inr d
      → (v : Option ℕ) × (vs ≡ v ∷ []) × (c ≡ d)
  verify-inr [] c d h = absurd (ground arith)
  verify-inr (v ∷ []) c d h = (v, refl, inr-injective h)
  verify-inr (v ∷ w ∷ vs) c d h = absurd (ground arith)

  closure_of-inr :
      (s : S) (result : ShellError ⊎ P) (c : C)
      → closure_of nu s result ≡ inr c
      → (v : Option ℕ) × (nu.required_positional (nu.get_block s c) ≡ v ∷ [])
  closure_of-inr s result c h =
      let (p, _, h1) = then_ok-inr (formatted nu s result) _ c h in
      let (v, _, h2) = then_ok-inr (formatted nu s (nu.into_value p)) _ c h1 in
      let (d, _, h3) = then_ok-inr (formatted nu s (nu.into_closure v)) _ c h2 in
      let (o, one, same) = verify-inr (nu.required_positional (nu.get_block s d)) d c h3 in
      (o, subst (λ x. nu.required_positional (nu.get_block s x) ≡ o ∷ []) same one)

  -- The engine of `parse_closure`, from the state in which the closure was checked.
  abbrev Made : Engine S C → Engine S C → Type 0
  Made base engine =
      (c : C) × (v : Option ℕ) × (stack : K) × (merged : S) × (s : S) × (nu.required_positional
          (nu.get_block merged c)
        ≡ v ∷ [])
      × (nu.merge_env stack merged ≡ inr s)
      × (record base { state = s; closure = some c } ≡ engine)

  parse_closure-Made :
      (script : Text) (file : Option Text) (base engine : Engine S C)
      → parse_closure nu script file base ≡ inr engine
      → Made base engine
  unfolding parse_closure
  parse_closure-Made script file base engine h =
      let (p, _, h1) =
        then_ok-inr (parse_script nu (nu.with_file file base.state) file script) _ engine h in
      let (merged, _, h2) =
        then_ok-inr (nu.merge_delta p.delta (nu.with_file file base.state)) _ engine h1 in
      let out = nu.eval_block_with_early_return merged nu.new_stack p.block nu.no_data in
      let (c, closed, h3) = then_ok-inr (closure_of nu merged out.0) _ engine h2 in
      let (s, env, h4) = then_ok-inr (nu.merge_env out.1 merged) _ engine h3 in
      let (v, one) = closure_of-inr merged out.0 c closed in
      (c, v, out.1, merged, s, one, env, inr-injective h4)

  -- The closure is there, and to run it evaluates its block with the argument in its variable.
  abbrev pub Runs : Engine S C → V → P → Engine S C → Type 0
  Runs base input piped engine =
      (c : C) × (v : ℕ) × (engine.closure ≡ some c)
      × (nu.required_positional (nu.get_block engine.state c) ≡ some v ∷ [])
      × (run_closure nu engine input piped
          ≡ some (
              run_block nu engine.state
                (nu.add_var v input (nu.push_redirection (nu.captures_to_stack c)))
                (nu.get_block engine.state c) piped))
      × (engine.sse_cancel_token ≡ base.sse_cancel_token)
      × (engine.bus ≡ base.bus)

  -- What Nushell promises: merging an environment keeps the blocks, and the parser gives every required argument a
  -- variable.
  abbrev pub KeepsBlocks : Type 0
  KeepsBlocks =
      (k : K) (s t : S) (c : C) → nu.merge_env k s ≡ inr t → nu.get_block t c ≡ nu.get_block s c

  abbrev pub HasVariables : Type 0
  HasVariables = (b : B) (v : Option ℕ) → nu.required_positional b ≡ v ∷ [] → (i : ℕ) × (v ≡ some i)

  Made-Runs :
      (base engine : Engine S C) (input : V) (piped : P)
      → KeepsBlocks
      → HasVariables
      → Made base engine
      → Runs base input piped engine
  unfolding run_closure
  Made-Runs base engine input piped keeps has (c, v, k, merged, s, one, env, made) =
      let (i, some_i) = has (nu.get_block merged c) v one in
      let same = keeps k merged s c env in
      let kept : nu.required_positional (nu.get_block s c) ≡ some i ∷ [] =
        rw same (one ∙ ap (λ x. x ∷ []) some_i) in
      subst (Runs base input piped) made (c, i, refl, kept, rw kept refl, refl, refl)

  -- When merging an environment keeps the blocks and the parser gives every required argument a variable, an engine
  -- that a script was made into has the closure of the script, which takes exactly one argument; running it on any
  -- request and body evaluates its block with the request in the variable of that argument, so it neither panics nor
  -- fails for want of a closure; and the engine has the new cancellation token and the bus of the base engine.
  pub run_closure-script_to_engine :
      (strip : Text → Text) (token : ℕ) (base engine : Engine S C) (script : Text)
      (file : Option Text) (input : V) (piped : P)
      → KeepsBlocks
      → HasVariables
      → script_to_engine nu strip token base script file ≡ inr engine
      → Runs (record base { sse_cancel_token = token }) input piped engine
  unfolding script_to_engine
  run_closure-script_to_engine strip token base engine script file input piped keeps has h =
      Made-Runs (record base { sse_cancel_token = token }) engine input piped keeps has
        (parse_closure-Made script file (record base { sse_cancel_token = token }) engine
          (or_logged-inr strip _ engine h))
