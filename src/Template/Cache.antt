-- ===== src/Template/Cache.antt =====
-- The cache against the history of the compilations.
use http_nu.Common.{
  ℕ, subst, ◌≡◌, refl, sym, ap, some-injective, ◌∙◌, ◌⊎◌, inl, inr, false≢true, List, [], ◌∷◌, ◌++◌,
  Option, none, some, Text, or_option, right, or_option_nothing, or_option_assoc, is_some,
  if◌then◌else◌, ◌==◌, Bool-cases, Option-cases, ==_iff, ==_refl,
}
use http_nu.Value.{PipelineData, empty, value, list_stream, byte_stream}
use http_nu.Template.{
  Loader, Outside, template_name, hash_source_and_path, get_compiled, insert_compiled,
  compile_template_with_loader, context_of, render_in, run_render, Cache,
}

pub record Compile : Type 0 where
  pub source : Text
  pub base_dir : Text
  pub loader : Loader

module _ {T : Type 0} (o : Outside T) where
  abbrev pub key : Compile → ℕ
  key r = hash_source_and_path o r.source r.base_dir

  abbrev pub compile : Compile → Cache o → (Text ⊎ ℕ) × Cache o
  compile r c = compile_template_with_loader o r.source r.base_dir r.loader c

  abbrev pub compile_all : List Compile → Cache o → Cache o
  compile_all [] c = c
  compile_all (r ∷ rs) c = compile_all rs (compile r c).1

  abbrev pub compiled : Compile → Text ⊎ T
  compiled r = o.add_template r.loader template_name r.source

  -- The template that a compilation makes, if it succeeds and has this hash.
  abbrev pub compiled_at : ℕ → Compile → Option T
  compiled_at h r = if key r == h then right (compiled r) else none

  -- The first of them in a history.
  abbrev pub first_compiled : ℕ → List Compile → Option T
  first_compiled h [] = none
  first_compiled h (r ∷ rs) = or_option (compiled_at h r) (first_compiled h rs)

  get_compiled-insert :
      (h k : ℕ) (c : Cache o) (e : Text ⊎ T)
      → get_compiled o k c ≡ none
      → get_compiled o h (insert_compiled o k c e).1
        ≡ or_option (get_compiled o h c) (if k == h then right e else none)
  unfolding get_compiled
  get_compiled-insert h k c (inl m) q = elim (Bool-cases (k == h)) [
    | inl e ↦ rw e (sym (or_option_nothing (get_compiled o h c)))
    | inr e ↦ rw e (sym (or_option_nothing (get_compiled o h c)))
  ]
  get_compiled-insert h k c (inr t) q = elim (Bool-cases (k == h)) [
    | inl e ↦ rw (e, subst (λ j. get_compiled o j c ≡ none) ((==_iff k h).0 e) q) refl
    | inr e ↦ rw e (sym (or_option_nothing (get_compiled o h c)))
  ]

  -- A compilation adds what it makes, behind what is there.
  get_compiled-compile :
      (h : ℕ) (r : Compile) (c : Cache o)
      → get_compiled o h (compile r c).1 ≡ or_option (get_compiled o h c) (compiled_at h r)
  unfolding compile_template_with_loader
  get_compiled-compile h r c = elim (Option-cases (get_compiled o (key r) c)) [
    | inl q ↦ rw q (get_compiled-insert h (key r) c (compiled r) q)
    | inr (t, q) ↦ rw q (elim (Bool-cases (key r == h)) [
      | inl e ↦ rw (subst (λ j. get_compiled o j c ≡ some t) ((==_iff (key r) h).0 e) q) refl
      | inr e ↦ rw e (sym (or_option_nothing (get_compiled o h c)))
    ])
  ]

  get_compiled-compile_all :
      (h : ℕ) (rs : List Compile) (c : Cache o)
      → get_compiled o h (compile_all rs c) ≡ or_option (get_compiled o h c) (first_compiled h rs)
  get_compiled-compile_all h [] c = sym (or_option_nothing (get_compiled o h c))
  get_compiled-compile_all h (r ∷ rs) c =
      get_compiled-compile_all h rs (compile r c).1
      ∙ ap (λ x. or_option x (first_compiled h rs)) (get_compiled-compile h r c)
      ∙ or_option_assoc (get_compiled o h c) (compiled_at h r) (first_compiled h rs)

  compile_all-append :
      (rs later : List Compile) (c : Cache o)
      → compile_all (rs ++ later) c ≡ compile_all later (compile_all rs c)
  compile_all-append [] later c = refl
  compile_all-append (r ∷ rs) later c = compile_all-append rs later (compile r c).1

  -- A compilation that succeeds leaves its hash in the cache.
  insert_compiled-cached :
      (k h : ℕ) (c : Cache o) (s : Text ⊎ T)
      → (insert_compiled o k c s).0 ≡ inr h
      → (t : T) × (get_compiled o h (insert_compiled o k c s).1 ≡ some t)
  unfolding get_compiled
  insert_compiled-cached k h c (inl m) e = absurd (false≢true (ap (λ s. is_some (right s)) e))
  insert_compiled-cached k h c (inr t) e = (t, rw (some-injective (ap right e), ==_refl h) refl)

  compile-cached :
      (r : Compile) (h : ℕ) (c : Cache o)
      → (compile r c).0 ≡ inr h
      → (t : T) × (get_compiled o h (compile r c).1 ≡ some t)
  unfolding compile_template_with_loader
  compile-cached r h c e = elim (Option-cases (get_compiled o (key r) c)) [
    | inl q ↦ rw q (insert_compiled-cached (key r) h c (compiled r) (rw q at e))
    | inr (t, q) ↦
        rw q (t, subst (λ j. get_compiled o j c ≡ some t) (some-injective (ap right (rw q at e))) q)
  ]

  run_render-cached :
      (h : ℕ) (input : PipelineData) (c : Cache o) (t : T)
      → get_compiled o h c ≡ some t
      → run_render o h input c ≡ some (render_in o t input)
  unfolding run_render context_of
  run_render-cached h empty c t q = rw q refl
  run_render-cached h (value v m) c t q = rw q refl
  run_render-cached h (list_stream vs m) c t q = refl
  run_render-cached h (byte_stream b m) c t q = refl

  -- After any history of compilations, the hash that one of them returned renders, on every input, the template that
  -- the first successful compilation with this hash made: `render` never fails to find it in the cache.
  pub run_render-compile_all :
      (before : List Compile) (r : Compile) (later : List Compile) (h : ℕ) (input : PipelineData)
      → (compile r (compile_all before [])).0 ≡ inr h
      → (t : T) × (first_compiled h (before ++ r ∷ later) ≡ some t)
        × (run_render o h input (compile_all (before ++ r ∷ later) []) ≡ some (render_in o t input))
  unfolding get_compiled
  run_render-compile_all before r later h input e =
      let (t, q) = compile-cached r h (compile_all before []) e in
      (
        t,
        sym (get_compiled-compile_all h (before ++ r ∷ later) []) ∙ found t q,
        run_render-cached h input _ t (found t q),
      )
    where
      found :
          (t : T)
          → get_compiled o h (compile r (compile_all before [])).1 ≡ some t
          → get_compiled o h (compile_all (before ++ r ∷ later) []) ≡ some t
      found t q =
          rw (compile_all-append before (r ∷ later) [], get_compiled-compile_all h later _, q) refl

  -- What a compilation that succeeds returns is its key.
  insert_compiled-key :
      (k h : ℕ) (c : Cache o) (s : Text ⊎ T) → (insert_compiled o k c s).0 ≡ inr h → k ≡ h
  insert_compiled-key k h c (inl m) e = absurd (false≢true (ap (λ s. is_some (right s)) e))
  insert_compiled-key k h c (inr t) e = some-injective (ap right e)

  compile-key : (r : Compile) (h : ℕ) (c : Cache o) → (compile r c).0 ≡ inr h → key r ≡ h
  unfolding compile_template_with_loader
  compile-key r h c e = elim (Option-cases (get_compiled o (key r) c)) [
    | inl q ↦ insert_compiled-key (key r) h c (compiled r) (rw q at e)
    | inr (t, q) ↦ some-injective (ap right (rw q at e))
  ]

  compile-hit :
      (r : Compile) (c : Cache o) (t : T)
      → get_compiled o (key r) c ≡ some t
      → compile r c ≡ (inr (key r), c)
  unfolding compile_template_with_loader
  compile-hit r c t q = rw q refl

  -- The key is the hash of the source and the base directory one after the other, so a compilation whose source and
  -- base directory join to the same text as those of one that succeeded before, whatever was compiled before that and
  -- in between, is not made: it returns the other's hash and leaves the cache as it is, also when its own source does
  -- not compile, and this hash renders what the first successful compilation with this hash made.
  pub compile-same_key :
      (before between : List Compile) (a b : Compile) (h : ℕ) (input : PipelineData)
      → (compile a (compile_all before [])).0 ≡ inr h
      → a.source ++ a.base_dir ≡ b.source ++ b.base_dir
      → (compile b (compile_all (before ++ a ∷ between) [])
          ≡ (inr h, compile_all (before ++ a ∷ between) []))
        × ((t : T) × (first_compiled h (before ++ a ∷ between) ≡ some t)
            × (run_render o h input (compile b (compile_all (before ++ a ∷ between) [])).1
                ≡ some (render_in o t input)))
  unfolding hash_source_and_path get_compiled
  compile-same_key before between a b h input ok same =
      let c = compile_all (before ++ a ∷ between) [] in
      let k : key b ≡ h = ap o.hash_bytes (sym same) ∙ compile-key a h (compile_all before []) ok in
      let (t, f, r) = run_render-compile_all before a between h input ok in
      let found : get_compiled o h c ≡ some t =
        get_compiled-compile_all h (before ++ a ∷ between) [] ∙ f in
      let hit : compile b c ≡ (inr h, c) =
        compile-hit b c t (ap (λ x. get_compiled o x c) k ∙ found) ∙ ap (λ x. (inr x, c)) k in
      (hit, (t, f, ap (λ x. run_render o h input x.1) hit ∙ r))
