-- ===== src/Template/Tests.antt =====
-- The cache of templates, with a template that is its own source and a hash that is the length.
use http_nu.Common.{◌≡◌, refl, ◌⊎◌, inl, inr, [], ◌∷◌, Option, none, some, Text, codes, length}
use http_nu.Value.{Value, string, Json, empty}
use http_nu.Sse.{Renderer}
use http_nu.Template.{Loader, no_loader, Outside, run_render, render_in}
use http_nu.Template.Cache.{
  Compile, compile, compile_all, first_compiled, run_render-compile_all, compile-same_key,
}

abbrev rendered : Value → Text
rendered (string s) = s
rendered _ = []

abbrev texts : Renderer
texts = record { to_expanded_string = rendered; json_text = λ j. []; get_type = λ v. [] }

abbrev parsed : Text → Text ⊎ Text
parsed [] = inl (codes "empty")
parsed s = inr s

abbrev outside : Outside Text
outside = record {
  hash_bytes = length;
  add_template = λ (l : Loader). λ (n : Text). λ (s : Text). parsed s;
  get_template = λ (l : Loader). λ (n : Text). parsed n;
  render_template = λ (t : Text). λ (c : Option Json). inr t;
  read_to_string = inr;
  absolute = λ t. t;
  parent = λ t. none;
  file_name = some;
  last_frame = λ t. none;
  cas_read = λ h. none;
  from_utf8 = some;
  renderer = texts;
}

abbrev of_source : Text → Text → Compile
of_source s d = record { source = s; base_dir = d; loader = no_loader }

abbrev hello : Compile
hello = of_source (codes "hello") (codes "/a")

abbrev longer : Compile
longer = of_source (codes "goodbye") (codes "/a")

run_render-compile_all_example :
    (t : Text) × (first_compiled outside 7 (hello ∷ longer ∷ []) ≡ some t)
    × (run_render outside 7 empty (compile_all outside (hello ∷ longer ∷ []) [])
        ≡ some (render_in outside t empty))
unfolding http_nu.Template.compile_template_with_loader
run_render-compile_all_example = run_render-compile_all outside [] hello (longer ∷ []) 7 empty refl

-- An empty template in `hello/a` is one that is in the cache.
compile-same_key_example :
    (compile outside (of_source [] (codes "hello/a")) (compile_all outside (longer ∷ hello ∷ []) [])
      ≡ (inr 7, compile_all outside (longer ∷ hello ∷ []) []))
    × ((t : Text) × (first_compiled outside 7 (longer ∷ hello ∷ []) ≡ some t)
        × (run_render outside 7 empty
              (compile outside
                (of_source [] (codes "hello/a"))
                (compile_all outside (longer ∷ hello ∷ []) [])).1
            ≡ some (render_in outside t empty)))
unfolding http_nu.Template.compile_template_with_loader
compile-same_key_example =
    compile-same_key outside (longer ∷ []) [] hello (of_source [] (codes "hello/a")) 7 empty refl
      refl
