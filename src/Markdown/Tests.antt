-- ===== src/Markdown/Tests.antt =====
-- `.md` over a parser that reads one event from a text's first character.
use http_nu.Common.{◌≡◌, refl, false, List, [], ◌∷◌, ◌++◌, none, some, ◌⊎◌, inl, inr, Text, codes}
use http_nu.Value.{Value, string, PipelineData, value}
use http_nu.Markdown.{
  Event, start_code, end_code, text, html, Renderer, Syntaxes, fenced, initial, convert_all,
  html_value, run,
}
use http_nu.Markdown.Safe.{Outputs, run-Safe}

abbrev parsed : Text → List (Event Unit)
parsed t =
    start_code (fenced (codes "  rust no_run"))
    ∷ text (codes "fn")
    ∷ text t
    ∷ end_code
    ∷ html t
    ∷ []

abbrev written : List (Event Unit) → Text
written [] = []
written (html h ∷ es) = h ++ written es
written (text t ∷ es) = codes "~" ++ written es
written (e ∷ es) = written es

abbrev of_value : PipelineData → Text ⊎ Value
of_value (value v meta) = inr v
of_value _ = inl []

-- Every language is known by its token.
abbrev syntaxes : Syntaxes Text
syntaxes = record {
  by_token = some;
  by_extension = λ l. none;
  plain_text = codes "plain";
  generate = λ s. λ code. code;
  into_string = λ b. inr [];
}

abbrev renderer : Renderer Unit Text
renderer = record {
  into_value = of_value;
  parse = parsed;
  push_html = written;
  escape = λ t. t;
  syntaxes = syntaxes;
  get_type = λ v. [];
  as_str_error = λ v. [];
}

run-Safe_example :
    (es : List (Event Unit)) × (run renderer (value (string (codes "<b>")) none)
      ≡ inr (html_value (renderer.push_html es)))
    × Outputs renderer [] (parsed (codes "<b>")) es
run-Safe_example = run-Safe renderer (value (string (codes "<b>")) none) (codes "<b>") refl

html_is_not_passed_on :
    written (convert_all renderer false initial (parsed (codes "<b>")))
    ≡ codes "~~~<pre><code class=\"language-rust\">fn<b></code></pre>~"
unfolding convert_all
html_is_not_passed_on = refl
