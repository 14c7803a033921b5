-- ===== src/Markdown/Safe.antt =====
-- What HTML an untrusted document can put into the page.
use http_nu.Common.{
  ◌≡◌, refl, Bool, true, false, inl, inr, List, [], ◌∷◌, ◌++◌, Option, none, some, Text, codes,
  if◌then◌else◌, Bool-cases,
}
use http_nu.Value.{string, PipelineData}
use http_nu.Markdown.{
  Event, start_code, end_code, text, html, inline_html, other_event, Renderer, State, initial,
  lang_of, highlight, find_syntax, syntax_or, code_html, convert, convert_all, html_value, run,
}

-- The events of the parser up to now, the last one first: whether a code block is open behind them, the text of the
-- last code block up to now, and its language.
abbrev pub open_in : {O : Type 0} → List (Event O) → Bool
open_in [] = false
open_in (start_code kind ∷ back) = true
open_in (end_code ∷ back) = false
open_in (e ∷ back) = open_in back

abbrev pub code_in : {O : Type 0} → List (Event O) → Text
code_in [] = []
code_in (start_code kind ∷ back) = []
code_in (text t ∷ back) = let code = code_in back in if open_in back then code ++ t else code
code_in (e ∷ back) = code_in back

abbrev pub lang_in : {O : Type 0} → List (Event O) → Option Text
lang_in [] = none
lang_in (start_code kind ∷ back) = lang_of kind
lang_in (e ∷ back) = lang_in back

module _ {O S : Type 0} (r : Renderer O S) where
  -- The only attribute of a code block, its language escaped.
  abbrev pub attribute : Option Text → Text
  attribute none = []
  attribute (some lang) = codes " class=\"language-" ++ r.escape lang ++ codes "\""

  -- What may stand for an event of the parser that comes behind `back`.
  abbrev pub Shown : List (Event O) → Event O → Event O → Type 0
  Shown back end_code o =
      (s : S) × (o
        ≡ html (
            codes "<pre><code"
            ++ attribute (lang_in back)
            ++ codes ">"
            ++ r.syntaxes.generate s (code_in back)
            ++ codes "</code></pre>"))
  Shown back (start_code kind) o = o ≡ text []
  Shown back (text t) o = o ≡ text (if open_in back then [] else t)
  Shown back (html h) o = o ≡ text h
  Shown back (inline_html h) o = o ≡ text h
  Shown back (other_event x) o = o ≡ other_event x

  -- One event for each, in order.
  abbrev pub Outputs : List (Event O) → List (Event O) → List (Event O) → Type 0
  Outputs back [] [] = Unit
  Outputs back [] (o ∷ os) = ⊥
  Outputs back (e ∷ es) [] = ⊥
  Outputs back (e ∷ es) (o ∷ os) = Shown back e o × Outputs (e ∷ back) es os

  -- The state behind the events.
  abbrev state_at : List (Event O) → State
  state_at back = record {
    in_code_block = open_in back;
    current_code = code_in back;
    current_lang = lang_in back;
  }

  convert-Shown :
      (back : List (Event O)) (e : Event O) → Shown back e (convert r false (state_at back) e).0
  unfolding convert code_html highlight
  convert-Shown back (start_code kind) = refl
  convert-Shown back end_code = (syntax_or r.syntaxes (find_syntax r.syntaxes (lang_in back)), refl)
  convert-Shown back (text t) = elim (Bool-cases (open_in back)) [
    | inl e ↦ rw e refl
    | inr e ↦ rw e refl
  ]
  convert-Shown back (html h) = refl
  convert-Shown back (inline_html h) = refl
  convert-Shown back (other_event o) = refl

  convert-state :
      (back : List (Event O)) (e : Event O)
      → (convert r false (state_at back) e).1 ≡ state_at (e ∷ back)
  unfolding convert
  convert-state back (start_code kind) = refl
  convert-state back end_code = refl
  convert-state back (text t) = elim (Bool-cases (open_in back)) [
    | inl e ↦ rw e refl
    | inr e ↦ rw e refl
  ]
  convert-state back (html h) = refl
  convert-state back (inline_html h) = refl
  convert-state back (other_event o) = refl

  convert_all-Outputs :
      (back es : List (Event O)) → Outputs back es (convert_all r false (state_at back) es)
  unfolding convert_all
  convert_all-Outputs back [] = tt
  convert_all-Outputs back (e ∷ es) =
      (convert-Shown back e, rw (convert-state back e) (convert_all-Outputs (e ∷ back) es))

  -- `.md` on a plain text never passes HTML of the text on. What it gives to the writer has one event for each of the
  -- parser's, in order: raw and inline HTML of the text becomes text; the start of a code block and the texts in it
  -- become empty texts; the end of a code block becomes the only HTML there is, `<pre><code`, the class
  -- `language-` with the escaped language of the last code block when it has one, and the highlighter's output for
  -- the texts seen since that block began, under some syntax; every other event passes through. The result is the
  -- writer's, marked as HTML.
  pub run-Safe :
      (input : PipelineData) (t : Text)
      → r.into_value input ≡ inr (string t)
      → (es : List (Event O)) × (run r input ≡ inr (html_value (r.push_html es)))
        × Outputs [] (r.parse t) es
  unfolding run
  run-Safe input t h =
      (convert_all r false initial (r.parse t), rw h refl, convert_all-Outputs [] (r.parse t))
