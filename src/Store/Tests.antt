-- ===== src/Store/Tests.antt =====
-- A store of one topic, with the Nushell of the engine's tests.
use http_nu.Common.{
  ℕ, ◌≡◌, refl, true, [], ◌∷◌, Option, none, some, take, Text, codes, strip_prefix, text_eq,
}
use http_nu.Template.{Frame}
use http_nu.Engine.{Engine}
use http_nu.Engine.Tests.{nu, base, loaded}
use http_nu.Store.{Store, placeholder_closure, topic_source}
use http_nu.Store.Topic.{topic_engines, topic_source-take}

abbrev frame_of : ℕ → Text → Option Text → Frame
frame_of i t h = record { id = i; topic = t; hash = h }

-- The content is its own hash.
abbrev store : Store Text
store = record {
  last_frame = λ t. some (frame_of 3 t (some (5 ∷ [])));
  read_after = λ t. λ id.
      frame_of 4 t none
      ∷ frame_of 5 (codes "other") (some (6 ∷ []))
      ∷ frame_of 6 t (some (6 ∷ []))
      ∷ frame_of 7 t (some (1 ∷ 2 ∷ []))
      ∷ [];
  cas_read = λ h. some h;
  from_utf8 = λ b. some b;
  load_modules = λ id. λ s. s;
  placeholder = codes "{|req| \"__TOPIC__\"}__TOPIC";
  path = codes "/s";
}

topic_source-take_example :
    topic_source nu store (λ e. e) (codes "topic") true base 1 2
    ≡ some (take 2 (topic_engines nu store (λ e. e) (codes "topic") true base 1))
topic_source-take_example = topic_source-take nu store (λ e. e) (codes "topic") true base 1 1

-- A frame without content, one of another topic and one whose closure has two arguments are passed over.
two_are_sent :
    topic_source nu store (λ e. e) (codes "topic") true base 1 9
    ≡ some (loaded 1 (5 ∷ []) ∷ loaded 4 (6 ∷ []) ∷ [])
unfolding topic_source text_eq http_nu.Engine.script_to_engine
two_are_sent = refl

placeholder_of_topic :
    placeholder_closure nu store (λ e. e) (codes "a__TOPIC__")
    ≡ codes "{|req| \"a__TOPIC__\"}__TOPIC"
unfolding placeholder_closure strip_prefix
placeholder_of_topic = refl
