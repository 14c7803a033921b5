-- ===== src/Startup/Tests.antt =====
-- The choice of the source.
use http_nu.Common.{◌≡◌, refl, true, false, none, some, codes, text_eq}
use http_nu.Startup.{Args, source_of_handler, from_stdin, from_topic}

abbrev args : Args
args = record {
  dev = false;
  datastar = false;
  watch = true;
  services = false;
  tls = none;
  store = none;
  topic = none;
  expose = none;
  script = some (codes "-");
  commands = none;
}

stdin_script : source_of_handler args ≡ from_stdin
unfolding source_of_handler text_eq
stdin_script = refl

topic_script :
    source_of_handler
      (record args { topic = some (codes "t"); store = some (codes "s"); script = none })
    ≡ from_topic (codes "t")
unfolding source_of_handler
topic_script = refl
