-- ===== src/Reload/Tests.antt =====
-- The sources of scripts on concrete inputs; a script makes an engine unless it begins with `!`.
use http_nu.Common.{
  ◌≡◌, refl, false, List, [], ◌∷◌, ◌++◌, Option, none, some, Bytes, codes, take, filter_map,
  if◌then◌else◌, ◌==◌,
}
use http_nu.Reload.{changed, unchanged, timeout, stdin_source, watch_loop, send_engine, read_engine}
use http_nu.Reload.Stdin.{terminated, stdin_source_lem}
use http_nu.Reload.Debounce.{watch_loop-burst}

abbrev compiles : Bytes → Option Bytes
compiles [] = none
compiles (c ∷ s) = if c == b'!' then none else some (c ∷ s)

abbrev scripts : List Bytes
scripts = codes "a" ∷ codes "!b" ∷ codes "c" ∷ []

stdin_source_lem_example :
    stdin_source compiles false (terminated scripts (0 ∷ codes "later")) 5
    ≡ take 5 (filter_map compiles scripts)
stdin_source_lem_example =
    stdin_source_lem compiles scripts (0 ∷ codes "later") 5
      ((refl, (refl, tt)), ((refl, (refl, (refl, tt))), ((refl, (refl, tt)), tt))) refl

empty_script_stops :
    stdin_source compiles false (terminated scripts (0 ∷ codes "later")) 5
    ≡ codes "a" ∷ codes "c" ∷ []
unfolding stdin_source
empty_script_stops = refl

watch_loop-burst_example :
    watch_loop compiles false
      ((changed ∷ unchanged ∷ changed ∷ []) ++ timeout (some (codes "a")) ∷ [])
      5
    ≡ send_engine compiles 5
        (read_engine compiles (some (codes "a")))
        (watch_loop compiles false [])
watch_loop-burst_example =
    watch_loop-burst compiles (changed ∷ unchanged ∷ changed ∷ []) false (some (codes "a")) [] 5
      (tt, (tt, (tt, tt)))
