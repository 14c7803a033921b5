-- ===== src/Startup/Launched.antt =====
-- With what arguments the server starts.
use http_nu.Common.{
  ℕ, ◌⊎◌, inl, inr, Bool, true, false, List, Option, none, some, Text, codes, is_some, ◌≡◌, refl,
  ◌&&◌, ◌||◌, not, text_eq, Bool-cases, arith,
}
use http_nu.Engine.{Nu, Engine}
use http_nu.Engine.Setup.{Setup, create_base_engine}
use http_nu.Startup.{
  Args, http_nu_options, startup_options, Source, from_topic, from_commands, from_stdin, from_file,
  refused, impossible, script_source, path_source, source_of_handler,
}
use http_nu.Startup.Main.{
  Launch, stops, panics, evaluated, serves, launched_file, launched_stdin, launched, store_failure,
  launch_at, main_server,
}

-- What `clap` lets through of `--commands` and `--topic`.
abbrev pub Accepted : Args → Type 0
Accepted a =
    (is_some a.commands && (a.watch || is_some a.script) ≡ false)
    × (is_some a.topic && (not (is_some a.store) || is_some a.script || is_some a.commands) ≡ false)

-- The source is the one that the arguments name, and the only one.
abbrev pub Names : Option Text → Option Text → Option Text → Source → Type 0
Names topic script commands (from_topic t) = (topic ≡ some t) × (script ≡ none) × (commands ≡ none)
Names topic script commands (from_commands c) =
    (topic ≡ none) × (script ≡ none) × (commands ≡ some c)
Names topic script commands (from_file p) =
    (topic ≡ none) × (script ≡ some p) × (commands ≡ none) × (text_eq p (codes "-") ≡ false)
Names topic script commands from_stdin =
    (topic ≡ none)
    × ((p : Text) × (script ≡ some p) × (text_eq p (codes "-") ≡ true))
    × (commands ≡ none)
Names topic script commands (refused m) = (topic ≡ none) × (script ≡ none) × (commands ≡ none)
Names topic script commands impossible = ⊥

path_source-Names : (p : Text) → Names none (some p) none (path_source p)
path_source-Names p = elim (Bool-cases (text_eq p (codes "-"))) [
  | inl e ↦ rw e (refl, (p, refl, e), refl)
  | inr e ↦ rw e (refl, refl, refl, e)
]

script_source-Names :
    (script commands : Option Text) (watch : Bool)
    → is_some commands && (watch || is_some script) ≡ false
    → Names none script commands (script_source script commands watch)
unfolding script_source
script_source-Names none none watch h = (refl, refl, refl)
script_source-Names (some p) none watch h = path_source-Names p
script_source-Names none (some c) true h = absurd (ground (arith, h))
script_source-Names none (some c) false h = (refl, refl, refl)
script_source-Names (some p) (some c) true h = absurd (ground (arith, h))
script_source-Names (some p) (some c) false h = absurd (ground (arith, h))

source_of_handler-Names :
    (a : Args) → Accepted a → Names a.topic a.script a.commands (source_of_handler a)
unfolding source_of_handler
source_of_handler-Names a (h, k) = by_topic a.topic a.store a.script a.commands a.watch h k
  where
    by_topic :
        (topic store script commands : Option Text) (watch : Bool)
        → is_some commands && (watch || is_some script) ≡ false
        → is_some topic && (not (is_some store) || is_some script || is_some commands) ≡ false
        → Names topic script commands (elim topic [
          | none ↦ script_source script commands watch
          | some t ↦ elim store [
            | none ↦ script_source script commands watch
            | some s ↦ from_topic t
          ]
        ])
    by_topic none store script commands watch h k = script_source-Names script commands watch h
    by_topic (some t) none script commands watch h k = absurd (ground (arith, k))
    by_topic (some t) (some s) (some p) commands watch h k = absurd (ground (arith, k))
    by_topic (some t) (some s) none (some c) watch h k = absurd (ground (arith, k))
    by_topic (some t) (some s) none none watch h k = (refl, refl, refl)

module _ {S I P G C B D K R V : Type 0} (o : Setup S I P G) (nu : Nu S B D K R V C)
    (open_store : Text → Option Text) (read_to_string : Text → Text ⊎ Text) (stdin : Option Text)
    (bus token : ℕ) (plugins include_paths : List Text) where
  abbrev engine_for : Args → Text ⊎ Engine S C
  engine_for a =
      create_base_engine o nu bus token plugins include_paths (is_some a.store) (http_nu_options a)

  abbrev ServedFrom : Args → Source → Type 0
  ServedFrom a source = Names a.topic a.script a.commands source

  -- The file that the arguments name is not read or not resolved.
  abbrev Unread : Args → Type 0
  Unread a =
      (p : Text) × ServedFrom a (from_file p)
      × ((e : Text) × ((read_to_string p ≡ inl e) ⊎ (o.canonicalize p ≡ inl e)))

  -- Why the server stops before it listens.
  abbrev Unready : Option Text → Args → Type 0
  Unready addr a =
      (addr ≡ none)
      ⊎ (((e : Text) × (store_failure o nu open_store a.store ≡ some e))
          ⊎ (((e : Text) × (engine_for a ≡ inl e))
              ⊎ (((a.topic ≡ none) × (a.script ≡ none) × (a.commands ≡ none)) ⊎ Unread a)))

  -- The source has been read as far as it is before `serve`.
  abbrev Read : Args → Source → Type 0
  Read a (from_file p) =
      ((content : Text) × (read_to_string p ≡ inr content))
      × ((path : Text) × (o.canonicalize p ≡ inr path))
  Read a from_stdin = (a.watch ≡ true) ⊎ ((script : Text) × (stdin ≡ some script))
  Read a source = Unit

  abbrev pub Justified : Option Text → Args → Launch (Engine S C) → Type 0
  Justified addr a (stops message) = Unready addr a
  Justified addr a panics = ServedFrom a from_stdin × (a.watch ≡ false) × (stdin ≡ none)
  Justified addr a (evaluated outcome events) = ⊥
  Justified addr a (serves at source engine options) =
      (addr ≡ some at)
      × (store_failure o nu open_store a.store ≡ none)
      × (engine_for a ≡ inr engine)
      × ServedFrom a source
      × Read a source
      × (options ≡ startup_options a)

  launched_file-Justified :
      (at : Text) (a : Args) (p : Text) (engine : Engine S C) (content path : Text ⊎ Text)
      → read_to_string p ≡ content
      → o.canonicalize p ≡ path
      → store_failure o nu open_store a.store ≡ none
      → engine_for a ≡ inr engine
      → ServedFrom a (from_file p)
      → Justified (some at) a (
          launched_file o nu open_store read_to_string stdin p content path
            (serves at (from_file p) engine (startup_options a)))
  launched_file-Justified at a p engine (inl f) path c r s e n =
      inr (inr (inr (inr (p, n, (f, inl c)))))
  launched_file-Justified at a p engine (inr content) (inl f) c r s e n =
      inr (inr (inr (inr (p, n, (f, inr r)))))
  launched_file-Justified at a p engine (inr content) (inr path) c r s e n =
      (refl, s, e, n, ((content, c), (path, r)), refl)

  launched_stdin-Justified :
      (at : Text) (a : Args) (engine : Engine S C) (watch : Bool) (input : Option Text)
      → a.watch ≡ watch
      → stdin ≡ input
      → store_failure o nu open_store a.store ≡ none
      → engine_for a ≡ inr engine
      → ServedFrom a from_stdin
      → Justified (some at) a (
          launched_stdin o nu open_store read_to_string stdin watch input
            (serves at from_stdin engine (startup_options a)))
  launched_stdin-Justified at a engine true input w i s e n = (refl, s, e, n, inl w, refl)
  launched_stdin-Justified at a engine false none w i s e n = (n, w, i)
  launched_stdin-Justified at a engine false (some t) w i s e n = (refl, s, e, n, inr (t, i), refl)

  launched-Justified :
      (at : Text) (a : Args) (source : Source) (engine : Engine S C)
      → store_failure o nu open_store a.store ≡ none
      → engine_for a ≡ inr engine
      → ServedFrom a source
      → Justified (some at) a (launched o nu open_store read_to_string stdin at a source engine)
  launched-Justified at a (from_topic t) engine s e n = (refl, s, e, n, tt, refl)
  launched-Justified at a (from_commands c) engine s e n = (refl, s, e, n, tt, refl)
  launched-Justified at a from_stdin engine s e n =
      launched_stdin-Justified at a engine a.watch stdin refl refl s e n
  launched-Justified at a (from_file p) engine s e n =
      launched_file-Justified at a p engine (read_to_string p) (o.canonicalize p) refl refl s e n
  launched-Justified at a (refused m) engine s e n = inr (inr (inr (inl n)))
  launched-Justified at a impossible engine s e n = absurd n

  launch_at-Justified :
      (at : Text) (a : Args) (store : Option Text) (engine : Text ⊎ Engine S C)
      → Accepted a
      → store_failure o nu open_store a.store ≡ store
      → engine_for a ≡ engine
      → Justified (some at) a (launch_at o nu open_store read_to_string stdin at a store engine)
  launch_at-Justified at a (some e) engine h s q = inr (inl (e, s))
  launch_at-Justified at a none (inl e) h s q = inr (inr (inl (e, q)))
  launch_at-Justified at a none (inr engine) h s q =
      launched-Justified at a (source_of_handler a) engine s q (source_of_handler-Names a h)

  -- With the arguments that `clap` lets through, the start of the server never comes to an `unreachable!`. It serves at
  -- the given address, with the base engine, the options, and the source that the arguments name (the topic, the
  -- commands, the standard input or the file; each excludes the others), and then a named file has been read and
  -- resolved, and the standard input has been read unless it is watched. Or it stops with a message, and then no
  -- address is given, or the store does not open, or the base engine is not set up, or no source is named, or the
  -- named file cannot be read or resolved. It panics only when the source is the standard input, not watched, and that
  -- cannot be read.
  pub main_server-Justified :
      (addr : Option Text) (a : Args)
      → Accepted a
      → Justified addr a
          (main_server o nu open_store read_to_string stdin bus token addr plugins include_paths a)
  unfolding main_server
  main_server-Justified none a h = inl refl
  main_server-Justified (some at) a h = launch_at-Justified at a _ _ h refl refl
