-- ===== src/Logging/Jsonl/Lines.antt =====
-- What the JSON log has written, and when.
use http_nu.Common.{
  ℕ, ◌-◌, ◌≡◌, refl, sym, ap, ◌∙◌, inl, inr, Bool, true, false, ◌||◌, List, [], ◌∷◌, ◌++◌,
  append-nil, append_assoc, Option, none, some, Bytes, length, ltb, leb, if◌then◌else◌, Bool-cases,
  is_some, arith,
}
use http_nu.Value.{Json}
use http_nu.Logging.Human.{
  About, Event, request, response, complete, started, reloaded, error, print_event, stopping,
  stopped, stop_timed_out, shutdown, Received, event, lagged_by, closed, is_shutdown,
}
use http_nu.Logging.Jsonl.{
  Out, flush, buffer_capacity, push_bytes, write_through, write_all, write_line, Item, flush_if,
  line_of, breaks, flushes, needs_flush, turn, run_jsonl_handler,
}

-- Everything that was written, passed on or not.
abbrev pub contents : Out → Bytes
contents o = o.written ++ o.buffered

contents-flush : (o : Out) → contents (flush o) ≡ contents o
contents-flush o = append-nil _

written_of : (o : Out) → o.buffered ≡ [] → o.written ≡ contents o
written_of o h = rw h (sym (append-nil o.written))

contents-push : (b : Bytes) (o : Out) → contents (push_bytes b o) ≡ contents o ++ b
contents-push b o = sym (append_assoc o.written o.buffered b)

empty_of_length : (b : Bytes) → length b ≡ 0 → b ≡ []
empty_of_length [] h = refl
empty_of_length (c ∷ b) h = absurd (ground (arith, h))

contents-through :
    (b : Bytes) (o : Out) → o.buffered ≡ [] → contents (write_through b o) ≡ contents o ++ b
contents-through b o h = rw (h, append-nil o.written, append-nil (o.written ++ b)) refl

-- The end of `write_all`, when its bytes did not fit.
contents-cold :
    (big : Bool) (b : Bytes) (o : Out)
    → (big ≡ true → o.buffered ≡ [])
    → contents (if big then write_through b o else push_bytes b o) ≡ contents o ++ b
contents-cold true b o h = contents-through b o (h refl)
contents-cold false b o h = contents-push b o

no_room : (n m : ℕ) → ltb (buffer_capacity - n) m ≡ false → leb buffer_capacity m ≡ true → n ≡ 0
no_room n m f h = ground arith

contents-write_all : (b : Bytes) (o : Out) → contents (write_all b o) ≡ contents o ++ b
unfolding write_all
contents-write_all b o = elim (Bool-cases (ltb (length b) (buffer_capacity - length o.buffered))) [
  | inl e ↦ rw e (contents-push b o)
  | inr e ↦ elim (Bool-cases (ltb (buffer_capacity - length o.buffered) (length b))) [
    | inl f ↦
        rw (e, f)
          (contents-cold (leb buffer_capacity (length b)) b (flush o) (λ _. refl)
            ∙ ap (λ x. x ++ b) (contents-flush o))
    | inr f ↦
        rw (e, f)
          (contents-cold (leb buffer_capacity (length b)) b o
            (λ h. empty_of_length o.buffered (no_room (length o.buffered) (length b) f h)))
  ]
]

abbrev pub ended : Option Bytes → Bytes
ended none = []
ended (some line) = line ++ 10 ∷ []

contents-write_line :
    (line : Option Bytes) (o : Out) → contents (write_line line o) ≡ contents o ++ ended line
unfolding write_line
contents-write_line none o = sym (append-nil _)
contents-write_line (some line) o =
    contents-write_all (10 ∷ []) (write_all line o)
    ∙ ap (λ x. x ++ 10 ∷ []) (contents-write_all line o)
    ∙ append_assoc (contents o) line (10 ∷ [])

contents-flush_if : (b : Bool) (o : Out) → contents (flush_if b o) ≡ contents o
contents-flush_if true o = contents-flush o
contents-flush_if false o = refl

-- A shutdown or a closed channel: nothing is read behind it.
abbrev pub last : Received → Bool
last closed = true
last (lagged_by n) = false
last (event shutdown) = true
last (event e) = false

abbrev pub DueEvent : Bool → Event → Type 0
DueEvent idle (started address ms o) = Unit
DueEvent idle reloaded = Unit
DueEvent idle (error e) = Unit
DueEvent idle (print_event m) = Unit
DueEvent idle stopped = Unit
DueEvent idle stop_timed_out = Unit
DueEvent idle shutdown = Unit
DueEvent idle (request id r) = idle ≡ true
DueEvent idle (response id status headers latency) = idle ≡ true
DueEvent idle (complete id bytes duration) = idle ≡ true
DueEvent idle (stopping n) = idle ≡ true

abbrev pub DueOf : Bool → Option Bytes → Received → Type 0
DueOf idle line closed = Unit
DueOf idle line (lagged_by n) = is_some line ≡ true
DueOf idle line (event e) = DueEvent idle e

due_event :
    (idle : Bool) (e : Event)
    → DueEvent idle e
    → (is_shutdown e || (is_shutdown e || needs_flush e || idle)) ≡ true
due_event idle (started address ms o) h = refl
due_event idle reloaded h = refl
due_event idle (error e) h = refl
due_event idle (print_event m) h = refl
due_event idle stopped h = refl
due_event idle stop_timed_out h = refl
due_event idle shutdown h = refl
due_event idle (request id r) h = h
due_event idle (response id status headers latency) h = h
due_event idle (complete id bytes duration) h = h
due_event idle (stopping n) h = h

module _ (a : About) (to_string : Json → Option Bytes) where
  abbrev pub item_line : Item → Option Bytes
  item_line i = line_of a to_string i.stamp i.received

  -- The lines of the items, up to the one that breaks the loop.
  abbrev pub lines : List Item → Bytes
  lines [] = []
  lines (i ∷ is) =
      let rest = lines is in ended (item_line i) ++ (if last i.received then [] else rest)

  -- Behind what nothing may wait in the buffer: the end, a report of lost events that has a line, an event of the
  -- lifecycle, and any other event when the channel is empty.
  abbrev pub Due : Item → Type 0
  Due i = DueOf i.idle (item_line i) i.received

  due_flushes :
      (idle : Bool) (line : Option Bytes) (x : Received)
      → DueOf idle line x
      → (breaks a to_string x || flushes a to_string idle line x) ≡ true
  due_flushes idle line closed h = refl
  due_flushes idle line (lagged_by n) h = h
  due_flushes idle line (event e) h = due_event idle e h

  contents-turn :
      (i : Item) (o : Out) → contents (turn a to_string i o) ≡ contents o ++ ended (item_line i)
  unfolding turn
  contents-turn i o =
      contents-flush_if (flushes a to_string i.idle (item_line i) i.received) _
      ∙ contents-write_line (item_line i) o

  breaks-last : (x : Received) → breaks a to_string x ≡ last x
  breaks-last closed = refl
  breaks-last (lagged_by n) = refl
  breaks-last (event shutdown) = refl
  breaks-last (event e) = refl

  contents-run :
      (is : List Item) (o : Out)
      → contents (run_jsonl_handler a to_string is o) ≡ contents o ++ lines is
  unfolding run_jsonl_handler
  contents-run [] o = sym (append-nil _)
  contents-run (i ∷ is) o = elim (Bool-cases (last i.received)) [
    | inl e ↦
        rw (breaks-last i.received, e)
          (contents-flush (turn a to_string i o)
            ∙ contents-turn i o
            ∙ ap (λ x. contents o ++ x) (sym (append-nil (ended (item_line i)))))
    | inr e ↦
        rw (breaks-last i.received, e)
          (contents-run is (turn a to_string i o)
            ∙ ap (λ x. x ++ lines is) (contents-turn i o)
            ∙ append_assoc (contents o) (ended (item_line i)) (lines is))
  ]

  turn-flushed :
      (i : Item) (o : Out)
      → flushes a to_string i.idle (item_line i) i.received ≡ true
      → (turn a to_string i o).buffered ≡ []
  unfolding turn
  turn-flushed i o h = rw h refl

  run-flushed :
      (is : List Item) (i : Item) (o : Out)
      → (breaks a to_string i.received || flushes a to_string i.idle (item_line i) i.received)
        ≡ true
      → (run_jsonl_handler a to_string (is ++ i ∷ []) o).buffered ≡ []
  unfolding run_jsonl_handler
  run-flushed [] i o h = elim (Bool-cases (breaks a to_string i.received)) [
    | inl e ↦ rw e refl
    | inr e ↦ rw e (turn-flushed i o (rw e at h))
  ]
  run-flushed (j ∷ is) i o h = elim (Bool-cases (breaks a to_string j.received)) [
    | inl e ↦ rw e refl
    | inr e ↦ rw e (run-flushed is i (turn a to_string j o) h)
  ]

  -- When the last thing received is an event of the lifecycle (`started`, `reloaded`, `error`, `print`, `stopped` or
  -- `stop_timed_out`), the end (a shutdown or a closed channel), a report of lost events that has a text, or an event
  -- behind which the channel is empty, then nothing is left in the buffer: behind all that had been written before,
  -- the standard output has exactly the line of each event and report, in their order, each ended by a line feed, up
  -- to the first shutdown or closed channel.
  pub run_jsonl_handler-lines :
      (is : List Item) (i : Item) (o : Out)
      → Due i
      → ((run_jsonl_handler a to_string (is ++ i ∷ []) o).buffered ≡ [])
        × ((run_jsonl_handler a to_string (is ++ i ∷ []) o).written
            ≡ (o.written ++ o.buffered) ++ lines (is ++ i ∷ []))
  run_jsonl_handler-lines is i o h = (
    run-flushed is i o (due_flushes i.idle (item_line i) i.received h),
    written_of (run_jsonl_handler a to_string (is ++ i ∷ []) o)
          (run-flushed is i o (due_flushes i.idle (item_line i) i.received h))
        ∙ contents-run (is ++ i ∷ []) o,
  )
