-- ===== src/Sse/Reading.antt =====
-- What a client makes of the lines of one event.
use http_nu.Common.{
  ℕ, ◌≡◌, refl, sym, ap, ◌∙◌, Bool, true, false, not, ◌&&◌, List, [], ◌∷◌, ◌++◌, map, Option, none,
  some, Text, codes, All, append_assoc, append-nil, arith, ◌==◌, is_empty, if◌then◌else◌, text_eq,
}
use http_nu.Sse.{data_prefix}
use http_nu.Sse.Lines.{OneLine}
use http_nu.Sse.Wire.{write, text_line}
use http_nu.Sse.Client.{
  ended_by, Message, Client, set_kind, add_data, set_id, set_retry, has_nul, all_digits,
  without_last, kind_or_message, dispatched, take_line, take_lines,
}

-- No carriage return.
abbrev pub NoReturn : Text → Type 0
NoReturn s = All (λ c. (c == b'\r') ≡ false) s

abbrev pub Plain : Text → Type 0
Plain s = OneLine s × NoReturn s

ended_by-line :
    (acc l next : Text)
    → Plain l
    → ended_by false acc (l ++ b'\n' ∷ next) ≡ (acc ++ l) ∷ ended_by false [] next
unfolding ended_by
ended_by-line acc [] next h = ap (λ x. x ∷ ended_by false [] next) (sym (append-nil acc))
ended_by-line acc (c ∷ l) next ((h, hs), (k, ks)) =
    rw (h, k)
      (ended_by-line (acc ++ c ∷ []) l next (hs, ks)
        ∙ ap (λ x. x ∷ ended_by false [] next) (append_assoc acc (c ∷ []) l))

pub ended_by-write :
    (ls : List Text) (next : Text)
    → All Plain ls
    → ended_by false [] (write ls next) ≡ ls ++ ended_by false [] next
ended_by-write [] next h = refl
ended_by-write (l ∷ ls) next (h, hs) =
    ended_by-line [] l (write ls next) h ∙ ap (λ x. l ∷ x) (ended_by-write ls next hs)

-- The messages of one part and then those of another.
abbrev pub then_messages :
    List Message × Client → (Client → List Message × Client) → List Message × Client
then_messages (ms, c) f = (ms ++ (f c).0, (f c).1)

pub take_lines-append :
    (xs ys : List Text) (c : Client)
    → take_lines (xs ++ ys) c ≡ then_messages (take_lines xs c) (take_lines ys)
unfolding take_lines
take_lines-append [] ys c = refl
take_lines-append (l ∷ ls) ys c =
    let (ms, c') = take_line l c in
    let (more, c'') = take_lines ls c' in
    ap (λ r. (ms ++ r.0, r.1)) (take_lines-append ls ys c')
    ∙ ap (λ xs. (xs, (take_lines ys c'').1)) (sym (append_assoc ms more (take_lines ys c'').0))

-- What a field leaves in its buffer.
abbrev pub new_kind : Option Text → Text → Text
new_kind none old = old
new_kind (some v) old = v

abbrev pub new_id : Option Text → Text → Text
new_id none old = old
new_id (some v) old = if has_nul v then old else v

abbrev pub new_retry : Option Text → Option Text → Option Text
new_retry none old = old
new_retry (some v) old = if all_digits v then some v else old

pub take_event :
    (o : Option Text) (c : Client)
    → take_lines (text_line (codes "event: ") o) c
      ≡ ([], record c { kind_buffer = new_kind o c.kind_buffer })
unfolding take_lines text_eq set_kind
take_event none c = refl
take_event (some t) c = refl

pub take_id :
    (o : Option Text) (c : Client)
    → take_lines (text_line (codes "id: ") o) c ≡ ([], record c { last_id = new_id o c.last_id })
unfolding take_lines text_eq set_id
take_id none c = refl
take_id (some t) c = refl

pub take_retry :
    (o : Option Text) (c : Client)
    → take_lines (text_line (codes "retry: ") o) c ≡ ([], record c { retry = new_retry o c.retry })
unfolding take_lines text_eq set_retry
take_retry none c = refl
take_retry (some t) c = refl

pub take_data :
    (ls : List Text) (c : Client)
    → take_lines (map (λ l. data_prefix ++ l) ls) c
      ≡ ([], record c { data_buffer = c.data_buffer ++ write ls [] })
unfolding take_lines text_eq add_data
take_data [] c = λ i. ([], record c { data_buffer = sym (append-nil c.data_buffer) i })
take_data (l ∷ ls) c =
    take_data ls (add_data l c)
    ∙ ap (λ x. ([], record c { data_buffer = x }))
        (append_assoc c.data_buffer (l ++ b'\n' ∷ []) (write ls [])
          ∙ ap (λ x. c.data_buffer ++ x) (append_assoc l (b'\n' ∷ []) (write ls [])))

-- Lines with line feeds between them.
abbrev join_lines : List Text → Text
join_lines [] = []
join_lines (l ∷ []) = l
join_lines (l ∷ m ∷ ls) = l ++ b'\n' ∷ join_lines (m ∷ ls)

without_last-append : (s t : Text) (c : ℕ) → without_last (s ++ c ∷ t) ≡ s ++ without_last (c ∷ t)
unfolding without_last
without_last-append [] t c = refl
without_last-append (d ∷ []) t c = refl
without_last-append (d ∷ e ∷ s) t c = ap (λ x. d ∷ x) (without_last-append (e ∷ s) t c)

without_last-cons :
    (c : ℕ) (m : Text) (ls : List Text)
    → without_last (c ∷ write (m ∷ ls) []) ≡ c ∷ without_last (write (m ∷ ls) [])
unfolding without_last
without_last-cons c [] ls = refl
without_last-cons c (d ∷ m) ls = refl

without_last-write :
    (l : Text) (ls : List Text) → without_last (write (l ∷ ls) []) ≡ join_lines (l ∷ ls)
unfolding without_last
without_last-write l [] = without_last-append l [] b'\n' ∙ append-nil l
without_last-write l (m ∷ ls) =
    without_last-append l (write (m ∷ ls) []) b'\n'
    ∙ ap (λ x. l ++ x)
        (without_last-cons b'\n' m ls ∙ ap (λ x. b'\n' ∷ x) (without_last-write m ls))

-- The messages of a record whose data has these lines.
abbrev pub message_of : Text → Text → List Text → List Message
message_of kind id [] = []
message_of kind id (l ∷ ls) =
    record { kind = kind_or_message kind; content = join_lines (l ∷ ls); last_event_id = id } ∷ []

not_empty : (l : Text) (ls : List Text) → is_empty (write (l ∷ ls) []) ≡ false
not_empty [] ls = refl
not_empty (c ∷ l) ls = refl

pub dispatched-message_of :
    (ls : List Text) (c : Client)
    → dispatched (record c { data_buffer = write ls [] }) ≡ message_of c.kind_buffer c.last_id ls
unfolding dispatched
dispatched-message_of [] c = refl
dispatched-message_of (l ∷ ls) c = rw (not_empty l ls, without_last-write l ls) refl

-- The client between two messages.
abbrev pub resting : Text → Option Text → Client
resting id time = record { data_buffer = []; kind_buffer = []; last_id = id; retry = time }

pub All-append :
    {A : Type 0} (P : A → Type 0) (xs ys : List A) → All P xs → All P ys → All P (xs ++ ys)
All-append P [] ys h k = k
All-append P (x ∷ xs) ys (h, hs) k = (h, All-append P xs ys hs k)

abbrev is_plain : Text → Bool
is_plain [] = true
is_plain (c ∷ s) = not (c == b'\n') && not (c == b'\r') && is_plain s

pub is_plain-Plain : (s : Text) → is_plain s ≡ true → Plain s
is_plain-Plain [] h = (tt, tt)
is_plain-Plain (c ∷ s) h =
    let (k, l) = is_plain-Plain s (ground (arith, h)) in
    ((ground (arith, h), k), (ground (arith, h), l))
