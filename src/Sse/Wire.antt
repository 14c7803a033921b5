-- ===== src/Sse/Wire.antt =====
-- A record as the lines that are written for it.
use http_nu.Common.{
  ◌≡◌, refl, sym, ap, ◌∙◌, List, [], ◌∷◌, ◌++◌, map, map-append, Option, none, some, Text, codes,
  append_assoc,
}
use http_nu.Value.{
  Value, nothing, bool, int, float, string, list, columns, binary, error, other, Columns, get,
  to_list,
}
use http_nu.Sse.{
  Renderer, lines, data_prefix, emit_each, emit_data_lines, value_to_data_string, emit_field,
  emit_items, emit_data, record_to_string,
}

-- Lines with their ends, before what is written next.
abbrev pub write : List Text → Text → Text
write [] next = next
write (l ∷ ls) next = l ++ b'\n' ∷ write ls next

pub write-append :
    (xs ys : List Text) (next : Text) → write (xs ++ ys) next ≡ write xs (write ys next)
write-append [] ys next = refl
write-append (l ∷ ls) ys next = ap (λ t. l ++ b'\n' ∷ t) (write-append ls ys next)

pub append-write :
    (ls : List Text) (next more : Text) → write ls next ++ more ≡ write ls (next ++ more)
append-write [] next more = refl
append-write (l ∷ ls) next more =
    append_assoc l (b'\n' ∷ write ls next) more
    ∙ ap (λ t. l ++ b'\n' ∷ t) (append-write ls next more)

emit_each-write :
    (ls : List Text) (next : Text) → emit_each ls next ≡ write (map (λ l. data_prefix ++ l) ls) next
unfolding emit_each
emit_each-write [] next = refl
emit_each-write (l ∷ ls) next = rw (emit_each-write ls next) refl

-- A field's line, when the field is there.
abbrev pub text_line : Text → Option Text → List Text
text_line name none = []
text_line name (some t) = (name ++ t) ∷ []

module _ (r : Renderer) where
  -- What is written of a field, unless it is absent or `nothing`.
  abbrev pub field_text : Option Value → Option Text
  field_text none = none
  field_text (some nothing) = none
  field_text (some v) = some (r.to_expanded_string v)

  abbrev pub item_lines : List Value → List Text
  item_lines [] = []
  item_lines (v ∷ vs) = lines (value_to_data_string r v) ++ item_lines vs

  abbrev pub data_lines : Option Value → List Text
  data_lines none = []
  data_lines (some nothing) = []
  data_lines (some (list vs)) = item_lines (to_list vs)
  data_lines (some v) = lines (value_to_data_string r v)

  emit_field-write :
      (name : Text) (o : Option Value) (next : Text)
      → emit_field r name o next ≡ write (text_line name (field_text o)) next
  unfolding emit_field
  emit_field-write name none next = refl
  emit_field-write name (some nothing) next = refl
  emit_field-write name (some (bool v)) next = sym (append_assoc name _ _)
  emit_field-write name (some (int v)) next = sym (append_assoc name _ _)
  emit_field-write name (some (float v)) next = sym (append_assoc name _ _)
  emit_field-write name (some (string v)) next = sym (append_assoc name _ _)
  emit_field-write name (some (list v)) next = sym (append_assoc name _ _)
  emit_field-write name (some (columns v)) next = sym (append_assoc name _ _)
  emit_field-write name (some (binary v)) next = sym (append_assoc name _ _)
  emit_field-write name (some (error v)) next = sym (append_assoc name _ _)
  emit_field-write name (some (other v)) next = sym (append_assoc name _ _)

  abbrev prefixed : List Text → List Text
  prefixed ls = map (λ l. data_prefix ++ l) ls

  emit_data_lines-write : (s next : Text) → emit_data_lines s next ≡ write (prefixed (lines s)) next
  unfolding emit_data_lines
  emit_data_lines-write s next = emit_each-write (lines s) next

  emit_items-write :
      (vs : List Value) (next : Text) → emit_items r vs next ≡ write (prefixed (item_lines vs)) next
  unfolding emit_items
  emit_items-write [] next = refl
  emit_items-write (v ∷ vs) next =
      let ls = lines (value_to_data_string r v) in
      emit_data_lines-write (value_to_data_string r v) (emit_items r vs next)
      ∙ ap (write (prefixed ls)) (emit_items-write vs next)
      ∙ sym (write-append (prefixed ls) (prefixed (item_lines vs)) next)
      ∙ ap (λ xs. write xs next) (sym (map-append (λ l. data_prefix ++ l) ls (item_lines vs)))

  emit_data-write :
      (o : Option Value) (next : Text) → emit_data r o next ≡ write (prefixed (data_lines o)) next
  unfolding emit_data
  emit_data-write none next = refl
  emit_data-write (some nothing) next = refl
  emit_data-write (some (list vs)) next = emit_items-write (to_list vs) next
  emit_data-write (some (bool v)) next =
      emit_data_lines-write (value_to_data_string r (bool v)) next
  emit_data-write (some (int v)) next = emit_data_lines-write (value_to_data_string r (int v)) next
  emit_data-write (some (float v)) next =
      emit_data_lines-write (value_to_data_string r (float v)) next
  emit_data-write (some (string v)) next =
      emit_data_lines-write (value_to_data_string r (string v)) next
  emit_data-write (some (columns v)) next =
      emit_data_lines-write (value_to_data_string r (columns v)) next
  emit_data-write (some (binary v)) next =
      emit_data_lines-write (value_to_data_string r (binary v)) next
  emit_data-write (some (error v)) next =
      emit_data_lines-write (value_to_data_string r (error v)) next
  emit_data-write (some (other v)) next =
      emit_data_lines-write (value_to_data_string r (other v)) next

  -- One line for each of `event`, `id` and `retry` that is there and not `nothing`, one `data: ` line
  -- for each line of the data, item by item when it is a list, and the empty line that ends the event.
  abbrev pub record_lines : Columns → List Text
  record_lines cs =
      text_line (codes "event: ") (field_text (get (codes "event") cs))
      ++ (text_line (codes "id: ") (field_text (get (codes "id") cs))
          ++ (text_line (codes "retry: ") (field_text (get (codes "retry") cs))
              ++ (map (λ l. data_prefix ++ l) (data_lines (get (codes "data") cs)) ++ [] ∷ [])))

  -- What is written for a record is its lines.
  pub record_to_string-write : (cs : Columns) → record_to_string r cs ≡ write (record_lines cs) []
  unfolding record_to_string
  record_to_string-write cs =
      rw
        (
          emit_field-write (codes "event: ") (get (codes "event") cs),
          emit_field-write (codes "id: ") (get (codes "id") cs),
          emit_field-write (codes "retry: ") (get (codes "retry") cs),
          emit_data-write (get (codes "data") cs),
          write-append (text_line (codes "event: ") (field_text (get (codes "event") cs))),
          write-append (text_line (codes "id: ") (field_text (get (codes "id") cs))),
          write-append (text_line (codes "retry: ") (field_text (get (codes "retry") cs))),
          write-append (prefixed (data_lines (get (codes "data") cs))),
        )
        refl
