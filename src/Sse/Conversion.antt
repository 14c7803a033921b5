-- ===== src/Sse/Conversion.antt =====
-- The two conversions of values into JSON: `value_to_json` of src/commands.rs for events, and that of
-- src/response.rs for bodies.
use http_nu.Common.{
  ◌≡◌, refl, sym, ◌∙◌, true, false, false≢true, inl, inr, Bool-cases, Option, none, some, is_some,
  if◌then◌else◌, arith,
}
use http_nu.Value.{
  Value, nothing, bool, int, float, string, list, columns, binary, error, other, Values, nil, cons,
  Columns, end, column, null, json_float, Members, no_member, map_insert, is_finite,
}
use http_nu.Value.WellFormed.{
  WellFormed, AllWellFormed, MembersWellFormed, map_insert-MembersWellFormed,
}
use http_nu.Response.Encoding.{is_json, are_json, columns_are_json, is_some-value}
use http_nu.Response.{
  value_to_json as body_json, values_to_json as body_jsons, columns_to_json as body_members,
}
use http_nu.Sse.{Renderer, value_to_json, values_to_json, columns_to_json}

module _ (r : Renderer) where
  float-WellFormed : (x : _) → WellFormed (if is_finite x then json_float x else null)
  unfolding WellFormed
  float-WellFormed x = elim (Bool-cases (is_finite x)) [ inl e ↦ rw e e | inr e ↦ rw e tt ]

  mutual
    unfolding value_to_json WellFormed

    value-WellFormed : (v : Value) → WellFormed (value_to_json r v)
    value-WellFormed (list vs) = values-WellFormed vs
    value-WellFormed (columns cs) = columns-WellFormed cs no_member tt
    value-WellFormed (float x) = float-WellFormed x
    value-WellFormed nothing = tt
    value-WellFormed (bool b) = tt
    value-WellFormed (int i) = tt
    value-WellFormed (string s) = tt
    value-WellFormed (binary b) = tt
    value-WellFormed (error e) = tt
    value-WellFormed (other o) = tt

    values-WellFormed : (vs : Values) → AllWellFormed (values_to_json r vs)
    values-WellFormed nil = tt
    values-WellFormed (cons v vs) = (value-WellFormed v, values-WellFormed vs)

    columns-WellFormed :
        (cs : Columns) (ms : Members)
        → MembersWellFormed ms
        → MembersWellFormed (columns_to_json r cs ms)
    columns-WellFormed end ms w = w
    columns-WellFormed (column k v cs) ms w =
        columns-WellFormed cs (map_insert k (value_to_json r v) ms)
          (map_insert-MembersWellFormed k (value_to_json r v) ms (value-WellFormed v) w)

  mutual
    unfolding body_json value_to_json is_json

    value-body_json : (v : Value) → is_json v ≡ true → body_json v ≡ some (value_to_json r v)
    value-body_json (list vs) h = rw (values-body_jsons vs h) refl
    value-body_json (columns cs) h = rw (columns-body_members cs no_member h) refl
    value-body_json nothing h = refl
    value-body_json (bool b) h = refl
    value-body_json (int i) h = refl
    value-body_json (float x) h = refl
    value-body_json (string s) h = refl
    value-body_json (binary b) h = absurd (false≢true h)
    value-body_json (error e) h = absurd (false≢true h)
    value-body_json (other o) h = absurd (false≢true h)

    values-body_jsons :
        (vs : Values) → are_json vs ≡ true → body_jsons vs ≡ some (values_to_json r vs)
    values-body_jsons nil h = refl
    values-body_jsons (cons v vs) h =
        rw (value-body_json v (ground (arith, h)), values-body_jsons vs (ground (arith, h))) refl

    columns-body_members :
        (cs : Columns) (ms : Members)
        → columns_are_json cs ≡ true
        → body_members cs ms ≡ some (columns_to_json r cs ms)
    columns-body_members end ms h = refl
    columns-body_members (column k v cs) ms h =
        rw (value-body_json v (ground (arith, h)))
          (columns-body_members cs (map_insert k (value_to_json r v) ms) (ground (arith, h)))

  not_some : {A : Type 0} (o : Option A) → is_some o ≡ false → o ≡ none
  not_some none h = refl
  not_some (some a) h = absurd (false≢true (sym h))

  -- Events and bodies carry the same JSON: the conversion for bodies gives what the conversion for
  -- events gives when the value is built from the kinds that JSON has, and panics otherwise; and
  -- whatever the value, the JSON of an event can be printed: no number in it is infinite or NaN, and
  -- no object in it has a name twice.
  pub value_to_json-WellFormed :
      (v : Value)
      → (body_json v ≡ (if is_json v then some (value_to_json r v) else none))
        × WellFormed (value_to_json r v)
  value_to_json-WellFormed v = (
    elim (Bool-cases (is_json v)) [
      | inl e ↦ rw e (value-body_json v e)
      | inr e ↦ rw e (not_some (body_json v) (is_some-value v ∙ e))
    ],
    value-WellFormed v,
  )
