-- ===== src/Response/Encoding.antt =====
-- Which values have a body, and which reach a `todo!()`.
use http_nu.Common.{
  ◌≡◌, refl, ap, ◌∙◌, Bool, true, false, inl, inr, Bool-cases, ◌&&◌, ◌||◌, Option, none, some,
  is_some, is_some-bind, ◌>>=◌, codes,
}
use http_nu.Value.{
  Value, Values, Columns, nothing, bool, int, float, string, list, columns, binary, error, other,
  nil, cons, end, column, Members, json_array, json_object, json_cons, no_member, get, map_insert,
}
use http_nu.Response.{
  value_to_json, values_to_json, columns_to_json, Printer, html_bytes, value_to_bytes,
}

-- Built from the kinds that JSON has: no binary, error or other value anywhere inside.
unfoldable mutual
  pub is_json : Value → Bool
  is_json (list vs) = are_json vs
  is_json (columns cs) = columns_are_json cs
  is_json (binary b) = false
  is_json (error e) = false
  is_json (other o) = false
  is_json _ = true

  pub are_json : Values → Bool
  are_json nil = true
  are_json (cons v vs) = is_json v && are_json vs

  pub columns_are_json : Columns → Bool
  columns_are_json end = true
  columns_are_json (column k v cs) = is_json v && columns_are_json cs

is_some-map {ℓ κ} :
    {A : Type ℓ} {B : Type κ} (o : Option A) (f : A → B)
    → is_some (o >>= λ a. some (f a)) ≡ is_some o
is_some-map none f = refl
is_some-map (some a) f = refl

mutual
  unfolding value_to_json is_json

  pub is_some-value : (v : Value) → is_some (value_to_json v) ≡ is_json v
  is_some-value (list vs) = is_some-map (values_to_json vs) json_array ∙ is_some-values vs
  is_some-value (columns cs) =
      is_some-map (columns_to_json cs no_member) json_object ∙ is_some-columns cs no_member
  is_some-value nothing = refl
  is_some-value (bool b) = refl
  is_some-value (int i) = refl
  is_some-value (float x) = refl
  is_some-value (string s) = refl
  is_some-value (binary b) = refl
  is_some-value (error e) = refl
  is_some-value (other o) = refl

  is_some-values : (vs : Values) → is_some (values_to_json vs) ≡ are_json vs
  is_some-values nil = refl
  is_some-values (cons v vs) =
      is_some-bind (value_to_json v) _ (are_json vs)
        (λ j. is_some-map (values_to_json vs) (json_cons j) ∙ is_some-values vs)
      ∙ ap (λ b. b && are_json vs) (is_some-value v)

  is_some-columns :
      (cs : Columns) → (ms : Members) → is_some (columns_to_json cs ms) ≡ columns_are_json cs
  is_some-columns end = λ ms. refl
  is_some-columns (column k v cs) = λ ms.
      is_some-bind (value_to_json v) _ (columns_are_json cs)
        (λ j. is_some-columns cs (map_insert k j ms))
      ∙ ap (λ b. b && columns_are_json cs) (is_some-value v)

-- What `value_to_bytes` can turn into a body.
abbrev pub has_body : Value → Bool
has_body (list vs) = are_json vs
has_body (columns cs) = is_some (get (codes "__html") cs) || columns_are_json cs
has_body (error e) = false
has_body (other o) = false
has_body _ = true

is_some-html_bytes : (p : Printer) (o : Option Value) → is_some (html_bytes p o) ≡ true
is_some-html_bytes p none = refl
is_some-html_bytes p (some (string s)) = refl
is_some-html_bytes p (some _) = refl

-- `value_to_bytes` produces a body exactly for the values without an error or a value of another
-- kind (a date, a duration, a range) in them, where a list or record may hold no binary either; a
-- record with `__html` has a body whatever else it holds. For every other value it panics.
pub value_to_bytes_total : (p : Printer) (v : Value) → is_some (value_to_bytes p v) ≡ has_body v
unfolding value_to_bytes is_json are_json
value_to_bytes_total p (list vs) = is_some-map (value_to_json (list vs)) _ ∙ is_some-value (list vs)
value_to_bytes_total p (columns cs) = elim (Bool-cases (is_some (get (codes "__html") cs))) [
  | inl e ↦ rw e (is_some-html_bytes p (get (codes "__html") cs))
  | inr e ↦ rw e (is_some-map (value_to_json (columns cs)) _ ∙ is_some-value (columns cs))
]
value_to_bytes_total p (bool true) = refl
value_to_bytes_total p (bool false) = refl
value_to_bytes_total p nothing = refl
value_to_bytes_total p (int i) = refl
value_to_bytes_total p (float x) = refl
value_to_bytes_total p (string s) = refl
value_to_bytes_total p (binary b) = refl
value_to_bytes_total p (error e) = refl
value_to_bytes_total p (other o) = refl
