-- ===== src/Value/WellFormed.antt =====
-- JSON that can be printed: numbers are finite, and an object has no name twice.
use http_nu.Common.{
  ◌≡◌, refl, sym, ap, ◌∙◌, Bool, true, false, false≢true, ◌||◌, inl, inr, Bool-cases, Text, text_eq,
  text_eq_iff,
}
use http_nu.Value.{
  Json, null, json_bool, json_int, json_float, json_string, json_array, json_object, Jsons, no_json,
  json_cons, Members, no_member, member, map_insert, is_finite,
}

abbrev pub has_name : Text → Members → Bool
has_name k no_member = false
has_name k (member i x ms) = text_eq i k || has_name k ms

unfoldable mutual
  pub WellFormed : Json → Type 0
  WellFormed null = Unit
  WellFormed (json_bool b) = Unit
  WellFormed (json_int i) = Unit
  WellFormed (json_float x) = is_finite x ≡ true
  WellFormed (json_string s) = Unit
  WellFormed (json_array js) = AllWellFormed js
  WellFormed (json_object ms) = MembersWellFormed ms

  pub AllWellFormed : Jsons → Type 0
  AllWellFormed no_json = Unit
  AllWellFormed (json_cons j js) = WellFormed j × AllWellFormed js

  pub MembersWellFormed : Members → Type 0
  MembersWellFormed no_member = Unit
  MembersWellFormed (member k j ms) = WellFormed j × (has_name k ms ≡ false) × MembersWellFormed ms

has_name-map_insert :
    (i k : Text) (j : Json) (ms : Members)
    → text_eq k i ≡ false
    → has_name i (map_insert k j ms) ≡ has_name i ms
unfolding map_insert
has_name-map_insert i k j no_member h = rw h refl
has_name-map_insert i k j (member n x ms) h = elim (Bool-cases (text_eq n k)) [
  | inl e ↦ rw e (ap (λ t. text_eq t i || has_name i ms) (sym ((text_eq_iff n k).0 e)))
  | inr e ↦ rw (e, has_name-map_insert i k j ms h) refl
]

pub map_insert-MembersWellFormed :
    (k : Text) (j : Json) (ms : Members)
    → WellFormed j
    → MembersWellFormed ms
    → MembersWellFormed (map_insert k j ms)
unfolding map_insert MembersWellFormed
map_insert-MembersWellFormed k j no_member h w = (h, refl, tt)
map_insert-MembersWellFormed k j (member n x ms) h (wx, f, w) = elim (Bool-cases (text_eq n k)) [
  | inl e ↦ rw e (h, (ap (λ t. has_name t ms) (sym ((text_eq_iff n k).0 e)) ∙ f), w)
  | inr e ↦
      rw e (
        wx,
        has_name-map_insert n k j ms (apart n k e) ∙ f,
        map_insert-MembersWellFormed k j ms h w,
      )
]
  where
    apart : (s t : Text) → text_eq s t ≡ false → text_eq t s ≡ false
    apart s t e = elim (Bool-cases (text_eq t s)) [
      | inl q ↦ absurd (false≢true (sym e ∙ (text_eq_iff s t).1 (sym ((text_eq_iff t s).0 q))))
      | inr q ↦ q
    ]
