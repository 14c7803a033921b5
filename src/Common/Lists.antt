-- ===== src/Common/Lists.antt =====
-- Lists measured by native numbers, under the library's names, and Boolean searches.
use Prim.Native.Nat.{ℕ, zero, suc, ◌+◌}
use mathlib.Core.Path.{◌≡◌, refl, sym}
use mathlib.Core.Bool.{Bool, true, false, ◌||◌, false≢true}
use mathlib.Core.List.{List, [], ◌∷◌, ◌++◌, reverse, reverse-append, append-nil}
use mathlib.Core.Option.{Option, none, some}
use native.Mathlib.Omega.{arith}
use http_nu.Common.Tests.{if◌then◌else◌, or_option, Bool-cases, Option-cases}
use mathlib.Core.Logic.{inl, inr}

module _ {ℓ} {A : Type ℓ} where
  abbrev pub length : List A → ℕ
  length [] = 0
  length (x ∷ xs) = suc (length xs)

  pub length-append : (xs ys : List A) → length (xs ++ ys) ≡ length xs + length ys
  length-append [] ys = omega arith
  length-append (x ∷ xs) ys = omega (arith, length-append xs ys)

  abbrev pub is_empty : List A → Bool
  is_empty [] = true
  is_empty (_ ∷ _) = false

  -- `iter().any(p)`.
  abbrev pub any : (A → Bool) → List A → Bool
  any p [] = false
  any p (x ∷ xs) = p x || any p xs

  -- `filter` by a Boolean test, as `retain` and `filter_map` use it.
  abbrev pub filter : (A → Bool) → List A → List A
  filter p [] = []
  filter p (x ∷ xs) = let rest = filter p xs in if p x then x ∷ rest else rest

  abbrev pub cons_some : Option A → List A → List A
  cons_some none xs = xs
  cons_some (some x) xs = x ∷ xs

  -- A predicate that holds of every entry.
  abbrev pub All {κ} : (A → Type κ) → List A → Type κ
  All P [] = Unit
  All P (x ∷ xs) = P x × All P xs

  abbrev pub take : ℕ → List A → List A
  take zero xs = []
  take (suc n) [] = []
  take (suc n) (x ∷ xs) = x ∷ take n xs

  abbrev pub drop : ℕ → List A → List A
  drop zero xs = xs
  drop (suc n) [] = []
  drop (suc n) (x ∷ xs) = drop n xs

  abbrev pub head? : List A → Option A
  head? [] = none
  head? (x ∷ xs) = some x

  abbrev pub last? : List A → Option A
  last? [] = none
  last? (x ∷ xs) = or_option (last? xs) (some x)

  pub or_option_assoc :
      (a b c : Option A) → or_option (or_option a b) c ≡ or_option a (or_option b c)
  or_option_assoc none b c = refl
  or_option_assoc (some a) b c = refl

  pub or_option-some :
      (a : Option A) (x : A) (b c : Option A)
      → or_option (or_option a (some x)) b ≡ or_option (or_option a (some x)) c
  or_option-some none x b c = refl
  or_option-some (some a) x b c = refl

  pub last?-append : (xs ys : List A) → last? (xs ++ ys) ≡ or_option (last? ys) (last? xs)
  last?-append [] ys = ground arith
  last?-append (x ∷ xs) ys =
      rw (last?-append xs ys) (or_option_assoc (last? ys) (last? xs) (some x))

  pub head?-append : (xs ys : List A) → head? (xs ++ ys) ≡ or_option (head? xs) (head? ys)
  head?-append [] ys = refl
  head?-append (x ∷ xs) ys = refl

  pub last?-reverse : (xs : List A) → last? (reverse xs) ≡ head? xs
  last?-reverse [] = refl
  last?-reverse (x ∷ xs) = rw (reverse-append (x ∷ []) xs) (last?-append (reverse xs) (x ∷ []))

  pub head?-reverse : (xs : List A) → head? (reverse xs) ≡ last? xs
  head?-reverse [] = refl
  head?-reverse (x ∷ xs) =
      rw (reverse-append (x ∷ []) xs, head?-append (reverse xs) (x ∷ []), head?-reverse xs)

  pub filter-append :
      (p : A → Bool) (xs ys : List A) → filter p (xs ++ ys) ≡ filter p xs ++ filter p ys
  filter-append p [] ys = refl
  filter-append p (x ∷ xs) ys = elim (Bool-cases (p x)) [
    | inl e ↦ rw (e, filter-append p xs ys)
    | inr e ↦ rw (e, filter-append p xs ys)
  ]

  pub filter-reverse : (p : A → Bool) (xs : List A) → filter p (reverse xs) ≡ reverse (filter p xs)
  filter-reverse p [] = refl
  filter-reverse p (x ∷ xs) = elim (Bool-cases (p x)) [
    | inl e ↦
        rw
          (
            reverse-append (x ∷ []) xs,
            filter-append p (reverse xs) (x ∷ []),
            filter-reverse p xs,
            e,
          )
          (sym (reverse-append (x ∷ []) (filter p xs)))
    | inr e ↦
        rw
          (
            reverse-append (x ∷ []) xs,
            filter-append p (reverse xs) (x ∷ []),
            filter-reverse p xs,
            e,
          )
          (append-nil _)
  ]

  pub last?-filter-any :
      (p : A → Bool) (xs : List A) → any p xs ≡ true → (x : A) × (last? (filter p xs) ≡ some x)
  last?-filter-any p [] h = absurd (false≢true h)
  last?-filter-any p (x ∷ xs) h = elim (Bool-cases (p x)) [
    | inl e ↦
        rw e
          (elim (Option-cases (last? (filter p xs))) [ inl q ↦ (x, rw q) | inr (y, q) ↦ (y, rw q) ])
    | inr e ↦ rw e (last?-filter-any p xs (rw e at h))
  ]

  pub any-append : (p : A → Bool) (xs ys : List A) → any p (xs ++ ys) ≡ (any p xs || any p ys)
  any-append p [] ys = refl
  any-append p (x ∷ xs) ys = ground (arith, any-append p xs ys)

module _ {ℓ κ} {A : Type ℓ} {B : Type κ} where
  abbrev pub filter_map : (A → Option B) → List A → List B
  filter_map f [] = []
  filter_map f (x ∷ xs) = cons_some (f x) (filter_map f xs)

  pub filter_map-append :
      (f : A → Option B) (xs ys : List A)
      → filter_map f (xs ++ ys) ≡ filter_map f xs ++ filter_map f ys
  filter_map-append f [] ys = refl
  filter_map-append f (x ∷ xs) ys = ground (arith, filter_map-append f xs ys)

  pub filter_map-reverse :
      (f : A → Option B) (xs : List A) → filter_map f (reverse xs) ≡ reverse (filter_map f xs)
  filter_map-reverse f [] = refl
  filter_map-reverse f (x ∷ xs) = elim (Option-cases (f x)) [
    | inl e ↦
        rw
          (
            reverse-append (x ∷ []) xs,
            filter_map-append f (reverse xs) (x ∷ []),
            filter_map-reverse f xs,
            e,
          )
          (append-nil _)
    | inr (b, e) ↦
        rw
          (
            reverse-append (x ∷ []) xs,
            filter_map-append f (reverse xs) (x ∷ []),
            filter_map-reverse f xs,
            e,
          )
          (sym (reverse-append (b ∷ []) (filter_map f xs)))
  ]
