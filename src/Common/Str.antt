-- ===== src/Common/Str.antt =====
-- Rust's `str` as the list of its code points, and what the program uses of it.
use Prim.Native.Nat.{ℕ, zero, suc, ◌+◌, ◌/◌, ◌%◌}
use Prim.Native.Char.{code}
use Prim.Native.String.{String}
use mathlib.Core.Path.{◌≡◌, refl, sym, subst}
use mathlib.Core.Logic.{◌↔◌, inl, inr}
use mathlib.Core.Bool.{Bool, true, false, ◌&&◌, ◌||◌}
use mathlib.Core.List.{List, [], ◌∷◌, ◌++◌, reverse, map, append_assoc}
use mathlib.Core.Option.{Option, none, some}
use native.Mathlib.Omega.{arith}
use http_nu.Common.Tests.{◌==◌, leb, ltb, if◌then◌else◌, Bool-cases, ==_refl}
use http_nu.Common.Lists.{All}

abbrev pub Text : Type 0
Text = List ℕ

-- A literal of the source.
abbrev pub codes : String → Text
codes String.[] = []
codes (String.◌∷◌ c s) = code c ∷ codes s

unfoldable pub text_eq : Text → Text → Bool
text_eq [] [] = true
text_eq (a ∷ s) (b ∷ t) = (a == b) && text_eq s t
text_eq _ _ = false

pub text_eq_iff : (s t : Text) → (text_eq s t ≡ true) ↔ (s ≡ t)
unfolding text_eq
text_eq_iff [] [] = ground arith
text_eq_iff [] (b ∷ t) = ground arith
text_eq_iff (a ∷ s) [] = ground arith
text_eq_iff (a ∷ s) (b ∷ t) = ground (arith, text_eq_iff s t)

pub text_eq_refl : (s : Text) → text_eq s s ≡ true
text_eq_refl s = (text_eq_iff s s).1 refl

-- `str::strip_prefix`.
unfoldable pub strip_prefix : Text → Text → Option Text
strip_prefix [] s = some s
strip_prefix (a ∷ p) [] = none
strip_prefix (a ∷ p) (c ∷ s) = let rest = strip_prefix p s in if a == c then rest else none

pub strip_prefix-append : (p s : Text) → strip_prefix p (p ++ s) ≡ some s
unfolding strip_prefix
strip_prefix-append [] s = refl
strip_prefix-append (a ∷ p) s = ground (arith, strip_prefix-append p s)

pub append-strip_prefix : (p s r : Text) → strip_prefix p s ≡ some r → s ≡ p ++ r
unfolding strip_prefix
append-strip_prefix [] s r h = ground arith
append-strip_prefix (a ∷ p) [] r h = ground arith
append-strip_prefix (a ∷ p) (c ∷ s) r h = ground (arith, append-strip_prefix p s r)

-- `str::split` on one character: always at least one piece.
cons_head : ℕ → List Text → List Text
cons_head c [] = (c ∷ []) ∷ []
cons_head c (w ∷ ws) = (c ∷ w) ∷ ws

unfoldable pub split : ℕ → Text → List Text
unfolding cons_head
split d [] = [] ∷ []
split d (c ∷ s) = let rest = split d s in if c == d then [] ∷ rest else cons_head c rest

split-cons : (d : ℕ) (s : Text) → (w : Text) × (ws : List Text) × (split d s ≡ w ∷ ws)
unfolding split
split-cons d [] = ([], [], refl)
split-cons d (c ∷ s) =
    let (w, ws, e) = split-cons d s in
    elim (Bool-cases (c == d)) [ inl h ↦ ([], split d s, rw h) | inr h ↦ (c ∷ w, ws, rw (h, e)) ]

-- No piece holds the character at which the text is split.
pub split-pieces : (d : ℕ) (s : Text) → All (λ w. All (λ c. (c == d) ≡ false) w) (split d s)
unfolding split
split-pieces d [] = (tt, tt)
split-pieces d (c ∷ s) =
    let (w, ws, e) = split-cons d s in
    let rest : All (λ v. All (λ c. (c == d) ≡ false) v) (w ∷ ws) =
      subst (All (λ v. All (λ c. (c == d) ≡ false) v)) e (split-pieces d s) in
    elim (Bool-cases (c == d)) [
      | inl h ↦ rw (h, e) (tt, rest)
      | inr h ↦ rw (h, e) ((h, rest.0), rest.1)
    ]

pub split-append : (d : ℕ) (s t : Text) → split d (s ++ d ∷ t) ≡ split d s ++ split d t
unfolding split
split-append d [] t = rw (==_refl d)
split-append d (c ∷ s) t =
    let (w, ws, e) = split-cons d s in
    elim (Bool-cases (c == d)) [
      | inl h ↦ rw (h, split-append d s t)
      | inr h ↦ rw (h, split-append d s t, e)
    ]

-- The characters with the property `White_Space`.
unfoldable pub is_whitespace : ℕ → Bool
is_whitespace c =
    (leb 9 c && leb c 13)
    || (c == 32)
    || (c == 0x85)
    || (c == 0xa0)
    || (c == 0x1680)
    || (leb 0x2000 c && leb c 0x200a)
    || (c == 0x2028)
    || (c == 0x2029)
    || (c == 0x202f)
    || (c == 0x205f)
    || (c == 0x3000)

unfoldable pub trim_start : Text → Text
unfolding is_whitespace
trim_start [] = []
trim_start (c ∷ s) = let rest = trim_start s in if is_whitespace c then rest else c ∷ s

-- `str::trim`.
unfoldable pub trim : Text → Text
unfolding trim_start
trim s = reverse (trim_start (reverse (trim_start s)))

unfoldable pub lower_char : ℕ → ℕ
lower_char c = if leb b'A' c && leb c b'Z' then c + 32 else c

-- `str::to_lowercase`, on the ASCII letters that header names are made of.
abbrev pub to_lowercase : Text → Text
to_lowercase s = map lower_char s

abbrev pub Bytes : Type 0
Bytes = List ℕ

-- The UTF-8 encoding of a code point.
unfoldable pub utf8_char : ℕ → Bytes
utf8_char c =
    if ltb c 0x80
    then c ∷ []
    else if ltb c 0x800
    then (0xc0 + c / 64) ∷ (0x80 + c % 64) ∷ []
    else if ltb c 0x10000
    then (0xe0 + c / 4096) ∷ (0x80 + c / 64 % 64) ∷ (0x80 + c % 64) ∷ []
    else (0xf0 + c / 262144) ∷ (0x80 + c / 4096 % 64) ∷ (0x80 + c / 64 % 64) ∷ (0x80 + c % 64) ∷ []

-- `str::as_bytes`, `String::into_bytes`.
unfoldable pub utf8 : Text → Bytes
unfolding utf8_char
utf8 [] = []
utf8 (c ∷ s) = utf8_char c ++ utf8 s

pub utf8-append : (s t : Text) → utf8 (s ++ t) ≡ utf8 s ++ utf8 t
unfolding utf8
utf8-append [] t = refl
utf8-append (c ∷ s) t = rw (utf8-append s t) (sym (append_assoc (utf8_char c) (utf8 s) (utf8 t)))

-- A number in decimal digits: the fuel is the number itself, and each round divides by ten.
decimal_digits : ℕ → ℕ → Text
decimal_digits zero n = []
decimal_digits (suc f) n =
    let rest = decimal_digits f (n / 10) in
    if ltb n 10 then (48 + n) ∷ [] else rest ++ (48 + n % 10) ∷ []

unfoldable pub decimal : ℕ → Text
unfolding decimal_digits
decimal n = decimal_digits (suc n) n

-- `join` of the strings of a list.
abbrev pub join : Text → List Text → Text
join sep [] = []
join sep (x ∷ []) = x
join sep (x ∷ y ∷ ys) = x ++ sep ++ join sep (y ∷ ys)
