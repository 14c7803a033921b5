-- ===== src/Logging/Line/Truncate.antt =====
-- `truncate_middle` keeps to its bound, and cannot panic on a text of one-byte characters.
use http_nu.Common.{
  ℕ, zero, suc, ◌+◌, ◌-◌, ◌/◌, ◌≤◌, ◌<◌, ◌≡◌, refl, sym, ◌&&◌, if◌then◌else◌, leb→le, true, false,
  inl, inr, [], ◌∷◌, ◌++◌, none, some, Bytes, All, leb, length, take, drop, length-append,
  Bool-cases, arith,
}
use http_nu.Logging.Line.{is_continuation, is_char_boundary, truncate_middle, dots}

abbrev pub Ascii : Bytes → Type 0
Ascii s = All (λ c. c < 0x80) s

ascii-starts : (c : ℕ) → c < 0x80 → is_continuation c ≡ false
unfolding is_continuation
ascii-starts c h = ground (arith, h)

Ascii-is_char_boundary : (n : ℕ) (s : Bytes) → Ascii s → n ≤ length s → is_char_boundary n s ≡ true
unfolding is_char_boundary
Ascii-is_char_boundary zero s a h = refl
Ascii-is_char_boundary (suc n) [] a h = ground (arith, h)
Ascii-is_char_boundary (suc zero) (_ ∷ []) a h = refl
Ascii-is_char_boundary (suc zero) (_ ∷ c ∷ s) (_, (l, a)) h = rw (ascii-starts c l)
Ascii-is_char_boundary (suc (suc n)) (_ ∷ s) (_, a) h =
    Ascii-is_char_boundary (suc n) s a (omega (arith, h))

length-take : (n : ℕ) (s : Bytes) → length (take n s) ≤ n
length-take zero s = omega arith
length-take (suc n) [] = omega arith
length-take (suc n) (c ∷ s) = omega (arith, length-take n s)

length-drop : (n : ℕ) (s : Bytes) → length (drop n s) ≡ length s - n
length-drop zero s = omega arith
length-drop (suc n) [] = omega arith
length-drop (suc n) (c ∷ s) = omega (arith, length-drop n s)

-- The two halves and the dots are no longer than the bound.
halves_bound :
    (s : Bytes) (m k : ℕ)
    → k + k + 3 ≤ m
    → k ≤ length s
    → length (take k s ++ dots ++ drop (length s - k) s) ≤ m
halves_bound s m k h j =
    let ends : length (drop (length s - k) s) ≡ length s - (length s - k) =
      length-drop (length s - k) s in
    let front = length-take k s in
    rw (length-append (take k s ++ dots) (drop (length s - k) s), length-append (take k s) (dots))
      (omega (arith, front, ends, h, j))

half_le : (m : ℕ) → 3 ≤ m → (m - 3) / 2 + (m - 3) / 2 + 3 ≤ m
half_le m h = omega (arith, h)

some_inj : (s r : Bytes) → some s ≡ some r → s ≡ r
some_inj s r q = cc q

not_leb : (a b : ℕ) → leb a b ≡ false → b < a
not_leb a b h = ground (arith, h)

shortened :
    (s : Bytes) (m k : ℕ) (r : Bytes)
    → leb (length s) m ≡ false
    → k + k + 3 ≤ m
    → k ≤ length s
    → (if leb (length s) m
        then some s
        else if is_char_boundary k s && is_char_boundary (length s - k) s
        then some (take k s ++ dots ++ drop (length s - k) s)
        else none)
      ≡ some r
    → length r ≤ m
shortened s m k r e h j q =
    elim (Bool-cases (is_char_boundary k s && is_char_boundary (length s - k) s)) [
      | inl b ↦
          rw (sym (some_inj (take k s ++ dots ++ drop (length s - k) s) r (rw (e, b) at q)))
            (halves_bound s m k h j)
      | inr b ↦ ground (arith, e, b, q)
    ]

-- When the bound is at least three, a text that is shortened and does not panic comes out no longer
-- than the bound; and a text of one-byte characters never panics.
pub truncate_middle_lem :
    (s : Bytes) (max_len : ℕ)
    → 3 ≤ max_len
    → ((r : Bytes) → truncate_middle s max_len ≡ some r → length r ≤ max_len)
      × (Ascii s → (r : Bytes) × (truncate_middle s max_len ≡ some r))
unfolding truncate_middle
truncate_middle_lem s m h =
    let k = (m - 3) / 2 in
    let half : k + k + 3 ≤ m = half_le m h in
    elim (Bool-cases (leb (length s) m)) [
      | inl e ↦ rw e ((λ r q. rw (sym (some_inj s r q)) (leb→le (length s) m e)), (λ a. (s, refl)))
      | inr e ↦
          let longer : m < length s = not_leb (length s) m e in
          let fits : k ≤ length s = omega (arith, half, longer) in
          (
            (λ r q. shortened s m k r e half fits q),
            (λ a. (
              take k s ++ dots ++ drop (length s - k) s,
              rw (
                e,
                Ascii-is_char_boundary k s a fits,
                Ascii-is_char_boundary (length s - k) s a (omega arith),
              ),
            )),
          )
    ]
