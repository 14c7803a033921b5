-- ===== src/Compression/Broken.antt =====
-- A source that breaks: how its error comes out of the compressor.
use http_nu.Common.{
  ℕ, zero, suc, ◌⊎◌, ◌≤◌, ◌<◌, ◌≡◌, refl, ap, subst, false, inl, inr, List, [], ◌∷◌, ◌++◌, Bytes,
  Text, Option, none, some, Bool-cases, leb, length, arith,
}
use http_nu.Compression.{
  process, flush, Encoder, Item, chunk, broken, ended, idle, Polled, frame, source_error,
  encoder_error, end_of_stream, pending, unfinished, drain_budget, Encoded, encoded, refused,
  out_of_fuel, encode, BrotliStream, frame_or, flush_idle, flush_full, next_chunk, poll_loop,
  poll_next,
}
use http_nu.Compression.Poll.{data_of, Delivers, poll_next-Delivers}
use http_nu.Compression.Whole.{polls}

-- The error that the source breaks with before it ends.
abbrev pub breaks : List Item → Option Text
breaks [] = none
breaks (chunk c ∷ rest) = breaks rest
breaks (idle ∷ rest) = breaks rest
breaks (ended ∷ rest) = none
breaks (broken e ∷ rest) = some e

-- The first result that ends the body for the receiver.
abbrev pub outcome : List Polled → Option Polled
outcome [] = none
outcome (frame out ∷ ps) = outcome ps
outcome (pending ∷ ps) = outcome ps
outcome (p ∷ ps) = some p

no_error_left : (e : Text) → none ≡ some e → ⊥
no_error_left e h = subst is_none h tt
  where
    is_none : Option Text → Type 0
    is_none none = Unit
    is_none (some e) = ⊥

-- A poll that goes on has taken at least one item of a source that breaks with `e`, and has not
-- ended; one that does not reports that error, or one of the encoder.
module _ (E : Encoder) (e : Text) where
  open E use {State, fed, emitted}

  abbrev Onward : ℕ → BrotliStream E → Type 0
  Onward n b = (b.finished ≡ false) × (breaks b.inner ≡ some e) × (length b.inner < n)

  abbrev Cuts : ℕ → Polled × BrotliStream E → Type 0
  Cuts n (frame out, b) = Onward n b
  Cuts n (pending, b) = Onward n b
  Cuts n (source_error x, b) = x ≡ e
  Cuts n (encoder_error, b) = Unit
  Cuts n (unfinished, b) = Unit
  Cuts n (end_of_stream, b) = ⊥

  module _ (n : ℕ) (rest : List Item) (h : breaks rest ≡ some e) (l : length rest < n) where
    flush_idle-Cuts : (acc : Bytes) (s : State) (r : Encoded E) → Cuts n (flush_idle E acc rest s r)
    flush_idle-Cuts acc s (encoded out s') = framed (acc ++ out)
      where
        framed :
            (x : Bytes)
            → Cuts n (frame_or E pending x, record { inner = rest; encoder = s'; finished = false })
        framed [] = (refl, h, l)
        framed (c ∷ x) = (refl, h, l)
    flush_idle-Cuts acc s (refused s') = tt
    flush_idle-Cuts acc s out_of_fuel = tt

    flush_full-Cuts : (acc : Bytes) (s : State) (r : Encoded E) → Cuts n (flush_full E acc rest s r)
    flush_full-Cuts acc s (encoded out s') = (refl, h, l)
    flush_full-Cuts acc s (refused s') = tt
    flush_full-Cuts acc s out_of_fuel = tt

    next_chunk-Cuts :
        (drained : ℕ) (acc : Bytes) (s : State) (r : Encoded E)
        (onward : Bytes → State → Polled × BrotliStream E)
        → ((acc' : Bytes) (s' : State) → Cuts n (onward acc' s'))
        → Cuts n (next_chunk E rest drained acc s r onward)
    next_chunk-Cuts drained acc s (encoded out s') onward ih =
        elim (Bool-cases (leb drain_budget (suc drained))) [
          | inl full ↦ rw full (flush_full-Cuts (acc ++ out) s' (encode E flush s' []))
          | inr more ↦ rw more (ih (acc ++ out) s')
        ]
    next_chunk-Cuts drained acc s (refused s') onward ih = tt
    next_chunk-Cuts drained acc s out_of_fuel onward ih = tt

  poll_loop-Cuts :
      (n : ℕ) (items : List Item) (drained : ℕ) (acc : Bytes) (s : State)
      → breaks items ≡ some e
      → length items ≤ n
      → Cuts n (poll_loop E items drained acc s)
  unfolding poll_loop
  poll_loop-Cuts n [] drained acc s h l = absurd (no_error_left e h)
  poll_loop-Cuts n (idle ∷ rest) drained acc s h l =
      flush_idle-Cuts n rest h (omega (arith, l)) acc s (encode E flush s [])
  poll_loop-Cuts n (broken x ∷ rest) drained acc s h l = ground (arith, h)
  poll_loop-Cuts n (ended ∷ rest) drained acc s h l = absurd (no_error_left e h)
  poll_loop-Cuts n (chunk c ∷ rest) drained acc s h l =
      next_chunk-Cuts n rest h (omega (arith, l)) drained acc s (encode E process s c) _
        (λ acc' s'. poll_loop-Cuts n rest (suc drained) acc' s' h (omega (arith, l)))

  poll_next-Cuts :
      (n : ℕ) (b : BrotliStream E)
      → b.finished ≡ false
      → breaks b.inner ≡ some e
      → length b.inner ≤ n
      → Cuts n (poll_next E b)
  unfolding poll_next
  poll_next-Cuts n b f h l = rw f (poll_loop-Cuts n b.inner 0 [] b.encoder h l)

  -- The body ends with the source's error or with one of the encoder.
  abbrev pub Reported : List Polled → Type 0
  Reported ps = (outcome ps ≡ some (source_error e)) ⊎ (outcome ps ≡ some encoder_error)

  by_result :
      (n : ℕ) (before total : Bytes) (r : Polled × BrotliStream E)
      → (Onward (suc n) r.1 → Reported (polls E n r.1).0)
      → Cuts (suc n) r
      → Delivers E before total r
      → Reported (r.0 ∷ (polls E n r.1).0)
  by_result n before total (frame out, b) ih c d = ih c
  by_result n before total (pending, b) ih c d = ih c
  by_result n before total (source_error x, b) ih c d = inl (ap (λ y. some (source_error y)) c)
  by_result n before total (encoder_error, b) ih c d = inr refl
  by_result n before total (unfinished, b) ih c d = absurd d
  by_result n before total (end_of_stream, b) ih c d = absurd c

  nothing_left : (items : List Item) → breaks items ≡ some e → length items ≤ 0 → ⊥
  nothing_left [] h l = no_error_left e h
  nothing_left (x ∷ items) h l = omega (arith, l)

  pub polls-Reported :
      (n : ℕ) (b : BrotliStream E)
      → b.finished ≡ false
      → breaks b.inner ≡ some e
      → length b.inner ≤ n
      → Reported (polls E n b).0
  polls-Reported zero b f h l = absurd (nothing_left b.inner h l)
  polls-Reported (suc n) b f h l =
      by_result n (emitted b.encoder) (fed b.encoder ++ data_of b.inner 0) (poll_next E b)
        (λ (f', h', l'). polls-Reported n (poll_next E b).1 f' h' (omega (arith, l')))
        (poll_next-Cuts (suc n) b f h l) (poll_next-Delivers E b f)
