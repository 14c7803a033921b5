-- ===== src/Compression/Leaves.antt =====
-- What one poll leaves of its source.
use http_nu.Common.{
  ℕ, suc, ◌<◌, ◌≡◌, refl, sym, ap, ◌∙◌, Bool, true, false, false≢true, inl, inr, List, [], ◌∷◌,
  ◌++◌, Bytes, append_assoc, if◌then◌else◌, Bool-cases, leb, length, arith,
}
use http_nu.Compression.{
  process, flush, finish, Encoder, Item, chunk, broken, ended, idle, Polled, source_error,
  encoder_error, unfinished, drain_budget, Encoded, encoded, refused, out_of_fuel, encode,
  BrotliStream, flush_idle, flush_full, finish_end, next_chunk, poll_loop, poll_next,
}
use http_nu.Compression.Poll.{data_of}

-- What is left of the source behind one poll, and whether that poll ended the stream.
abbrev rest_of : List Item → ℕ → List Item
rest_of [] drained = []
rest_of (chunk c ∷ rest) drained =
    let more = rest_of rest (suc drained) in if leb drain_budget (suc drained) then rest else more
rest_of (_ ∷ rest) drained = rest

abbrev pub ends_of : List Item → ℕ → Bool
ends_of [] drained = false
ends_of (chunk c ∷ rest) drained =
    let more = ends_of rest (suc drained) in if leb drain_budget (suc drained) then false else more
ends_of (idle ∷ rest) drained = false
ends_of (_ ∷ rest) drained = true

-- All that the source gives until it ends or breaks.
abbrev pub all_data : List Item → Bytes
all_data [] = []
all_data (chunk c ∷ rest) = c ++ all_data rest
all_data (idle ∷ rest) = all_data rest
all_data (_ ∷ rest) = []

-- The source ends.
abbrev pub ends : List Item → Bool
ends [] = false
ends (chunk c ∷ rest) = ends rest
ends (idle ∷ rest) = ends rest
ends (ended ∷ rest) = true
ends (broken e ∷ rest) = false

abbrev pub if_open : Bool → Bytes → Bytes
if_open true more = []
if_open false more = more

pub data_of-all_data :
    (items : List Item) (drained : ℕ)
    → data_of items drained ++ if_open (ends_of items drained) (all_data (rest_of items drained))
      ≡ all_data items
data_of-all_data [] drained = refl
data_of-all_data (idle ∷ rest) drained = refl
data_of-all_data (ended ∷ rest) drained = refl
data_of-all_data (broken e ∷ rest) drained = refl
data_of-all_data (chunk c ∷ rest) drained = elim (Bool-cases (leb drain_budget (suc drained))) [
  | inl e ↦ rw e (append_assoc c [] (all_data rest))
  | inr e ↦ rw e (append_assoc c _ _ ∙ ap (λ x. c ++ x) (data_of-all_data rest (suc drained)))
]

-- A poll that does not end a source that ends leaves less of it, which still ends.
pub ends-rest_of :
    (items : List Item) (drained : ℕ)
    → ends items ≡ true
    → ends_of items drained ≡ false
    → (ends (rest_of items drained) ≡ true) × (length (rest_of items drained) < length items)
ends-rest_of [] drained h k = absurd (false≢true h)
ends-rest_of (idle ∷ rest) drained h k = (h, omega arith)
ends-rest_of (ended ∷ rest) drained h k = absurd (false≢true (sym k))
ends-rest_of (broken e ∷ rest) drained h k = absurd (false≢true h)
ends-rest_of (chunk c ∷ rest) drained h k = elim (Bool-cases (leb drain_budget (suc drained))) [
  | inl e ↦ rw e (h, omega arith)
  | inr e ↦ let (g, l) = ends-rest_of rest (suc drained) h (rw e at k) in rw e (g, omega (arith, l))
]

abbrev pub fails : Polled → Bool
fails (source_error e) = true
fails encoder_error = true
fails unfinished = true
fails _ = false

module _ (E : Encoder) where
  open E use {State, fed, emitted, decode}

  -- Where a poll that does not fail leaves the stream.
  abbrev pub Leaves : List Item → ℕ → Polled × BrotliStream E → Type 0
  Leaves items drained (p, b) =
      fails p ≡ false → (b.inner ≡ rest_of items drained) × (b.finished ≡ ends_of items drained)

  flush_idle-Leaves :
      (acc : Bytes) (rest : List Item) (s : State) (r : Encoded E)
      → Leaves (idle ∷ rest) 0 (flush_idle E acc rest s r)
  flush_idle-Leaves acc rest s (encoded out s') h = (refl, refl)
  flush_idle-Leaves acc rest s (refused s') h = absurd (false≢true (sym h))
  flush_idle-Leaves acc rest s out_of_fuel h = absurd (false≢true (sym h))

  flush_full-Leaves :
      (acc : Bytes) (rest : List Item) (s : State) (r : Encoded E)
      → Leaves (idle ∷ rest) 0 (flush_full E acc rest s r)
  flush_full-Leaves acc rest s (encoded out s') h = (refl, refl)
  flush_full-Leaves acc rest s (refused s') h = absurd (false≢true (sym h))
  flush_full-Leaves acc rest s out_of_fuel h = absurd (false≢true (sym h))

  finish_end-Leaves :
      (acc : Bytes) (rest : List Item) (s : State) (r : Encoded E)
      → Leaves (ended ∷ rest) 0 (finish_end E acc rest s r)
  finish_end-Leaves acc rest s (encoded out s') h = (refl, refl)
  finish_end-Leaves acc rest s (refused s') h = absurd (false≢true (sym h))
  finish_end-Leaves acc rest s out_of_fuel h = absurd (false≢true (sym h))

  next_chunk-Leaves :
      (c : Bytes) (rest : List Item) (drained : ℕ) (acc : Bytes) (s : State) (r : Encoded E)
      (onward : Bytes → State → Polled × BrotliStream E)
      → ((acc' : Bytes) (s' : State) → Leaves rest (suc drained) (onward acc' s'))
      → Leaves (chunk c ∷ rest) drained (next_chunk E rest drained acc s r onward)
  next_chunk-Leaves c rest drained acc s (encoded out s') onward ih h =
      elim (Bool-cases (leb drain_budget (suc drained))) [
        | inl e ↦ rw e (flush_full-Leaves (acc ++ out) rest s' (encode E flush s' []) (rw e at h))
        | inr e ↦ rw e (ih (acc ++ out) s' (rw e at h))
      ]
  next_chunk-Leaves c rest drained acc s (refused s') onward ih h = absurd (false≢true (sym h))
  next_chunk-Leaves c rest drained acc s out_of_fuel onward ih h = absurd (false≢true (sym h))

  poll_loop-Leaves :
      (items : List Item) (drained : ℕ) (acc : Bytes) (s : State)
      → Leaves items drained (poll_loop E items drained acc s)
  unfolding poll_loop
  poll_loop-Leaves [] drained acc s h = flush_idle-Leaves acc [] s (encode E flush s []) h
  poll_loop-Leaves (idle ∷ rest) drained acc s h =
      flush_idle-Leaves acc rest s (encode E flush s []) h
  poll_loop-Leaves (broken e ∷ rest) drained acc s h = absurd (false≢true (sym h))
  poll_loop-Leaves (ended ∷ rest) drained acc s h =
      finish_end-Leaves acc rest s (encode E finish s []) h
  poll_loop-Leaves (chunk c ∷ rest) drained acc s h =
      next_chunk-Leaves c rest drained acc s (encode E process s c) _
        (λ acc' s'. poll_loop-Leaves rest (suc drained) acc' s') h

  pub poll_next-Leaves :
      (b : BrotliStream E) → b.finished ≡ false → Leaves b.inner 0 (poll_next E b)
  unfolding poll_next
  poll_next-Leaves b open_stream = rw open_stream (poll_loop-Leaves b.inner 0 [] b.encoder)
