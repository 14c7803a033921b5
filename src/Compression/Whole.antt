-- ===== src/Compression/Whole.antt =====
-- A whole body: all polls of a stream from its start, as a receiver makes them.
use http_nu.Common.{
  ℕ, zero, suc, ◌⊎◌, ◌≤◌, ◌≡◌, refl, sym, ap, ◌∙◌, Bool, true, false, false≢true, not, ◌&&◌, inl,
  inr, List, [], ◌∷◌, ◌++◌, Bytes, append_assoc, append-nil, Bool-cases, length, arith,
}
use http_nu.Compression.{
  new_stream, Encoder, Item, Polled, frame, source_error, encoder_error, end_of_stream, pending,
  unfinished, BrotliStream, poll_next,
}
use http_nu.Compression.Poll.{data_of, Complete, Delivers, poll_next-Delivers, poll_next_finished}
use http_nu.Compression.Leaves.{
  ends_of, all_data, ends, if_open, data_of-all_data, ends-rest_of, fails, Leaves, poll_next-Leaves,
}

abbrev pub is_error : Polled → Bool
is_error (source_error e) = true
is_error encoder_error = true
is_error _ = false

module _ (E : Encoder) where
  open E use {State, fed, emitted, decode}

  -- A receiver's polls.
  abbrev pub polls : ℕ → BrotliStream E → List Polled × BrotliStream E
  polls zero b = ([], b)
  polls (suc n) b = let (p, b') = poll_next E b in let (ps, last) = polls n b' in (p ∷ ps, last)

  abbrev bytes_of : Polled → Bytes
  bytes_of (frame out) = out
  bytes_of _ = []

  abbrev pub received : List Polled → Bytes
  received [] = []
  received (p ∷ ps) = bytes_of p ++ received ps

  abbrev pub no_error : List Polled → Bool
  no_error [] = true
  no_error (p ∷ ps) = not (is_error p) && no_error ps

  delivered :
      (before total : Bytes) (p : Polled) (b : BrotliStream E)
      → Delivers E before total (p, b)
      → fails p ≡ false
      → Complete E before total (bytes_of p) b.encoder
  delivered before total (frame out) b d h = d
  delivered before total pending b d h = d
  delivered before total end_of_stream b d h = d.0
  delivered before total (source_error e) b d h = absurd (false≢true (sym h))
  delivered before total encoder_error b d h = absurd (false≢true (sym h))
  delivered before total unfinished b d h = absurd (false≢true (sym h))

  -- What the client will have decoded when nothing goes wrong.
  abbrev promised : BrotliStream E → Bytes
  promised b = fed b.encoder ++ if_open b.finished (all_data b.inner)

  -- `b'` is `b` after the client received `out`.
  abbrev Advances : BrotliStream E → Bytes → BrotliStream E → Type 0
  Advances b out b' =
      (emitted b'.encoder ≡ emitted b.encoder ++ out)
      × (decode (emitted b'.encoder) ≡ fed b'.encoder)
      × (promised b' ≡ promised b)

  open-Advances :
      (b : BrotliStream E) (r : Polled × BrotliStream E)
      → b.finished ≡ false
      → Delivers E (emitted b.encoder) (fed b.encoder ++ data_of b.inner 0) r
      → Leaves E b.inner 0 r
      → fails r.0 ≡ false
      → Advances b (bytes_of r.0) r.1
  open-Advances b (p, b') open_stream d l h =
      let (e, k, f) = delivered (emitted b.encoder) _ p b' d h in
      let (i, g) = l h in
      (
        e,
        ap decode e ∙ k ∙ sym f,
        rw (f, i, g, open_stream)
            (append_assoc (fed b.encoder) _ _
              ∙ ap (λ x. fed b.encoder ++ x) (data_of-all_data b.inner 0)),
      )

  -- A poll always comes back, so that without an error it has not failed.
  not_failed :
      (before total : Bytes) (r : Polled × BrotliStream E)
      → Delivers E before total r
      → is_error r.0 ≡ false
      → fails r.0 ≡ false
  not_failed before total (frame out, b) d h = refl
  not_failed before total (pending, b) d h = refl
  not_failed before total (end_of_stream, b) d h = refl
  not_failed before total (source_error e, b) d h = h
  not_failed before total (encoder_error, b) d h = h
  not_failed before total (unfinished, b) d h = absurd d

  finished-Advances :
      (b : BrotliStream E)
      → b.finished ≡ true
      → decode (emitted b.encoder) ≡ fed b.encoder
      → Advances b (bytes_of (poll_next E b).0) (poll_next E b).1
  finished-Advances b h k =
      rw (poll_next_finished E b h) (sym (append-nil (emitted b.encoder)), k, refl)

  poll_next-Advances :
      (b : BrotliStream E)
      → decode (emitted b.encoder) ≡ fed b.encoder
      → is_error (poll_next E b).0 ≡ false
      → Advances b (bytes_of (poll_next E b).0) (poll_next E b).1
  poll_next-Advances b k h = elim (Bool-cases b.finished) [
    | inl e ↦ finished-Advances b e k
    | inr e ↦
        let d = poll_next-Delivers E b e in
        open-Advances b (poll_next E b) e d (poll_next-Leaves E b e)
          (not_failed (emitted b.encoder) _ (poll_next E b) d h)
  ]

  polls-Advances :
      (n : ℕ) (b : BrotliStream E)
      → decode (emitted b.encoder) ≡ fed b.encoder
      → no_error (polls n b).0 ≡ true
      → Advances b (received (polls n b).0) (polls n b).1
  polls-Advances zero b k h = (sym (append-nil (emitted b.encoder)), k, refl)
  polls-Advances (suc n) b k h =
      let (e, k', q) = poll_next-Advances b k (ground (arith, h)) in
      let (e', k'', q') = polls-Advances n (poll_next E b).1 k' (ground (arith, h)) in
      (
        e'
            ∙ ap (λ x. x ++ received (polls n (poll_next E b).1).0) e
            ∙ append_assoc (emitted b.encoder) _ _,
        k'',
        q' ∙ q,
      )

  -- The source ends, and at most `n` items of it are left.
  abbrev Ending : ℕ → BrotliStream E → Type 0
  Ending n b = (b.finished ≡ true) ⊎ ((ends b.inner ≡ true) × (length b.inner ≤ n))

  step-Ending :
      (n : ℕ) (b : BrotliStream E)
      → decode (emitted b.encoder) ≡ fed b.encoder
      → is_error (poll_next E b).0 ≡ false
      → Ending (suc n) b
      → Ending n (poll_next E b).1
  step-Ending n b k h (inl f) = rw (poll_next_finished E b f) (inl f)
  step-Ending n b k h (inr (e, l)) = elim (Bool-cases b.finished) [
    | inl f ↦ rw (poll_next_finished E b f) (inl f)
    | inr f ↦
        let d = poll_next-Delivers E b f in
        let (i, g) =
          poll_next-Leaves E b f (not_failed (emitted b.encoder) _ (poll_next E b) d h) in
        elim (Bool-cases (ends_of b.inner 0)) [
          | inl last ↦ inl (g ∙ last)
          | inr more ↦
              let (e', l') = ends-rest_of b.inner 0 e more in inr (rw i (e', omega (arith, l, l')))
        ]
  ]

  no_items : (items : List Item) → ends items ≡ true → length items ≤ 0 → ⊥
  no_items [] h l = false≢true h
  no_items (x ∷ xs) h l = omega (arith, l)

  polls-Ending :
      (n : ℕ) (b : BrotliStream E)
      → decode (emitted b.encoder) ≡ fed b.encoder
      → no_error (polls n b).0 ≡ true
      → Ending n b
      → (polls n b).1.finished ≡ true
  polls-Ending zero b k h (inl f) = f
  polls-Ending zero b k h (inr (e, l)) = absurd (no_items b.inner e l)
  polls-Ending (suc n) b k h g =
      let (e, k', q) = poll_next-Advances b k (ground (arith, h)) in
      polls-Ending n (poll_next E b).1 k' (ground (arith, h))
        (step-Ending n b k (ground (arith, h)) g)

  whole :
      (b b' : BrotliStream E) (out : Bytes)
      → emitted b.encoder ≡ []
      → fed b.encoder ≡ []
      → b'.finished ≡ true
      → emitted b'.encoder ≡ emitted b.encoder ++ out
      → decode (emitted b'.encoder) ≡ fed b'.encoder
      → promised b' ≡ promised b
      → decode out ≡ if_open b.finished (all_data b.inner)
  whole b b' out e f fin e' k q =
      let o : emitted b'.encoder ≡ out = e' ∙ ap (λ x. x ++ out) e in
      let all : fed b'.encoder ≡ promised b' = rw fin (sym (append-nil (fed b'.encoder))) in
      ap decode (sym o) ∙ k ∙ all ∙ q ∙ ap (λ x. x ++ if_open b.finished (all_data b.inner)) f

  -- A source that ends is transferred whole: with a fresh encoder, polling as often as the source
  -- has items finishes the stream when no poll reports an error, and what the client decodes from
  -- the frames received is all data of the source, in order.
  pub polls-received :
      (items : List Item) (s : State) (n : ℕ)
      → emitted s ≡ []
      → fed s ≡ []
      → decode [] ≡ []
      → ends items ≡ true
      → length items ≤ n
      → no_error (polls n (new_stream E items s)).0 ≡ true
      → ((polls n (new_stream E items s)).1.finished ≡ true)
        × (decode (received (polls n (new_stream E items s)).0) ≡ all_data items)
  polls-received items s n e f d g l h =
      let b = new_stream E items s in
      let k : decode (emitted s) ≡ fed s = ap decode e ∙ d ∙ sym f in
      let fin = polls-Ending n b k h (inr (g, l)) in
      let (e', k', q) = polls-Advances n b k h in
      (fin, whole b (polls n b).1 (received (polls n b).0) e f fin e' k' q)
