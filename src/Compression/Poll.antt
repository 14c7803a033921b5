-- ===== src/Compression/Poll.antt =====
-- What one `poll_next` delivers.
use http_nu.Common.{
  ℕ, suc, ◌≡◌, refl, sym, ap, ◌∙◌, subst, Bool, true, false, inl, inr, List, [], ◌∷◌, ◌++◌, Bytes,
  append_assoc, append-nil, if◌then◌else◌, Bool-cases, leb, arith,
}
use http_nu.Compression.{
  Operation, process, flush, finish, Encoder, Item, chunk, broken, ended, idle, Polled, frame,
  source_error, encoder_error, end_of_stream, pending, unfinished, drain_budget, Encoded, encoded,
  refused, out_of_fuel, encode, BrotliStream, frame_or, flush_idle, flush_full, finish_end,
  next_chunk, poll_loop, poll_next,
}
use http_nu.Compression.Encode.{Encodes, encode-Encodes}

-- What the source gives in one poll, which has taken `drained` chunks before: the chunks up to the
-- first item of another kind, at most the budget's.
abbrev pub data_of : List Item → ℕ → Bytes
data_of [] drained = []
data_of (chunk c ∷ rest) drained =
    let more = data_of rest (suc drained) in
    c ++ (if leb drain_budget (suc drained) then [] else more)
data_of (broken e ∷ rest) drained = []
data_of (ended ∷ rest) drained = []
data_of (idle ∷ rest) drained = []

module _ (E : Encoder) where
  open E use {State, fed, emitted, decode}

  -- The client has `before` already, and `total` is what the source has given in all: the encoder has
  -- taken it, and what it has put out decodes to it.
  abbrev pub Complete : Bytes → Bytes → Bytes → State → Type 0
  Complete before total out s =
      (emitted s ≡ before ++ out) × (decode (before ++ out) ≡ total) × (fed s ≡ total)

  abbrev pub Delivers : Bytes → Bytes → Polled × BrotliStream E → Type 0
  Delivers before total (frame out, b) = Complete before total out b.encoder
  Delivers before total (pending, b) = Complete before total [] b.encoder
  Delivers before total (end_of_stream, b) =
      Complete before total [] b.encoder × (b.finished ≡ true)
  Delivers before total (source_error e, b) = b.finished ≡ true
  Delivers before total (encoder_error, b) = Unit
  Delivers before total (unfinished, b) = ⊥

  closed_lem :
      (op : Operation) (s s' : State) (before acc out total : Bytes)
      → emitted s ≡ before ++ acc
      → fed s ≡ total
      → fed s' ≡ fed s ++ []
      → emitted s' ≡ emitted s ++ out
      → decode (emitted s') ≡ fed s'
      → Complete before total (acc ++ out) s'
  closed_lem op s s' before acc out total h t f e d =
      let e' : emitted s' ≡ before ++ (acc ++ out) =
        e ∙ ap (λ x. x ++ out) h ∙ append_assoc before acc out in
      let g = f ∙ append-nil (fed s) ∙ t in (e', ap decode (sym e') ∙ d ∙ g, g)

  idle-Delivers :
      (before total x : Bytes) (rest : List Item) (s : State)
      → Complete before total x s
      → Delivers before total
          (frame_or E pending x, record { inner = rest; encoder = s; finished = false })
  idle-Delivers before total [] rest s h = h
  idle-Delivers before total (b ∷ bs) rest s h = h

  end-Delivers :
      (before total x : Bytes) (rest : List Item) (s : State)
      → Complete before total x s
      → Delivers before total
          (frame_or E end_of_stream x, record { inner = rest; encoder = s; finished = true })
  end-Delivers before total [] rest s h = (h, refl)
  end-Delivers before total (b ∷ bs) rest s h = h

  -- The state of the loop: what the client will have got with `acc`, and what has gone in.
  module _ (before acc : Bytes) (s : State) (h : emitted s ≡ before ++ acc) where
    flush_idle-Delivers :
        (rest : List Item) (r : Encoded E)
        → Encodes E flush s [] (emitted s) r
        → Delivers before (fed s) (flush_idle E acc rest s r)
    flush_idle-Delivers rest (encoded out s') (f, e, d) =
        idle-Delivers before (fed s) (acc ++ out) rest s'
          (closed_lem flush s s' before acc out (fed s) h refl f e d)
    flush_idle-Delivers rest (refused s') k = tt
    flush_idle-Delivers rest out_of_fuel k = k

    flush_full-Delivers :
        (rest : List Item) (r : Encoded E)
        → Encodes E flush s [] (emitted s) r
        → Delivers before (fed s) (flush_full E acc rest s r)
    flush_full-Delivers rest (encoded out s') (f, e, d) =
        closed_lem flush s s' before acc out (fed s) h refl f e d
    flush_full-Delivers rest (refused s') k = tt
    flush_full-Delivers rest out_of_fuel k = k

    finish_end-Delivers :
        (rest : List Item) (r : Encoded E)
        → Encodes E finish s [] (emitted s) r
        → Delivers before (fed s) (finish_end E acc rest s r)
    finish_end-Delivers rest (encoded out s') (f, e, d) =
        end-Delivers before (fed s) (acc ++ out) rest s'
          (closed_lem finish s s' before acc out (fed s) h refl f e d)
    finish_end-Delivers rest (refused s') k = tt
    finish_end-Delivers rest out_of_fuel k = k

  abbrev recast :
      (before : Bytes) {t u : Bytes} (r : Polled × BrotliStream E)
      → t ≡ u
      → Delivers before t r
      → Delivers before u r
  recast before r e = subst (λ t. Delivers before t r) e

  next_chunk-Delivers :
      (before acc c : Bytes) (rest : List Item) (drained : ℕ) (s : State) (r : Encoded E)
      (onward : Bytes → State → Polled × BrotliStream E)
      → emitted s ≡ before ++ acc
      → Encodes E process s c (emitted s) r
      → ((acc' : Bytes) (s' : State)
          → emitted s' ≡ before ++ acc'
          → Delivers before (fed s' ++ data_of rest (suc drained)) (onward acc' s'))
      → Delivers before
          (fed s ++ data_of (chunk c ∷ rest) drained)
          (next_chunk E rest drained acc s r onward)
  next_chunk-Delivers before acc c rest drained s (encoded out s') onward h (f, e, d) ih =
      let e' : emitted s' ≡ before ++ (acc ++ out) =
        e ∙ ap (λ x. x ++ out) h ∙ append_assoc before acc out in
      elim (Bool-cases (leb drain_budget (suc drained))) [
        | inl full ↦ rw full (
            recast before _ (f ∙ ap (◌++◌ (fed s)) (sym (append-nil c))) (
              flush_full-Delivers before (acc ++ out) s' e' rest _
                (encode-Encodes E flush s' [] (inr refl))))
        | inr more ↦ rw more (
            recast before _
              (ap (λ t. t ++ data_of rest (suc drained)) f
                ∙ append_assoc (fed s) c (data_of rest (suc drained)))
              (ih (acc ++ out) s' e'))
      ]
  next_chunk-Delivers before acc c rest drained s (refused s') onward h k ih = tt
  next_chunk-Delivers before acc c rest drained s out_of_fuel onward h k ih = k

  poll_loop-Delivers :
      (items : List Item) (drained : ℕ) (before acc : Bytes) (s : State)
      → emitted s ≡ before ++ acc
      → Delivers before (fed s ++ data_of items drained) (poll_loop E items drained acc s)
  unfolding poll_loop
  poll_loop-Delivers [] drained before acc s h =
      recast before _ (sym (append-nil (fed s)))
        (flush_idle-Delivers before acc s h [] _ (encode-Encodes E flush s [] (inr refl)))
  poll_loop-Delivers (idle ∷ rest) drained before acc s h =
      recast before _ (sym (append-nil (fed s)))
        (flush_idle-Delivers before acc s h rest _ (encode-Encodes E flush s [] (inr refl)))
  poll_loop-Delivers (broken e ∷ rest) drained before acc s h = refl
  poll_loop-Delivers (ended ∷ rest) drained before acc s h =
      recast before _ (sym (append-nil (fed s)))
        (finish_end-Delivers before acc s h rest _ (encode-Encodes E finish s [] (inr refl)))
  poll_loop-Delivers (chunk c ∷ rest) drained before acc s h =
      next_chunk-Delivers before acc c rest drained s (encode E process s c) _ h
        (encode-Encodes E process s c (inl refl))
        (λ acc' s' h'. poll_loop-Delivers rest (suc drained) before acc' s' h')

  -- Each poll of a stream that has not ended comes back. Where it gives a frame, nothing, or the
  -- end, the frames so far are all that the encoder has put out, and they decode to all that the
  -- source has given, this poll's chunks included: nothing is held back, lost or reordered. An
  -- error of the source ends the stream.
  pub poll_next-Delivers :
      (b : BrotliStream E)
      → b.finished ≡ false
      → Delivers (emitted b.encoder) (fed b.encoder ++ data_of b.inner 0) (poll_next E b)
  unfolding poll_next
  poll_next-Delivers b open_stream = rw open_stream (
      poll_loop-Delivers b.inner 0 (emitted b.encoder) [] b.encoder
        (sym (append-nil (emitted b.encoder))))

  -- A result after which the stream is finished.
  abbrev pub is_last : Polled → Bool
  is_last (source_error e) = true
  is_last end_of_stream = true
  is_last _ = false

  last-finished :
      (before total : Bytes) (p : Polled) (b : BrotliStream E)
      → Delivers before total (p, b)
      → is_last p ≡ true
      → b.finished ≡ true
  last-finished before total (source_error e) b d l = d
  last-finished before total end_of_stream b d l = d.1
  last-finished before total (frame out) b d l = absurd (ground arith)
  last-finished before total pending b d l = absurd (ground arith)
  last-finished before total encoder_error b d l = absurd (ground arith)
  last-finished before total unfinished b d l = absurd (ground arith)

  pub poll_next_finished :
      (b : BrotliStream E) → b.finished ≡ true → poll_next E b ≡ (end_of_stream, b)
  unfolding poll_next
  poll_next_finished b h = rw h

  -- Once the source's error or the end has been reported, every later poll reports the end and
  -- leaves the encoder alone: no final block is written after an error, so that the client sees a
  -- truncated body.
  pub poll_next_last :
      (b : BrotliStream E)
      → b.finished ≡ false
      → is_last (poll_next E b).0 ≡ true
      → poll_next E (poll_next E b).1 ≡ (end_of_stream, (poll_next E b).1)
  poll_next_last b open_stream l =
      let done : (poll_next E b).1.finished ≡ true =
        last-finished (emitted b.encoder) (fed b.encoder ++ data_of b.inner 0) (poll_next E b).0
          (poll_next E b).1 (poll_next-Delivers b open_stream) l in
      poll_next_finished (poll_next E b).1 done
