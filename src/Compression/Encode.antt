-- ===== src/Compression/Encode.antt =====
-- `encode` ends, takes all of its input, and hands on everything that comes out.
use http_nu.Common.{
  ℕ, zero, suc, ◌≡◌, ◌<◌, refl, sym, ap, ◌∙◌, Bool, true, ◌⊎◌, inl, inr, [], ◌∷◌, ◌++◌, Bytes,
  append_assoc, append-nil, Bool-cases, drop, take, is_empty, arith,
}
use http_nu.Compression.{
  Operation, process, flush, finish, is_done, Encoder, Encoded, encoded, refused, out_of_fuel,
  encode_loop, encode,
}

take_all : (n : ℕ) (xs : Bytes) → is_empty (drop n xs) ≡ true → take n xs ≡ xs
take_all zero [] h = refl
take_all zero (x ∷ xs) h = absurd (ground arith)
take_all (suc n) [] h = refl
take_all (suc n) (x ∷ xs) h = ap (◌∷◌ x) (take_all n xs h)

take-append-drop : (n : ℕ) (xs : Bytes) → take n xs ++ drop n xs ≡ xs
take-append-drop zero xs = refl
take-append-drop (suc n) [] = refl
take-append-drop (suc n) (x ∷ xs) = ap (◌∷◌ x) (take-append-drop n xs)

take_nil : (n : ℕ) → take {A = ℕ} n [] ≡ []
take_nil zero = refl
take_nil (suc n) = refl

drop_nil : (n : ℕ) → drop {A = ℕ} n [] ≡ []
drop_nil zero = refl
drop_nil (suc n) = refl

module _ (E : Encoder) where
  open E use {State, compress, is_finished, has_more_output, fed, emitted, decode, work}

  -- A completed flush or finish has left nothing inside.
  abbrev pub Settled : Operation → State → Type 0
  Settled process s = Unit
  Settled flush s = decode (emitted s) ≡ fed s
  Settled finish s = decode (emitted s) ≡ fed s

  -- What a completed operation has done, where `before` had come out when it began.
  abbrev pub Encodes : Operation → State → Bytes → Bytes → Encoded E → Type 0
  Encodes op s input before (encoded out s') =
      (fed s' ≡ fed s ++ input) × (emitted s' ≡ before ++ out) × Settled op s'
  Encodes op s input before (refused s') = Unit
  Encodes op s input before out_of_fuel = ⊥

  abbrev pub AllTaken : Operation → Bytes → Type 0
  AllTaken op input = (op ≡ process) ⊎ (input ≡ [])

  abbrev done_after : Operation → State → Bytes → Bool
  done_after op s input =
      let c = compress op s input in
      is_done op (is_finished c.next) (has_more_output c.next) (drop c.taken input)

  taken_lem :
      (op : Operation) (s : State) (input : Bytes)
      → AllTaken op input
      → done_after op s input ≡ true
      → take (compress op s input).taken input ≡ input
  taken_lem process s input a d = take_all (compress process s input).taken input (ground arith)
  taken_lem flush s input (inl e) d = absurd (ground arith)
  taken_lem flush s input (inr e) d = rw e (take_nil _)
  taken_lem finish s input (inl e) d = absurd (ground arith)
  taken_lem finish s input (inr e) d = rw e (take_nil _)

  settled_lem :
      (op : Operation) (s : State) (input : Bytes)
      → done_after op s input ≡ true
      → Settled op (compress op s input).next
  settled_lem process s input d = tt
  settled_lem flush s input d = E.decode-flush s input (ground arith)
  settled_lem finish s input d = E.decode-finish s input d

  rest_taken :
      (op : Operation) (s : State) (input : Bytes)
      → AllTaken op input
      → AllTaken op (drop (compress op s input).taken input)
  rest_taken op s input (inl e) = inl e
  rest_taken op s input (inr e) = inr (rw e (drop_nil _))

  Encodes-shift :
      (op : Operation) (s : State) (input before : Bytes) (r : Encoded E)
      → Encodes op (compress op s input).next (drop (compress op s input).taken input) before r
      → Encodes op s input before r
  Encodes-shift op s input before (encoded out s') (f, e, d) = (
    f
        ∙ ap (λ t. t ++ drop (compress op s input).taken input) (E.fed-compress op s input)
        ∙ append_assoc (fed s) (take (compress op s input).taken input)
            (drop (compress op s input).taken input)
        ∙ ap (◌++◌ (fed s)) (take-append-drop (compress op s input).taken input),
    e,
    d,
  )
  Encodes-shift op s input before (refused s') h = tt
  Encodes-shift op s input before out_of_fuel h = h

  emitted_lem :
      (op : Operation) (s : State) (input scratch before : Bytes)
      → emitted s ≡ before ++ scratch
      → emitted (compress op s input).next ≡ before ++ (scratch ++ (compress op s input).output)
  emitted_lem op s input scratch before h =
      E.emitted-compress op s input
      ∙ ap (λ t. t ++ (compress op s input).output) h
      ∙ append_assoc before scratch (compress op s input).output

  encode_loop-Encodes :
      (f : ℕ) (op : Operation) (s : State) (input scratch before : Bytes)
      → work op s input < f
      → AllTaken op input
      → emitted s ≡ before ++ scratch
      → Encodes op s input before (encode_loop E f op s input scratch)
  unfolding encode_loop
  encode_loop-Encodes zero op s input scratch before w a h = elim w [ ]
  encode_loop-Encodes (suc f) op s input scratch before w a h =
      let c = compress op s input in
      elim (Bool-cases c.success) [
        | inr bad ↦ rw bad tt
        | inl good ↦ elim (Bool-cases (done_after op s input)) [
          | inl d ↦
              rw (good, d)
                (
                  E.fed-compress op s input ∙ ap (◌++◌ (fed s)) (taken_lem op s input a d),
                  emitted_lem op s input scratch before h,
                  settled_lem op s input d,
                )
          | inr n ↦
              rw (good, n)
                (Encodes-shift op s input before _ (
                  encode_loop-Encodes f op c.next (drop c.taken input) (scratch ++ c.output) before
                    (omega (arith, E.work-compress op s input good n)) (rest_taken op s input a)
                    (emitted_lem op s input scratch before h)))
        ]
      ]

  -- `encode` ends. If the encoder does not refuse, all of the input went in, and what it returns is
  -- all that came out; after a flush or a finish the client can decode all that went in.
  pub encode-Encodes :
      (op : Operation) (s : State) (input : Bytes)
      → AllTaken op input
      → Encodes op s input (emitted s) (encode E op s input)
  unfolding encode
  encode-Encodes op s input a =
      encode_loop-Encodes (suc (work op s input)) op s input [] (emitted s) (omega arith) a
        (sym (append-nil (emitted s)))
