-- ===== src/Compression.antt =====
-- src/compression.rs: the streaming compressor. The brotli encoder is a parameter with its
-- documented behaviour as laws; the source is the list of what its polls give, in order.
pub mod Encode
pub mod Poll
pub mod Leaves
pub mod Whole
pub mod Broken
pub mod Instance
mod Tests
use http_nu.Common.{
  ℕ, zero, suc, ◌+◌, ◌≡◌, ◌≤◌, ◌<◌, Bool, true, false, not, ◌&&◌, List, [], ◌∷◌, ◌++◌, Text, Bytes,
  Option, none, some, if◌then◌else◌, leb, drop, take, is_empty, is_some, codes, ◌>>=◌, length,
}

pub data Operation : Type 0 where
  process flush finish : Operation

-- What one `compress_stream` call does: whether it succeeded, how much input it took, its output.
pub record Compressed (S : Type 0) : Type 0 where
  pub success : Bool
  pub taken : ℕ
  pub output : Bytes
  pub next : S

abbrev pub is_done : Operation → Bool → Bool → Bytes → Bool
is_done finish is_finished has_more rest = is_finished
is_done flush is_finished has_more rest = not has_more
is_done process is_finished has_more rest = is_empty rest && not has_more

pub record Encoder : Type 1 where
  pub State : Type 0
  pub compress : Operation → State → Bytes → Compressed State
  pub is_finished : State → Bool
  pub has_more_output : State → Bool
  -- What went in and came out so far, and the decoder of the client.
  pub fed : State → Bytes
  pub emitted : State → Bytes
  pub decode : Bytes → Bytes
  -- How many more calls an operation may need on an input.
  pub work : Operation → State → Bytes → ℕ
  pub fed-compress :
      (op : Operation) (s : State) (input : Bytes)
      → fed (compress op s input).next ≡ fed s ++ take (compress op s input).taken input
  pub emitted-compress :
      (op : Operation) (s : State) (input : Bytes)
      → emitted (compress op s input).next ≡ emitted s ++ (compress op s input).output
  -- A completed flush or finish leaves nothing inside the encoder.
  pub decode-flush :
      (s : State) (input : Bytes)
      → has_more_output (compress flush s input).next ≡ false
      → decode (emitted (compress flush s input).next) ≡ fed (compress flush s input).next
  pub decode-finish :
      (s : State) (input : Bytes)
      → is_finished (compress finish s input).next ≡ true
      → decode (emitted (compress finish s input).next) ≡ fed (compress finish s input).next
  -- A call that does not complete the operation leaves less to do.
  pub work-compress :
      (op : Operation) (s : State) (input : Bytes)
      → (compress op s input).success ≡ true
      → is_done op
          (is_finished (compress op s input).next)
          (has_more_output (compress op s input).next)
          (drop (compress op s input).taken input)
        ≡ false
      → work op (compress op s input).next (drop (compress op s input).taken input)
        < work op s input

-- What a poll of the source gives; after the list, it is idle.
pub data Item : Type 0 where
  chunk : Bytes → Item
  broken : Text → Item
  ended : Item
  idle : Item

pub data Polled : Type 0 where
  frame : Bytes → Polled
  source_error : Text → Polled
  encoder_error : Polled
  end_of_stream : Polled
  pending : Polled
  unfinished : Polled

abbrev pub drain_budget : ℕ
drain_budget = 32

-- `decode` reads the values of `Accept-Encoding`, and `preferred_allowed` picks an encoding of a list.
unfoldable pub accepts_brotli :
    {H A : Type 0} → (H → Option A) → (A → List Text → Option Text) → H → Bool
accepts_brotli decode preferred_allowed headers =
    is_some (decode headers >>= λ accept. preferred_allowed accept (codes "br" ∷ []))

module _ (E : Encoder) where
  open E use {State, compress, is_finished, has_more_output}

  pub data Encoded : Type 0 where
    encoded : Bytes → State → Encoded
    refused : State → Encoded
    out_of_fuel : Encoded

  -- The loop of `BrotliStream::encode` over the rest of its input and its scratch buffer.
  unfoldable pub encode_loop : ℕ → Operation → State → Bytes → Bytes → Encoded
  encode_loop zero op s input scratch = out_of_fuel
  encode_loop (suc f) op s input scratch =
      let c = compress op s input in
      let rest = drop c.taken input in
      let done = is_done op (is_finished c.next) (has_more_output c.next) rest in
      let later = encode_loop f op c.next rest (scratch ++ c.output) in
      if not c.success
      then refused c.next
      else if done
      then encoded (scratch ++ c.output) c.next
      else later

  unfoldable pub encode : Operation → State → Bytes → Encoded
  unfolding encode_loop
  encode op s input = encode_loop (suc (E.work op s input)) op s input []

  pub record BrotliStream : Type 0 where
    pub inner : List Item
    pub encoder : State
    pub finished : Bool

  -- `BrotliStream::new`; the encoder's parameters are in its first state.
  abbrev pub new_stream : List Item → State → BrotliStream
  new_stream inner encoder = record { inner = inner; encoder = encoder; finished = false }

  -- What a channel gives, until it is closed.
  abbrev pub channel_items : List Bytes → List Item
  channel_items [] = ended ∷ []
  channel_items (bytes ∷ rest) = chunk bytes ∷ channel_items rest

  abbrev pub compress_stream : List Bytes → State → BrotliStream
  compress_stream rx encoder = new_stream (channel_items rx) encoder

  abbrev pub after : Polled → List Item → State → Bool → Polled × BrotliStream
  after p rest s fin = (p, record { inner = rest; encoder = s; finished = fin })

  -- A frame of what has accumulated; without any, what the poll gives instead.
  abbrev pub frame_or : Polled → Bytes → Polled
  frame_or p [] = p
  frame_or p (b ∷ bs) = frame (b ∷ bs)

  -- `FLUSH` on an idle source.
  abbrev pub flush_idle : Bytes → List Item → State → Encoded → Polled × BrotliStream
  flush_idle acc rest s (encoded out s') = after (frame_or pending (acc ++ out)) rest s' false
  flush_idle acc rest s (refused s') = after encoder_error rest s' false
  flush_idle acc rest s out_of_fuel = after unfinished rest s false

  -- `FLUSH` at the end of the budget.
  abbrev pub flush_full : Bytes → List Item → State → Encoded → Polled × BrotliStream
  flush_full acc rest s (encoded out s') = after (frame (acc ++ out)) rest s' false
  flush_full acc rest s (refused s') = after encoder_error rest s' false
  flush_full acc rest s out_of_fuel = after unfinished rest s false

  -- `FINISH` at the end of the source.
  abbrev pub finish_end : Bytes → List Item → State → Encoded → Polled × BrotliStream
  finish_end acc rest s (encoded out s') = after (frame_or end_of_stream (acc ++ out)) rest s' true
  finish_end acc rest s (refused s') = after encoder_error rest s' true
  finish_end acc rest s out_of_fuel = after unfinished rest s true

  -- A chunk that is encoded: the budget is spent, or the loop goes on.
  abbrev pub next_chunk :
      List Item
      → ℕ
      → Bytes
      → State
      → Encoded
      → (Bytes → State → Polled × BrotliStream)
      → Polled × BrotliStream
  next_chunk rest drained acc s (encoded out s') onward =
      if leb drain_budget (suc drained)
      then flush_full (acc ++ out) rest s' (encode flush s' [])
      else onward (acc ++ out) s'
  next_chunk rest drained acc s (refused s') onward = after encoder_error rest s' false
  next_chunk rest drained acc s out_of_fuel onward = after unfinished rest s false

  -- The loop of `poll_next`, with its variables `drained` and `accumulated`.
  unfoldable pub poll_loop : List Item → ℕ → Bytes → State → Polled × BrotliStream
  unfolding encode
  poll_loop [] drained acc s = flush_idle acc [] s (encode flush s [])
  poll_loop (idle ∷ rest) drained acc s = flush_idle acc rest s (encode flush s [])
  poll_loop (broken e ∷ rest) drained acc s = after (source_error e) rest s true
  poll_loop (ended ∷ rest) drained acc s = finish_end acc rest s (encode finish s [])
  poll_loop (chunk c ∷ rest) drained acc s =
      next_chunk rest drained acc s (encode process s c)
        (λ acc' s'. poll_loop rest (suc drained) acc' s')

  unfoldable pub poll_next : BrotliStream → Polled × BrotliStream
  unfolding poll_loop
  poll_next b =
      if b.finished
      then after end_of_stream b.inner b.encoder true
      else poll_loop b.inner 0 [] b.encoder
