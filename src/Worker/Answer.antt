-- ===== src/Worker/Answer.antt =====
-- Which evaluations answer the request.
use http_nu.Common.{
  ℕ, zero, suc, ◌≡◌, refl, sym, ap, ◌∙◌, inl, inr, false≢true, Option-cases, codes, Bool, true,
  false, not, ◌||◌, List, [], ◌∷◌, Text, Bytes, Option, none, some, is_some, arith,
}
use http_nu.Value.{
  Value, nothing, error, Metadata, ReadEnd, eof, shell_error, io_error, ByteStream, PipelineData,
  empty, value, list_stream, byte_stream,
}
use http_nu.Response.{Printer, value_to_bytes}
use http_nu.Response.Encoding.{has_body, value_to_bytes_total}
use http_nu.Worker.{
  PipelineResult, Evaluation, evaluated, raised, eval_panic, Run, send_chunk, stream_bytes,
  stream_values, full_body, read_stream, respond, inner, infer_content_type, error_message,
  report_error, eval_thread,
}

module _ (p : Printer) where
  send_chunk-answer :
      (taken : ℕ) (r : PipelineResult) (b : Option Bytes) (rest : ℕ → Run)
      → ((n : ℕ) → (rest n).answer ≡ some r)
      → (send_chunk taken r b rest).answer ≡ some r
  send_chunk-answer taken r none rest h = refl
  send_chunk-answer zero r (some b) rest h = refl
  send_chunk-answer (suc n) r (some b) rest h = h n

  stream_values-answer :
      (taken : ℕ) (r : PipelineResult) (j : Bool) (vs : List Value)
      → (stream_values p taken r j vs).answer ≡ some r
  unfolding stream_values
  stream_values-answer taken r j [] = refl
  stream_values-answer taken r j (error e ∷ vs) = refl
  stream_values-answer taken r j (v ∷ vs) =
      send_chunk-answer taken r _ _ (λ n. stream_values-answer n r j vs)

  stream_bytes-answer :
      (taken : ℕ) (r : PipelineResult) (chunks : List Bytes) (end : ReadEnd)
      → (stream_bytes taken r chunks end).answer ≡ some r
  unfolding stream_bytes
  stream_bytes-answer taken r [] eof = refl
  stream_bytes-answer taken r [] (shell_error e) = refl
  stream_bytes-answer taken r [] (io_error e) = refl
  stream_bytes-answer taken r ([] ∷ rest) end = refl
  stream_bytes-answer zero r ((b ∷ bs) ∷ rest) end = refl
  stream_bytes-answer (suc n) r ((b ∷ bs) ∷ rest) end = stream_bytes-answer n r rest end

  read_stream-answer :
      (taken : ℕ) (r : PipelineResult) (s : ByteStream) → (read_stream p taken r s).answer ≡ some r
  read_stream-answer taken r s = ground (arith, stream_bytes-answer taken r s.chunks s.ends)

  -- Whether an output leads to an answer: all do but an error and a value without a body.
  abbrev pub output_answers : PipelineData → Bool
  output_answers (value v meta) = has_body v
  output_answers _ = true

  abbrev pub answers : Evaluation → Bool
  answers (evaluated output) = output_answers output
  answers (raised e) = false
  answers eval_panic = false

  full_body-answer :
      (ct : Option Text) (meta : Option Metadata) (b : Option Bytes)
      → is_some (full_body p ct meta b).answer ≡ is_some b
  full_body-answer ct meta none = refl
  full_body-answer ct meta (some b) = refl

  respond-answers :
      (taken : ℕ) (output : PipelineData)
      → is_some (respond p taken output).answer ≡ output_answers output
  unfolding respond
  respond-answers taken empty = refl
  respond-answers taken (value nothing meta) = refl
  respond-answers taken (value (error e) meta) = refl
  respond-answers taken (value v meta) =
      full_body-answer (infer_content_type (value v meta)) meta (value_to_bytes p v)
      ∙ value_to_bytes_total p v
  respond-answers taken (list_stream vs meta) = ap is_some (stream_values-answer taken _ _ vs)
  respond-answers taken (byte_stream s meta) = ap is_some (read_stream-answer taken _ s)

  report_error-taken :
      (r : Run) (m : Option Text)
      → (report_error p (record { meta_tx_opt = false; body_tx_opt = false }) r m).answer ≡ r.answer
  unfolding report_error
  report_error-taken r none = refl
  report_error-taken r (some e) = refl

  inner-answers : (taken : ℕ) (ev : Evaluation) → is_some (inner p taken ev).answer ≡ answers ev
  unfolding inner
  inner-answers taken (evaluated output) = respond-answers taken output
  inner-answers taken (raised e) = refl
  inner-answers taken eval_panic = refl

  -- The thread answers exactly when the copy of the engine panicked or the evaluation gave an
  -- output with a body. A script that fails, gives an error value, panics, or gives a value without
  -- a body leaves the receiver with nothing: the prepared "Script error" answer is then never sent,
  -- since its sender was handed to the evaluation before it ran.
  pub eval_thread-answers :
      (cloned : Bool) (taken : ℕ) (ev : Evaluation)
      → is_some (eval_thread p cloned taken ev).answer ≡ (not cloned || answers ev)
  unfolding eval_thread
  eval_thread-answers false taken ev = refl
  eval_thread-answers true taken ev =
      ap is_some
        (report_error-taken (inner p taken ev) (error_message p (inner p taken ev).outcome))
      ∙ inner-answers taken ev

  -- The error of an evaluation that does not answer: the script's own, or `panic`.
  abbrev pub error_of : Evaluation → Text
  error_of (raised e) = e
  error_of (evaluated (value (error e) meta)) = e
  error_of _ = codes "panic"

  no_bytes : (v : Value) → has_body v ≡ false → value_to_bytes p v ≡ none
  no_bytes v h = elim (Option-cases (value_to_bytes p v)) [
    | inl q ↦ q
    | inr (b, q) ↦ absurd (false≢true (sym (sym (ap is_some q) ∙ value_to_bytes_total p v ∙ h)))
  ]

  -- What a full answer whose bytes panicked has logged.
  logged_none :
      (v : Value) (meta : Option Metadata) (o : Option Bytes)
      → o ≡ none
      → (report_error p
          (record { meta_tx_opt = false; body_tx_opt = false })
          (full_body p (infer_content_type (value v meta)) meta o)
          (error_message p (full_body p (infer_content_type (value v meta)) meta o).outcome)).logged
        ≡ codes "panic" ∷ []
  unfolding report_error
  logged_none v meta none h = refl
  logged_none v meta (some b) h = absurd (false≢true (sym (ap is_some h)))

  respond-panicked :
      (taken : ℕ) (v : Value) (meta : Option Metadata)
      → has_body v ≡ false
      → error_of (evaluated (value v meta)) ≡ codes "panic"
      → (eval_thread p true taken (evaluated (value v meta))).logged ≡ codes "panic" ∷ []
  unfolding eval_thread
  respond-panicked taken nothing meta h q = absurd (false≢true (sym h))
  respond-panicked taken (error e) meta h q = ap (λ x. x ∷ []) q
  respond-panicked taken v meta h q = logged_none v meta (value_to_bytes p v) (no_bytes v h)

  -- What is logged of an evaluation that does not answer is its error, once.
  pub eval_thread-error_of :
      (taken : ℕ) (ev : Evaluation)
      → answers ev ≡ false
      → (eval_thread p true taken ev).logged ≡ error_of ev ∷ []
  unfolding eval_thread
  eval_thread-error_of taken (raised e) h = refl
  eval_thread-error_of taken eval_panic h = refl
  eval_thread-error_of taken (evaluated (value (error e) meta)) h = refl
  eval_thread-error_of taken (evaluated (value v meta)) h = respond-panicked taken v meta h refl
  eval_thread-error_of taken (evaluated empty) h = absurd (false≢true (sym h))
  eval_thread-error_of taken (evaluated (list_stream vs meta)) h = absurd (false≢true (sym h))
  eval_thread-error_of taken (evaluated (byte_stream s meta)) h = absurd (false≢true (sym h))
