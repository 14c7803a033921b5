-- ===== src/Logging/Body.antt =====
-- `LoggingBody` and its `RequestGuard`: the bytes that a response has sent, and the event that the
-- drop of the guard emits. The inner body is hyper's: what its polls give is an argument.
use http_nu.Common.{
  ℕ, ◌+◌, ◌-◌, ◌/◌, ◌%◌, ◌^◌, ◌<◌, ◌≡◌, refl, ap, ◌∙◌, length-append, List, [], ◌∷◌, ◌++◌, Text,
  Bytes, length, arith,
}
use http_nu.Logging.Human.{Event, complete}

-- A frame of data, or one of trailers.
pub data Frame : Type 0 where
  data_frame : Bytes → Frame
  trailers : Frame

pub data Poll : Type 0 where
  ready_frame : Frame → Poll
  ready_err : Text → Poll
  ready_none : Poll
  pending : Poll

pub record RequestGuard : Type 0 where
  pub request_id : Text
  pub start : ℕ
  pub bytes_sent : ℕ

abbrev pub new_guard : Text → ℕ → RequestGuard
new_guard id now = record { request_id = id; start = now; bytes_sent = 0 }

-- `bytes_sent += data.len() as u64`, in a build without overflow checks.
unfoldable pub poll_frame : RequestGuard → Poll → RequestGuard × Poll
poll_frame g (ready_frame (data_frame b)) =
    (record g { bytes_sent = (g.bytes_sent + length b) % 2 ^ 64 }, ready_frame (data_frame b))
poll_frame g p = (g, p)

-- `Drop for RequestGuard`: `log_complete`, with the milliseconds since the start.
unfoldable pub drop_guard : RequestGuard → ℕ → Event
drop_guard g now = complete g.request_id g.bytes_sent ((now - g.start) / 1_000_000 % 2 ^ 64)

-- A body that is polled, until it is dropped.
unfoldable pub poll_all : RequestGuard → List Poll → RequestGuard × List Poll
unfolding poll_frame
poll_all g [] = (g, [])
poll_all g (p ∷ ps) =
    let (g', out) = poll_frame g p in let (g'', outs) = poll_all g' ps in (g'', out ∷ outs)

-- The data that went through the polls.
abbrev pub sent_data : List Poll → Bytes
sent_data [] = []
sent_data (ready_frame (data_frame b) ∷ ps) = b ++ sent_data ps
sent_data (_ ∷ ps) = sent_data ps

wrap_twice : (a b c : ℕ) → ((a + b) % 2 ^ 64 + c) % 2 ^ 64 ≡ (a + (b + c)) % 2 ^ 64
wrap_twice a b c = omega arith

poll_all-keeps :
    (g : RequestGuard) (ps : List Poll)
    → let (g', outs) = poll_all g ps in
      (outs ≡ ps)
      × (g'.request_id ≡ g.request_id)
      × (g'.start ≡ g.start)
      × (g.bytes_sent < 2 ^ 64 → g'.bytes_sent ≡ (g.bytes_sent + length (sent_data ps)) % 2 ^ 64)
unfolding poll_all
poll_all-keeps g [] = (refl, refl, refl, (λ h. omega (arith, h)))
poll_all-keeps g (ready_frame (data_frame b) ∷ ps) =
    let g' = record g { bytes_sent = (g.bytes_sent + length b) % 2 ^ 64 } in
    let (e, i, s, n) = poll_all-keeps g' ps in
    let small : (g.bytes_sent + length b) % 2 ^ 64 < 2 ^ 64 = omega arith in
    (
      ap (λ ts. ready_frame (data_frame b) ∷ ts) e,
      i,
      s,
      (λ h.
          rw (length-append b (sent_data ps))
            (n small ∙ wrap_twice g.bytes_sent (length b) (length (sent_data ps)))),
    )
poll_all-keeps g (ready_frame trailers ∷ ps) =
    let (same, i, s, b) = poll_all-keeps g ps in
    (ap (λ ts. ready_frame trailers ∷ ts) same, i, s, b)
poll_all-keeps g (ready_err e ∷ ps) =
    let (same, i, s, b) = poll_all-keeps g ps in (ap (λ ts. ready_err e ∷ ts) same, i, s, b)
poll_all-keeps g (ready_none ∷ ps) =
    let (same, i, s, b) = poll_all-keeps g ps in (ap (λ ts. ready_none ∷ ts) same, i, s, b)
poll_all-keeps g (pending ∷ ps) =
    let (e, i, s, b) = poll_all-keeps g ps in (ap (λ ts. pending ∷ ts) e, i, s, b)

-- A response's body is passed on as it is, poll by poll, and the drop of its guard, whenever it
-- comes, emits one `Complete` event: for the request, with the length of all data that was passed
-- on (modulo 2^64) and the milliseconds since the guard was made.
pub poll_all-drop_guard :
    (id : Text) (start now : ℕ) (ps : List Poll)
    → let (g, outs) = poll_all (new_guard id start) ps in
      (outs ≡ ps)
      × (drop_guard g now
          ≡ complete id (length (sent_data ps) % 2 ^ 64) ((now - start) / 1_000_000 % 2 ^ 64))
unfolding drop_guard
poll_all-drop_guard id start now ps =
    let (e, i, s, b) = poll_all-keeps (new_guard id start) ps in
    let zero_plus : 0 + length (sent_data ps) ≡ length (sent_data ps) = omega arith in
    (e, rw (i, s, b (omega arith), zero_plus) refl)
