-- ===== src/Serve/Shutdown.antt =====
-- The shutdown: what happens once `serve` has cancelled the streams.
use http_nu.Common.{
  ℕ, zero, suc, ◌≤◌, ◌≡◌, refl, sym, ap, ◌∙◌, Bool, true, false, false≢true, List, ◌∷◌, arith,
}
use http_nu.Serve.{
  Phase, waiting, binding, accepting, breaking, counting, draining, returned, failed, Updater,
  receiving, storing, reporting, Server, start, Step, first_engine, stop_waiting, no_engine,
  bind_failed, bound, cancel_old, store_new, log_reloaded, accept_connection, end_connection,
  shutdown, cancel_current, none_inflight, some_inflight, drained, time_out, Reach, here, later,
}
use http_nu.Serve.Order.{Cancelled, Cancelled-cons, Tokens, complete_cancellation, Reach-Sound}

-- Behind the cancellation of the streams.
abbrev pub behind : Phase → Bool
behind counting = true
behind draining = true
behind returned = true
behind _ = false

-- Of a server that came to `s`: the engines `es` are cancelled, no more connections are open, and it is behind.
abbrev Closing : List ℕ → ℕ → Server → Type 0
Closing es n s = Cancelled s.cancelled es × (s.connections ≤ n) × (behind s.phase ≡ true)

not_behind : (p q : Phase) → p ≡ q → behind q ≡ false → behind p ≡ true → ⊥
not_behind p q h f b = false≢true (sym f ∙ sym (ap behind h) ∙ b)

Step-Closing : (es : List ℕ) (n : ℕ) (s t : Server) → Closing es n s → Step s t → Closing es n t
Step-Closing es n s t (c, l, b) (first_engine e q) = absurd (not_behind s.phase waiting q refl b)
Step-Closing es n s t (c, l, b) (stop_waiting q) = (c, l, refl)
Step-Closing es n s t (c, l, b) (no_engine q) = absurd (not_behind s.phase waiting q refl b)
Step-Closing es n s t (c, l, b) (bind_failed q) = absurd (not_behind s.phase binding q refl b)
Step-Closing es n s t (c, l, b) (bound a ms o q) = absurd (not_behind s.phase binding q refl b)
Step-Closing es n s t (c, l, b) (cancel_old new e rest q r) =
    (Cancelled-cons e s.cancelled es c, l, b)
Step-Closing es n s t (c, l, b) (store_new new q) = (c, l, b)
Step-Closing es n s t (c, l, b) (log_reloaded q) = (c, l, b)
Step-Closing es n s t (c, l, b) (accept_connection q) =
    absurd (not_behind s.phase accepting q refl b)
Step-Closing es n s t (c, l, b) (end_connection m q) = (c, omega (arith, l, q), b)
Step-Closing es n s t (c, l, b) (shutdown q) = absurd (not_behind s.phase accepting q refl b)
Step-Closing es n s t (c, l, b) (cancel_current e rest q r) =
    (Cancelled-cons e s.cancelled es c, l, refl)
Step-Closing es n s t (c, l, b) (none_inflight q r) = (c, l, refl)
Step-Closing es n s t (c, l, b) (some_inflight m q r) = (c, l, refl)
Step-Closing es n s t (c, l, b) (drained q r) = (c, l, refl)
Step-Closing es n s t (c, l, b) (time_out q) = (c, l, refl)

Reach-Closing : (es : List ℕ) (n : ℕ) (s t : Server) → Closing es n s → Reach s t → Closing es n t
Reach-Closing es n s t h here = h
Reach-Closing es n s t h (later {t = m} r st) =
    Step-Closing es n m t (Reach-Closing es n s m h r) st

Tokens-newest :
    (u : Updater) (cs es : List ℕ) (e : ℕ) (rest : List ℕ)
    → es ≡ e ∷ rest
    → Tokens u cs es
    → Cancelled (e ∷ cs) es
Tokens-newest receiving cs es e rest q h = complete_cancellation cs es e rest q h
Tokens-newest (storing new) cs es e rest q h = Cancelled-cons e cs es h
Tokens-newest reporting cs es e rest q h = complete_cancellation cs es e rest q h

-- `serve` can return without waiting for a connection to end.
Returns : Server → Type 0
Returns s = (t : Server) × Reach s t × (t.phase ≡ returned)

draining-Returns : (s : Server) → s.phase ≡ draining → Returns s
unfolding Returns
draining-Returns s q = (_, later here (time_out q), refl)

counting-Returns : (s : Server) (n : ℕ) → s.connections ≡ n → s.phase ≡ counting → Returns s
unfolding Returns
counting-Returns s zero r q = (_, later here (none_inflight q r), refl)
counting-Returns s (suc n) r q = (_, later (later here (some_inflight n q r)) (time_out refl), refl)

behind-Returns : (s : Server) (p : Phase) → s.phase ≡ p → behind p ≡ true → Returns s
unfolding Returns
behind-Returns s counting q b = counting-Returns s s.connections refl q
behind-Returns s draining q b = draining-Returns s q
behind-Returns s returned q b = (s, here, q)
behind-Returns s waiting q b = absurd (false≢true b)
behind-Returns s binding q b = absurd (false≢true b)
behind-Returns s accepting q b = absurd (false≢true b)
behind-Returns s breaking q b = absurd (false≢true b)
behind-Returns s failed q b = absurd (false≢true b)

-- The server behind the cancellation of its newest engine.
abbrev pub closed : ℕ → Server → Server
closed e s = record s { phase = counting; cancelled = e ∷ s.cancelled }

-- When a server that is behind its accept loop has cancelled its current engine, then in whatever state it comes to:
-- the streams of all the engines that were stored until then are cancelled, no more connections are open than then,
-- and from there `serve` can return, also if no connection ever ends.
pub closed-Cancelled :
    (s t : Server) (e : ℕ) (es : List ℕ)
    → Reach start s
    → s.phase ≡ breaking
    → s.engines ≡ e ∷ es
    → Reach (closed e s) t
    → Cancelled t.cancelled s.engines
      × (t.connections ≤ s.connections)
      × ((u : Server) × Reach t u × (u.phase ≡ returned))
unfolding Returns
closed-Cancelled s t e es r p q st =
    let (k, _) = Reach-Sound s r in
    let all = Tokens-newest s.updater s.cancelled s.engines e es q k in
    let (c, l, b) =
      Reach-Closing s.engines s.connections (closed e s) t (all, omega arith, refl) st in
    (c, l, behind-Returns t t.phase refl b)
