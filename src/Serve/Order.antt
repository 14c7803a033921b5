-- ===== src/Serve/Order.antt =====
-- What the lifecycle events of a server say, and which engines' streams are cancelled.
use http_nu.Common.{
  ℕ, suc, ◌≡◌, refl, sym, ap, subst, ◌⊎◌, inl, inr, Bool, true, false, List, [], ◌∷◌, ◌++◌, Bytes,
  All, filter, filter-append, append-nil,
}
use http_nu.Logging.Human.{
  Event, started, reloaded, stopping, stopped, stop_timed_out, StartupOptions,
}
use http_nu.Serve.{
  Phase, waiting, binding, accepting, breaking, counting, draining, returned, failed, Updater,
  receiving, storing, reporting, Server, start, Step, first_engine, stop_waiting, no_engine,
  bind_failed, bound, cancel_old, store_new, log_reloaded, accept_connection, end_connection,
  shutdown, cancel_current, none_inflight, some_inflight, drained, time_out, Reach, here, later,
}

abbrev pub In : ℕ → List ℕ → Type 0
In e [] = ⊥
In e (c ∷ cs) = (e ≡ c) ⊎ In e cs

abbrev pub Cancelled : List ℕ → List ℕ → Type 0
Cancelled cs es = All (λ e. In e cs) es

pub Cancelled-cons : (c : ℕ) (cs es : List ℕ) → Cancelled cs es → Cancelled (c ∷ cs) es
Cancelled-cons c cs [] h = tt
Cancelled-cons c cs (e ∷ es) (i, h) = (inr i, Cancelled-cons c cs es h)

-- Every engine but the newest; also the newest between its cancellation and its replacement.
abbrev pub ButNewest : List ℕ → List ℕ → Type 0
ButNewest cs [] = Unit
ButNewest cs (e ∷ es) = Cancelled cs es

abbrev pub Tokens : Updater → List ℕ → List ℕ → Type 0
Tokens receiving cs es = ButNewest cs es
Tokens (storing new) cs es = Cancelled cs es
Tokens reporting cs es = ButNewest cs es

ButNewest-cons : (c : ℕ) (cs es : List ℕ) → ButNewest cs es → ButNewest (c ∷ cs) es
ButNewest-cons c cs [] h = tt
ButNewest-cons c cs (e ∷ es) h = Cancelled-cons c cs es h

Tokens-cons : (c : ℕ) (u : Updater) (cs es : List ℕ) → Tokens u cs es → Tokens u (c ∷ cs) es
Tokens-cons c receiving cs es h = ButNewest-cons c cs es h
Tokens-cons c (storing new) cs es h = Cancelled-cons c cs es h
Tokens-cons c reporting cs es h = ButNewest-cons c cs es h

-- What each phase has logged, the reloads aside.
abbrev pub Started : (List Event → Type 0)
Started es = (address : Bytes) × (ms : ℕ) × (o : StartupOptions) × (es ≡ started address ms o ∷ [])

abbrev pub Stopping : (List Event → Type 0)
Stopping es =
    (address : Bytes) × (ms : ℕ) × (o : StartupOptions) × (n : ℕ) × (es
      ≡ started address ms o ∷ stopping (suc n) ∷ [])

abbrev pub Logged : Phase → List Event → Type 0
Logged waiting es = es ≡ []
Logged binding es = es ≡ []
Logged failed es = es ≡ []
Logged accepting es = Started es
Logged breaking es = Started es
Logged counting es = Started es
Logged draining es = Stopping es
Logged returned es =
    (before : List Event) × (last : Event) × (es ≡ before ++ last ∷ [])
    × (((before ≡ []) ⊎ (Started before ⊎ Stopping before)) × (last ≡ stopped)
        ⊎ Stopping before × (last ≡ stop_timed_out))

abbrev pub lifecycle : Event → Bool
lifecycle reloaded = false
lifecycle _ = true

abbrev pub Sound : Server → Type 0
Sound s = Tokens s.updater s.cancelled s.engines × Logged s.phase (filter lifecycle s.events)

-- To cancel the newest completes it.
pub complete_cancellation :
    (cs es : List ℕ) (e : ℕ) (rest : List ℕ)
    → es ≡ e ∷ rest
    → ButNewest cs es
    → Cancelled (e ∷ cs) es
complete_cancellation cs es e rest q h =
    subst (Cancelled (e ∷ cs)) (sym q)
      (inl refl, Cancelled-cons e cs rest (subst (ButNewest cs) q h))

add_event :
    (P : List Event → Type 0) (es : List Event) (e : Event)
    → P (filter lifecycle es ++ filter lifecycle (e ∷ []))
    → P (filter lifecycle (es ++ e ∷ []))
add_event P es e h = subst P (sym (filter-append lifecycle es (e ∷ []))) h

at_phase : (p q : Phase) (es : List Event) → p ≡ q → Logged p es → Logged q es
at_phase p q es h l = subst (λ x. Logged x es) h l

at_updater : (u v : Updater) (cs es : List ℕ) → u ≡ v → Tokens u cs es → Tokens v cs es
at_updater u v cs es h k = subst (λ x. Tokens x cs es) h k

-- `serve` returns, with what it logs last.
Logged-stopped :
    (es : List Event)
    → (es ≡ []) ⊎ (Started es ⊎ Stopping es)
    → Logged returned (es ++ stopped ∷ [])
Logged-stopped es h = (es, stopped, refl, inl (h, refl))

Step-Sound : (s t : Server) → Sound s → Step s t → Sound t
Step-Sound s t (k, l) (first_engine e q) = (tt, at_phase s.phase waiting _ q l)
Step-Sound s t (k, l) (stop_waiting q) = (
  k,
  add_event (Logged returned) s.events stopped
      (Logged-stopped _ (inl (at_phase s.phase waiting _ q l))),
)
Step-Sound s t (k, l) (no_engine q) = (k, at_phase s.phase waiting _ q l)
Step-Sound s t (k, l) (bind_failed q) = (k, at_phase s.phase binding _ q l)
Step-Sound s t (k, l) (bound address ms o q) = (
  k,
  add_event Started s.events (started address ms o)
      (address, ms, o, ap (λ es. es ++ started address ms o ∷ []) (at_phase s.phase binding _ q l)),
)
Step-Sound s t (k, l) (cancel_old new e es q r) =
    let old = at_updater s.updater receiving s.cancelled s.engines q k in
    (complete_cancellation s.cancelled s.engines e es r old, l)
Step-Sound s t (k, l) (store_new new q) =
    (at_updater s.updater (storing new) s.cancelled s.engines q k, l)
Step-Sound s t (k, l) (log_reloaded q) = (
  at_updater s.updater reporting s.cancelled s.engines q k,
  add_event (Logged s.phase) s.events reloaded
      (subst (Logged s.phase) (sym (append-nil (filter lifecycle s.events))) l),
)
Step-Sound s t (k, l) (accept_connection q) = (k, l)
Step-Sound s t (k, l) (end_connection n q) = (k, l)
Step-Sound s t (k, l) (shutdown q) = (k, at_phase s.phase accepting _ q l)
Step-Sound s t (k, l) (cancel_current e es q r) =
    (Tokens-cons e s.updater s.cancelled s.engines k, at_phase s.phase breaking _ q l)
Step-Sound s t (k, l) (none_inflight q r) = (
  k,
  add_event (Logged returned) s.events stopped
      (Logged-stopped _ (inr (inl (at_phase s.phase counting _ q l)))),
)
Step-Sound s t (k, l) (some_inflight n q r) =
    let (address, ms, o, e) = at_phase s.phase counting _ q l in
    (
      k,
      add_event Stopping s.events (stopping (suc n))
          (address, ms, o, n, ap (λ es. es ++ stopping (suc n) ∷ []) e),
    )
Step-Sound s t (k, l) (drained q r) = (
  k,
  add_event (Logged returned) s.events stopped
      (Logged-stopped _ (inr (inr (at_phase s.phase draining _ q l)))),
)
Step-Sound s t (k, l) (time_out q) = (
  k,
  add_event (Logged returned) s.events stop_timed_out
      (_, stop_timed_out, refl, inr (at_phase s.phase draining _ q l, refl)),
)

-- However the steps of the server and of the task that swaps in engines interleave: the streams of every engine but
-- the newest are cancelled, and between the cancellation of an engine and the storing of the next also those of the
-- newest; and the events that are logged, the reloads aside, are `started` once it accepts connections, `stopping`
-- with the number in flight, which is not 0, once it waits for them, and when it has returned, exactly one `stopped`
-- or, only behind `stopping`, `stop_timed_out`, as the last of them.
pub Reach-Sound : (s : Server) → Reach start s → Sound s
Reach-Sound s here = (tt, refl)
Reach-Sound s (later {t = t} r st) = Step-Sound t s (Reach-Sound t r) st
