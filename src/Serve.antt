-- ===== src/Serve.antt =====
-- src/main.rs, `serve`: the accept loop and the shutdown, beside the task that swaps in new
-- engines. An engine is the number of its cancellation token; the tasks' steps come in any order.
-- A connection that cannot be accepted changes nothing.
pub mod Order
pub mod Shutdown
pub mod Streams
mod Tests
use http_nu.Common.{ℕ, zero, suc, ◌≡◌, List, [], ◌∷◌, ◌++◌, Bytes}
use http_nu.Logging.Human.{
  Event, started, reloaded, stopping, stopped, stop_timed_out, StartupOptions,
}

-- Where `serve` stands: it waits for the first engine, binds, accepts, is behind the loop, has
-- cancelled the streams, waits for the connections, has returned, or has failed.
pub data Phase : Type 0 where
  waiting : Phase
  binding : Phase
  accepting : Phase
  breaking : Phase
  counting : Phase
  draining : Phase
  returned : Phase
  failed : Phase

-- Where the updater stands: it waits, has cancelled the old engine, or has stored the new one.
pub data Updater : Type 0 where
  receiving : Updater
  storing : ℕ → Updater
  reporting : Updater

pub record Server : Type 0 where
  pub phase : Phase
  pub updater : Updater
  -- What was stored, the newest first: that one is what `engine.load()` gives.
  pub engines : List ℕ
  pub cancelled : List ℕ
  -- `graceful.count()`.
  pub connections : ℕ
  pub events : List Event

abbrev pub start : Server
start = record {
  phase = waiting;
  updater = receiving;
  engines = [];
  cancelled = [];
  connections = 0;
  events = [];
}

-- An event that is logged on the way to a phase.
abbrev pub log_to : Phase → Event → Server → Server
log_to p e s = record s { phase = p; events = s.events ++ e ∷ [] }

pub data Step (s : Server) : Server → Type 0 where
  -- The updater is spawned.
  first_engine :
      (e : ℕ)
      → s.phase ≡ waiting
      → Step s (record s { phase = binding; updater = receiving; engines = e ∷ [] })
  stop_waiting : s.phase ≡ waiting → Step s (log_to returned stopped s)
  -- The source is closed without an engine, and `expect` panics.
  no_engine : s.phase ≡ waiting → Step s (record s { phase = failed })
  bind_failed : s.phase ≡ binding → Step s (record s { phase = failed })
  bound :
      (address : Bytes) (ms : ℕ) (o : StartupOptions)
      → s.phase ≡ binding
      → Step s (log_to accepting (started address ms o) s)
  -- The updater's three.
  cancel_old :
      (new e : ℕ) (es : List ℕ)
      → s.updater ≡ receiving
      → s.engines ≡ e ∷ es
      → Step s (record s { updater = storing new; cancelled = e ∷ s.cancelled })
  store_new :
      (new : ℕ)
      → s.updater ≡ storing new
      → Step s (record s { updater = reporting; engines = new ∷ s.engines })
  log_reloaded :
      s.updater ≡ reporting
      → Step s (record s { updater = receiving; events = s.events ++ reloaded ∷ [] })
  accept_connection : s.phase ≡ accepting → Step s (record s { connections = suc s.connections })
  end_connection : (n : ℕ) → s.connections ≡ suc n → Step s (record s { connections = n })
  shutdown : s.phase ≡ accepting → Step s (record s { phase = breaking })
  cancel_current :
      (e : ℕ) (es : List ℕ)
      → s.phase ≡ breaking
      → s.engines ≡ e ∷ es
      → Step s (record s { phase = counting; cancelled = e ∷ s.cancelled })
  none_inflight : s.phase ≡ counting → s.connections ≡ zero → Step s (log_to returned stopped s)
  some_inflight :
      (n : ℕ)
      → s.phase ≡ counting
      → s.connections ≡ suc n
      → Step s (log_to draining (stopping (suc n)) s)
  drained : s.phase ≡ draining → s.connections ≡ zero → Step s (log_to returned stopped s)
  time_out : s.phase ≡ draining → Step s (log_to returned stop_timed_out s)

-- Any number of steps.
pub data Reach (s : Server) : Server → Type 0 where
  here : Reach s s
  later : {t u : Server} → Reach s t → Step t u → Reach s u
