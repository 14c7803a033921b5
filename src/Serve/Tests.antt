-- ===== src/Serve/Tests.antt =====
-- A server with one reload and one connection.
use http_nu.Common.{List, map, some, codes, inl, arith, ◌≤◌, ◌≡◌, refl, false, none, [], ◌∷◌}
use http_nu.Logging.Human.{StartupOptions, started, reloaded}
use http_nu.Serve.{
  Server, start, breaking, returned, receiving, first_engine, bound, cancel_old, store_new,
  log_reloaded, accept_connection, shutdown, Reach, here, later,
}
use http_nu.Compression.{new_stream}
use http_nu.Compression.Whole.{polls}
use http_nu.Compression.Broken.{Reported}
use http_nu.Compression.Instance.{copying}
use http_nu.Logging.Body.{ready_err}
use http_nu.Handler.Cancel.{
  FromWorker, data_sent, nothing_yet, sse_cancelled, sse_items, plain_poll, first_end,
}
use http_nu.Serve.Streams.{seen_by, seen_by-replaced}
use http_nu.Serve.Order.{Sound, Cancelled, Reach-Sound}
use http_nu.Serve.Shutdown.{closed, closed-Cancelled}

abbrev options : StartupOptions
options = record {
  watch = false;
  tls = none;
  store = none;
  topic = none;
  expose = none;
  services = false;
  datastar = false;
}

abbrev reloaded_once : Server
reloaded_once = record {
  phase = breaking;
  updater = receiving;
  engines = 2 ∷ 1 ∷ [];
  cancelled = 1 ∷ [];
  connections = 1;
  events = started [] 9 options ∷ reloaded ∷ [];
}

abbrev reached : Reach start reloaded_once
reached =
    later
      (later
        (later
          (later
            (later (later (later here (first_engine 1 refl)) (bound [] 9 options refl))
              (cancel_old 2 1 [] refl refl))
            (store_new 2 refl))
          (log_reloaded refl))
        (accept_connection refl))
      (shutdown refl)

Reach-Sound_example : Sound reloaded_once
Reach-Sound_example = Reach-Sound reloaded_once reached

closed-Cancelled_example :
    Cancelled (2 ∷ 1 ∷ []) (2 ∷ 1 ∷ [])
    × (1 ≤ 1)
    × ((u : Server) × Reach (closed 2 reloaded_once) u × (u.phase ≡ returned))
closed-Cancelled_example =
    closed-Cancelled reloaded_once (closed 2 reloaded_once) 2 (1 ∷ []) reached refl refl here

-- A stream of the first engine, polled before the reload and behind it.
abbrev polled : List (Server × FromWorker)
polled = (start, data_sent (codes "data: 1\n\n")) ∷ (reloaded_once, nothing_yet) ∷ []

seen_by-replaced_example :
    (first_end (map plain_poll (sse_items (seen_by 1 polled))) ≡ some (ready_err sse_cancelled))
    × Reported copying sse_cancelled
        (polls copying 4 (new_stream copying (sse_items (seen_by 1 polled)) [])).0
unfolding sse_items
seen_by-replaced_example =
    seen_by-replaced copying [] 1 2 (1 ∷ []) ((start, data_sent (codes "data: 1\n\n")) ∷ []) []
      reloaded_once nothing_yet 4 reached refl (inl refl) (refl, tt) (omega arith)
