-- ===== src/Server/Signals.antt =====
-- internal/server/signals.go: `RunSignalHandler` over the events that reach its `select`.
pub mod Steps
use static_web.Prelude.{
  ℕ, ◌*◌, ◌^◌, ℤ, pos, Bool, true, false, Option, none, some, List, [], ◌∷◌, if◌then◌else◌, lt_int,
  Bytes,
}
use static_web.Config.{Config}
use static_web.Lru.{Lru}
use static_web.Cache.{Entry, Cache}
use static_web.Cache
use static_web.Security

-- What the `select` takes next: the context is cancelled, or a signal comes. What `reload` gives at
-- that time stands with SIGHUP; `none` is an error.
pub data Event : Type 0 where
  cancelled sigterm sigint : Event
  sighup : Option Config → Event

-- How the loop ends: by the context, or by a signal, with the timeout that the shutdown is given.
pub data Ending : Type 0 where
  left : Ending
  shut_down : ℤ → Ending

-- `handleShutdown`: the timeout.
unfoldable pub shutdown_timeout : Config → ℤ
shutdown_timeout cfg =
    if lt_int (pos 0) cfg.server.shutdown_timeout
    then cfg.server.shutdown_timeout
    else pos (15 * 10 ^ 9)

module _ (lru : Lru Entry) (paths : Lru Bytes) where
  -- What the signal handler shares with the rest of the program.
  pub record Shared : Type 0 where
    pub cfg : Config
    pub cache : Option (Cache lru)
    pub path_cache : Option paths.Store

  -- Both caches are emptied, those that are there.
  unfoldable pub flush_all : Shared → Shared
  flush_all s = record s {
    cache = elim s.cache [ none ↦ none | some c ↦ some (Cache.flush lru c) ];
    path_cache = elim s.path_cache [ none ↦ none | some pc ↦ some (Security.flush paths pc) ];
  }

  -- `handleHUP`; `has_reload` is whether there is a `reload` function.
  unfoldable pub handle_hup : Bool → Option Config → Shared → Shared
  unfolding flush_all
  handle_hup false loaded s = flush_all s
  handle_hup true none s = s
  handle_hup true (some cfg) s = flush_all (record s { cfg = cfg })

  -- `RunSignalHandler`: `none` is that the loop still waits after the events.
  unfoldable pub run : Bool → List Event → Shared → Option Ending × Shared
  unfolding handle_hup shutdown_timeout
  run has_reload [] s = (none, s)
  run has_reload (cancelled ∷ es) s = (some left, s)
  run has_reload (sigterm ∷ es) s = (some (shut_down (shutdown_timeout s.cfg)), s)
  run has_reload (sigint ∷ es) s = (some (shut_down (shutdown_timeout s.cfg)), s)
  run has_reload (sighup loaded ∷ es) s = run has_reload es (handle_hup has_reload loaded s)
