-- ===== src/Server/Signals/Steps.antt =====
-- internal/server/signals.go: runs of the signal handler over sequences of events.
use static_web.Prelude.{true, Option, none, some, List, [], ◌∷◌, ◌++◌, map, ◌≡◌, refl, Bytes}
use static_web.Config.{Config}
use static_web.Lru.{Lru}
use static_web.Cache.{Entry}
use static_web.Server.Signals.{
  Event, cancelled, sigterm, sigint, sighup, Ending, shut_down, shutdown_timeout, Shared,
  handle_hup, flush_all, run,
}

-- The configuration that was loaded last.
pub latest : Config → List (Option Config) → Config
latest cfg [] = cfg
latest cfg (none ∷ rs) = latest cfg rs
latest cfg (some c ∷ rs) = latest c rs

-- The events without the reloads that fail.
pub without_failed : List Event → List Event
without_failed [] = []
without_failed (cancelled ∷ es) = cancelled ∷ without_failed es
without_failed (sigterm ∷ es) = sigterm ∷ without_failed es
without_failed (sigint ∷ es) = sigint ∷ without_failed es
without_failed (sighup none ∷ es) = without_failed es
without_failed (sighup (some c) ∷ es) = sighup (some c) ∷ without_failed es

module _ (lru : Lru Entry) (paths : Lru Bytes) where
  abbrev pub TimesOut : Config → Option Ending × Shared lru paths → Type 0
  TimesOut cfg (e, s) = (e ≡ some (shut_down (shutdown_timeout cfg))) × (s.cfg ≡ cfg)

  -- However many reloads SIGHUP has asked for before, and whether they failed or not, the signal
  -- handler ends at a SIGTERM, and the shutdown gets the timeout of the configuration that was
  -- loaded last.
  pub run-latest :
      (rs : List (Option Config)) (es : List Event) (s : Shared lru paths)
      → TimesOut (latest s.cfg rs) (run lru paths true (map sighup rs ++ sigterm ∷ es) s)
  unfolding run handle_hup flush_all latest
  run-latest [] es s = (refl, refl)
  run-latest (none ∷ rs) es s = run-latest rs es s
  run-latest (some c ∷ rs) es s = run-latest rs es (flush_all lru paths (record s { cfg = c }))

  -- A reload that fails is without effect on the configuration, the caches and the end of the
  -- signal handler: any sequence of events does what it does without its failed reloads.
  pub run-without_failed :
      (es : List Event) (s : Shared lru paths)
      → run lru paths true es s ≡ run lru paths true (without_failed es) s
  unfolding run handle_hup without_failed
  run-without_failed [] s = refl
  run-without_failed (cancelled ∷ es) s = refl
  run-without_failed (sigterm ∷ es) s = refl
  run-without_failed (sigint ∷ es) s = refl
  run-without_failed (sighup none ∷ es) s = run-without_failed es s
  run-without_failed (sighup (some c) ∷ es) s =
      run-without_failed es (handle_hup lru paths true (some c) s)
