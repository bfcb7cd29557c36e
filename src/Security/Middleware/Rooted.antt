-- ===== src/Security/Middleware/Rooted.antt =====
-- internal/security/security.go: `Middleware` up to the call of `next`, with and without a path
-- cache, and where `filepath.Abs` of the root fails.
use static_web.Prelude.{Bool, Option, none, some, Bytes, codes}
use static_web.Platform.{Platform}
use static_web.Lru.{Lru}
use static_web.Config.{SecurityConfig}
use static_web.Http.{Http, Request}
use static_web.Security.{Result, ok, err, Evaluated, path_safe, real_root}
use static_web.Security.Middleware.{
  Screened, answered, static_headers, set_all, screen_request, send_path_error, finish, screen,
}

module _ (os : Platform) (http : Http) (eval_symlinks : Bytes → Evaluated) where
  open http use {Response, error}

  -- Behind `pathSafe`.
  abbrev pub proceed_uncached :
      SecurityConfig → Request → Response → Result (Bytes × Bool) → Screened Response
  proceed_uncached cfg req r (err e) = answered (send_path_error http e r)
  proceed_uncached cfg req r (ok (path, exists)) = finish os http cfg req path r

  -- The handler without a path cache: the safe path goes to the handler behind.
  unfoldable pub screen_uncached : SecurityConfig → Bytes → Request → Response → Screened Response
  unfolding set_all screen_request finish path_safe
  screen_uncached cfg abs_root req r =
      let r0 = set_all http (static_headers cfg) r in
      elim (screen_request os http req r0) [
        | some refused ↦ answered refused
        | none ↦
            proceed_uncached cfg req r0
              (path_safe eval_symlinks req.path abs_root cfg.block_dotfiles)
      ]

  module _ (lru : Lru Bytes) where
    -- The handler, whether there is a path cache or not.
    unfoldable pub screen_either :
        SecurityConfig
        → Bytes
        → Request
        → Option lru.Store
        → Response
        → Option lru.Store × Screened Response
    unfolding screen screen_uncached
    screen_either cfg abs_root req none r = (none, screen_uncached cfg abs_root req r)
    screen_either cfg abs_root req (some pc) r =
        let (pc', screened) = screen os http lru eval_symlinks cfg abs_root req pc r in
        (some pc', screened)

    -- The handler for the configured root; `abs` is `filepath.Abs`.
    unfoldable pub screen_rooted :
        (Bytes → Option Bytes)
        → SecurityConfig
        → Bytes
        → Request
        → Option lru.Store
        → Response
        → Option lru.Store × Screened Response
    unfolding screen_either
    screen_rooted abs cfg root req pc r = elim (abs root) [
      | none ↦ (pc, answered (error (codes "Internal Server Error: invalid root path") 500 r))
      | some abs_root ↦ screen_either cfg (real_root eval_symlinks abs_root) req pc r
    ]
