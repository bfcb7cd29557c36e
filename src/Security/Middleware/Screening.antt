-- ===== src/Security/Middleware/Screening.antt =====
-- What holds of every response and of every request that passes `Middleware`.
use static_web.Prelude.{◌≡◌, true, Bool, Option, none, some, Bytes, Option-cases, inl, inr}
use static_web.Platform.{Platform}
use static_web.Lru.{Lru}
use static_web.Config.{SecurityConfig}
use static_web.Http.{Http, Request, HeaderName}
use static_web.Security.{Result, ok, err, Evaluated, path_safe, real_root}
use static_web.Security.Middleware.{
  static_headers, set_all, resolve_cached, proceed, screen_request, screen,
}
use static_web.Security.Middleware.Rooted.{
  proceed_uncached, screen_uncached, screen_either, screen_rooted,
}
use static_web.Security.Middleware.Keeping.{
  is_static, response_of, IsSecured, keep-finish, keep-screen_request, keep-send_path_error,
  set_all-static_headers, IsSecured-same,
}

module _ (os : Platform) (http : Http) (lru : Lru Bytes) (eval_symlinks : Bytes → Evaluated) where
  open http use {Response, view}

  keep-proceed :
      (n : HeaderName) (cfg : SecurityConfig) (req : Request) (r : Response)
      (resolved : Result Bytes × lru.Store)
      → is_static n ≡ true
      → (view (response_of (proceed os http lru eval_symlinks cfg req r resolved).1)).headers n
        ≡ (view r).headers n
  keep-proceed n cfg req r (err e, pc) h = keep-send_path_error http n e r h
  keep-proceed n cfg req r (ok p, pc) h = keep-finish os http n cfg req p r h

  screen-IsSecured :
      (cfg : SecurityConfig) (abs_root : Bytes) (req : Request) (pc : lru.Store) (r : Response)
      → IsSecured cfg
          (view r)
          (view (response_of (screen os http lru eval_symlinks cfg abs_root req pc r).1))
  unfolding screen
  screen-IsSecured cfg abs_root req pc r =
      let r0 = set_all http (static_headers cfg) r in
      elim (Option-cases (screen_request os http req r0)) [
        | inr (refused, e) ↦
            rw (e, screen)
              (IsSecured-same http cfg (view r) (view r0) (view refused)
                (λ n h. keep-screen_request os http n req r0 refused h e)
                (set_all-static_headers http cfg r))
        | inl e ↦
            rw (e, screen)
              (IsSecured-same http cfg (view r) (view r0) _
                (λ n h.
                  keep-proceed n cfg req r0
                    (resolve_cached lru eval_symlinks cfg abs_root req.path pc) h)
                (set_all-static_headers http cfg r))
      ]

  keep-proceed_uncached :
      (n : HeaderName) (cfg : SecurityConfig) (req : Request) (r : Response)
      (resolved : Result (Bytes × Bool))
      → is_static n ≡ true
      → (view (response_of (proceed_uncached os http eval_symlinks cfg req r resolved))).headers n
        ≡ (view r).headers n
  keep-proceed_uncached n cfg req r (err e) h = keep-send_path_error http n e r h
  keep-proceed_uncached n cfg req r (ok (p, exists)) h = keep-finish os http n cfg req p r h

  screen_uncached-IsSecured :
      (cfg : SecurityConfig) (abs_root : Bytes) (req : Request) (r : Response)
      → IsSecured cfg
          (view r)
          (view (response_of (screen_uncached os http eval_symlinks cfg abs_root req r)))
  unfolding screen_uncached
  screen_uncached-IsSecured cfg abs_root req r =
      let r0 = set_all http (static_headers cfg) r in
      elim (Option-cases (screen_request os http req r0)) [
        | inr (refused, e) ↦
            rw (e, screen_uncached)
              (IsSecured-same http cfg (view r) (view r0) (view refused)
                (λ n h. keep-screen_request os http n req r0 refused h e)
                (set_all-static_headers http cfg r))
        | inl e ↦
            rw (e, screen_uncached)
              (IsSecured-same http cfg (view r) (view r0) _
                (λ n h.
                  keep-proceed_uncached n cfg req r0
                    (path_safe eval_symlinks req.path abs_root cfg.block_dotfiles) h)
                (set_all-static_headers http cfg r))
      ]

  screen_either-IsSecured :
      (cfg : SecurityConfig) (abs_root : Bytes) (req : Request) (pc : Option lru.Store)
      (r : Response)
      → IsSecured cfg
          (view r)
          (view (response_of (screen_either os http eval_symlinks lru cfg abs_root req pc r).1))
  unfolding screen_either
  screen_either-IsSecured cfg abs_root req none r = screen_uncached-IsSecured cfg abs_root req r
  screen_either-IsSecured cfg abs_root req (some pc) r = screen-IsSecured cfg abs_root req pc r

  -- Every response that the security middleware gives or hands on, with or without a path cache,
  -- has the two fixed security headers and each of the three others that is configured, refused
  -- requests, preflights and OPTIONS included, if filepath.Abs resolves the root.
  pub screen_rooted-IsSecured :
      (abs : Bytes → Option Bytes) (cfg : SecurityConfig) (root : Bytes) (req : Request)
      (pc : Option lru.Store) (r : Response) {abs_root : Bytes}
      → abs root ≡ some abs_root
      → IsSecured cfg
          (view r)
          (view (response_of (screen_rooted os http eval_symlinks lru abs cfg root req pc r).1))
  unfolding screen_rooted
  screen_rooted-IsSecured abs cfg root req pc r {abs_root = abs_root} h =
      rw (h, screen_rooted)
        (screen_either-IsSecured cfg (real_root eval_symlinks abs_root) req pc r)
