-- ===== src/Handler/Chain.antt =====
-- internal/handler: `NewFileHandler` and `BuildHandler`, the chain of everything that a request passes.
pub mod Serving
use static_web.Prelude.{
  ℕ, ℤ, Bool, true, false, Option, none, some, List, [], ◌∷◌, Bytes, codes, if◌then◌else◌,
}
use static_web.Strings.{bytes_eq, is_empty}
use static_web.Platform.{Platform}
use static_web.Config.{Config}
use static_web.Http.{Http, Request}
use static_web.Lru.{Lru}
use static_web.Cache.{Entry, Cache}
use static_web.Compress.Gzip.{compressed}
use static_web.Security.{PathError, Result, ok, err, Evaluated, path_safe, real_root}
use static_web.Security.Middleware.{Screened, answered, passed}
use static_web.Security.Middleware.Rooted.{screen_either}
use static_web.Handler.Kinds.{detect_content_type}
use static_web.Handler.Disk.{Opened, opened, locked, unreadable, Disk, Site, Moment}
use static_web.Handler.Requests.{safe_path, handle_request}
use static_web.Handler.Logging.{Outcome, done, panicked, with_logging, with_recovery}

-- `loadCustomNotFoundPage` and `NewFileHandler`, without the caches.
module _ (os : Platform) where
  -- The page, with its type.
  abbrev pub page_of : Bytes → Opened → Option (Bytes × Bytes)
  page_of path (opened content) =
      let media = detect_content_type os path (some content) in
      some (
        content,
        if bytes_eq media (codes "application/octet-stream")
            then codes "text/html; charset=utf-8"
            else media,
      )
  page_of path locked = none
  page_of path unreadable = none

  unfoldable pub load_custom_not_found_page : Disk → Config → Bytes → Option (Bytes × Bytes)
  unfolding path_safe
  load_custom_not_found_page disk cfg abs_root =
      if is_empty cfg.files.not_found
      then none
      else elim (path_safe disk.files.eval_symlinks cfg.files.not_found abs_root false) [
        | err e ↦ none
        | ok (path, exists) ↦ page_of path (disk.read_file path)
      ]

  abbrev pub root_of : Config → Option Bytes → Bytes
  root_of cfg none = cfg.files.root
  root_of cfg (some root) = root

  -- `abs` is `filepath.Abs`, whose error leaves the root as it is.
  unfoldable pub new_file_handler :
      (Bytes → Option Bytes) → (Bytes → Option Bytes) → Disk → Config → Site
  unfolding load_custom_not_found_page
  new_file_handler embedded abs disk cfg = record {
    cfg = cfg;
    abs_root = root_of cfg (abs cfg.files.root);
    not_found = load_custom_not_found_page disk cfg (root_of cfg (abs cfg.files.root));
    embedded = embedded;
  }

module _ (os : Platform) (http : Http) (lru : Lru Entry) (paths : Lru Bytes) where
  open http use {Response}

  -- What the requests share: the path cache and the file cache, where they are on.
  abbrev pub Caches : Type 0
  Caches = Option paths.Store × Option (Cache lru)

  module _ (list_directory : Request → Bytes → Bytes → Response → Response) where
    -- The compression around the file handler, which is given the safe path.
    unfoldable pub serve_compressed :
        Disk → Site → Moment → Bytes → Request → Caches → Response → Caches × Response
    unfolding handle_request
    serve_compressed disk site moment user_value =
        compressed os http site.cfg.compression
          (handle_request os http lru list_directory paths disk site moment user_value)

    -- Behind the security middleware: the answer is there, or the request goes on.
    abbrev pub pass_on :
        Disk → Site → Moment → Bytes → Request → Caches → Screened Response → Caches × Response
    pass_on disk site moment user_value req s (answered r) = (s, r)
    pass_on disk site moment user_value req s (passed path r) =
        serve_compressed disk site moment user_value req s r

    -- The path goes to the file handler only where there is no path cache.
    abbrev pub user_value_of : Option paths.Store → Screened Response → Bytes
    user_value_of (some pc) screened = []
    user_value_of none (answered r) = []
    user_value_of none (passed path r) = path

    -- The chain from the security middleware on, where `filepath.Abs` of the root succeeds.
    unfoldable pub serve_secured :
        Disk → Site → Moment → Request → Caches → Response → Caches × Response
    unfolding screen_either serve_compressed
    serve_secured disk site moment req (pc, c) r =
        let (pc', screened) =
          screen_either os http disk.files.eval_symlinks paths site.cfg.security
            (real_root disk.files.eval_symlinks site.abs_root) req pc r in
        pass_on disk site moment (user_value_of pc screened) req (pc', c) screened

    module _ (format_duration : ℤ → Bytes) (method_text : Request → Bytes)
        (declared_length : Response → ℤ) where
      -- `buildHandlerWithLogger`: recovery, logging unless it is quiet, and the rest. The log here is
      -- that of the access lines: what the handlers print besides to the same logger, for large or
      -- unreadable files and failed listings, is left out.
      unfoldable pub build_handler :
          Bool
          → Disk
          → Site
          → Moment
          → ℤ
          → Request
          → List Bytes × Caches
          → Response
          → (List Bytes × Caches) × Response
      unfolding serve_secured with_logging with_recovery
      build_handler quiet disk site moment duration = with_recovery http (
          if quiet
          then (λ req (lines, s) r.
              let (s', r') = serve_secured disk site moment req s r in done (lines, s') r')
          else with_logging format_duration http method_text declared_length
              (λ req s r. let (s', r') = serve_secured disk site moment req s r in done s' r')
              duration)
