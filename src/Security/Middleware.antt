-- ===== src/Security/Middleware.antt =====
-- internal/security/security.go: `Middleware`, which every request passes before the file handler.
-- The response is screened here, and what is behind it (`next`) is a parameter.
pub mod Rooted
pub mod Keeping
pub mod Screening
pub mod Safety
pub mod Passing
pub mod Cors
use static_web.Prelude.{
  ℕ, Bool, true, false, not, ◌&&◌, ◌||◌, Option, none, some, List, [], ◌∷◌, ◌++◌, Bytes, codes,
  ◌==◌, if◌then◌else◌, length,
}
use static_web.Strings.{bytes_eq, is_empty, contains_byte}
use static_web.Platform.{Platform}
use static_web.Lru.{Lru}
use static_web.Config.{SecurityConfig}
use static_web.Http.{
  Method, get, head, options, other, Http, Request, HeaderName, origin, content_type, allow,
  content_type_options, frame_options, content_security_policy, referrer_policy, permissions_policy,
  allow_origin, allow_methods, allow_headers, max_age,
}
use static_web.Headers.Caching.{add_vary}
use static_web.Security.{
  PathError, null_byte, path_traversal, dotfile, Result, ok, err, Evaluated, real, missing, denied,
  path_safe, lookup, store, real_root,
}

abbrev pub allowed_methods : Bytes
allowed_methods = codes "GET, HEAD, OPTIONS"

abbrev pub is_wildcard : List Bytes → Bool
is_wildcard [] = false
is_wildcard (o ∷ []) = bytes_eq o (b'*' ∷ [])
is_wildcard (o ∷ o' ∷ os) = false

unfoldable pub origin_allowed : Bytes → List Bytes → Bool
origin_allowed from [] = false
origin_allowed from (o ∷ os) = bytes_eq o from || origin_allowed from os

abbrev pub unless_empty : HeaderName → Bytes → List (HeaderName × Bytes)
unless_empty name value = if is_empty value then [] else (name, value) ∷ []

-- `staticHeaders`.
abbrev pub static_headers : SecurityConfig → List (HeaderName × Bytes)
static_headers cfg =
    (content_type_options, codes "nosniff")
    ∷ (frame_options, codes "SAMEORIGIN")
    ∷ (unless_empty content_security_policy cfg.csp
        ++ (unless_empty referrer_policy cfg.referrer_policy
            ++ unless_empty permissions_policy cfg.permissions_policy))

-- `pathErr.Error()`.
abbrev pub error_text : PathError → Bytes
error_text null_byte = codes "path contains null byte"
error_text path_traversal = codes "path traversal detected"
error_text dotfile = codes "dotfile access denied"

abbrev pub is_options : Method → Bool
is_options options = true
is_options get = false
is_options head = false
is_options other = false

abbrev pub is_served : Method → Bool
is_served get = true
is_served head = true
is_served options = true
is_served other = false

-- What the middleware decides: it has answered, or the request goes on with the safe path.
pub data Screened (R : Type 0) : Type 0 where
  answered : R → Screened R
  passed : Bytes → R → Screened R

module _ (http : Http) where
  open http use {Response, set_header, set_status, set_body}

  unfoldable pub set_all : List (HeaderName × Bytes) → Response → Response
  set_all [] r = r
  set_all ((name, value) ∷ hs) r = set_all hs (set_header name value r)

  -- `sendError`.
  abbrev pub send_error : Bytes → ℕ → Response → Response
  send_error message code r =
      set_header content_type (codes "text/plain; charset=utf-8")
        (set_body message (set_status code r))

  -- The switch over `pathErr`.
  abbrev pub send_path_error : PathError → Response → Response
  send_path_error null_byte r = send_error (codes "Bad Request: " ++ error_text null_byte) 400 r
  send_path_error path_traversal r =
      send_error (codes "Forbidden: " ++ error_text path_traversal) 403 r
  send_path_error dotfile r = send_error (codes "Forbidden: " ++ error_text dotfile) 403 r

  -- The answer to a preflight request.
  abbrev pub preflight : Response → Response
  preflight r = set_status 204 (
      set_header max_age (codes "86400") (
        set_header allow_headers (codes "Accept, Accept-Encoding, Range")
          (set_header allow_methods allowed_methods r)))

-- The safe path from the path cache, or from `pathSafe`, whose result is stored if the path exists.
module _ (lru : Lru Bytes) where
  unfoldable pub resolve_uncached :
      (Bytes → Evaluated) → SecurityConfig → Bytes → Bytes → lru.Store → Result Bytes × lru.Store
  resolve_uncached eval_symlinks cfg abs_root url_path pc =
      elim (path_safe eval_symlinks url_path abs_root cfg.block_dotfiles) [
        | err e ↦ (err e, pc)
        | ok (safe_path, true) ↦ (ok safe_path, store lru url_path safe_path pc)
        | ok (safe_path, false) ↦ (ok safe_path, pc)
      ]

  unfoldable pub resolve_cached :
      (Bytes → Evaluated) → SecurityConfig → Bytes → Bytes → lru.Store → Result Bytes × lru.Store
  unfolding resolve_uncached lookup
  resolve_cached eval_symlinks cfg abs_root url_path pc =
      let (found, pc') = lookup lru url_path pc in
      elim found [
        | none ↦ resolve_uncached eval_symlinks cfg abs_root url_path pc'
        | some cached ↦
            if is_empty cached
            then resolve_uncached eval_symlinks cfg abs_root url_path pc'
            else (ok cached, pc')
      ]

module _ (os : Platform) (http : Http) where
  open http use {Response, set_header, set_status}

  -- The CORS block: whether the request is answered by it. An empty list allows no origin.
  unfoldable pub apply_cors : SecurityConfig → Request → Response → Bool × Response
  unfolding origin_allowed
  apply_cors cfg req r =
      let from = req.header origin in
      let any = set_header allow_origin (b'*' ∷ []) r in
      let one = add_vary os http (codes "Origin") (set_header allow_origin from r) in
      if is_empty from
      then (false, r)
      else if is_wildcard cfg.cors_origins
      then (is_options req.method, if is_options req.method then preflight http any else any)
      else if origin_allowed from cfg.cors_origins
      then (is_options req.method, if is_options req.method then preflight http one else one)
      else (false, r)

  -- Behind the CORS block: plain OPTIONS is answered, the rest goes on.
  abbrev pub conclude : Request → Bytes → Bool × Response → Screened Response
  conclude req safe_path (true, r) = answered r
  conclude req safe_path (false, r) =
      if is_options req.method then answered (set_status 204 r) else passed safe_path r

  abbrev pub with_allow : Request → Response → Response
  with_allow req r = if is_options req.method then set_header allow allowed_methods r else r

  -- The end of the handler, behind a safe path.
  unfoldable pub finish : SecurityConfig → Request → Bytes → Response → Screened Response
  unfolding apply_cors
  finish cfg req safe_path r = conclude req safe_path (apply_cors cfg req (with_allow req r))

  -- The checks before the path is looked at, on a response with the static headers.
  unfoldable pub screen_request : Request → Response → Option Response
  screen_request req r =
      if contains_byte 0 req.request_uri
      then some (send_error http (codes "Bad Request: path contains null byte") 400 r)
      else if not (is_served req.method)
      then some
          (send_error http (codes "Method Not Allowed") 405 (set_header allow allowed_methods r))
      else none

  module _ (lru : Lru Bytes) (eval_symlinks : Bytes → Evaluated) where
    -- Behind the safe path, or the error instead of it.
    abbrev pub proceed :
        SecurityConfig
        → Request
        → Response
        → Result Bytes × lru.Store
        → lru.Store × Screened Response
    proceed cfg req r (err e, pc) = (pc, answered (send_path_error http e r))
    proceed cfg req r (ok safe_path, pc) = (pc, finish cfg req safe_path r)

    -- The handler up to the call of `next`, with a path cache.
    unfoldable pub screen :
        SecurityConfig → Bytes → Request → lru.Store → Response → lru.Store × Screened Response
    unfolding screen_request resolve_cached finish set_all
    screen cfg abs_root req pc r =
        let r0 = set_all http (static_headers cfg) r in
        elim (screen_request req r0) [
          | some refused ↦ (pc, answered refused)
          | none ↦ proceed cfg req r0 (resolve_cached lru eval_symlinks cfg abs_root req.path pc)
        ]

    -- The whole handler with a path cache, so `next` gets no path. The handler behind has a state of
    -- its own.
    unfoldable pub middleware :
        {S : Type 0}
        → (Request → lru.Store × S → Response → (lru.Store × S) × Response)
        → SecurityConfig
        → Bytes
        → Request
        → lru.Store × S
        → Response
        → (lru.Store × S) × Response
    unfolding screen
    middleware next cfg root req (pc, s) r =
        let (pc', screened) = screen cfg (real_root eval_symlinks root) req pc r in
        elim screened [ answered r' ↦ ((pc', s), r') | passed safe_path r' ↦ next req (pc', s) r' ]
