-- ===== src/Security/Middleware/Passing.antt =====
-- Which requests pass `Middleware`, with which path, and what the path cache is afterwards.
use static_web.Prelude.{
  ◌≡◌, refl, ap, Bool, true, false, none, List, Bytes, Bool-cases, Option-cases, inl, inr, ◌⊎◌,
}
use static_web.Strings.{contains_byte}
use static_web.Platform.{Platform}
use static_web.Lru.{Lru}
use static_web.Config.{SecurityConfig}
use static_web.Http.{Method, get, head, options, other, Http, Request}
use static_web.Security.{Result, ok, err, Evaluated}
use static_web.Security.Containment.{IsResolver, IsBelow}
use static_web.Security.Middleware.{
  passed, static_headers, set_all, resolve_cached, is_options, is_served, conclude, finish,
  screen_request, proceed, screen,
}
use static_web.Security.Middleware.Safety.{IsSafeStore, IsSafeResult, resolve_cached-IsSafe}

-- A request that may go on to the file handler.
pub record IsPassing (req : Request) (block : Bool) (rs : List Bytes) (p : Bytes) : Type 0 where
  pub no_null : contains_byte 0 req.request_uri ≡ false
  pub method : (req.method ≡ get) ⊎ (req.method ≡ head)
  pub below : IsBelow block rs p

get_or_head : (m : Method) → is_served m ≡ true → is_options m ≡ false → (m ≡ get) ⊎ (m ≡ head)
get_or_head get s o = inl refl
get_or_head head s o = inr refl
get_or_head options s o = absurd (cc)
get_or_head other s o = absurd (cc)

module _ (os : Platform) (http : Http) where
  open http use {Response, view}

  conclude-passed :
      (req : Request) (p q : Bytes) (c : Bool × Response) (r : Response)
      → conclude os http req p c ≡ passed q r
      → (p ≡ q) × (is_options req.method ≡ false)
  conclude-passed req p q (true, r') r e = absurd (cc)
  conclude-passed req p q (false, r') r e = elim (Bool-cases (is_options req.method)) [
    | inl o ↦ absurd (cc (rw o at e))
    | inr o ↦ (cc (rw o at e), o)
  ]

  finish-passed :
      (cfg : SecurityConfig) (req : Request) (p q : Bytes) (r r' : Response)
      → finish os http cfg req p r ≡ passed q r'
      → (p ≡ q) × (is_options req.method ≡ false)
  unfolding finish
  finish-passed cfg req p q r r' e = conclude-passed req p q _ r' e

  screen_request-none :
      (req : Request) (r : Response)
      → screen_request os http req r ≡ none
      → (contains_byte 0 req.request_uri ≡ false) × (is_served req.method ≡ true)
  unfolding screen_request
  screen_request-none req r e = elim (Bool-cases (contains_byte 0 req.request_uri)) [
    | inl c ↦ absurd (cc (rw (c, screen_request) at e))
    | inr c ↦ elim (Bool-cases (is_served req.method)) [
      | inl m ↦ (c, m)
      | inr m ↦ absurd (cc (rw (c, m, screen_request) at e))
    ]
  ]

  module _ (lru : Lru Bytes) (eval_symlinks : Bytes → Evaluated) where
    proceed-passed :
        (cfg : SecurityConfig) (req : Request) (r r' : Response)
        (resolved : Result Bytes × lru.Store) (q : Bytes)
        → (proceed os http lru eval_symlinks cfg req r resolved).1 ≡ passed q r'
        → (resolved.0 ≡ ok q) × (is_options req.method ≡ false)
    proceed-passed cfg req r r' (err e, pc) q h = absurd (cc)
    proceed-passed cfg req r r' (ok p, pc) q h =
        let (same, o) = finish-passed cfg req p q r r' h in (ap ok same, o)

    proceed_store :
        (cfg : SecurityConfig) (req : Request) (r : Response) (resolved : Result Bytes × lru.Store)
        → (proceed os http lru eval_symlinks cfg req r resolved).0 ≡ resolved.1
    proceed_store cfg req r (err e, pc) = refl
    proceed_store cfg req r (ok p, pc) = refl

    -- On a path cache that holds safe paths only, a request that the middleware lets through is a
    -- GET or a HEAD without a null byte in its URI, and its path lies below the root by the rules
    -- of pathSafe, whether it comes from the path cache or from the file system, for a root and a
    -- symlink resolution that give cleaned absolute paths.
    pub screen-IsPassing :
        (cfg : SecurityConfig) (abs_root : Bytes) (req : Request) (pc : lru.Store) (r : Response)
        (rs : List Bytes) (p : Bytes) {r' : Response}
        → IsResolver eval_symlinks abs_root rs
        → IsSafeStore lru cfg.block_dotfiles rs pc
        → (screen os http lru eval_symlinks cfg abs_root req pc r).1 ≡ passed p r'
        → IsPassing req cfg.block_dotfiles rs p
    unfolding screen
    screen-IsPassing cfg abs_root req pc r rs p {r' = r'} v h e =
        let r0 = set_all http (static_headers cfg) r in
        let resolved = resolve_cached lru eval_symlinks cfg abs_root req.path pc in
        let safe : IsSafeResult cfg.block_dotfiles rs resolved.0 =
          (resolve_cached-IsSafe lru eval_symlinks cfg abs_root rs req.path pc v h).1 in
        elim (Option-cases (screen_request os http req r0)) [
          | inr (refused, s) ↦ absurd (cc (rw (s, screen) at e))
          | inl s ↦
              let (found, o) = proceed-passed cfg req r0 r' resolved p (rw (s, screen) at e) in
              let (c, m) = screen_request-none req r0 s in
              record { no_null = c; method = get_or_head req.method m o; below = rw found at safe }
        ]

    -- A path cache that holds safe paths only goes on doing so, whatever request the middleware
    -- screens, for a root and a symlink resolution that give cleaned absolute paths.
    pub screen-IsSafeStore :
        (cfg : SecurityConfig) (abs_root : Bytes) (req : Request) (pc : lru.Store) (r : Response)
        (rs : List Bytes)
        → IsResolver eval_symlinks abs_root rs
        → IsSafeStore lru cfg.block_dotfiles rs pc
        → IsSafeStore lru cfg.block_dotfiles rs
            (screen os http lru eval_symlinks cfg abs_root req pc r).0
    unfolding screen
    screen-IsSafeStore cfg abs_root req pc r rs v h =
        let r0 = set_all http (static_headers cfg) r in
        let resolved = resolve_cached lru eval_symlinks cfg abs_root req.path pc in
        let safe = (resolve_cached-IsSafe lru eval_symlinks cfg abs_root rs req.path pc v h).0 in
        elim (Option-cases (screen_request os http req r0)) [
          | inr (refused, s) ↦ rw (s, screen) h
          | inl s ↦ rw (s, screen, proceed_store cfg req r0 resolved) safe
        ]
