-- ===== src/Security/Middleware/Keeping.antt =====
-- What each step of `Middleware` does to the security headers.
use static_web.Prelude.{
  ℕ, ◌≡◌, refl, sym, ap, ◌∙◌, Bool, true, false, not, ◌&&◌, some, List, [], ◌∷◌, ◌++◌, Bytes, codes,
  leb, if◌then◌else◌, arith, Bool-cases, Option-cases, inl, inr,
}
use static_web.Strings.{is_empty, contains_byte}
use static_web.Platform.{Platform}
use static_web.Config.{SecurityConfig}
use static_web.Http.{
  Http, Request, HeaderName, number, same_name, View, origin, content_type, allow,
  content_type_options, frame_options, content_security_policy, referrer_policy, permissions_policy,
  allow_origin, allow_methods, allow_headers, max_age, vary,
}
use static_web.Headers.{merged_vary}
use static_web.Headers.Caching.{add_vary}
use static_web.Security.{PathError, null_byte, path_traversal, dotfile}
use static_web.Security.Middleware.{
  allowed_methods, is_wildcard, origin_allowed, unless_empty, static_headers, is_options, is_served,
  Screened, answered, passed, set_all, send_error, send_path_error, preflight, apply_cors, conclude,
  with_allow, finish, screen_request,
}

-- The five headers that `staticHeaders` may hold.
abbrev pub is_static : HeaderName → Bool
is_static n = leb 11 (number n) && leb (number n) 15

abbrev pub response_of : {R : Type 0} → Screened R → R
response_of (answered r) = r
response_of (passed safe_path r) = r

-- The security headers of a response: two fixed ones, and those that are configured.
pub record IsSecured (cfg : SecurityConfig) (old new : View) : Type 0 where
  pub nosniff : new.headers content_type_options ≡ codes "nosniff" ∷ []
  pub frames : new.headers frame_options ≡ codes "SAMEORIGIN" ∷ []
  pub csp :
      new.headers content_security_policy
      ≡ (if is_empty cfg.csp then old.headers content_security_policy else cfg.csp ∷ [])
  pub referrer : new.headers referrer_policy ≡ (
      if is_empty cfg.referrer_policy
      then old.headers referrer_policy
      else cfg.referrer_policy ∷ [])
  pub permissions : new.headers permissions_policy ≡ (
      if is_empty cfg.permissions_policy
      then old.headers permissions_policy
      else cfg.permissions_policy ∷ [])

if-not : (b : Bool) (x y : List Bytes) → (if not b then x else y) ≡ (if b then y else x)
if-not true x y = refl
if-not false x y = refl

module _ (http : Http) where
  open http use {Response, view, set_header, set_status, set_body}

  keep-set_header :
      (n m : HeaderName) (v : Bytes) (r : Response)
      → is_static n ≡ true
      → is_static m ≡ false
      → (view (set_header m v r)).headers n ≡ (view r).headers n
  keep-set_header n m v r hn hm =
      let e : same_name n m ≡ false = ground arith in rw (http.view-set_header m v r, e)

  keep-set_status :
      (n : HeaderName) (c : ℕ) (r : Response)
      → (view (set_status c r)).headers n ≡ (view r).headers n
  keep-set_status n c r = rw (http.view-set_status c r)

  keep-set_body :
      (n : HeaderName) (b : Bytes) (r : Response)
      → (view (set_body b r)).headers n ≡ (view r).headers n
  keep-set_body n b r = rw (http.view-set_body b r)

  keep-send_error :
      (n : HeaderName) (m : Bytes) (c : ℕ) (r : Response)
      → is_static n ≡ true
      → (view (send_error http m c r)).headers n ≡ (view r).headers n
  keep-send_error n m c r h =
      keep-set_header n content_type _ _ h refl ∙ keep-set_body n m _ ∙ keep-set_status n c r

  pub keep-send_path_error :
      (n : HeaderName) (e : PathError) (r : Response)
      → is_static n ≡ true
      → (view (send_path_error http e r)).headers n ≡ (view r).headers n
  keep-send_path_error n null_byte r h = keep-send_error n _ _ r h
  keep-send_path_error n path_traversal r h = keep-send_error n _ _ r h
  keep-send_path_error n dotfile r h = keep-send_error n _ _ r h

  keep-preflight :
      (n : HeaderName) (r : Response)
      → is_static n ≡ true
      → (view (preflight http r)).headers n ≡ (view r).headers n
  keep-preflight n r h =
      keep-set_status n 204 _
      ∙ keep-set_header n max_age _ _ h refl
      ∙ keep-set_header n allow_headers _ _ h refl
      ∙ keep-set_header n allow_methods _ r h refl

  unless_empty-headers :
      (m n : HeaderName) (v : Bytes) (r : Response)
      → (view (set_all http (unless_empty m v) r)).headers n
        ≡ (if same_name n m && not (is_empty v) then v ∷ [] else (view r).headers n)
  unfolding set_all
  unless_empty-headers m n v r = elim (Bool-cases (is_empty v)) [
    | inl e ↦
        rw (e, unless_empty) (elim (Bool-cases (same_name n m)) [ inl s ↦ rw s | inr s ↦ rw s ])
    | inr e ↦
        rw (e, unless_empty, http.view-set_header m v r)
          (elim (Bool-cases (same_name n m)) [ inl s ↦ rw s | inr s ↦ rw s ])
  ]

  set_all-append :
      (hs gs : List (HeaderName × Bytes)) (r : Response)
      → set_all http (hs ++ gs) r ≡ set_all http gs (set_all http hs r)
  unfolding set_all
  set_all-append [] gs r = refl
  set_all-append ((n, v) ∷ hs) gs r = set_all-append hs gs (set_header n v r)

  set_all-value :
      (cfg : SecurityConfig) (n : HeaderName) (r : Response)
      → (view (set_all http (static_headers cfg) r)).headers n ≡ (
          if same_name n permissions_policy && not (is_empty cfg.permissions_policy)
          then cfg.permissions_policy ∷ []
          else if same_name n referrer_policy && not (is_empty cfg.referrer_policy)
          then cfg.referrer_policy ∷ []
          else if same_name n content_security_policy && not (is_empty cfg.csp)
          then cfg.csp ∷ []
          else if same_name n frame_options
          then codes "SAMEORIGIN" ∷ []
          else if same_name n content_type_options
          then codes "nosniff" ∷ []
          else (view r).headers n)
  unfolding set_all
  set_all-value cfg n r =
      let c = unless_empty content_security_policy cfg.csp in
      let p = unless_empty referrer_policy cfg.referrer_policy in
      let q = unless_empty permissions_policy cfg.permissions_policy in
      let a = set_header content_type_options (codes "nosniff") r in
      let b = set_header frame_options (codes "SAMEORIGIN") a in
      ap (λ s. (view s).headers n)
        (set_all-append c (p ++ q) b ∙ set_all-append p q (set_all http c b))
      ∙ rw (
        unless_empty-headers permissions_policy n cfg.permissions_policy
            (set_all http p (set_all http c b)),
        unless_empty-headers referrer_policy n cfg.referrer_policy (set_all http c b),
        unless_empty-headers content_security_policy n cfg.csp b,
        http.view-set_header frame_options (codes "SAMEORIGIN") a,
        http.view-set_header content_type_options (codes "nosniff") r,
      )

  pub set_all-static_headers :
      (cfg : SecurityConfig) (r : Response)
      → IsSecured cfg (view r) (view (set_all http (static_headers cfg) r))
  set_all-static_headers cfg r = record {
    nosniff = set_all-value cfg content_type_options r;
    frames = set_all-value cfg frame_options r;
    csp = set_all-value cfg content_security_policy r ∙ if-not (is_empty cfg.csp) _ _;
    referrer = set_all-value cfg referrer_policy r ∙ if-not (is_empty cfg.referrer_policy) _ _;
    permissions =
        set_all-value cfg permissions_policy r ∙ if-not (is_empty cfg.permissions_policy) _ _;
  }

  -- The security headers stay through what leaves the five headers alone.
  pub IsSecured-same :
      (cfg : SecurityConfig) (old a b : View)
      → ((n : HeaderName) → is_static n ≡ true → b.headers n ≡ a.headers n)
      → IsSecured cfg old a
      → IsSecured cfg old b
  IsSecured-same cfg old a b same v = record {
    nosniff = same content_type_options refl ∙ v.nosniff;
    frames = same frame_options refl ∙ v.frames;
    csp = same content_security_policy refl ∙ v.csp;
    referrer = same referrer_policy refl ∙ v.referrer;
    permissions = same permissions_policy refl ∙ v.permissions;
  }

module _ (os : Platform) (http : Http) where
  open http use {Response, view, set_header, set_status}

  keep-add_vary :
      (n : HeaderName) (t : Bytes) (r : Response)
      → is_static n ≡ true
      → (view (add_vary os http t r)).headers n ≡ (view r).headers n
  unfolding add_vary
  keep-add_vary n t r h = elim (Option-cases (merged_vary t ((view r).headers vary))) [
    | inl e ↦ rw (e, add_vary)
    | inr (v, e) ↦ rw (e, add_vary) (keep-set_header http n vary v r h refl)
  ]

  keep-allowed :
      (n : HeaderName) (b : Bool) (r : Response)
      → is_static n ≡ true
      → (view (if b then preflight http r else r)).headers n ≡ (view r).headers n
  keep-allowed n true r h = keep-preflight http n r h
  keep-allowed n false r h = refl

  keep-apply_cors :
      (n : HeaderName) (cfg : SecurityConfig) (req : Request) (r : Response)
      → is_static n ≡ true
      → (view (apply_cors os http cfg req r).1).headers n ≡ (view r).headers n
  unfolding apply_cors
  keep-apply_cors n cfg req r h =
      let from = req.header origin in
      elim (Bool-cases (is_empty from)) [
        | inl e ↦ rw (e, apply_cors)
        | inr e ↦ elim (Bool-cases (is_wildcard cfg.cors_origins)) [
          | inl w ↦
              rw (e, w, apply_cors)
                (keep-allowed n (is_options req.method) _ h
                  ∙ keep-set_header http n allow_origin _ r h refl)
          | inr w ↦ elim (Bool-cases (origin_allowed from cfg.cors_origins)) [
            | inl o ↦
                rw (e, w, o, apply_cors)
                  (keep-allowed n (is_options req.method) _ h
                    ∙ keep-add_vary n (codes "Origin") _ h
                    ∙ keep-set_header http n allow_origin _ r h refl)
            | inr o ↦ rw (e, w, o, apply_cors)
          ]
        ]
      ]

  keep-with_allow :
      (n : HeaderName) (req : Request) (r : Response)
      → is_static n ≡ true
      → (view (with_allow os http req r)).headers n ≡ (view r).headers n
  keep-with_allow n req r h = elim (Bool-cases (is_options req.method)) [
    | inl o ↦ rw o (keep-set_header http n allow allowed_methods r h refl)
    | inr o ↦ rw o
  ]

  keep-conclude :
      (n : HeaderName) (req : Request) (p : Bytes) (c : Bool × Response)
      → (view (response_of (conclude os http req p c))).headers n ≡ (view c.1).headers n
  keep-conclude n req p (true, r) = refl
  keep-conclude n req p (false, r) = elim (Bool-cases (is_options req.method)) [
    | inl o ↦ rw o (keep-set_status http n 204 r)
    | inr o ↦ rw o
  ]

  pub keep-finish :
      (n : HeaderName) (cfg : SecurityConfig) (req : Request) (p : Bytes) (r : Response)
      → is_static n ≡ true
      → (view (response_of (finish os http cfg req p r))).headers n ≡ (view r).headers n
  unfolding finish
  keep-finish n cfg req p r h =
      keep-conclude n req p _
      ∙ keep-apply_cors n cfg req (with_allow os http req r) h
      ∙ keep-with_allow n req r h

  pub keep-screen_request :
      (n : HeaderName) (req : Request) (r refused : Response)
      → is_static n ≡ true
      → screen_request os http req r ≡ some refused
      → (view refused).headers n ≡ (view r).headers n
  unfolding screen_request
  keep-screen_request n req r refused h e = elim (Bool-cases (contains_byte 0 req.request_uri)) [
    | inl c ↦
        let s : send_error http (codes "Bad Request: path contains null byte") 400 r ≡ refused =
          cc (rw (c, screen_request) at e) in
        ap (λ x. (view x).headers n) (sym s) ∙ keep-send_error http n _ _ r h
    | inr c ↦ elim (Bool-cases (is_served req.method)) [
      | inl m ↦ absurd (cc (rw (c, m, screen_request) at e))
      | inr m ↦
          let s : send_error http (codes "Method Not Allowed") 405
                (set_header allow allowed_methods r)
              ≡ refused =
            cc (rw (c, m, screen_request) at e) in
          ap (λ x. (view x).headers n) (sym s)
          ∙ keep-send_error http n _ _ _ h
          ∙ keep-set_header http n allow allowed_methods r h refl
    ]
  ]
