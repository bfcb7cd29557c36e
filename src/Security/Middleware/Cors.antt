-- ===== src/Security/Middleware/Cors.antt =====
-- What the CORS block of `Middleware` allows.
use static_web.Prelude.{
  ◌≡◌, refl, ap, ◌∙◌, Bool, true, false, List, [], ◌∷◌, Bytes, codes, if◌then◌else◌, Bool-cases,
  Option-cases, inl, inr,
}
use static_web.Strings.{is_empty}
use static_web.Platform.{Platform}
use static_web.Config.{SecurityConfig}
use static_web.Http.{
  Http, Request, origin, vary, allow_origin, allow_methods, allow_headers, max_age,
}
use static_web.Headers.{merged_vary}
use static_web.Headers.Caching.{add_vary}
use static_web.Security.Middleware.{
  allowed_methods, is_wildcard, origin_allowed, is_options, preflight, apply_cors,
}

-- The values of Access-Control-Allow-Origin for a request with an origin.
abbrev pub granted : List Bytes → Bytes → List Bytes → List Bytes
granted allowed from old =
    if is_empty from
    then old
    else if is_wildcard allowed
    then (b'*' ∷ []) ∷ []
    else if origin_allowed from allowed
    then from ∷ []
    else old

module _ (os : Platform) (http : Http) where
  open http use {Response, view, set_header}

  origin-preflight :
      (b : Bool) (r : Response)
      → (view (if b then preflight http r else r)).headers allow_origin
        ≡ (view r).headers allow_origin
  origin-preflight false r = refl
  origin-preflight true r =
      let a = set_header allow_methods allowed_methods r in
      let b = set_header allow_headers (codes "Accept, Accept-Encoding, Range") a in
      let c = set_header max_age (codes "86400") b in
      rw (
        http.view-set_status 204 c,
        http.view-set_header max_age (codes "86400") b,
        http.view-set_header allow_headers (codes "Accept, Accept-Encoding, Range") a,
        http.view-set_header allow_methods allowed_methods r,
      )

  origin-add_vary :
      (t : Bytes) (r : Response)
      → (view (add_vary os http t r)).headers allow_origin ≡ (view r).headers allow_origin
  unfolding add_vary
  origin-add_vary t r = elim (Option-cases (merged_vary t ((view r).headers vary))) [
    | inl e ↦ rw (e, add_vary)
    | inr (v, e) ↦ rw (e, add_vary, http.view-set_header vary v r)
  ]

  -- The origin that a response allows: for the wildcard the literal star and never the origin of
  -- the request, otherwise the origin of the request if it is listed; all else leaves the header
  -- as it was.
  pub apply_cors-granted :
      (cfg : SecurityConfig) (req : Request) (r : Response)
      → (view (apply_cors os http cfg req r).1).headers allow_origin
        ≡ granted cfg.cors_origins (req.header origin) ((view r).headers allow_origin)
  unfolding apply_cors
  apply_cors-granted cfg req r =
      let from = req.header origin in
      let star = http.view-set_header allow_origin (b'*' ∷ []) r in
      let own = http.view-set_header allow_origin from r in
      elim (Bool-cases (is_empty from)) [
        | inl e ↦ rw (e, apply_cors)
        | inr e ↦ elim (Bool-cases (is_wildcard cfg.cors_origins)) [
          | inl w ↦
              rw (e, w, apply_cors)
                (origin-preflight (is_options req.method) _ ∙ ap (λ v. v.headers allow_origin) star)
          | inr w ↦ elim (Bool-cases (origin_allowed from cfg.cors_origins)) [
            | inl o ↦
                rw (e, w, o, apply_cors)
                  (origin-preflight (is_options req.method) _
                    ∙ origin-add_vary (codes "Origin") _
                    ∙ ap (λ v. v.headers allow_origin) own)
            | inr o ↦ rw (e, w, o, apply_cors)
          ]
        ]
      ]
