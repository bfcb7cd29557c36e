-- ===== src/Headers/Caching.antt =====
-- The caching headers as they are written on a response: internal/headers/headers.go.
use static_web.Prelude.{
  Bool, true, false, not, ◌&&◌, none, some, List, [], ◌∷◌, Bytes, codes, if◌then◌else◌,
}
use static_web.Strings.{is_empty, split, trim_space}
use static_web.Platform.{Platform}
use static_web.Config.{HeadersConfig}
use static_web.Http.{Http, Request, etag, last_modified, cache_control, vary}
use static_web.Cache.File.{CachedFile}
use static_web.Headers.{merged_vary}
use static_web.Headers.Freshness.{
  etag_text, cache_control_text, cache_max_age, matches_immutable_pattern, is_not_modified,
}

module _ (os : Platform) (http : Http) where
  open http use {Response, view, set_header, set_status}

  -- `AddVary`.
  unfoldable pub add_vary : Bytes → Response → Response
  add_vary token r = elim (merged_vary token ((view r).headers vary)) [
    | none ↦ r
    | some v ↦ set_header vary v r
  ]

  -- `setValidatorHeaders`.
  pub set_validator_headers : CachedFile → Bool → Response → Response
  unfolding etag_text add_vary
  set_validator_headers f enable_etags r =
      let r1 = if enable_etags then set_header etag (etag_text f) r else r in
      let r2 =
        if not (is_empty f.last_mod_header)
        then set_header last_modified f.last_mod_header r1
        else elim f.last_modified [
          | none ↦ r1
          | some t ↦ set_header last_modified (os.format_time (some t)) r1
        ] in
      let r3 =
        if not (is_empty f.cache_control_header)
        then set_header cache_control f.cache_control_header r2
        else r2 in
      add_vary (codes "Accept-Encoding") r3

  -- `CheckNotModified`: whether the response is complete, and the response.
  unfoldable pub check_not_modified : Request → CachedFile → Bool → Response → Bool × Response
  unfolding is_not_modified set_validator_headers
  check_not_modified req f enable_etags r =
      if is_not_modified os req f enable_etags
      then (true, set_status 304 (set_validator_headers f enable_etags r))
      else (false, r)

  -- The loop over `f.VaryHeader`.
  pub add_varies : List Bytes → Response → Response
  unfolding add_vary
  add_varies [] r = r
  add_varies (part ∷ parts) r =
      add_varies parts (if is_empty (trim_space part) then r else add_vary (trim_space part) r)

  -- `SetCacheHeaders`, which is `SetFileHeaders`.
  pub set_cache_headers : Bytes → CachedFile → HeadersConfig → Response → Response
  unfolding etag_text add_vary add_varies cache_max_age cache_control_text matches_immutable_pattern
  set_cache_headers url_path f cfg r =
      let r1 = if cfg.enable_etags then set_header etag (etag_text f) r else r in
      let modified =
        if is_empty f.last_mod_header then os.format_time f.last_modified else f.last_mod_header in
      let r2 = set_header last_modified modified r1 in
      let r3 =
        if is_empty f.vary_header
        then add_vary (codes "Accept-Encoding") r2
        else add_varies (split b',' f.vary_header) r2 in
      let computed = cache_control_text (cache_max_age url_path f.content_type cfg) (
        not (is_empty cfg.immutable_pattern)
        && matches_immutable_pattern os url_path cfg.immutable_pattern) in
      set_header cache_control
        (if is_empty f.cache_control_header then computed else f.cache_control_header) r3
