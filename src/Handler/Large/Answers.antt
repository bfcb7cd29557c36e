-- ===== src/Handler/Large/Answers.antt =====
-- internal/handler/file.go: all that `serveLargeFile` answers to a GET of a file that opens.
use static_web.Prelude.{
  ◌^◌, ◌<◌, ◌≡◌, refl, [], Bool, true, false, Bytes, codes, length, Bool-cases, inl, inr,
  if◌then◌else◌, ◌++◌,
}
use static_web.Strings.{is_empty}
use static_web.Strconv.{format_int}
use static_web.Platform.{Platform}
use static_web.Http.{get, Http, Request, range}
use static_web.Cache.File.{CachedFile}
use static_web.Headers.Freshness.{init_headers, init_cache_control, is_not_modified}
use static_web.Headers.Caching.{check_not_modified, set_validator_headers}
use static_web.Handler.Kinds.{type_by_name}
use static_web.Handler.Disk.{FileInfo, opened, Disk, Site}
use static_web.Handler.Large.{large_file, open_large, exceeds_limit, send_large, serve_large_file}
use static_web.Handler.Large.Lengths.{
  IsStreamed, not_modified, too_large, send_ranges-IsStreamed, send_large_parsed-IsStreamed,
}

module _ (os : Platform) (http : Http) where
  open http use {Response, view, error}

  check_not_modified-status :
      (req : Request) (f : CachedFile) (etags : Bool) (r : Response)
      → (check_not_modified os http req f etags r).0 ≡ true
      → (view (check_not_modified os http req f etags r).1).status ≡ 304
  unfolding check_not_modified
  check_not_modified-status req f etags r h = elim (Bool-cases (is_not_modified os req f etags)) [
    | inl e ↦
        rw (
          e,
          check_not_modified,
          http.view-set_status 304 (set_validator_headers os http f etags r),
        )
    | inr e ↦ absurd (cc (rw (e, check_not_modified) at h))
  ]

  either-IsStreamed :
      (b : Bool) (x y : Response)
      → IsStreamed (view x)
      → IsStreamed (view y)
      → IsStreamed (view (if b then x else y))
  either-IsStreamed true x y hx hy = hx
  either-IsStreamed false x y hx hy = hy

  module _ (site : Site) (req : Request) (boundary url : Bytes) (info : FileInfo) (content : Bytes)
      (g : req.method ≡ get) (size : info.size ≡ length content)
      (small : length content < 2 ^ 62) where
    send_large-IsStreamed :
        (media : Bytes) (r : Response)
        → IsStreamed (view (send_large os http site req boundary url info media (opened content) r))
    unfolding send_large
    send_large-IsStreamed media r =
        let f =
          init_cache_control os url site.cfg.headers.html_max_age site.cfg.headers.static_max_age
            site.cfg.headers.immutable_pattern (init_headers os (large_file media info)) in
        let etags = site.cfg.headers.enable_etags in
        elim (Bool-cases (check_not_modified os http req f etags r).0) [
          | inl e ↦ rw (e, send_large) (not_modified (check_not_modified-status req f etags r e))
          | inr e ↦
              rw (e, send_large, size)
                (either-IsStreamed _ _ _
                  (send_large_parsed-IsStreamed os http req boundary media content
                    (req.header range) _ g small)
                  (send_ranges-IsStreamed os http req boundary media content [] _ g tt))
        ]

    -- What serveLargeFile answers to a GET, for a file that opens, whose content has the size of
    -- its FileInfo and is below 2^62 bytes, is a stream whose declared length is the number of its
    -- bytes, be it the whole file, one range or several parts, unless the status is 304, 413 or
    -- 416.
    pub serve_large_file-IsStreamed :
        (disk : Disk) (path : Bytes) (r : Response)
        → open_large disk site path ≡ opened content
        → IsStreamed (view (serve_large_file os http disk site boundary req path url info r))
    unfolding serve_large_file
    serve_large_file-IsStreamed disk path r o = elim (Bool-cases (exceeds_limit site info)) [
      | inl big ↦
          rw
            (
              big,
              serve_large_file,
              http.view-error
                  (codes "Payload Too Large: exceeds max_serve_file_size ("
                    ++ (format_int site.cfg.files.max_serve_file_size ++ codes " bytes)"))
                  413 r,
            )
            (too_large refl)
      | inr fits ↦ elim (Bool-cases (is_empty (type_by_name os path))) [
        | inl unknown ↦ rw (fits, unknown, o, serve_large_file) (send_large-IsStreamed _ r)
        | inr known ↦ rw (fits, known, o, serve_large_file) (send_large-IsStreamed _ r)
      ]
    ]
