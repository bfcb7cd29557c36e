-- ===== src/Handler/Serving.antt =====
-- internal/handler/file.go: `serveFromCache`, `negotiateEncoding`, `handleSecurityError`,
-- `serveNotFound` and `serveEmbedded`.
use static_web.Prelude.{
  Bool, true, false, not, Option, none, some, [], ◌++◌, Bytes, codes, if◌then◌else◌, length,
}
use static_web.Strings.{is_empty, contains_byte, trim_left_slashes}
use static_web.Strconv.{format, format_int}
use static_web.Platform.{Platform}
use static_web.Config.{Config}
use static_web.Http.{
  Http, Request, range, content_type, content_length, content_encoding, x_cache, etag,
  cache_control,
}
use static_web.Cache.File.{CachedFile}
use static_web.Compress.{accepts_encoding}
use static_web.Headers.Caching.{add_vary, set_cache_headers, check_not_modified}
use static_web.Headers.Freshness.{weak_tag}
use static_web.Handler.Kinds.{compute_etag, detect_content_type}
use static_web.Security.{PathError, null_byte, path_traversal, dotfile}
use static_web.Security.Middleware.{error_text}
use static_web.Handler.Sending.{serve_range, set_body_unless_head}

-- What a pre-compressed variant offers: its bytes and its coding, if the client accepts that.
abbrev pub variant : Platform → Request → Option Bytes → Bytes → Option (Bytes × Bytes)
variant os req none coding = none
variant os req (some content) coding =
    if accepts_encoding os req coding then some (content, coding) else none

abbrev pub or_else : Option (Bytes × Bytes) → Bytes × Bytes → Bytes × Bytes
or_else none last = last
or_else (some p) last = p

module _ (os : Platform) where
  -- `negotiateEncoding`: the data, and the coding or nothing.
  unfoldable pub negotiate_encoding : Config → Request → CachedFile → Bytes × Bytes
  negotiate_encoding cfg req f =
      if not cfg.compression.enabled
      then (f.content, [])
      else or_else (variant os req f.br_data (codes "br")) (
          or_else (variant os req f.zstd_data (codes "zstd"))
            (or_else (variant os req f.gzip_data (codes "gzip")) (f.content, [])))

module _ (os : Platform) (http : Http) where
  open http use {Response, view, set_header, del_header, set_status, set_body, error}

  -- The Content-Length of a response without ranges.
  abbrev pub length_text : CachedFile → Bytes → Bytes → Bytes
  length_text f content encoding =
      if not (is_empty encoding)
      then format (length content)
      else if not (is_empty f.cl_header)
      then f.cl_header
      else format f.size

  -- The fast path: the order of the status and the body is that of GET.
  abbrev pub serve_whole : Request → CachedFile → Bytes → Bytes → Response → Response
  serve_whole req f content encoding r =
      let media = if is_empty f.ct_header then f.content_type else f.ct_header in
      set_body_unless_head os http req content (
        set_status 200 (
          set_header content_length (length_text f content encoding)
            (set_header content_type media r)))

  -- The slow path: byte offsets are those of the content without a coding.
  abbrev pub serve_part : Request → Bytes → CachedFile → Bytes → Bytes → Response → Response
  serve_part req boundary f content encoding r =
      let r1 = set_header content_type f.content_type r in
      if is_empty encoding
      then serve_range os http req boundary content (req.header range) r1
      else serve_range os http req boundary f.content (req.header range)
          (del_header content_encoding r1)

  -- `serveFromCache`.
  unfoldable pub serve_from_cache :
      Config → Request → Bytes → Bytes → CachedFile → Response → Response
  unfolding negotiate_encoding
  serve_from_cache cfg req boundary url_path f r =
      let r1 =
        set_cache_headers os http url_path f cfg.headers (set_header x_cache (codes "HIT") r) in
      let (content, encoding) = negotiate_encoding os cfg req f in
      let r2 =
        if is_empty encoding
        then r1
        else add_vary os http (codes "Accept-Encoding") (set_header content_encoding encoding r1) in
      if is_empty (req.header range)
      then serve_whole req f content encoding r2
      else serve_part req boundary f content encoding r2

  -- `handleSecurityError`.
  pub handle_security_error : PathError → Response → Response
  handle_security_error null_byte r = error (codes "Bad Request: " ++ error_text null_byte) 400 r
  handle_security_error path_traversal r =
      error (codes "Forbidden: " ++ error_text path_traversal) 403 r
  handle_security_error dotfile r = error (codes "Forbidden: " ++ error_text dotfile) 403 r

  module _ (embedded : Bytes → Option Bytes) where
    -- `serveNotFound`: the configured page, the embedded one or a line of text.
    pub serve_not_found : Config → Option (Bytes × Bytes) → Response → Response
    serve_not_found cfg (some (content, media)) r =
        set_body content (set_status 404 (set_header content_type media r))
    serve_not_found cfg none r = elim (embedded (codes "public/404.html")) [
      | none ↦ error (codes "404 Not Found") 404 r
      | some content ↦
          let r1 = set_header content_type (codes "text/html; charset=utf-8") r in
          let tag = weak_tag (compute_etag os content) in
          let r2 = if cfg.headers.enable_etags then set_header etag tag r1 else r1 in
          set_body content (set_status 404 r2)
    ]

    -- The `CachedFile` that `serveEmbedded` makes for the conditional request.
    abbrev pub embedded_file : Bytes → Bytes → CachedFile
    embedded_file tag control = record {
      content = [];
      gzip_data = none;
      br_data = none;
      zstd_data = none;
      etag = tag;
      etag_full = weak_tag tag;
      last_modified = none;
      content_type = [];
      size = 0;
      expires_at = none;
      ct_header = [];
      cl_header = [];
      etag_header = [];
      last_mod_header = [];
      vary_header = [];
      cache_control_header = control;
    }

    -- The answer behind the conditional request.
    abbrev pub send_embedded : Config → Bytes → Bytes → Bytes → Bytes → Response → Response
    send_embedded cfg name content tag control r =
        let r1 =
          set_header x_cache (codes "MISS")
            (set_header content_type (detect_content_type os name (some content)) r) in
        let r2 = if cfg.headers.enable_etags then set_header etag (weak_tag tag) r1 else r1 in
        set_body content (
          set_status 200
            (add_vary os http (codes "Accept-Encoding") (set_header cache_control control r2)))

    -- `serveEmbedded`: whether the response was written.
    pub serve_embedded : Config → Request → Bytes → Response → Bool × Response
    serve_embedded cfg req url_path r =
        let trimmed = trim_left_slashes url_path in
        let name = if is_empty trimmed then codes "index.html" else trimmed in
        let control = codes "public, max-age=" ++ format_int cfg.headers.static_max_age in
        if contains_byte b'/' name then (false, r) else elim (embedded (codes "public/" ++ name)) [
          | none ↦ (false, r)
          | some content ↦
              let tag = compute_etag os content in
              let (fresh, r') =
                check_not_modified os http req (embedded_file tag control) cfg.headers.enable_etags
                  r in
              if fresh then (true, r') else (true, send_embedded cfg name content tag control r')
        ]
