-- ===== src/Handler/Disk.antt =====
-- internal/handler/file.go: what the file handler is made of, and `serveFromDisk`.
use static_web.Prelude.{
  ℕ, ℤ, pos, Bool, not, ◌&&◌, Option, none, some, [], ◌++◌, Bytes, codes, if◌then◌else◌, length,
  lt_int,
}
use static_web.Platform.{Platform}
use static_web.Config.{Config}
use static_web.Http.{Http, Request, x_cache}
use static_web.Lru.{Lru}
use static_web.Cache.{Entry, Cache, get, put}
use static_web.Cache.File.{CachedFile}
use static_web.Compress.{is_compressible}
use static_web.Compress.Gzip.{gzip_bytes}
use static_web.Headers.Freshness.{weak_tag, init_headers, init_cache_control}
use static_web.Handler.Kinds.{compute_etag, detect_content_type}
use static_web.Handler.Sidecars.{Files, load_sidecar_max}
use static_web.Handler.Serving.{serve_from_cache, serve_embedded, serve_not_found}

-- `os.FileInfo`, as far as it is read.
pub record FileInfo : Type 0 where
  pub is_dir : Bool
  pub size : ℕ
  pub mod_time : ℤ

-- What `os.Stat` answers: the information, an error for which `os.IsNotExist` or `os.IsPermission`
-- holds, or another error.
pub data Stat : Type 0 where
  found : FileInfo → Stat
  absent : Stat
  forbidden : Stat
  failed : Stat

-- What opening and reading a file comes to.
pub data Opened : Type 0 where
  opened : Bytes → Opened
  locked : Opened
  unreadable : Opened

-- The file system during a request.
pub record Disk : Type 0 where
  pub files : Files
  pub stat : Bytes → Stat
  pub read_file : Bytes → Opened

-- `FileHandler` without its caches: `not_found` is the custom page with its type, `embedded` the
-- files in the binary.
pub record Site : Type 0 where
  pub cfg : Config
  pub abs_root : Bytes
  pub not_found : Option (Bytes × Bytes)
  pub embedded : Bytes → Option Bytes

-- What a request meets: the time, the address of the `CachedFile` that it may allocate, and what
-- `generateBoundary` gives.
pub record Moment : Type 0 where
  pub now : ℤ
  pub fresh : ℕ
  pub boundary : Bytes

module _ (os : Platform) where
  -- `Enabled && IsCompressible(ct) && len(data) >= MinSize`
  unfoldable pub worth_compressing : Config → Bytes → Bytes → Bool
  worth_compressing cfg media content =
      cfg.compression.enabled
      && (is_compressible media && not (lt_int (pos (length content)) cfg.compression.min_size))

  -- A sidecar file, for what is worth it and where they are on.
  abbrev pub sidecar : Disk → Site → Bytes → Bytes → Bytes → Bytes → Option Bytes
  sidecar disk site path media content suffix =
      if worth_compressing site.cfg media content && site.cfg.compression.precompressed
      then load_sidecar_max disk.files site.abs_root (path ++ suffix) (length content)
      else none

  -- What a missing variant is replaced with.
  abbrev pub or_made : Bool → Option Bytes → Option Bytes → Option Bytes
  or_made worth (some variant) made = some variant
  or_made worth none made = if worth then made else none

  -- The `CachedFile` before its headers are formatted.
  unfoldable pub read_entry : Disk → Site → Bytes → FileInfo → Bytes → CachedFile
  unfolding worth_compressing
  read_entry disk site path info content =
      let media = detect_content_type os path (some content) in
      let tag = compute_etag os content in
      let worth = worth_compressing site.cfg media content in
      record {
        content = content;
        gzip_data =
            or_made worth (sidecar disk site path media content (codes ".gz"))
              (some (gzip_bytes os site.cfg.compression.level content));
        br_data = sidecar disk site path media content (codes ".br");
        zstd_data =
            or_made worth (sidecar disk site path media content (codes ".zst")) (os.zstd content);
        etag = tag;
        etag_full = weak_tag tag;
        last_modified = some info.mod_time;
        content_type = media;
        size = info.size;
        expires_at = none;
        ct_header = [];
        cl_header = [];
        etag_header = [];
        last_mod_header = [];
        vary_header = [];
        cache_control_header = [];
      }

  -- `InitHeaders` and `InitCacheControl` on it.
  unfoldable pub make_entry : Disk → Site → Bytes → Bytes → FileInfo → Bytes → CachedFile
  unfolding read_entry
  make_entry disk site path url info content =
      init_cache_control os url site.cfg.headers.html_max_age site.cfg.headers.static_max_age
        site.cfg.headers.immutable_pattern
        (init_headers os (read_entry disk site path info content))

module _ (lru : Lru Entry) where
  -- `h.cfg.Cache.Enabled && h.cache != nil` before a lookup or a store.
  unfoldable pub cached : Site → ℤ → Bytes → Option (Cache lru) → Option Entry × Option (Cache lru)
  cached site now key none = (none, none)
  cached site now key (some c) =
      let (hit, c') = get lru now key c in
      if site.cfg.cache.enabled then (hit, some c') else (none, some c)

  unfoldable pub remember : Site → ℤ → Bytes → Entry → Option (Cache lru) → Option (Cache lru)
  remember site now key e none = none
  remember site now key e (some c) =
      if site.cfg.cache.enabled then some (put lru now key e c) else some c

module _ (os : Platform) (http : Http) where
  open http use {Response, set_header, error}

  -- Where the file is not there: the embedded files, then the 404 page.
  unfoldable pub serve_absent : Site → Request → Bytes → Response → Response
  serve_absent site req url r =
      let (done, r') = serve_embedded os http site.embedded site.cfg req url r in
      if done then r' else serve_not_found os http site.embedded site.cfg site.not_found r'

  abbrev pub send_forbidden : Response → Response
  send_forbidden r = error (codes "Forbidden") 403 r

  abbrev pub send_failure : Response → Response
  send_failure r = error (codes "Internal Server Error") 500 r

  module _ (lru : Lru Entry) where
    -- `serveFromDisk` behind the size check.
    unfoldable pub serve_read :
        Disk
        → Site
        → Moment
        → Request
        → Bytes
        → Bytes
        → FileInfo
        → Opened
        → Option (Cache lru)
        → Response
        → Option (Cache lru) × Response
    unfolding make_entry remember
    serve_read disk site moment req path url info locked c r = (c, send_forbidden r)
    serve_read disk site moment req path url info unreadable c r = (c, send_failure r)
    serve_read disk site moment req path url info (opened content) c r =
        let f = make_entry os disk site path url info content in
        let e : Entry = record { address = moment.fresh; file = f } in
        (
          remember lru site moment.now url e c,
          serve_from_cache os http site.cfg req moment.boundary url f
              (set_header x_cache (codes "MISS") r),
        )
