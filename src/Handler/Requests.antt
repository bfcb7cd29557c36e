-- ===== src/Handler/Requests.antt =====
-- internal/handler/file.go: `HandleRequest`, `resolveIndexPath` and the rest of `serveFromDisk`.
pub mod Counting
pub mod Faithful
pub mod Runs
use static_web.Prelude.{
  ℕ, ℤ, pos, Bool, true, false, not, ◌&&◌, Option, none, some, List, [], ◌∷◌, ◌++◌, Bytes, codes,
  if◌then◌else◌, lt_int,
}
use static_web.Strings.{bytes_eq, is_empty, trim_right_slashes}
use static_web.Paths.{slash}
use static_web.Platform.{Platform}
use static_web.Config.{Config}
use static_web.Http.{Http, Request}
use static_web.Lru.{Lru}
use static_web.Cache.{Entry, Cache}
use static_web.Headers.{cache_key, default_index}
use static_web.Headers.Caching.{check_not_modified}
use static_web.Security.{PathError, Result, ok, err, Evaluated, path_safe, lookup}
use static_web.Handler.Serving.{serve_from_cache, handle_security_error}
use static_web.Handler.Disk.{
  FileInfo, Stat, found, absent, forbidden, failed, Disk, Site, Moment, cached, serve_absent,
  serve_read, send_forbidden, send_failure,
}
use static_web.Handler.Large.{serve_large_file}

-- What `resolveIndexPath` returns: a listing, an error of `pathSafe`, or a path with its URL and
-- what `Stat` says of it.
pub data Resolved : Type 0 where
  listing : Resolved
  refused : PathError → Resolved
  at : Bytes → Bytes → Stat → Resolved

unfoldable pub index_url : Site → Bytes → Bytes
index_url site url =
    let index = if is_empty site.cfg.files.index then default_index else site.cfg.files.index in
    trim_right_slashes url ++ (slash ∷ index)

-- The path of a URL by `PathSafe`, without the flag.
unfoldable pub safe_path : Disk → Site → Bytes → Result Bytes
safe_path disk site url =
    elim (path_safe disk.files.eval_symlinks url site.abs_root site.cfg.security.block_dotfiles) [
      | ok (p, exists) ↦ ok p
      | err e ↦ err e
    ]

abbrev pub resolve_directory : Disk → Site → Bytes → Resolved
resolve_directory disk site url = elim (safe_path disk site (index_url site url)) [
  | err e ↦ refused e
  | ok p ↦ at p (index_url site url) (disk.stat p)
]

-- What `Stat` answers on the path.
unfoldable pub resolve_stat : Disk → Site → Bytes → Bytes → Stat → Resolved
unfolding index_url safe_path
resolve_stat disk site path url (found info) =
    if info.is_dir
    then if site.cfg.security.directory_listing then listing else resolve_directory disk site url
    else at path url (found info)
resolve_stat disk site path url absent = at path url absent
resolve_stat disk site path url forbidden = at path url forbidden
resolve_stat disk site path url failed = at path url failed

-- `resolveIndexPath`.
unfoldable pub resolve_index_path : Disk → Site → Bytes → Bytes → Resolved
unfolding resolve_stat
resolve_index_path disk site path url = resolve_stat disk site path url (disk.stat path)

-- The path of a request: from the path cache, from the user value of the middleware, or by
-- `PathSafe`.
module _ (paths : Lru Bytes) where
  unfoldable pub request_path :
      Disk → Site → Bytes → Bytes → Option paths.Store → Result Bytes × Option paths.Store
  unfolding safe_path lookup
  request_path disk site user_value url none =
      (if is_empty user_value then safe_path disk site url else ok user_value, none)
  request_path disk site user_value url (some pc) =
      let (hit, pc') = lookup paths url pc in
      (
        elim hit [
          | some p ↦ ok p
          | none ↦ if is_empty user_value then safe_path disk site url else ok user_value
        ],
        some pc',
      )

module _ (os : Platform) (http : Http) (lru : Lru Entry) where
  open http use {Response}

  -- `serveFromDisk`.
  unfoldable pub serve_from_disk :
      Disk
      → Site
      → Moment
      → Request
      → Bytes
      → Bytes
      → Stat
      → Option (Cache lru)
      → Response
      → Option (Cache lru) × Response
  unfolding serve_absent serve_read serve_large_file
  serve_from_disk disk site moment req path url absent c r =
      (c, serve_absent os http site req url r)
  serve_from_disk disk site moment req path url forbidden c r = (c, send_forbidden os http r)
  serve_from_disk disk site moment req path url failed c r = (c, send_failure os http r)
  serve_from_disk disk site moment req path url (found info) c r =
      if lt_int site.cfg.cache.max_file_size (pos info.size)
      then (c, serve_large_file os http disk site moment.boundary req path url info r)
      else serve_read os http lru disk site moment req path url info (disk.read_file path) c r

  -- A hit: 304, or the file from memory.
  unfoldable pub serve_hit : Site → Moment → Request → Bytes → Entry → Response → Response
  serve_hit site moment req key e r =
      let (fresh, r') = check_not_modified os http req e.file site.cfg.headers.enable_etags r in
      if fresh then r' else serve_from_cache os http site.cfg req moment.boundary key e.file r'

  -- The second lookup, under the URL of the index file, and the way to the disk.
  unfoldable pub serve_resolved :
      Disk
      → Site
      → Moment
      → Request
      → Bytes
      → Bytes
      → Stat
      → Option (Cache lru)
      → Response
      → Option (Cache lru) × Response
  unfolding serve_from_disk cached
  serve_resolved disk site moment req path url info c r =
      if bytes_eq url (cache_key req.path site.cfg.files.index)
      then serve_from_disk disk site moment req path url info c r
      else (let (hit, c') = cached lru site moment.now url c in
          elim hit [
            | some e ↦ (c', serve_hit site moment req url e r)
            | none ↦ serve_from_disk disk site moment req path url info c' r
          ])

  module _ (list_directory : Request → Bytes → Bytes → Response → Response) where
    -- Behind the first miss; `list_directory` is `serveDirectoryListing`.
    unfoldable pub serve_miss :
        Disk
        → Site
        → Moment
        → Request
        → Bytes
        → Resolved
        → Option (Cache lru)
        → Response
        → Option (Cache lru) × Response
    unfolding serve_resolved
    serve_miss disk site moment req path listing c r = (c, list_directory req path req.path r)
    serve_miss disk site moment req path (refused e) c r = (c, handle_security_error os http e r)
    serve_miss disk site moment req path (at p url info) c r =
        serve_resolved disk site moment req p url info c r

    -- `HandleRequest` on a safe path.
    unfoldable pub handle_path :
        Disk
        → Site
        → Moment
        → Request
        → Bytes
        → Option (Cache lru)
        → Response
        → Option (Cache lru) × Response
    unfolding serve_hit serve_miss resolve_index_path cached
    handle_path disk site moment req path c r =
        let key = cache_key req.path site.cfg.files.index in
        let (hit, c') = cached lru site moment.now key c in
        elim hit [
          | some e ↦ (c', serve_hit site moment req key e r)
          | none ↦
              serve_miss disk site moment req path (resolve_index_path disk site path req.path) c' r
        ]

    module _ (paths : Lru Bytes) where
      -- `HandleRequest`.
      unfoldable pub handle_request :
          Disk
          → Site
          → Moment
          → Bytes
          → Request
          → Option paths.Store × Option (Cache lru)
          → Response
          → (Option paths.Store × Option (Cache lru)) × Response
      unfolding handle_path request_path
      handle_request disk site moment user_value req (pc, c) r =
          let (resolved, pc') = request_path paths disk site user_value req.path pc in
          elim resolved [
            | err e ↦ ((pc', c), handle_security_error os http e r)
            | ok path ↦ let (c', r') = handle_path disk site moment req path c r in ((pc', c'), r')
          ]
