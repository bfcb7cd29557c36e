-- ===== src/Handler/Requests/Counting.antt =====
-- internal/handler/file.go: what `HandleRequest` does to the file cache.
use static_web.Prelude.{
  true, Option, none, some, Bytes, ℤ, pos, ◌≡◌, refl, Bool-cases, Option-cases, ◌⊎◌, inl, inr,
  lt_int,
}
use static_web.Strings.{bytes_eq}
use static_web.Strings.Laws.{bytes_eq_iff}
use static_web.Platform.{Platform}
use static_web.Http.{Http, Request}
use static_web.Lru.{Lru}
use static_web.Cache.{Entry, Cache}
use static_web.Cache.Accounting.{IsExact}
use static_web.Cache.Exact.{put_absent-IsExact}
use static_web.Cache.Lookup.{get-IsExact, get_miss-absent}
use static_web.Headers.{cache_key}
use static_web.Security.{PathError, Result, ok, err}
use static_web.Handler.Disk.{
  FileInfo, Stat, found, absent, forbidden, failed, Opened, opened, locked, unreadable, Disk, Site,
  Moment, cached, remember, serve_read,
}
use static_web.Handler.Requests.{
  Resolved, listing, refused, at, serve_from_disk, serve_resolved, serve_miss, handle_path,
  handle_request, resolve_index_path, request_path,
}

pub Result-cases : (x : Result Bytes) → ((e : PathError) × (x ≡ err e)) ⊎ ((p : Bytes) × (x ≡ ok p))
Result-cases (err e) = inl (e, refl)
Result-cases (ok p) = inr (p, refl)

module _ (lru : Lru Entry) where
  -- Where there is a cache, its count is exact.
  abbrev pub IsCounted : Option (Cache lru) → Type 0
  IsCounted none = Unit
  IsCounted (some c) = IsExact lru c

  -- Where the cache is on, it does not hold the key.
  abbrev Lacking : Site → Bytes → Option (Cache lru) → Type 0
  Lacking site key none = Unit
  Lacking site key (some c) = site.cfg.cache.enabled ≡ true → lru.peek key c.store ≡ none

  cached-IsCounted :
      (site : Site) (now : ℤ) (key : Bytes) (c : Option (Cache lru))
      → IsCounted c
      → IsCounted (cached lru site now key c).1
        × ((cached lru site now key c).0 ≡ none → Lacking site key (cached lru site now key c).1)
  unfolding cached
  cached-IsCounted site now key none v = (tt, λ _. tt)
  cached-IsCounted site now key (some c) v = elim (Bool-cases site.cfg.cache.enabled) [
    | inl e ↦
        rw (e, cached) (get-IsExact lru now key c v, λ miss _. get_miss-absent lru now key c v miss)
    | inr e ↦ rw (e, cached) (v, λ miss on. absurd (cc))
  ]

  remember-IsCounted :
      (site : Site) (now : ℤ) (key : Bytes) (e : Entry) (c : Option (Cache lru))
      → Lacking site key c
      → IsCounted c
      → IsCounted (remember lru site now key e c)
  unfolding remember
  remember-IsCounted site now key e none lacking v = tt
  remember-IsCounted site now key e (some c) lacking v = elim (Bool-cases site.cfg.cache.enabled) [
    | inl on ↦ rw (on, remember) (put_absent-IsExact lru now key e c (lacking on) v)
    | inr off ↦ rw (off, remember) v
  ]

  module _ (os : Platform) (http : Http) (disk : Disk) (site : Site) (moment : Moment)
      (req : Request) where
    serve_read-IsCounted :
        (path url : Bytes) (info : FileInfo) (file : Opened) (c : Option (Cache lru))
        (r : http.Response)
        → Lacking site url c
        → IsCounted c
        → IsCounted (serve_read os http lru disk site moment req path url info file c r).0
    unfolding serve_read
    serve_read-IsCounted path url info locked c r lacking v = v
    serve_read-IsCounted path url info unreadable c r lacking v = v
    serve_read-IsCounted path url info (opened content) c r lacking v =
        remember-IsCounted site moment.now url _ c lacking v

    serve_from_disk-IsCounted :
        (path url : Bytes) (info : Stat) (c : Option (Cache lru)) (r : http.Response)
        → Lacking site url c
        → IsCounted c
        → IsCounted (serve_from_disk os http lru disk site moment req path url info c r).0
    unfolding serve_from_disk
    serve_from_disk-IsCounted path url absent c r lacking v = v
    serve_from_disk-IsCounted path url forbidden c r lacking v = v
    serve_from_disk-IsCounted path url failed c r lacking v = v
    serve_from_disk-IsCounted path url (found info) c r lacking v =
        elim (Bool-cases (lt_int site.cfg.cache.max_file_size (pos info.size))) [
          | inl big ↦ rw (big, serve_from_disk) v
          | inr small ↦
              rw (small, serve_from_disk)
                (serve_read-IsCounted path url info (disk.read_file path) c r lacking v)
        ]

    serve_resolved-IsCounted :
        (path url : Bytes) (info : Stat) (c : Option (Cache lru)) (r : http.Response)
        → Lacking site (cache_key req.path site.cfg.files.index) c
        → IsCounted c
        → IsCounted (serve_resolved os http lru disk site moment req path url info c r).0
    unfolding serve_resolved
    serve_resolved-IsCounted path url info c r lacking v =
        elim (Bool-cases (bytes_eq url (cache_key req.path site.cfg.files.index))) [
          | inl same ↦
              rw (same, serve_resolved)
                (serve_from_disk-IsCounted path url info c r
                  (rw ((bytes_eq_iff url (cache_key req.path site.cfg.files.index)).0 same) lacking)
                  v)
          | inr differs ↦
              let k = cached-IsCounted site moment.now url c v in
              elim (Option-cases ((cached lru site moment.now url c).0)) [
                | inl miss ↦
                    rw (differs, miss, serve_resolved)
                      (serve_from_disk-IsCounted path url info (cached lru site moment.now url c).1
                        r (k.1 miss) k.0)
                | inr (e, hit) ↦ rw (differs, hit, serve_resolved) k.0
              ]
        ]

    module _ (list_directory : Request → Bytes → Bytes → http.Response → http.Response) where
      serve_miss-IsCounted :
          (path : Bytes) (to : Resolved) (c : Option (Cache lru)) (r : http.Response)
          → Lacking site (cache_key req.path site.cfg.files.index) c
          → IsCounted c
          → IsCounted (serve_miss os http lru list_directory disk site moment req path to c r).0
      unfolding serve_miss
      serve_miss-IsCounted path listing c r lacking v = v
      serve_miss-IsCounted path (refused e) c r lacking v = v
      serve_miss-IsCounted path (at p url info) c r lacking v =
          serve_resolved-IsCounted p url info c r lacking v

      handle_path-IsCounted :
          (path : Bytes) (c : Option (Cache lru)) (r : http.Response)
          → IsCounted c
          → IsCounted (handle_path os http lru list_directory disk site moment req path c r).0
      unfolding handle_path
      handle_path-IsCounted path c r v =
          let key = cache_key req.path site.cfg.files.index in
          let k = cached-IsCounted site moment.now key c v in
          elim (Option-cases ((cached lru site moment.now key c).0)) [
            | inl miss ↦
                rw (miss, handle_path)
                  (serve_miss-IsCounted path (resolve_index_path disk site path req.path)
                    (cached lru site moment.now key c).1 r (k.1 miss) k.0)
            | inr (e, hit) ↦ rw (hit, handle_path) k.0
          ]

      -- Whatever a request does, the byte count of the file cache stays exact.
      pub handle_request-IsCounted :
          (paths : Lru Bytes) (user_value : Bytes) (pc : Option paths.Store)
          (c : Option (Cache lru)) (r : http.Response)
          → IsCounted c
          → IsCounted (
              (handle_request os http lru list_directory paths disk site moment user_value req
                (pc, c)
                r).0.1)
      unfolding handle_request
      handle_request-IsCounted paths user_value pc c r v =
          let resolved = (request_path paths disk site user_value req.path pc).0 in
          elim (Result-cases resolved) [
            | inl (e, h) ↦ rw (h, handle_request) v
            | inr (path, h) ↦ rw (h, handle_request) (handle_path-IsCounted path c r v)
          ]
