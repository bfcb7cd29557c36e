-- ===== src/Handler/Requests/Faithful.antt =====
-- internal/handler/file.go: on a disk that does not change, the file cache says what is on it.
use static_web.Prelude.{
  ℕ, Option, none, some, [], Bytes, ℤ, pos, ◌≡◌, refl, sym, ap, ◌∙◌, Bool-cases, Option-cases, inl,
  inr, lt_int,
}
use static_web.Strings.{bytes_eq, is_empty}
use static_web.Platform.{Platform}
use static_web.Http.{Http, Request}
use static_web.Lru.{Lru}
use static_web.Cache.{Entry, Cache, stamp}
use static_web.Cache.Every.{Every, get-Every, get_hit-Every, put-Every}
use static_web.Headers.{cache_key}
use static_web.Headers.Freshness.{init_headers-content, init_cache_control-content}
use static_web.Security.{ok}
use static_web.Handler.Disk.{
  FileInfo, Stat, found, absent, forbidden, failed, Opened, opened, locked, unreadable, Disk, Site,
  Moment, cached, remember, serve_read, make_entry, read_entry,
}
use static_web.Handler.Requests.{
  Resolved, listing, refused, at, index_url, safe_path, resolve_directory, resolve_stat,
  resolve_index_path, request_path, serve_from_disk, serve_resolved, serve_miss, handle_path,
  handle_request,
}
use static_web.Handler.Requests.Counting.{Result-cases}

make_entry-content :
    (os : Platform) (disk : Disk) (site : Site) (path url : Bytes) (info : FileInfo)
    (content : Bytes)
    → (make_entry os disk site path url info content).content ≡ content
unfolding make_entry read_entry
make_entry-content os disk site path url info content =
    init_cache_control-content os url _ _ _ _ ∙ init_headers-content os _

-- What holds of every file of the cache, where there is one.
module _ (lru : Lru Entry) (P : Bytes × Entry → Type 0) where
  abbrev pub EveryIn : Option (Cache lru) → Type 0
  EveryIn none = Unit
  EveryIn (some c) = Every lru P c

  cached-EveryIn :
      (site : Site) (now : ℤ) (key : Bytes) (c : Option (Cache lru))
      → EveryIn c
      → EveryIn (cached lru site now key c).1
  unfolding cached
  cached-EveryIn site now key none h = tt
  cached-EveryIn site now key (some c) h = elim (Bool-cases site.cfg.cache.enabled) [
    | inl on ↦ rw (on, cached) (get-Every lru P now key c h)
    | inr off ↦ rw (off, cached) h
  ]

  pub cached_hit-EveryIn :
      (site : Site) (now : ℤ) (key : Bytes) (e : Entry) (c : Option (Cache lru))
      → EveryIn c
      → (cached lru site now key c).0 ≡ some e
      → P (key, e)
  unfolding cached
  cached_hit-EveryIn site now key e none h hit = absurd (cc hit)
  cached_hit-EveryIn site now key e (some c) h hit = elim (Bool-cases site.cfg.cache.enabled) [
    | inl on ↦ get_hit-Every lru P now key e c h (cc (rw (on, cached) at hit))
    | inr off ↦ absurd (cc (rw (off, cached) at hit))
  ]

  remember-EveryIn :
      (site : Site) (now : ℤ) (key : Bytes) (e : Entry) (c : Option (Cache lru))
      → ((ttl : ℕ) → P (key, stamp now ttl e))
      → EveryIn c
      → EveryIn (remember lru site now key e c)
  unfolding remember
  remember-EveryIn site now key e none p h = tt
  remember-EveryIn site now key e (some c) p h = elim (Bool-cases site.cfg.cache.enabled) [
    | inl on ↦ rw (on, remember) (put-Every lru P now key e c (p c.ttl) h)
    | inr off ↦ rw (off, remember) h
  ]

module _ (disk : Disk) (site : Site) where
  -- The content is that of the file to which the key of the entry leads.
  abbrev pub OnDisk : Bytes × Entry → Type 0
  OnDisk (key, e) =
      (p : Bytes) × (safe_path disk site key ≡ ok p) × (disk.read_file p ≡ opened e.file.content)

  -- The path is the one of the URL.
  abbrev IsSound : Resolved → Type 0
  IsSound listing = Unit
  IsSound (refused e) = Unit
  IsSound (at p url info) = safe_path disk site url ≡ ok p

  resolve_directory-IsSound : (url : Bytes) → IsSound (resolve_directory disk site url)
  resolve_directory-IsSound url = elim (Result-cases (safe_path disk site (index_url site url))) [
    | inl (e, h) ↦ rw (h, resolve_directory) tt
    | inr (p, h) ↦ rw (h, resolve_directory) h
  ]

  resolve_stat-IsSound :
      (path url : Bytes) (info : Stat)
      → safe_path disk site url ≡ ok path
      → IsSound (resolve_stat disk site path url info)
  unfolding resolve_stat
  resolve_stat-IsSound path url absent h = h
  resolve_stat-IsSound path url forbidden h = h
  resolve_stat-IsSound path url failed h = h
  resolve_stat-IsSound path url (found info) h = elim (Bool-cases info.is_dir) [
    | inr d ↦ rw (d, resolve_stat) h
    | inl d ↦ elim (Bool-cases site.cfg.security.directory_listing) [
      | inl l ↦ rw (d, l, resolve_stat) tt
      | inr l ↦ rw (d, l, resolve_stat) (resolve_directory-IsSound url)
    ]
  ]

  module _ (lru : Lru Entry) where
    abbrev pub IsFaithful : Option (Cache lru) → Type 0
    IsFaithful = EveryIn lru OnDisk

    module _ (os : Platform) (http : Http) (moment : Moment) (req : Request) where
      serve_read-IsFaithful :
          (path url : Bytes) (info : FileInfo) (file : Opened) (c : Option (Cache lru))
          (r : http.Response)
          → safe_path disk site url ≡ ok path
          → disk.read_file path ≡ file
          → IsFaithful c
          → IsFaithful (serve_read os http lru disk site moment req path url info file c r).0
      unfolding serve_read stamp
      serve_read-IsFaithful path url info locked c r s f h = h
      serve_read-IsFaithful path url info unreadable c r s f h = h
      serve_read-IsFaithful path url info (opened content) c r s f h =
          let same = make_entry-content os disk site path url info content in
          remember-EveryIn lru OnDisk site moment.now url _ c
            (λ ttl. (path, s, f ∙ ap opened (sym same))) h

      serve_from_disk-IsFaithful :
          (path url : Bytes) (info : Stat) (c : Option (Cache lru)) (r : http.Response)
          → safe_path disk site url ≡ ok path
          → IsFaithful c
          → IsFaithful (serve_from_disk os http lru disk site moment req path url info c r).0
      unfolding serve_from_disk
      serve_from_disk-IsFaithful path url absent c r s h = h
      serve_from_disk-IsFaithful path url forbidden c r s h = h
      serve_from_disk-IsFaithful path url failed c r s h = h
      serve_from_disk-IsFaithful path url (found info) c r s h =
          elim (Bool-cases (lt_int site.cfg.cache.max_file_size (pos info.size))) [
            | inl big ↦ rw (big, serve_from_disk) h
            | inr small ↦
                rw (small, serve_from_disk)
                  (serve_read-IsFaithful path url info (disk.read_file path) c r s refl h)
          ]

      serve_resolved-IsFaithful :
          (path url : Bytes) (info : Stat) (c : Option (Cache lru)) (r : http.Response)
          → safe_path disk site url ≡ ok path
          → IsFaithful c
          → IsFaithful (serve_resolved os http lru disk site moment req path url info c r).0
      unfolding serve_resolved
      serve_resolved-IsFaithful path url info c r s h =
          let k = cached-EveryIn lru OnDisk site moment.now url c h in
          elim (Bool-cases (bytes_eq url (cache_key req.path site.cfg.files.index))) [
            | inl same ↦
                rw (same, serve_resolved) (serve_from_disk-IsFaithful path url info c r s h)
            | inr differs ↦ elim (Option-cases ((cached lru site moment.now url c).0)) [
              | inl miss ↦
                  rw (differs, miss, serve_resolved)
                    (serve_from_disk-IsFaithful path url info (cached lru site moment.now url c).1 r
                      s k)
              | inr (e, hit) ↦ rw (differs, hit, serve_resolved) k
            ]
          ]

      module _ (list_directory : Request → Bytes → Bytes → http.Response → http.Response) where
        serve_miss-IsFaithful :
            (path : Bytes) (to : Resolved) (c : Option (Cache lru)) (r : http.Response)
            → IsSound to
            → IsFaithful c
            → IsFaithful (serve_miss os http lru list_directory disk site moment req path to c r).0
        unfolding serve_miss
        serve_miss-IsFaithful path listing c r s h = h
        serve_miss-IsFaithful path (refused e) c r s h = h
        serve_miss-IsFaithful path (at p url info) c r s h =
            serve_resolved-IsFaithful p url info c r s h

        handle_path-IsFaithful :
            (path : Bytes) (c : Option (Cache lru)) (r : http.Response)
            → safe_path disk site req.path ≡ ok path
            → IsFaithful c
            → IsFaithful (handle_path os http lru list_directory disk site moment req path c r).0
        unfolding handle_path resolve_index_path
        handle_path-IsFaithful path c r s h =
            let key = cache_key req.path site.cfg.files.index in
            let k = cached-EveryIn lru OnDisk site moment.now key c h in
            elim (Option-cases ((cached lru site moment.now key c).0)) [
              | inl miss ↦
                  rw (miss, handle_path)
                    (serve_miss-IsFaithful path (resolve_index_path disk site path req.path)
                      (cached lru site moment.now key c).1 r
                      (resolve_stat-IsSound path req.path (disk.stat path) s) k)
              | inr (e, hit) ↦ rw (hit, handle_path) k
            ]

        -- A request whose path is looked up by `PathSafe`, as no path cache and no user value is there.
        pub handle_request-IsFaithful :
            (paths : Lru Bytes) (c : Option (Cache lru)) (r : http.Response)
            → IsFaithful c
            → IsFaithful (
                (handle_request os http lru list_directory paths disk site moment [] req
                  (none, c)
                  r).0.1)
        unfolding handle_request request_path is_empty
        handle_request-IsFaithful paths c r h = elim (Result-cases (safe_path disk site req.path)) [
          | inl (e, s) ↦ rw (s, handle_request) h
          | inr (path, s) ↦ rw (s, handle_request) (handle_path-IsFaithful path c r s h)
        ]
