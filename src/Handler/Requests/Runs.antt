-- ===== src/Handler/Requests/Runs.antt =====
-- internal/handler/file.go: runs of requests on a disk that does not change.
use static_web.Prelude.{ℤ, Option, none, some, List, [], ◌∷◌, Bytes, ◌≡◌}
use static_web.Platform.{Platform}
use static_web.Http.{Http, Request}
use static_web.Lru.{Lru}
use static_web.Cache.{Entry, Cache, new_cache}
use static_web.Handler.Disk.{Disk, Site, Moment, cached}
use static_web.Handler.Requests.{handle_request}
use static_web.Handler.Requests.Faithful.{
  OnDisk, IsFaithful, cached_hit-EveryIn, handle_request-IsFaithful,
}

module _ (os : Platform) (http : Http) (lru : Lru Entry) (paths : Lru Bytes)
    (list_directory : Request → Bytes → Bytes → http.Response → http.Response) (disk : Disk)
    (site : Site) where
  -- The file handler alone, whose paths come from `PathSafe`, on one request after another, each with
  -- its time and an empty response.
  unfoldable pub serve_requests :
      List (Moment × Request × http.Response) → Option (Cache lru) → Option (Cache lru)
  unfolding handle_request
  serve_requests [] c = c
  serve_requests ((moment, req, r) ∷ more) c =
      serve_requests more
        (handle_request os http lru list_directory paths disk site moment [] req (none, c) r).0.1

  serve_requests-IsFaithful :
      (requests : List (Moment × Request × http.Response)) (c : Option (Cache lru))
      → IsFaithful disk site lru c
      → IsFaithful disk site lru (serve_requests requests c)
  unfolding serve_requests
  serve_requests-IsFaithful [] c h = h
  serve_requests-IsFaithful ((moment, req, r) ∷ more) c h =
      serve_requests-IsFaithful more
        (handle_request os http lru list_directory paths disk site moment [] req (none, c) r).0.1
        (handle_request-IsFaithful disk site lru os http moment req list_directory paths c r h)

  new_cache-IsFaithful :
      (max : ℤ) (ttl : List ℤ) → IsFaithful disk site lru (some (new_cache lru max ttl))
  unfolding new_cache
  new_cache-IsFaithful max ttl = rw lru.entries-new tt

  -- On a disk that does not change, whatever requests a file handler with a new file cache has
  -- served, with no path cache and no path left by the middleware, each hit of the file cache has
  -- the content that the disk holds under the path to which PathSafe leads from its key.
  pub serve_requests-OnDisk :
      (requests : List (Moment × Request × http.Response)) (max now : ℤ) (ttl : List ℤ)
      (key : Bytes) (e : Entry)
      → (cached lru site now key (serve_requests requests (some (new_cache lru max ttl)))).0
        ≡ some e
      → OnDisk disk site (key, e)
  serve_requests-OnDisk requests max now ttl key e hit =
      cached_hit-EveryIn lru (OnDisk disk site) site now key e
        (serve_requests requests (some (new_cache lru max ttl)))
        (serve_requests-IsFaithful requests (some (new_cache lru max ttl))
          (new_cache-IsFaithful max ttl))
        hit
