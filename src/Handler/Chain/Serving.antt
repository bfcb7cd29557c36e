-- ===== src/Handler/Chain/Serving.antt =====
-- internal/handler/middleware.go: what runs of requests through the chain do to the file cache.
use static_web.Prelude.{Option, List, [], ◌∷◌, Bytes, codes, Bool-cases, inl, inr}
use static_web.Platform.{Platform}
use static_web.Config.{CompressionConfig}
use static_web.Http.{Http, Request}
use static_web.Lru.{Lru}
use static_web.Cache.{Entry, Cache}
use static_web.Compress.{accepts_encoding}
use static_web.Compress.Gzip.{compressed, is_get_or_head}
use static_web.Security.Middleware.{Screened, answered, passed}
use static_web.Handler.Disk.{Disk, Site, Moment}
use static_web.Handler.Requests.{handle_request}
use static_web.Handler.Requests.Counting.{IsCounted, handle_request-IsCounted}
use static_web.Handler.Chain.{Caches, serve_compressed, pass_on, serve_secured}

module _ (os : Platform) (http : Http) where
  -- What the inner handler keeps, the middleware around it keeps.
  compressed-keeps :
      {S : Type 0} (P : S → Type 0) (cfg : CompressionConfig)
      (next : Request → S → http.Response → S × http.Response) (req : Request) (s : S)
      (r : http.Response)
      → ((r : http.Response) → P (next req s r).0)
      → P (compressed os http cfg next req s r).0
  unfolding compressed
  compressed-keeps P cfg next req s r keep = elim (Bool-cases cfg.enabled) [
    | inr off ↦ rw (off, compressed) (keep r)
    | inl on ↦ elim (Bool-cases (is_get_or_head req.method)) [
      | inr m ↦ rw (on, m, compressed) (keep r)
      | inl m ↦ elim (Bool-cases (accepts_encoding os req (codes "gzip"))) [
        | inr a ↦ rw (on, m, a, compressed) (keep r)
        | inl a ↦ rw (on, m, a, compressed) (keep _)
      ]
    ]
  ]

  module _ (lru : Lru Entry) (paths : Lru Bytes)
      (list_directory : Request → Bytes → Bytes → http.Response → http.Response) where
    abbrev CountedIn : Caches os http lru paths → Type 0
    CountedIn (pc, c) = IsCounted lru c

    pass_on-IsCounted :
        (disk : Disk) (site : Site) (moment : Moment) (user_value : Bytes) (req : Request)
        (s : Caches os http lru paths) (screened : Screened http.Response)
        → CountedIn s
        → CountedIn
            (pass_on os http lru paths list_directory disk site moment user_value req s screened).0
    unfolding serve_compressed
    pass_on-IsCounted disk site moment user_value req s (answered r) v = v
    pass_on-IsCounted disk site moment user_value req (pc, c) (passed path r) v =
        compressed-keeps CountedIn site.cfg.compression
          (handle_request os http lru list_directory paths disk site moment user_value) req (pc, c)
          r
          (λ r'.
            handle_request-IsCounted lru os http disk site moment req list_directory paths
              user_value pc c r' v)

    serve_secured-IsCounted :
        (disk : Disk) (site : Site) (moment : Moment) (req : Request) (s : Caches os http lru paths)
        (r : http.Response)
        → CountedIn s
        → CountedIn (serve_secured os http lru paths list_directory disk site moment req s r).0
    unfolding serve_secured
    serve_secured-IsCounted disk site moment req (pc, c) r v =
        pass_on-IsCounted disk site moment _ req (_, c) _ v

    -- The requests of a server, one after another, each with the file system and the time that it
    -- meets, and an empty response.
    pub serve_all :
        Site
        → List (Disk × Moment × Request × http.Response)
        → Caches os http lru paths
        → Caches os http lru paths
    unfolding serve_secured
    serve_all site [] s = s
    serve_all site ((disk, moment, req, r) ∷ more) s =
        serve_all site more
          (serve_secured os http lru paths list_directory disk site moment req s r).0

    -- Whatever requests the chain of middlewares and file handler serves, one after another and
    -- whatever the file system is at each of them, the byte count of the file cache stays the size
    -- of what it holds, with no path held twice and within the limit, if it was so before.
    pub serve_all-IsCounted :
        (site : Site) (requests : List (Disk × Moment × Request × http.Response))
        (pc : Option paths.Store) (c : Option (Cache lru))
        → IsCounted lru c
        → IsCounted lru (serve_all site requests (pc, c)).1
    unfolding serve_all
    serve_all-IsCounted site [] pc c v = v
    serve_all-IsCounted site ((disk, moment, req, r) ∷ more) pc c v =
        let s = (serve_secured os http lru paths list_directory disk site moment req (pc, c) r).0 in
        serve_all-IsCounted site more s.0 s.1
          (serve_secured-IsCounted disk site moment req (pc, c) r v)
