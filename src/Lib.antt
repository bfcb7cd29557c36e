-- ===== src/Lib.antt =====
-- static-web: a static file server in Go, and what is proved of it.
--
-- A request passes the security middleware (internal/security), which refuses it or finds the safe
-- path of its URL; then the compression middleware (internal/compress) and the file handler
-- (internal/handler), which answers from the file cache (internal/cache), from disk or from the
-- embedded pages, with the caching headers of internal/headers and, for a Range header, in part.
--
-- internal/server listens, redirects plain HTTP and reacts to signals; cmd/static-web makes the
-- configuration of internal/config from defaults, file, environment and flags, and fills the caches
-- at the start.
--
-- What models what:
-- - Range: `httpRange` and `parseRange` of internal/handler/file.go.
-- - Handler: of internal/handler/file.go, `Requests` is `HandleRequest` and `resolveIndexPath` (and
--   `Requests.Runs` one request after another on a fixed disk), `Disk` is `serveFromDisk`, `Large` is `serveLargeFile`, `Sending` is `serveRange` and
--   `ifRangeAllowsRange`, `Serving` is `serveFromCache`, `negotiateEncoding`, `serveEmbedded`,
--   `serveNotFound` and `handleSecurityError`, `Sidecars` is `ValidateSidecarPath`,
--   `loadSidecarMax` and `LoadSidecar`, `Kinds` is `computeETag` and `detectContentType`.
--   `Listing` is internal/handler/dirlist.go; `Logging` and `Chain` are
--   internal/handler/middleware.go and the constructor of the file handler.
-- - Cache: `Cache` of internal/cache/cache.go as a record that `get`, `put`, `flush` and the others
--   map to a new one; `File` is `CachedFile`. `Session` has sequences of requests and flushes.
--   `Preload` is internal/cache/preload.go.
-- - Lru: github.com/hashicorp/golang-lru/v2 as an interface with laws; `Listed` is an instance.
-- - Security: `pathSafe`, `PathCache` and its operations; `Security.Middleware` is `Middleware` of
--   internal/security/security.go, and `Rooted` in it joins the variants with and without a path
--   cache. The next handler is an argument.
-- - Headers: internal/headers/headers.go, and `InitHeaders` and `InitCacheControl` of
--   internal/cache/cache.go (in `Freshness`).
-- - Compress: internal/compress/compress.go; `Gzip` is its `Middleware`.
-- - Config: the records, `applyDefaults` and `Validate` of internal/config/config.go; `Loading` is
--   `Load`, `applyEnvOverrides` and `envReader`.
-- - Command: of cmd/static-web/main.go, `Sizes` is `parseBytes` and `Flags` is `flagOverrides`,
--   `applyFlagOverrides` and `loadConfig`.
-- - Server: of internal/server/server.go, `Redirect` is `redirectAuthority` and what it calls,
--   `Handlers` and `Listening` are `New`, `Start`, `Shutdown` and `listenNetwork`; `Signals` is
--   internal/server/signals.go, as a run over the events of its loop. `Net` is Go's `net`.
-- - Http: what is used of github.com/valyala/fasthttp, as an interface with laws; `Plain` is an
--   instance. Platform: dates, globs, hashes, media types and compressors of Go, as a record.
-- - Strings, Strconv, Paths: Go's `strings`, `strconv` and `path/filepath`, as far as they are used,
--   on lists of bytes. Prelude: shared names, tests, list lemmas and int64 arithmetic.
--
-- Conventions: a string is its bytes; a nil slice and a zero time are `none`; a time is its
-- nanoseconds; an int64 that may wrap is its bit pattern. The file system is a parameter: what
-- `filepath.EvalSymlinks` answers for each path, at the time of the call.
--
-- Fuel: the loops that cut a header at commas get one more than its length, and each round takes at
-- least a byte; the eviction loop gets the number of entries, and each round takes one. Limits of
-- 2^62 bytes stand where the source adds two int64 sizes.
--
-- Not modelled: the serve loops and the sockets themselves, TLS, the parsing of the command line and
-- of TOML, the HTML of listings, the init, version and help commands,
-- and what the handlers print to the log besides the access lines. Those parts of Go's library
-- are parameters. Concurrency is seen as the order in which the calls take effect; a file is opened
-- and read at one time.

pub mod Cache
pub mod Command
pub mod Compress
pub mod Config
pub mod Handler
pub mod Headers
pub mod Http
pub mod Lru
pub mod Paths
pub mod Platform
pub mod Prelude
pub mod Range
pub mod Security
pub mod Server
pub mod Strconv
pub mod Strings
pub mod Tests
