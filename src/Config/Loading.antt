-- ===== src/Config/Loading.antt =====
-- internal/config/config.go: `Load` and the environment variables.
pub mod Reported
use static_web.Prelude.{
  ℕ, ℤ, Bool, true, false, Option, none, some, List, [], ◌∷◌, ◌++◌, Bytes, codes, map,
  if◌then◌else◌,
}
use static_web.Strings.{bytes_eq, is_empty, lower_byte, split, trim_space}
use static_web.Strconv.{parse_int}
use static_web.Config.{
  ServerConfig, FilesConfig, CacheConfig, CompressionConfig, HeadersConfig, SecurityConfig, Config,
  defaults,
}

-- The variables that `applyEnvOverrides` reads: STATIC_SERVER_ADDR and the others.
pub data Variable : Type 0 where
  server_addr server_tls_addr server_redirect_host server_tls_cert server_tls_key : Variable
  server_read_timeout server_write_timeout server_idle_timeout : Variable
  server_shutdown_timeout server_max_conns_per_ip : Variable
  files_root files_index files_not_found files_max_serve_file_size : Variable
  cache_enabled cache_preload cache_max_bytes cache_max_file_size cache_ttl : Variable
  cache_gc_percent compression_enabled compression_min_size compression_level : Variable
  compression_max_compress_size headers_enable_etags security_block_dotfiles : Variable
  security_directory_listing security_csp security_hsts_max_age : Variable
  security_hsts_include_subdomains security_cors_origins : Variable

-- `os.Getenv`: a variable that is not set is empty.
abbrev pub Environment : Type 0
Environment = Variable → Bytes

-- The target of a variable, and the variables that failed so far: `envReader`.
abbrev pub Reading : Type 0 → Type 0
Reading A = A × List Variable

-- `envReader` over a parser: an unset variable leaves the target, a malformed one is recorded.
unfoldable pub read_with :
    {A : Type 0} → (Bytes → Option A) → Environment → Variable → A → Reading A
read_with parse env name dst =
    if is_empty (env name)
    then (dst, [])
    else elim (parse (env name)) [ none ↦ (dst, name ∷ []) | some value ↦ (value, []) ]

-- `strconv.ParseBool` of the lower-case text.
unfoldable pub parse_bool : Bytes → Option Bool
parse_bool s =
    if bytes_eq s (codes "1")
    then some true
    else if bytes_eq s (codes "t")
    then some true
    else if bytes_eq s (codes "true")
    then some true
    else if bytes_eq s (codes "0")
    then some false
    else if bytes_eq s (codes "f")
    then some false
    else if bytes_eq s (codes "false")
    then some false
    else none

-- `str`.
unfoldable pub read_str : Environment → Variable → Bytes → Bytes
read_str env name dst = if is_empty (env name) then dst else env name

-- `integer` and `int64`: `int` has 64 bits.
unfoldable pub read_integer : Environment → Variable → ℤ → Reading ℤ
unfolding read_with
read_integer = read_with (λ s. parse_int (trim_space s))

-- `boolean`.
unfoldable pub read_boolean : Environment → Variable → Bool → Reading Bool
unfolding read_with parse_bool
read_boolean = read_with (λ s. parse_bool (map lower_byte (trim_space s)))

-- A comma-separated list, each part trimmed.
unfoldable pub read_origins : Bytes → List Bytes → List Bytes
read_origins s dst = if is_empty s then dst else map trim_space (split b',' s)

-- What `os.Stat` and `toml.DecodeFile` make of the file: it is not there, it cannot be accessed, it
-- does not parse, or it changes the configuration.
pub data ConfigFile : Type 0 where
  no_file no_access malformed : ConfigFile
  decodes : (Config → Config) → ConfigFile

pub data LoadError : Type 0 where
  file_not_found file_no_access file_malformed : LoadError
  bad_variables : List Variable → LoadError

pub data Loaded : Type 0 where
  loaded : Config → Loaded
  load_failed : LoadError → Loaded

-- `parse_duration` is `time.ParseDuration`.
module _ (parse_duration : Bytes → Option ℤ) where
  -- `duration`.
  unfoldable pub read_duration : Environment → Variable → ℤ → Reading ℤ
  unfolding read_with
  read_duration = read_with parse_duration

  unfoldable pub server_from_env : Environment → ServerConfig → Reading ServerConfig
  unfolding read_str read_duration read_integer
  server_from_env env c =
      let (read, e1) = read_duration env server_read_timeout c.read_timeout in
      let (write, e2) = read_duration env server_write_timeout c.write_timeout in
      let (idle, e3) = read_duration env server_idle_timeout c.idle_timeout in
      let (down, e4) = read_duration env server_shutdown_timeout c.shutdown_timeout in
      let (conns, e5) = read_integer env server_max_conns_per_ip c.max_conns_per_ip in
      (
        record {
          addr = read_str env server_addr c.addr;
          tls_addr = read_str env server_tls_addr c.tls_addr;
          redirect_host = read_str env server_redirect_host c.redirect_host;
          tls_cert = read_str env server_tls_cert c.tls_cert;
          tls_key = read_str env server_tls_key c.tls_key;
          read_timeout = read;
          write_timeout = write;
          idle_timeout = idle;
          shutdown_timeout = down;
          max_conns_per_ip = conns;
        },
        e1 ++ (e2 ++ (e3 ++ (e4 ++ e5))),
      )

  unfoldable pub files_from_env : Environment → FilesConfig → Reading FilesConfig
  unfolding read_str read_integer
  files_from_env env c =
      let (size, e1) = read_integer env files_max_serve_file_size c.max_serve_file_size in
      (
        record {
          root = read_str env files_root c.root;
          index = read_str env files_index c.index;
          not_found = read_str env files_not_found c.not_found;
          max_serve_file_size = size;
        },
        e1,
      )

  unfoldable pub cache_from_env : Environment → CacheConfig → Reading CacheConfig
  unfolding read_boolean read_integer read_duration
  cache_from_env env c =
      let (on, e1) = read_boolean env cache_enabled c.enabled in
      let (early, e2) = read_boolean env cache_preload c.preload in
      let (all, e3) = read_integer env cache_max_bytes c.max_bytes in
      let (one, e4) = read_integer env cache_max_file_size c.max_file_size in
      let (life, e5) = read_duration env cache_ttl c.ttl in
      let (gc, e6) = read_integer env cache_gc_percent c.gc_percent in
      (
        record {
          enabled = on;
          preload = early;
          max_bytes = all;
          max_file_size = one;
          ttl = life;
          gc_percent = gc;
        },
        e1 ++ (e2 ++ (e3 ++ (e4 ++ (e5 ++ e6)))),
      )

  unfoldable pub compression_from_env : Environment → CompressionConfig → Reading CompressionConfig
  unfolding read_boolean read_integer
  compression_from_env env c =
      let (on, e1) = read_boolean env compression_enabled c.enabled in
      let (least, e2) = read_integer env compression_min_size c.min_size in
      let (effort, e3) = read_integer env compression_level c.level in
      let (most, e4) = read_integer env compression_max_compress_size c.max_compress_size in
      (
        record c { enabled = on; min_size = least; level = effort; max_compress_size = most },
        e1 ++ (e2 ++ (e3 ++ e4)),
      )

  unfoldable pub headers_from_env : Environment → HeadersConfig → Reading HeadersConfig
  unfolding read_boolean
  headers_from_env env c =
      let (tags, e1) = read_boolean env headers_enable_etags c.enable_etags in
      (record c { enable_etags = tags }, e1)

  unfoldable pub security_from_env : Environment → SecurityConfig → Reading SecurityConfig
  unfolding read_str read_boolean read_integer read_origins
  security_from_env env c =
      let (dots, e1) = read_boolean env security_block_dotfiles c.block_dotfiles in
      let (lists, e2) = read_boolean env security_directory_listing c.directory_listing in
      let (age, e3) = read_integer env security_hsts_max_age c.hsts_max_age in
      let (subs, e4) =
        read_boolean env security_hsts_include_subdomains c.hsts_include_subdomains in
      (
        record c {
          block_dotfiles = dots;
          directory_listing = lists;
          csp = read_str env security_csp c.csp;
          hsts_max_age = age;
          hsts_include_subdomains = subs;
          cors_origins = read_origins (env security_cors_origins) c.cors_origins;
        },
        e1 ++ (e2 ++ (e3 ++ e4)),
      )

  -- `applyEnvOverrides`: the configuration, and the variables that are malformed.
  unfoldable pub apply_env_overrides : Environment → Config → Reading Config
  unfolding server_from_env files_from_env cache_from_env compression_from_env headers_from_env
      security_from_env
  apply_env_overrides env c =
      let (server, e1) = server_from_env env c.server in
      let (files, e2) = files_from_env env c.files in
      let (store, e3) = cache_from_env env c.cache in
      let (gz, e4) = compression_from_env env c.compression in
      let (tags, e5) = headers_from_env env c.headers in
      let (rules, e6) = security_from_env env c.security in
      (
        record {
          server = server;
          files = files;
          cache = store;
          compression = gz;
          headers = tags;
          security = rules;
        },
        e1 ++ (e2 ++ (e3 ++ (e4 ++ (e5 ++ e6)))),
      )

  -- The end of `Load`.
  abbrev pub check_reading : Reading Config → Loaded
  check_reading (c, []) = loaded c
  check_reading (c, v ∷ vs) = load_failed (bad_variables (v ∷ vs))

  -- Behind the file.
  unfoldable pub load_decoded : Environment → ConfigFile → Loaded
  unfolding apply_env_overrides
  load_decoded env no_file = load_failed file_not_found
  load_decoded env no_access = load_failed file_no_access
  load_decoded env malformed = load_failed file_malformed
  load_decoded env (decodes change) = check_reading (apply_env_overrides env (change defaults))

  -- `Load`. An empty path means no file.
  unfoldable pub load : (Bytes → ConfigFile) → Environment → Bytes → Loaded
  unfolding load_decoded
  load file env path =
      if is_empty path
      then check_reading (apply_env_overrides env defaults)
      else load_decoded env (file path)
