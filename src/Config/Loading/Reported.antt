-- ===== src/Config/Loading/Reported.antt =====
-- internal/config/config.go: which environment variables `applyEnvOverrides` reports.
use static_web.Prelude.{
  ℤ, Bool, true, false, not, ◌&&◌, Option, none, some, List, [], ◌∷◌, ◌++◌, Bytes, ◌≡◌, refl, sym,
  map, append_assoc, append-nil, if◌then◌else◌, Bool-cases, Option-cases, inl, inr,
}
use static_web.Strings.{is_empty, lower_byte, trim_space}
use static_web.Strconv.{parse_int}
use static_web.Config.{
  ServerConfig, FilesConfig, CacheConfig, CompressionConfig, HeadersConfig, SecurityConfig, Config,
}
use static_web.Config.Loading.{
  Variable, server_addr, server_tls_addr, server_redirect_host, server_tls_cert, server_tls_key,
  server_read_timeout, server_write_timeout, server_idle_timeout, server_shutdown_timeout,
  server_max_conns_per_ip, files_root, files_index, files_not_found, files_max_serve_file_size,
  cache_enabled, cache_preload, cache_max_bytes, cache_max_file_size, cache_ttl, cache_gc_percent,
  compression_enabled, compression_min_size, compression_level, compression_max_compress_size,
  headers_enable_etags, security_block_dotfiles, security_directory_listing, security_csp,
  security_hsts_max_age, security_hsts_include_subdomains, security_cors_origins, Environment,
  read_with, parse_bool, read_integer, read_boolean, read_duration, server_from_env, files_from_env,
  cache_from_env, compression_from_env, headers_from_env, security_from_env, apply_env_overrides,
}

-- How the value of a variable is read.
data Kind : Type 0 where
  text integer boolean duration : Kind

kind_of : Variable → Kind
kind_of server_addr = text
kind_of server_tls_addr = text
kind_of server_redirect_host = text
kind_of server_tls_cert = text
kind_of server_tls_key = text
kind_of server_read_timeout = duration
kind_of server_write_timeout = duration
kind_of server_idle_timeout = duration
kind_of server_shutdown_timeout = duration
kind_of server_max_conns_per_ip = integer
kind_of files_root = text
kind_of files_index = text
kind_of files_not_found = text
kind_of files_max_serve_file_size = integer
kind_of cache_enabled = boolean
kind_of cache_preload = boolean
kind_of cache_max_bytes = integer
kind_of cache_max_file_size = integer
kind_of cache_ttl = duration
kind_of cache_gc_percent = integer
kind_of compression_enabled = boolean
kind_of compression_min_size = integer
kind_of compression_level = integer
kind_of compression_max_compress_size = integer
kind_of headers_enable_etags = boolean
kind_of security_block_dotfiles = boolean
kind_of security_directory_listing = boolean
kind_of security_csp = text
kind_of security_hsts_max_age = integer
kind_of security_hsts_include_subdomains = boolean
kind_of security_cors_origins = text

abbrev is_read : {A : Type 0} → Option A → Bool
is_read none = false
is_read (some a) = true

abbrev server_variables : List Variable
server_variables =
    server_addr ∷ server_tls_addr ∷ server_redirect_host ∷ server_tls_cert ∷ server_tls_key
    ∷ server_read_timeout ∷ server_write_timeout ∷ server_idle_timeout ∷ server_shutdown_timeout
    ∷ server_max_conns_per_ip ∷ []

abbrev files_variables : List Variable
files_variables = files_root ∷ files_index ∷ files_not_found ∷ files_max_serve_file_size ∷ []

abbrev cache_variables : List Variable
cache_variables =
    cache_enabled ∷ cache_preload ∷ cache_max_bytes ∷ cache_max_file_size ∷ cache_ttl
    ∷ cache_gc_percent ∷ []

abbrev compression_variables : List Variable
compression_variables =
    compression_enabled ∷ compression_min_size ∷ compression_level ∷ compression_max_compress_size
    ∷ []

abbrev security_variables : List Variable
security_variables =
    security_block_dotfiles ∷ security_directory_listing ∷ security_csp ∷ security_hsts_max_age
    ∷ security_hsts_include_subdomains ∷ security_cors_origins ∷ []

-- Every variable, in the order of the source.
abbrev pub all_variables : List Variable
all_variables =
    server_variables
    ++ (files_variables
        ++ (cache_variables
            ++ (compression_variables ++ (headers_enable_etags ∷ [] ++ security_variables))))

module _ (parse_duration : Bytes → Option ℤ) where
  reads : Kind → Bytes → Bool
  reads text s = true
  reads integer s = is_read (parse_int (trim_space s))
  reads boolean s = is_read (parse_bool (map lower_byte (trim_space s)))
  reads duration s = is_read (parse_duration s)

  -- Set, and not of its kind.
  is_malformed : Environment → Variable → Bool
  unfolding reads kind_of
  is_malformed env v = not (reads (kind_of v) (env v)) && not (is_empty (env v))

  pub malformed_among : Environment → List Variable → List Variable
  unfolding is_malformed
  malformed_among env [] = []
  malformed_among env (v ∷ vs) =
      (if is_malformed env v then v ∷ [] else []) ++ malformed_among env vs

  malformed_among-append :
      (env : Environment) (vs ws : List Variable)
      → malformed_among env (vs ++ ws) ≡ malformed_among env vs ++ malformed_among env ws
  unfolding malformed_among
  malformed_among-append env [] ws = refl
  malformed_among-append env (v ∷ vs) ws =
      rw (malformed_among-append env vs ws)
        (sym (append_assoc (if is_malformed env v then v ∷ [] else []) (malformed_among env vs) _))

  -- What one variable adds to the errors.
  read_with-problem :
      {A : Type 0} (parse : Bytes → Option A) (env : Environment) (v : Variable) (dst : A)
      → (read_with parse env v dst).1
        ≡ (if not (is_read (parse (env v))) && not (is_empty (env v)) then v ∷ [] else [])
  unfolding read_with
  read_with-problem parse env v dst = elim (Option-cases (parse (env v))) [
    | inl o ↦ elim (Bool-cases (is_empty (env v))) [
      | inl e ↦ rw (e, o, read_with)
      | inr e ↦ rw (e, o, read_with)
    ]
    | inr (a, o) ↦ elim (Bool-cases (is_empty (env v))) [
      | inl e ↦ rw (e, o, read_with)
      | inr e ↦ rw (e, o, read_with)
    ]
  ]

  server_from_env-malformed :
      (env : Environment) (c : ServerConfig)
      → (server_from_env parse_duration env c).1 ≡ malformed_among env server_variables
  unfolding server_from_env malformed_among is_malformed reads kind_of read_integer read_duration
  server_from_env-malformed env c =
      rw
        (
          read_with-problem parse_duration env server_read_timeout c.read_timeout,
          read_with-problem parse_duration env server_write_timeout c.write_timeout,
          read_with-problem parse_duration env server_idle_timeout c.idle_timeout,
          read_with-problem parse_duration env server_shutdown_timeout c.shutdown_timeout,
          read_with-problem (λ s. parse_int (trim_space s)) env server_max_conns_per_ip
              c.max_conns_per_ip,
          append-nil (
              if is_malformed env server_max_conns_per_ip
              then server_max_conns_per_ip ∷ []
              else []),
        )
        refl

  files_from_env-malformed :
      (env : Environment) (c : FilesConfig)
      → (files_from_env parse_duration env c).1 ≡ malformed_among env files_variables
  unfolding files_from_env malformed_among is_malformed reads kind_of read_integer
  files_from_env-malformed env c =
      rw
        (
          read_with-problem (λ s. parse_int (trim_space s)) env files_max_serve_file_size
              c.max_serve_file_size,
          append-nil (
              if is_malformed env files_max_serve_file_size
              then files_max_serve_file_size ∷ []
              else []),
        )
        refl

  cache_from_env-malformed :
      (env : Environment) (c : CacheConfig)
      → (cache_from_env parse_duration env c).1 ≡ malformed_among env cache_variables
  unfolding cache_from_env malformed_among is_malformed reads kind_of read_boolean read_integer
      read_duration
  cache_from_env-malformed env c =
      rw
        (
          read_with-problem (λ s. parse_bool (map lower_byte (trim_space s))) env cache_enabled
              c.enabled,
          read_with-problem (λ s. parse_bool (map lower_byte (trim_space s))) env cache_preload
              c.preload,
          read_with-problem (λ s. parse_int (trim_space s)) env cache_max_bytes c.max_bytes,
          read_with-problem (λ s. parse_int (trim_space s)) env cache_max_file_size c.max_file_size,
          read_with-problem parse_duration env cache_ttl c.ttl,
          read_with-problem (λ s. parse_int (trim_space s)) env cache_gc_percent c.gc_percent,
          append-nil (if is_malformed env cache_gc_percent then cache_gc_percent ∷ [] else []),
        )
        refl

  compression_from_env-malformed :
      (env : Environment) (c : CompressionConfig)
      → (compression_from_env parse_duration env c).1 ≡ malformed_among env compression_variables
  unfolding compression_from_env malformed_among is_malformed reads kind_of read_boolean
      read_integer
  compression_from_env-malformed env c =
      rw
        (
          read_with-problem (λ s. parse_bool (map lower_byte (trim_space s))) env
              compression_enabled c.enabled,
          read_with-problem (λ s. parse_int (trim_space s)) env compression_min_size c.min_size,
          read_with-problem (λ s. parse_int (trim_space s)) env compression_level c.level,
          read_with-problem (λ s. parse_int (trim_space s)) env compression_max_compress_size
              c.max_compress_size,
          append-nil (
              if is_malformed env compression_max_compress_size
              then compression_max_compress_size ∷ []
              else []),
        )
        refl

  headers_from_env-malformed :
      (env : Environment) (c : HeadersConfig)
      → (headers_from_env parse_duration env c).1 ≡ malformed_among env (headers_enable_etags ∷ [])
  unfolding headers_from_env malformed_among is_malformed reads kind_of read_boolean
  headers_from_env-malformed env c =
      rw
        (
          read_with-problem (λ s. parse_bool (map lower_byte (trim_space s))) env
              headers_enable_etags c.enable_etags,
          append-nil
              (if is_malformed env headers_enable_etags then headers_enable_etags ∷ [] else []),
        )
        refl

  security_from_env-malformed :
      (env : Environment) (c : SecurityConfig)
      → (security_from_env parse_duration env c).1 ≡ malformed_among env security_variables
  unfolding security_from_env malformed_among is_malformed reads kind_of read_boolean read_integer
  security_from_env-malformed env c =
      rw
        (
          read_with-problem (λ s. parse_bool (map lower_byte (trim_space s))) env
              security_block_dotfiles c.block_dotfiles,
          read_with-problem (λ s. parse_bool (map lower_byte (trim_space s))) env
              security_directory_listing c.directory_listing,
          read_with-problem (λ s. parse_int (trim_space s)) env security_hsts_max_age
              c.hsts_max_age,
          read_with-problem (λ s. parse_bool (map lower_byte (trim_space s))) env
              security_hsts_include_subdomains c.hsts_include_subdomains,
          append-nil (
              if is_malformed env security_hsts_include_subdomains
              then security_hsts_include_subdomains ∷ []
              else []),
        )
        refl

  malformed_among-glue :
      (env : Environment) (vs ws : List Variable) {xs ys : List Variable}
      → xs ≡ malformed_among env vs
      → ys ≡ malformed_among env ws
      → xs ++ ys ≡ malformed_among env (vs ++ ws)
  malformed_among-glue env vs ws p q = rw (p, q) (sym (malformed_among-append env vs ws))

  -- The variables that applyEnvOverrides reports are just those that are set and do not read as
  -- the integer, Boolean or duration that they stand for, in the order of the source, each once:
  -- no malformed value is dropped.
  pub apply_env_overrides-malformed :
      (env : Environment) (c : Config)
      → (apply_env_overrides parse_duration env c).1 ≡ malformed_among env all_variables
  unfolding apply_env_overrides
  apply_env_overrides-malformed env c =
      malformed_among-glue env server_variables _ (server_from_env-malformed env c.server) (
        malformed_among-glue env files_variables _ (files_from_env-malformed env c.files) (
          malformed_among-glue env cache_variables _ (cache_from_env-malformed env c.cache) (
            malformed_among-glue env compression_variables _
              (compression_from_env-malformed env c.compression)
              (malformed_among-glue env (headers_enable_etags ∷ []) security_variables
                (headers_from_env-malformed env c.headers)
                (security_from_env-malformed env c.security)))))
