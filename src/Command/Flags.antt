-- ===== src/Command/Flags.antt =====
-- cmd/static-web/main.go: `flagOverrides`, `applyFlagOverrides` and `loadConfig`.
use static_web.Prelude.{
  ℤ, pos, Bool, true, false, not, ◌&&◌, Option, none, some, List, [], ◌∷◌, Bytes, if◌then◌else◌,
  eq_int,
}
use static_web.Strings.{is_empty}
use static_web.Strconv.{format_int}
use static_web.Config.{
  ServerConfig, FilesConfig, CacheConfig, SecurityConfig, Config, Problem, validate,
}
use static_web.Config.Loading.{
  Environment, read_origins, ConfigFile, no_file, no_access, malformed, decodes, LoadError, Loaded,
  loaded, load_failed, load,
}
use static_web.Server.Net.{Net}
use static_web.Command.Sizes.{Size, SizeError, size, bad_size, parse_bytes}

pub record Overrides : Type 0 where
  pub root : Bytes
  pub host : Bytes
  pub port : ℤ
  pub redirect_host : Bytes
  pub tls_cert : Bytes
  pub tls_key : Bytes
  pub tls_port : ℤ
  pub index : Bytes
  pub not_found : Bytes
  pub no_cache : Bool
  pub cache_size : Bytes
  pub preload : Bool
  pub gc_percent : ℤ
  pub no_compress : Bool
  pub no_etag : Bool
  pub cors : Bytes
  pub dir_listing : Bool
  pub no_dotfile_block : Bool
  pub csp : Bytes

-- `if value != "" { dst = value }`
abbrev pub override : Bytes → Bytes → Bytes
override value dst = if is_empty value then dst else value

-- `effectivePort`: the short flag wins where it is given.
pub effective_port : ℤ → ℤ → ℤ
effective_port short long = if eq_int short (pos 0) then long else short

-- What `applyFlagOverrides` returns: the error, or the configuration.
pub data Applied : Type 0 where
  applied : Config → Applied
  bad_cache_size : SizeError → Applied

-- What `loadConfig` returns.
pub data Built : Type 0 where
  built : Config → Built
  not_loaded : LoadError → Built
  bad_flag : SizeError → Built
  invalid : List Problem → Built

-- The end of `loadConfig`.
abbrev pub check_config : Config → List Problem → Built
check_config c [] = built c
check_config c (p ∷ ps) = invalid (p ∷ ps)

abbrev pub is_missing : ConfigFile → Bool
is_missing no_file = true
is_missing no_access = false
is_missing malformed = false
is_missing (decodes change) = false

module _ (net : Net) where
  -- The host and the port; on an error both are empty.
  abbrev pub split_or_empty : Bytes → Bytes × Bytes
  split_or_empty addr = elim (net.split_host_port addr) [ none ↦ ([], []) | some p ↦ p ]

  -- The address with the host and port that were given.
  unfoldable pub override_addr : Bytes → ℤ → Bytes → Bytes
  override_addr host port addr =
      let (current_host, current_port) = split_or_empty addr in
      if is_empty host && eq_int port (pos 0)
      then addr
      else net.join_host_port (override host current_host)
          (if eq_int port (pos 0) then current_port else format_int port)

  -- The TLS address with the port that was given.
  unfoldable pub override_tls_port : ℤ → Bytes → Bytes
  override_tls_port port addr =
      if eq_int port (pos 0)
      then addr
      else net.join_host_port (split_or_empty addr).0 (format_int port)

  abbrev pub server_with : Overrides → ServerConfig → ServerConfig
  server_with f c = record c {
    addr = override_addr f.host f.port c.addr;
    tls_cert = override f.tls_cert c.tls_cert;
    redirect_host = override f.redirect_host c.redirect_host;
    tls_key = override f.tls_key c.tls_key;
    tls_addr = override_tls_port f.tls_port c.tls_addr;
  }

  abbrev pub files_with : Overrides → FilesConfig → FilesConfig
  files_with f c = record c {
    root = override f.root c.root;
    index = override f.index c.index;
    not_found = override f.not_found c.not_found;
  }

  -- The cache settings, the size given apart.
  abbrev pub cache_with : Overrides → ℤ → CacheConfig → CacheConfig
  cache_with f max c = record c {
    enabled = if f.no_cache then false else c.enabled;
    preload = if f.preload then true else c.preload;
    gc_percent = if eq_int f.gc_percent (pos 0) then c.gc_percent else f.gc_percent;
    max_bytes = max;
  }

  abbrev pub security_with : Overrides → SecurityConfig → SecurityConfig
  security_with f c = record c {
    cors_origins = read_origins f.cors c.cors_origins;
    directory_listing = if f.dir_listing then true else c.directory_listing;
    block_dotfiles = if f.no_dotfile_block then false else c.block_dotfiles;
    csp = override f.csp c.csp;
  }

  -- Everything, with the cache size that the flag comes to.
  unfoldable pub with_flags : Overrides → ℤ → Config → Config
  unfolding override_addr override_tls_port read_origins
  with_flags f max c = record {
    server = server_with f c.server;
    files = files_with f c.files;
    cache = cache_with f max c.cache;
    compression = record (c.compression) {
      enabled = if f.no_compress then false else c.compression.enabled;
    };
    headers = record (c.headers) {
      enable_etags = if f.no_etag then false else c.headers.enable_etags;
    };
    security = security_with f c.security;
  }

  -- With the size that the flag comes to.
  abbrev pub apply_size : Config → Overrides → Size → Applied
  apply_size c f (bad_size e) = bad_cache_size e
  apply_size c f (size n) = applied (with_flags f (pos n) c)

  -- `applyFlagOverrides`.
  unfoldable pub apply_flag_overrides : Config → Overrides → Applied
  unfolding with_flags parse_bytes
  apply_flag_overrides c f =
      if is_empty f.cache_size
      then applied (with_flags f c.cache.max_bytes c)
      else apply_size c f (parse_bytes f.cache_size)

  -- The port that `net.SplitHostPort` gives.
  abbrev pub port_of : Bytes → Option Bytes
  port_of addr = elim (net.split_host_port addr) [ none ↦ none | some (h, p) ↦ some p ]

  -- Behind the flags: `Validate`.
  unfoldable pub finish_config : Applied → Built
  finish_config (applied c) = check_config c (validate port_of c)
  finish_config (bad_cache_size e) = bad_flag e

  -- Behind the file and the environment.
  abbrev pub override_loaded : Overrides → Loaded → Built
  override_loaded f (load_failed e) = not_loaded e
  override_loaded f (loaded c) = finish_config (apply_flag_overrides c f)

  module _ (parse_duration : Bytes → Option ℤ) where
    -- `loadConfig`. A default path that does not exist means no file.
    unfoldable pub load_config :
        (Bytes → ConfigFile) → Environment → Bytes → Bool → Overrides → Built
    unfolding load apply_flag_overrides finish_config
    load_config file env path explicit f =
        override_loaded f (
          load parse_duration file env
            (if not explicit && is_missing (file path) then [] else path))
