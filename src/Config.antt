-- ===== src/Config.antt =====
-- internal/config/config.go: the settings, their defaults and `Validate`. A duration is its
-- nanoseconds.
pub mod Loading
pub mod Valid
use static_web.Prelude.{
  ℕ, ◌*◌, ◌^◌, ℤ, pos, negsuc, Bool, true, false, not, ◌&&◌, ◌||◌, Option, none, some, List, [],
  ◌∷◌, ◌++◌, Bytes, codes, ◌==◌, ltb, lt_int, if◌then◌else◌,
}
use static_web.Strings.{is_empty, trim_space}
use static_web.Strconv.{parse_int}

pub record ServerConfig : Type 0 where
  pub addr : Bytes
  pub tls_addr : Bytes
  pub redirect_host : Bytes
  pub tls_cert : Bytes
  pub tls_key : Bytes
  pub read_timeout : ℤ
  pub write_timeout : ℤ
  pub idle_timeout : ℤ
  pub shutdown_timeout : ℤ
  pub max_conns_per_ip : ℤ

pub record FilesConfig : Type 0 where
  pub root : Bytes
  pub index : Bytes
  pub not_found : Bytes
  pub max_serve_file_size : ℤ

pub record CacheConfig : Type 0 where
  pub enabled : Bool
  pub preload : Bool
  pub max_bytes : ℤ
  pub max_file_size : ℤ
  pub ttl : ℤ
  pub gc_percent : ℤ

pub record CompressionConfig : Type 0 where
  pub enabled : Bool
  pub min_size : ℤ
  pub level : ℤ
  pub precompressed : Bool
  pub max_compress_size : ℤ

pub record HeadersConfig : Type 0 where
  pub immutable_pattern : Bytes
  pub static_max_age : ℤ
  pub html_max_age : ℤ
  pub enable_etags : Bool

pub record SecurityConfig : Type 0 where
  pub block_dotfiles : Bool
  pub directory_listing : Bool
  pub cors_origins : List Bytes
  pub csp : Bytes
  pub referrer_policy : Bytes
  pub permissions_policy : Bytes
  pub hsts_max_age : ℤ
  pub hsts_include_subdomains : Bool

pub record Config : Type 0 where
  pub server : ServerConfig
  pub files : FilesConfig
  pub cache : CacheConfig
  pub compression : CompressionConfig
  pub headers : HeadersConfig
  pub security : SecurityConfig

abbrev second : ℕ
second = 10 ^ 9

-- `applyDefaults` on the zero `Config`.
unfoldable pub defaults : Config
defaults = record {
  server = record {
    addr = codes ":8080";
    tls_addr = codes ":8443";
    redirect_host = [];
    tls_cert = [];
    tls_key = [];
    read_timeout = pos (10 * second);
    write_timeout = pos (10 * second);
    idle_timeout = pos (75 * second);
    shutdown_timeout = pos (15 * second);
    max_conns_per_ip = pos 0;
  };
  files = record {
    root = codes "./public";
    index = codes "index.html";
    not_found = [];
    max_serve_file_size = pos (1024 * 1024 * 1024);
  };
  cache = record {
    enabled = true;
    preload = false;
    max_bytes = pos (256 * 1024 * 1024);
    max_file_size = pos (10 * 1024 * 1024);
    ttl = pos 0;
    gc_percent = pos 0;
  };
  compression = record {
    enabled = true;
    min_size = pos 1024;
    level = pos 5;
    precompressed = true;
    max_compress_size = pos (10 * 1024 * 1024);
  };
  headers = record {
    immutable_pattern = [];
    static_max_age = pos 3600;
    html_max_age = pos 0;
    enable_etags = true;
  };
  security = record {
    block_dotfiles = true;
    directory_listing = false;
    cors_origins = [];
    csp = codes "default-src 'self'";
    referrer_policy = codes "strict-origin-when-cross-origin";
    permissions_policy = codes "geolocation=(), microphone=(), camera=()";
    hsts_max_age = pos 31536000;
    hsts_include_subdomains = false;
  };
}

-- The problems that `Validate` collects, without the values that their texts quote.
pub data Problem : Type 0 where
  bad_addr tls_pair bad_tls_addr read_timeout write_timeout idle_timeout : Problem
  shutdown_timeout cache_ttl max_conns_per_ip empty_root max_serve_file_size : Problem
  max_bytes max_file_size gc_percent min_size max_compress_size level : Problem
  static_max_age html_max_age hsts_max_age : Problem

abbrev pub is_negative : ℤ → Bool
is_negative n = lt_int n (pos 0)

-- `if test { add(problem) }`.
abbrev pub report : Bool → Problem → List Problem
report test problem = if test then problem ∷ [] else []

-- `net.SplitHostPort` gives the port, or an error.
module _ (split_host_port : Bytes → Option Bytes) where
  -- `validateListenAddr`: whether there is an error. `strconv.Atoi` is `ParseInt` on 64 bits.
  unfoldable pub is_bad_addr : Bytes → Bool
  is_bad_addr addr = if is_empty addr then true else elim (split_host_port addr) [
    | none ↦ true
    | some port ↦ elim (parse_int port) [
      | none ↦ true
      | some n ↦ is_negative n || lt_int (pos 65535) n
    ]
  ]

  pub validate_server : ServerConfig → List Problem
  unfolding is_bad_addr
  validate_server c =
      let cert_set = not (is_empty c.tls_cert) in
      let key_set = not (is_empty c.tls_key) in
      report (is_bad_addr c.addr) bad_addr
      ++ (report ((cert_set && not key_set) || (not cert_set && key_set)) tls_pair
          ++ report (cert_set && key_set && is_bad_addr c.tls_addr) bad_tls_addr)

  pub validate_timeouts : Config → List Problem
  validate_timeouts c =
      report (is_negative c.server.read_timeout) read_timeout
      ++ (report (is_negative c.server.write_timeout) write_timeout
          ++ (report (is_negative c.server.idle_timeout) idle_timeout
              ++ (report (is_negative c.server.shutdown_timeout) shutdown_timeout
                  ++ (report (is_negative c.cache.ttl) cache_ttl
                      ++ report (is_negative c.server.max_conns_per_ip) max_conns_per_ip))))

  pub validate_storage : Config → List Problem
  validate_storage c =
      report (is_empty (trim_space c.files.root)) empty_root
      ++ (report (is_negative c.files.max_serve_file_size) max_serve_file_size
          ++ (report (c.cache.enabled && not (lt_int (pos 0) c.cache.max_bytes)) max_bytes
              ++ (report (c.cache.enabled && not (lt_int (pos 0) c.cache.max_file_size))
                    max_file_size
                  ++ report (is_negative c.cache.gc_percent) gc_percent)))

  -- -1 is the default level.
  pub is_bad_level : ℤ → Bool
  is_bad_level (pos n) = ltb n 1 || ltb 9 n
  is_bad_level (negsuc n) = not (n == 0)

  pub validate_response : Config → List Problem
  unfolding is_bad_level
  validate_response c =
      report (is_negative c.compression.min_size) min_size
      ++ (report (is_negative c.compression.max_compress_size) max_compress_size
          ++ (report (c.compression.enabled && is_bad_level c.compression.level) level
              ++ (report (is_negative c.headers.static_max_age) static_max_age
                  ++ (report (is_negative c.headers.html_max_age) html_max_age
                      ++ report (is_negative c.security.hsts_max_age) hsts_max_age))))

  -- `Validate`: no problem means that there is no error.
  unfoldable pub validate : Config → List Problem
  unfolding validate_server validate_timeouts validate_storage validate_response
  validate c =
      validate_server c.server
      ++ (validate_timeouts c ++ (validate_storage c ++ validate_response c))
