-- ===== src/Tests/Samples.antt =====
-- The requests, files and stores that the tests use.
use static_web.Prelude.{
  ℕ, pos, true, false, not, none, some, List, [], ◌∷◌, Bytes, codes, take, if◌then◌else◌, length,
}
use static_web.Strings.{bytes_eq}
use static_web.Strconv.{format}
use static_web.Platform.{Platform}
use static_web.Config.{SecurityConfig, CompressionConfig}
use static_web.Http.{get, Request, View, bytes, RequestHeader}
use static_web.Cache.{Entry}
use static_web.Cache.File.{CachedFile}
use static_web.Security.{Evaluated, real, missing}

-- A platform that reads no dates, for which every weight but "0" is above zero.
abbrev pub platform : Platform
platform = record {
  parse_rfc1123 = λ s. none;
  parse_rfc850 = λ s. none;
  parse_ansic = λ s. none;
  parse_http = λ s. none;
  format_time = λ t. codes "date";
  match_glob = λ p s. some false;
  parse_weight = λ s. some (not (bytes_eq s (codes "0")));
  gzip = λ l s. take 2 s;
  zstd = λ s. none;
  mime_type = λ e. if bytes_eq e (codes ".txt") then codes "text/plain" else [];
  sniff = λ s. codes "application/octet-stream";
  sha256 = λ s. s;
}

abbrev pub no_headers : RequestHeader → Bytes
no_headers h = []

abbrev pub get_request : Bytes → (RequestHeader → Bytes) → Request
get_request path headers = record {
  method = get;
  request_uri = path;
  path = path;
  header = headers;
}

abbrev pub blank : View
blank = record { status = 200; body = bytes []; headers = λ n. [] }

abbrev pub file_of : Bytes → CachedFile
file_of content = record {
  content = content;
  gzip_data = some (codes "gz");
  br_data = none;
  zstd_data = none;
  etag = codes "abc";
  etag_full = codes "W/\"abc\"";
  last_modified = none;
  content_type = codes "text/plain";
  size = length content;
  expires_at = none;
  ct_header = codes "text/plain";
  cl_header = format (length content);
  etag_header = codes "W/\"abc\"";
  last_mod_header = [];
  vary_header = [];
  cache_control_header = codes "no-cache";
}

abbrev pub entry : ℕ → Bytes → Entry
entry address content = record { address = address; file = file_of content }

abbrev pub root : List Bytes
root = codes "srv" ∷ []

-- A disk with one directory, /srv, and one file in it.
abbrev pub disk : Bytes → Evaluated
disk p =
    if bytes_eq p (codes "/srv")
    then real (codes "/srv")
    else if bytes_eq p (codes "/srv/a.txt")
    then real (codes "/srv/a.txt")
    else missing

abbrev pub security : SecurityConfig
security = record {
  block_dotfiles = true;
  directory_listing = false;
  cors_origins = codes "https://a.example" ∷ [];
  csp = codes "default-src 'self'";
  referrer_policy = [];
  permissions_policy = [];
  hsts_max_age = pos 0;
  hsts_include_subdomains = false;
}

abbrev pub compression : CompressionConfig
compression = record {
  enabled = true;
  min_size = pos 2;
  level = pos 5;
  precompressed = true;
  max_compress_size = pos 0;
}
