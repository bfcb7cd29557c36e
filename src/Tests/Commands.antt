-- ===== src/Tests/Commands.antt =====
-- The configuration with its files, variables and flags: cmd/static-web/main.go.
use static_web.Prelude.{
  ◌*◌, ◌^◌, ◌<◌, ◌≡◌, refl, arith, ℤ, pos, false, Option, none, [], ◌++◌, Bytes, codes,
}
use static_web.Strings.{is_empty, cut_at, trim_space}
use static_web.Strconv.{format, parse_int}
use static_web.Config.{Config, defaults, validate}
use static_web.Config.Valid.{IsValid}
use static_web.Config.Loading.{Environment, ConfigFile, no_file, apply_env_overrides}
use static_web.Config.Loading.Reported.{
  malformed_among, all_variables, apply_env_overrides-malformed,
}
use static_web.Command.Sizes.{parse_bytes}
use static_web.Command.Units.{mb, text, factor, exact_size, parse_bytes-exact}
use static_web.Command.Flags.{Overrides, built, load_config}
use static_web.Command.Precedence.{IsLayered, base_of, load_config-built}
use static_web.Tests.Starting.{net}

abbrev no_duration : Bytes → Option ℤ
no_duration s = none

abbrev unset : Environment
unset v = []

-- Every variable is "many".
abbrev many : Environment
many v = codes "many"

abbrev no_files : Bytes → ConfigFile
no_files path = no_file

abbrev only_root : Overrides
only_root = record {
  root = codes "./dist";
  host = [];
  port = pos 0;
  redirect_host = [];
  tls_cert = [];
  tls_key = [];
  tls_port = pos 0;
  index = [];
  not_found = [];
  no_cache = false;
  cache_size = [];
  preload = false;
  gc_percent = pos 0;
  no_compress = false;
  no_etag = false;
  cors = [];
  dir_listing = false;
  no_dotfile_block = false;
  csp = [];
}

abbrev with_root : Config
with_root = record defaults { files = record (defaults.files) { root = codes "./dist" } }

root_built :
    load_config net no_duration no_files unset (codes "config.toml") false only_root
    ≡ built with_root
unfolding load_config is_empty validate defaults cut_at parse_int trim_space
root_built = refl

load_config-built_example :
    IsValid with_root × IsLayered only_root unset (base_of no_files (codes "config.toml")) with_root
load_config-built_example =
    load_config-built net no_duration no_files unset (codes "config.toml") false only_root with_root
      root_built

apply_env_overrides-malformed_example :
    (apply_env_overrides no_duration many defaults).1
    ≡ malformed_among no_duration many all_variables
apply_env_overrides-malformed_example = apply_env_overrides-malformed no_duration many defaults

size_small : 256 < 2 ^ 63
size_small = omega arith

parse_bytes-exact_example : parse_bytes (format 256 ++ text mb) ≡ exact_size (256 * factor mb)
parse_bytes-exact_example = parse_bytes-exact mb 256 size_small
