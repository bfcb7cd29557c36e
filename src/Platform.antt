-- ===== src/Platform.antt =====
-- The parts of Go's standard library that the server calls and that are not modelled: the texts of
-- dates, glob patterns, hashes and the compressors.
use static_web.Prelude.{ℤ, Bool, Option, Bytes}

-- A time is its nanoseconds. `none` stands for an error.
pub record Platform : Type 0 where
  pub parse_rfc1123 : Bytes → Option ℤ
  pub parse_rfc850 : Bytes → Option ℤ
  pub parse_ansic : Bytes → Option ℤ
  -- `net/http.ParseTime`.
  pub parse_http : Bytes → Option ℤ
  -- `t.UTC().Format(HTTPTimeFormat)`; `none` is the zero time.
  pub format_time : Option ℤ → Bytes
  -- `path.Match`, the pattern first.
  pub match_glob : Bytes → Bytes → Option Bool
  -- `strconv.ParseFloat(s, 64)`, as far as its result is read: whether it is above zero.
  pub parse_weight : Bytes → Option Bool
  -- What a `gzip.Writer` of the level writes for the bytes.
  pub gzip : ℤ → Bytes → Bytes
  -- What a `zstd` writer of the default level writes for the bytes; `none` is an error.
  pub zstd : Bytes → Option Bytes
  -- `mime.TypeByExtension`: the empty type for an unknown extension.
  pub mime_type : Bytes → Bytes
  -- `http.DetectContentType`.
  pub sniff : Bytes → Bytes
  -- `sha256.Sum256`.
  pub sha256 : Bytes → Bytes
