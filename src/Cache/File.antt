-- ===== src/Cache/File.antt =====
-- `CachedFile` of internal/cache/cache.go: the content of a file and its preformatted headers.
-- A time is its nanoseconds, and `none` the zero `time.Time`; a nil slice is `none`.
use static_web.Prelude.{ℕ, ◌+◌, ℤ, Option, none, some, Bytes, length}

pub record CachedFile : Type 0 where
  pub content : Bytes
  pub gzip_data : Option Bytes
  pub br_data : Option Bytes
  pub zstd_data : Option Bytes
  pub etag : Bytes
  pub etag_full : Bytes
  pub last_modified : Option ℤ
  pub content_type : Bytes
  pub size : ℕ
  pub expires_at : Option ℤ
  pub ct_header : Bytes
  pub cl_header : Bytes
  pub etag_header : Bytes
  pub last_mod_header : Bytes
  pub vary_header : Bytes
  pub cache_control_header : Bytes

abbrev pub cache_overhead : ℕ
cache_overhead = 256

-- `len` of a slice that may be nil.
abbrev pub slice_len : Option Bytes → ℕ
slice_len none = 0
slice_len (some d) = length d

-- `totalSize`: the lengths are of slices in memory, so the sum fits an int64.
unfoldable pub total_size : CachedFile → ℕ
total_size f =
    length f.content
    + slice_len f.gzip_data
    + slice_len f.br_data
    + slice_len f.zstd_data
    + cache_overhead
