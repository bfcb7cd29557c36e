-- ===== src/Compress/Gzip.antt =====
-- internal/compress/compress.go: `Middleware` and the levels.
use static_web.Prelude.{
  ℕ, ℤ, pos, negsuc, Bool, true, false, not, ◌&&◌, ◌||◌, Bytes, codes, ◌==◌, if◌then◌else◌, length,
  ltb, leb, lt_int,
}
use static_web.Strings.{is_empty}
use static_web.Platform.{Platform}
use static_web.Config.{CompressionConfig}
use static_web.Http.{
  Method, get, head, options, other, Http, Request, bytes, stream, first, content_range,
  content_encoding, content_type, content_length,
}
use static_web.Headers.Caching.{add_vary}
use static_web.Compress.{is_compressible, accepts_encoding}

-- The level that `gzipPoolFor` and `GzipBytes` use: -1 outside 1 to 9.
abbrev pub gzip_level : ℤ → ℤ
gzip_level level = if lt_int level (pos 1) || lt_int (pos 9) level then negsuc 0 else level

abbrev pub is_get_or_head : Method → Bool
is_get_or_head get = true
is_get_or_head head = true
is_get_or_head options = false
is_get_or_head other = false

-- The responses that have no body: 1xx, 204 and 304.
abbrev pub is_bodiless : ℕ → Bool
is_bodiless status = (status == 304) || (status == 204) || (leb 100 status && ltb status 200)

abbrev pub length_fits : CompressionConfig → ℕ → Bool
length_fits cfg n =
    not (lt_int (pos n) cfg.min_size)
    && not (lt_int (pos 0) cfg.max_compress_size && lt_int cfg.max_compress_size (pos n))

-- `GzipBytes`: the writer is in memory, and the level is valid, so that nothing fails.
abbrev pub gzip_bytes : Platform → ℤ → Bytes → Bytes
gzip_bytes os level src = os.gzip (gzip_level level) src

module _ (os : Platform) (http : Http) where
  open http use {Response, view, set_header, del_header, set_body}

  -- The work behind the checks.
  abbrev pub compress_body : CompressionConfig → Bytes → Response → Response
  compress_body cfg body r =
      set_body (os.gzip (gzip_level cfg.level) body)
        (del_header content_length (set_header content_encoding (codes "gzip") r))

  -- The checks on the response of the inner handler, in order.
  unfoldable pub post_process : CompressionConfig → Response → Response
  unfolding is_compressible
  post_process cfg r =
      let v = view r in
      if is_bodiless v.status
      then r
      else if not (v.status == 200) || not (is_empty (first (v.headers content_range)))
      then r
      else elim v.body [
        | stream content n ↦ r
        | bytes body ↦
            if not (is_empty (first (v.headers content_encoding)))
            then r
            else if not (is_compressible (first (v.headers content_type)))
            then r
            else if length_fits cfg (length body)
            then compress_body cfg body r
            else r
      ]

  -- `Middleware`. The inner handler has a state of its own.
  unfoldable pub compressed :
      {S : Type 0}
      → CompressionConfig
      → (Request → S → Response → S × Response)
      → Request
      → S
      → Response
      → S × Response
  unfolding post_process accepts_encoding
  compressed cfg next req s r =
      if not cfg.enabled
      then next req s r
      else if not (is_get_or_head req.method)
      then next req s r
      else if not (accepts_encoding os req (codes "gzip"))
      then next req s r
      else (let (s', r') = next req s (add_vary os http (codes "Accept-Encoding") r) in
          (s', post_process cfg r'))
