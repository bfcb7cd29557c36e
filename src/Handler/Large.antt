-- ===== src/Handler/Large.antt =====
-- internal/handler/file.go: `serveLargeFile`, which streams a file from disk.
pub mod Lengths
pub mod Answers
use static_web.Prelude.{
  ℕ, ◌+◌, ◌-◌, ◌^◌, ℤ, pos, Bool, true, false, not, ◌&&◌, Option, none, some, List, [], ◌∷◌, ◌++◌,
  Bytes, codes, if◌then◌else◌, length, ltb, lt_int,
}
use static_web.Strings.{is_empty, has_prefix}
use static_web.Strconv.{format, format_int}
use static_web.Paths.{clean, with_separator}
use static_web.Platform.{Platform}
use static_web.Range.{
  HttpRange, RangeError, invalid_range, too_many_ranges, exceeds_content, unsatisfiable, Parsed,
  ranges, failed, parse_range,
}
use static_web.Http.{
  Http, Request, range, content_type, content_length, content_range, accept_ranges, x_cache,
}
use static_web.Cache.File.{CachedFile}
use static_web.Headers.Freshness.{weak_tag, init_headers, init_cache_control}
use static_web.Headers.Caching.{check_not_modified, set_cache_headers}
use static_web.Security.{real_root}
use static_web.Handler.Kinds.{format_hex, type_by_name, detect_content_type}
use static_web.Handler.Sidecars.{Files}
use static_web.Handler.Sending.{
  is_head, range_text, slice, part_head, part_tail, multipart, if_range_allows_range,
}
use static_web.Handler.Disk.{
  FileInfo, Opened, opened, locked, unreadable, Disk, Site, send_forbidden, send_failure,
}

-- The length of the body of several parts, as it is summed up before anything is read.
unfoldable pub parts_length : Bytes → Bytes → ℕ → List HttpRange → ℕ
unfolding part_head part_tail
parts_length boundary media size [] = length (part_tail boundary)
parts_length boundary media size (r ∷ rs) =
    length (part_head boundary media size r) + r.length + parts_length boundary media size rs

-- What is to be sent: the status, the declared length, and the bytes of the opened file.
pub record Plan : Type 0 where
  pub status : ℕ
  pub total : ℕ
  pub pick : Bytes → Bytes

-- The validators of a large file: its size and its time.
unfoldable pub large_file : Bytes → FileInfo → CachedFile
large_file media info =
    let tag = format_hex (pos info.size) ++ (b'-' ∷ format_hex info.mod_time) in
    record {
      content = [];
      gzip_data = none;
      br_data = none;
      zstd_data = none;
      etag = tag;
      etag_full = weak_tag tag;
      last_modified = some info.mod_time;
      content_type = media;
      size = info.size;
      expires_at = none;
      ct_header = [];
      cl_header = [];
      etag_header = [];
      last_mod_header = [];
      vary_header = [];
      cache_control_header = [];
    }

-- The closure `open` and what is read afterwards: the path is checked against the root once more.
unfoldable pub open_large : Disk → Site → Bytes → Opened
open_large disk site path =
    if has_prefix (with_separator (real_root disk.files.eval_symlinks site.abs_root)) (clean path)
    then disk.read_file (clean path)
    else locked

-- `SEC-011`: the hard limit.
abbrev pub exceeds_limit : Site → FileInfo → Bool
exceeds_limit site info =
    lt_int (pos 0) site.cfg.files.max_serve_file_size
    && lt_int site.cfg.files.max_serve_file_size (pos info.size)

module _ (os : Platform) (http : Http) where
  open http use {Response, set_header, set_status, set_stream, error}

  abbrev pub send_unopened : Opened → Response → Response
  send_unopened locked r = send_forbidden os http r
  send_unopened unreadable r = send_failure os http r
  send_unopened (opened content) r = r

  -- HEAD never opens the file; a body is streamed with its length. The second guard is for lengths
  -- above the largest int.
  abbrev pub stream_opened : Plan → Opened → Response → Response
  stream_opened plan locked r = send_unopened locked r
  stream_opened plan unreadable r = send_unopened unreadable r
  stream_opened plan (opened content) r =
      if ltb (2 ^ 63 - 1) plan.total
      then error (codes "Payload Too Large") 413 r
      else set_stream (plan.pick content) plan.total (set_status plan.status r)

  unfoldable pub carry_out : Request → Plan → Opened → Response → Response
  carry_out req plan file r =
      if is_head req.method
      then set_header content_length (format plan.total) (set_status plan.status r)
      else stream_opened plan file r

  -- The switch over the number of ranges.
  unfoldable pub send_ranges :
      Request → Bytes → Bytes → ℕ → Opened → List HttpRange → Response → Response
  unfolding carry_out parts_length
  send_ranges req boundary media size file [] r =
      carry_out req (record { status = 200; total = size; pick = λ content. content }) file r
  send_ranges req boundary media size file (one ∷ []) r =
      carry_out req
        (record { status = 206; total = one.length; pick = λ content. slice content one }) file
        (set_header content_range (range_text one size) r)
  send_ranges req boundary media size file (a ∷ b ∷ more) r =
      carry_out req
        (record {
          status = 206;
          total = parts_length boundary media size (a ∷ b ∷ more);
          pick = λ content. multipart boundary media size content (a ∷ b ∷ more);
        })
        file (set_header content_type (codes "multipart/byteranges; boundary=" ++ boundary) r)

  -- Behind `parseRange`: any error but the sentinel means the full content.
  unfoldable pub send_large_parsed :
      Request → Bytes → Bytes → ℕ → Opened → Parsed → Response → Response
  unfolding send_ranges
  send_large_parsed req boundary media size file (failed unsatisfiable) r =
      set_status 416 (set_header content_range (codes "bytes */" ++ format size) r)
  send_large_parsed req boundary media size file (failed invalid_range) r =
      send_ranges req boundary media size file [] r
  send_large_parsed req boundary media size file (failed too_many_ranges) r =
      send_ranges req boundary media size file [] r
  send_large_parsed req boundary media size file (failed exceeds_content) r =
      send_ranges req boundary media size file [] r
  send_large_parsed req boundary media size file (ranges rs) r =
      send_ranges req boundary media size file rs r

  -- Behind the type: the conditional request, the headers and the ranges.
  unfoldable pub send_large :
      Site → Request → Bytes → Bytes → FileInfo → Bytes → Opened → Response → Response
  unfolding send_large_parsed large_file
  send_large site req boundary url info media file r =
      let f =
        init_cache_control os url site.cfg.headers.html_max_age site.cfg.headers.static_max_age
          site.cfg.headers.immutable_pattern (init_headers os (large_file media info)) in
      let (fresh, r1) = check_not_modified os http req f site.cfg.headers.enable_etags r in
      let r2 = set_header accept_ranges (codes "bytes") (
        set_header x_cache (codes "MISS")
          (set_header content_type media (set_cache_headers os http url f site.cfg.headers r1))) in
      if fresh
      then r1
      else if not (is_empty (req.header range)) && if_range_allows_range os http req r2
      then send_large_parsed req boundary media info.size file
          (parse_range (req.header range) info.size) r2
      else send_ranges req boundary media info.size file [] r2

  -- An unknown extension means that the file is opened for its type first.
  abbrev pub send_sniffed :
      Site → Request → Bytes → Bytes → Bytes → FileInfo → Opened → Response → Response
  send_sniffed site req boundary path url info locked r = send_unopened locked r
  send_sniffed site req boundary path url info unreadable r = send_unopened unreadable r
  send_sniffed site req boundary path url info (opened content) r =
      send_large site req boundary url info (detect_content_type os path (some content))
        (opened content) r

  -- `serveLargeFile`. The file is opened at most once; seeking in it does not fail.
  unfoldable pub serve_large_file :
      Disk → Site → Bytes → Request → Bytes → Bytes → FileInfo → Response → Response
  unfolding send_large open_large
  serve_large_file disk site boundary req path url info r =
      if exceeds_limit site info
      then error
          (codes "Payload Too Large: exceeds max_serve_file_size ("
            ++ (format_int site.cfg.files.max_serve_file_size ++ codes " bytes)"))
          413 r
      else if is_empty (type_by_name os path)
      then send_sniffed site req boundary path url info (open_large disk site path) r
      else send_large site req boundary url info (type_by_name os path) (open_large disk site path)
          r
