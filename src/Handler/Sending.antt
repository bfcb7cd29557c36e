-- ===== src/Handler/Sending.antt =====
-- internal/handler/file.go: `serveRange` and `ifRangeAllowsRange`.
use static_web.Prelude.{
  ℕ, ◌+◌, ◌-◌, Bool, true, false, not, ◌&&◌, ◌||◌, none, some, List, [], ◌∷◌, ◌++◌, Bytes, codes,
  if◌then◌else◌, length, take, drop, eq_int,
}
use static_web.Strings.{bytes_eq, is_empty, has_prefix, trim_space}
use static_web.Strconv.{format}
use static_web.Platform.{Platform}
use static_web.Range.{
  HttpRange, invalid_range, too_many_ranges, exceeds_content, unsatisfiable, Parsed, ranges, failed,
  parse_range,
}
use static_web.Http.{
  Method, head, get, options, other, Http, Request, if_range, first, etag, last_modified,
  content_type, content_length, content_range, accept_ranges,
}
use static_web.Headers.{weak_prefix}

abbrev pub is_head : Method → Bool
is_head head = true
is_head get = false
is_head options = false
is_head other = false

abbrev pub crlf : Bytes
crlf = 13 ∷ 10 ∷ []

-- `fmt.Sprintf("bytes %d-%d/%d", ...)` for a range that is not empty.
unfoldable pub range_text : HttpRange → ℕ → Bytes
range_text r size =
    codes "bytes "
    ++ (format r.start ++ (b'-' ∷ (format (r.start + r.length - 1) ++ (b'/' ∷ format size))))

-- `data[r.start : r.start+r.length]`, for a range inside the data.
abbrev pub slice : Bytes → HttpRange → Bytes
slice content r = take r.length (drop r.start content)

-- The head of a part, the same for a file in memory and for one that is streamed.
unfoldable pub part_head : Bytes → Bytes → ℕ → HttpRange → Bytes
unfolding range_text
part_head boundary media size r =
    crlf
    ++ (codes "--"
        ++ (boundary
            ++ (crlf
                ++ (codes "Content-Type: "
                    ++ (media
                        ++ (crlf
                            ++ (codes "Content-Range: "
                                ++ (range_text r size ++ (crlf ++ crlf)))))))))

unfoldable pub part_tail : Bytes → Bytes
part_tail boundary = crlf ++ (codes "--" ++ (boundary ++ (codes "--" ++ crlf)))

-- The loop that writes the parts, and the tail.
unfoldable pub multipart : Bytes → Bytes → ℕ → Bytes → List HttpRange → Bytes
unfolding part_head part_tail
multipart boundary media size content [] = part_tail boundary
multipart boundary media size content (r ∷ rs) =
    part_head boundary media size r ++ (slice content r ++ multipart boundary media size content rs)

module _ (os : Platform) (http : Http) where
  open http use {Response, view, set_header, del_header, set_status, set_body, reset_body}

  -- `ifRangeAllowsRange`, on the entity tag and the date that the response has so far.
  unfoldable pub if_range_allows_range : Request → Response → Bool
  if_range_allows_range req r =
      let v = trim_space (req.header if_range) in
      let tag = first ((view r).headers etag) in
      if is_empty v
      then true
      else if has_prefix (b'"' ∷ []) v || has_prefix weak_prefix v
      then not (has_prefix weak_prefix v)
        && (not (is_empty tag) && (not (has_prefix weak_prefix tag) && bytes_eq tag v))
      else elim (os.parse_http v) [
        | none ↦ false
        | some t ↦ elim (os.parse_http (first ((view r).headers last_modified))) [
          | none ↦ false
          | some lm ↦ eq_int t lm
        ]
      ]

  -- `if !ctx.IsHead() { ctx.SetBody(...) }`
  abbrev pub set_body_unless_head : Request → Bytes → Response → Response
  set_body_unless_head req body r = if is_head req.method then r else set_body body r

  -- The full content, where the ranges are ignored.
  abbrev pub send_full : Request → Bytes → Response → Response
  send_full req content r =
      set_body_unless_head req content
        (set_status 200 (set_header content_length (format (length content)) r))

  abbrev pub send_unsatisfiable : Bytes → Response → Response
  send_unsatisfiable content r = reset_body (
      set_status 416 (
        del_header content_length
          (set_header content_range (codes "bytes */" ++ format (length content)) r)))

  abbrev pub send_one : Request → Bytes → HttpRange → Response → Response
  send_one req content one r = set_body_unless_head req (slice content one) (
      set_header content_length (format one.length)
        (set_header content_range (range_text one (length content)) (set_status 206 r)))

  abbrev pub send_many : Request → Bytes → Bytes → List HttpRange → Response → Response
  send_many req boundary content many r =
      let body =
        multipart boundary (first ((view r).headers content_type)) (length content) content many in
      set_body_unless_head req body (
        set_header content_length (format (length body)) (
          set_header content_type (codes "multipart/byteranges; boundary=" ++ boundary)
            (set_status 206 r)))

  -- The branches of `serveRange` behind `parseRange`.
  unfoldable pub send_parsed : Request → Bytes → Bytes → Parsed → Response → Response
  unfolding range_text multipart
  send_parsed req boundary content (failed unsatisfiable) r = send_unsatisfiable content r
  send_parsed req boundary content (failed invalid_range) r = send_full req content r
  send_parsed req boundary content (failed too_many_ranges) r = send_full req content r
  send_parsed req boundary content (failed exceeds_content) r = send_full req content r
  send_parsed req boundary content (ranges []) r = send_full req content r
  send_parsed req boundary content (ranges (one ∷ [])) r = send_one req content one r
  send_parsed req boundary content (ranges (a ∷ b ∷ more)) r =
      send_many req boundary content (a ∷ b ∷ more) r

  -- `serveRange`; the boundary is what `generateBoundary` gives.
  unfoldable pub serve_range : Request → Bytes → Bytes → Bytes → Response → Response
  unfolding if_range_allows_range send_parsed
  serve_range req boundary content range_header r =
      let r1 = set_header accept_ranges (codes "bytes") r in
      if if_range_allows_range req r1
      then send_parsed req boundary content (parse_range range_header (length content)) r1
      else send_full req content r1
