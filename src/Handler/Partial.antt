-- ===== src/Handler/Partial.antt =====
-- What `serveRange` sends.
use static_web.Prelude.{
  ◌^◌, ◌<◌, ◌≡◌, refl, sym, ap, true, List, [], ◌∷◌, ◌++◌, Bytes, codes, length, drop, length-take,
  length-drop, arith, Bool-cases, inl, inr, ◌⊎◌,
}
use static_web.Strconv.{format}
use static_web.Platform.{Platform}
use static_web.Range.{
  HttpRange, invalid_range, too_many_ranges, exceeds_content, unsatisfiable, Parsed, ranges, failed,
}
use static_web.Range.Bounds.{InContent, IsServable, parse_range-IsServable}
use static_web.Range.RoundTrip.{print_ranges, parse_range-print_ranges}
use static_web.Http.{
  get, Http, Request, View, bytes, first, with_header, content_type, content_length, content_range,
  accept_ranges,
}
use static_web.Handler.Sending.{
  range_text, slice, multipart, if_range_allows_range, send_full, send_unsatisfiable, send_one,
  send_many, send_parsed, serve_range,
}

pub length-slice :
    (r : HttpRange) (content : Bytes)
    → InContent (length content) r
    → length (slice content r) ≡ r.length
length-slice r content h =
    omega (arith, length-take r.length (drop r.start content), length-drop r.start content)

-- A response whose body is in memory and has the length that is declared.
pub record IsMeasured (v : View) : Type 0 where
  pub content : Bytes
  pub in_body : v.body ≡ bytes content
  pub declared : v.headers content_length ≡ format (length content) ∷ []

-- What a single range of content is answered with.
pub record IsPartial (content : Bytes) (r : HttpRange) (v : View) : Type 0 where
  pub status : v.status ≡ 206
  pub in_body : v.body ≡ bytes (slice content r)
  pub size : length (slice content r) ≡ r.length
  pub declared : v.headers content_length ≡ format r.length ∷ []
  pub covers : v.headers content_range ≡ range_text r (length content) ∷ []

module _ (os : Platform) (http : Http) where
  open http use {Response, view, set_header, set_status, set_body}

  -- The answers to GET, seen from outside.
  view-send_full :
      (req : Request) (content : Bytes) (r : Response)
      → req.method ≡ get
      → view (send_full os http req content r)
        ≡ record (with_header content_length (format (length content) ∷ []) (view r)) {
          status = 200;
          body = bytes content;
        }
  view-send_full req content r g =
      let a = set_header content_length (format (length content)) r in
      rw (
        g,
        http.view-set_body content (set_status 200 a),
        http.view-set_status 200 a,
        http.view-set_header content_length (format (length content)) r,
      )

  view-send_one :
      (req : Request) (content : Bytes) (one : HttpRange) (r : Response)
      → req.method ≡ get
      → view (send_one os http req content one r)
        ≡ record (with_header content_length
            (format one.length ∷ [])
            (with_header content_range (range_text one (length content) ∷ []) (view r))) {
              status = 206;
              body = bytes (slice content one);
            }
  view-send_one req content one r g =
      let a = set_status 206 r in
      let b = set_header content_range (range_text one (length content)) a in
      let c = set_header content_length (format one.length) b in
      rw (
        g,
        http.view-set_body (slice content one) c,
        http.view-set_header content_length (format one.length) b,
        http.view-set_header content_range (range_text one (length content)) a,
        http.view-set_status 206 r,
      )

  abbrev parts : Bytes → Bytes → List HttpRange → Response → Bytes
  parts boundary content many r =
      multipart boundary (first ((view r).headers content_type)) (length content) content many

  view-send_many :
      (req : Request) (boundary content : Bytes) (many : List HttpRange) (r : Response)
      → req.method ≡ get
      → view (send_many os http req boundary content many r)
        ≡ record (with_header content_length
            (format (length (parts boundary content many r)) ∷ [])
            (with_header content_type
              ((codes "multipart/byteranges; boundary=" ++ boundary) ∷ [])
              (view r))) { status = 206; body = bytes (parts boundary content many r) }
  view-send_many req boundary content many r g =
      let body = parts boundary content many r in
      let a = set_status 206 r in
      let b = set_header content_type (codes "multipart/byteranges; boundary=" ++ boundary) a in
      let c = set_header content_length (format (length body)) b in
      rw (
        g,
        http.view-set_body body c,
        http.view-set_header content_length (format (length body)) b,
        http.view-set_header content_type (codes "multipart/byteranges; boundary=" ++ boundary) a,
        http.view-set_status 206 r,
      )

  view-send_unsatisfiable :
      (content : Bytes) (r : Response)
      → view (send_unsatisfiable os http content r)
        ≡ record (with_header content_length [] (
            with_header content_range
              ((codes "bytes */" ++ format (length content)) ∷ [])
              (view r))) { status = 416; body = bytes [] }
  view-send_unsatisfiable content r =
      let a = set_header content_range (codes "bytes */" ++ format (length content)) r in
      let b = http.del_header content_length a in
      rw (
        http.view-reset_body (set_status 416 b),
        http.view-set_status 416 b,
        http.view-del_header content_length a,
        http.view-set_header content_range (codes "bytes */" ++ format (length content)) r,
      )

  -- Every answer to a GET is measured, apart from 416, which has neither a body nor a length.
  abbrev pub IsAnswer : View → Type 0
  IsAnswer v =
      IsMeasured v ⊎ ((v.status ≡ 416) × (v.body ≡ bytes []) × (v.headers content_length ≡ []))

  send_full-IsAnswer :
      (req : Request) (content : Bytes) (r : Response)
      → req.method ≡ get
      → IsAnswer (view (send_full os http req content r))
  send_full-IsAnswer req content r g =
      rw (view-send_full req content r g)
        (inl (record { content = content; in_body = refl; declared = refl }))

  send_parsed-IsAnswer :
      (req : Request) (boundary content : Bytes) (p : Parsed) (r : Response)
      → req.method ≡ get
      → ((rs : List HttpRange) → p ≡ ranges rs → IsServable (length content) rs)
      → IsAnswer (view (send_parsed os http req boundary content p r))
  unfolding send_parsed
  send_parsed-IsAnswer req boundary content (failed unsatisfiable) r g v =
      rw (view-send_unsatisfiable content r) (inr (refl, refl, refl))
  send_parsed-IsAnswer req boundary content (failed invalid_range) r g v =
      send_full-IsAnswer req content r g
  send_parsed-IsAnswer req boundary content (failed too_many_ranges) r g v =
      send_full-IsAnswer req content r g
  send_parsed-IsAnswer req boundary content (failed exceeds_content) r g v =
      send_full-IsAnswer req content r g
  send_parsed-IsAnswer req boundary content (ranges []) r g v = send_full-IsAnswer req content r g
  send_parsed-IsAnswer req boundary content (ranges (one ∷ [])) r g v =
      let e = length-slice one content (v (one ∷ []) refl).inside.0 in
      rw (view-send_one req content one r g) (
        inl (record {
          content = slice content one;
          in_body = refl;
          declared = ap (λ n. format n ∷ []) (sym e);
        }))
  send_parsed-IsAnswer req boundary content (ranges (a ∷ b ∷ more)) r g v =
      rw (view-send_many req boundary content (a ∷ b ∷ more) r g) (
        inl (record {
          content = parts boundary content (a ∷ b ∷ more) r;
          in_body = refl;
          declared = refl;
        }))

  -- For content below 2^62 bytes every answer of serveRange to a GET has a body of the length that
  -- it declares, be it one range, several parts or the full content; the one other answer is 416,
  -- without a body and without a length.
  pub serve_range-IsAnswer :
      (req : Request) (boundary content header : Bytes) (r : Response)
      → length content < 2 ^ 62
      → req.method ≡ get
      → IsAnswer (view (serve_range os http req boundary content header r))
  unfolding serve_range
  serve_range-IsAnswer req boundary content header r small g =
      let r1 = set_header accept_ranges (codes "bytes") r in
      elim (Bool-cases (if_range_allows_range os http req r1)) [
        | inl allowed ↦
            rw (allowed, serve_range)
              (send_parsed-IsAnswer req boundary content _ r1 g
                (λ rs e. parse_range-IsServable header (length content) small e))
        | inr mismatch ↦ rw (mismatch, serve_range) (send_full-IsAnswer req content r1 g)
      ]

  -- A GET that asks for one range, not empty and inside content below 2^62 bytes, and whose If-
  -- Range does not forbid it, gets 206, just the bytes of that range, and the headers that
  -- describe it.
  pub serve_range-IsPartial :
      (req : Request) (boundary content : Bytes) (one : HttpRange) (r : Response)
      → length content < 2 ^ 62
      → InContent (length content) one
      → req.method ≡ get
      → if_range_allows_range os http req (set_header accept_ranges (codes "bytes") r) ≡ true
      → IsPartial content one
          (view (serve_range os http req boundary content (print_ranges (one ∷ [])) r))
  unfolding serve_range send_parsed
  serve_range-IsPartial req boundary content one r small inside g allowed =
      let servable : IsServable (length content) (one ∷ []) = record {
        inside = (inside, tt);
        some_range = omega arith;
        few = omega arith;
        fits = omega arith;
      } in
      let read = parse_range-print_ranges (one ∷ []) (length content) small servable in
      rw
        (
          allowed,
          serve_range,
          read,
          send_parsed,
          view-send_one req content one (set_header accept_ranges (codes "bytes") r) g,
        )
        (record {
          status = refl;
          in_body = refl;
          size = length-slice one content inside;
          declared = refl;
          covers = refl;
        })
