-- ===== src/Handler/Large/Lengths.antt =====
-- internal/handler/file.go: the length that `serveLargeFile` declares before it reads the file.
use static_web.Prelude.{
  ◌-◌, ◌^◌, ◌<◌, ◌≡◌, refl, sym, List, [], ◌∷◌, ◌++◌, Bytes, codes, length, length-append, All,
  arith, Bool-cases, inl, inr, ltb,
}
use static_web.Strconv.{format}
use static_web.Platform.{Platform}
use static_web.Range.{
  HttpRange, invalid_range, too_many_ranges, exceeds_content, unsatisfiable, Parsed, ranges, failed,
  parse_range,
}
use static_web.Range.Bounds.{InContent, IsServable, parse_range-IsServable}
use static_web.Http.{get, Http, Request, View, stream, content_range}
use static_web.Handler.Sending.{part_head, slice, multipart}
use static_web.Handler.Partial.{length-slice}
use static_web.Handler.Disk.{opened}
use static_web.Handler.Large.{parts_length, Plan, carry_out, send_ranges, send_large_parsed}

-- The sum that is declared is the length of what is written.
length-multipart :
    (boundary media content : Bytes) (rs : List HttpRange)
    → All (InContent (length content)) rs
    → length (multipart boundary media (length content) content rs)
      ≡ parts_length boundary media (length content) rs
unfolding multipart parts_length
length-multipart boundary media content [] h = refl
length-multipart boundary media content (r ∷ rs) (h, hs) =
    let head = part_head boundary media (length content) r in
    let rest = multipart boundary media (length content) content rs in
    let a = length-append head (slice content r ++ rest) in
    let b = length-append (slice content r) rest in
    let c = length-slice r content h in
    let d = length-multipart boundary media content rs hs in omega (arith, a, b, c, d)

-- A stream whose declared length is that of its bytes, or one of three answers without the content.
pub data IsStreamed (v : View) : Type 0 where
  streamed : (b : Bytes) → v.body ≡ stream b (length b) → IsStreamed v
  too_large : v.status ≡ 413 → IsStreamed v
  not_satisfiable : v.status ≡ 416 → IsStreamed v
  not_modified : v.status ≡ 304 → IsStreamed v

module _ (os : Platform) (http : Http) where
  open http use {Response, view, set_header, set_status}

  carry_out-IsStreamed :
      (req : Request) (plan : Plan) (content : Bytes) (r : Response)
      → req.method ≡ get
      → plan.total ≡ length (plan.pick content)
      → IsStreamed (view (carry_out os http req plan (opened content) r))
  unfolding carry_out
  carry_out-IsStreamed req plan content r g h = elim (Bool-cases (ltb (2 ^ 63 - 1) plan.total)) [
    | inl big ↦
        rw (g, big, carry_out, http.view-error (codes "Payload Too Large") 413 r) (too_large refl)
    | inr small ↦
        rw
          (
            g,
            small,
            carry_out,
            http.view-set_stream (plan.pick content) plan.total (set_status plan.status r),
            h,
          )
          (streamed (plan.pick content) refl)
  ]

  pub send_ranges-IsStreamed :
      (req : Request) (boundary media content : Bytes) (rs : List HttpRange) (r : Response)
      → req.method ≡ get
      → All (InContent (length content)) rs
      → IsStreamed
          (view (send_ranges os http req boundary media (length content) (opened content) rs r))
  unfolding send_ranges
  send_ranges-IsStreamed req boundary media content [] r g h =
      carry_out-IsStreamed req
        (record { status = 200; total = length content; pick = λ content. content }) content r g
        refl
  send_ranges-IsStreamed req boundary media content (one ∷ []) r g h =
      carry_out-IsStreamed req
        (record { status = 206; total = one.length; pick = λ content. slice content one }) content _
        g (sym (length-slice one content h.0))
  send_ranges-IsStreamed req boundary media content (a ∷ b ∷ more) r g h =
      carry_out-IsStreamed req
        (record {
          status = 206;
          total = parts_length boundary media (length content) (a ∷ b ∷ more);
          pick = λ c. multipart boundary media (length content) c (a ∷ b ∷ more);
        })
        content _ g (sym (length-multipart boundary media content (a ∷ b ∷ more) h))

  parsed-IsStreamed :
      (req : Request) (boundary media content : Bytes) (p : Parsed) (r : Response)
      → req.method ≡ get
      → ((rs : List HttpRange) → p ≡ ranges rs → IsServable (length content) rs)
      → IsStreamed (
          view (send_large_parsed os http req boundary media (length content) (opened content) p r))
  unfolding send_large_parsed
  parsed-IsStreamed req boundary media content (failed unsatisfiable) r g h =
      rw
        (http.view-set_status 416
          (set_header content_range (codes "bytes */" ++ format (length content)) r))
        (not_satisfiable refl)
  parsed-IsStreamed req boundary media content (failed invalid_range) r g h =
      send_ranges-IsStreamed req boundary media content [] r g tt
  parsed-IsStreamed req boundary media content (failed too_many_ranges) r g h =
      send_ranges-IsStreamed req boundary media content [] r g tt
  parsed-IsStreamed req boundary media content (failed exceeds_content) r g h =
      send_ranges-IsStreamed req boundary media content [] r g tt
  parsed-IsStreamed req boundary media content (ranges rs) r g h =
      send_ranges-IsStreamed req boundary media content rs r g (h rs refl).inside

  pub send_large_parsed-IsStreamed :
      (req : Request) (boundary media content header : Bytes) (r : Response)
      → req.method ≡ get
      → length content < 2 ^ 62
      → IsStreamed (
          view (
            send_large_parsed os http req boundary media
              (length content)
              (opened content)
              (parse_range header (length content))
              r))
  send_large_parsed-IsStreamed req boundary media content header r g small =
      parsed-IsStreamed req boundary media content (parse_range header (length content)) r g
        (λ rs e. parse_range-IsServable header (length content) small e)
