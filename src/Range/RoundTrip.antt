-- ===== src/Range/RoundTrip.antt =====
-- A header that asks for ranges of the content is answered with just these.
use static_web.Prelude.{
  add_int64, gt_int64, ℕ, zero, suc, ◌+◌, ◌-◌, ◌^◌, ◌≤◌, ◌<◌, some, List, [], ◌∷◌, ◌++◌, map, ◌≡◌,
  ◌≢◌, ap, append_assoc, append-nil, Bytes, arith, All, All-append, length, length-append, false,
  codes, ltb, ◌∙◌,
}
use static_web.Strings.{is_empty, cut_at, split, join, trim_space}
use static_web.Strings.Trim.{IsPlain, trim_space-plain}
use static_web.Strings.Laws.{
  Lacks, not_empty, append_cons-ne-nil, strip-append, cut_at-append, split-join,
}
use static_web.Strconv.{format}
use static_web.Strconv.Laws.{IsDigit, format-IsDigit, format-ne-nil, parse_int-format}
use static_web.Range.{
  HttpRange, ranges, keep, from_first, closed_range, first_range, spec_of, parse_spec, scan_specs,
  parse_range, max_ranges,
}
use static_web.Range.Bounds.{InContent, total_length, IsServable}
use mathlib.Core.List.{cons-ne-nil}

-- `first-last`, as a client writes a range.
pub print_spec : HttpRange → Bytes
print_spec r = format r.start ++ b'-' ∷ format (r.start + r.length - 1)

pub print_ranges : List HttpRange → Bytes
print_ranges rs = codes "bytes=" ++ join (b',' ∷ []) (map print_spec rs)

digits-IsPlain : (s : Bytes) → All IsDigit s → All IsPlain s
digits-IsPlain [] h = tt
digits-IsPlain (c ∷ s) h = (omega arith, digits-IsPlain s h.1)

digits-Lacks : (b : ℕ) (s : Bytes) → b < b'0' → All IsDigit s → Lacks b s
digits-Lacks b [] l h = tt
digits-Lacks b (c ∷ s) l h = (omega arith, digits-Lacks b s l h.1)

print_spec-IsPlain : (r : HttpRange) → All IsPlain (print_spec r)
unfolding print_spec
print_spec-IsPlain r =
    All-append IsPlain (format r.start) (b'-' ∷ format (r.start + r.length - 1))
      (digits-IsPlain _ (format-IsDigit r.start))
      (omega arith, digits-IsPlain _ (format-IsDigit (r.start + r.length - 1)))

print_spec-Lacks : (r : HttpRange) → Lacks b',' (print_spec r)
unfolding print_spec
print_spec-Lacks r =
    All-append (λ c. c ≢ b',') (format r.start) (b'-' ∷ format (r.start + r.length - 1))
      (digits-Lacks b',' _ (omega arith) (format-IsDigit r.start))
      (omega arith, digits-Lacks b',' _ (omega arith) (format-IsDigit (r.start + r.length - 1)))

spec_of-format :
    (r : HttpRange) (size : ℕ)
    → size < 2 ^ 62
    → InContent size r
    → spec_of (format r.start) (format (r.start + r.length - 1)) size ≡ keep r
unfolding spec_of first_range closed_range from_first
spec_of-format r size small h = ground (
  arith,
  not_empty (format r.start) (format-ne-nil r.start),
  not_empty (format (r.start + r.length - 1)) (format-ne-nil (r.start + r.length - 1)),
  parse_int-format r.start (omega arith),
  parse_int-format (r.start + r.length - 1) (omega arith),
)

trim_space-format : (n : ℕ) → trim_space (format n) ≡ format n
trim_space-format n = trim_space-plain (format n) (digits-IsPlain _ (format-IsDigit n))

parse_spec-cut_at :
    (ra l r : Bytes) (size : ℕ)
    → cut_at b'-' ra ≡ some (l, r)
    → parse_spec ra size ≡ spec_of (trim_space l) (trim_space r) size
unfolding parse_spec
parse_spec-cut_at ra l r size e = rw (e, parse_spec)

parse_spec-print_spec :
    (r : HttpRange) (size : ℕ)
    → size < 2 ^ 62
    → InContent size r
    → parse_spec (print_spec r) size ≡ keep r
unfolding print_spec
parse_spec-print_spec r size small h =
    parse_spec-cut_at (print_spec r) (format r.start) (format (r.start + r.length - 1)) size (
      cut_at-append b'-' (format r.start) (format (r.start + r.length - 1))
        (digits-Lacks b'-' _ (omega arith) (format-IsDigit r.start)))
    ∙ rw (trim_space-format r.start, trim_space-format (r.start + r.length - 1))
        (spec_of-format r size small h)

print_spec-not_empty : (r : HttpRange) → is_empty (trim_space (print_spec r)) ≡ false
unfolding print_spec
print_spec-not_empty r =
    rw (trim_space-plain _ (print_spec-IsPlain r))
      (not_empty _ (append_cons-ne-nil (format r.start) b'-' _))

scan_specs-print :
    (rs : List HttpRange) (size specs total : ℕ) (out : List HttpRange)
    → size < 2 ^ 62
    → All (InContent size) rs
    → total + total_length rs ≤ size
    → specs + length rs ≤ max_ranges
    → 0 < specs + length rs
    → 0 < length out + length rs
    → scan_specs (map print_spec rs) size specs total out ≡ ranges (out ++ rs)
unfolding scan_specs
scan_specs-print [] size zero total out small inside fits few n m = absurd (omega arith)
scan_specs-print [] size (suc specs) total [] small inside fits few n m = absurd (omega arith)
scan_specs-print [] size (suc specs) total (r ∷ out) small inside fits few n m = rw append-nil
scan_specs-print (r ∷ rs) size specs total out small inside fits few n m =
    let g : gt_int64 (add_int64 total r.length) size ≡ false = ground arith in
    let c : ltb max_ranges (specs + 1) ≡ false = ground arith in
    let p : trim_space (print_spec r) ≡ print_spec r = trim_space-plain _ (print_spec-IsPlain r) in
    let a : add_int64 total r.length ≡ total + r.length = ground arith in
    let ih : scan_specs (map print_spec rs) size (suc specs) (total + r.length) (out ++ r ∷ [])
        ≡ ranges ((out ++ r ∷ []) ++ rs) =
      scan_specs-print rs size (suc specs) (total + r.length) (out ++ r ∷ []) small inside.1
        (omega arith) (omega arith) (omega arith) (omega (arith, length-append out (r ∷ []))) in
    rw (print_spec-not_empty r, c, p, parse_spec-print_spec r size small inside.0, g, scan_specs)
      (rw (a, ih) (ap ranges (append_assoc out (r ∷ []) rs)))

map-print_spec-Lacks : (rs : List HttpRange) → All (Lacks b',') (map print_spec rs)
map-print_spec-Lacks [] = tt
map-print_spec-Lacks (r ∷ rs) = (print_spec-Lacks r, map-print_spec-Lacks rs)

split-print :
    (rs : List HttpRange)
    → 0 < length rs
    → split b',' (join (b',' ∷ []) (map print_spec rs)) ≡ map print_spec rs
split-print [] h = absurd (omega arith)
split-print (r ∷ rs) h =
    split-join b',' (map print_spec (r ∷ rs)) (cons-ne-nil _ _) (map-print_spec-Lacks (r ∷ rs))

-- Reading the header that asks for some servable ranges of content below 2^62 bytes gives these
-- ranges, in order.
pub parse_range-print_ranges :
    (rs : List HttpRange) (size : ℕ)
    → size < 2 ^ 62
    → IsServable size rs
    → parse_range (print_ranges rs) size ≡ ranges rs
unfolding parse_range print_ranges
parse_range-print_ranges rs size small v =
    let few = v.few in
    let n = v.some_range in
    rw
      (
        strip-append (codes "bytes=") (join (b',' ∷ []) (map print_spec rs)),
        split-print rs v.some_range,
        parse_range,
      )
      (scan_specs-print rs size 0 0 [] small v.inside (omega arith) (omega arith) (omega arith)
        (omega arith))
