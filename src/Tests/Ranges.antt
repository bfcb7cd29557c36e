-- ===== src/Tests/Ranges.antt =====
-- Range headers: internal/handler/file.go.
use static_web.Prelude.{◌≡◌, refl, List, [], ◌∷◌, Bytes, codes, arith, true, true}
use static_web.Strings.{is_empty, strip, cut_at, split, trim_space}
use static_web.Strconv.{parse_int}
use static_web.Range.{HttpRange, ranges, failed, unsatisfiable, parse_range}
use static_web.Range.Bounds.{IsServable, parse_range-IsServable}
use static_web.Range.RoundTrip.{print_ranges, parse_range-print_ranges}
use static_web.Http.{accept_ranges}
use static_web.Http.Plain.{plain}
use static_web.Handler.Sending.{if_range_allows_range, serve_range}
use static_web.Handler.Partial.{IsAnswer, IsPartial, serve_range-IsAnswer, serve_range-IsPartial}
use static_web.Tests.Samples.{platform, no_headers, get_request, blank}

abbrev first_and_last : List HttpRange
first_and_last = record { start = 0; length = 500 } ∷ record { start = 800; length = 200 } ∷ []

first_five_hundred : parse_range (codes "bytes=0-499, -200") 1000 ≡ ranges first_and_last
unfolding parse_range strip split trim_space is_empty cut_at parse_int
first_five_hundred = refl

behind_the_end : parse_range (codes "bytes=1000-") 1000 ≡ failed unsatisfiable
unfolding parse_range strip split trim_space is_empty cut_at parse_int
behind_the_end = refl

parse_range-IsServable_example : IsServable 1000 first_and_last
parse_range-IsServable_example =
    parse_range-IsServable (codes "bytes=0-499, -200") 1000 (omega arith) first_five_hundred

first_and_last-IsServable : IsServable 1000 first_and_last
first_and_last-IsServable = record {
  inside = ((omega arith, omega arith), ((omega arith, omega arith), tt));
  some_range = omega arith;
  few = omega arith;
  fits = omega arith;
}

parse_range-print_ranges_example :
    parse_range (print_ranges first_and_last) 1000 ≡ ranges first_and_last
parse_range-print_ranges_example =
    parse_range-print_ranges first_and_last 1000 (omega arith) first_and_last-IsServable

abbrev hello : Bytes
hello = codes "hello world"

serve_range-IsAnswer_example : IsAnswer platform plain (
    plain.view (
      serve_range platform plain
        (get_request (codes "/a.txt") no_headers)
        (codes "xyz")
        hello
        (codes "bytes=0-1,4-5")
        blank))
serve_range-IsAnswer_example =
    serve_range-IsAnswer platform plain (get_request (codes "/a.txt") no_headers) (codes "xyz")
      hello (codes "bytes=0-1,4-5") blank (omega arith) refl

no_if_range :
    if_range_allows_range platform plain
      (get_request (codes "/a.txt") no_headers)
      (plain.set_header accept_ranges (codes "bytes") blank)
    ≡ true
unfolding if_range_allows_range is_empty trim_space
no_if_range = refl

serve_range-IsPartial_example :
    IsPartial hello
      (record { start = 6; length = 5 })
      (plain.view (
        serve_range platform plain
          (get_request (codes "/a.txt") no_headers)
          (codes "xyz")
          hello
          (print_ranges (record { start = 6; length = 5 } ∷ []))
          blank))
serve_range-IsPartial_example =
    serve_range-IsPartial platform plain (get_request (codes "/a.txt") no_headers) (codes "xyz")
      hello (record { start = 6; length = 5 }) blank (omega arith) (omega arith, omega arith) refl
      no_if_range
