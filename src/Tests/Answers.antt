-- ===== src/Tests/Answers.antt =====
-- Whole files: internal/handler/file.go.
use static_web.Prelude.{◌≡◌, refl, true, [], codes}
use static_web.Strings.{is_empty}
use static_web.Config.{defaults}
use static_web.Http.{Request}
use static_web.Http.Plain.{plain}
use static_web.Handler.Serving.{serve_from_cache}
use static_web.Handler.Whole.{IsSized, IsWhole, serve_from_cache-IsWhole}
use static_web.Tests.Samples.{platform, no_headers, get_request, blank, file_of}

abbrev visit : Request
visit = get_request (codes "/a.txt") no_headers

no_range : is_empty [] ≡ true
unfolding is_empty
no_range = refl

hello-IsSized : IsSized (file_of (codes "hello"))
hello-IsSized = (refl, refl)

serve_from_cache-IsWhole_example : IsWhole platform visit (file_of (codes "hello")) (
    plain.view (
      serve_from_cache platform plain defaults visit
        (codes "xyz")
        (codes "/a.txt")
        (file_of (codes "hello"))
        blank))
serve_from_cache-IsWhole_example =
    serve_from_cache-IsWhole platform plain defaults visit (codes "xyz") (codes "/a.txt")
      (file_of (codes "hello")) blank refl no_range hello-IsSized
