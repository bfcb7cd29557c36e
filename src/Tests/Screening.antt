-- ===== src/Tests/Screening.antt =====
-- The middlewares: internal/security/security.go and internal/compress/compress.go.
use static_web.Prelude.{none, some, ◌≡◌, refl, ◌⊎◌, true, false, [], ◌∷◌, Bytes, codes}
use static_web.Strings.{
  bytes_eq, is_empty, has_prefix, contains_byte, split, join, trim_prefix, ends_with_byte,
  equal_fold,
}
use static_web.Paths.{clean, resolve, up, join_path, with_separator}
use static_web.Lru.{find}
use static_web.Http.{
  Request, RequestHeader, origin, View, bytes, allow_origin, with_header, content_type,
}
use static_web.Http.Plain.{plain}
use static_web.Security.{
  path_safe, candidate, real_root, check_resolved, check_dotfiles, has_hidden, is_inside, lookup,
  store,
}
use static_web.Security.Middleware.{
  passed, set_all, static_headers, resolve_uncached, resolve_cached, apply_cors, finish,
  screen_request, screen,
}
use static_web.Security.Middleware.Rooted.{screen_rooted}
use static_web.Security.Middleware.Keeping.{response_of, IsSecured}
use static_web.Security.Middleware.Screening.{screen_rooted-IsSecured}
use static_web.Security.Middleware.Safety.{IsSafeStore}
use static_web.Security.Middleware.Passing.{IsPassing, screen-IsPassing, screen-IsSafeStore}
use static_web.Security.Middleware.Cors.{granted, apply_cors-granted}
use static_web.Compress.Gzip.{post_process}
use static_web.Compress.Eligible.{IsEligible, compressed_view, post_process_cases}
use static_web.Compress.{accepts_encoding_str}
use static_web.Compress.Accepts.{verdict_of, or_false, accepts_encoding_str-verdict_of}
use static_web.Tests.Samples.{
  platform, no_headers, get_request, blank, disk, root, security, compression,
}
use static_web.Tests.Securing.{disk-IsResolver, paths, srv, url}

abbrev with_origin : RequestHeader → Bytes
with_origin origin = codes "https://a.example"
with_origin h = []

abbrev visit : Request
visit = get_request url with_origin

screen_rooted-IsSecured_example : IsSecured security blank (
    plain.view
      (response_of (screen_rooted platform plain disk paths some security srv visit none blank).1))
screen_rooted-IsSecured_example =
    screen_rooted-IsSecured platform plain paths disk some security srv visit none blank refl

abbrev plain_visit : Request
plain_visit = get_request url no_headers

visit_passes :
    (screen platform plain paths disk security srv plain_visit [] blank).1
    ≡ passed (codes "/srv/a.txt") (set_all plain (static_headers security) blank)
unfolding screen screen_request resolve_cached resolve_uncached finish apply_cors set_all lookup
    store path_safe candidate real_root clean resolve up join_path with_separator split join
    bytes_eq is_empty ends_with_byte has_prefix contains_byte check_resolved check_dotfiles
    has_hidden is_inside trim_prefix find
visit_passes = refl

screen-IsPassing_example : IsPassing plain_visit true root (codes "/srv/a.txt")
screen-IsPassing_example =
    screen-IsPassing platform plain paths disk security srv plain_visit [] blank root
      (codes "/srv/a.txt") disk-IsResolver tt visit_passes

screen-IsSafeStore_example :
    IsSafeStore paths true root
      (screen platform plain paths disk security srv plain_visit [] blank).0
screen-IsSafeStore_example =
    screen-IsSafeStore platform plain paths disk security srv plain_visit [] blank root
      disk-IsResolver tt

apply_cors-granted_example :
    (plain.view (apply_cors platform plain security visit blank).1).headers allow_origin
    ≡ granted (codes "https://a.example" ∷ []) (codes "https://a.example") []
apply_cors-granted_example = apply_cors-granted platform plain security visit blank

abbrev page : View
page =
    with_header content_type (codes "text/html" ∷ [])
      (record blank { body = bytes (codes "<html></html>") })

post_process_cases_example :
    (post_process platform plain compression page ≡ page)
    ⊎ ((content : Bytes) × IsEligible compression page content
        × (post_process platform plain compression page
            ≡ compressed_view platform compression content page))
post_process_cases_example = post_process_cases platform plain compression page

gzip_named : equal_fold [] (codes "gzip") ≡ false
unfolding equal_fold
gzip_named = refl

accepts_encoding_str-verdict_of_example :
    accepts_encoding_str platform (codes "br, gzip;q=0") (codes "gzip")
    ≡ or_false (verdict_of platform (codes "gzip") (split b',' (codes "br, gzip;q=0")))
accepts_encoding_str-verdict_of_example =
    accepts_encoding_str-verdict_of platform (codes "br, gzip;q=0") (codes "gzip") gzip_named
