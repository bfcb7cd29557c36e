-- ===== src/Tests/Chained.antt =====
-- The chain of `BuildHandler`: internal/handler/middleware.go and file.go.
use static_web.Prelude.{
  ◌<◌, ◌^◌, ℤ, pos, refl, arith, false, none, some, List, [], ◌∷◌, Bytes, ◌≡◌, codes, length,
}
use static_web.Config.{defaults}
use static_web.Http.{Request}
use static_web.Http.Plain.{plain}
use static_web.Strings.{
  cut_at, ext, is_empty, contains_byte, bytes_eq, join, split, has_prefix, ends_with_byte,
  trim_prefix,
}
use static_web.Security.{path_safe, real_root}
use static_web.Paths.{clean, resolve, up, join_path, with_separator}
use static_web.Lru.{find}
use static_web.Cache.File.{total_size}
use static_web.Headers.Freshness.{init_cache_control, init_headers}
use static_web.Handler.Kinds.{detect_content_type}
use static_web.Compress.{is_compressible}
use static_web.Headers.{cache_key}
use static_web.Cache.{Entry, new_cache, stamp, get, put}
use static_web.Handler.Disk.{FileInfo, Disk, Site, Moment, opened, found, cached, make_entry}
use static_web.Handler.Large.{open_large, serve_large_file}
use static_web.Handler.Large.Lengths.{IsStreamed}
use static_web.Handler.Large.Answers.{serve_large_file-IsStreamed}
use static_web.Handler.Logging.{is_control, access_line}
use static_web.Handler.Logging.Lines.{IsClean, access_line-IsClean}
use static_web.Handler.Requests.Counting.{IsCounted}
use static_web.Handler.Requests.Faithful.{OnDisk}
use static_web.Handler.Requests.Runs.{serve_requests, serve_requests-OnDisk}
use static_web.Handler.Chain.Serving.{serve_all, serve_all-IsCounted}
use static_web.Tests.Samples.{platform, get_request, no_headers, blank}
use static_web.Tests.Samples
use static_web.Tests.Caching.{store, path_store, full, full-IsExact}

abbrev a_info : FileInfo
a_info = record { is_dir = false; size = 5; mod_time = pos 0 }

abbrev page : Disk
page = record {
  files = record { eval_symlinks = Samples.disk; open_file = λ p. none };
  stat = λ p. found a_info;
  read_file = λ p. opened (codes "hello");
}

abbrev site : Site
site = record { cfg = defaults; abs_root = codes "/srv"; not_found = none; embedded = λ p. none }

abbrev moment : Moment
moment = record { now = pos 7; fresh = 9; boundary = codes "xyz" }

abbrev request : Request
request = get_request (codes "/a.txt") no_headers

abbrev no_listing : Request → Bytes → Bytes → plain.Response → plain.Response
no_listing req dir url r = r

abbrev duration_text : ℤ → Bytes
duration_text d = codes "1ms"

abbrev method_text : Request → Bytes
method_text req = codes "GET"

abbrev declared : plain.Response → ℤ
declared r = pos 0

get_IsClean : IsClean (method_text request)
unfolding is_control
get_IsClean = (refl, (refl, (refl, tt)))

duration_IsClean : IsClean (duration_text (pos 1000000))
unfolding is_control
duration_IsClean = (refl, (refl, (refl, tt)))

access_line-IsClean_example :
    IsClean (access_line duration_text plain method_text declared request (pos 1000000) blank)
access_line-IsClean_example =
    access_line-IsClean duration_text plain method_text declared request (pos 1000000) blank
      get_IsClean duration_IsClean

serve_all-IsCounted_example :
    IsCounted store
      (serve_all platform plain store path_store no_listing site
        ((page, moment, request, blank) ∷ (page, moment, request, blank) ∷ [])
        (some [], some full)).1
serve_all-IsCounted_example =
    serve_all-IsCounted platform plain store path_store no_listing site
      ((page, moment, request, blank) ∷ (page, moment, request, blank) ∷ []) (some []) (some full)
      full-IsExact

five_small : length (codes "hello") < 2 ^ 62
five_small = omega arith

abbrev ranged : Request
ranged = get_request (codes "/a.txt") (λ h. codes "bytes=0-1,3-4")

a_opened : open_large page site (codes "/srv/a.txt") ≡ opened (codes "hello")
unfolding open_large clean resolve up with_separator ends_with_byte split join is_empty bytes_eq
    has_prefix real_root
a_opened = refl

serve_large_file-IsStreamed_example : IsStreamed (
    serve_large_file platform plain page site
      (codes "xyz")
      ranged
      (codes "/srv/a.txt")
      (codes "/a.txt")
      a_info
      blank)
serve_large_file-IsStreamed_example =
    serve_large_file-IsStreamed platform plain site ranged (codes "xyz") (codes "/a.txt") a_info
      (codes "hello") refl refl five_small page (codes "/srv/a.txt") blank a_opened

-- The file that one request leaves in a new cache.
abbrev held_entry : Entry
held_entry = stamp (pos 7) 0 (record {
  address = 9;
  file = make_entry platform page site (codes "/srv/a.txt") (codes "/a.txt") a_info (codes "hello");
})

abbrev one_request : List (Moment × Request × plain.Response)
one_request = (moment, request, blank) ∷ []

a_cached :
    (cached store site (pos 8) (codes "/a.txt") (
      serve_requests platform plain store path_store no_listing page site one_request
        (some (new_cache store (pos 1000) [])))).0
    ≡ some held_entry
unfolding serve_requests cached is_empty path_safe contains_byte bytes_eq join_path join split
    has_prefix with_separator ends_with_byte defaults trim_prefix get find new_cache cache_key put
    total_size init_cache_control init_headers is_compressible cut_at detect_content_type ext
a_cached = refl

serve_requests-OnDisk_example : OnDisk page site (codes "/a.txt", held_entry)
serve_requests-OnDisk_example =
    serve_requests-OnDisk platform plain store path_store no_listing page site one_request
      (pos 1000) (pos 8) [] (codes "/a.txt") held_entry a_cached
