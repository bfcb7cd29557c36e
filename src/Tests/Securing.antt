-- ===== src/Tests/Securing.antt =====
-- Paths: `pathSafe`, its cache and the sidecar files.
use static_web.Prelude.{
  ◌≡◌, ◌≢◌, refl, inl, inr, true, false, ◌||◌, some, List, [], ◌∷◌, ◌++◌, Bytes, codes, All,
  Bool-cases, arith,
}
use static_web.Strings.{
  bytes_eq, is_empty, has_prefix, contains_byte, split, join, trim_prefix, trim_space,
  ends_with_byte,
}
use static_web.Paths.{clean, resolve, up, join_path, with_separator}
use static_web.Paths.Segments.{IsName, path_of, names, names-IsName}
use static_web.Lru.{Lru}
use static_web.Lru.Listed.{listed}
use static_web.Security.{
  real, missing, ok, candidate, path_safe, real_root, check_resolved, check_dotfiles, has_hidden,
  is_inside, pre_warm,
}
use static_web.Security.Containment.{IsResolver, IsBelow, candidate-path_of}
use static_web.Security.Verdict.{verdict, path_safe-IsBelow, path_safe-real, path_safe-missing}
use static_web.Security.Middleware.Safety.{IsSafeStore, pre_warm-IsSafeStore}
use static_web.Headers.{etag_matches, weak_prefix}
use static_web.Headers.Etags.{any_tag, etag_matches-any_tag}
use static_web.Handler.Sidecars.{Files, validate_sidecar_path, load_sidecar_max}
use static_web.Handler.Contained.{IsSidecar, load_sidecar_max-IsSidecar}
use static_web.Tests.Samples.{disk, root}

abbrev pub srv : Bytes
srv = codes "/srv"

abbrev pub url : Bytes
url = codes "/x/../a.txt"

srv-IsName : All IsName root
unfolding names resolve up split bytes_eq is_empty
srv-IsName = names-IsName srv

inside-IsName : All IsName (codes "a.txt" ∷ [])
unfolding names resolve up split bytes_eq is_empty
inside-IsName = names-IsName (codes "/a.txt")

both-IsName : All IsName (codes "srv" ∷ codes "a.txt" ∷ [])
unfolding names resolve up split bytes_eq is_empty
both-IsName = names-IsName (codes "/srv/a.txt")

disk-cleans : (p q : Bytes) → disk p ≡ real q → (qs : List Bytes) × (q ≡ path_of qs) × All IsName qs
unfolding path_of join
disk-cleans p q e = elim (Bool-cases (bytes_eq p srv)) [
  | inl s ↦ let same : real srv ≡ real q = rw s at e in (root, cc, srv-IsName)
  | inr n ↦ elim (Bool-cases (bytes_eq p (codes "/srv/a.txt"))) [
    | inl s ↦
        let same : real (codes "/srv/a.txt") ≡ real q = rw (n, s) at e in
        (codes "srv" ∷ codes "a.txt" ∷ [], cc, both-IsName)
    | inr m ↦ absurd (cc (rw (n, m) at e))
  ]
]

pub disk-IsResolver : IsResolver disk srv root
unfolding real_root path_of join bytes_eq
disk-IsResolver = record { root = refl; root_names = srv-IsName; cleans = disk-cleans }

candidate-path_of_example : candidate disk srv url ≡ path_of (root ++ names url)
candidate-path_of_example = candidate-path_of disk srv url root disk-IsResolver

url_accepted : path_safe disk url srv true ≡ ok (codes "/srv/a.txt", true)
unfolding path_safe candidate real_root clean resolve up join_path with_separator split join
    bytes_eq is_empty ends_with_byte has_prefix contains_byte check_resolved check_dotfiles
    has_hidden is_inside trim_prefix
url_accepted = refl

path_safe-IsBelow_example : IsBelow true root (codes "/srv/a.txt")
path_safe-IsBelow_example = path_safe-IsBelow disk url srv true root disk-IsResolver url_accepted

no_null : contains_byte 0 url ≡ false
unfolding contains_byte
no_null = refl

url_on_disk : disk (path_of (root ++ names url)) ≡ real (path_of (root ++ codes "a.txt" ∷ []))
unfolding path_of names resolve up split join bytes_eq is_empty
url_on_disk = refl

path_safe-real_example : path_safe disk url srv true ≡ verdict true root (codes "a.txt" ∷ []) true
path_safe-real_example =
    path_safe-real disk url srv true root (codes "a.txt" ∷ []) disk-IsResolver no_null inside-IsName
      url_on_disk

no_null_hidden : contains_byte 0 (codes "/b/.env") ≡ false
unfolding contains_byte
no_null_hidden = refl

hidden_missing : disk (path_of (root ++ names (codes "/b/.env"))) ≡ missing
unfolding path_of names resolve up split join bytes_eq is_empty
hidden_missing = refl

path_safe-missing_example :
    path_safe disk (codes "/b/.env") srv true ≡ verdict true root (names (codes "/b/.env")) false
path_safe-missing_example =
    path_safe-missing disk (codes "/b/.env") srv true root disk-IsResolver no_null_hidden
      hidden_missing

abbrev pub paths : Lru Bytes
paths = listed 2 (omega arith)

pre_warm-IsSafeStore_example :
    IsSafeStore paths true root (pre_warm paths disk (url ∷ codes "/none" ∷ []) srv true [])
pre_warm-IsSafeStore_example =
    pre_warm-IsSafeStore paths true root disk (url ∷ codes "/none" ∷ []) srv [] disk-IsResolver tt

tag_not_empty : trim_prefix weak_prefix (codes "W/\"abc\"") ≢ []
unfolding trim_prefix
tag_not_empty = λ e. absurd (cc)

etag_matches-any_tag_example : etag_matches (codes "\"x\", W/\"abc\"") (codes "W/\"abc\"") ≡ (
    bytes_eq (trim_space (codes "\"x\", W/\"abc\"")) (b'*' ∷ [])
    || any_tag
        (trim_prefix weak_prefix (codes "W/\"abc\""))
        (split b',' (codes "\"x\", W/\"abc\"")))
etag_matches-any_tag_example =
    etag_matches-any_tag (codes "\"x\", W/\"abc\"") (codes "W/\"abc\"") tag_not_empty

abbrev sidecars : Files
sidecars = record { eval_symlinks = disk; open_file = λ p. some (some 2, some (codes "gz")) }

sidecar_read : load_sidecar_max sidecars srv (codes "/srv/a.txt") 5 ≡ some (codes "gz")
unfolding load_sidecar_max validate_sidecar_path real_root clean resolve up join_path with_separator
    ends_with_byte split join bytes_eq is_empty has_prefix is_inside
sidecar_read = refl

load_sidecar_max-IsSidecar_example : IsSidecar sidecars srv (codes "/srv/a.txt") root 5 (codes "gz")
load_sidecar_max-IsSidecar_example =
    load_sidecar_max-IsSidecar sidecars srv (codes "/srv/a.txt") 5 root disk-IsResolver sidecar_read
