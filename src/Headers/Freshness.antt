-- ===== src/Headers/Freshness.antt =====
-- What the caching headers say, and whether a conditional request finds the file unchanged:
-- internal/headers/headers.go, and the preformatted headers of internal/cache/cache.go.
use static_web.Prelude.{
  ◌≡◌, refl, Bool-cases, inl, inr, ℤ, pos, negsuc, Bool, false, not, ◌&&◌, ◌||◌, Option, none, some,
  [], ◌∷◌, ◌++◌, map, Bytes, codes, ◌==◌, if◌then◌else◌, lt_int, add_int,
}
use static_web.Strings.{bytes_eq, is_empty, contains, ext, after_slash, base, lower_byte}
use static_web.Strconv.{format, format_int}
use static_web.Platform.{Platform}
use static_web.Config.{HeadersConfig}
use static_web.Http.{Request, if_none_match, if_modified_since}
use static_web.Cache.File.{CachedFile}
use static_web.Headers.{etag_matches, weak_prefix}

abbrev quote : Bytes
quote = b'"' ∷ []

-- `W/"` + tag + `"`
unfoldable pub weak_tag : Bytes → Bytes
weak_tag tag = weak_prefix ++ (quote ++ (tag ++ quote))

-- The tag that is sent: the first of the preformatted ones that is there.
unfoldable pub etag_text : CachedFile → Bytes
unfolding weak_tag
etag_text f =
    if is_empty f.etag_header
    then if is_empty f.etag_full then weak_tag f.etag else f.etag_full
    else f.etag_header

abbrev is_zero : ℤ → Bool
is_zero (pos n) = n == 0
is_zero (negsuc n) = false

-- "no-cache", or "public, max-age=…" with ", immutable" for files of the pattern.
unfoldable pub cache_control_text : ℤ → Bool → Bytes
cache_control_text max_age immutable =
    if is_zero max_age
    then codes "no-cache"
    else (codes "public, max-age=" ++ format_int max_age)
      ++ (if immutable then codes ", immutable" else [])

-- The first test of `isHTMLContent`: the bytes 0, 4 and 5 of a type of nine bytes or more.
pub looks_like_html : Bytes → Bool
looks_like_html (c0 ∷ c1 ∷ c2 ∷ c3 ∷ c4 ∷ c5 ∷ c6 ∷ c7 ∷ c8 ∷ rest) =
    (c0 == b't') && (c4 == b'/') && (c5 == b'h')
looks_like_html _ = false

-- The text from the last dot on, wherever it stands.
pub from_last_dot : Bytes → Bytes → Bytes
from_last_dot [] found = found
from_last_dot (c ∷ s) found = from_last_dot s (if c == b'.' then c ∷ s else found)

-- `isHTMLContent` of the cache.
pub is_html_content : Bytes → Bytes → Bool
unfolding looks_like_html from_last_dot
is_html_content url_path content_type =
    let e = from_last_dot url_path [] in
    looks_like_html content_type
    || bytes_eq e (codes ".html")
    || bytes_eq e (codes ".htm")
    || bytes_eq e (codes ".HTML")
    || bytes_eq e (codes ".HTM")

-- `isHTML` of the headers.
pub is_html : Bytes → Bytes → Bool
is_html url_path content_type =
    let e = map lower_byte (ext url_path) in
    contains (codes "text/html") content_type
    || bytes_eq e (codes ".html")
    || bytes_eq e (codes ".htm")

unfoldable pub cache_max_age : Bytes → Bytes → HeadersConfig → ℤ
unfolding is_html
cache_max_age url_path content_type cfg =
    if is_html url_path content_type then cfg.html_max_age else cfg.static_max_age

module _ (os : Platform) where
  -- An error in the pattern is no match.
  abbrev glob : Bytes → Bytes → Bool
  glob pattern name = elim (os.match_glob pattern name) [ none ↦ false | some b ↦ b ]

  -- `matchesImmutablePattern`.
  unfoldable pub matches_immutable_pattern : Bytes → Bytes → Bool
  matches_immutable_pattern url_path pattern = glob pattern (base url_path)

  -- `matchesImmutable`.
  pub matches_immutable : Bytes → Bytes → Bool
  matches_immutable url_path pattern = glob pattern (after_slash url_path)

  -- `InitHeaders`: what is empty is filled in.
  unfoldable pub init_headers : CachedFile → CachedFile
  unfolding weak_tag
  init_headers f = record f {
    ct_header = if is_empty f.ct_header then f.content_type else f.ct_header;
    cl_header = if is_empty f.cl_header then format f.size else f.cl_header;
    etag_header =
        if is_empty f.etag_header
        then if is_empty f.etag_full then weak_tag f.etag else f.etag_full
        else f.etag_header;
    last_mod_header =
        if is_empty f.last_mod_header then os.format_time f.last_modified else f.last_mod_header;
    vary_header = if is_empty f.vary_header then codes "Accept-Encoding" else f.vary_header;
  }

  -- `InitCacheControl`.
  unfoldable pub init_cache_control : Bytes → ℤ → ℤ → Bytes → CachedFile → CachedFile
  unfolding cache_control_text is_html_content matches_immutable
  init_cache_control url_path html_max_age static_max_age pattern f =
      if not (is_empty f.cache_control_header)
      then f
      else (let max_age =
            if is_html_content url_path f.content_type then html_max_age else static_max_age in
          record f {
            cache_control_header =
                cache_control_text max_age
                  (not (is_empty pattern) && matches_immutable url_path pattern);
          })

  -- `parseHTTPTime`: three layouts in turn.
  pub parse_http_time : Bytes → Option ℤ
  parse_http_time s = elim (os.parse_rfc1123 s) [
    | some t ↦ some t
    | none ↦ elim (os.parse_rfc850 s) [ some t ↦ some t | none ↦ os.parse_ansic s ]
  ]

  -- `!f.LastModified.IsZero()` and `!f.LastModified.After(t.Add(time.Second - 1))` for the time that
  -- `If-Modified-Since` spells.
  pub not_modified_since : Bytes → Option ℤ → Bool
  unfolding parse_http_time
  not_modified_since s none = false
  not_modified_since s (some modified) = if is_empty s then false else elim (parse_http_time s) [
    | none ↦ false
    | some t ↦ not (lt_int (add_int t 999999999) modified)
  ]

  -- The test of `CheckNotModified`: `If-None-Match` decides alone where it is sent and tags are on.
  unfoldable pub is_not_modified : Request → CachedFile → Bool → Bool
  unfolding etag_text not_modified_since
  is_not_modified req f enable_etags =
      if enable_etags && not (is_empty (req.header if_none_match))
      then etag_matches (req.header if_none_match) (etag_text f)
      else not_modified_since (req.header if_modified_since) f.last_modified

  -- The content of a file is left alone.
  pub init_headers-content : (f : CachedFile) → (init_headers f).content ≡ f.content
  unfolding init_headers
  init_headers-content f = refl

  pub init_cache_control-content :
      (url : Bytes) (html static : ℤ) (pattern : Bytes) (f : CachedFile)
      → (init_cache_control url html static pattern f).content ≡ f.content
  unfolding init_cache_control
  init_cache_control-content url html static pattern f =
      elim (Bool-cases (not (is_empty f.cache_control_header))) [
        | inl e ↦ rw (e, init_cache_control) refl
        | inr e ↦ rw (e, init_cache_control) refl
      ]
