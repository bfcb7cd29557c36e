-- ===== src/Cache/Preload.antt =====
-- internal/cache/preload.go: `Preload` over the entries that `filepath.WalkDir` visits, in order.
pub mod Types
pub mod Reading
use static_web.Prelude.{
  ℕ, ◌+◌, ℤ, pos, Bool, true, false, not, ◌&&◌, ◌||◌, Option, none, some, List, [], ◌∷◌, ◌++◌,
  Bytes, codes, ◌==◌, if◌then◌else◌, length, lt_int, map,
}
use static_web.Strings.{bytes_eq, is_empty, has_prefix, lower_byte, split, trim_space, cut_at, base}
use static_web.Paths.{slash, clean}
use static_web.Platform.{Platform}
use static_web.Lru.{Lru}
use static_web.Cache.{Entry, Cache, put}
use static_web.Cache.File.{CachedFile}
use static_web.Headers.{default_index}
use static_web.Headers.Freshness.{weak_tag, init_headers, init_cache_control}
use static_web.Security.{
  Evaluated, real, missing, denied, is_hidden, has_hidden, is_inside, real_root,
}
use static_web.Handler.Kinds.{compute_etag, detect_content_type}

-- `PreloadStats`.
pub record PreloadStats : Type 0 where
  pub files : ℕ
  pub bytes : ℕ
  pub skipped : ℕ
  pub paths : List Bytes

-- `PreloadConfig`; `compress` is `CompressFn` where there is one, with `none` for its error.
pub record PreloadConfig : Type 0 where
  pub max_file_size : ℤ
  pub index_file : Bytes
  pub block_dotfiles : Bool
  pub compress_enabled : Bool
  pub compress_min_size : ℤ
  pub compress_level : ℤ
  pub compress : Option (Bytes → ℤ → Option Bytes)
  pub html_max_age : ℤ
  pub static_max_age : ℤ
  pub immutable_pattern : Bytes

-- One call of the function that `WalkDir` is given: with the time, and the address of the
-- `CachedFile` that it may allocate.
pub record Visit : Type 0 where
  pub path : Bytes
  pub failed : Bool
  pub is_dir : Bool
  pub is_symlink : Bool
  pub now : ℤ
  pub fresh : ℕ

-- The file system: what links lead to, the size and the time of a regular file, the content, and
-- `filepath.Rel` from the root on.
pub record Tree : Type 0 where
  pub eval_symlinks : Bytes → Evaluated
  pub stat_regular : Bytes → Option (ℕ × ℤ)
  pub read_file : Bytes → Option Bytes
  pub relative : Bytes → Option Bytes

-- `hasDotfileSegment`.
unfoldable pub has_dotfile_segment : Bytes → Bool
unfolding has_hidden
has_dotfile_segment relative = has_hidden (split slash relative)

-- `compressiblePrefixes`.
abbrev pub compressible_prefixes : List Bytes
compressible_prefixes =
    codes "text/"
    ∷ codes "application/javascript"
    ∷ codes "application/json"
    ∷ codes "application/xml"
    ∷ codes "application/wasm"
    ∷ codes "image/svg+xml"
    ∷ codes "font/"
    ∷ codes "application/font-woff"
    ∷ []

unfoldable pub starts_with_any : List Bytes → Bytes → Bool
starts_with_any [] s = false
starts_with_any (p ∷ ps) s = has_prefix p s || starts_with_any ps s

-- `isCompressibleType`.
unfoldable pub is_compressible_type : Bytes → Bool
unfolding starts_with_any lower_byte
is_compressible_type content_type =
    let media : Bytes = elim (cut_at b';' content_type) [
      | none ↦ content_type
      | some (m, params) ↦ trim_space m
    ] in
    starts_with_any compressible_prefixes (map lower_byte media)

-- `s` up to its last slash, which is kept.
unfoldable pub up_to_slash : Bytes → Bytes
up_to_slash [] = []
up_to_slash (c ∷ s) =
    let rest = up_to_slash s in
    if is_empty rest then if c == slash then c ∷ [] else [] else c ∷ rest

-- `path.Dir(p)` with a slash behind it, one for the root.
unfoldable pub dir_key : Bytes → Bytes
unfolding up_to_slash
dir_key url_key =
    let d = clean (up_to_slash url_key) in if bytes_eq d (slash ∷ []) then d else d ++ slash ∷ []

-- What a link leads to, if that is inside the root.
unfoldable pub inside_target : Bytes → Evaluated → Option Bytes
unfolding is_inside
inside_target root (real target) = if is_inside root target then some target else none
inside_target root missing = none
inside_target root denied = none

-- The path of a visited entry with a link followed; `none` is that it is skipped.
unfoldable pub follow : Tree → Bytes → Visit → Option Bytes
unfolding inside_target
follow tree root v =
    if v.is_symlink then inside_target root (tree.eval_symlinks v.path) else some v.path

-- What is loaded: the path, the path from the root on, size, time and content.
pub record Loaded : Type 0 where
  pub path : Bytes
  pub relative : Bytes
  pub size : ℕ
  pub mod_time : ℤ
  pub content : Bytes

abbrev pub load_content : Bytes → Bytes → ℕ → ℤ → Option Bytes → Option Loaded
load_content path rel n time none = none
load_content path rel n time (some bytes) =
    some (record { path = path; relative = rel; size = n; mod_time = time; content = bytes })

-- The checks on a file, given what the file system says of it; `none` is that it is skipped.
unfoldable pub load_found :
    PreloadConfig → Bytes → Option Bytes → Option (ℕ × ℤ) → Option Bytes → Option Loaded
unfolding has_dotfile_segment
load_found cfg path none info content = none
load_found cfg path (some rel) none content = none
load_found cfg path (some rel) (some (n, time)) content =
    if cfg.block_dotfiles && has_dotfile_segment rel
    then none
    else if lt_int cfg.max_file_size (pos n)
    then none
    else load_content path rel n time content

unfoldable pub load_path : Tree → PreloadConfig → Bytes → Option Loaded
unfolding load_found
load_path tree cfg path =
    load_found cfg path (tree.relative path) (tree.stat_regular path) (tree.read_file path)

module _ (os : Platform) where
  -- The gzip variant.
  unfoldable pub gzip_variant : PreloadConfig → Bytes → Bytes → Option Bytes
  unfolding is_compressible_type
  gzip_variant cfg media content = elim cfg.compress [
    | none ↦ none
    | some f ↦
        if cfg.compress_enabled
          && (is_compressible_type media
              && not (lt_int (pos (length content)) cfg.compress_min_size))
        then f content cfg.compress_level
        else none
  ]

  -- The `CachedFile` of a file, with its headers.
  unfoldable pub preload_entry : PreloadConfig → Loaded → CachedFile
  unfolding gzip_variant
  preload_entry cfg l =
      let media = detect_content_type os l.path (some l.content) in
      let tag = compute_etag os l.content in
      init_cache_control os (slash ∷ l.relative) cfg.html_max_age cfg.static_max_age
        cfg.immutable_pattern
        (init_headers os (record {
          content = l.content;
          gzip_data = gzip_variant cfg media l.content;
          br_data = none;
          zstd_data = none;
          etag = tag;
          etag_full = weak_tag tag;
          last_modified = some l.mod_time;
          content_type = media;
          size = l.size;
          expires_at = none;
          ct_header = [];
          cl_header = [];
          etag_header = [];
          last_mod_header = [];
          vary_header = [];
          cache_control_header = [];
        }))

  -- The keys under which a file is put: its URL, and for an index file its directory.
  unfoldable pub keys_of : PreloadConfig → Bytes → List Bytes
  unfolding dir_key
  keys_of cfg url_key =
      let index = if is_empty cfg.index_file then default_index else cfg.index_file in
      if bytes_eq (base url_key) index then url_key ∷ dir_key url_key ∷ [] else url_key ∷ []

  module _ (lru : Lru Entry) where
    -- The code puts one object under all keys; here each key has a copy, with the same expiry time.
    unfoldable pub put_all : ℤ → Entry → List Bytes → Cache lru → Cache lru
    put_all now e [] c = c
    put_all now e (key ∷ keys) c = put_all now e keys (put lru now key e c)

    abbrev pub skip : PreloadStats → PreloadStats
    skip stats = record stats { skipped = stats.skipped + 1 }

    -- `c.Put` and the statistics.
    unfoldable pub store_loaded :
        PreloadConfig → Visit → Loaded → PreloadStats × Cache lru → PreloadStats × Cache lru
    unfolding preload_entry keys_of put_all
    store_loaded cfg v l (stats, c) =
        let e : Entry = record { address = v.fresh; file = preload_entry cfg l } in
        let keys = keys_of cfg (slash ∷ l.relative) in
        (
          record stats {
            files = stats.files + 1;
            bytes = stats.bytes + l.size;
            paths = stats.paths ++ keys;
          },
          put_all v.now e keys c,
        )

    abbrev pub store_or_skip :
        PreloadConfig → Visit → Option Loaded → PreloadStats × Cache lru → PreloadStats × Cache lru
    store_or_skip cfg v none (stats, c) = (skip stats, c)
    store_or_skip cfg v (some l) (stats, c) = store_loaded cfg v l (stats, c)

    -- The function that `WalkDir` calls.
    unfoldable pub visit :
        Tree → PreloadConfig → Bytes → Visit → PreloadStats × Cache lru → PreloadStats × Cache lru
    unfolding follow load_path store_loaded
    visit tree cfg root v (stats, c) =
        if v.failed || v.is_dir then (stats, c) else elim (follow tree root v) [
          | none ↦ (skip stats, c)
          | some path ↦ store_or_skip cfg v (load_path tree cfg path) (stats, c)
        ]

    unfoldable pub walk :
        Tree
        → PreloadConfig
        → Bytes
        → List Visit
        → PreloadStats × Cache lru
        → PreloadStats × Cache lru
    unfolding visit
    walk tree cfg root [] (stats, c) = (stats, c)
    walk tree cfg root (v ∷ vs) (stats, c) =
        walk tree cfg root vs (visit tree cfg root v (stats, c))

    abbrev pub no_stats : PreloadStats
    no_stats = record { files = 0; bytes = 0; skipped = 0; paths = [] }

    -- `Preload`; `abs_root` is what `filepath.Abs` gives, if it gives anything.
    unfoldable pub preload :
        Tree → PreloadConfig → Option Bytes → List Visit → Cache lru → PreloadStats × Cache lru
    unfolding walk real_root
    preload tree cfg none vs c = (no_stats, c)
    preload tree cfg (some abs_root) vs c =
        walk tree cfg (real_root tree.eval_symlinks abs_root) vs (no_stats, c)
