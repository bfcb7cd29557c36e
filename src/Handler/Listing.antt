-- ===== src/Handler/Listing.antt =====
-- internal/handler/dirlist.go: the directory listing. The sorting, the template and the texts of
-- times and of floating-point numbers are parameters.
pub mod Entries
use static_web.Prelude.{
  ℕ, ◌*◌, ◌^◌, ℤ, pos, negsuc, Bool, true, false, not, ◌&&◌, ◌||◌, Option, none, some, List, [],
  ◌∷◌, ◌++◌, Bytes, codes, ◌==◌, if◌then◌else◌, ltb, lt_int, map, reverse,
}
use static_web.Strings.{
  bytes_eq, is_empty, has_prefix, split, ends_with_byte, trim_left_slashes, trim_right_slashes,
}
use static_web.Strconv.{format_int}
use static_web.Paths.{slash, with_separator}
use static_web.Http.{Method, get, head, options, other, Http, Request, content_type}
use static_web.Config.{Config}
use static_web.Server.Redirect.{trim_suffix_byte}
use static_web.Cache.Preload.{up_to_slash}

-- `dirEntry`.
pub record DirEntry : Type 0 where
  pub name : Bytes
  pub href : Bytes
  pub is_dir : Bool
  pub size : ℤ
  pub mod_time : Bytes

-- `breadcrumb`.
pub record Breadcrumb : Type 0 where
  pub label : Bytes
  pub href : Bytes

-- `dirListData`.
pub record DirListData : Type 0 where
  pub url_path : Bytes
  pub breadcrumbs : List Breadcrumb
  pub entries : List DirEntry

-- `os.DirEntry`: with the size and the time that `Info` gives, or its error.
pub record Item : Type 0 where
  pub name : Bytes
  pub is_dir : Bool
  pub info : Option (ℤ × ℤ)

-- What `os.ReadDir` answers: the entries, an error of `os.IsPermission`, or another.
pub data Listed : Type 0 where
  listed : List Item → Listed
  locked broken : Listed

-- `parentURL`.
unfoldable pub parent_url : Bytes → Bytes
unfolding trim_suffix_byte up_to_slash
parent_url url =
    let up = up_to_slash (trim_suffix_byte slash url) in if is_empty up then slash ∷ [] else up

-- The loop of `buildBreadcrumbs`: the last part has no link.
unfoldable pub crumbs_from : Bytes → List Bytes → List Breadcrumb
crumbs_from accumulated [] = []
crumbs_from accumulated (p ∷ []) = if is_empty p then [] else record { label = p; href = [] } ∷ []
crumbs_from accumulated (p ∷ q ∷ ps) =
    let here = accumulated ++ (p ++ slash ∷ []) in
    let skipped = crumbs_from accumulated (q ∷ ps) in
    let rest = crumbs_from here (q ∷ ps) in
    if is_empty p then skipped else record { label = p; href = here } ∷ rest

-- `buildBreadcrumbs`.
unfoldable pub build_breadcrumbs : Bytes → List Breadcrumb
unfolding crumbs_from
build_breadcrumbs url =
    record { label = codes "~"; href = slash ∷ [] }
    ∷ crumbs_from (slash ∷ []) (split slash (trim_left_slashes (trim_right_slashes url)))

-- `s < t` on strings.
unfoldable pub less : Bytes → Bytes → Bool
less s [] = false
less [] (d ∷ t) = true
less (c ∷ s) (d ∷ t) = ltb c d || ((c == d) && less s t)

-- `decimal` is `fmt.Sprintf("%.1f", float64(b)/float64(unit))`.
module _ (decimal : ℤ → ℕ → Bytes) where
  -- `formatSize`.
  unfoldable pub format_size : ℤ → Bytes
  format_size b =
      if not (lt_int b (pos (1024 ^ 3)))
      then decimal b (1024 ^ 3) ++ codes " GB"
      else if not (lt_int b (pos (1024 ^ 2)))
      then decimal b (1024 ^ 2) ++ codes " MB"
      else if not (lt_int b (pos 1024))
      then decimal b 1024 ++ codes " KB"
      else format_int b ++ codes " B"

-- `format_time` is `t.UTC().Format(modTimeFormat)`.
module _ (format_time : ℤ → Bytes) where
  unfoldable pub entry_of : Bytes → Item → ℤ × ℤ → DirEntry
  entry_of url item (n, time) = record {
    name = item.name;
    href = (url ++ item.name) ++ (if item.is_dir then slash ∷ [] else []);
    is_dir = item.is_dir;
    size = if item.is_dir then pos 0 else n;
    mod_time = format_time time;
  }

  -- The loop over the entries: the directories or the files among them.
  unfoldable pub collect : Bool → Bool → Bytes → List Item → List DirEntry
  unfolding entry_of
  collect dirs block url [] = []
  collect dirs block url (item ∷ items) =
      let rest = collect dirs block url items in
      if block && has_prefix (b'.' ∷ []) item.name then rest else elim item.info [
        | none ↦ rest
        | some info ↦
            if (item.is_dir && dirs) || (not item.is_dir && not dirs)
            then entry_of url item info ∷ rest
            else rest
      ]

  -- `to_lower` is `strings.ToLower`, `sort` is `sort.Slice`.
  module _ (to_lower : Bytes → Bytes)
      (sort : (DirEntry → DirEntry → Bool) → List DirEntry → List DirEntry) where
    unfoldable pub name_less : DirEntry → DirEntry → Bool
    unfolding less
    name_less a b = less (to_lower a.name) (to_lower b.name)

    -- The link to the parent, except at the root.
    abbrev pub parent_entry : Bytes → List DirEntry
    parent_entry url =
        if bytes_eq url (slash ∷ [])
        then []
        else record {
          name = codes "..";
          href = parent_url url;
          is_dir = true;
          size = pos 0;
          mod_time = [];
        }
          ∷ []

    unfoldable pub all_entries : Bool → Bytes → List Item → List DirEntry
    unfolding collect name_less parent_url
    all_entries block url items =
        parent_entry url
        ++ (sort name_less (collect true block url items)
            ++ sort name_less (collect false block url items))

    unfoldable pub list_data : Bool → Bytes → List Item → DirListData
    unfolding all_entries build_breadcrumbs
    list_data block url items = record {
      url_path = url;
      breadcrumbs = build_breadcrumbs url;
      entries = all_entries block url items;
    }

    -- `read_dir` is `os.ReadDir`, `render` the template, with `none` for its error.
    module _ (read_dir : Bytes → Listed) (render : DirListData → Option Bytes) (http : Http) where
      open http use {Response, set_header, set_status, set_body, error}

      abbrev pub is_head : Method → Bool
      is_head head = true
      is_head get = false
      is_head options = false
      is_head other = false

      abbrev pub send_page : Option Bytes → Response → Response
      send_page none r =
          set_body (codes "Internal Server Error: failed to render directory listing")
            (set_status 500 r)
      send_page (some page) r = set_body page r

      -- Behind `os.ReadDir`.
      unfoldable pub send_listing : Config → Request → Bytes → Listed → Response → Response
      unfolding list_data
      send_listing cfg req url locked r = error (codes "Forbidden") 403 r
      send_listing cfg req url broken r = error (codes "Internal Server Error") 500 r
      send_listing cfg req url (listed items) r =
          let r' = set_status 200 (set_header content_type (codes "text/html; charset=utf-8") r) in
          if is_head req.method
          then r'
          else send_page (render (list_data cfg.security.block_dotfiles (with_separator url) items))
              r'

      -- `serveDirectoryListing`.
      unfoldable pub serve_directory_listing :
          Config → Request → Bytes → Bytes → Response → Response
      unfolding send_listing
      serve_directory_listing cfg req abs_dir url = send_listing cfg req url (read_dir abs_dir)
