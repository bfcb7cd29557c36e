-- ===== src/Tests/Preloaded.antt =====
-- Preloading and directory listings: internal/cache/preload.go and internal/handler/dirlist.go.
use static_web.Prelude.{
  ℤ, pos, ◌≡◌, refl, Bool, true, false, none, some, List, [], ◌∷◌, Bytes, codes, if◌then◌else◌, All,
}
use mathlib.Core.List.{Perm}
use mathlib.Core.List.Perm
use static_web.Strings.{bytes_eq, has_prefix, lower_byte, cut_at, trim_space, ends_with_byte}
use static_web.Paths.{with_separator}
use static_web.Compress.{is_compressible, is_member}
use static_web.Security.{missing, is_inside, real_root}
use static_web.Cache.Preload.{PreloadConfig, Visit, Tree, is_compressible_type, preload}
use static_web.Cache.Preload.Types.{is_compressible-preload}
use static_web.Cache.Preload.Reading.{IsSameBelow, preload-same}
use static_web.Handler.Listing.{DirEntry, Item}
use static_web.Tests.Samples.{platform}
use static_web.Tests.Caching.{store, full}

html_compressible : is_compressible (codes "text/HTML; charset=utf-8") ≡ true
unfolding is_compressible is_member bytes_eq lower_byte cut_at trim_space
html_compressible = refl

is_compressible-preload_example : is_compressible_type (codes "text/HTML; charset=utf-8") ≡ true
is_compressible-preload_example =
    is_compressible-preload (codes "text/HTML; charset=utf-8") html_compressible

abbrev open_tree : Tree
open_tree = record {
  eval_symlinks = λ p. missing;
  stat_regular = λ p. some (5, pos 0);
  read_file = λ p. some (codes "hello");
  relative = λ p. some (codes "a.txt");
}

-- The same below /srv, and nothing elsewhere.
abbrev closed_tree : Tree
closed_tree = record open_tree {
  stat_regular = λ p. if is_inside (codes "/srv") p then some (5, pos 0) else none;
  read_file = λ p. if is_inside (codes "/srv") p then some (codes "hello") else none;
}

abbrev plainly : PreloadConfig
plainly = record {
  max_file_size = pos 100;
  index_file = [];
  block_dotfiles = true;
  compress_enabled = false;
  compress_min_size = pos 0;
  compress_level = pos 5;
  compress = none;
  html_max_age = pos 0;
  static_max_age = pos 0;
  immutable_pattern = [];
}

abbrev one_visit : List Visit
one_visit =
    record {
      path = codes "/srv/a.txt";
      failed = false;
      is_dir = false;
      is_symlink = false;
      now = pos 1;
      fresh = 7;
    }
    ∷ []

trees_IsSameBelow :
    IsSameBelow (real_root open_tree.eval_symlinks (codes "/srv")) open_tree closed_tree
unfolding real_root
trees_IsSameBelow = record {
  links = refl;
  paths = refl;
  stats = λ p h. rw h refl;
  contents = λ p h. rw h refl;
}

visits_inside :
    All (λ v. is_inside (real_root open_tree.eval_symlinks (codes "/srv")) v.path ≡ true) one_visit
unfolding real_root is_inside bytes_eq has_prefix ends_with_byte with_separator
visits_inside = (refl, tt)

preload-same_example :
    preload platform store open_tree plainly (some (codes "/srv")) one_visit full
    ≡ preload platform store closed_tree plainly (some (codes "/srv")) one_visit full
preload-same_example =
    preload-same platform store open_tree closed_tree plainly (codes "/srv") one_visit full
      trees_IsSameBelow visits_inside

abbrev clock : ℤ → Bytes
clock t = codes "2024-01-01 00:00"

abbrev unsorted : (DirEntry → DirEntry → Bool) → List DirEntry → List DirEntry
unsorted before l = l

abbrev same_case : Bytes → Bytes
same_case s = s

abbrev items : List Item
items =
    record { name = codes "b.txt"; is_dir = false; info = some (pos 3, pos 0) }
    ∷ record { name = codes ".git"; is_dir = true; info = some (pos 0, pos 0) }
    ∷ record { name = codes "a"; is_dir = true; info = some (pos 0, pos 0) }
    ∷ []
