-- ===== src/Handler/Listing/Entries.antt =====
-- internal/handler/dirlist.go: which entries a listing shows.
use static_web.Prelude.{
  ℤ, ◌≡◌, Bool, true, false, ◌&&◌, none, some, List, [], ◌∷◌, ◌++◌, Bytes, if◌then◌else◌,
}
use mathlib.Core.List.{Perm, Mem}
use mathlib.Core.List.Perm
use static_web.Strings.{has_prefix}
use static_web.Handler.Listing.{DirEntry, Item, entry_of}

module _ (format_time : ℤ → Bytes) where
  -- What is to be shown: not hidden where that matters, and with the information at hand.
  pub visible : Bool → Bytes → List Item → List DirEntry
  visible block url [] = []
  visible block url (item ∷ items) =
      let rest = visible block url items in
      if block && has_prefix (b'.' ∷ []) item.name
      then rest
      else elim item.info [ none ↦ rest | some info ↦ entry_of format_time url item info ∷ rest ]

  -- Behind the link to the parent come directories and then files, together just what is visible.
  pub record IsListing (parent : List DirEntry) (shown all : List DirEntry) : Type 0 where
    pub dirs : List DirEntry
    pub files : List DirEntry
    pub in_order : all ≡ parent ++ (dirs ++ files)
    pub are_dirs : (d : DirEntry) → Mem d dirs → d.is_dir ≡ true
    pub are_files : (d : DirEntry) → Mem d files → d.is_dir ≡ false
    pub same : Perm (dirs ++ files) shown
