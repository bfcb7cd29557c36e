-- ===== src/Headers.antt =====
-- internal/headers/headers.go: cache keys, entity tags and the Vary header. The writing of the
-- caching headers is in `Caching`.
pub mod Etags
pub mod Freshness
pub mod Caching
use static_web.Prelude.{
  ℕ, zero, suc, Bool, true, false, not, ◌&&◌, ◌||◌, Option, none, some, List, [], ◌∷◌, ◌++◌, Bytes,
  codes, ◌==◌, if◌then◌else◌, length,
}
use static_web.Strings.{
  bytes_eq, is_empty, has_prefix, trim_prefix, cut_at, split, join, equal_fold, ends_with_byte,
  trim_space, trim_left, trim_right,
}
use static_web.Paths.{slash, clean}

abbrev pub default_index : Bytes
default_index = codes "index.html"

-- `CacheKeyForPath`.
unfoldable pub cache_key : Bytes → Bytes → Bytes
cache_key url_path index_file =
    let index = if is_empty index_file then default_index else index_file in
    let is_dir =
      is_empty url_path || bytes_eq url_path (slash ∷ []) || ends_with_byte slash url_path in
    let path = clean (slash ∷ url_path) in
    if bytes_eq path (slash ∷ [])
    then slash ∷ index
    else if is_dir
    then path ++ (slash ∷ index)
    else path

-- The next element of a list and the text behind its comma.
unfoldable pub next_token : Bytes → Bytes × Bytes
next_token s = elim (cut_at b',' s) [ none ↦ (s, []) | some p ↦ p ]

abbrev pub weak_prefix : Bytes
weak_prefix = b'W' ∷ b'/' ∷ []

-- The comparison of one list element, behind the blanks on its left.
abbrev pub is_tag : Bytes → Bytes → Bool
is_tag want token = bytes_eq (trim_prefix weak_prefix (trim_right token)) want

-- The loop of `ETagMatches`: each round takes at least a byte, so one more than the length is fuel
-- enough.
unfoldable pub match_tags : ℕ → Bytes → Bytes → Bool
unfolding next_token
match_tags zero want s = false
match_tags (suc fuel) want s =
    let s' = trim_left s in
    elim (is_empty s') [
      | true ↦ false
      | false ↦ elim (is_tag want (next_token s').0) [
        | true ↦ true
        | false ↦ match_tags fuel want (next_token s').1
      ]
    ]

-- `ETagMatches`.
unfoldable pub etag_matches : Bytes → Bytes → Bool
unfolding match_tags
etag_matches if_none_match etag =
    if bytes_eq (trim_space if_none_match) (b'*' ∷ [])
    then true
    else match_tags (suc (length if_none_match)) (trim_prefix weak_prefix etag) if_none_match

pub contains_fold : Bytes → List Bytes → Bool
contains_fold t [] = false
contains_fold t (e ∷ es) = equal_fold e t || contains_fold t es

-- What the loops of `AddVary` come to: `none` for the early return at a star, or the tokens so far
-- and whether the new one is among them.
unfoldable pub vary_tokens : Bytes → List Bytes → List Bytes → Bool → Option (List Bytes × Bool)
unfolding contains_fold
vary_tokens token [] tokens found = some (tokens, found)
vary_tokens token (part ∷ parts) tokens found =
    let t = trim_space part in
    elim (is_empty t) [
      | true ↦ vary_tokens token parts tokens found
      | false ↦ elim (bytes_eq t (b'*' ∷ [])) [
        | true ↦ none
        | false ↦ elim (equal_fold t token && found) [
          | true ↦ vary_tokens token parts tokens found
          | false ↦
              vary_tokens token parts (if contains_fold t tokens then tokens else tokens ++ t ∷ [])
                (equal_fold t token || found)
        ]
      ]
    ]

-- The elements of all values, in order.
unfoldable pub elements : List Bytes → List Bytes
elements [] = []
elements (v ∷ vs) = split b',' v ++ elements vs

-- `AddVary` on the values of the header: what is set, if anything is.
unfoldable pub merged_vary : Bytes → List Bytes → Option Bytes
unfolding vary_tokens elements
merged_vary token [] = some token
merged_vary token (v ∷ vs) = elim (vary_tokens token (elements (v ∷ vs)) [] false) [
  | none ↦ none
  | some (tokens, found) ↦
      some (join (b',' ∷ b' ' ∷ []) (if found then tokens else tokens ++ token ∷ []))
]
