-- ===== src/Paths.antt =====
-- Go's `path.Clean` and `filepath.Join` on a system whose separator is the slash.
-- `Segments` has the laws: a cleaned absolute path is its list of segments.
pub mod Segments
pub mod Containment
use static_web.Prelude.{
  ℕ, Bool, true, false, ◌&&◌, ◌||◌, List, [], ◌∷◌, ◌++◌, reverse, Bytes, codes, ◌==◌, if◌then◌else◌,
}
use static_web.Strings.{bytes_eq, is_empty, split, join, ends_with_byte}

abbrev pub slash : ℕ
slash = b'/'

abbrev pub dot_dot : Bytes
dot_dot = b'.' ∷ b'.' ∷ []

-- A segment that names nothing.
abbrev pub is_void : Bytes → Bool
is_void seg = is_empty seg || bytes_eq seg (b'.' ∷ [])

-- `..` takes the last segment away; behind no segment it stays in a relative path only.
unfoldable pub up : Bool → List Bytes → List Bytes
up rooted [] = if rooted then [] else dot_dot ∷ []
up rooted (top ∷ rest) = if bytes_eq top dot_dot then dot_dot ∷ top ∷ rest else rest

-- The segments that are kept, the last one first.
unfoldable pub resolve : Bool → List Bytes → List Bytes → List Bytes
unfolding up
resolve rooted [] stack = stack
resolve rooted (seg ∷ segs) stack =
    resolve rooted segs
      (if is_void seg then stack else if bytes_eq seg dot_dot then up rooted stack else seg ∷ stack)

abbrev pub is_abs : Bytes → Bool
is_abs [] = false
is_abs (c ∷ s) = c == slash

-- `path.Clean(p)`.
unfoldable pub clean : Bytes → Bytes
unfolding resolve
clean p =
    let kept = join (slash ∷ []) (reverse (resolve (is_abs p) (split slash p) [])) in
    if is_abs p then slash ∷ kept else if is_empty kept then b'.' ∷ [] else kept

-- `filepath.Join(a, b)`: the elements that are not empty, joined and cleaned.
unfoldable pub join_path : Bytes → Bytes → Bytes
unfolding clean
join_path a b =
    if is_empty a
    then if is_empty b then [] else clean b
    else clean (if is_empty b then a else a ++ (slash ∷ b))

-- A path and the separator, added if it does not end with one.
unfoldable pub with_separator : Bytes → Bytes
with_separator p = if ends_with_byte slash p then p else p ++ slash ∷ []
