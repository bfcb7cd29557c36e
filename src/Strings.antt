-- ===== src/Strings.antt =====
-- Go's `strings` and `bytes` functions over byte strings, as far as the server calls them.
-- `Trim` has white space, `Laws` the facts on prefixes, splitting and comparison.
pub mod Trim
pub mod Laws
pub mod Cutting
unfoldable pub use Trim.{trim_space, trim_left, trim_right}
use static_web.Prelude.{
  reverse, ℕ, zero, suc, ◌+◌, ◌-◌, Bool, true, false, not, ◌&&◌, ◌||◌, Option, none, some, List, [],
  ◌∷◌, ◌++◌, map, Bytes, leb, ◌==◌, if◌then◌else◌, length,
}

-- `a == b` on strings.
unfoldable pub bytes_eq : Bytes → Bytes → Bool
bytes_eq [] [] = true
bytes_eq [] (d ∷ t) = false
bytes_eq (c ∷ s) [] = false
bytes_eq (c ∷ s) (d ∷ t) = (c == d) && bytes_eq s t

unfoldable pub is_empty : Bytes → Bool
is_empty [] = true
is_empty (c ∷ s) = false

-- `strings.HasPrefix(s, p)`, the prefix first.
unfoldable pub has_prefix : Bytes → Bytes → Bool
has_prefix [] s = true
has_prefix (p ∷ ps) [] = false
has_prefix (p ∷ ps) (c ∷ s) = (p == c) && has_prefix ps s

-- The rest of `s` behind the prefix.
unfoldable pub strip : Bytes → Bytes → Option Bytes
strip [] s = some s
strip (p ∷ ps) [] = none
strip (p ∷ ps) (c ∷ s) = let rest = strip ps s in if p == c then rest else none

-- `strings.TrimPrefix(s, p)`, the prefix first.
unfoldable pub trim_prefix : Bytes → Bytes → Bytes
unfolding strip
trim_prefix p s = elim (strip p s) [ none ↦ s | some rest ↦ rest ]

-- `strings.ContainsRune(s, c)` and `strings.IndexByte(s, c) >= 0` for an ASCII `c`.
unfoldable pub contains_byte : ℕ → Bytes → Bool
contains_byte b [] = false
contains_byte b (c ∷ s) = (c == b) || contains_byte b s

-- `s[:i]` and `s[i+1:]` at the first `b`, where `i = strings.IndexByte(s, b)` is not negative.
unfoldable pub cut_at : ℕ → Bytes → Option (Bytes × Bytes)
cut_at b [] = none
cut_at b (c ∷ s) = elim (c == b) [
  | true ↦ some ([], s)
  | false ↦ elim (cut_at b s) [ none ↦ none | some (l, r) ↦ some (c ∷ l, r) ]
]

-- A byte in front of the first part.
abbrev pub push_byte : ℕ → List Bytes → List Bytes
push_byte c [] = (c ∷ []) ∷ []
push_byte c (p ∷ ps) = (c ∷ p) ∷ ps

-- `strings.Split(s, sep)` for a separator of one byte.
unfoldable pub split : ℕ → Bytes → List Bytes
split b [] = [] ∷ []
split b (c ∷ s) = let rest = split b s in if c == b then [] ∷ rest else push_byte c rest

-- `strings.Join(parts, sep)`.
unfoldable pub join : Bytes → List Bytes → Bytes
join sep [] = []
join sep (p ∷ []) = p
join sep (p ∷ q ∷ ps) = p ++ (sep ++ join sep (q ∷ ps))

-- `strings.HasSuffix(s, string(b))` for one byte.
unfoldable pub ends_with_byte : ℕ → Bytes → Bool
ends_with_byte b [] = false
ends_with_byte b (c ∷ []) = c == b
ends_with_byte b (c ∷ d ∷ s) = ends_with_byte b (d ∷ s)

-- `strings.ToLower` on an ASCII byte; bytes of other runes stay.
unfoldable pub lower_byte : ℕ → ℕ
lower_byte c = if leb b'A' c && leb c b'Z' then c + 32 else c

-- Simple folding: two runes beside the capitals fold to ASCII letters, the long s and the kelvin
-- sign. Runes that fold among themselves outside ASCII are left apart.
unfoldable pub fold : Bytes → Bytes
unfolding lower_byte
fold [] = []
fold (c ∷ []) = lower_byte c ∷ []
fold (c ∷ d ∷ []) =
    if (c == 0xC5) && (d == 0xBF) then b's' ∷ [] else lower_byte c ∷ lower_byte d ∷ []
fold (c ∷ d ∷ e ∷ s) =
    let long_s = b's' ∷ fold (e ∷ s) in
    let kelvin = b'k' ∷ fold s in
    let plain = lower_byte c ∷ fold (d ∷ e ∷ s) in
    if (c == 0xC5) && (d == 0xBF)
    then long_s
    else if (c == 0xE2) && (d == 0x84) && (e == 0xAA)
    then kelvin
    else plain

-- `strings.EqualFold(s, t)` where `t` is ASCII.
unfoldable pub equal_fold : Bytes → Bytes → Bool
unfolding bytes_eq fold
equal_fold s t = bytes_eq (fold s) (fold t)

-- `strings.Contains(s, p)`, the part first.
unfoldable pub contains : Bytes → Bytes → Bool
unfolding has_prefix
contains p [] = is_empty p
contains p (c ∷ s) = has_prefix p (c ∷ s) || contains p s

ext_from : Bytes → Bytes → Bytes
ext_from [] found = found
ext_from (c ∷ s) found = ext_from s (if c == b'/' then [] else if c == b'.' then c ∷ s else found)

-- `filepath.Ext(s)`: from the last dot behind the last slash on.
unfoldable pub ext : Bytes → Bytes
unfolding ext_from
ext s = ext_from s []

base_from : Bytes → Bytes → Bytes
base_from [] found = found
base_from (c ∷ s) found = base_from s (if c == b'/' then s else found)

-- `s` behind its last slash.
unfoldable pub after_slash : Bytes → Bytes
unfolding base_from
after_slash s = base_from s s

drop_slashes : Bytes → Bytes
drop_slashes [] = []
drop_slashes (c ∷ s) = let rest = drop_slashes s in if c == b'/' then rest else c ∷ s

-- `strings.TrimRight(s, "/")`.
unfoldable pub trim_right_slashes : Bytes → Bytes
unfolding drop_slashes
trim_right_slashes s = reverse (drop_slashes (reverse s))

-- `strings.TrimLeft(s, "/")`.
unfoldable pub trim_left_slashes : Bytes → Bytes
unfolding drop_slashes
trim_left_slashes s = drop_slashes s

-- `filepath.Base(s)`.
unfoldable pub base : Bytes → Bytes
unfolding trim_right_slashes after_slash is_empty
base s =
    let t = trim_right_slashes s in
    if is_empty s then b'.' ∷ [] else if is_empty t then b'/' ∷ [] else after_slash t
