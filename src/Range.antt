-- ===== src/Range.antt =====
-- Byte ranges: `httpRange`, `parseRange` of internal/handler/file.go.

pub mod Bounds
pub mod RoundTrip
use static_web.Prelude.{
  ℕ, zero, suc, ◌+◌, ◌-◌, ◌%◌, ◌^◌, ℤ, pos, negsuc, Bool, ◌&&◌, ◌||◌, Option, none, some, List, [],
  ◌∷◌, ◌++◌, Bytes, codes, add_int64, gt_int64, ltb, leb, ◌==◌, if◌then◌else◌, true, false, ◌≡◌,
  refl,
}
use static_web.Strings.{bytes_eq, is_empty, strip, cut_at, split, trim_space}
use static_web.Strconv.{parse_int}

pub record HttpRange : Type 0 where
  pub start : ℕ
  pub length : ℕ

abbrev pub max_ranges : ℕ
max_ranges = 16

-- The errors that the code tells apart by their text; `errUnsatisfiableRange` is the sentinel.
pub data RangeError : Type 0 where
  invalid_range too_many_ranges exceeds_content unsatisfiable : RangeError

pub data Parsed : Type 0 where
  ranges : List HttpRange → Parsed
  failed : RangeError → Parsed

-- What one range specification comes to: an error, `continue`, or a range.
pub data Spec : Type 0 where
  bad : Spec
  skip : Spec
  keep : HttpRange → Spec

-- `-N`: the last N bytes. `n` is what `ParseInt(end, 10, 64)` gives.
suffix_range : Option ℤ → ℕ → Spec
suffix_range none size = bad
suffix_range (some (negsuc n)) size = bad
suffix_range (some (pos n)) size =
    if (n == 0) || (size == 0)
    then skip
    else let n' = if ltb size n then size else n in keep (record { start = size - n'; length = n' })

-- `first >= size` is unsatisfiable. In an int64 `size - 1` is -1 at size 0, where nothing is kept.
from_first : ℕ → ℕ → ℕ → Spec
from_first first last size =
    if leb size first then skip else keep (record { start = first; length = last - first + 1 })

-- `first-` and `first-j`; the last argument is what `ParseInt(end, 10, 64)` gives.
closed_range : ℕ → ℕ → Option ℤ → Spec
unfolding from_first
closed_range first size none = bad
closed_range first size (some (negsuc j)) = bad
closed_range first size (some (pos j)) =
    if ltb j first then bad else from_first first (if ltb j (size - 1) then j else size - 1) size

first_range : Option ℤ → Bytes → ℕ → Spec
unfolding closed_range from_first
first_range none end size = bad
first_range (some (negsuc n)) end size = bad
first_range (some (pos first)) end size =
    if is_empty end
    then from_first first (size - 1) size
    else closed_range first size (parse_int end)

-- The body of the loop behind `strings.Index(ra, "-")`, on both sides of the dash.
pub spec_of : Bytes → Bytes → ℕ → Spec
unfolding suffix_range first_range
spec_of start end size =
    if is_empty start
    then if is_empty end then bad else suffix_range (parse_int end) size
    else first_range (parse_int start) end size

pub parse_spec : Bytes → ℕ → Spec
unfolding spec_of
parse_spec ra size = elim (cut_at b'-' ra) [
  | none ↦ bad
  | some (l, r) ↦ spec_of (trim_space l) (trim_space r) size
]

-- The loop over the specifications: `specs`, `total` and the ranges so far, and what is returned
-- behind it. `total` is the bit pattern of an int64.
pub scan_specs : List Bytes → ℕ → ℕ → ℕ → List HttpRange → Parsed
unfolding parse_spec
scan_specs [] size zero total out = failed invalid_range
scan_specs [] size (suc specs) total [] = failed unsatisfiable
scan_specs [] size (suc specs) total (r ∷ rs) = ranges (r ∷ rs)
scan_specs (part ∷ parts) size specs total out =
    let ra = trim_space part in
    elim (is_empty ra) [
      | true ↦ scan_specs parts size specs total out
      | false ↦ elim (ltb max_ranges (specs + 1)) [
        | true ↦ failed too_many_ranges
        | false ↦ elim (parse_spec ra size) [
          | bad ↦ failed invalid_range
          | skip ↦ scan_specs parts size (suc specs) total out
          | keep r ↦ elim (gt_int64 (add_int64 total r.length) size) [
            | true ↦ failed exceeds_content
            | false ↦ scan_specs parts size (suc specs) (add_int64 total r.length) (out ++ r ∷ [])
          ]
        ]
      ]
    ]

-- `parseRange(s, size)`.
unfoldable pub parse_range : Bytes → ℕ → Parsed
unfolding scan_specs
parse_range s size = elim (strip (codes "bytes=") s) [
  | none ↦ failed invalid_range
  | some rest ↦ scan_specs (split b',' rest) size 0 0 []
]
