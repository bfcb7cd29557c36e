-- ===== src/Command/Sizes.antt =====
-- cmd/static-web/main.go: `parseBytes`.
use static_web.Prelude.{
  ℕ, ◌-◌, ◌*◌, ◌/◌, ◌^◌, ℤ, pos, negsuc, Bool, ◌&&◌, Option, none, some, Bytes, codes,
  if◌then◌else◌, length, take, drop, leb, ltb, map, lt_int, not, ◌++◌,
}
use static_web.Strings.{bytes_eq, is_empty, trim_space}
use static_web.Strconv.{parse_int, format_int}

-- `strings.ToUpper` on an ASCII byte. No other rune has an ASCII capital that a suffix holds.
unfoldable pub upper_byte : ℕ → ℕ
upper_byte c = if leb b'a' c && leb c b'z' then c - 32 else c

-- `strings.HasSuffix(s, p)`, the suffix first.
unfoldable pub has_suffix : Bytes → Bytes → Bool
has_suffix p s = leb (length p) (length s) && bytes_eq (drop (length s - length p) s) p

-- `s[:len(s)-n]`
abbrev pub drop_last : ℕ → Bytes → Bytes
drop_last n s = take (length s - n) s

-- The multiplier of the suffix, and the text before it.
unfoldable pub split_unit : Bytes → ℕ × Bytes
unfolding has_suffix upper_byte
split_unit s =
    let upper = map upper_byte s in
    if has_suffix (codes "GB") upper
    then (1024 * 1024 * 1024, drop_last 2 s)
    else if has_suffix (codes "MB") upper
    then (1024 * 1024, drop_last 2 s)
    else if has_suffix (codes "KB") upper
    then (1024, drop_last 2 s)
    else if has_suffix (codes "B") upper
    then (1, drop_last 1 s)
    else (1, s)

-- Why `parseBytes` fails.
pub data SizeError : Type 0 where
  empty_value not_a_number negative too_large : SizeError

pub data Size : Type 0 where
  size : ℕ → Size
  bad_size : SizeError → Size

-- The checks on the number. `math.MaxInt64` is 2^63 - 1.
unfoldable pub check_size : ℕ → Option ℤ → Size
check_size multiplier none = bad_size not_a_number
check_size multiplier (some (negsuc n)) = bad_size negative
check_size multiplier (some (pos n)) =
    if ltb ((2 ^ 63 - 1) / multiplier) n then bad_size too_large else size (n * multiplier)

-- `parseBytes` behind `TrimSpace`.
unfoldable pub parse_trimmed : Bytes → Size
unfolding check_size split_unit
parse_trimmed s =
    if is_empty s
    then bad_size empty_value
    else check_size (split_unit s).0 (parse_int (trim_space (split_unit s).1))

-- `parseBytes`.
unfoldable pub parse_bytes : Bytes → Size
unfolding parse_trimmed
parse_bytes s = parse_trimmed (trim_space s)

-- `decimal` is `fmt.Sprintf("%.1f", float64(b)/float64(unit))`.
module _ (decimal : ℤ → ℕ → Bytes) where
  -- `formatByteSize`.
  pub format_byte_size : ℤ → Bytes
  format_byte_size b =
      if not (lt_int b (pos (1024 ^ 3)))
      then decimal b (1024 ^ 3) ++ codes " GB"
      else if not (lt_int b (pos (1024 ^ 2)))
      then decimal b (1024 ^ 2) ++ codes " MB"
      else if not (lt_int b (pos 1024))
      then decimal b 1024 ++ codes " KB"
      else format_int b ++ codes " B"
