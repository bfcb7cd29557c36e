-- ===== src/Command/Units.antt =====
-- cmd/static-web/main.go: the sizes that `parseBytes` reads.
use static_web.Prelude.{
  ℕ, ◌+◌, ◌-◌, ◌*◌, ◌/◌, ◌^◌, ◌<◌, true, false, [], ◌∷◌, ◌++◌, Bytes, codes, ◌≡◌, ◌≢◌, refl, arith,
  if◌then◌else◌, length, leb, ltb, map, All, All-append, All_map, length-append, drop-append,
  take-append,
}
use static_web.Strings.{bytes_eq, is_empty}
use static_web.Strings.Trim.{IsPlain, trim_space-plain}
use static_web.Strconv.{format}
use static_web.Strconv.Laws.{IsDigit, format-IsDigit, format-ne-nil, parse_int-format}
use static_web.Command.Sizes.{
  upper_byte, has_suffix, drop_last, split_unit, Size, size, bad_size, too_large, check_size,
  parse_trimmed, parse_bytes,
}

-- The units of the help text.
pub data SizeUnit : Type 0 where
  kb mb gb : SizeUnit

abbrev pub text : SizeUnit → Bytes
text kb = codes "KB"
text mb = codes "MB"
text gb = codes "GB"

abbrev pub factor : SizeUnit → ℕ
factor kb = 1024
factor mb = 1024 * 1024
factor gb = 1024 * 1024 * 1024

upper_byte-digits : (l t : Bytes) → All IsDigit l → map upper_byte (l ++ t) ≡ l ++ map upper_byte t
unfolding upper_byte
upper_byte-digits [] t h = refl
upper_byte-digits (c ∷ l) t (h, hs) =
    let same : upper_byte c ≡ c = ground arith in rw (same, upper_byte-digits l t hs)

has_suffix-append : (p l t : Bytes) → length p ≡ length t → has_suffix p (l ++ t) ≡ bytes_eq t p
unfolding has_suffix
has_suffix-append p l t h =
    let total : length (l ++ t) ≡ length l + length t = length-append l t in
    let cut : length (l ++ t) - length p ≡ length l = omega (arith, total, h) in
    let fits : leb (length p) (length (l ++ t)) ≡ true = ground (arith, total, h) in
    rw (fits, cut, drop-append l t)

has_suffix-upper :
    (p l t : Bytes)
    → All IsDigit l
    → length p ≡ length (map upper_byte t)
    → has_suffix p (map upper_byte (l ++ t)) ≡ bytes_eq (map upper_byte t) p
has_suffix-upper p l t h k =
    rw (upper_byte-digits l t h) (has_suffix-append p l (map upper_byte t) k)

drop_last-append : (l t : Bytes) → drop_last (length t) (l ++ t) ≡ l
drop_last-append l t =
    let total : length (l ++ t) ≡ length l + length t = length-append l t in
    let cut : length (l ++ t) - length t ≡ length l = omega (arith, total) in
    rw (cut, take-append l t)

split_unit-text :
    (u : SizeUnit) (l : Bytes) → All IsDigit l → split_unit (l ++ text u) ≡ (factor u, l)
unfolding split_unit bytes_eq upper_byte
split_unit-text gb l h = rw (
  has_suffix-upper (codes "GB") l (codes "GB") h refl,
  drop_last-append l (codes "GB"),
  split_unit,
)
split_unit-text mb l h = rw (
  has_suffix-upper (codes "GB") l (codes "MB") h refl,
  has_suffix-upper (codes "MB") l (codes "MB") h refl,
  drop_last-append l (codes "MB"),
  split_unit,
)
split_unit-text kb l h = rw (
  has_suffix-upper (codes "GB") l (codes "KB") h refl,
  has_suffix-upper (codes "MB") l (codes "KB") h refl,
  has_suffix-upper (codes "KB") l (codes "KB") h refl,
  drop_last-append l (codes "KB"),
  split_unit,
)

IsDigit-IsPlain : (c : ℕ) → IsDigit c → IsPlain c
IsDigit-IsPlain c h = omega arith

format-IsPlain : (n : ℕ) → All IsPlain (format n)
format-IsPlain n = All_map IsDigit IsPlain IsDigit-IsPlain (format n) (format-IsDigit n)

text-IsPlain : (u : SizeUnit) → All IsPlain (text u)
text-IsPlain kb = omega arith
text-IsPlain mb = omega arith
text-IsPlain gb = omega arith

append-not_empty : (s t : Bytes) → s ≢ [] → is_empty (s ++ t) ≡ false
unfolding is_empty
append-not_empty [] t h = absurd (h refl)
append-not_empty (c ∷ s) t h = refl

-- The test of the code, which divides, is the one that multiplies.
too_large_iff :
    (u : SizeUnit) (n : ℕ) → ltb ((2 ^ 63 - 1) / factor u) n ≡ ltb (2 ^ 63 - 1) (n * factor u)
too_large_iff kb n = ground arith
too_large_iff mb n = ground arith
too_large_iff gb n = ground arith

-- The product, or the error where it does not fit an int64.
abbrev pub exact_size : ℕ → Size
exact_size n = if ltb (2 ^ 63 - 1) n then bad_size too_large else size n

-- A number below 2^63 with one of the suffixes KB, MB and GB is read by parseBytes as the number
-- times the unit, and as too large just if that product is not below 2^63.
pub parse_bytes-exact :
    (u : SizeUnit) (n : ℕ)
    → n < 2 ^ 63
    → parse_bytes (format n ++ text u) ≡ exact_size (n * factor u)
unfolding parse_bytes parse_trimmed check_size
parse_bytes-exact u n h = rw (
  trim_space-plain (format n ++ text u)
      (All-append IsPlain (format n) (text u) (format-IsPlain n) (text-IsPlain u)),
  append-not_empty (format n) (text u) (format-ne-nil n),
  split_unit-text u (format n) (format-IsDigit n),
  trim_space-plain (format n) (format-IsPlain n),
  parse_int-format n h,
  too_large_iff u n,
)
