-- ===== src/Handler/Kinds.antt =====
-- internal/handler/file.go: `computeETag` and `detectContentType`.
use static_web.Prelude.{
  ℕ, ◌+◌, ◌-◌, ◌/◌, ◌%◌, zero, suc, ◌==◌, ℤ, pos, negsuc, true, false, Option, none, some, [], ◌∷◌,
  Bytes, codes, map, take, ltb, if◌then◌else◌,
}
use static_web.Strings.{is_empty, ext, lower_byte}
use static_web.Platform.{Platform}

-- `"0123456789abcdef"[n]`
abbrev pub hex_digit : ℕ → ℕ
hex_digit n = if ltb n 10 then b'0' + n else b'a' + (n - 10)

-- `hex.EncodeToString`.
unfoldable pub hex : Bytes → Bytes
hex [] = []
hex (c ∷ s) = hex_digit (c / 16) ∷ hex_digit (c % 16) ∷ hex s

-- `strconv.FormatInt(n, 16)`: `n` rounds are enough.
hex_digits : ℕ → ℕ → Bytes → Bytes
hex_digits zero n out = out
hex_digits (suc fuel) n out = elim (n == 0) [
  | true ↦ out
  | false ↦ hex_digits fuel (n / 16) (hex_digit (n % 16) ∷ out)
]

abbrev hex_nat : ℕ → Bytes
hex_nat n = if n == 0 then b'0' ∷ [] else hex_digits n n []

pub format_hex : ℤ → Bytes
unfolding hex_digits
format_hex (pos n) = hex_nat n
format_hex (negsuc n) = b'-' ∷ hex_nat (suc n)

module _ (os : Platform) where
  -- `computeETag`, and `computeFileETag` of internal/cache/preload.go: 16 digits.
  pub compute_etag : Bytes → Bytes
  unfolding hex
  compute_etag content = hex (take 8 (os.sha256 content))

  -- `mime.TypeByExtension` of the lower-case extension.
  abbrev pub type_by_name : Bytes → Bytes
  type_by_name path = os.mime_type (map lower_byte (ext path))

  -- `detectContentType`, and `detectMIMEType` of internal/cache/preload.go; `none` is a nil slice.
  unfoldable pub detect_content_type : Bytes → Option Bytes → Bytes
  detect_content_type path snippet =
      if is_empty (type_by_name path)
      then (elim snippet [
        | none ↦ codes "application/octet-stream"
        | some content ↦ os.sniff (take 512 content)
      ])
      else type_by_name path
