-- ===== src/Cache/Preload/Types.antt =====
-- internal/cache/preload.go: `isCompressibleType` beside `IsCompressible` of internal/compress.
use static_web.Prelude.{true, List, [], ◌∷◌, Bytes, ◌≡◌, refl, sym, All, inl, inr, Bool-cases}
use static_web.Strings.{bytes_eq, has_prefix}
use static_web.Strings.Laws.{bytes_eq_iff}
use static_web.Compress.{is_member, is_compressible, compressible_types}
use static_web.Cache.Preload.{starts_with_any, is_compressible_type, compressible_prefixes}

starts_of_member :
    (ps ts : List Bytes) (s : Bytes)
    → All (λ t. starts_with_any ps t ≡ true) ts
    → is_member s ts ≡ true
    → starts_with_any ps s ≡ true
unfolding is_member
starts_of_member ps [] s h m = absurd (cc m)
starts_of_member ps (t ∷ ts) s (h, hs) m = elim (Bool-cases (bytes_eq t s)) [
  | inl e ↦ rw (sym ((bytes_eq_iff t s).0 e)) h
  | inr e ↦ starts_of_member ps ts s hs (cc (rw e at m))
]

compressible_types-start :
    All (λ t. starts_with_any compressible_prefixes t ≡ true) compressible_types
unfolding starts_with_any has_prefix
compressible_types-start = (
  refl,
  (
    refl,
    (
      refl,
      (refl, (refl, (refl, (refl, (refl, (refl, (refl, (refl, (refl, (refl, (refl, tt))))))))))),
    ),
  ),
)

-- Every media type for which IsCompressible holds is one that the preload compresses:
-- isCompressibleType is no narrower.
pub is_compressible-preload :
    (media : Bytes) → is_compressible media ≡ true → is_compressible_type media ≡ true
unfolding is_compressible is_compressible_type
is_compressible-preload media h =
    starts_of_member compressible_prefixes compressible_types _ compressible_types-start h
