-- ===== src/Compress.antt =====
-- internal/compress/compress.go: which encodings a client accepts and which types are compressed.
-- `Gzip` has the middleware.
pub mod Gzip
pub mod Eligible
pub mod Accepts
use static_web.Prelude.{
  ℕ, zero, suc, Bool, true, false, not, ◌&&◌, ◌||◌, Option, none, some, List, [], ◌∷◌, ◌++◌, Bytes,
  codes, ◌==◌, if◌then◌else◌, length, map, reverse,
}
use static_web.Strings.{
  trim_left, trim_right, bytes_eq, is_empty, cut_at, equal_fold, lower_byte, trim_space,
}
use static_web.Platform.{Platform}
use static_web.Http.{Request, accept_encoding}

-- `compressibleTypes`.
abbrev pub compressible_types : List Bytes
compressible_types =
    codes "text/html"
    ∷ codes "text/css"
    ∷ codes "text/plain"
    ∷ codes "text/xml"
    ∷ codes "text/javascript"
    ∷ codes "application/javascript"
    ∷ codes "application/json"
    ∷ codes "application/xml"
    ∷ codes "application/wasm"
    ∷ codes "image/svg+xml"
    ∷ codes "font/ttf"
    ∷ codes "font/otf"
    ∷ codes "font/woff"
    ∷ codes "application/font-woff"
    ∷ []

unfoldable pub is_member : Bytes → List Bytes → Bool
is_member t [] = false
is_member t (u ∷ us) = bytes_eq u t || is_member t us

-- `IsCompressible`: the media type before its parameters, in lower case. Every listed type is ASCII,
-- so that the folding of other runes does not matter.
unfoldable pub is_compressible : Bytes → Bool
unfolding is_member lower_byte
is_compressible content_type =
    let media : Bytes = elim (cut_at b';' content_type) [
      | none ↦ content_type
      | some (m, params) ↦ trim_space m
    ] in
    is_member (map lower_byte media) compressible_types

-- The text before the first `b`, and the text behind it or nothing.
abbrev pub before : ℕ → Bytes → Bytes × Bytes
before b s = elim (cut_at b s) [ none ↦ (s, []) | some p ↦ p ]

-- The coding and the parameters of a list element.
abbrev pub coding_of : Bytes → Bytes × Bytes
coding_of token = elim (cut_at b';' token) [
  | none ↦ (token, [])
  | some (coding, params) ↦ (trim_right coding, params)
]

module _ (os : Platform) where
  -- `qValueOf(params) > 0`: the first parameter that is named q decides. The recursion is on fuel,
  -- for which one more than the length is enough.
  unfoldable pub q_positive : ℕ → Bytes → Bool
  q_positive zero params = true
  q_positive (suc fuel) params =
      let (p, rest) = before b';' params in
      let further = q_positive fuel rest in
      if is_empty params then true else elim (cut_at b'=' p) [
        | none ↦ further
        | some (name, value) ↦
            if equal_fold (trim_space name) (b'q' ∷ [])
            then elim (os.parse_weight (trim_space value)) [ none ↦ true | some above ↦ above ]
            else further
      ]

  -- Whether an element is for the coding, and if so what it says.
  abbrev pub judge : Bytes → Bytes → Option Bool
  judge enc element =
      let (coding, params) = coding_of (trim_right element) in
      if equal_fold coding enc then some (q_positive (suc (length params)) params) else none

  -- The loop of `AcceptsEncodingStr`: each round takes at least a byte of the header.
  unfoldable pub accept_loop : ℕ → Bytes → Bytes → Bool
  accept_loop zero header enc = false
  accept_loop (suc fuel) header enc =
      let header' = trim_left header in
      elim (is_empty header') [
        | true ↦ false
        | false ↦ elim (judge enc (before b',' header').0) [
          | some verdict ↦ verdict
          | none ↦ accept_loop fuel (before b',' header').1 enc
        ]
      ]

  -- `AcceptsEncodingStr`; the empty header is refused by the loop too.
  unfoldable pub accepts_encoding_str : Bytes → Bytes → Bool
  unfolding accept_loop
  accepts_encoding_str header enc =
      if is_empty header then false else accept_loop (suc (length header)) header enc

  -- `AcceptsEncoding`.
  unfoldable pub accepts_encoding : Request → Bytes → Bool
  unfolding accepts_encoding_str
  accepts_encoding req enc =
      if is_empty (req.header accept_encoding)
      then false
      else accepts_encoding_str (req.header accept_encoding) enc
