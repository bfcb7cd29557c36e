-- ===== src/Strings/Trim.antt =====
-- Go's `strings.TrimSpace`, `strings.TrimLeft` and `strings.TrimRight`. A string is bytes, so the
-- white space outside ASCII is given by its UTF-8 encodings.
use static_web.Prelude.{
  ℕ, zero, suc, ◌≤◌, ◌<◌, ◌≡◌, refl, Bool, ◌||◌, Option, none, some, List, [], ◌∷◌, ◌++◌, reverse,
  reverse-reverse, map, arith, Bytes, ◌==◌, if◌then◌else◌, length, All, All-reverse, codes, ◌⊎◌,
  inl, inr, sym, Bool-cases, Option-cases,
}

-- Longest first is not needed: no encoding is a prefix of another.
abbrev spaces : List Bytes
spaces =
    (9 ∷ [])
    ∷ (10 ∷ [])
    ∷ (11 ∷ [])
    ∷ (12 ∷ [])
    ∷ (13 ∷ [])
    ∷ (32 ∷ [])
    ∷ (0xC2 ∷ 0x85 ∷ [])
    ∷ (0xC2 ∷ 0xA0 ∷ [])
    ∷ (0xE1 ∷ 0x9A ∷ 0x80 ∷ [])
    ∷ (0xE2 ∷ 0x80 ∷ 0x80 ∷ [])
    ∷ (0xE2 ∷ 0x80 ∷ 0x81 ∷ [])
    ∷ (0xE2 ∷ 0x80 ∷ 0x82 ∷ [])
    ∷ (0xE2 ∷ 0x80 ∷ 0x83 ∷ [])
    ∷ (0xE2 ∷ 0x80 ∷ 0x84 ∷ [])
    ∷ (0xE2 ∷ 0x80 ∷ 0x85 ∷ [])
    ∷ (0xE2 ∷ 0x80 ∷ 0x86 ∷ [])
    ∷ (0xE2 ∷ 0x80 ∷ 0x87 ∷ [])
    ∷ (0xE2 ∷ 0x80 ∷ 0x88 ∷ [])
    ∷ (0xE2 ∷ 0x80 ∷ 0x89 ∷ [])
    ∷ (0xE2 ∷ 0x80 ∷ 0x8A ∷ [])
    ∷ (0xE2 ∷ 0x80 ∷ 0xA8 ∷ [])
    ∷ (0xE2 ∷ 0x80 ∷ 0xA9 ∷ [])
    ∷ (0xE2 ∷ 0x80 ∷ 0xAF ∷ [])
    ∷ (0xE2 ∷ 0x81 ∷ 0x9F ∷ [])
    ∷ (0xE3 ∷ 0x80 ∷ 0x80 ∷ [])
    ∷ []

strip : Bytes → Bytes → Option Bytes
strip [] s = some s
strip (p ∷ ps) [] = none
strip (p ∷ ps) (c ∷ s) = let rest = strip ps s in if p == c then rest else none

-- The rest behind the first of the encodings that `s` begins with.
strip_any : List Bytes → Bytes → Option Bytes
unfolding strip
strip_any [] s = none
strip_any (e ∷ es) s = elim (strip e s) [ none ↦ strip_any es s | some rest ↦ some rest ]

-- Each round takes at least a byte, so the length is fuel enough.
trim_with : ℕ → List Bytes → Bytes → Bytes
unfolding strip_any
trim_with zero es s = s
trim_with (suc n) es s = elim (strip_any es s) [ none ↦ s | some rest ↦ trim_with n es rest ]

-- `strings.TrimSpace(s)`.
unfoldable pub trim_space : Bytes → Bytes
unfolding trim_with
trim_space s =
    let l = trim_with (length s) spaces s in
    reverse (trim_with (length l) (map reverse spaces) (reverse l))

abbrev pub is_blank : ℕ → Bool
is_blank c = (c == 32) || (c == 9)

-- `strings.TrimLeft(s, " \t")`, and the loops that skip leading blanks.
unfoldable pub trim_left : Bytes → Bytes
trim_left [] = []
trim_left (c ∷ s) = let rest = trim_left s in if is_blank c then rest else c ∷ s

-- `strings.TrimRight(s, " \t")`.
unfoldable pub trim_right : Bytes → Bytes
unfolding trim_left
trim_right s = reverse (trim_left (reverse s))

-- The bytes that no white space begins or ends with.
abbrev pub IsPlain : ℕ → Type 0
IsPlain c = (32 < c) × (c < 0x80)

-- An encoding that no plain byte begins.
abbrev Foreign : Bytes → Type 0
Foreign [] = ⊥
Foreign (d ∷ _) = (d ≤ 32) ⊎ (0x80 ≤ d)

strip_any-Foreign :
    (es : List Bytes) (c : ℕ) (s : Bytes) → All Foreign es → IsPlain c → strip_any es (c ∷ s) ≡ none
unfolding strip_any
strip_any-Foreign [] c s f h = refl
strip_any-Foreign ([] ∷ es) c s f h = absurd f.0
strip_any-Foreign ((d ∷ e) ∷ es) c s f h = ground (arith, strip_any-Foreign es c s)

strip_any-plain : (c : ℕ) (s : Bytes) → IsPlain c → strip_any spaces (c ∷ s) ≡ none
strip_any-plain c s h = strip_any-Foreign spaces c s (omega arith) h

strip_any-plain_reverse :
    (c : ℕ) (s : Bytes) → IsPlain c → strip_any (map reverse spaces) (c ∷ s) ≡ none
strip_any-plain_reverse c s h = strip_any-Foreign (map reverse spaces) c s (omega arith) h

trim_with-stop :
    (n : ℕ) (es : List Bytes) (s : Bytes) → strip_any es s ≡ none → trim_with n es s ≡ s
unfolding trim_with
trim_with-stop zero es s h = refl
trim_with-stop (suc n) es s h = rw (h, trim_with)

strip_any-nil : strip_any spaces [] ≡ none
unfolding strip_any
strip_any-nil = refl

strip_any-nil_reverse : strip_any (map reverse spaces) [] ≡ none
unfolding strip_any
strip_any-nil_reverse = refl

trim_start-plain : (n : ℕ) (s : Bytes) → All IsPlain s → trim_with n spaces s ≡ s
trim_start-plain n [] h = trim_with-stop n spaces [] strip_any-nil
trim_start-plain n (c ∷ s) h = trim_with-stop n spaces (c ∷ s) (strip_any-plain c s h.0)

trim_end-plain : (n : ℕ) (s : Bytes) → All IsPlain s → trim_with n (map reverse spaces) s ≡ s
trim_end-plain n [] h = trim_with-stop n _ [] strip_any-nil_reverse
trim_end-plain n (c ∷ s) h = trim_with-stop n _ (c ∷ s) (strip_any-plain_reverse c s h.0)

-- A text of plain bytes has no white space to lose.
pub trim_space-plain : (s : Bytes) → All IsPlain s → trim_space s ≡ s
unfolding trim_space
trim_space-plain s h =
    rw
      (
        trim_start-plain (length s) s h,
        trim_end-plain (length s) (reverse s) (All-reverse IsPlain s h),
      )
      (reverse-reverse s)

trim_space_mixed : trim_space (codes "\t a b\n" ++ 0xC2 ∷ 0xA0 ∷ []) ≡ codes "a b"
unfolding trim_space
trim_space_mixed = refl

-- What holds of every byte holds of those that are left.
module _ {ℓ} (P : ℕ → Type ℓ) where
  strip-All : (e s rest : Bytes) → All P s → strip e s ≡ some rest → All P rest
  unfolding strip
  strip-All [] s rest h e = let same : s ≡ rest = cc e in rw (sym same) h
  strip-All (p ∷ ps) [] rest h e = absurd (cc e)
  strip-All (p ∷ ps) (c ∷ s) rest h e = elim (Bool-cases (p == c)) [
    | inl t ↦ strip-All ps s rest h.1 (cc (rw t at e))
    | inr t ↦ absurd (cc (rw t at e))
  ]

  strip_any-All :
      (es : List Bytes) (s rest : Bytes) → All P s → strip_any es s ≡ some rest → All P rest
  unfolding strip_any
  strip_any-All [] s rest h e = absurd (cc e)
  strip_any-All (x ∷ es) s rest h e = elim (Option-cases (strip x s)) [
    | inl t ↦ strip_any-All es s rest h (cc (rw (t, strip_any) at e))
    | inr (r, t) ↦ strip-All x s rest h (cc (rw (t, strip_any) at e))
  ]

  trim_with-All : (n : ℕ) (es : List Bytes) (s : Bytes) → All P s → All P (trim_with n es s)
  unfolding trim_with
  trim_with-All zero es s h = h
  trim_with-All (suc n) es s h = elim (Option-cases (strip_any es s)) [
    | inl t ↦ rw (t, trim_with) h
    | inr (r, t) ↦ rw (t, trim_with) (trim_with-All n es r (strip_any-All es s r h t))
  ]

  pub trim_space-All : (s : Bytes) → All P s → All P (trim_space s)
  unfolding trim_space
  trim_space-All s h =
      let l = trim_with (length s) spaces s in
      All-reverse P (trim_with (length l) (map reverse spaces) (reverse l)) (
        trim_with-All (length l) (map reverse spaces) (reverse l)
          (All-reverse P l (trim_with-All (length s) spaces s h)))
