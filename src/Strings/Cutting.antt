-- ===== src/Strings/Cutting.antt =====
-- Cutting a list at its first separator, against splitting it whole.
use static_web.Prelude.{
  ℕ, ◌≤◌, ◌<◌, ◌≡◌, refl, ap, ◌∙◌, false, Option, none, some, List, [], ◌∷◌, Bytes, length, arith,
  Option-cases, inl, inr,
}
use static_web.Strings.{is_empty, cut_at, split, trim_left}
use static_web.Strings.Trim.{is_blank}

-- The first part and the others.
abbrev pub parts_of : ℕ → Bytes → Option (Bytes × Bytes) → List Bytes
parts_of b s none = s ∷ []
parts_of b s (some (l, r)) = l ∷ split b r

pub split-cut_at : (b : ℕ) (s : Bytes) → split b s ≡ parts_of b s (cut_at b s)
unfolding split cut_at
split-cut_at b [] = refl
split-cut_at b (c ∷ s) = elim (Option-cases (cut_at b s)) [
  | inl n ↦ ground (arith, n, split-cut_at b s)
  | inr (p, n) ↦ ground (arith, n, split-cut_at b s)
]

abbrev pub trimmed : Option (Bytes × Bytes) → Option (Bytes × Bytes)
trimmed none = none
trimmed (some (l, r)) = some (trim_left l, r)

pub cut_at-trim_left :
    (b : ℕ) (s : Bytes) → is_blank b ≡ false → cut_at b (trim_left s) ≡ trimmed (cut_at b s)
unfolding cut_at trim_left
cut_at-trim_left b [] h = refl
cut_at-trim_left b (c ∷ s) h = ground (arith, cut_at-trim_left b s h)

pub length-cut_at : (b : ℕ) (s l r : Bytes) → cut_at b s ≡ some (l, r) → length r < length s
unfolding cut_at
length-cut_at b [] l r h = absurd (cc)
length-cut_at b (c ∷ s) l r h = elim (Option-cases (cut_at b s)) [
  | inl n ↦ ground (arith, n)
  | inr ((l', r'), n) ↦ ground (arith, n, length-cut_at b s l' r' n)
]

pub length-trim_left : (s : Bytes) → length (trim_left s) ≤ length s
unfolding trim_left
length-trim_left [] = omega arith
length-trim_left (c ∷ s) = ground (arith, length-trim_left s)

-- What is left behind the blanks is not empty, if there is a separator.
pub trim_left-cut :
    (b : ℕ) (s l r : Bytes)
    → is_blank b ≡ false
    → cut_at b s ≡ some (l, r)
    → is_empty (trim_left s) ≡ false
unfolding cut_at is_empty
trim_left-cut b s l r h e = go (trim_left s) (cut_at-trim_left b s h ∙ ap trimmed e)
  where
    go : (t : Bytes) → cut_at b t ≡ some (trim_left l, r) → is_empty t ≡ false
    go [] e' = absurd (cc)
    go (c ∷ t) e' = refl
