-- ===== src/Strings/Laws.antt =====
-- Laws of comparison, prefixes, cutting and splitting.
use static_web.Prelude.{
  ℕ, ◌≡◌, ◌≢◌, ◌↔◌, refl, ap, ◌∙◌, true, false, some, List, [], ◌∷◌, ◌++◌, arith, Bytes, ==_self,
  All,
}
use static_web.Strings.{bytes_eq, is_empty, has_prefix, strip, trim_prefix, cut_at, split, join}
use mathlib.Core.List.{cons-ne-nil}

-- No byte of the text is `b`.
abbrev pub Lacks : ℕ → Bytes → Type 0
Lacks b = All (λ c. c ≢ b)

eq_of_bytes_eq : (s t : Bytes) → bytes_eq s t ≡ true → s ≡ t
unfolding bytes_eq
eq_of_bytes_eq [] [] h = refl
eq_of_bytes_eq [] (d ∷ t) h = absurd (cc)
eq_of_bytes_eq (c ∷ s) [] h = absurd (cc)
eq_of_bytes_eq (c ∷ s) (d ∷ t) h = ground (arith, eq_of_bytes_eq s t)

pub bytes_eq_self : (s : Bytes) → bytes_eq s s ≡ true
unfolding bytes_eq
bytes_eq_self [] = refl
bytes_eq_self (c ∷ s) = ground (arith, bytes_eq_self s)

pub bytes_eq_iff : (s t : Bytes) → (bytes_eq s t ≡ true) ↔ (s ≡ t)
bytes_eq_iff s t = (eq_of_bytes_eq s t, λ e. rw e (bytes_eq_self t))

pub ne_of_bytes_eq : (s t : Bytes) → bytes_eq s t ≡ false → s ≢ t
ne_of_bytes_eq s t h = λ e. absurd (ground (arith, bytes_eq_iff s t))

pub is_empty_iff : (s : Bytes) → (is_empty s ≡ true) ↔ (s ≡ [])
unfolding is_empty
is_empty_iff [] = (λ _. refl, λ _. refl)
is_empty_iff (c ∷ s) = (λ h. absurd (cc), λ h. absurd (cons-ne-nil c s h))

pub not_empty : (s : Bytes) → s ≢ [] → is_empty s ≡ false
unfolding is_empty
not_empty [] h = absurd (h refl)
not_empty (c ∷ s) h = refl

pub append_cons-ne-nil : (l : Bytes) (c : ℕ) (r : Bytes) → l ++ c ∷ r ≢ []
append_cons-ne-nil [] c r = cons-ne-nil c r
append_cons-ne-nil (d ∷ l) c r = cons-ne-nil d (l ++ c ∷ r)

pub strip-append : (p s : Bytes) → strip p (p ++ s) ≡ some s
unfolding strip
strip-append [] s = refl
strip-append (c ∷ p) s = ground (arith, strip-append p s)

pub trim_prefix-append : (p s : Bytes) → trim_prefix p (p ++ s) ≡ s
unfolding trim_prefix
trim_prefix-append p s = rw (strip-append p s, trim_prefix)

pub has_prefix-append : (p s : Bytes) → has_prefix p (p ++ s) ≡ true
unfolding has_prefix
has_prefix-append [] s = refl
has_prefix-append (c ∷ p) s = ground (arith, has_prefix-append p s)

-- A prefix test that passes shows the rest.
pub has_prefix_rest : (p s : Bytes) → has_prefix p s ≡ true → (r : Bytes) × (s ≡ p ++ r)
unfolding has_prefix
has_prefix_rest [] s h = (s, refl)
has_prefix_rest (c ∷ p) [] h = absurd (cc)
has_prefix_rest (c ∷ p) (d ∷ s) h =
    let (r, e) = has_prefix_rest p s (ground arith) in (r, ground arith)

pub cut_at-append : (b : ℕ) (l r : Bytes) → Lacks b l → cut_at b (l ++ b ∷ r) ≡ some (l, r)
unfolding cut_at
cut_at-append b [] r h = rw (==_self b, cut_at)
cut_at-append b (c ∷ l) r h = ground (arith, cut_at-append b l r)

split-Lacks : (b : ℕ) (p : Bytes) → Lacks b p → split b p ≡ p ∷ []
unfolding split
split-Lacks b [] h = refl
split-Lacks b (c ∷ p) h = ground (arith, split-Lacks b p)

pub split_at_sep : (b : ℕ) (p rest : Bytes) → Lacks b p → split b (p ++ b ∷ rest) ≡ p ∷ split b rest
unfolding split
split_at_sep b [] rest h = ground arith
split_at_sep b (c ∷ p) rest h = ground (arith, split_at_sep b p rest)

-- Splitting a join gives the parts back.
pub split-join :
    (b : ℕ) (ps : List Bytes) → ps ≢ [] → All (Lacks b) ps → split b (join (b ∷ []) ps) ≡ ps
unfolding join
split-join b [] h l = absurd (h refl)
split-join b (p ∷ []) h l = split-Lacks b p l.0
split-join b (p ∷ q ∷ ps) h l =
    split_at_sep b p (join (b ∷ []) (q ∷ ps)) l.0
    ∙ ap (◌∷◌ p) (split-join b (q ∷ ps) (cons-ne-nil q ps) l.1)
