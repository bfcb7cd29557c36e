-- ===== src/Paths/Segments.antt =====
-- A cleaned absolute path is a slash and its segments; cleaning and joining in these terms.
use static_web.Prelude.{
  ℕ, ◌≡◌, ◌≢◌, refl, sym, ap, ◌∙◌, Bool, true, false, List, [], ◌∷◌, ◌++◌, reverse, reverse-append,
  reverse-reverse, append_assoc, append-nil, Bytes, ◌==◌, arith, All, All-reverse, Bool-cases, inl,
  inr,
}
use mathlib.Core.List.{cons-ne-nil}
use mathlib.Core.Path.{ap₂}
use static_web.Strings.{bytes_eq, is_empty, split, join, push_byte}
use static_web.Strings.Laws.{Lacks, split-join}
use static_web.Paths.{slash, dot_dot, is_void, up, resolve, clean, join_path}

-- A segment that names an entry of a directory.
pub record IsName (seg : Bytes) : Type 0 where
  pub no_slash : Lacks slash seg
  pub not_void : is_void seg ≡ false
  pub not_up : bytes_eq seg dot_dot ≡ false

-- The absolute path of some segments.
unfoldable pub path_of : List Bytes → Bytes
path_of segs = slash ∷ join (slash ∷ []) segs

up-IsName : (stack : List Bytes) → All IsName stack → All IsName (up true stack)
unfolding up
up-IsName [] h = tt
up-IsName (top ∷ rest) h = rw h.0.not_up h.1

All-no_slash : (xs : List Bytes) → All IsName xs → All (Lacks slash) xs
All-no_slash [] h = tt
All-no_slash (x ∷ xs) h = (h.0.no_slash, All-no_slash xs h.1)

push_byte-ne-nil : (c : ℕ) (ps : List Bytes) → push_byte c ps ≢ []
push_byte-ne-nil c [] = cons-ne-nil _ _
push_byte-ne-nil c (p ∷ ps) = cons-ne-nil _ _

split-ne-nil : (b : ℕ) (s : Bytes) → split b s ≢ []
unfolding split
split-ne-nil b [] = cons-ne-nil _ _
split-ne-nil b (c ∷ s) = elim (Bool-cases (c == b)) [
  | inl e ↦ rw e (cons-ne-nil _ _)
  | inr e ↦ rw e (push_byte-ne-nil c (split b s))
]

push_byte-append :
    (c : ℕ) (ps qs : List Bytes) → ps ≢ [] → push_byte c ps ++ qs ≡ push_byte c (ps ++ qs)
push_byte-append c [] qs h = absurd (h refl)
push_byte-append c (p ∷ ps) qs h = refl

-- Splitting at a separator that stands between two texts.
pub split-append : (b : ℕ) (s t : Bytes) → split b (s ++ b ∷ t) ≡ split b s ++ split b t
unfolding split
split-append b [] t = ground arith
split-append b (c ∷ s) t =
    ground
      (arith, split-append b s t, push_byte-append c (split b s) (split b t) (split-ne-nil b s))

push_byte-Lacks :
    (b c : ℕ) (ps : List Bytes) → c ≢ b → All (Lacks b) ps → All (Lacks b) (push_byte c ps)
push_byte-Lacks b c [] h l = ((h, tt), tt)
push_byte-Lacks b c (p ∷ ps) h l = ((h, l.0), l.1)

pub split-Lacks : (b : ℕ) (s : Bytes) → All (Lacks b) (split b s)
unfolding split
split-Lacks b [] = (tt, tt)
split-Lacks b (c ∷ s) = elim (Bool-cases (c == b)) [
  | inl e ↦ rw e (tt, split-Lacks b s)
  | inr e ↦ rw e (push_byte-Lacks b c (split b s) (ground arith) (split-Lacks b s))
]

resolve-append :
    (r : Bool) (xs ys stack : List Bytes)
    → resolve r (xs ++ ys) stack ≡ resolve r ys (resolve r xs stack)
unfolding resolve
resolve-append r [] ys stack = refl
resolve-append r (x ∷ xs) ys stack = resolve-append r xs ys _

-- Names are kept as they are.
resolve-names :
    (xs stack : List Bytes) → All IsName xs → resolve true xs stack ≡ reverse xs ++ stack
unfolding resolve
resolve-names [] stack h = refl
resolve-names (x ∷ xs) stack h =
    rw (h.0.not_void, h.0.not_up)
      (resolve-names xs (x ∷ stack) h.1
        ∙ sym (
            ap (λ l. l ++ stack) (reverse-append (x ∷ []) xs)
            ∙ append_assoc (reverse xs) (x ∷ []) stack))

-- Below the root every `..` takes a name away, and only names are kept.
resolve-IsName :
    (segs stack : List Bytes)
    → All (Lacks slash) segs
    → All IsName stack
    → All IsName (resolve true segs stack)
unfolding resolve up
resolve-IsName [] stack l h = h
resolve-IsName (x ∷ xs) stack l h = elim (Bool-cases (is_void x)) [
  | inl e ↦ rw e (resolve-IsName xs stack l.1 h)
  | inr e ↦ elim (Bool-cases (bytes_eq x dot_dot)) [
    | inl u ↦ rw (e, u) (resolve-IsName xs (up true stack) l.1 (up-IsName stack h))
    | inr u ↦
        rw (e, u)
          (resolve-IsName xs (x ∷ stack) l.1
            (record { no_slash = l.0; not_void = e; not_up = u }, h))
  ]
]

-- The names in a path that is read from the root.
unfoldable pub names : Bytes → List Bytes
unfolding resolve
names s = reverse (resolve true (split slash s) [])

pub names-IsName : (s : Bytes) → All IsName (names s)
unfolding names
names-IsName s = All-reverse IsName _ (resolve-IsName (split slash s) [] (split-Lacks slash s) tt)

pub clean-slash : (s : Bytes) → clean (slash ∷ s) ≡ path_of (names s)
unfolding clean resolve path_of names split is_empty
clean-slash s = refl

pub split-join_names :
    (x : Bytes) (xs : List Bytes)
    → All IsName (x ∷ xs)
    → split slash (join (slash ∷ []) (x ∷ xs)) ≡ x ∷ xs
split-join_names x xs h = split-join slash (x ∷ xs) (cons-ne-nil x xs) (All-no_slash (x ∷ xs) h)

resolve-join :
    (xs stack : List Bytes)
    → All IsName xs
    → resolve true (split slash (join (slash ∷ []) xs)) stack ≡ reverse xs ++ stack
unfolding resolve split join is_empty
resolve-join [] stack h = refl
resolve-join (x ∷ xs) stack h = rw (split-join_names x xs h) (resolve-names (x ∷ xs) stack h)

resolve-slash :
    (s : Bytes) (stack : List Bytes)
    → resolve true (split slash (slash ∷ s)) stack ≡ resolve true (split slash s) stack
unfolding resolve split is_empty
resolve-slash s stack = refl

names-join :
    (rs us : List Bytes)
    → All IsName rs
    → All IsName us
    → names (join (slash ∷ []) rs ++ slash ∷ slash ∷ join (slash ∷ []) us) ≡ rs ++ us
unfolding names
names-join rs us hr hu =
    rw
      (
        split-append slash (join (slash ∷ []) rs) (slash ∷ join (slash ∷ []) us),
        resolve-append true (split slash (join (slash ∷ []) rs))
            (split slash (slash ∷ join (slash ∷ []) us)) [],
        resolve-join rs [] hr,
        resolve-slash (join (slash ∷ []) us),
        resolve-join us (reverse rs ++ []) hu,
      )
      (ap (λ l. reverse (reverse us ++ l)) (append-nil (reverse rs))
        ∙ reverse-append (reverse us) (reverse rs)
        ∙ ap₂ ◌++◌ (reverse-reverse rs) (reverse-reverse us))

join_path-clean :
    (rs us : List Bytes)
    → join_path (path_of rs) (path_of us)
      ≡ clean (slash ∷ (join (slash ∷ []) rs ++ slash ∷ slash ∷ join (slash ∷ []) us))
unfolding join_path path_of is_empty
join_path-clean rs us = refl

-- Joining two cleaned absolute paths puts their names one behind the other.
pub join_path-path_of :
    (rs us : List Bytes)
    → All IsName rs
    → All IsName us
    → join_path (path_of rs) (path_of us) ≡ path_of (rs ++ us)
join_path-path_of rs us hr hu =
    join_path-clean rs us
    ∙ clean-slash (join (slash ∷ []) rs ++ slash ∷ slash ∷ join (slash ∷ []) us)
    ∙ ap path_of (names-join rs us hr hu)

-- Reading the names off a path of names.
pub names-join_names : (ps : List Bytes) → All IsName ps → names (join (slash ∷ []) ps) ≡ ps
unfolding names
names-join_names ps h =
    rw (resolve-join ps [] h) (ap reverse (append-nil (reverse ps)) ∙ reverse-reverse ps)
