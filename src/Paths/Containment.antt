-- ===== src/Paths/Containment.antt =====
-- The test on a path's text, a prefix that ends with the separator, is a test on its names.
use static_web.Prelude.{
  ℕ, ◌≡◌, refl, sym, ap, ◌∙◌, true, false, List, [], ◌∷◌, ◌++◌, append_assoc, Bytes, arith, All,
}
use static_web.Strings.{is_empty, has_prefix, split, join, ends_with_byte}
use static_web.Strings.Laws.{Lacks, has_prefix_rest, has_prefix-append, append_cons-ne-nil}
use static_web.Paths.{slash, with_separator}
use static_web.Paths.Segments.{
  IsName, path_of, split-append, split-join_names, names, names-join_names,
}

ends_with_byte-append :
    (b : ℕ) (l : Bytes) (c : ℕ) (s : Bytes)
    → ends_with_byte b (l ++ c ∷ s) ≡ ends_with_byte b (c ∷ s)
unfolding ends_with_byte
ends_with_byte-append b [] c s = refl
ends_with_byte-append b (d ∷ []) c s = refl
ends_with_byte-append b (d ∷ d' ∷ l) c s = ends_with_byte-append b (d' ∷ l) c s

ends_with_byte-Lacks : (b : ℕ) (s : Bytes) → Lacks b s → ends_with_byte b s ≡ false
unfolding ends_with_byte
ends_with_byte-Lacks b [] h = refl
ends_with_byte-Lacks b (c ∷ []) h = ground arith
ends_with_byte-Lacks b (c ∷ d ∷ s) h = ends_with_byte-Lacks b (d ∷ s) h.1

-- A name is not empty.
ends-name : (seg : Bytes) → IsName seg → ends_with_byte slash (slash ∷ seg) ≡ false
unfolding is_empty ends_with_byte
ends-name [] h = let v = h.not_void in absurd (cc)
ends-name (c ∷ s) h = ends_with_byte-Lacks slash (c ∷ s) h.no_slash

ends-join :
    (x : Bytes) (xs : List Bytes)
    → All IsName (x ∷ xs)
    → ends_with_byte slash (slash ∷ join (slash ∷ []) (x ∷ xs)) ≡ false
unfolding join
ends-join x [] h = ends-name x h.0
ends-join x (y ∷ ys) h =
    ends_with_byte-append slash (slash ∷ x) slash (join (slash ∷ []) (y ∷ ys)) ∙ ends-join y ys h.1

-- The separator is added behind every root but the root directory.
pub with_separator-path_of :
    (x : Bytes) (xs : List Bytes)
    → All IsName (x ∷ xs)
    → with_separator (path_of (x ∷ xs)) ≡ path_of (x ∷ xs) ++ slash ∷ []
unfolding with_separator path_of
with_separator-path_of x xs h = rw (ends-join x xs h)

joined_under :
    (x : Bytes) (xs : List Bytes) (ps : List Bytes) (r : Bytes)
    → All IsName (x ∷ xs)
    → All IsName ps
    → join (slash ∷ []) ps ≡ join (slash ∷ []) (x ∷ xs) ++ slash ∷ r
    → ps ≡ (x ∷ xs) ++ split slash r
unfolding join
joined_under x xs [] r hr hp e =
    absurd (append_cons-ne-nil (join (slash ∷ []) (x ∷ xs)) slash r (sym e))
joined_under x xs (y ∷ ys) r hr hp e =
    sym (split-join_names y ys hp)
    ∙ ap (split slash) e
    ∙ split-append slash (join (slash ∷ []) (x ∷ xs)) r
    ∙ ap (λ l. l ++ split slash r) (split-join_names x xs hr)

unfoldable pub tail_of : Bytes → Bytes
tail_of [] = []
tail_of (c ∷ s) = s

-- Behind a root that is not the root directory, the text behind the separator splits into the rest
-- of the names.
pub rest_under :
    (x : Bytes) (xs : List Bytes) (ps : List Bytes)
    → All IsName (x ∷ xs)
    → All IsName ps
    → has_prefix (with_separator (path_of (x ∷ xs))) (path_of ps) ≡ true
    → (r : Bytes) × (path_of ps ≡ path_of (x ∷ xs) ++ slash ∷ r) × (ps ≡ (x ∷ xs) ++ split slash r)
unfolding path_of tail_of
rest_under x xs ps hr hp h =
    let (r, e) =
      has_prefix_rest (path_of (x ∷ xs) ++ slash ∷ []) (path_of ps)
        (rw (with_separator-path_of x xs hr) at h) in
    let e' : path_of ps ≡ path_of (x ∷ xs) ++ slash ∷ r =
      e ∙ append_assoc (path_of (x ∷ xs)) (slash ∷ []) r in
    (r, e', joined_under x xs ps r hr hp (ap tail_of e'))

-- A path under a root, by the test on its text, is a path under it by its names.
pub names_under :
    (rs ps : List Bytes)
    → All IsName rs
    → All IsName ps
    → has_prefix (with_separator (path_of rs)) (path_of ps) ≡ true
    → (rel : List Bytes) × (ps ≡ rs ++ rel)
names_under [] ps hr hp h = (ps, refl)
names_under (x ∷ xs) ps hr hp h = let (r, _, e) = rest_under x xs ps hr hp h in (split slash r, e)

join-append :
    (x : Bytes) (xs : List Bytes) (y : Bytes) (ys : List Bytes)
    → join (slash ∷ []) ((x ∷ xs) ++ (y ∷ ys))
      ≡ join (slash ∷ []) (x ∷ xs) ++ slash ∷ join (slash ∷ []) (y ∷ ys)
unfolding join
join-append x [] y ys = refl
join-append x (x' ∷ xs) y ys =
    ap (λ l. x ++ slash ∷ l) (join-append x' xs y ys)
    ∙ sym
        (append_assoc x (slash ∷ join (slash ∷ []) (x' ∷ xs)) (slash ∷ join (slash ∷ []) (y ∷ ys)))

pub path_of-append :
    (x : Bytes) (xs : List Bytes) (y : Bytes) (ys : List Bytes)
    → path_of ((x ∷ xs) ++ (y ∷ ys))
      ≡ (path_of (x ∷ xs) ++ slash ∷ []) ++ join (slash ∷ []) (y ∷ ys)
unfolding path_of
path_of-append x xs y ys =
    ap (◌∷◌ slash) (join-append x xs y ys)
    ∙ sym (append_assoc (path_of (x ∷ xs)) (slash ∷ []) (join (slash ∷ []) (y ∷ ys)))

under_root :
    (y : Bytes) (ys : List Bytes)
    → has_prefix (with_separator (path_of [])) (path_of (y ∷ ys)) ≡ true
unfolding with_separator path_of ends_with_byte has_prefix join
under_root y ys = refl

-- And the other way round.
pub has_prefix-under :
    (rs : List Bytes) (y : Bytes) (ys : List Bytes)
    → All IsName rs
    → has_prefix (with_separator (path_of rs)) (path_of (rs ++ (y ∷ ys))) ≡ true
has_prefix-under [] y ys hr = under_root y ys
has_prefix-under (x ∷ xs) y ys hr = rw (with_separator-path_of x xs hr) (
    ap (has_prefix (path_of (x ∷ xs) ++ slash ∷ [])) (path_of-append x xs y ys)
    ∙ has_prefix-append (path_of (x ∷ xs) ++ slash ∷ []) (join (slash ∷ []) (y ∷ ys)))

-- Two paths of names are one only if the names are the same.
pub path_of_injective :
    (ps qs : List Bytes) → All IsName ps → All IsName qs → path_of ps ≡ path_of qs → ps ≡ qs
unfolding path_of tail_of
path_of_injective ps qs hp hq e =
    sym (names-join_names ps hp) ∙ ap (λ s. names (tail_of s)) e ∙ names-join_names qs hq
