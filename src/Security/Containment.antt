-- ===== src/Security/Containment.antt =====
-- What a path that `pathSafe` accepts is, in terms of the names on it.
use static_web.Prelude.{
  ◌≡◌, refl, sym, ap, ◌∙◌, Bool, true, false, ◌&&◌, List, [], ◌∷◌, ◌++◌, append_assoc, append-nil,
  Bytes, arith, All, Bool-cases, inl, inr,
}
use static_web.Strings.{bytes_eq, is_empty, trim_prefix, split, join}
use static_web.Strings.Laws.{bytes_eq_iff, bytes_eq_self, trim_prefix-append}
use static_web.Paths.{slash}
use static_web.Paths.Segments.{
  IsName, path_of, names, split-join_names, names-IsName, clean-slash, join_path-path_of,
}
use static_web.Paths.Containment.{names_under, has_prefix-under, path_of_injective, path_of-append}
use static_web.Security.{Evaluated, real, is_hidden, has_hidden, is_inside, real_root, candidate}

-- The root is cleaned and absolute, and so is what `EvalSymlinks` answers.
pub record IsResolver (eval_symlinks : Bytes → Evaluated) (abs_root : Bytes) (rs : List Bytes)
    : Type 0 where
  pub root : real_root eval_symlinks abs_root ≡ path_of rs
  pub root_names : All IsName rs
  pub cleans :
      (p q : Bytes)
      → eval_symlinks p ≡ real q
      → (qs : List Bytes) × (q ≡ path_of qs) × All IsName qs

-- The path lies `rel` below the root, and no name on the way from the root is hidden, if that is
-- asked for.
pub record IsBelow (block : Bool) (rs : List Bytes) (p : Bytes) : Type 0 where
  pub rel : List Bytes
  pub path : p ≡ path_of (rs ++ rel)
  pub names : All IsName rel
  pub visible : All (λ seg. (block && is_hidden seg) ≡ false) rel

-- The path that is looked up in the file system is the root followed by the names that are left of
-- the URL when . and .. are resolved: no URL climbs out of the root, for a root and a symlink
-- resolution that give cleaned absolute paths.
pub candidate-path_of :
    (eval_symlinks : Bytes → Evaluated) (abs_root url_path : Bytes) (rs : List Bytes)
    → IsResolver eval_symlinks abs_root rs
    → candidate eval_symlinks abs_root url_path ≡ path_of (rs ++ names url_path)
unfolding candidate
candidate-path_of eval_symlinks abs_root url_path rs v =
    rw (v.root, clean-slash url_path)
      (join_path-path_of rs (names url_path) v.root_names (names-IsName url_path))

pub is_inside-path_of :
    (rs us : List Bytes) → All IsName rs → is_inside (path_of rs) (path_of (rs ++ us)) ≡ true
unfolding is_inside
is_inside-path_of rs [] h = rw (ap path_of (append-nil rs), bytes_eq_self (path_of rs))
is_inside-path_of rs (y ∷ ys) h = ground (arith, has_prefix-under rs y ys h)

pub inside-names :
    (rs ps : List Bytes)
    → All IsName rs
    → All IsName ps
    → is_inside (path_of rs) (path_of ps) ≡ true
    → (rel : List Bytes) × (ps ≡ rs ++ rel)
unfolding is_inside
inside-names rs ps hr hp h = elim (Bool-cases (bytes_eq (path_of ps) (path_of rs))) [
  | inl e ↦ (
    [],
    path_of_injective ps rs hp hr ((bytes_eq_iff (path_of ps) (path_of rs)).0 e)
        ∙ sym (append-nil rs),
  )
  | inr e ↦ names_under rs ps hr hp (ground (arith, e))
]

hidden_split :
    (rel : List Bytes)
    → All IsName rel
    → has_hidden (split slash (join (slash ∷ []) rel)) ≡ has_hidden rel
unfolding has_hidden split join is_empty
hidden_split [] h = refl
hidden_split (x ∷ xs) h = ap has_hidden (split-join_names x xs h)

hidden_slash : (s : Bytes) → has_hidden (split slash (slash ∷ s)) ≡ has_hidden (split slash s)
unfolding has_hidden split is_empty
hidden_slash s = refl

hidden_root :
    (rel : List Bytes)
    → All IsName rel
    → has_hidden (split slash (trim_prefix (path_of []) (path_of rel))) ≡ has_hidden rel
unfolding path_of join
hidden_root rel h =
    ap (λ s. has_hidden (split slash s)) (trim_prefix-append (slash ∷ []) (join (slash ∷ []) rel))
    ∙ hidden_split rel h

hidden_itself : (p : Bytes) → has_hidden (split slash (trim_prefix p (p ++ []))) ≡ false
unfolding has_hidden split is_empty
hidden_itself p = rw (trim_prefix-append p [])

-- The names that the dotfile check reads are those below the root.
pub hidden_below :
    (rs rel : List Bytes)
    → All IsName rs
    → All IsName rel
    → has_hidden (split slash (trim_prefix (path_of rs) (path_of (rs ++ rel)))) ≡ has_hidden rel
hidden_below [] rel hr h = hidden_root rel h
hidden_below (x ∷ xs) [] hr h =
    ap (λ s. has_hidden (split slash (trim_prefix (path_of (x ∷ xs)) s)))
      (ap path_of (append-nil (x ∷ xs)) ∙ sym (append-nil (path_of (x ∷ xs))))
    ∙ hidden_itself (path_of (x ∷ xs))
    ∙ unfold has_hidden in refl
hidden_below (x ∷ xs) (y ∷ ys) hr h =
    ap (λ s. has_hidden (split slash (trim_prefix (path_of (x ∷ xs)) s)))
      (path_of-append x xs y ys
        ∙ append_assoc (path_of (x ∷ xs)) (slash ∷ []) (join (slash ∷ []) (y ∷ ys)))
    ∙ ap (λ s. has_hidden (split slash s))
        (trim_prefix-append (path_of (x ∷ xs)) (slash ∷ join (slash ∷ []) (y ∷ ys)))
    ∙ hidden_slash (join (slash ∷ []) (y ∷ ys))
    ∙ hidden_split (y ∷ ys) h

pub visible_names :
    (block : Bool) (rel : List Bytes)
    → All IsName rel
    → (block && has_hidden rel) ≡ false
    → All (λ seg. (block && is_hidden seg) ≡ false) rel
unfolding has_hidden
visible_names block [] h e = tt
visible_names block (x ∷ xs) h e =
    let v = h.0.not_void in (ground arith, visible_names block xs h.1 (ground arith))
