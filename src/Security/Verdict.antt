-- ===== src/Security/Verdict.antt =====
-- What `pathSafe` answers: soundness and completeness against the names on the path.
use static_web.Prelude.{
  All_suffix, ◌≡◌, refl, sym, ap, ◌∙◌, Bool, true, false, ◌&&◌, List, ◌++◌, Bytes, if◌then◌else◌,
  arith, All, Bool-cases, inl, inr,
}
use static_web.Strings.{contains_byte}
use static_web.Paths.Segments.{IsName, path_of, names, names-IsName}
use static_web.Security.{
  null_byte, dotfile, Result, ok, err, Evaluated, real, missing, denied, has_hidden, is_inside,
  check_dotfiles, check_resolved, path_safe,
}
use static_web.Security.Containment.{
  IsResolver, IsBelow, candidate-path_of, is_inside-path_of, inside-names, hidden_below,
  visible_names,
}

-- The verdict on a path below the root: it is refused exactly for a hidden name.
abbrev pub verdict : Bool → List Bytes → List Bytes → Bool → Result (Bytes × Bool)
verdict block rs rel exists =
    if block && has_hidden rel then err dotfile else ok (path_of (rs ++ rel), exists)

check_dotfiles-verdict :
    (block exists : Bool) (rs rel : List Bytes)
    → All IsName rs
    → All IsName rel
    → check_dotfiles block (path_of rs) (path_of (rs ++ rel)) exists ≡ verdict block rs rel exists
unfolding check_dotfiles
check_dotfiles-verdict block exists rs rel hr h = rw (hidden_below rs rel hr h)

verdict-IsBelow :
    (block exists : Bool) (rs rel : List Bytes) {r : Bytes × Bool}
    → All IsName rel
    → verdict block rs rel exists ≡ ok r
    → IsBelow block rs r.0
verdict-IsBelow block exists rs rel {r = r} h e =
    let same : path_of (rs ++ rel) ≡ r.0 = ground arith in
    record {
      rel = rel;
      path = sym same;
      names = h;
      visible = visible_names block rel h (ground arith);
    }

-- Beyond null bytes the answer of pathSafe is that of the file system on the path of the root with
-- the names of the URL behind it: the test of the unresolved path against the root never fails.
-- This is for a root and a symlink resolution that give cleaned absolute paths.
pub path_safe-check_resolved :
    (eval_symlinks : Bytes → Evaluated) (url_path abs_root : Bytes) (block : Bool) (rs : List Bytes)
    → IsResolver eval_symlinks abs_root rs
    → path_safe eval_symlinks url_path abs_root block ≡ (
        let p = path_of (rs ++ names url_path) in
        if contains_byte 0 url_path
        then err null_byte
        else check_resolved (eval_symlinks p) (path_of rs) p block)
unfolding path_safe
path_safe-check_resolved eval_symlinks url_path abs_root block rs v = rw (
  candidate-path_of eval_symlinks abs_root url_path rs v,
  v.root,
  is_inside-path_of rs (names url_path) v.root_names,
)

check_resolved-IsBelow :
    (ev : Evaluated) (block : Bool) (rs us : List Bytes) {r : Bytes × Bool}
    → All IsName rs
    → All IsName us
    → ((q : Bytes) → ev ≡ real q → (qs : List Bytes) × (q ≡ path_of qs) × All IsName qs)
    → check_resolved ev (path_of rs) (path_of (rs ++ us)) block ≡ ok r
    → IsBelow block rs r.0
unfolding check_resolved
check_resolved-IsBelow denied block rs us hr hu cleans e = absurd (cc)
check_resolved-IsBelow missing block rs us hr hu cleans e =
    verdict-IsBelow block false rs us hu (sym (check_dotfiles-verdict block false rs us hr hu) ∙ e)
check_resolved-IsBelow (real q) block rs us hr hu cleans e =
    let (qs, path, hq) = cleans q refl in
    elim (Bool-cases (is_inside (path_of rs) q)) [
      | inr out ↦ absurd (cc (rw (out, check_resolved) at e))
      | inl inside ↦
          let (rel, under) = inside-names rs qs hr hq (rw path at inside) in
          let hrel : All IsName rel = All_suffix IsName rs rel (rw under at hq) in
          let same : q ≡ path_of (rs ++ rel) = path ∙ ap path_of under in
          let e' : check_dotfiles block (path_of rs) q true ≡ ok _ =
            rw (inside, check_resolved) at e in
          verdict-IsBelow block true rs rel hrel
            (sym (check_dotfiles-verdict block true rs rel hr hrel) ∙ (rw same at e'))
    ]

-- A path that pathSafe accepts lies below the root by its names, and no name below the root is
-- hidden where dotfiles are blocked, for a root and a symlink resolution that give cleaned
-- absolute paths.
pub path_safe-IsBelow :
    (eval_symlinks : Bytes → Evaluated) (url_path abs_root : Bytes) (block : Bool) (rs : List Bytes)
    {r : Bytes × Bool}
    → IsResolver eval_symlinks abs_root rs
    → path_safe eval_symlinks url_path abs_root block ≡ ok r
    → IsBelow block rs r.0
path_safe-IsBelow eval_symlinks url_path abs_root block rs v h =
    let e = sym (path_safe-check_resolved eval_symlinks url_path abs_root block rs v) ∙ h in
    let p = path_of (rs ++ names url_path) in
    elim (Bool-cases (contains_byte 0 url_path)) [
      | inl null ↦ absurd (cc (rw null at e))
      | inr no_null ↦
          check_resolved-IsBelow (eval_symlinks p) block rs (names url_path) v.root_names
            (names-IsName url_path) (v.cleans p) (rw no_null at e)
    ]

-- Where the URL has no null byte and its path resolves to a path below the root, pathSafe answers
-- that path, unless a name on it is hidden and dotfiles are blocked, for a root and a symlink
-- resolution that give cleaned absolute paths.
pub path_safe-real :
    (eval_symlinks : Bytes → Evaluated) (url_path abs_root : Bytes) (block : Bool)
    (rs rel : List Bytes)
    → IsResolver eval_symlinks abs_root rs
    → contains_byte 0 url_path ≡ false
    → All IsName rel
    → eval_symlinks (path_of (rs ++ names url_path)) ≡ real (path_of (rs ++ rel))
    → path_safe eval_symlinks url_path abs_root block ≡ verdict block rs rel true
unfolding check_resolved
path_safe-real eval_symlinks url_path abs_root block rs rel v no_null h found =
    path_safe-check_resolved eval_symlinks url_path abs_root block rs v
    ∙ rw (no_null, found, check_resolved, is_inside-path_of rs rel v.root_names)
        (check_dotfiles-verdict block true rs rel v.root_names h)

-- Where the URL has no null byte and its path is absent, pathSafe answers the root with the names
-- of the URL behind it, marked as absent, unless one of these names is hidden and dotfiles are
-- blocked, for a root and a symlink resolution that give cleaned absolute paths.
pub path_safe-missing :
    (eval_symlinks : Bytes → Evaluated) (url_path abs_root : Bytes) (block : Bool) (rs : List Bytes)
    → IsResolver eval_symlinks abs_root rs
    → contains_byte 0 url_path ≡ false
    → eval_symlinks (path_of (rs ++ names url_path)) ≡ missing
    → path_safe eval_symlinks url_path abs_root block ≡ verdict block rs (names url_path) false
unfolding check_resolved
path_safe-missing eval_symlinks url_path abs_root block rs v no_null found =
    path_safe-check_resolved eval_symlinks url_path abs_root block rs v
    ∙ rw (no_null, found, check_resolved)
        (check_dotfiles-verdict block false rs (names url_path) v.root_names
          (names-IsName url_path))
