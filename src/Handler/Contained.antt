-- ===== src/Handler/Contained.antt =====
-- A sidecar file is only read inside the root.
use static_web.Prelude.{
  ℕ, zero, suc, ◌≤◌, ◌≡◌, refl, sym, ap, ◌∙◌, true, false, ◌&&◌, Option, none, some, Bytes, ltb,
  List, All, All_suffix, ◌⊎◌, Bool-cases, Option-cases, inl, inr, arith, if◌then◌else◌,
}
use static_web.Strings.{has_prefix}
use static_web.Paths.{clean, with_separator, is_abs, join_path}
use static_web.Paths.Segments.{IsName, path_of, clean-slash, names-join_names}
use static_web.Paths.Containment.{names_under}
use static_web.Security.{real, missing, denied, Evaluated, real_root, is_inside}
use static_web.Security.Containment.{IsResolver, IsBelow, visible_names}
use static_web.Handler.Sidecars.{Files, validate_sidecar_path, too_large, load_sidecar_max}

-- Where a sidecar is looked for: a relative path is one behind the root.
abbrev pub sidecar_at : Bytes → Bytes → Bytes
sidecar_at abs_root path =
    if is_abs (clean path) then clean path else join_path abs_root (clean path)

-- A sidecar that was read: the path that was asked for resolves, over all symlinks, to a path whose
-- names lie below those of the root; what was read is all of that file; and its size is within the
-- bound, if there is one.
pub record IsSidecar (fs : Files) (abs_root asked : Bytes) (rs : List Bytes) (max_size : ℕ)
    (read : Bytes) : Type 0 where
  pub path : Bytes
  pub size : Option ℕ
  pub resolved : fs.eval_symlinks (sidecar_at abs_root asked) ≡ real path
  pub below : IsBelow false rs path
  pub opened : fs.open_file path ≡ some (size, some read)
  pub bounded : (max_size ≡ 0) ⊎ ((n : ℕ) × (size ≡ some n) × (n ≤ max_size))

clean-path_of : (ps : List Bytes) → All IsName ps → clean (path_of ps) ≡ path_of ps
unfolding path_of
clean-path_of ps h = clean-slash _ ∙ ap path_of (names-join_names ps h)

module _ (fs : Files) where
  validate_sidecar_path-resolved :
      (abs_root path p : Bytes)
      → validate_sidecar_path fs abs_root path ≡ some p
      → fs.eval_symlinks (sidecar_at abs_root path) ≡ real p
  unfolding validate_sidecar_path
  validate_sidecar_path-resolved abs_root path p h =
      go (fs.eval_symlinks (sidecar_at abs_root path)) refl
    where
      go :
          (ev : Evaluated)
          → fs.eval_symlinks (sidecar_at abs_root path) ≡ ev
          → fs.eval_symlinks (sidecar_at abs_root path) ≡ real p
      go missing e = absurd (cc (rw (validate_sidecar_path, e) at h))
      go denied e = absurd (cc (rw (validate_sidecar_path, e) at h))
      go (real q) e = elim (Bool-cases (is_inside (real_root fs.eval_symlinks abs_root) q)) [
        | inr out ↦ absurd (cc (rw (validate_sidecar_path, e, out) at h))
        | inl inside ↦ let same : some q ≡ some p = rw (validate_sidecar_path, e, inside) at h in cc
      ]

  within_bound :
      (max_size : ℕ) (size : Option ℕ)
      → (ltb 0 max_size && too_large fs max_size size) ≡ false
      → (max_size ≡ 0) ⊎ ((n : ℕ) × (size ≡ some n) × (n ≤ max_size))
  within_bound zero size h = inl refl
  within_bound (suc m) none h = absurd (ground arith)
  within_bound (suc m) (some n) h = inr (n, refl, ground arith)

  prefix-IsBelow :
      (rs qs : List Bytes)
      → All IsName rs
      → All IsName qs
      → has_prefix (with_separator (path_of rs)) (path_of qs) ≡ true
      → IsBelow false rs (path_of qs)
  prefix-IsBelow rs qs hr hq h =
      let (rel, e) = names_under rs qs hr hq h in
      record {
        rel = rel;
        path = ap path_of e;
        names = All_suffix IsName rs rel (rw e at hq);
        visible = visible_names false rel (All_suffix IsName rs rel (rw e at hq)) refl;
      }

  -- What loadSidecarMax returns is the whole content of an opened file, to whose path the one that
  -- was asked for resolves over all symlinks, whose names lie below those of the root, and whose
  -- size is at most the bound, unless that is 0; this is for a root and a symlink resolution that
  -- give cleaned absolute paths.
  pub load_sidecar_max-IsSidecar :
      (abs_root path : Bytes) (max_size : ℕ) (rs : List Bytes) {read : Bytes}
      → IsResolver fs.eval_symlinks abs_root rs
      → load_sidecar_max fs abs_root path max_size ≡ some read
      → IsSidecar fs abs_root path rs max_size read
  unfolding load_sidecar_max
  load_sidecar_max-IsSidecar abs_root path max_size rs {read = read} v h =
      elim (Option-cases (validate_sidecar_path fs abs_root path)) [
        | inl e ↦ absurd (cc (rw (e, load_sidecar_max) at h))
        | inr (p, e) ↦
            let at_p = validate_sidecar_path-resolved abs_root path p e in
            let (qs, named, hq) = v.cleans (sidecar_at abs_root path) p at_p in
            let q = path_of qs in
            let e' : validate_sidecar_path fs abs_root path ≡ some q = e ∙ ap some named in
            let cleaned = clean-path_of qs hq in
            elim (Bool-cases (has_prefix (with_separator (path_of rs)) q)) [
              | inr out ↦ absurd (cc (rw (e', load_sidecar_max, v.root, cleaned, out) at h))
              | inl inside ↦ elim (Option-cases (fs.open_file q)) [
                | inl o ↦ absurd (cc (rw (e', load_sidecar_max, v.root, cleaned, inside, o) at h))
                | inr ((size, content), o) ↦
                    elim (Bool-cases (ltb 0 max_size && too_large fs max_size size)) [
                      | inl big ↦
                          absurd
                            (cc (rw (e', load_sidecar_max, v.root, cleaned, inside, o, big) at h))
                      | inr fits ↦
                          let same : content ≡ some read =
                            rw (e', load_sidecar_max, v.root, cleaned, inside, o, fits) at h in
                          record {
                            path = q;
                            size = size;
                            resolved = at_p ∙ ap real named;
                            below = prefix-IsBelow rs qs v.root_names hq inside;
                            opened = rw (sym same) o;
                            bounded = within_bound max_size size fits;
                          }
                    ]
              ]
            ]
      ]
