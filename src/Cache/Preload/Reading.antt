-- ===== src/Cache/Preload/Reading.antt =====
-- internal/cache/preload.go: which files `Preload` reads, and how it counts them.
use static_web.Prelude.{
  ℕ, ◌+◌, true, ◌||◌, some, List, [], ◌∷◌, Bytes, ◌≡◌, refl, sym, ap, ◌∙◌, All, arith, Bool-cases,
  Option-cases, inl, inr, if◌then◌else◌,
}
use static_web.Platform.{Platform}
use static_web.Lru.{Lru}
use static_web.Cache.{Entry, Cache}
use static_web.Security.{Evaluated, real, missing, denied, is_inside, real_root}
use static_web.Cache.Preload.{
  PreloadStats, PreloadConfig, Visit, Tree, inside_target, follow, load_path, store_loaded, visit,
  walk, no_stats, preload,
}

-- The visits to anything but a directory.
file_visits : List Visit → ℕ
file_visits [] = 0
file_visits (v ∷ vs) = (if v.failed || v.is_dir then 0 else 1) + file_visits vs

-- Two file systems with the same links that agree on everything below the root.
pub record IsSameBelow (root : Bytes) (t u : Tree) : Type 0 where
  pub links : t.eval_symlinks ≡ u.eval_symlinks
  pub paths : t.relative ≡ u.relative
  pub stats : (p : Bytes) → is_inside root p ≡ true → t.stat_regular p ≡ u.stat_regular p
  pub contents : (p : Bytes) → is_inside root p ≡ true → t.read_file p ≡ u.read_file p

module _ (os : Platform) (lru : Lru Entry) where
  abbrev counted : PreloadStats × Cache lru → ℕ
  counted (stats, c) = stats.files + stats.skipped

  visit-counted :
      (tree : Tree) (cfg : PreloadConfig) (root : Bytes) (v : Visit) (stats : PreloadStats)
      (c : Cache lru)
      → counted (visit os lru tree cfg root v (stats, c))
        ≡ (if v.failed || v.is_dir then 0 else 1) + counted (stats, c)
  unfolding visit store_loaded
  visit-counted tree cfg root v stats c = elim (Bool-cases (v.failed || v.is_dir)) [
    | inl e ↦ rw (e, visit) (omega arith)
    | inr e ↦ elim (Option-cases (follow tree root v)) [
      | inl f ↦ rw (e, f, visit) (omega arith)
      | inr (path, f) ↦ elim (Option-cases (load_path tree cfg path)) [
        | inl l ↦ rw (e, f, l, visit) (omega arith)
        | inr (x, l) ↦ rw (e, f, l, visit) (omega arith)
      ]
    ]
  ]

  walk-counted :
      (tree : Tree) (cfg : PreloadConfig) (root : Bytes) (vs : List Visit) (stats : PreloadStats)
      (c : Cache lru)
      → counted (walk os lru tree cfg root vs (stats, c)) ≡ file_visits vs + counted (stats, c)
  unfolding walk file_visits
  walk-counted tree cfg root [] stats c = omega arith
  walk-counted tree cfg root (v ∷ vs) stats c =
      let next = visit os lru tree cfg root v (stats, c) in
      let a = walk-counted tree cfg root vs next.0 next.1 in
      let b = visit-counted tree cfg root v stats c in omega (arith, a, b)

  preload-counted :
      (tree : Tree) (cfg : PreloadConfig) (abs_root : Bytes) (vs : List Visit) (c : Cache lru)
      → counted (preload os lru tree cfg (some abs_root) vs c) ≡ file_visits vs
  unfolding preload
  preload-counted tree cfg abs_root vs c =
      let a =
        walk-counted tree cfg (real_root tree.eval_symlinks abs_root) vs (no_stats os lru) c in
      omega (arith, a)

  load_path-same :
      (root : Bytes) (t u : Tree) (cfg : PreloadConfig) (p : Bytes)
      → IsSameBelow root t u
      → is_inside root p ≡ true
      → load_path t cfg p ≡ load_path u cfg p
  unfolding load_path
  load_path-same root t u cfg p same h =
      rw (same.paths, same.stats p h, same.contents p h, load_path) refl

  inside_target-IsInside :
      (root p : Bytes) (to : Evaluated) → inside_target root to ≡ some p → is_inside root p ≡ true
  unfolding inside_target
  inside_target-IsInside root p missing e = absurd (cc e)
  inside_target-IsInside root p denied e = absurd (cc e)
  inside_target-IsInside root p (real target) e = elim (Bool-cases (is_inside root target)) [
    | inl i ↦ let same : target ≡ p = cc (rw (i, inside_target) at e) in rw (sym same) i
    | inr i ↦ absurd (cc (rw (i, inside_target) at e))
  ]

  follow-IsInside :
      (tree : Tree) (root p : Bytes) (v : Visit)
      → is_inside root v.path ≡ true
      → follow tree root v ≡ some p
      → is_inside root p ≡ true
  unfolding follow
  follow-IsInside tree root p v h e = elim (Bool-cases v.is_symlink) [
    | inr s ↦ let same : v.path ≡ p = cc (rw (s, follow) at e) in rw (sym same) h
    | inl s ↦ inside_target-IsInside root p (tree.eval_symlinks v.path) (cc (rw (s, follow) at e))
  ]

  follow-same :
      (root : Bytes) (t u : Tree) (v : Visit)
      → IsSameBelow root t u
      → follow t root v ≡ follow u root v
  unfolding follow
  follow-same root t u v same = rw same.links refl

  visit-same :
      (root : Bytes) (t u : Tree) (cfg : PreloadConfig) (v : Visit) (stats : PreloadStats)
      (c : Cache lru)
      → IsSameBelow root t u
      → is_inside root v.path ≡ true
      → visit os lru t cfg root v (stats, c) ≡ visit os lru u cfg root v (stats, c)
  unfolding visit
  visit-same root t u cfg v stats c same h = elim (Bool-cases (v.failed || v.is_dir)) [
    | inl e ↦ rw (e, visit) refl
    | inr e ↦ elim (Option-cases (follow u root v)) [
      | inl f ↦ rw (e, follow-same root t u v same, f, visit) refl
      | inr (p, f) ↦
          rw
            (
              e,
              follow-same root t u v same,
              f,
              load_path-same root t u cfg p same (follow-IsInside u root p v h f),
              visit,
            )
            refl
    ]
  ]

  walk-same :
      (root : Bytes) (t u : Tree) (cfg : PreloadConfig) (vs : List Visit) (stats : PreloadStats)
      (c : Cache lru)
      → IsSameBelow root t u
      → All (λ v. is_inside root v.path ≡ true) vs
      → walk os lru t cfg root vs (stats, c) ≡ walk os lru u cfg root vs (stats, c)
  unfolding walk
  walk-same root t u cfg [] stats c same h = refl
  walk-same root t u cfg (v ∷ vs) stats c same (h, hs) =
      let next = visit os lru u cfg root v (stats, c) in
      ap (λ s. walk os lru t cfg root vs s) (visit-same root t u cfg v stats c same h)
      ∙ walk-same root t u cfg vs next.0 next.1 same hs

  -- Preload reads nothing outside of the root: its statistics and the cache are the same for two
  -- file systems with the same links that agree on every path inside the root, if every visited
  -- path is inside it.
  pub preload-same :
      (t u : Tree) (cfg : PreloadConfig) (abs_root : Bytes) (vs : List Visit) (c : Cache lru)
      → IsSameBelow (real_root t.eval_symlinks abs_root) t u
      → All (λ v. is_inside (real_root t.eval_symlinks abs_root) v.path ≡ true) vs
      → preload os lru t cfg (some abs_root) vs c ≡ preload os lru u cfg (some abs_root) vs c
  unfolding preload
  preload-same t u cfg abs_root vs c same h =
      walk-same (real_root t.eval_symlinks abs_root) t u cfg vs (no_stats os lru) c same h
      ∙ ap (λ links. walk os lru u cfg (real_root links abs_root) vs (no_stats os lru, c))
          same.links
