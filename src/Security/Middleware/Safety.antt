-- ===== src/Security/Middleware/Safety.antt =====
-- The path cache holds safe paths only, so that a path from it is as good as one from `pathSafe`.
use static_web.Prelude.{
  ◌≡◌, refl, Bool, true, false, List, [], ◌∷◌, Bytes, Bool-cases, Option-cases, inl, inr, All,
}
use static_web.Strings.{is_empty}
use static_web.Lru.{Lru, find}
use static_web.Lru.Every.{All-find, All-erase, All-take, All-touch}
use static_web.Config.{SecurityConfig}
use static_web.Security.{Result, ok, err, Evaluated, path_safe, lookup, store, warm_one, pre_warm}
use static_web.Security.Containment.{IsResolver, IsBelow}
use static_web.Security.Verdict.{path_safe-IsBelow}
use static_web.Security.Middleware.{resolve_uncached, resolve_cached}

-- Every stored path lies below the root, by the rules of `pathSafe`.
abbrev pub IsSafeList : Bool → List Bytes → List (Bytes × Bytes) → Type 0
IsSafeList block rs = All (λ entry. IsBelow block rs entry.1)

module _ (lru : Lru Bytes) (block : Bool) (rs : List Bytes) where
  abbrev pub IsSafeStore : lru.Store → Type 0
  IsSafeStore pc = IsSafeList block rs (lru.entries pc)

  store-IsSafeStore :
      (k p : Bytes) (pc : lru.Store)
      → IsSafeStore pc
      → IsBelow block rs p
      → IsSafeStore (lru.add k p pc).1
  store-IsSafeStore k p pc h b = rw (lru.entries-add k p pc) (
      All-take (λ entry. IsBelow block rs entry.1) lru.capacity _
        (b, All-erase (λ entry. IsBelow block rs entry.1) k (lru.entries pc) h))

  warm_one-IsSafeStore :
      (k : Bytes) (result : Result (Bytes × Bool)) (pc : lru.Store)
      → IsSafeStore pc
      → ((p : Bytes × Bool) → result ≡ ok p → IsBelow block rs p.0)
      → IsSafeStore (warm_one lru k result pc)
  unfolding warm_one
  warm_one-IsSafeStore k (ok (p, true)) pc h b = store-IsSafeStore k p pc h (b (p, true) refl)
  warm_one-IsSafeStore k (ok (p, false)) pc h b = h
  warm_one-IsSafeStore k (err e) pc h b = h

  -- Warming a path cache that holds safe paths only stores safe paths only, for a root and a
  -- symlink resolution that give cleaned absolute paths.
  pub pre_warm-IsSafeStore :
      (eval_symlinks : Bytes → Evaluated) (paths : List Bytes) (abs_root : Bytes) (pc : lru.Store)
      → IsResolver eval_symlinks abs_root rs
      → IsSafeStore pc
      → IsSafeStore (pre_warm lru eval_symlinks paths abs_root block pc)
  unfolding pre_warm
  pre_warm-IsSafeStore eval_symlinks [] abs_root pc v h = h
  pre_warm-IsSafeStore eval_symlinks (url_path ∷ paths) abs_root pc v h =
      pre_warm-IsSafeStore eval_symlinks paths abs_root _ v (
        warm_one-IsSafeStore url_path _ pc h
          (λ p e. path_safe-IsBelow eval_symlinks url_path abs_root block rs v e))

-- What the lookup of a safe path gives.
abbrev pub IsSafeResult : Bool → List Bytes → Result Bytes → Type 0
IsSafeResult block rs (ok p) = IsBelow block rs p
IsSafeResult block rs (err e) = Unit

module _ (lru : Lru Bytes) (eval_symlinks : Bytes → Evaluated) (cfg : SecurityConfig)
    (abs_root : Bytes) (rs : List Bytes) where
  resolve_uncached-IsSafe :
      (url_path : Bytes) (pc : lru.Store)
      → IsResolver eval_symlinks abs_root rs
      → IsSafeStore lru cfg.block_dotfiles rs pc
      → IsSafeStore lru cfg.block_dotfiles rs
          (resolve_uncached lru eval_symlinks cfg abs_root url_path pc).1
        × IsSafeResult cfg.block_dotfiles rs
            (resolve_uncached lru eval_symlinks cfg abs_root url_path pc).0
  unfolding resolve_uncached store
  resolve_uncached-IsSafe url_path pc v h =
      go (path_safe eval_symlinks url_path abs_root cfg.block_dotfiles) refl
    where
      go :
          (result : Result (Bytes × Bool))
          → path_safe eval_symlinks url_path abs_root cfg.block_dotfiles ≡ result
          → IsSafeStore lru cfg.block_dotfiles rs
              (resolve_uncached lru eval_symlinks cfg abs_root url_path pc).1
            × IsSafeResult cfg.block_dotfiles rs
                (resolve_uncached lru eval_symlinks cfg abs_root url_path pc).0
      go (err e) q = rw (q, resolve_uncached) (h, tt)
      go (ok (p, true)) q =
          let b = path_safe-IsBelow eval_symlinks url_path abs_root cfg.block_dotfiles rs v q in
          rw (q, resolve_uncached)
            (store-IsSafeStore lru cfg.block_dotfiles rs url_path p pc h b, b)
      go (ok (p, false)) q =
          rw (q, resolve_uncached)
            (h, path_safe-IsBelow eval_symlinks url_path abs_root cfg.block_dotfiles rs v q)

  pub resolve_cached-IsSafe :
      (url_path : Bytes) (pc : lru.Store)
      → IsResolver eval_symlinks abs_root rs
      → IsSafeStore lru cfg.block_dotfiles rs pc
      → IsSafeStore lru cfg.block_dotfiles rs
          (resolve_cached lru eval_symlinks cfg abs_root url_path pc).1
        × IsSafeResult cfg.block_dotfiles rs
            (resolve_cached lru eval_symlinks cfg abs_root url_path pc).0
  unfolding resolve_cached lookup
  resolve_cached-IsSafe url_path pc v h =
      let pc' = (lru.get url_path pc).1 in
      let h' : IsSafeStore lru cfg.block_dotfiles rs pc' =
        rw (lru.entries-get url_path pc) (
          All-touch (λ entry. IsBelow cfg.block_dotfiles rs entry.1) url_path (lru.entries pc) h) in
      let rest = resolve_uncached-IsSafe url_path pc' v h' in
      elim (Option-cases (find url_path (lru.entries pc))) [
        | inl e ↦ rw (lru.get_value url_path pc, e, resolve_cached) rest
        | inr (p, e) ↦
            let b =
              All-find (λ entry. IsBelow cfg.block_dotfiles rs entry.1) url_path p (lru.entries pc)
                h e in
            elim (Bool-cases (is_empty p)) [
              | inl x ↦ rw (lru.get_value url_path pc, e, resolve_cached, x) rest
              | inr x ↦ rw (lru.get_value url_path pc, e, resolve_cached, x) (h', b)
            ]
      ]
