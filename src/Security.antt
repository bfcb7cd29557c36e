-- ===== src/Security.antt =====
-- internal/security/security.go: `pathSafe`, and the cache of its results.
-- `Containment` has what an accepted path is.
pub mod Containment
pub mod Verdict
pub mod Middleware
use static_web.Prelude.{
  ℕ, zero, suc, ℤ, pos, negsuc, Bool, true, false, not, ◌&&◌, ◌||◌, Option, none, some, List, [],
  ◌∷◌, Bytes, ◌==◌, if◌then◌else◌,
}
use static_web.Strings.{bytes_eq, is_empty, has_prefix, trim_prefix, contains_byte, split}
use static_web.Paths.{slash, clean, join_path, with_separator}
use static_web.Lru.{Lru}

-- `ErrNullByte`, `ErrPathTraversal`, `ErrDotfile`.
pub data PathError : Type 0 where
  null_byte path_traversal dotfile : PathError

pub data Result {ℓ} (A : Type ℓ) : Type ℓ where
  ok : A → Result A
  err : PathError → Result A

-- What `filepath.EvalSymlinks` answers: the real path, an error for which `os.IsNotExist` holds, or
-- another error.
pub data Evaluated : Type 0 where
  real : Bytes → Evaluated
  missing : Evaluated
  denied : Evaluated

-- A segment that starts with a dot.
abbrev pub is_hidden : Bytes → Bool
is_hidden seg = has_prefix (b'.' ∷ []) seg

-- The loop over the segments: whether one is hidden.
unfoldable pub has_hidden : List Bytes → Bool
has_hidden [] = false
has_hidden (seg ∷ segs) = if is_empty seg then has_hidden segs else is_hidden seg || has_hidden segs

-- `p == root || strings.HasPrefix(p, rootWithSep)`
unfoldable pub is_inside : Bytes → Bytes → Bool
is_inside root p = bytes_eq p root || has_prefix (with_separator root) p

-- Step 5, behind the checks on the resolved path.
unfoldable pub check_dotfiles : Bool → Bytes → Bytes → Bool → Result (Bytes × Bool)
unfolding has_hidden
check_dotfiles block root resolved exists =
    if block && has_hidden (split slash (trim_prefix root resolved))
    then err dotfile
    else ok (resolved, exists)

-- Step 4, on what `EvalSymlinks(candidate)` answers.
unfoldable pub check_resolved : Evaluated → Bytes → Bytes → Bool → Result (Bytes × Bool)
unfolding check_dotfiles is_inside
check_resolved denied root candidate block = err path_traversal
check_resolved missing root candidate block = check_dotfiles block root candidate false
check_resolved (real p) root candidate block =
    if is_inside root p then check_dotfiles block root p true else err path_traversal

-- The file system at the time of the call.
module _ (eval_symlinks : Bytes → Evaluated) where
  unfoldable pub real_root : Bytes → Bytes
  real_root abs_root = elim (eval_symlinks abs_root) [
    | real r ↦ r
    | missing ↦ abs_root
    | denied ↦ abs_root
  ]

  -- `filepath.Join(realRoot, filepath.FromSlash(path.Clean("/" + urlPath)))`
  unfoldable pub candidate : Bytes → Bytes → Bytes
  unfolding real_root
  candidate abs_root url_path = join_path (real_root abs_root) (clean (slash ∷ url_path))

  -- `pathSafe`: the resolved path, and whether it exists.
  unfoldable pub path_safe : Bytes → Bytes → Bool → Result (Bytes × Bool)
  unfolding real_root candidate check_resolved
  path_safe url_path abs_root block =
      let root = real_root abs_root in
      let p = candidate abs_root url_path in
      if contains_byte 0 url_path
      then err null_byte
      else if not (is_inside root p)
      then err path_traversal
      else check_resolved (eval_symlinks p) root p block

abbrev pub default_path_cache_size : ℕ
default_path_cache_size = 10000

-- `NewPathCache`: the capacity of the store that it makes.
pub path_cache_size : ℤ → ℕ
path_cache_size (pos n) = if n == 0 then default_path_cache_size else n
path_cache_size (negsuc n) = default_path_cache_size

-- A `PathCache` is a store of safe paths by URL path.
module _ (lru : Lru Bytes) where
  unfoldable pub lookup : Bytes → lru.Store → Option Bytes × lru.Store
  lookup url_path pc = lru.get url_path pc

  unfoldable pub store : Bytes → Bytes → lru.Store → lru.Store
  store url_path safe_path pc = (lru.add url_path safe_path pc).1

  pub flush : lru.Store → lru.Store
  flush pc = (lru.purge pc).1

  pub len : lru.Store → ℕ
  len pc = lru.len pc

  -- One round of `PreWarm`: only a path that exists is stored.
  unfoldable pub warm_one : Bytes → Result (Bytes × Bool) → lru.Store → lru.Store
  warm_one url_path (ok (safe_path, true)) pc = (lru.add url_path safe_path pc).1
  warm_one url_path (ok (safe_path, false)) pc = pc
  warm_one url_path (err e) pc = pc

  unfoldable pub pre_warm : (Bytes → Evaluated) → List Bytes → Bytes → Bool → lru.Store → lru.Store
  unfolding warm_one
  pre_warm eval_symlinks [] abs_root block pc = pc
  pre_warm eval_symlinks (url_path ∷ paths) abs_root block pc =
      pre_warm eval_symlinks paths abs_root block
        (warm_one url_path (path_safe eval_symlinks url_path abs_root block) pc)
