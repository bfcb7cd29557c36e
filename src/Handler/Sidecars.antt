-- ===== src/Handler/Sidecars.antt =====
-- internal/handler/file.go: the compressed files next to a file (`ValidateSidecarPath`,
-- `loadSidecarMax`, `LoadSidecar`).
use static_web.Prelude.{ℕ, Bool, true, not, ◌&&◌, Option, none, some, Bytes, if◌then◌else◌, ltb}
use static_web.Strings.{has_prefix}
use static_web.Paths.{clean, join_path, is_abs, with_separator}
use static_web.Security.{Evaluated, real, missing, denied, is_inside, real_root}

-- The file system: the resolved path, and for a file that can be opened its size (`none` where
-- `Stat` fails) and its content (`none` where reading fails).
pub record Files : Type 0 where
  pub eval_symlinks : Bytes → Evaluated
  pub open_file : Bytes → Option (Option ℕ × Option Bytes)

module _ (fs : Files) where
  -- `ValidateSidecarPath`; `none` is an error.
  unfoldable pub validate_sidecar_path : Bytes → Bytes → Option Bytes
  validate_sidecar_path abs_root sidecar_path =
      let clean_path = clean sidecar_path in
      let abs_path = if is_abs clean_path then clean_path else join_path abs_root clean_path in
      elim (fs.eval_symlinks abs_path) [
        | missing ↦ none
        | denied ↦ none
        | real real_path ↦
            if is_inside (real_root fs.eval_symlinks abs_root) real_path
            then some real_path
            else none
      ]

  -- The size check on the open file.
  abbrev pub too_large : ℕ → Option ℕ → Bool
  too_large max_size none = true
  too_large max_size (some n) = ltb max_size n

  -- `loadSidecarMax`; the real root, which `NewFileHandler` keeps, is resolved here at the
  -- call.
  unfoldable pub load_sidecar_max : Bytes → Bytes → ℕ → Option Bytes
  unfolding validate_sidecar_path
  load_sidecar_max abs_root path max_size = elim (validate_sidecar_path abs_root path) [
    | none ↦ none
    | some validated ↦
        if not (has_prefix (with_separator (real_root fs.eval_symlinks abs_root)) (clean validated))
        then none
        else elim (fs.open_file (clean validated)) [
          | none ↦ none
          | some (size, content) ↦
              if ltb 0 max_size && too_large max_size size then none else content
        ]
  ]

  -- `LoadSidecar`.
  pub load_sidecar : Bytes → Bytes → Option Bytes
  unfolding load_sidecar_max
  load_sidecar abs_root path = load_sidecar_max abs_root path 0
