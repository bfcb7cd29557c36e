-- ===== src/Command/Precedence.antt =====
-- cmd/static-web/main.go: what the configuration that `loadConfig` returns is made of.
use static_web.Prelude.{
  ℤ, pos, Bool, true, false, not, ◌&&◌, Option, List, [], ◌∷◌, Bytes, ◌≡◌, refl, sym, ap, ◌∙◌,
  if◌then◌else◌, Bool-cases, inl, inr,
}
use mathlib.Core.Path.{subst}
use static_web.Strings.{is_empty}
use static_web.Config.{Config, Problem, validate, defaults}
use static_web.Config.Valid.{IsValid, validate-IsValid}
use static_web.Config.Loading.{
  files_root, files_index, security_csp, server_redirect_host, Environment, Reading, read_str,
  ConfigFile, no_file, no_access, malformed, decodes, Loaded, loaded, load_failed, check_reading,
  load, apply_env_overrides, load_decoded,
}
use static_web.Server.Net.{Net}
use static_web.Command.Sizes.{Size, size, bad_size, parse_bytes}
use static_web.Command.Flags.{
  Overrides, override, Applied, applied, bad_cache_size, apply_flag_overrides, with_flags, built,
  check_config, port_of, finish_config, load_config, is_missing, apply_size, override_loaded,
}

-- The configuration under the environment and the flags.
settings_of : ConfigFile → Config
settings_of no_file = defaults
settings_of no_access = defaults
settings_of malformed = defaults
settings_of (decodes change) = change defaults

pub base_of : (Bytes → ConfigFile) → Bytes → Config
base_of file path = if is_empty path then defaults else settings_of (file path)

base_of-empty :
    (file : Bytes → ConfigFile) (path : Bytes) → is_empty path ≡ true → base_of file path ≡ defaults
unfolding base_of
base_of-empty file path e = rw e refl

base_of-file :
    (file : Bytes → ConfigFile) (path : Bytes)
    → is_empty path ≡ false
    → base_of file path ≡ settings_of (file path)
unfolding base_of
base_of-file file path e = rw e refl

missing_settings : (file : ConfigFile) → is_missing file ≡ true → settings_of file ≡ defaults
unfolding settings_of
missing_settings no_file h = refl
missing_settings no_access h = refl
missing_settings malformed h = refl
missing_settings (decodes change) h = absurd (cc h)

-- A default path that is missing is as good as none.
base_of-used :
    (file : Bytes → ConfigFile) (path : Bytes) (explicit : Bool)
    → base_of file (if not explicit && is_missing (file path) then [] else path) ≡ base_of file path
unfolding base_of is_empty
base_of-used file path true = refl
base_of-used file path false = elim (Bool-cases (is_missing (file path))) [
  | inr m ↦ rw m refl
  | inl m ↦ elim (Bool-cases (is_empty path)) [
    | inl e ↦ rw (m, e) refl
    | inr e ↦ rw (m, e) (sym (missing_settings (file path) m))
  ]
]

-- A flag before a variable before the file, for the settings that have all three.
pub record IsLayered (f : Overrides) (env : Environment) (base c : Config) : Type 0 where
  pub root : c.files.root ≡ override f.root (override (env files_root) base.files.root)
  pub index : c.files.index ≡ override f.index (override (env files_index) base.files.index)
  pub csp : c.security.csp ≡ override f.csp (override (env security_csp) base.security.csp)
  pub redirect_host :
      c.server.redirect_host
      ≡ override f.redirect_host (override (env server_redirect_host) base.server.redirect_host)

-- What an accepted result comes from.
module _ (parse_duration : Bytes → Option ℤ) where
  check_reading-loaded :
      (r : Reading Config) (c : Config) → check_reading parse_duration r ≡ loaded c → c ≡ r.0
  check_reading-loaded (d, []) c h = cc h
  check_reading-loaded (d, v ∷ vs) c h = absurd (cc h)

  load_decoded-loaded :
      (env : Environment) (file : ConfigFile) (c : Config)
      → load_decoded parse_duration env file ≡ loaded c
      → c ≡ (apply_env_overrides parse_duration env (settings_of file)).0
  unfolding load_decoded settings_of
  load_decoded-loaded env no_file c h = absurd (cc h)
  load_decoded-loaded env no_access c h = absurd (cc h)
  load_decoded-loaded env malformed c h = absurd (cc h)
  load_decoded-loaded env (decodes change) c h =
      check_reading-loaded (apply_env_overrides parse_duration env (change defaults)) c h

  load-loaded :
      (file : Bytes → ConfigFile) (env : Environment) (path : Bytes) (c : Config)
      → load parse_duration file env path ≡ loaded c
      → c ≡ (apply_env_overrides parse_duration env (base_of file path)).0
  unfolding load
  load-loaded file env path c h = elim (Bool-cases (is_empty path)) [
    | inl e ↦
        check_reading-loaded (apply_env_overrides parse_duration env defaults) c
          (cc (rw (e, load) at h))
        ∙ ap (λ base. (apply_env_overrides parse_duration env base).0)
            (sym (base_of-empty file path e))
    | inr e ↦
        load_decoded-loaded env (file path) c (cc (rw (e, load) at h))
        ∙ ap (λ base. (apply_env_overrides parse_duration env base).0)
            (sym (base_of-file file path e))
  ]

check_config-built :
    (c d : Config) (ps : List Problem) → check_config c ps ≡ built d → (d ≡ c) × (ps ≡ [])
check_config-built c d [] h = (cc h, refl)
check_config-built c d (p ∷ ps) h = absurd (cc h)

module _ (net : Net) where
  apply_size-applied :
      (c d : Config) (f : Overrides) (n : Size)
      → apply_size net c f n ≡ applied d
      → (max : ℤ) × (d ≡ with_flags net f max c)
  apply_size-applied c d f (bad_size e) h = absurd (cc h)
  apply_size-applied c d f (size n) h = (pos n, cc h)

  -- The cache size of the result is left open.
  apply_flag_overrides-applied :
      (c d : Config) (f : Overrides)
      → apply_flag_overrides net c f ≡ applied d
      → (max : ℤ) × (d ≡ with_flags net f max c)
  unfolding apply_flag_overrides
  apply_flag_overrides-applied c d f h = elim (Bool-cases (is_empty f.cache_size)) [
    | inl e ↦ (c.cache.max_bytes, cc (rw (e, apply_flag_overrides) at h))
    | inr e ↦
        apply_size-applied c d f (parse_bytes f.cache_size) (cc (rw (e, apply_flag_overrides) at h))
  ]

  -- What is built has passed `Validate`.
  finish_config-built :
      (a : Applied) (d : Config) → finish_config net a ≡ built d → (a ≡ applied d) × IsValid d
  unfolding finish_config
  finish_config-built (applied c) d h =
      let (same, e) = check_config-built c d (validate (port_of net) c) h in
      (rw same refl, rw same (validate-IsValid (port_of net) c e))
  finish_config-built (bad_cache_size e) d h = absurd (cc h)

  with_flags-IsLayered :
      (parse_duration : Bytes → Option ℤ) (f : Overrides) (env : Environment) (base : Config)
      (n : ℤ)
      → IsLayered f env base (with_flags net f n (apply_env_overrides parse_duration env base).0)
  unfolding with_flags apply_env_overrides read_str
  with_flags-IsLayered parse_duration f env base n = record {
    root = refl;
    index = refl;
    csp = refl;
    redirect_host = refl;
  }

  IsLayered-from :
      (parse_duration : Bytes → Option ℤ) (f : Overrides) (env : Environment)
      (base base' c d : Config) (n : ℤ)
      → d ≡ with_flags net f n c
      → c ≡ (apply_env_overrides parse_duration env base).0
      → base ≡ base'
      → IsLayered f env base' d
  IsLayered-from parse_duration f env base base' c d n same from e =
      subst (IsLayered f env base')
        (sym (
          same
          ∙ ap (with_flags net f n)
              (from ∙ ap (λ b. (apply_env_overrides parse_duration env b).0) e)))
        (with_flags-IsLayered parse_duration f env base' n)

  override_loaded-built :
      (f : Overrides) (l : Loaded) (d : Config)
      → override_loaded net f l ≡ built d
      → (c : Config) × (l ≡ loaded c) × (finish_config net (apply_flag_overrides net c f) ≡ built d)
  override_loaded-built f (load_failed e) d h = absurd (cc h)
  override_loaded-built f (loaded c) d h = (c, refl, h)

  -- The configuration that loadConfig returns is one that Validate accepts, with the timeouts,
  -- sizes, ages and levels that this promises; and its root, index file, CSP and redirect host are
  -- what the flag says, else the variable, else the file on top of the defaults, a default file
  -- that is missing counting as none.
  pub load_config-built :
      (parse_duration : Bytes → Option ℤ) (file : Bytes → ConfigFile) (env : Environment)
      (path : Bytes) (explicit : Bool) (f : Overrides) (d : Config)
      → load_config net parse_duration file env path explicit f ≡ built d
      → IsValid d × IsLayered f env (base_of file path) d
  unfolding load_config
  load_config-built parse_duration file env path explicit f d h =
      let used = if not explicit && is_missing (file path) then [] else path in
      let (c, l, b) = override_loaded-built f (load parse_duration file env used) d h in
      let (a, valid) = finish_config-built (apply_flag_overrides net c f) d b in
      let (n, same) = apply_flag_overrides-applied c d f a in
      let from = load-loaded parse_duration file env used c l in
      (
        valid,
        IsLayered-from parse_duration f env (base_of file used) (base_of file path) c d n same from
            (base_of-used file path explicit),
      )
