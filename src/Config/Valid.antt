-- ===== src/Config/Valid.antt =====
-- What a configuration that `Validate` accepts promises to the rest of the server.
use static_web.Prelude.{
  ℕ, ◌<◌, ◌≡◌, refl, ℤ, pos, negsuc, Bool, true, false, not, ◌&&◌, Option, List, [], ◌∷◌, ◌++◌,
  Bytes, arith, ◌⊎◌, inl, inr, lt_int,
}
use static_web.Strings.{is_empty, trim_space}
use static_web.Config.{
  Config, Problem, report, is_negative, validate_server, validate_timeouts, validate_storage,
  validate_response, is_bad_level, validate,
}
use static_web.Compress.Gzip.{gzip_level}

append-nil_parts {ℓ} : {A : Type ℓ} (xs ys : List A) → xs ++ ys ≡ [] → (xs ≡ []) × (ys ≡ [])
append-nil_parts [] ys h = (refl, h)
append-nil_parts (x ∷ xs) ys h = absurd (cc)

-- The number is not negative, and the number is above zero.
abbrev pub IsNat : ℤ → Type 0
IsNat n = (k : ℕ) × (n ≡ pos k)

abbrev pub IsPositive : ℤ → Type 0
IsPositive n = (k : ℕ) × (n ≡ pos k) × (0 < k)

report-nil : (test : Bool) (p : Problem) → report test p ≡ [] → test ≡ false
report-nil true p h = absurd (cc)
report-nil false p h = refl

nat : (n : ℤ) (p : Problem) → report (is_negative n) p ≡ [] → IsNat n
nat (pos k) p h = (k, refl)
nat (negsuc k) p h = absurd (cc)

positive :
    (on : Bool) (n : ℤ) (p : Problem)
    → report (on && not (lt_int (pos 0) n)) p ≡ []
    → (on ≡ false) ⊎ IsPositive n
positive false n p h = inl refl
positive true (pos k) p h = inr (k, refl, ground arith)
positive true (negsuc k) p h = absurd (cc)

-- The timeouts, sizes and ages of an accepted configuration, and the level that gzip is given.
pub record IsValid (c : Config) : Type 0 where
  pub read_timeout : IsNat c.server.read_timeout
  pub write_timeout : IsNat c.server.write_timeout
  pub idle_timeout : IsNat c.server.idle_timeout
  pub shutdown_timeout : IsNat c.server.shutdown_timeout
  pub ttl : IsNat c.cache.ttl
  pub max_conns_per_ip : IsNat c.server.max_conns_per_ip
  pub root : is_empty (trim_space c.files.root) ≡ false
  pub max_serve_file_size : IsNat c.files.max_serve_file_size
  pub max_bytes : (c.cache.enabled ≡ false) ⊎ IsPositive c.cache.max_bytes
  pub max_file_size : (c.cache.enabled ≡ false) ⊎ IsPositive c.cache.max_file_size
  pub gc_percent : IsNat c.cache.gc_percent
  pub min_size : IsNat c.compression.min_size
  pub max_compress_size : IsNat c.compression.max_compress_size
  pub level :
      (c.compression.enabled ≡ false) ⊎ (gzip_level c.compression.level ≡ c.compression.level)
  pub static_max_age : IsNat c.headers.static_max_age
  pub html_max_age : IsNat c.headers.html_max_age
  pub hsts_max_age : IsNat c.security.hsts_max_age

module _ (split_host_port : Bytes → Option Bytes) where
  level-kept : (n : ℤ) → is_bad_level split_host_port n ≡ false → gzip_level n ≡ n
  unfolding is_bad_level
  level-kept (pos k) h = ground arith
  level-kept (negsuc k) h = ground arith

  level_of :
      (on : Bool) (n : ℤ) (p : Problem)
      → report (on && is_bad_level split_host_port n) p ≡ []
      → (on ≡ false) ⊎ (gzip_level n ≡ n)
  level_of false n p h = inl refl
  level_of true n p h = inr (level-kept n (report-nil (is_bad_level split_host_port n) p h))

  -- In a configuration that Validate accepts no timeout, age, connection limit or garbage
  -- collector percentage is negative, nor is the largest size that is served or one of the size
  -- limits of compression; the root is not blank; and where the cache is enabled its two limits
  -- are above zero, and where compression is enabled its level is one that gzip takes as it is.
  pub validate-IsValid : (c : Config) → validate split_host_port c ≡ [] → IsValid c
  unfolding validate validate_server validate_timeouts validate_storage validate_response
  validate-IsValid c h =
      let (s, h1) = append-nil_parts (validate_server split_host_port c.server) _ h in
      let (t, h2) = append-nil_parts (validate_timeouts split_host_port c) _ h1 in
      let (u, w) = append-nil_parts (validate_storage split_host_port c) _ h2 in
      let (t0, a1) = append-nil_parts (report (is_negative c.server.read_timeout) _) _ t in
      let (t1, a2) = append-nil_parts (report (is_negative c.server.write_timeout) _) _ a1 in
      let (t2, a3) = append-nil_parts (report (is_negative c.server.idle_timeout) _) _ a2 in
      let (t3, a4) = append-nil_parts (report (is_negative c.server.shutdown_timeout) _) _ a3 in
      let (t4, t5) = append-nil_parts (report (is_negative c.cache.ttl) _) _ a4 in
      let (u0, b1) = append-nil_parts (report (is_empty (trim_space c.files.root)) _) _ u in
      let (u1, b2) = append-nil_parts (report (is_negative c.files.max_serve_file_size) _) _ b1 in
      let (u2, b3) =
        append-nil_parts (report (c.cache.enabled && not (lt_int (pos 0) c.cache.max_bytes)) _) _
          b2 in
      let (u3, u4) =
        append-nil_parts (report (c.cache.enabled && not (lt_int (pos 0) c.cache.max_file_size)) _)
          (report (is_negative c.cache.gc_percent) _) b3 in
      let (w0, d1) = append-nil_parts (report (is_negative c.compression.min_size) _) _ w in
      let (w1, d2) =
        append-nil_parts (report (is_negative c.compression.max_compress_size) _) _ d1 in
      let (w2, d3) =
        append-nil_parts
          (report (c.compression.enabled && is_bad_level split_host_port c.compression.level) _) _
          d2 in
      let (w3, d4) = append-nil_parts (report (is_negative c.headers.static_max_age) _) _ d3 in
      let (w4, w5) = append-nil_parts (report (is_negative c.headers.html_max_age) _) _ d4 in
      record {
        read_timeout = nat _ _ t0;
        write_timeout = nat _ _ t1;
        idle_timeout = nat _ _ t2;
        shutdown_timeout = nat _ _ t3;
        ttl = nat _ _ t4;
        max_conns_per_ip = nat _ _ t5;
        root = report-nil _ _ u0;
        max_serve_file_size = nat _ _ u1;
        max_bytes = positive _ _ _ u2;
        max_file_size = positive _ _ _ u3;
        gc_percent = nat _ _ u4;
        min_size = nat _ _ w0;
        max_compress_size = nat _ _ w1;
        level = level_of _ _ _ w2;
        static_max_age = nat _ _ w3;
        html_max_age = nat _ _ w4;
        hsts_max_age = nat _ _ w5;
      }
