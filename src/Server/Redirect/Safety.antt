-- ===== src/Server/Redirect/Safety.antt =====
-- internal/server/server.go: what the host of the redirect to HTTPS is made of.
use static_web.Prelude.{
  ℕ, true, false, ◌&&◌, ℤ, Option, none, some, [], ◌∷◌, ◌++◌, Bytes, codes, ◌≡◌, refl, sym, ◌==◌,
  arith, All, All-append, All_prefix, All_suffix, Bool-cases, Option-cases, inl, inr,
}
use static_web.Strings.{
  bytes_eq, is_empty, has_prefix, trim_prefix, strip, contains_byte, ends_with_byte, trim_space,
}
use static_web.Strings.Trim.{trim_space-All}
use static_web.Strconv.{parse_int}
use static_web.Strconv.Laws.{IsDigit, parse_int-All}
use static_web.Server.Net.{Net}
use static_web.Server.Redirect.{
  special, contains_any, trim_suffix_byte, trim_brackets, valid_port, host_for_url, split_trimmed,
  split_host_port_optional, with_tls_port, authority_of, authority_with_tls_port,
  redirect_authority, valid_redirect_host, is_unspecific, count_byte,
}

-- None of the bytes that would end the host of a URL.
abbrev pub IsOrdinary : ℕ → Type 0
IsOrdinary c = contains_byte c special ≡ false

abbrev pub IsPlainHost : Bytes → Type 0
IsPlainHost = All IsOrdinary

contains_any-IsPlainHost : (s : Bytes) → contains_any special s ≡ false → IsPlainHost s
unfolding contains_any
contains_any-IsPlainHost [] h = tt
contains_any-IsPlainHost (c ∷ s) h = elim (Bool-cases (contains_byte c special)) [
  | inl e ↦ absurd (cc (rw e at h))
  | inr e ↦ (e, contains_any-IsPlainHost s (cc (rw e at h)))
]

trim_suffix_byte-IsPlainHost :
    (b : ℕ) (s : Bytes) → IsPlainHost s → IsPlainHost (trim_suffix_byte b s)
unfolding trim_suffix_byte
trim_suffix_byte-IsPlainHost b [] h = tt
trim_suffix_byte-IsPlainHost b (c ∷ []) h = elim (Bool-cases (c == b)) [
  | inl e ↦ rw e tt
  | inr e ↦ rw e h
]
trim_suffix_byte-IsPlainHost b (c ∷ d ∷ s) h = (h.0, trim_suffix_byte-IsPlainHost b (d ∷ s) h.1)

strip-IsPlainHost : (p s rest : Bytes) → IsPlainHost s → strip p s ≡ some rest → IsPlainHost rest
unfolding strip
strip-IsPlainHost [] s rest h e = let same : s ≡ rest = cc e in rw (sym same) h
strip-IsPlainHost (p ∷ ps) [] rest h e = absurd (cc e)
strip-IsPlainHost (p ∷ ps) (c ∷ s) rest h e = elim (Bool-cases (p == c)) [
  | inl t ↦ strip-IsPlainHost ps s rest h.1 (cc (rw t at e))
  | inr t ↦ absurd (cc (rw t at e))
]

trim_prefix-IsPlainHost : (p s : Bytes) → IsPlainHost s → IsPlainHost (trim_prefix p s)
unfolding trim_prefix
trim_prefix-IsPlainHost p s h = elim (Option-cases (strip p s)) [
  | inl e ↦ rw (e, trim_prefix) h
  | inr (rest, e) ↦ rw (e, trim_prefix) (strip-IsPlainHost p s rest h e)
]

trim_brackets-IsPlainHost : (s : Bytes) → IsPlainHost s → IsPlainHost (trim_brackets s)
unfolding trim_brackets
trim_brackets-IsPlainHost s h =
    trim_suffix_byte-IsPlainHost b']' (trim_prefix (b'[' ∷ []) s)
      (trim_prefix-IsPlainHost (b'[' ∷ []) s h)

host_for_url-IsPlainHost :
    (net : Net) (s : Bytes) → IsPlainHost s → IsPlainHost (host_for_url net s)
unfolding host_for_url contains_byte
host_for_url-IsPlainHost net s h = elim (Bool-cases (contains_byte b':' s)) [
  | inl e ↦ rw e (refl, All-append IsOrdinary s (b']' ∷ []) h (refl, tt))
  | inr e ↦ rw e h
]

IsOrdinary-digit : (c : ℕ) → IsDigit c → IsOrdinary c
unfolding contains_byte
IsOrdinary-digit c h = ground arith

parse_int-IsPlainHost : (s : Bytes) (n : ℤ) → parse_int s ≡ some n → IsPlainHost s
unfolding contains_byte
parse_int-IsPlainHost s n h = parse_int-All IsOrdinary s n refl refl IsOrdinary-digit h

valid_port-IsPlainHost : (s : Bytes) → valid_port s ≡ true → IsPlainHost s
unfolding valid_port
valid_port-IsPlainHost s h = elim (Option-cases (parse_int s)) [
  | inl e ↦ absurd (cc (rw (e, valid_port) at h))
  | inr (n, e) ↦ parse_int-IsPlainHost s n e
]

-- `net.JoinHostPort` and `net.SplitHostPort` as they are documented: brackets around a host with a
-- colon, and two parts of the text.
module _ (net : Net)
    (joined : (h p : Bytes) → net.join_host_port h p ≡ host_for_url net h ++ b':' ∷ p)
    (parts : (s h p : Bytes)
      → net.split_host_port s ≡ some (h, p)
      → (l : Bytes) × (m : Bytes) × (s ≡ l ++ (h ++ (m ++ p)))) where
  split_host_port-IsPlainHost :
      (s h p : Bytes)
      → net.split_host_port s ≡ some (h, p)
      → IsPlainHost s
      → IsPlainHost h × IsPlainHost p
  split_host_port-IsPlainHost s h p e k =
      let (l, m, same) = parts s h p e in
      let rest = All_suffix IsOrdinary l (h ++ (m ++ p)) (rw same at k) in
      (
        All_prefix IsOrdinary h (m ++ p) rest,
        All_suffix IsOrdinary m p (All_suffix IsOrdinary h (m ++ p) rest),
      )

  join_host_port-IsPlainHost :
      (h p : Bytes) → IsPlainHost h → IsPlainHost p → IsPlainHost (net.join_host_port h p)
  unfolding contains_byte
  join_host_port-IsPlainHost h p a b = rw (joined h p) (
      All-append IsOrdinary (host_for_url net h) (b':' ∷ p) (host_for_url-IsPlainHost net h a)
        (refl, b))

  -- The host and the port that are split off, if there is one.
  split_trimmed-IsPlainHost :
      (s h : Bytes) (p : Option Bytes)
      → split_trimmed net s ≡ some (h, p)
      → IsPlainHost s
      → IsPlainHost h
  unfolding split_trimmed
  split_trimmed-IsPlainHost s h p e k = elim (Bool-cases (is_empty s)) [
    | inl t ↦ absurd (cc (rw (t, split_trimmed) at e))
    | inr t ↦ elim (Option-cases (net.split_host_port s)) [
      | inr ((h', p'), u) ↦
          let same : trim_brackets h' ≡ h = cc (rw (t, u, split_trimmed) at e) in
          rw (sym same) (trim_brackets-IsPlainHost h' (split_host_port-IsPlainHost s h' p' u k).0)
      | inl u ↦ elim (Bool-cases (has_prefix (b'[' ∷ []) s && ends_with_byte b']' s)) [
        | inl v ↦
            let same : trim_brackets s ≡ h = cc (rw (t, u, v, split_trimmed) at e) in
            rw (sym same) (trim_brackets-IsPlainHost s k)
        | inr v ↦ elim (Bool-cases (count_byte b':' s == 1)) [
          | inl w ↦ absurd (cc (rw (t, u, v, w, split_trimmed) at e))
          | inr w ↦
              let same : trim_brackets s ≡ h = cc (rw (t, u, v, w, split_trimmed) at e) in
              rw (sym same) (trim_brackets-IsPlainHost s k)
        ]
      ]
    ]
  ]

  with_tls_port-IsPlainHost :
      (h addr auth : Bytes)
      → IsPlainHost addr
      → IsPlainHost h
      → with_tls_port net h addr ≡ some auth
      → IsPlainHost auth
  unfolding with_tls_port
  with_tls_port-IsPlainHost h addr auth a k e = elim (Option-cases (net.split_host_port addr)) [
    | inl t ↦ absurd (cc (rw (t, with_tls_port) at e))
    | inr ((h', p), t) ↦ elim (Bool-cases (bytes_eq p (codes "443"))) [
      | inl u ↦
          let same : host_for_url net h ≡ auth = cc (rw (t, u, with_tls_port) at e) in
          rw (sym same) (host_for_url-IsPlainHost net h k)
      | inr u ↦
          let same : net.join_host_port h p ≡ auth = cc (rw (t, u, with_tls_port) at e) in
          rw (sym same)
            (join_host_port-IsPlainHost h p k (split_host_port-IsPlainHost addr h' p t a).1)
    ]
  ]

  authority_of-IsPlainHost :
      (h : Bytes) (port : Option Bytes) (addr auth : Bytes)
      → IsPlainHost addr
      → IsPlainHost h
      → authority_of net h port addr ≡ some auth
      → IsPlainHost auth
  unfolding authority_of
  authority_of-IsPlainHost h none addr auth a k e = elim (Bool-cases (valid_redirect_host net h)) [
    | inl t ↦ with_tls_port-IsPlainHost h addr auth a k (cc (rw (t, authority_of) at e))
    | inr t ↦ absurd (cc (rw (t, authority_of) at e))
  ]
  authority_of-IsPlainHost h (some p) addr auth a k e =
      elim (Bool-cases (valid_redirect_host net h)) [
        | inr t ↦ absurd (cc (rw (t, authority_of) at e))
        | inl t ↦ elim (Bool-cases (valid_port p)) [
          | inr u ↦ absurd (cc (rw (t, u, authority_of) at e))
          | inl u ↦
              let same : net.join_host_port h p ≡ auth = cc (rw (t, u, authority_of) at e) in
              rw (sym same) (join_host_port-IsPlainHost h p k (valid_port-IsPlainHost p u))
        ]
      ]

  authority_with_tls_port-IsPlainHost :
      (host addr auth : Bytes)
      → IsPlainHost addr
      → authority_with_tls_port net host addr ≡ some auth
      → IsPlainHost auth
  unfolding authority_with_tls_port split_host_port_optional
  authority_with_tls_port-IsPlainHost host addr auth a e =
      elim (Bool-cases (contains_any special host)) [
        | inl t ↦ absurd (cc (rw (t, authority_with_tls_port) at e))
        | inr t ↦ elim (Option-cases (split_host_port_optional net host)) [
          | inl u ↦ absurd (cc (rw (t, u, authority_with_tls_port) at e))
          | inr ((h, port), u) ↦
              authority_of-IsPlainHost h port addr auth a
                (split_trimmed-IsPlainHost (trim_space host) h port u
                  (trim_space-All IsOrdinary host (contains_any-IsPlainHost host t)))
                (cc (rw (t, u, authority_with_tls_port) at e))
        ]
      ]

  -- No host to which plain HTTP is redirected holds a slash, a backslash, an at sign, a question
  -- mark, a hash or a percent sign, whatever redirect host is configured, for a TLS address
  -- without them, where JoinHostPort brackets a host with a colon and joins with a colon, and
  -- SplitHostPort gives two parts of its text.
  pub redirect_authority-IsPlainHost :
      (host addr auth : Bytes)
      → IsPlainHost addr
      → redirect_authority net host addr ≡ some auth
      → IsPlainHost auth
  unfolding redirect_authority
  redirect_authority-IsPlainHost host addr auth a e = elim (Bool-cases (is_empty host)) [
    | inr t ↦
        authority_with_tls_port-IsPlainHost host addr auth a (cc (rw (t, redirect_authority) at e))
    | inl t ↦ elim (Option-cases (net.split_host_port addr)) [
      | inl u ↦ absurd (cc (rw (t, u, redirect_authority) at e))
      | inr ((h, p), u) ↦ elim (Bool-cases (is_unspecific net (trim_space h))) [
        | inl v ↦ absurd (cc (rw (t, u, v, redirect_authority) at e))
        | inr v ↦
            authority_with_tls_port-IsPlainHost (trim_space h) addr auth a
              (cc (rw (t, u, v, redirect_authority) at e))
      ]
    ]
  ]
