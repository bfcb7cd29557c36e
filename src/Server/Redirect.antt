-- ===== src/Server/Redirect.antt =====
-- internal/server/server.go: the host to which plain HTTP is redirected.
pub mod Safety
use static_web.Prelude.{
  ℕ, suc, ◌+◌, ℤ, pos, negsuc, Bool, true, false, not, ◌&&◌, ◌||◌, Option, none, some, List, [],
  ◌∷◌, ◌++◌, Bytes, codes, ◌==◌, if◌then◌else◌, length, leb, ltb, reverse,
}
use static_web.Strings.{
  bytes_eq, is_empty, has_prefix, trim_prefix, contains_byte, ends_with_byte, split, trim_space,
}
use static_web.Strconv.{parse_int}
use static_web.Server.Net.{Net}

-- `strings.ContainsAny(s, chars)` for ASCII characters.
unfoldable pub contains_any : Bytes → Bytes → Bool
contains_any chars [] = false
contains_any chars (c ∷ s) = contains_byte c chars || contains_any chars s

-- `strings.Count(s, string(b))`.
unfoldable pub count_byte : ℕ → Bytes → ℕ
count_byte b [] = 0
count_byte b (c ∷ s) = let rest = count_byte b s in if c == b then suc rest else rest

-- `strings.TrimSuffix(s, string(b))`.
unfoldable pub trim_suffix_byte : ℕ → Bytes → Bytes
trim_suffix_byte b [] = []
trim_suffix_byte b (c ∷ []) = if c == b then [] else c ∷ []
trim_suffix_byte b (c ∷ d ∷ s) = c ∷ trim_suffix_byte b (d ∷ s)

-- The characters that no host has: `/\@?#%`.
abbrev pub special : Bytes
special = codes "/\\@?#%"

-- `trimIPv6Brackets`.
unfoldable pub trim_brackets : Bytes → Bytes
trim_brackets host = trim_suffix_byte b']' (trim_prefix (b'[' ∷ []) host)

-- `validPort`.
unfoldable pub valid_port : Bytes → Bool
valid_port port = elim (parse_int port) [
  | none ↦ false
  | some (pos n) ↦ leb 1 n && leb n 65535
  | some (negsuc n) ↦ false
]

-- A letter, a digit or a hyphen.
unfoldable pub is_host_byte : ℕ → Bool
is_host_byte c =
    (leb b'a' c && leb c b'z')
    || ((leb b'A' c && leb c b'Z') || ((leb b'0' c && leb c b'9') || (c == b'-')))

unfoldable pub all_host_bytes : Bytes → Bool
unfolding is_host_byte
all_host_bytes [] = true
all_host_bytes (c ∷ s) = is_host_byte c && all_host_bytes s

-- The checks on one label.
unfoldable pub valid_label : Bytes → Bool
unfolding all_host_bytes
valid_label label =
    not (
      is_empty label
      || (ltb 63 (length label) || (has_prefix (b'-' ∷ []) label || ends_with_byte b'-' label)))
    && all_host_bytes label

unfoldable pub valid_labels : List Bytes → Bool
unfolding valid_label
valid_labels [] = true
valid_labels (l ∷ ls) = valid_label l && valid_labels ls

module _ (net : Net) where
  -- `validRedirectHost` behind `TrimSpace`.
  unfoldable pub valid_trimmed_host : Bytes → Bool
  unfolding valid_labels
  valid_trimmed_host host =
      if is_empty host || contains_any special host then false else elim (net.parse_ip host) [
        | some four ↦ true
        | none ↦ if ltb 253 (length host) then false else valid_labels (split b'.' host)
      ]

  unfoldable pub valid_redirect_host : Bytes → Bool
  unfolding valid_trimmed_host
  valid_redirect_host host = valid_trimmed_host (trim_space host)

  -- `hostForURL`.
  unfoldable pub host_for_url : Bytes → Bytes
  host_for_url host = if contains_byte b':' host then b'[' ∷ host ++ b']' ∷ [] else host

  -- `splitHostPortOptional` behind `TrimSpace`: the host, and the port if there is one.
  unfoldable pub split_trimmed : Bytes → Option (Bytes × Option Bytes)
  unfolding trim_brackets count_byte
  split_trimmed value = if is_empty value then none else elim (net.split_host_port value) [
    | some (h, p) ↦ some (trim_brackets h, some p)
    | none ↦
        if has_prefix (b'[' ∷ []) value && ends_with_byte b']' value
        then some (trim_brackets value, none)
        else if count_byte b':' value == 1
        then none
        else some (trim_brackets value, none)
  ]

  unfoldable pub split_host_port_optional : Bytes → Option (Bytes × Option Bytes)
  unfolding split_trimmed
  split_host_port_optional value = split_trimmed (trim_space value)

  -- The end of `authorityWithTLSPort`, without a port in the authority.
  unfoldable pub with_tls_port : Bytes → Bytes → Option Bytes
  unfolding host_for_url
  with_tls_port host tls_addr = elim (net.split_host_port tls_addr) [
    | none ↦ none
    | some (h, port) ↦
        if bytes_eq port (codes "443")
        then some (host_for_url host)
        else some (net.join_host_port host port)
  ]

  -- Behind the split.
  unfoldable pub authority_of : Bytes → Option Bytes → Bytes → Option Bytes
  unfolding valid_redirect_host valid_port with_tls_port
  authority_of host none tls_addr =
      if not (valid_redirect_host host) then none else with_tls_port host tls_addr
  authority_of host (some port) tls_addr =
      if not (valid_redirect_host host)
      then none
      else if not (valid_port port)
      then none
      else some (net.join_host_port host port)

  -- `authorityWithTLSPort`; `none` is the error.
  unfoldable pub authority_with_tls_port : Bytes → Bytes → Option Bytes
  unfolding contains_any split_host_port_optional authority_of
  authority_with_tls_port host_or_authority tls_addr =
      if contains_any special host_or_authority
      then none
      else elim (split_host_port_optional host_or_authority) [
        | none ↦ none
        | some (host, port) ↦ authority_of host port tls_addr
      ]

  -- The hosts that stand for every interface.
  abbrev pub is_unspecific : Bytes → Bool
  is_unspecific host =
      is_empty host
      || (bytes_eq host (codes "0.0.0.0")
          || (bytes_eq host (codes "::") || bytes_eq host (codes "[::]")))

  -- `redirectAuthority`.
  unfoldable pub redirect_authority : Bytes → Bytes → Option Bytes
  unfolding authority_with_tls_port
  redirect_authority configured_host tls_addr =
      if not (is_empty configured_host)
      then authority_with_tls_port configured_host tls_addr
      else elim (net.split_host_port tls_addr) [
        | none ↦ none
        | some (h, p) ↦
            if is_unspecific (trim_space h)
            then none
            else authority_with_tls_port (trim_space h) tls_addr
      ]
