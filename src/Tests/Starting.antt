-- ===== src/Tests/Starting.antt =====
-- The server: internal/server.
use static_web.Prelude.{
  ℕ, ◌≡◌, refl, sym, ap, Bool, true, false, none, some, List, [], ◌∷◌, ◌++◌, Bytes, codes, ◌==◌,
  if◌then◌else◌, Bool-cases, Option-cases, inl, inr, ==_iff, map, pos,
}
use static_web.Strings.{
  bytes_eq, contains_byte, cut_at, is_empty, trim_space, has_prefix, trim_prefix, split,
  ends_with_byte,
}
use static_web.Config.{Config, defaults}
use static_web.Server.Net.{Net}
use static_web.Server.Redirect.{host_for_url, redirect_authority, trim_suffix_byte}
use static_web.Server.Redirect.Safety.{IsPlainHost, redirect_authority-IsPlainHost}
use static_web.Server.Listening.{State, Socket, start}
use static_web.Server.Listening.Sockets.{AllOrNothing, start-AllOrNothing}
use static_web.Server.Signals.{sigterm, sigint, sighup, Shared, run}
use static_web.Server.Signals.Steps.{
  TimesOut, latest, without_failed, run-latest, run-without_failed,
}
use static_web.Tests.Caching.{store, path_store}

-- A network without IPv6 and without addresses.
abbrev pub net : Net
net = record {
  split_host_port = λ s. cut_at b':' s;
  join_host_port = λ h p. (if contains_byte b':' h then b'[' ∷ h ++ b']' ∷ [] else h) ++ b':' ∷ p;
  parse_ip = λ s. none;
}

net_joined : (h p : Bytes) → net.join_host_port h p ≡ host_for_url net h ++ b':' ∷ p
unfolding host_for_url
net_joined h p = refl

cut_at-parts : (b : ℕ) (s l r : Bytes) → cut_at b s ≡ some (l, r) → s ≡ l ++ b ∷ r
unfolding cut_at
cut_at-parts b [] l r h = absurd (cc h)
cut_at-parts b (c ∷ s) l r h = elim (Bool-cases (c == b)) [
  | inl e ↦
      let a : [] ≡ l = cc (rw (e, cut_at) at h) in
      let d : s ≡ r = cc (rw (e, cut_at) at h) in rw (sym a, sym d, (==_iff c b).0 e) refl
  | inr e ↦ elim (Option-cases (cut_at b s)) [
    | inl o ↦ absurd (cc (rw (e, o, cut_at) at h))
    | inr ((l', r'), o) ↦
        let a : c ∷ l' ≡ l = cc (rw (e, o, cut_at) at h) in
        let d : r' ≡ r = cc (rw (e, o, cut_at) at h) in
        rw (sym a, sym d) (ap (◌∷◌ c) (cut_at-parts b s l' r' o))
  ]
]

net_parts :
    (s h p : Bytes)
    → net.split_host_port s ≡ some (h, p)
    → (l : Bytes) × (m : Bytes) × (s ≡ l ++ (h ++ (m ++ p)))
net_parts s h p e = ([], b':' ∷ [], cut_at-parts b':' s h p e)

redirected :
    redirect_authority net (codes "www.example.org") (codes ":8443")
    ≡ some (codes "www.example.org:8443")
unfolding redirect_authority is_empty contains_byte trim_space cut_at has_prefix trim_suffix_byte
    trim_prefix split ends_with_byte bytes_eq
redirected = refl

plain_addr : IsPlainHost (codes ":8443")
unfolding contains_byte
plain_addr = (refl, (refl, (refl, (refl, (refl, tt)))))

redirect_authority-IsPlainHost_example : IsPlainHost (codes "www.example.org:8443")
redirect_authority-IsPlainHost_example =
    redirect_authority-IsPlainHost net net_joined net_parts (codes "www.example.org")
      (codes ":8443") (codes "www.example.org:8443") plain_addr redirected

abbrev idle : State
idle = record {
  http_addr = codes ":8080";
  tls_addr = codes ":8443";
  has_https = true;
  http_listener = none;
  https_listener = none;
  stopping = false;
}

-- Only one socket can be opened.
abbrev bind_one : Socket → List Socket → Bool
bind_one s [] = true
bind_one s (t ∷ ts) = false

start-AllOrNothing_example : AllOrNothing idle [] (start net true bind_one idle [])
start-AllOrNothing_example = start-AllOrNothing net true bind_one idle []

abbrev slow : Config
slow = record defaults { server = record (defaults.server) { shutdown_timeout = pos 99 } }

abbrev shared : Shared store path_store
shared = record { cfg = defaults; cache = none; path_cache = none }

run-latest_example : TimesOut store path_store (latest defaults (none ∷ some slow ∷ none ∷ [])) (
    run store path_store true
      (map sighup (none ∷ some slow ∷ none ∷ []) ++ sigterm ∷ sighup none ∷ [])
      shared)
run-latest_example =
    run-latest store path_store (none ∷ some slow ∷ none ∷ []) (sighup none ∷ []) shared

run-without_failed_example :
    run store path_store true (sighup none ∷ sighup (some slow) ∷ sigint ∷ []) shared
    ≡ run store path_store true
        (without_failed (sighup none ∷ sighup (some slow) ∷ sigint ∷ []))
        shared
run-without_failed_example =
    run-without_failed store path_store (sighup none ∷ sighup (some slow) ∷ sigint ∷ []) shared
