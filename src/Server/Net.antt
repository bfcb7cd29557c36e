-- ===== src/Server/Net.antt =====
-- The functions of Go's `net` package that the server calls.
use static_web.Prelude.{Bool, Option, Bytes}

pub record Net : Type 0 where
  -- `net.SplitHostPort`; `none` is an error.
  pub split_host_port : Bytes → Option (Bytes × Bytes)
  -- `net.JoinHostPort`.
  pub join_host_port : Bytes → Bytes → Bytes
  -- `net.ParseIP`: `none` is not an address, the flag is whether `To4` gives one.
  pub parse_ip : Bytes → Option Bool
