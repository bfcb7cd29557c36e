-- ===== src/Server/Listening.antt =====
-- internal/server/server.go: `Start` up to the serve loops, and `Shutdown`. The sockets that are open
-- are a list of their addresses with the network.
pub mod Sockets
use static_web.Prelude.{
  ℕ, Bool, true, false, not, ◌&&◌, ◌||◌, Option, none, some, List, [], ◌∷◌, ◌++◌, Bytes, codes,
  if◌then◌else◌,
}
use static_web.Strings.{bytes_eq, is_empty}
use static_web.Config.{ServerConfig}
use static_web.Server.Net.{Net}

-- `"tcp4"` and `"tcp"`.
pub data Network : Type 0 where
  tcp4 tcp : Network

-- `listenNetwork`.
unfoldable pub listen_network : Net → Bytes → Network
listen_network net addr = elim (net.split_host_port addr) [
  | none ↦ tcp4
  | some (host, port) ↦
      if is_empty host
      then tcp4
      else elim (net.parse_ip host) [ none ↦ tcp | some four ↦ if four then tcp4 else tcp ]
]

abbrev pub Socket : Type 0
Socket = Network × Bytes

-- What `Start` fails with.
pub data StartError : Type 0 where
  bad_key_pair http_listen https_listen : StartError

-- `Server`, as far as `Start` and `Shutdown` read and write it.
pub record State : Type 0 where
  pub http_addr : Bytes
  pub tls_addr : Bytes
  pub has_https : Bool
  pub http_listener : Option Socket
  pub https_listener : Option Socket
  pub stopping : Bool

-- `New`, as far as the addresses go: HTTPS needs both the certificate and the key.
unfoldable pub new : ServerConfig → State
new cfg = record {
  http_addr = cfg.addr;
  tls_addr = cfg.tls_addr;
  has_https = not (is_empty cfg.tls_cert) && not (is_empty cfg.tls_key);
  http_listener = none;
  https_listener = none;
  stopping = false;
}

-- `key_pair` is whether `loadKeyPair` succeeds; `bind` is whether a socket can be opened while the
-- others are open.
module _ (net : Net) (key_pair : Bool) (bind : Socket → List Socket → Bool) where
  abbrev pub socket : Bytes → Socket
  socket addr = (listen_network net addr, addr)

  -- Behind the HTTP listener: with HTTPS the second one, or the first one is closed again.
  unfoldable pub start_https : State → List Socket → Option StartError × State × List Socket
  unfolding listen_network
  start_https s sockets =
      let http = socket s.http_addr in
      let https = socket s.tls_addr in
      if not s.has_https
      then (none, record s { http_listener = some http; https_listener = none }, http ∷ sockets)
      else if bind https (http ∷ sockets)
      then (
        none,
        record s { http_listener = some http; https_listener = some https },
        https ∷ http ∷ sockets,
      )
      else (some https_listen, s, sockets)

  -- `Start`: the error, the server, and the sockets that are open afterwards.
  unfoldable pub start : State → List Socket → Option StartError × State × List Socket
  unfolding start_https
  start s sockets =
      if s.has_https && not key_pair
      then (some bad_key_pair, s, sockets)
      else if bind (socket s.http_addr) sockets
      then start_https s sockets
      else (some http_listen, s, sockets)

-- Which server did not shut down cleanly.
pub data ShutdownError : Type 0 where
  http_shutdown https_shutdown : ShutdownError

-- The errors of `Shutdown` in the order in which the two goroutines append them: `https_first` is the
-- scheduler's choice.
unfoldable pub shutdown_errors : Bool → Bool → Bool → List ShutdownError
shutdown_errors https_first http_fails https_fails =
    let one = if http_fails then http_shutdown ∷ [] else [] in
    let two = if https_fails then https_shutdown ∷ [] else [] in
    if https_first then two ++ one else one ++ two

abbrev pub first_error : List ShutdownError → Option ShutdownError
first_error [] = none
first_error (e ∷ es) = some e

-- `Shutdown`: the error and the server.
unfoldable pub shutdown : Bool → Bool → Bool → State → Option ShutdownError × State
unfolding shutdown_errors
shutdown https_first http_fails https_fails s = (
  first_error (shutdown_errors https_first http_fails (s.has_https && https_fails)),
  record s { stopping = true },
)
