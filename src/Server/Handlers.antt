-- ===== src/Server/Handlers.antt =====
-- internal/server/server.go: the handlers that `New` makes for HTTP and HTTPS.
use static_web.Prelude.{
  ℕ, pos, not, ◌&&◌, Option, none, some, [], ◌++◌, Bytes, codes, if◌then◌else◌, lt_int,
}
use static_web.Strings.{is_empty}
use static_web.Strconv.{format_int}
use static_web.Config.{ServerConfig, SecurityConfig}
use static_web.Http.{Http, Request, strict_transport_security}
use static_web.Server.Net.{Net}
use static_web.Server.Redirect.{redirect_authority}

-- The value of Strict-Transport-Security, if it is sent.
unfoldable pub hsts_value : SecurityConfig → Option Bytes
hsts_value sec =
    if lt_int (pos 0) sec.hsts_max_age
    then some (
        codes "max-age="
        ++ (format_int sec.hsts_max_age
            ++ (if sec.hsts_include_subdomains then codes "; includeSubDomains" else [])))
    else none

-- `url_text` is the URL of the scheme https, the given host, and the path and query of the request,
-- as `url.URL.String` writes it; `redirect` is what `ctx.Redirect` does with it.
module _ (net : Net) (http : Http) (url_text : Bytes → Request → Bytes) where
  open http use {Response, set_header, error}

  -- The handler of plain HTTP where TLS is configured.
  unfoldable pub redirect_to_https :
      (Bytes → ℕ → Response → Response) → ServerConfig → Request → Response → Response
  redirect_to_https redirect cfg req r =
      elim (redirect_authority net cfg.redirect_host cfg.tls_addr) [
        | none ↦ error (codes "Bad Request: invalid redirect host") 400 r
        | some host ↦ redirect (url_text host req) 301 r
      ]

  -- The handler of HTTP. The handler behind has a state of its own.
  unfoldable pub http_handler :
      {S : Type 0}
      → (Bytes → ℕ → Response → Response)
      → ServerConfig
      → (Request → S → Response → S × Response)
      → Request
      → S
      → Response
      → S × Response
  unfolding redirect_to_https
  http_handler redirect cfg handler req s r =
      if not (is_empty cfg.tls_cert) && not (is_empty cfg.tls_key)
      then (s, redirect_to_https redirect cfg req r)
      else handler req s r

  -- The handler of HTTPS.
  unfoldable pub https_handler :
      {S : Type 0}
      → SecurityConfig
      → (Request → S → Response → S × Response)
      → Request
      → S
      → Response
      → S × Response
  unfolding hsts_value
  https_handler sec handler req s r = elim (hsts_value sec) [
    | none ↦ handler req s r
    | some value ↦ handler req s (set_header strict_transport_security value r)
  ]
