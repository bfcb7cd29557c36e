-- ===== src/Handler/Logging.antt =====
-- internal/handler/middleware.go: the access log and the recovery from a panic.
pub mod Lines
use static_web.Prelude.{
  ℕ, ◌/◌, ◌%◌, ℤ, pos, negsuc, Bool, true, false, ◌||◌, Option, none, some, List, [], ◌∷◌, ◌++◌,
  Bytes, codes, ◌==◌, if◌then◌else◌, length, ltb,
}
use static_web.Strconv.{format, format_int}
use static_web.Http.{Method, get, head, options, other, Http, Request, Body, bytes, stream}
use static_web.Handler.Kinds.{hex_digit}

unfoldable pub is_control : ℕ → Bool
is_control c = ltb c 0x20 || (c == 0x7F)

unfoldable pub is_clean : Bytes → Bool
unfolding is_control
is_clean [] = true
is_clean (c ∷ s) = if is_control c then false else is_clean s

-- The second loop of `sanitizeForLog`.
unfoldable pub escape : Bytes → Bytes
unfolding is_control
escape [] = []
escape (c ∷ s) =
    let rest = escape s in
    if is_control c then b'\\' ∷ b'x' ∷ hex_digit (c / 16) ∷ hex_digit (c % 16) ∷ rest else c ∷ rest

-- `sanitizeForLog`.
unfoldable pub sanitize_for_log : Bytes → Bytes
unfolding is_clean escape
sanitize_for_log s = if is_clean s then s else escape s

-- How a handler ends: it returns, or it panics with the state and the response so far.
pub data Outcome (S R : Type 0) : Type 0 where
  done : S → R → Outcome S R
  panicked : S → R → Outcome S R

-- `format_duration` is `duration.Round(time.Microsecond).String()`.
module _ (format_duration : ℤ → Bytes) where
  -- `formatAccessLogLine`.
  unfoldable pub format_access_log_line : Bytes → Bytes → ℕ → ℤ → ℤ → Bytes
  format_access_log_line method uri status size duration =
      method
      ++ (b' ' ∷ uri
          ++ (b' ' ∷ format status
              ++ (b' ' ∷ format_int size ++ (b' ' ∷ format_duration duration))))

  -- `method_text` is `ctx.Method()` and `declared_length` is `ctx.Response.Header.ContentLength()`.
  module _ (http : Http) (method_text : Request → Bytes) (declared_length : http.Response → ℤ) where
    open http use {Response, view, error}

    -- `len(ctx.Response.Body())`: what a stream gives is read.
    abbrev pub body_length : Body → ℕ
    body_length (bytes b) = length b
    body_length (stream b n) = length b

    unfoldable pub logged_size : Response → ℤ
    logged_size r = elim (declared_length r) [
      | pos n ↦ pos n
      | negsuc n ↦ pos (body_length (view r).body)
    ]

    -- The line of one request.
    unfoldable pub access_line : Request → ℤ → Response → Bytes
    unfolding sanitize_for_log format_access_log_line logged_size
    access_line req duration r =
        format_access_log_line (method_text req) (sanitize_for_log req.request_uri) (view r).status
          (logged_size r) duration

    -- `loggingMiddlewareWithWriter`. The log is the lines, the last first; a panic passes it by.
    unfoldable pub with_logging :
        {S : Type 0}
        → (Request → S → Response → Outcome S Response)
        → ℤ
        → Request
        → List Bytes × S
        → Response
        → Outcome (List Bytes × S) Response
    unfolding access_line
    with_logging next duration req (lines, s) r = elim (next req s r) [
      | done s' r' ↦ done (access_line req duration r' ∷ lines, s') r'
      | panicked s' r' ↦ panicked (lines, s') r'
    ]

-- `recoveryMiddleware`.
module _ (http : Http) where
  unfoldable pub with_recovery :
      {S : Type 0}
      → (Request → S → http.Response → Outcome S http.Response)
      → Request
      → S
      → http.Response
      → S × http.Response
  with_recovery next req s r = elim (next req s r) [
    | done s' r' ↦ (s', r')
    | panicked s' r' ↦ (s', http.error (codes "Internal Server Error") 500 r')
  ]
