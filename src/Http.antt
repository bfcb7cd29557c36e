-- ===== src/Http.antt =====
-- What the server uses of github.com/valyala/fasthttp: a request is read, and a response is
-- written through operations that are described by what can be read back.
pub mod Plain
use static_web.Prelude.{ℕ, ◌≡◌, Bool, true, false, List, [], ◌∷◌, Bytes, codes, ◌==◌, if◌then◌else◌}

pub data Method : Type 0 where
  get head options other : Method

-- The request headers that the source reads.
pub data RequestHeader : Type 0 where
  accept_encoding if_modified_since if_none_match if_range origin range : RequestHeader

-- `ctx.Request.Header.Peek` gives the empty string for a header that is absent.
pub record Request : Type 0 where
  pub method : Method
  pub request_uri : Bytes
  pub path : Bytes
  pub header : RequestHeader → Bytes

-- The response headers that the source writes.
pub data HeaderName : Type 0 where
  etag last_modified cache_control vary content_type content_length content_encoding : HeaderName
  content_range accept_ranges x_cache allow content_type_options frame_options : HeaderName
  content_security_policy referrer_policy permissions_policy allow_origin : HeaderName
  allow_methods allow_headers max_age location strict_transport_security : HeaderName

abbrev pub number : HeaderName → ℕ
number etag = 0
number last_modified = 1
number cache_control = 2
number vary = 3
number content_type = 4
number content_length = 5
number content_encoding = 6
number content_range = 7
number accept_ranges = 8
number x_cache = 9
number allow = 10
number content_type_options = 11
number frame_options = 12
number content_security_policy = 13
number referrer_policy = 14
number permissions_policy = 15
number allow_origin = 16
number allow_methods = 17
number allow_headers = 18
number max_age = 19
number location = 20
number strict_transport_security = 21

abbrev pub same_name : HeaderName → HeaderName → Bool
same_name a b = number a == number b

-- A body in memory, or one that is streamed from a reader with a declared length.
pub data Body : Type 0 where
  bytes : Bytes → Body
  stream : Bytes → ℕ → Body

-- The values of each header, the status and the body.
pub record View : Type 0 where
  pub status : ℕ
  pub body : Body
  pub headers : HeaderName → List Bytes

abbrev pub with_header : HeaderName → List Bytes → View → View
with_header name values v = record v {
  headers = λ n. if same_name n name then values else v.headers n;
}

-- `ctx.Error` resets the response.
abbrev pub error_view : Bytes → ℕ → View
error_view message code = record {
  status = code;
  body = bytes message;
  headers = λ n. if same_name n content_type then codes "text/plain; charset=utf-8" ∷ [] else [];
}

-- `Peek`: the first value, or nothing.
abbrev pub first : List Bytes → Bytes
first [] = []
first (v ∷ vs) = v

pub record Http : Type 1 where
  pub Response : Type 0
  pub view : Response → View
  pub set_header : HeaderName → Bytes → Response → Response
  pub del_header : HeaderName → Response → Response
  pub set_status : ℕ → Response → Response
  pub set_body : Bytes → Response → Response
  -- `SetBodyStream`: what the reader gives, and the declared length.
  pub set_stream : Bytes → ℕ → Response → Response
  pub reset_body : Response → Response
  pub error : Bytes → ℕ → Response → Response
  pub view-set_header :
      (n : HeaderName) (v : Bytes) (r : Response)
      → view (set_header n v r) ≡ with_header n (v ∷ []) (view r)
  pub view-del_header :
      (n : HeaderName) (r : Response) → view (del_header n r) ≡ with_header n [] (view r)
  pub view-set_status :
      (c : ℕ) (r : Response) → view (set_status c r) ≡ record (view r) { status = c }
  pub view-set_body :
      (b : Bytes) (r : Response) → view (set_body b r) ≡ record (view r) { body = bytes b }
  pub view-set_stream :
      (b : Bytes) (n : ℕ) (r : Response)
      → view (set_stream b n r) ≡ record (view r) { body = stream b n }
  pub view-reset_body : (r : Response) → view (reset_body r) ≡ record (view r) { body = bytes [] }
  pub view-error : (m : Bytes) (c : ℕ) (r : Response) → view (error m c r) ≡ error_view m c
