-- ===== src/Handler/Whole.antt =====
-- What `serveFromCache` sends where no range is asked for.
use static_web.Prelude.{
  ◌≡◌, refl, ap, true, Option, none, some, [], ◌∷◌, Bytes, codes, length, if◌then◌else◌, Bool-cases,
  Option-cases, inl, inr, ◌⊎◌,
}
use static_web.Strings.{is_empty}
use static_web.Strconv.{format}
use static_web.Platform.{Platform}
use static_web.Config.{Config}
use static_web.Http.{
  get, Http, Request, View, bytes, range, with_header, content_type, content_length,
}
use static_web.Cache.File.{CachedFile}
use static_web.Compress.{accepts_encoding}
use static_web.Handler.Serving.{
  variant, negotiate_encoding, length_text, serve_whole, serve_from_cache,
}

-- The bytes and the coding that are sent: the content as it is, or a variant that the file has in a
-- coding that the client accepts.
abbrev pub IsOffer : Platform → Request → CachedFile → Bytes × Bytes → Type 0
IsOffer os req f (content, coding) =
    ((content ≡ f.content) × (coding ≡ []))
    ⊎ ((f.br_data ≡ some content)
        × (coding ≡ codes "br")
        × (accepts_encoding os req (codes "br") ≡ true))
    ⊎ ((f.zstd_data ≡ some content)
        × (coding ≡ codes "zstd")
        × (accepts_encoding os req (codes "zstd") ≡ true))
    ⊎ ((f.gzip_data ≡ some content)
        × (coding ≡ codes "gzip")
        × (accepts_encoding os req (codes "gzip") ≡ true))

-- A file whose lengths are filled in, as `InitHeaders` does.
abbrev pub IsSized : CachedFile → Type 0
IsSized f = (f.size ≡ length f.content) × (f.cl_header ≡ format f.size)

module _ (os : Platform) where
  variant-some :
      (req : Request) (d : Option Bytes) (coding content k : Bytes)
      → variant os req d coding ≡ some (content, k)
      → (d ≡ some content) × (k ≡ coding) × (accepts_encoding os req coding ≡ true)
  variant-some req none coding content k e = absurd (cc)
  variant-some req (some c) coding content k e =
      elim (Bool-cases (accepts_encoding os req coding)) [
        | inl a ↦ let q = rw a at e in (cc, cc, a)
        | inr a ↦ absurd (cc (rw a at e))
      ]

  -- The negotiation offers the content itself or a variant that the client accepts.
  pub negotiate_encoding-IsOffer :
      (cfg : Config) (req : Request) (f : CachedFile)
      → IsOffer os req f (negotiate_encoding os cfg req f)
  unfolding negotiate_encoding
  negotiate_encoding-IsOffer cfg req f = elim (Bool-cases cfg.compression.enabled) [
    | inr off ↦ rw (off, negotiate_encoding) (inl (refl, refl))
    | inl on ↦ elim (Option-cases (variant os req f.br_data (codes "br"))) [
      | inr ((c, k), e) ↦
          rw (on, negotiate_encoding, e) (inr (inl (variant-some req f.br_data (codes "br") c k e)))
      | inl no_br ↦ elim (Option-cases (variant os req f.zstd_data (codes "zstd"))) [
        | inr ((c, k), e) ↦
            rw (on, negotiate_encoding, no_br, e)
              (inr (inr (inl (variant-some req f.zstd_data (codes "zstd") c k e))))
        | inl no_zstd ↦ elim (Option-cases (variant os req f.gzip_data (codes "gzip"))) [
          | inr ((c, k), e) ↦
              rw (on, negotiate_encoding, no_br, no_zstd, e)
                (inr (inr (inr (variant-some req f.gzip_data (codes "gzip") c k e))))
          | inl no_gzip ↦ rw (on, negotiate_encoding, no_br, no_zstd, no_gzip) (inl (refl, refl))
        ]
      ]
    ]
  ]

  length_text-IsOffer :
      (http : Http) (req : Request) (f : CachedFile) (content coding : Bytes)
      → IsSized f
      → IsOffer os req f (content, coding)
      → length_text os http f content coding ≡ format (length content)
  unfolding is_empty format
  length_text-IsOffer http req f content coding (size, text) (inl (c, k)) =
      rw (k, c)
        (elim (Bool-cases (is_empty f.cl_header)) [
          | inl e ↦ rw (e, size)
          | inr e ↦ rw (e, text, size)
        ])
  length_text-IsOffer http req f content coding s (inr (inl (d, k, a))) = rw k
  length_text-IsOffer http req f content coding s (inr (inr (inl (d, k, a)))) = rw k
  length_text-IsOffer http req f content coding s (inr (inr (inr (d, k, a)))) = rw k

-- The answer to a plain GET.
pub record IsWhole (os : Platform) (req : Request) (f : CachedFile) (v : View) : Type 0 where
  pub offer : Bytes × Bytes
  pub offered : IsOffer os req f offer
  pub status : v.status ≡ 200
  pub in_body : v.body ≡ bytes offer.0
  pub declared : v.headers content_length ≡ format (length offer.0) ∷ []

module _ (os : Platform) (http : Http) where
  open http use {Response, view, set_header, set_status, set_body}

  view-serve_whole :
      (req : Request) (f : CachedFile) (content coding : Bytes) (r : Response)
      → req.method ≡ get
      → view (serve_whole os http req f content coding r)
        ≡ record (with_header content_length (length_text os http f content coding ∷ []) (
            with_header content_type
              ((if is_empty f.ct_header then f.content_type else f.ct_header) ∷ [])
              (view r))) { status = 200; body = bytes content }
  view-serve_whole req f content coding r g =
      let media = if is_empty f.ct_header then f.content_type else f.ct_header in
      let a = set_header content_type media r in
      let b = set_header content_length (length_text os http f content coding) a in
      rw (
        g,
        http.view-set_body content (set_status 200 b),
        http.view-set_status 200 b,
        http.view-set_header content_length (length_text os http f content coding) a,
        http.view-set_header content_type media r,
      )

  -- A GET without a Range header gets 200 with the content or with a variant in a coding that the
  -- client accepts, and Content-Length is the length of just those bytes, for a file whose lengths
  -- are filled in.
  pub serve_from_cache-IsWhole :
      (cfg : Config) (req : Request) (boundary url_path : Bytes) (f : CachedFile) (r : Response)
      → req.method ≡ get
      → is_empty (req.header range) ≡ true
      → IsSized f
      → IsWhole os req f (view (serve_from_cache os http cfg req boundary url_path f r))
  unfolding serve_from_cache
  serve_from_cache-IsWhole cfg req boundary url_path f r g plain sized =
      let offer = negotiate_encoding os cfg req f in
      let offered = negotiate_encoding-IsOffer os cfg req f in
      let len = length_text-IsOffer os http req f offer.0 offer.1 sized offered in
      rw (plain, serve_from_cache, view-serve_whole req f offer.0 offer.1 _ g)
        (record {
          offer = offer;
          offered = offered;
          status = refl;
          in_body = refl;
          declared = ap (λ t. t ∷ []) len;
        })
