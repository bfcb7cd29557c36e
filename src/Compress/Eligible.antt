-- ===== src/Compress/Eligible.antt =====
-- What the compression middleware does to a response.
use static_web.Prelude.{
  ◌≡◌, refl, true, [], ◌∷◌, Bytes, codes, ◌==◌, length, arith, Bool-cases, inl, inr, ◌⊎◌,
}
use static_web.Strings.{is_empty}
use static_web.Platform.{Platform}
use static_web.Config.{CompressionConfig}
use static_web.Http.{
  Http, View, Body, bytes, stream, first, with_header, content_range, content_encoding,
  content_type, content_length,
}
use static_web.Compress.{is_compressible}
use static_web.Compress.Gzip.{gzip_level, is_bodiless, length_fits, compress_body, post_process}

-- What has to hold of a response for its body to be compressed.
pub record IsEligible (cfg : CompressionConfig) (v : View) (content : Bytes) : Type 0 where
  pub status : v.status ≡ 200
  pub whole : is_empty (first (v.headers content_range)) ≡ true
  pub in_body : v.body ≡ bytes content
  pub uncoded : is_empty (first (v.headers content_encoding)) ≡ true
  pub media : is_compressible (first (v.headers content_type)) ≡ true
  pub fits : length_fits cfg (length content) ≡ true

-- The response with its body compressed: one coding is added, and the length goes.
abbrev pub compressed_view : Platform → CompressionConfig → Bytes → View → View
compressed_view os cfg content v =
    record (with_header content_length [] (with_header content_encoding (codes "gzip" ∷ []) v)) {
      body = bytes (os.gzip (gzip_level cfg.level) content);
    }

module _ (os : Platform) (http : Http) where
  open http use {Response, view, set_header, del_header}

  view-compress_body :
      (cfg : CompressionConfig) (content : Bytes) (r : Response)
      → view (compress_body os http cfg content r) ≡ compressed_view os cfg content (view r)
  view-compress_body cfg content r =
      let a = set_header content_encoding (codes "gzip") r in
      let b = del_header content_length a in
      rw (
        http.view-set_body (os.gzip (gzip_level cfg.level) content) b,
        http.view-del_header content_length a,
        http.view-set_header content_encoding (codes "gzip") r,
      )

  -- The compression middleware leaves a response alone, or it was a complete, uncoded 200 of a
  -- compressible type and of a size between the limits, and then its body is the gzip of what it
  -- was, with the coding named and no length left.
  pub post_process_cases :
      (cfg : CompressionConfig) (r : Response)
      → (post_process os http cfg r ≡ r)
        ⊎ ((content : Bytes) × IsEligible cfg (view r) content
            × (view (post_process os http cfg r) ≡ compressed_view os cfg content (view r)))
  unfolding post_process
  post_process_cases cfg r = go (view r).body refl
    where
      v : View
      v = view r

      go :
          (b : Body)
          → v.body ≡ b
          → (post_process os http cfg r ≡ r)
            ⊎ ((content : Bytes) × IsEligible cfg v content
                × (view (post_process os http cfg r) ≡ compressed_view os cfg content v))
      go (stream content n) e = inl (ground (arith, e))
      go (bytes content) e = elim (Bool-cases (is_bodiless v.status)) [
        | inl a ↦ inl (rw (a, post_process))
        | inr a ↦ elim (Bool-cases (v.status == 200)) [
          | inr b ↦ inl (rw (a, b, post_process))
          | inl b ↦ elim (Bool-cases (is_empty (first (v.headers content_range)))) [
            | inr c ↦ inl (rw (a, b, c, post_process))
            | inl c ↦ elim (Bool-cases (is_empty (first (v.headers content_encoding)))) [
              | inr d ↦ inl (rw (a, b, c, e, d, post_process))
              | inl d ↦ elim (Bool-cases (is_compressible (first (v.headers content_type)))) [
                | inr m ↦ inl (rw (a, b, c, e, d, m, post_process))
                | inl m ↦ elim (Bool-cases (length_fits cfg (length content))) [
                  | inr f ↦ inl (rw (a, b, c, e, d, m, f, post_process))
                  | inl f ↦ inr (
                    content,
                    record {
                      status = ground arith;
                      whole = c;
                      in_body = e;
                      uncoded = d;
                      media = m;
                      fits = f;
                    },
                    rw (a, b, c, e, d, m, f, post_process) (view-compress_body cfg content r),
                  )
                ]
              ]
            ]
          ]
        ]
      ]
