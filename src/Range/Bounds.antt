-- ===== src/Range/Bounds.antt =====
-- Every range that `parseRange` returns can be served.
use static_web.Prelude.{
  add_int64, gt_int64, ℕ, zero, suc, ◌+◌, ◌^◌, ◌≤◌, ◌<◌, List, [], ◌∷◌, ◌++◌, ◌≡◌, refl, Bytes, ◌⊎◌,
  arith, All, All-append, length, length-append, false, Bool-cases, codes, Option-cases, inl, inr,
  ltb,
}
use static_web.Strings.{is_empty, cut_at, strip, split, trim_space}
use static_web.Range.{
  HttpRange, ranges, Spec, bad, skip, keep, suffix_range, from_first, closed_range, first_range,
  spec_of, parse_spec, scan_specs, parse_range, max_ranges,
}

-- The range is not empty and ends inside the content.
abbrev pub InContent : ℕ → HttpRange → Type 0
InContent size r = (0 < r.length) × (r.start + r.length ≤ size)

abbrev pub total_length : List HttpRange → ℕ
total_length [] = 0
total_length (r ∷ rs) = r.length + total_length rs

pub total_length-append :
    (rs qs : List HttpRange) → total_length (rs ++ qs) ≡ total_length rs + total_length qs
total_length-append [] qs = omega arith
total_length-append (r ∷ rs) qs = omega (arith, total_length-append rs qs)

-- What a set of ranges has to satisfy to be served as partial content.
pub record IsServable (size : ℕ) (rs : List HttpRange) : Type 0 where
  pub inside : All (InContent size) rs
  pub some_range : 0 < length rs
  pub few : length rs ≤ max_ranges
  pub fits : total_length rs ≤ size

spec_of-InContent :
    (start end : Bytes) (size : ℕ) {r : HttpRange}
    → spec_of start end size ≡ keep r
    → InContent size r
unfolding spec_of suffix_range first_range from_first closed_range
spec_of-InContent start end size h = ground arith

parse_spec-InContent :
    (ra : Bytes) (size : ℕ) {r : HttpRange} → parse_spec ra size ≡ keep r → InContent size r
unfolding parse_spec
parse_spec-InContent ra size h = elim (Option-cases (cut_at b'-' ra)) [
  | inl e ↦ absurd (cc (rw (e, parse_spec) at h))
  | inr ((l, r), e) ↦ spec_of-InContent (trim_space l) (trim_space r) size (rw (e, parse_spec) at h)
]

-- The invariant of the loop, between two specifications.
record Loop (size specs total : ℕ) (out : List HttpRange) : Type 0 where
  inside : All (InContent size) out
  sum : total_length out ≡ total
  fits : total ≤ size
  few : length out ≤ specs
  capped : specs ≤ max_ranges

Loop-keep :
    {size specs total : ℕ} {out : List HttpRange} (r : HttpRange)
    → size < 2 ^ 62
    → specs < max_ranges
    → InContent size r
    → gt_int64 (add_int64 total r.length) size ≡ false
    → Loop size specs total out
    → Loop size (suc specs) (add_int64 total r.length) (out ++ r ∷ [])
Loop-keep {size} {specs} {total} {out} r small more inside ok l = record {
  inside = All-append (InContent size) out (r ∷ []) l.inside (inside, tt);
  sum = ground (arith, total_length-append out (r ∷ []));
  fits = ground arith;
  few = omega (arith, length-append out (r ∷ []));
  capped = omega arith;
}

Spec-cases : (s : Spec) → (s ≡ bad) ⊎ (s ≡ skip) ⊎ ((r : HttpRange) × (s ≡ keep r))
Spec-cases bad = inl refl
Spec-cases skip = inr (inl refl)
Spec-cases (keep r) = inr (inr (r, refl))

scan_specs-IsServable :
    (parts : List Bytes) (size specs total : ℕ) (out : List HttpRange) {rs : List HttpRange}
    → size < 2 ^ 62
    → Loop size specs total out
    → scan_specs parts size specs total out ≡ ranges rs
    → IsServable size rs
unfolding scan_specs
scan_specs-IsServable [] size zero total out small l h = absurd (cc)
scan_specs-IsServable [] size (suc specs) total [] small l h = absurd (cc)
scan_specs-IsServable [] size (suc specs) total (r ∷ rs) {rs = rs'} small l h =
    let e : (r ∷ rs) ≡ rs' = cc in
    let few = l.few in
    let fits = l.fits in
    let sum = l.sum in
    let capped = l.capped in
    let servable : IsServable size (r ∷ rs) = record {
      inside = l.inside;
      some_range = omega arith;
      few = omega arith;
      fits = omega arith;
    } in
    rw e at servable
scan_specs-IsServable (part ∷ parts) size specs total out small l h =
    let ra = trim_space part in
    elim (Bool-cases (is_empty ra)) [
      | inl e ↦ scan_specs-IsServable parts size specs total out small l (rw (e, scan_specs) at h)
      | inr e ↦ elim (Bool-cases (ltb max_ranges (specs + 1))) [
        | inl m ↦ absurd (cc (rw (e, m, scan_specs) at h))
        | inr m ↦ elim (Spec-cases (parse_spec ra size)) [
          | inl b ↦ absurd (cc (rw (e, m, b, scan_specs) at h))
          | inr (inl b) ↦
              scan_specs-IsServable parts size (suc specs) total out small
                (record {
                  inside = l.inside;
                  sum = l.sum;
                  fits = l.fits;
                  few = omega arith;
                  capped = ground arith;
                })
                (rw (e, m, b, scan_specs) at h)
          | inr (inr (r, b)) ↦ elim (Bool-cases (gt_int64 (add_int64 total r.length) size)) [
            | inl g ↦ absurd (cc (rw (e, m, b, g, scan_specs) at h))
            | inr g ↦
                scan_specs-IsServable parts size (suc specs) (add_int64 total r.length)
                  (out ++ r ∷ []) small
                  (Loop-keep r small (ground arith) (parse_spec-InContent ra size b) g l)
                  (rw (e, m, b, g, scan_specs) at h)
          ]
        ]
      ]
    ]

-- What parseRange returns for content below 2^62 bytes is between one and 16 ranges, each not
-- empty and inside the content, and together no longer than the content.
pub parse_range-IsServable :
    (s : Bytes) (size : ℕ) {rs : List HttpRange}
    → size < 2 ^ 62
    → parse_range s size ≡ ranges rs
    → IsServable size rs
unfolding parse_range
parse_range-IsServable s size small h = elim (Option-cases (strip (codes "bytes=") s)) [
  | inl e ↦ absurd (cc (rw (e, parse_range) at h))
  | inr (rest, e) ↦
      scan_specs-IsServable (split b',' rest) size 0 0 [] small
        (record {
          inside = tt;
          sum = refl;
          fits = omega arith;
          few = omega arith;
          capped = omega arith;
        })
        (rw (e, parse_range) at h)
]
