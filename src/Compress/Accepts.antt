-- ===== src/Compress/Accepts.antt =====
-- `AcceptsEncodingStr` against the list of codings that the header spells.
use static_web.Prelude.{
  ℕ, zero, suc, ◌<◌, ◌≡◌, refl, sym, ap, ◌∙◌, Bool, false, Option, none, some, List, [], ◌∷◌, Bytes,
  length, arith, Bool-cases, Option-cases, inl, inr,
}
use static_web.Strings.{trim_left, trim_right, is_empty, cut_at, split, equal_fold}
use static_web.Strings.Laws.{is_empty_iff}
use static_web.Strings.Cutting.{
  split-cut_at, length-cut_at, parts_of, cut_at-trim_left, trim_left-cut, trimmed,
}
use static_web.Platform.{Platform}
use static_web.Compress.{trim_left, before, judge, accept_loop, accepts_encoding_str}

before-none : (s : Bytes) → cut_at b',' s ≡ none → before b',' s ≡ (s, [])
before-none s e = rw (e, before)

before-some : (s : Bytes) (p : Bytes × Bytes) → cut_at b',' s ≡ some p → before b',' s ≡ p
before-some s p e = rw (e, before)

abbrev pub or_false : Option Bool → Bool
or_false none = false
or_false (some verdict) = verdict

module _ (os : Platform) where
  -- The verdict of the first element that is for the coding.
  pub verdict_of : Bytes → List Bytes → Option Bool
  verdict_of enc [] = none
  verdict_of enc (part ∷ parts) = elim (judge os enc (trim_left part)) [
    | some verdict ↦ some verdict
    | none ↦ verdict_of enc parts
  ]

  judge-nil : (enc : Bytes) → equal_fold [] enc ≡ false → judge os enc [] ≡ none
  unfolding cut_at trim_left trim_right
  judge-nil enc h = rw h

  accept_loop-nil : (fuel : ℕ) (enc : Bytes) → accept_loop os fuel [] enc ≡ false
  unfolding accept_loop is_empty trim_left
  accept_loop-nil zero enc = refl
  accept_loop-nil (suc fuel) enc = refl

  accept_loop-verdict_of :
      (fuel : ℕ) (enc s : Bytes)
      → equal_fold [] enc ≡ false
      → length s < fuel
      → accept_loop os fuel s enc ≡ or_false (verdict_of enc (split b',' s))
  unfolding accept_loop verdict_of
  accept_loop-verdict_of zero enc s h f = absurd (omega arith)
  accept_loop-verdict_of (suc fuel) enc s h f = elim (Option-cases (cut_at b',' s)) [
    | inl n ↦
        let t = before-none (trim_left s) (cut_at-trim_left b',' s refl ∙ ap trimmed n) in
        let sp : split b',' s ≡ s ∷ [] = split-cut_at b',' s ∙ ap (parts_of b',' s) n in
        elim (Bool-cases (is_empty (trim_left s))) [
          | inl e ↦
              let nil : trim_left s ≡ [] = (is_empty_iff (trim_left s)).0 e in
              rw (e, accept_loop, sp, verdict_of, nil, judge-nil enc h)
          | inr e ↦ elim (Option-cases (judge os enc (trim_left s))) [
            | inl j ↦
                rw (e, accept_loop, sp, verdict_of, ap (λ p. p.0) t, j)
                  (ap (λ p. accept_loop os fuel p.1 enc) t ∙ accept_loop-nil fuel enc)
            | inr (v, j) ↦ rw (e, accept_loop, sp, verdict_of, ap (λ p. p.0) t, j)
          ]
        ]
    | inr ((l, r), n) ↦
        let t =
          before-some (trim_left s) (trim_left l, r)
            (cut_at-trim_left b',' s refl ∙ ap trimmed n) in
        let sp : split b',' s ≡ l ∷ split b',' r = split-cut_at b',' s ∙ ap (parts_of b',' s) n in
        let ih = accept_loop-verdict_of fuel enc r h (omega (arith, length-cut_at b',' s l r n)) in
        let e = trim_left-cut b',' s l r refl n in
        elim (Option-cases (judge os enc (trim_left l))) [
          | inl j ↦
              rw (e, accept_loop, sp, verdict_of, ap (λ p. p.0) t, j)
                (ap (λ p. accept_loop os fuel p.1 enc) t ∙ ih)
          | inr (v, j) ↦ rw (e, accept_loop, sp, verdict_of, ap (λ p. p.0) t, j)
        ]
  ]

  -- For a coding that is not empty AcceptsEncodingStr is the verdict of the first element of the
  -- comma-separated list that names the coding, and false where no element does.
  pub accepts_encoding_str-verdict_of :
      (header enc : Bytes)
      → equal_fold [] enc ≡ false
      → accepts_encoding_str os header enc ≡ or_false (verdict_of enc (split b',' header))
  unfolding accepts_encoding_str
  accepts_encoding_str-verdict_of header enc h =
      let loop = accept_loop-verdict_of (suc (length header)) enc header h (omega arith) in
      elim (Bool-cases (is_empty header)) [
        | inl e ↦
            let nil : header ≡ [] = (is_empty_iff header).0 e in
            rw (e, accepts_encoding_str)
              (sym (accept_loop-nil (suc (length header)) enc)
                ∙ ap (λ x. accept_loop os (suc (length header)) x enc) (sym nil)
                ∙ loop)
        | inr e ↦ rw (e, accepts_encoding_str) loop
      ]
