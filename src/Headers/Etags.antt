-- ===== src/Headers/Etags.antt =====
-- `ETagMatches` against the list of entity tags that the header spells.
use static_web.Prelude.{
  ℕ, zero, suc, ◌<◌, ◌≡◌, ◌≢◌, refl, ap, ◌∙◌, Bool, false, ◌||◌, none, some, List, [], ◌∷◌, Bytes,
  length, arith, Bool-cases, Option-cases, inl, inr,
}
use static_web.Strings.{
  bytes_eq, is_empty, trim_prefix, cut_at, split, trim_space, trim_left, trim_right,
}
use static_web.Strings.Laws.{is_empty_iff}
use static_web.Strings.Cutting.{
  split-cut_at, cut_at-trim_left, length-cut_at, trimmed, parts_of, trim_left-cut,
}
use static_web.Headers.{next_token, weak_prefix, is_tag, match_tags, etag_matches}

-- Whether an element of the list, without the blanks round it, is the wanted tag.
pub any_tag : Bytes → List Bytes → Bool
any_tag want [] = false
any_tag want (part ∷ parts) = is_tag want (trim_left part) || any_tag want parts

match_tags-nil : (fuel : ℕ) (want : Bytes) → match_tags fuel want [] ≡ false
unfolding match_tags is_empty trim_left
match_tags-nil zero want = refl
match_tags-nil (suc fuel) want = refl

is_tag-nil : (want : Bytes) → want ≢ [] → is_tag want [] ≡ false
unfolding trim_prefix trim_right bytes_eq
is_tag-nil [] h = absurd (h refl)
is_tag-nil (c ∷ s) h = refl

next_token-none : (s : Bytes) → cut_at b',' s ≡ none → next_token s ≡ (s, [])
unfolding next_token
next_token-none s e = rw (e, next_token)

next_token-some : (s : Bytes) (p : Bytes × Bytes) → cut_at b',' s ≡ some p → next_token s ≡ p
unfolding next_token
next_token-some s p e = rw (e, next_token)

-- A round of the loop reads the element that the split gives first.
match_tags-any_tag :
    (fuel : ℕ) (want s : Bytes)
    → want ≢ []
    → length s < fuel
    → match_tags fuel want s ≡ any_tag want (split b',' s)
unfolding match_tags any_tag
match_tags-any_tag zero want s h f = absurd (omega arith)
match_tags-any_tag (suc fuel) want s h f = elim (Option-cases (cut_at b',' s)) [
  | inl n ↦
      let t = next_token-none (trim_left s) (cut_at-trim_left b',' s refl ∙ ap trimmed n) in
      let sp : split b',' s ≡ s ∷ [] = split-cut_at b',' s ∙ ap (parts_of b',' s) n in
      let nl = is_tag-nil want h in
      let mt = match_tags-nil fuel want in
      elim (Bool-cases (is_empty (trim_left s))) [
        | inl e ↦ ground (arith, sp, e, ap (is_tag want) ((is_empty_iff (trim_left s)).0 e), nl)
        | inr e ↦ ground (arith, sp, e, ap (λ p. p.0) t, ap (λ p. p.1) t, mt)
      ]
  | inr ((l, r), n) ↦
      let t =
        next_token-some (trim_left s) (trim_left l, r)
          (cut_at-trim_left b',' s refl ∙ ap trimmed n) in
      let sp : split b',' s ≡ l ∷ split b',' r = split-cut_at b',' s ∙ ap (parts_of b',' s) n in
      let ih = match_tags-any_tag fuel want r h (omega (arith, length-cut_at b',' s l r n)) in
      let e = trim_left-cut b',' s l r refl n in
      ground (arith, sp, e, ap (λ p. p.0) t, ap (λ p. p.1) t, ih)
]

-- For a tag that is not empty ETagMatches is: the header is a lone star, or some element of its
-- list is the tag, by weak comparison.
pub etag_matches-any_tag :
    (if_none_match etag : Bytes)
    → trim_prefix weak_prefix etag ≢ []
    → etag_matches if_none_match etag ≡ (
        bytes_eq (trim_space if_none_match) (b'*' ∷ [])
        || any_tag (trim_prefix weak_prefix etag) (split b',' if_none_match))
unfolding etag_matches
etag_matches-any_tag if_none_match etag h =
    rw
      (match_tags-any_tag (suc (length if_none_match)) (trim_prefix weak_prefix etag) if_none_match
        h (omega arith))
      (elim (Bool-cases (bytes_eq (trim_space if_none_match) (b'*' ∷ []))) [
        | inl e ↦ rw e refl
        | inr e ↦ rw e refl
      ])
