-- ===== src/Handler/Logging/Lines.antt =====
-- internal/handler/middleware.go: no line of the access log holds a control character.
use static_web.Prelude.{
  ℕ, ◌/◌, ◌%◌, ◌<◌, ℤ, pos, negsuc, true, false, [], ◌∷◌, ◌++◌, Bytes, ◌≡◌, refl, inl, inr, arith,
  All, All-append, All_map, Bool-cases, suc,
}
use static_web.Strconv.{format, format_int}
use static_web.Strconv.Laws.{IsDigit, format-IsDigit}
use static_web.Http.{Http, Request}
use static_web.Handler.Kinds.{hex_digit}
use static_web.Handler.Logging.{
  is_control, is_clean, escape, sanitize_for_log, format_access_log_line, logged_size, access_line,
}

-- No control character.
abbrev pub IsVisible : ℕ → Type 0
IsVisible c = is_control c ≡ false

abbrev pub IsClean : Bytes → Type 0
IsClean = All IsVisible

is_clean-IsClean : (s : Bytes) → is_clean s ≡ true → IsClean s
unfolding is_clean
is_clean-IsClean [] h = tt
is_clean-IsClean (c ∷ s) h = elim (Bool-cases (is_control c)) [
  | inl e ↦ absurd (cc (rw e at h))
  | inr e ↦ (e, is_clean-IsClean s (cc (rw e at h)))
]

IsClean-is_clean : (s : Bytes) → IsClean s → is_clean s ≡ true
unfolding is_clean
IsClean-is_clean [] h = refl
IsClean-is_clean (c ∷ s) (h, hs) = rw (h, is_clean) (IsClean-is_clean s hs)

hex_digit-IsVisible : (n : ℕ) → n < 16 → IsVisible (hex_digit n)
unfolding is_control
hex_digit-IsVisible n h = ground arith

hex_parts : (c : ℕ) → is_control c ≡ true → (c / 16 < 16) × (c % 16 < 16)
unfolding is_control
hex_parts c h = ground arith

escaped-IsClean :
    (c : ℕ) (s : Bytes)
    → is_control c ≡ true
    → IsClean s
    → IsClean (b'\\' ∷ b'x' ∷ hex_digit (c / 16) ∷ hex_digit (c % 16) ∷ s)
unfolding is_control
escaped-IsClean c s e h =
    let (a, b) = hex_parts c e in
    (refl, (refl, (hex_digit-IsVisible (c / 16) a, (hex_digit-IsVisible (c % 16) b, h))))

escape-IsClean : (s : Bytes) → IsClean (escape s)
unfolding escape
escape-IsClean [] = tt
escape-IsClean (c ∷ s) = elim (Bool-cases (is_control c)) [
  | inl e ↦ rw (e, escape) (escaped-IsClean c (escape s) e (escape-IsClean s))
  | inr e ↦ rw (e, escape) (e, escape-IsClean s)
]

pub sanitize_for_log-IsClean : (s : Bytes) → IsClean (sanitize_for_log s)
unfolding sanitize_for_log
sanitize_for_log-IsClean s = elim (Bool-cases (is_clean s)) [
  | inl e ↦ rw (e, sanitize_for_log) (is_clean-IsClean s e)
  | inr e ↦ rw (e, sanitize_for_log) (escape-IsClean s)
]

digit-IsVisible : (c : ℕ) → IsDigit c → IsVisible c
unfolding is_control
digit-IsVisible c h = ground arith

format_int-IsClean : (n : ℤ) → IsClean (format_int n)
unfolding format_int is_control
format_int-IsClean (pos n) = All_map IsDigit IsVisible digit-IsVisible (format n) (format-IsDigit n)
format_int-IsClean (negsuc n) =
    (refl, All_map IsDigit IsVisible digit-IsVisible (format (suc n)) (format-IsDigit (suc n)))

format-IsClean : (n : ℕ) → IsClean (format n)
format-IsClean n = All_map IsDigit IsVisible digit-IsVisible (format n) (format-IsDigit n)

-- Two texts with a blank between them.
spaced-IsClean : (s t : Bytes) → IsClean s → IsClean t → IsClean (s ++ b' ' ∷ t)
unfolding is_control
spaced-IsClean s t h k = All-append IsVisible s (b' ' ∷ t) h (refl, k)

module _ (format_duration : ℤ → Bytes) (http : Http) (method_text : Request → Bytes)
    (declared_length : http.Response → ℤ) where
  -- No control character is in a line of the access log, whatever URI is requested and whatever
  -- the response is, if there is none in the method and in the text of the duration.
  pub access_line-IsClean :
      (req : Request) (duration : ℤ) (r : http.Response)
      → IsClean (method_text req)
      → IsClean (format_duration duration)
      → IsClean (access_line format_duration http method_text declared_length req duration r)
  unfolding access_line format_access_log_line
  access_line-IsClean req duration r m d =
      let n = logged_size format_duration http method_text declared_length r in
      spaced-IsClean (method_text req) _ m (
        spaced-IsClean (sanitize_for_log req.request_uri) _
          (sanitize_for_log-IsClean req.request_uri)
          (spaced-IsClean (format (http.view r).status) _ (format-IsClean (http.view r).status)
            (spaced-IsClean (format_int n) _ (format_int-IsClean n) d)))
