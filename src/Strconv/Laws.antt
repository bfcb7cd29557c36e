-- ===== src/Strconv/Laws.antt =====
-- What `Strconv` prints is digits only, and is read back.
use static_web.Prelude.{
  ℕ, zero, suc, ◌+◌, ◌/◌, ◌%◌, ◌^◌, ◌≤◌, ◌<◌, pos, some, [], ◌∷◌, ◌≡◌, ◌≢◌, refl, arith, Bytes, All,
  ℤ, Option, none, Bool-cases, All_map, ==_iff, ◌==◌, ◌||◌, ltb, ◌*◌, ◌-◌, inl, inr,
}
use static_web.Strconv.{digits, format, scan, parse_nat, to_pos, to_neg, parse_int}
use mathlib.Core.List.{cons-ne-nil}

abbrev pub IsDigit : ℕ → Type 0
IsDigit c = (b'0' ≤ c) × (c ≤ b'9')

digits-IsDigit : (f n : ℕ) (out : Bytes) → All IsDigit out → All IsDigit (digits f n out)
unfolding digits
digits-IsDigit zero n out h = h
digits-IsDigit (suc f) n out h = ground (arith, digits-IsDigit f (n / 10) ((b'0' + n % 10) ∷ out))

pub format-IsDigit : (n : ℕ) → All IsDigit (format n)
unfolding format
format-IsDigit n = ground (arith, digits-IsDigit n n [] tt)

scan-digits : (f n : ℕ) (out : Bytes) → n ≤ f → scan (digits f n out) 0 ≡ scan out n
unfolding digits scan
scan-digits zero n out h = ground arith
scan-digits (suc f) n out h = ground (arith, scan-digits f (n / 10) ((b'0' + n % 10) ∷ out))

digits-ne-nil : (f n : ℕ) (out : Bytes) → out ≢ [] → digits f n out ≢ []
unfolding digits
digits-ne-nil zero n out h = h
digits-ne-nil (suc f) n out h =
    ground
      (arith, digits-ne-nil f (n / 10) ((b'0' + n % 10) ∷ out), cons-ne-nil (b'0' + n % 10) out)

pub format-ne-nil : (n : ℕ) → format n ≢ []
unfolding format digits
format-ne-nil zero = cons-ne-nil _ _
format-ne-nil (suc n) = ground (
  arith,
  digits-ne-nil n (suc n / 10) ((b'0' + suc n % 10) ∷ []),
  cons-ne-nil (b'0' + suc n % 10) [],
)

scan-format : (n : ℕ) → scan (format n) 0 ≡ some n
unfolding format scan
scan-format n = ground (arith, scan-digits n n [])

parse_int-scan : (s : Bytes) → s ≢ [] → All IsDigit s → parse_int s ≡ to_pos (scan s 0)
unfolding parse_int parse_nat
parse_int-scan [] h d = absurd (h refl)
parse_int-scan (c ∷ s) h d = ground arith

-- A number below 2^63 is read back from its decimal print.
pub parse_int-format : (n : ℕ) → n < 2 ^ 63 → parse_int (format n) ≡ some (pos n)
unfolding to_pos
parse_int-format n h =
    ground (arith, parse_int-scan (format n) (format-ne-nil n) (format-IsDigit n), scan-format n)

scan-IsDigit : (s : Bytes) (n m : ℕ) → scan s n ≡ some m → All IsDigit s
unfolding scan
scan-IsDigit [] n m h = tt
scan-IsDigit (c ∷ s) n m h = elim (Bool-cases (ltb c b'0' || ltb b'9' c)) [
  | inl e ↦ absurd (cc (rw e at h))
  | inr e ↦ (ground arith, scan-IsDigit s (n * 10 + (c - b'0')) m (cc (rw e at h)))
]

to_pos-some : (o : Option ℕ) (n : ℤ) → to_pos o ≡ some n → (m : ℕ) × (o ≡ some m)
unfolding to_pos
to_pos-some none n h = absurd (cc h)
to_pos-some (some m) n h = (m, refl)

to_neg-some : (o : Option ℕ) (n : ℤ) → to_neg o ≡ some n → (m : ℕ) × (o ≡ some m)
unfolding to_neg
to_neg-some none n h = absurd (cc h)
to_neg-some (some m) n h = (m, refl)

parse_nat-IsDigit : (s : Bytes) (m : ℕ) → parse_nat s ≡ some m → All IsDigit s
unfolding parse_nat
parse_nat-IsDigit [] m h = tt
parse_nat-IsDigit (c ∷ s) m h = scan-IsDigit (c ∷ s) 0 m h

-- What is read as a number has digits and a sign in front at most.
pub parse_int-All {ℓ} :
    (P : ℕ → Type ℓ) (s : Bytes) (n : ℤ)
    → P b'-'
    → P b'+'
    → ((c : ℕ) → IsDigit c → P c)
    → parse_int s ≡ some n
    → All P s
unfolding parse_int
parse_int-All P [] n minus plus digit h = tt
parse_int-All P (c ∷ s) n minus plus digit h = elim (Bool-cases (c == b'-')) [
  | inl e ↦
      let (m, o) = to_neg-some (parse_nat s) n (cc (rw e at h)) in
      (rw ((==_iff c b'-').0 e) minus, All_map IsDigit P digit s (parse_nat-IsDigit s m o))
  | inr e ↦ elim (Bool-cases (c == b'+')) [
    | inl f ↦
        let (m, o) = to_pos-some (parse_nat s) n (cc (rw (e, f) at h)) in
        (rw ((==_iff c b'+').0 f) plus, All_map IsDigit P digit s (parse_nat-IsDigit s m o))
    | inr f ↦
        let (m, o) = to_pos-some (parse_nat (c ∷ s)) n (cc (rw (e, f) at h)) in
        All_map IsDigit P digit (c ∷ s) (parse_nat-IsDigit (c ∷ s) m o)
  ]
]
