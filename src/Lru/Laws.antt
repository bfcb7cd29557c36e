-- ===== src/Lru/Laws.antt =====
-- Laws of the entries of a store: what a lookup finds after an erasure, a cut or a touch.
use Prim.Native.Nat.{min}
use static_web.Prelude.{
  ℕ, zero, suc, ◌-◌, ◌+◌, ◌≤◌, ◌<◌, ◌≡◌, ◌≢◌, refl, none, some, List, [], ◌∷◌, ◌++◌, Bytes, length,
  take, drop, arith, Bool-cases, Option-cases, inl, inr, ap, sym,
}
use static_web.Strings.{bytes_eq}
use static_web.Strings.Laws.{bytes_eq_iff, bytes_eq_self, ne_of_bytes_eq}
use static_web.Lru.{find, erase, touch}

module _ {V : Type 0} where
  pub erase_absent : (k : Bytes) (l : List (Bytes × V)) → find k l ≡ none → erase k l ≡ l
  unfolding find erase
  erase_absent k [] h = refl
  erase_absent k ((j, v) ∷ l) h = ground (arith, erase_absent k l)

  pub find-erase_ne : (k q : Bytes) (l : List (Bytes × V)) → q ≢ k → find q (erase k l) ≡ find q l
  unfolding find erase
  find-erase_ne k q [] h = refl
  find-erase_ne k q ((j, v) ∷ l) h =
      ground (arith, find-erase_ne k q l, bytes_eq_iff j k, bytes_eq_iff j q)

  find-front :
      (k q : Bytes) (v : V) (l : List (Bytes × V))
      → find k l ≡ some v
      → find q ((k, v) ∷ erase k l) ≡ find q l
  unfolding find
  find-front k q v l h = elim (Bool-cases (bytes_eq k q)) [
    | inl e ↦ rw (e, ← (bytes_eq_iff k q).0 e, h)
    | inr e ↦ rw e (find-erase_ne k q l (λ p. ne_of_bytes_eq k q e (sym p)))
  ]

  -- A use moves an entry and changes nothing that can be read.
  pub find-touch : (k q : Bytes) (l : List (Bytes × V)) → find q (touch k l) ≡ find q l
  find-touch k q l = elim (Option-cases (find k l)) [
    | inl e ↦ rw (e, touch)
    | inr (v, e) ↦ rw (e, touch) (find-front k q v l e)
  ]

  pub find-take_absent :
      (k : Bytes) (n : ℕ) (l : List (Bytes × V)) → find k l ≡ none → find k (take n l) ≡ none
  unfolding find
  find-take_absent k zero l h = refl
  find-take_absent k (suc n) [] h = refl
  find-take_absent k (suc n) ((j, v) ∷ l) h = ground (arith, find-take_absent k n l)

  pub take-take : (m n : ℕ) (l : List (Bytes × V)) → take m (take n l) ≡ take (min m n) l
  take-take zero n l = let e : min 0 n ≡ 0 = omega arith in rw e
  take-take (suc m) zero l = let e : min (suc m) 0 ≡ 0 = omega arith in rw e
  take-take (suc m) (suc n) [] = let e : min (suc m) (suc n) ≡ suc (min m n) = omega arith in rw e
  take-take (suc m) (suc n) (x ∷ l) =
      let e : min (suc m) (suc n) ≡ suc (min m n) = omega arith in
      rw e (ap (◌∷◌ x) (take-take m n l))

  pub take_pos :
      (n : ℕ) (x : Bytes × V) (l : List (Bytes × V)) → 0 < n → take n (x ∷ l) ≡ x ∷ take (n - 1) l
  take_pos zero x l h = absurd (omega arith)
  take_pos (suc n) x l h = let e : suc n - 1 ≡ n = omega arith in rw e

  pub drop_pos :
      (n : ℕ) (x : Bytes × V) (l : List (Bytes × V)) → 0 < n → drop n (x ∷ l) ≡ drop (n - 1) l
  drop_pos zero x l h = absurd (omega arith)
  drop_pos (suc n) x l h = let e : suc n - 1 ≡ n = omega arith in rw e

  pub take_of_length-le : (n : ℕ) (l : List (Bytes × V)) → length l ≤ n → take n l ≡ l
  take_of_length-le zero [] h = refl
  take_of_length-le zero (x ∷ l) h = absurd (omega arith)
  take_of_length-le (suc n) [] h = refl
  take_of_length-le (suc n) (x ∷ l) h = ap (◌∷◌ x) (take_of_length-le n l (omega arith))

  pub drop_of_length-le : (n : ℕ) (l : List (Bytes × V)) → length l ≤ n → drop n l ≡ []
  drop_of_length-le zero [] h = refl
  drop_of_length-le zero (x ∷ l) h = absurd (omega arith)
  drop_of_length-le (suc n) [] h = refl
  drop_of_length-le (suc n) (x ∷ l) h = drop_of_length-le n l (omega arith)

  pub find-append_last :
      (k : Bytes) (v : V) (l : List (Bytes × V))
      → find k l ≡ none
      → find k (l ++ (k, v) ∷ []) ≡ some v
  unfolding find
  find-append_last k v [] h = ground (arith, bytes_eq_self k)
  find-append_last k v ((j, w) ∷ l) h = ground (arith, find-append_last k v l)

  pub take_length : (l : List (Bytes × V)) → take (length l) l ≡ l
  take_length [] = refl
  take_length (x ∷ l) = ap (◌∷◌ x) (take_length l)

  -- An entry at the front is found, if the store holds any entry at all.
  pub find-take_front :
      (k : Bytes) (v : V) (n : ℕ) (l : List (Bytes × V))
      → 0 < n
      → find k (take n ((k, v) ∷ l)) ≡ some v
  unfolding find
  find-take_front k v zero l h = absurd (omega arith)
  find-take_front k v (suc n) l h = ground (arith, bytes_eq_self k)

  -- No key occurs twice.
  abbrev pub Distinct : List (Bytes × V) → Type 0
  Distinct [] = Unit
  Distinct ((k, v) ∷ l) = (find k l ≡ none) × Distinct l

  pub find-erase_absent :
      (k q : Bytes) (l : List (Bytes × V)) → find q l ≡ none → find q (erase k l) ≡ none
  unfolding find erase
  find-erase_absent k q [] h = refl
  find-erase_absent k q ((j, v) ∷ l) h = ground (arith, find-erase_absent k q l)

  pub find-erase_self : (k : Bytes) (l : List (Bytes × V)) → Distinct l → find k (erase k l) ≡ none
  unfolding find erase
  find-erase_self k [] d = refl
  find-erase_self k ((j, v) ∷ l) d = elim (Bool-cases (bytes_eq j k)) [
    | inl e ↦ rw e (rw (← (bytes_eq_iff j k).0 e) d.0)
    | inr e ↦ rw (e, e) (find-erase_self k l d.1)
  ]

  pub erase-Distinct : (k : Bytes) (l : List (Bytes × V)) → Distinct l → Distinct (erase k l)
  unfolding erase
  erase-Distinct k [] d = tt
  erase-Distinct k ((j, v) ∷ l) d = elim (Bool-cases (bytes_eq j k)) [
    | inl e ↦ rw e d.1
    | inr e ↦ rw e (find-erase_absent k j l d.0, erase-Distinct k l d.1)
  ]

  pub take-Distinct : (n : ℕ) (l : List (Bytes × V)) → Distinct l → Distinct (take n l)
  take-Distinct zero l d = tt
  take-Distinct (suc n) [] d = tt
  take-Distinct (suc n) ((k, v) ∷ l) d = (find-take_absent k n l d.0, take-Distinct n l d.1)

  pub front-Distinct :
      (k : Bytes) (v : V) (l : List (Bytes × V)) → Distinct l → Distinct ((k, v) ∷ erase k l)
  front-Distinct k v l d = (find-erase_self k l d, erase-Distinct k l d)

  pub touch-Distinct : (k : Bytes) (l : List (Bytes × V)) → Distinct l → Distinct (touch k l)
  touch-Distinct k l d = elim (Option-cases (find k l)) [
    | inl e ↦ rw (e, touch) d
    | inr (v, e) ↦ rw (e, touch) (front-Distinct k v l d)
  ]

  -- The total of a measure over the values.
  module _ (size : V → ℕ) where
    unfoldable pub total : List (Bytes × V) → ℕ
    total [] = 0
    total ((k, v) ∷ l) = size v + total l

    pub total-take-drop :
        (n : ℕ) (l : List (Bytes × V)) → total (take n l) + total (drop n l) ≡ total l
    unfolding total
    total-take-drop zero l = omega arith
    total-take-drop (suc n) [] = omega arith
    total-take-drop (suc n) ((k, v) ∷ l) = omega (arith, total-take-drop n l)

    pub total-erase :
        (k : Bytes) (l : List (Bytes × V)) (v : V)
        → find k l ≡ some v
        → size v + total (erase k l) ≡ total l
    unfolding total find erase
    total-erase k [] v h = absurd (cc)
    total-erase k ((j, w) ∷ l) v h = ground (arith, total-erase k l v)

    pub total-append : (l m : List (Bytes × V)) → total (l ++ m) ≡ total l + total m
    unfolding total
    total-append [] m = omega arith
    total-append ((k, v) ∷ l) m = omega (arith, total-append l m)

    pub total_of_length : (l : List (Bytes × V)) → length l ≡ 0 → total l ≡ 0
    unfolding total
    total_of_length [] h = refl
    total_of_length (e ∷ l) h = absurd (omega arith)

    pub total-touch : (k : Bytes) (l : List (Bytes × V)) → total (touch k l) ≡ total l
    unfolding total
    total-touch k l = elim (Option-cases (find k l)) [
      | inl e ↦ rw (e, touch)
      | inr (v, e) ↦ rw (e, touch) (total-erase k l v e)
    ]
