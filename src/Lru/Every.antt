-- ===== src/Lru/Every.antt =====
-- What holds of every entry of a store goes on holding when entries are dropped or moved.
use static_web.Prelude.{
  ℕ, zero, suc, ◌≡◌, sym, some, List, [], ◌∷◌, Bytes, Bool-cases, Option-cases, inl, inr, All, take,
}
use static_web.Strings.{bytes_eq}
use static_web.Strings.Laws.{bytes_eq_iff}
use static_web.Lru.{find, erase, touch}

module _ {V : Type 0} (P : Bytes × V → Type 0) where
  pub All-find : (k : Bytes) (v : V) (l : List (Bytes × V)) → All P l → find k l ≡ some v → P (k, v)
  unfolding find
  All-find k v [] h e = absurd (cc)
  All-find k v ((j, w) ∷ l) h e = elim (Bool-cases (bytes_eq j k)) [
    | inl y ↦
        let same : w ≡ v = cc (rw y at e) in
        let key : j ≡ k = (bytes_eq_iff j k).0 y in rw (sym same, sym key) h.0
    | inr n ↦ All-find k v l h.1 (rw n at e)
  ]

  pub All-erase : (k : Bytes) (l : List (Bytes × V)) → All P l → All P (erase k l)
  unfolding erase
  All-erase k [] h = h
  All-erase k ((j, w) ∷ l) h = elim (Bool-cases (bytes_eq j k)) [
    | inl y ↦ rw y h.1
    | inr n ↦ rw n (h.0, All-erase k l h.1)
  ]

  pub All-take : (n : ℕ) (l : List (Bytes × V)) → All P l → All P (take n l)
  All-take zero l h = tt
  All-take (suc n) [] h = tt
  All-take (suc n) (x ∷ l) h = (h.0, All-take n l h.1)

  pub All-touch : (k : Bytes) (l : List (Bytes × V)) → All P l → All P (touch k l)
  All-touch k l h = elim (Option-cases (find k l)) [
    | inl e ↦ rw (e, touch) h
    | inr (v, e) ↦ rw (e, touch) (All-find k v l h e, All-erase k l h)
  ]
