-- ===== src/Lru/Listed.antt =====
-- A store that keeps its entries in a list: it meets what `Lru` states.
use static_web.Prelude.{ℕ, ◌-◌, ◌<◌, refl, none, some, List, [], ◌∷◌, Bytes, length, take, drop}
use static_web.Lru.{Lru, find, erase, values, touch}

module _ {V : Type 0} (capacity : ℕ) (capacity_pos : 0 < capacity) where
  abbrev pub listed : Lru V
  listed = record {
    Store = List (Bytes × V);
    capacity = capacity;
    entries = λ s. s;
    new = [];
    peek = λ k s. find k s;
    get = λ k s. (find k s, touch k s);
    add =
        λ k v s. (values (drop capacity ((k, v) ∷ erase k s)), take capacity ((k, v) ∷ erase k s));
    remove = λ k s. (elim (find k s) [ none ↦ [] | some v ↦ v ∷ [] ], erase k s);
    remove_oldest = λ s. (values (drop (length s - 1) s), take (length s - 1) s);
    len = λ s. length s;
    purge = λ s. (values s, []);
    capacity_pos = capacity_pos;
    entries-new = refl;
    peek_lem = λ k s. refl;
    get_value = λ k s. refl;
    entries-get = λ k s. refl;
    entries-add = λ k v s. refl;
    evicted-add = λ k v s. refl;
    entries-remove = λ k s. refl;
    evicted-remove = λ k s. refl;
    entries-remove_oldest = λ s. refl;
    evicted-remove_oldest = λ s. refl;
    len_lem = λ s. refl;
    entries-purge = λ s. refl;
  }
