-- ===== src/Lru.antt =====
-- What the caches use of github.com/hashicorp/golang-lru/v2, as an interface: the store is abstract,
-- and its operations are described by the entries, the most recently used first.
-- An operation gives the values that it hands to the eviction callback, in order.
pub mod Laws
pub mod Listed
pub mod Every
use static_web.Prelude.{
  ℕ, zero, suc, ◌+◌, ◌-◌, ◌≤◌, ◌<◌, ◌≡◌, Option, none, some, List, [], ◌∷◌, ◌++◌, map, Bytes,
  length, take, drop, true, false, if◌then◌else◌,
}
use static_web.Strings.{bytes_eq}

module _ {V : Type 0} where
  -- The value of a key.
  unfoldable pub find : Bytes → List (Bytes × V) → Option V
  find k [] = none
  find k ((j, v) ∷ l) = if bytes_eq j k then some v else find k l

  -- The entries without a key.
  unfoldable pub erase : Bytes → List (Bytes × V) → List (Bytes × V)
  erase k [] = []
  erase k ((j, v) ∷ l) = if bytes_eq j k then l else (j, v) ∷ erase k l

  abbrev pub values : List (Bytes × V) → List V
  values [] = []
  values ((k, v) ∷ l) = v ∷ values l

  -- A hit becomes the most recent entry.
  abbrev pub touch : Bytes → List (Bytes × V) → List (Bytes × V)
  touch k l = elim (find k l) [ none ↦ l | some v ↦ (k, v) ∷ erase k l ]

-- Keys are Go strings. `capacity` is the limit on the number of entries.
pub record Lru (V : Type 0) : Type 1 where
  pub Store : Type 0
  pub capacity : ℕ
  pub entries : Store → List (Bytes × V)
  pub new : Store
  pub peek : Bytes → Store → Option V
  pub get : Bytes → Store → Option V × Store
  pub add : Bytes → V → Store → List V × Store
  pub remove : Bytes → Store → List V × Store
  pub remove_oldest : Store → List V × Store
  pub len : Store → ℕ
  pub purge : Store → List V × Store
  pub capacity_pos : 0 < capacity
  pub entries-new : entries new ≡ []
  pub peek_lem : (k : Bytes) (s : Store) → peek k s ≡ find k (entries s)
  pub get_value : (k : Bytes) (s : Store) → (get k s).0 ≡ find k (entries s)
  pub entries-get : (k : Bytes) (s : Store) → entries (get k s).1 ≡ touch k (entries s)
  -- A replaced value is not handed to the callback; an entry that is pushed out is.
  pub entries-add :
      (k : Bytes) (v : V) (s : Store)
      → entries (add k v s).1 ≡ take capacity ((k, v) ∷ erase k (entries s))
  pub evicted-add :
      (k : Bytes) (v : V) (s : Store)
      → (add k v s).0 ≡ values (drop capacity ((k, v) ∷ erase k (entries s)))
  pub entries-remove : (k : Bytes) (s : Store) → entries (remove k s).1 ≡ erase k (entries s)
  pub evicted-remove :
      (k : Bytes) (s : Store)
      → (remove k s).0 ≡ elim (find k (entries s)) [ none ↦ [] | some v ↦ v ∷ [] ]
  pub entries-remove_oldest :
      (s : Store) → entries (remove_oldest s).1 ≡ take (length (entries s) - 1) (entries s)
  pub evicted-remove_oldest :
      (s : Store) → (remove_oldest s).0 ≡ values (drop (length (entries s) - 1) (entries s))
  pub len_lem : (s : Store) → len s ≡ length (entries s)
  pub entries-purge : (s : Store) → entries (purge s).1 ≡ []
