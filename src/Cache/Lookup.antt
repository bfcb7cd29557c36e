-- ===== src/Cache/Lookup.antt =====
-- `Get`, and what it reads after a `Put`.
use static_web.Prelude.{
  ℕ, ◌+◌, ◌≤◌, ◌≡◌, sym, ◌∙◌, ℤ, false, Option, none, some, Bytes, arith, Bool-cases, Option-cases,
  inl, inr, ltb, sub_int64-le, ==_self, if◌then◌else◌,
}
use static_web.Lru.{Lru, find}
use static_web.Lru.Laws.{
  total-erase, total-touch, find-touch, find-erase_self, erase-Distinct, touch-Distinct,
  find-take_front,
}
use static_web.Cache.{
  Entry, on_evict, Cache, add_entry, put, get, remove_if_same, is_expired, stamp,
}
use static_web.Cache.Accounting.{entry_size, held, IsExact}

-- What a lookup may return: the entry that is stored, unless it has expired.
abbrev pub live : ℤ → Option Entry → Option Entry
live now none = none
live now (some e) = if is_expired now e.file then none else some e

module _ (lru : Lru Entry) where
  -- Get returns the entry that is stored for the path, unless that has expired.
  pub get-live :
      (now : ℤ) (path : Bytes) (c : Cache lru)
      → (get lru now path c).0 ≡ live now (find path (lru.entries c.store))
  unfolding get
  get-live now path c = elim (Option-cases (find path (lru.entries c.store))) [
    | inl e ↦ rw (lru.get_value path c.store, e, get)
    | inr (v, e) ↦ elim (Bool-cases (is_expired now v.file)) [
      | inl x ↦ rw (lru.get_value path c.store, e, get, x)
      | inr x ↦ rw (lru.get_value path c.store, e, get, x)
    ]
  ]

  -- What `removeIfSame` does to the entry that was just read.
  remove_if_same-IsExact :
      (path : Bytes) (e : Entry) (c : Cache lru)
      → find path (lru.entries c.store) ≡ some e
      → IsExact lru c
      → IsExact lru (remove_if_same lru path e c)
        × (lru.peek path (remove_if_same lru path e c).store ≡ none)
  unfolding remove_if_same on_evict held
  remove_if_same-IsExact path e c found v =
      let vs = v.small in
      let vb = v.bounded in
      let vc = v.counted in
      let t = total-erase entry_size path (lru.entries c.store) e found in
      rw
        (
          lru.peek_lem path c.store,
          found,
          remove_if_same,
          ==_self e.address,
          lru.evicted-remove path c.store,
          found,
        )
        (
          record {
            counted =
                rw (lru.entries-remove path c.store) (
                  sub_int64-le c.cur_bytes (entry_size e) (omega arith) (omega arith)
                  ∙ omega arith);
            bounded = rw (lru.entries-remove path c.store) (omega arith);
            distinct = rw (lru.entries-remove path c.store) (erase-Distinct path _ v.distinct);
            small = vs;
          },
          rw (lru.peek_lem path (lru.remove path c.store).1, lru.entries-remove path c.store)
              (find-erase_self path _ v.distinct),
        )

  touched-IsExact :
      (path : Bytes) (c : Cache lru) (hits misses : ℕ)
      → IsExact lru c
      → IsExact lru (record c { store = (lru.get path c.store).1; hits = hits; misses = misses })
  unfolding held
  touched-IsExact path c hits misses v = record {
    counted =
        rw (lru.entries-get path c.store)
          (v.counted ∙ sym (total-touch entry_size path (lru.entries c.store)));
    bounded =
        rw (lru.entries-get path c.store, total-touch entry_size path (lru.entries c.store))
          v.bounded;
    distinct = rw (lru.entries-get path c.store) (touch-Distinct path _ v.distinct);
    small = v.small;
  }

  get_keeps :
      (now : ℤ) (path : Bytes) (c : Cache lru)
      → IsExact lru c
      → IsExact lru (get lru now path c).1
        × ((get lru now path c).0 ≡ none → lru.peek path (get lru now path c).1.store ≡ none)
  unfolding get
  get_keeps now path c v = elim (Option-cases (find path (lru.entries c.store))) [
    | inl e ↦
        rw (lru.get_value path c.store, e, get)
          (
            touched-IsExact path c c.hits (c.misses + 1) v,
            λ _.
                rw
                  (
                    lru.peek_lem path (lru.get path c.store).1,
                    lru.entries-get path c.store,
                    find-touch path path (lru.entries c.store),
                  )
                  e,
          )
    | inr (w, e) ↦ elim (Bool-cases (is_expired now w.file)) [
      | inl x ↦
          rw (lru.get_value path c.store, e, get, x)
            (let r =
                remove_if_same-IsExact path w (record c { store = (lru.get path c.store).1 })
                  (rw (lru.entries-get path c.store, find-touch path path (lru.entries c.store)) e)
                  (touched-IsExact path c c.hits c.misses v) in
              (
                record {
                  counted = r.0.counted;
                  bounded = r.0.bounded;
                  distinct = r.0.distinct;
                  small = r.0.small;
                },
                λ _. r.1,
              ))
      | inr x ↦
          rw (lru.get_value path c.store, e, get, x)
            (touched-IsExact path c (c.hits + 1) c.misses v, λ h. absurd (cc))
    ]
  ]

  -- `Get` keeps the count exact, also where it removes an expired entry.
  pub get-IsExact :
      (now : ℤ) (path : Bytes) (c : Cache lru) → IsExact lru c → IsExact lru (get lru now path c).1
  get-IsExact now path c v = (get_keeps now path c v).0

  -- Behind a miss on a cache with an exact count the path is not held, whether it was absent or
  -- had expired.
  pub get_miss-absent :
      (now : ℤ) (path : Bytes) (c : Cache lru)
      → IsExact lru c
      → (get lru now path c).0 ≡ none
      → lru.peek path (get lru now path c).1.store ≡ none
  get_miss-absent now path c v = (get_keeps now path c v).1

  -- Each lookup is counted once, as a hit or as a miss.
  pub get_counts :
      (now : ℤ) (path : Bytes) (c : Cache lru)
      → (get lru now path c).1.hits + (get lru now path c).1.misses ≡ c.hits + c.misses + 1
  unfolding get remove_if_same
  get_counts now path c = ground arith

  find-put_self :
      (now : ℤ) (path : Bytes) (e : Entry) (c : Cache lru)
      → entry_size e ≤ c.max_bytes
      → find path (lru.entries (put lru now path e c).store) ≡ some (stamp now c.ttl e)
  unfolding put add_entry
  find-put_self now path e c fits =
      let small : ltb c.max_bytes (entry_size e) ≡ false = ground arith in
      rw (small, put, lru.entries-add)
        (find-take_front path (stamp now c.ttl e) lru.capacity _ lru.capacity_pos)

  -- A file that fits is found right after it was put in, with the expiry time that Put sets,
  -- unless that has passed; this holds for a path that the cache held before, too.
  pub get-put_self :
      (now later : ℤ) (path : Bytes) (e : Entry) (c : Cache lru)
      → entry_size e ≤ c.max_bytes
      → is_expired later (stamp now c.ttl e).file ≡ false
      → (get lru later path (put lru now path e c)).0 ≡ some (stamp now c.ttl e)
  get-put_self now later path e c fits alive =
      get-live later path (put lru now path e c) ∙ rw (find-put_self now path e c fits, alive)
