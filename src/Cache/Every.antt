-- ===== src/Cache/Every.antt =====
-- What holds of every file of the cache, and does not depend on its expiry, goes on holding.
use static_web.Prelude.{
  ℕ, zero, suc, ◌≡◌, sym, ◌∙◌, ◌&&◌, ◌==◌, ℤ, some, ◌∷◌, Bytes, Bool-cases, Option-cases, inl, inr,
  All, length, ltb, gt_int64, add_int64, ◌-◌,
}
use static_web.Lru.{Lru, erase}
use static_web.Lru.Every.{All-find, All-erase, All-take, All-touch}
use static_web.Cache.{
  Entry, Cache, on_evict, is_expired, stamp, remove_if_same, get, evict_loop, add_entry,
  without_old, put,
}
use static_web.Cache.Accounting.{entry_size}

module _ (lru : Lru Entry) (P : Bytes × Entry → Type 0) where
  abbrev pub Every : Cache lru → Type 0
  Every c = All P (lru.entries c.store)

  remove_if_same-Every :
      (path : Bytes) (e : Entry) (c : Cache lru) → Every c → Every (remove_if_same lru path e c)
  unfolding remove_if_same
  remove_if_same-Every path e c h = elim (Option-cases (lru.peek path c.store)) [
    | inl o ↦ rw (o, remove_if_same) h
    | inr (w, o) ↦ elim (Bool-cases (w.address == e.address)) [
      | inl a ↦
          rw (o, a, remove_if_same, lru.entries-remove path c.store)
            (All-erase P path (lru.entries c.store) h)
      | inr a ↦ rw (o, a, remove_if_same) h
    ]
  ]

  pub get-Every : (now : ℤ) (path : Bytes) (c : Cache lru) → Every c → Every (get lru now path c).1
  unfolding get
  get-Every now path c h =
      let touched : All P (lru.entries (lru.get path c.store).1) =
        rw (lru.entries-get path c.store) (All-touch P path (lru.entries c.store) h) in
      elim (Option-cases ((lru.get path c.store).0)) [
        | inl o ↦ rw (o, get) touched
        | inr (w, o) ↦ elim (Bool-cases (is_expired now w.file)) [
          | inl x ↦
              rw (o, x, get)
                (remove_if_same-Every path w (record c { store = (lru.get path c.store).1 })
                  touched)
          | inr x ↦ rw (o, x, get) touched
        ]
      ]

  -- A hit is one of the files.
  pub get_hit-Every :
      (now : ℤ) (path : Bytes) (e : Entry) (c : Cache lru)
      → Every c
      → (get lru now path c).0 ≡ some e
      → P (path, e)
  unfolding get
  get_hit-Every now path e c h hit = elim (Option-cases ((lru.get path c.store).0)) [
    | inl o ↦ absurd (cc (rw (o, get) at hit))
    | inr (w, o) ↦ elim (Bool-cases (is_expired now w.file)) [
      | inl x ↦ absurd (cc (rw (o, x, get) at hit))
      | inr x ↦
          let same : w ≡ e = cc (rw (o, x, get) at hit) in
          rw (sym same)
            (All-find P path w (lru.entries c.store) h (sym (lru.get_value path c.store) ∙ o))
    ]
  ]

  evict_loop-Every :
      (fuel new_size max cur : ℕ) (s : lru.Store)
      → All P (lru.entries s)
      → All P (lru.entries (evict_loop lru fuel new_size max cur s).1)
  unfolding evict_loop
  evict_loop-Every zero new_size max cur s h = h
  evict_loop-Every (suc fuel) new_size max cur s h =
      elim (Bool-cases (gt_int64 (add_int64 cur new_size) max && ltb 0 (lru.len s))) [
        | inl g ↦
            rw (g, evict_loop)
              (evict_loop-Every fuel new_size max (on_evict cur (lru.remove_oldest s).0)
                (lru.remove_oldest s).1
                (rw (lru.entries-remove_oldest s)
                  (All-take P (length (lru.entries s) - 1) (lru.entries s) h)))
        | inr g ↦ rw (g, evict_loop) h
      ]

  pub put-Every :
      (now : ℤ) (path : Bytes) (e : Entry) (c : Cache lru)
      → P (path, stamp now c.ttl e)
      → Every c
      → Every (put lru now path e c)
  unfolding put add_entry
  put-Every now path e c p h = elim (Bool-cases (ltb c.max_bytes (entry_size e))) [
    | inl big ↦ rw (big, put) h
    | inr small ↦
        let left =
          evict_loop lru (lru.len c.store) (entry_size e) c.max_bytes (without_old lru path c)
            c.store in
        rw (small, put, lru.entries-add path (stamp now c.ttl e) left.1)
          (All-take P lru.capacity ((path, stamp now c.ttl e) ∷ erase path (lru.entries left.1)) (
            p,
            All-erase P path (lru.entries left.1) (
                evict_loop-Every (lru.len c.store) (entry_size e) c.max_bytes
                  (without_old lru path c) c.store h),
          ))
  ]
