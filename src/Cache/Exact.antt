-- ===== src/Cache/Exact.antt =====
-- Which operations keep the byte count exact and within the limit.
use static_web.Prelude.{
  ℕ, zero, suc, ◌+◌, ◌-◌, ◌^◌, ◌≤◌, ◌<◌, ◌≡◌, refl, sym, ap, ◌∙◌, ℤ, false, ◌&&◌, none, some, Bytes,
  take, drop, arith, Bool-cases, inl, inr, ltb, add_int64, sub_int64-le, gt_int64,
}
use static_web.Lru.{Lru, find, erase}
use static_web.Lru.Laws.{
  Distinct, take-Distinct, front-Distinct, total, total-take-drop, total-erase, erase_absent,
  find-take_absent, take_pos, drop_pos,
}
use static_web.Cache.{Entry, on_evict, Cache, evict_loop, without_old, add_entry, put, stamp}
use static_web.Cache.File.{total_size}
use static_web.Cache.Accounting.{entry_size, on_evict-total, held, IsExact, Room, evict_loop-Room}

pub stamp-size : (now : ℤ) (ttl : ℕ) (e : Entry) → entry_size (stamp now ttl e) ≡ entry_size e
unfolding stamp total_size
stamp-size now ttl e = refl

module _ (lru : Lru Entry) where
  add_entry-IsExact :
      (path : Bytes) (e : Entry) (new_size cur : ℕ) (s : lru.Store) (c : Cache lru)
      → entry_size e ≡ new_size
      → cur ≡ total entry_size (erase path (lru.entries s))
      → cur + new_size ≤ c.max_bytes
      → c.max_bytes < 2 ^ 62
      → Distinct (lru.entries s)
      → IsExact lru (add_entry lru path e new_size (cur, s) c)
  unfolding add_entry held total
  add_entry-IsExact path e new_size cur s c same h fits small d =
      let k = lru.capacity - 1 in
      let l = erase path (lru.entries s) in
      let cut = total-take-drop entry_size k l in
      let ev : on_evict cur (lru.add path e s).0 ≡ cur - total entry_size (drop k l) =
        rw (lru.evicted-add path e s, drop_pos lru.capacity (path, e) l lru.capacity_pos)
          (on_evict-total cur (drop k l) (omega arith) (omega (arith, cut))) in
      let en : held lru (lru.add path e s).1 ≡ new_size + total entry_size (take k l) =
        rw (lru.entries-add path e s, take_pos lru.capacity (path, e) l lru.capacity_pos)
          (omega (arith, same)) in
      record {
        counted = rw (ev, en) (omega (arith, cut));
        bounded = rw en (omega (arith, cut));
        small = small;
        distinct =
            rw (lru.entries-add path e s)
              (take-Distinct lru.capacity _ (front-Distinct path e (lru.entries s) d));
      }

  -- The loop is entered with fuel for every entry.
  pub room :
      (new_size cur : ℕ) (c : Cache lru)
      → new_size ≤ c.max_bytes
      → c.max_bytes < 2 ^ 62
      → cur ≡ held lru c.store
      → cur ≤ c.max_bytes
      → Room lru new_size c.max_bytes c.store
          (evict_loop lru (lru.len c.store) new_size c.max_bytes cur c.store)
  room new_size cur c fits small h le =
      evict_loop-Room lru (lru.len c.store) new_size c.max_bytes cur c.store small fits h le
        (omega (arith, lru.len_lem c.store))

  -- Put of a file that the cache does not hold keeps the count exact and within the limit: other
  -- files make room.
  pub put_absent-IsExact :
      (now : ℤ) (path : Bytes) (e : Entry) (c : Cache lru)
      → lru.peek path c.store ≡ none
      → IsExact lru c
      → IsExact lru (put lru now path e c)
  unfolding put without_old held
  put_absent-IsExact now path e c absent v = elim (Bool-cases (ltb c.max_bytes (entry_size e))) [
    | inl big ↦ rw (big, put) v
    | inr small ↦
        let vs = v.small in
        let vb = v.bounded in
        let vc = v.counted in
        let r = room (entry_size e) c.cur_bytes c (ground arith) v.small v.counted (omega arith) in
        let s' =
          (evict_loop lru (lru.len c.store) (entry_size e) c.max_bytes c.cur_bytes c.store).1 in
        let gone : find path (lru.entries s') ≡ none = rw r.recent (
          find-take_absent path r.kept (lru.entries c.store)
            (sym (lru.peek_lem path c.store) ∙ absent)) in
        rw (small, absent, put, without_old)
          (add_entry-IsExact path (stamp now c.ttl e) (entry_size e) _ s' c (stamp-size now c.ttl e)
            (r.counted ∙ sym (ap (total entry_size) (erase_absent path (lru.entries s') gone)))
            r.fits v.small (rw r.recent (take-Distinct r.kept _ v.distinct)))
  ]

  pub evict_loop_stop :
      (fuel new_size max cur : ℕ) (s : lru.Store)
      → max < 2 ^ 62
      → cur + new_size ≤ max
      → evict_loop lru fuel new_size max cur s ≡ (cur, s)
  unfolding evict_loop
  evict_loop_stop zero new_size max cur s small h = refl
  evict_loop_stop (suc fuel) new_size max cur s small h =
      let g : (gt_int64 (add_int64 cur new_size) max && ltb 0 (lru.len s)) ≡ false = ground arith in
      rw (g, evict_loop)

  pub without_old-total :
      (path : Bytes) (c : Cache lru) (old : Entry)
      → lru.peek path c.store ≡ some old
      → IsExact lru c
      → without_old lru path c ≡ total entry_size (erase path (lru.entries c.store))
  unfolding without_old held
  without_old-total path c old found v =
      let vs = v.small in
      let vb = v.bounded in
      let vc = v.counted in
      let t =
        total-erase entry_size path (lru.entries c.store) old
          (sym (lru.peek_lem path c.store) ∙ found) in
      rw (found, without_old)
        (sub_int64-le c.cur_bytes (entry_size old) (omega arith) (omega arith) ∙ omega arith)

  -- Put for a path that the cache holds keeps the count exact and within the limit, if the new
  -- file fits beside the other files.
  pub put_replaced-IsExact :
      (now : ℤ) (path : Bytes) (e old : Entry) (c : Cache lru)
      → lru.peek path c.store ≡ some old
      → held lru c.store + entry_size e ≤ c.max_bytes + entry_size old
      → IsExact lru c
      → IsExact lru (put lru now path e c)
  unfolding put held
  put_replaced-IsExact now path e old c found fits v =
      let vs = v.small in
      let t =
        total-erase entry_size path (lru.entries c.store) old
          (sym (lru.peek_lem path c.store) ∙ found) in
      let w = without_old-total path c old found v in
      let small : ltb c.max_bytes (entry_size e) ≡ false = ground arith in
      rw
        (
          small,
          put,
          w,
          evict_loop_stop (lru.len c.store) (entry_size e) c.max_bytes
              (total entry_size (erase path (lru.entries c.store))) c.store vs (omega arith),
        )
        (add_entry-IsExact path (stamp now c.ttl e) (entry_size e) _ c.store c
          (stamp-size now c.ttl e) refl (omega arith) vs v.distinct)
