-- ===== src/Cache/Overflow.antt =====
-- Where `Put` breaks the byte limit: it subtracts the size of the file that it replaces, and the
-- eviction callback subtracts it again when that file is the oldest and is evicted.
use static_web.Prelude.{
  ℕ, suc, ◌+◌, ◌-◌, ◌^◌, ◌≤◌, ◌<◌, ◌≡◌, sym, ap, ◌∙◌, ℤ, true, false, ◌&&◌, none, some, List, [],
  ◌∷◌, ◌++◌, Bytes, length, length-append, take-append, drop-append, arith, ltb, sub_int64-le,
  add_int64, gt_int64,
}
use static_web.Lru.{Lru, find, erase, values}
use static_web.Lru.Laws.{
  total, erase_absent, take_of_length-le, drop_of_length-le, find-append_last, total-append,
  total-erase,
}
use static_web.Cache.{Entry, on_evict, Cache, evict_loop, add_entry, put, stamp}
use static_web.Cache.Accounting.{entry_size, held, IsExact}
use static_web.Cache.Exact.{evict_loop_stop, stamp-size, without_old-total}

module _ (lru : Lru Entry) where
  -- The oldest entry is evicted alone.
  evict_oldest :
      (s : lru.Store) (rest : List (Bytes × Entry)) (path : Bytes) (old : Entry)
      → lru.entries s ≡ rest ++ (path, old) ∷ []
      → (lru.entries (lru.remove_oldest s).1 ≡ rest) × ((lru.remove_oldest s).0 ≡ old ∷ [])
  evict_oldest s rest path old h =
      let n : length (lru.entries s) - 1 ≡ length rest =
        rw h (omega (arith, length-append rest ((path, old) ∷ []))) in
      (
        rw (lru.entries-remove_oldest s, n, h) (take-append rest ((path, old) ∷ [])),
        rw (lru.evicted-remove_oldest s, n, h) (ap values (drop-append rest ((path, old) ∷ []))),
      )

  -- The loop subtracts the old file once more, and stops there.
  evict_loop-oldest :
      (s : lru.Store) (rest : List (Bytes × Entry)) (path : Bytes) (old : Entry) (new_size max : ℕ)
      → lru.entries s ≡ rest ++ (path, old) ∷ []
      → max < 2 ^ 62
      → new_size ≤ max
      → total entry_size rest ≤ max
      → max < total entry_size rest + new_size
      → entry_size old ≤ total entry_size rest
      → total entry_size rest + new_size ≤ max + entry_size old
      → evict_loop lru (lru.len s) new_size max (total entry_size rest) s
        ≡ (total entry_size rest - entry_size old, (lru.remove_oldest s).1)
  unfolding evict_loop on_evict
  evict_loop-oldest s rest path old new_size max shape small fits within over le stop =
      let t = total entry_size rest in
      let n : lru.len s ≡ suc (length rest) =
        rw (lru.len_lem s, shape) (omega (arith, length-append rest ((path, old) ∷ []))) in
      let pos : ltb 0 (lru.len s) ≡ true = ground (arith, n) in
      let g : (gt_int64 (add_int64 t new_size) max && ltb 0 (lru.len s)) ≡ true =
        ground (arith, pos) in
      let one : on_evict t (lru.remove_oldest s).0 ≡ t - entry_size old =
        rw (evict_oldest s rest path old shape).1
          (sub_int64-le t (entry_size old) (omega arith) le) in
      let step : evict_loop lru (suc (length rest)) new_size max t s
          ≡ evict_loop lru (length rest) new_size max (on_evict t (lru.remove_oldest s).0)
              (lru.remove_oldest s).1 =
        rw (g, evict_loop) in
      rw n (
        step
        ∙ rw one (
            evict_loop_stop lru (length rest) new_size max (t - entry_size old)
              (lru.remove_oldest s).1 small (omega arith)))

  -- `Add` of a path that is not held, with room for one more entry.
  add_entry-fresh :
      (s : lru.Store) (rest : List (Bytes × Entry)) (path : Bytes) (e : Entry) (cur new_size : ℕ)
      (c : Cache lru)
      → lru.entries s ≡ rest
      → find path rest ≡ none
      → length rest < lru.capacity
      → (held lru (add_entry lru path e new_size (cur, s) c).store
          ≡ entry_size e + total entry_size rest)
        × ((add_entry lru path e new_size (cur, s) c).cur_bytes ≡ add_int64 cur new_size)
  unfolding add_entry held total on_evict
  add_entry-fresh s rest path e cur new_size c shape fresh few = (
    rw (
      lru.entries-add path e s,
      shape,
      erase_absent path rest fresh,
      take_of_length-le lru.capacity ((path, e) ∷ rest) few,
    ),
    rw (
      lru.evicted-add path e s,
      shape,
      erase_absent path rest fresh,
      drop_of_length-le lru.capacity ((path, e) ∷ rest) few,
    ),
  )

  -- Put for the path of the oldest file, on a cache with an exact count and room for one more
  -- entry, where the new file fits but not beside the other files, is no more than the old file
  -- too large for that, and the old file is no larger than the others together: the old file is
  -- subtracted twice, so the loop stops early; the cache then holds more than its limit, and
  -- counts less than it holds by the size of the old file.
  pub put_oldest-exceeds :
      (now : ℤ) (path : Bytes) (e old : Entry) (rest : List (Bytes × Entry)) (c : Cache lru)
      → lru.entries c.store ≡ rest ++ (path, old) ∷ []
      → find path rest ≡ none
      → length rest < lru.capacity
      → IsExact lru c
      → entry_size e ≤ c.max_bytes
      → c.max_bytes < total entry_size rest + entry_size e
      → entry_size old ≤ total entry_size rest
      → total entry_size rest + entry_size e ≤ c.max_bytes + entry_size old
      → (c.max_bytes < held lru (put lru now path e c).store)
        × ((put lru now path e c).cur_bytes + entry_size old
            ≡ held lru (put lru now path e c).store)
  unfolding put held total
  put_oldest-exceeds now path e old rest c shape fresh few v fits over le stop =
      let vs = v.small in
      let vb = v.bounded in
      let vc = v.counted in
      let s1 = (lru.remove_oldest c.store).1 in
      let found : lru.peek path c.store ≡ some old =
        rw (lru.peek_lem path c.store, shape) (find-append_last path old rest fresh) in
      let all : held lru c.store ≡ total entry_size rest + entry_size old =
        rw shape (total-append entry_size rest ((path, old) ∷ []) ∙ omega arith) in
      let w = without_old-total lru path c old found v in
      let t : total entry_size (erase path (lru.entries c.store)) ≡ total entry_size rest = omega (
        arith,
        total-erase entry_size path (lru.entries c.store) old
            (sym (lru.peek_lem path c.store) ∙ found),
        all,
      ) in
      let small : ltb c.max_bytes (entry_size e) ≡ false = ground arith in
      let loop =
        evict_loop-oldest c.store rest path old (entry_size e) c.max_bytes shape vs fits
          (omega (arith, all)) over le stop in
      let (h, cur) =
        add_entry-fresh s1 rest path (stamp now c.ttl e) (total entry_size rest - entry_size old)
          (entry_size e) c (evict_oldest c.store rest path old shape).0 fresh few in
      let same = stamp-size now c.ttl e in
      rw (small, put, w, t, loop) (omega (arith, h, same), rw (cur, h) (omega (arith, same)))
